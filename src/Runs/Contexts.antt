-- ===== src/Runs/Contexts.antt =====
-- Runs of the manager of descriptors.
use sylar_windows.Prelude.{
  ◌≡◌, refl, List, [], ◌∷◌, true, false, none, some, ◌==◌, ltb, if◌then◌else◌,
}
use sylar_windows.Descriptors.State.{
  System, init, check_socket, new_fd_ctx, set_timeout, get_timeout, FdManager, look, create, get,
  del, Call, creates_for, deletes, sets_timeout, run, run_all,
}
use sylar_windows.Descriptors.Own.{IsOwn, get-IsOwn}

-- Handles up to 9; 4 is a socket.
abbrev windows : System
windows = record {
  has_handle = λ fd. ltb fd 10;
  sockopt_error = λ fd. if fd == 4 then none else some 10038;
  not_sock = 10038;
  so_rcvtimeo = 4102;
}

abbrev empty_manager : FdManager
empty_manager = record { datas = λ fd. none; objects = λ i. new_fd_ctx windows 0; next = 0 }

-- The socket 4 gets a context, then the file 5; 4 gets a timeout, and 5 is deleted.
abbrev calls : List Call
calls = creates_for 4 ∷ creates_for 5 ∷ sets_timeout 0 4102 300 ∷ deletes 5 ∷ []

get-calls : (get windows 4 true (run_all windows calls empty_manager)).0 ≡ some 0
unfolding get look run_all run create del set_timeout
get-calls = refl

get_timeout-calls : get_timeout windows 4102 ((run_all windows calls empty_manager).objects 0) ≡ 300
unfolding get_timeout set_timeout run_all run create del
get_timeout-calls = refl

check_socket-windows :
    ((new_fd_ctx windows 4).sys_nonblock ≡ true) × ((new_fd_ctx windows 5).sys_nonblock ≡ false)
unfolding new_fd_ctx init check_socket
check_socket-windows = (refl, refl)

get-IsOwn_example :
    IsOwn
      (get windows 5 true (run_all windows calls empty_manager)).1
      5
      (get windows 5 true (run_all windows calls empty_manager)).0
get-IsOwn_example = get-IsOwn windows calls empty_manager 5 true (λ fd. tt)
