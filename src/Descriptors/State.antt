-- ===== src/Descriptors/State.antt =====
-- `FdCtx` and `FdManager`.
use sylar_windows.Prelude.{
  ℕ, ◌+◌, ◌-◌, ◌^◌, List, [], ◌∷◌, Bool, true, false, not, Option, none, some, ◌==◌, if◌then◌else◌,
}

-- `FdCtx`.
pub record FdCtx : Type 0 where
  pub is_init : Bool
  pub is_socket : Bool
  pub sys_nonblock : Bool
  pub user_nonblock : Bool
  pub is_closed : Bool
  pub fd : ℕ
  pub recv_timeout : ℕ
  pub send_timeout : ℕ

-- What the system answers: whether `GetHandleInformation` succeeds on a handle, the error of `getsockopt`
-- on it, where it fails, and the numbers of `WSAENOTSOCK` and `SO_RCVTIMEO`.
pub record System : Type 0 where
  pub has_handle : ℕ → Bool
  pub sockopt_error : ℕ → Option ℕ
  pub not_sock : ℕ
  pub so_rcvtimeo : ℕ

-- `-1` as a `uint64_t` or a `uintptr_t`.
abbrev pub minus_one : ℕ
minus_one = 2 ^ 64 - 1

-- `isSocket`: any error but `WSAENOTSOCK` counts as a socket.
abbrev pub socket_answer : ℕ → Option ℕ → Bool
socket_answer n none = true
socket_answer n (some k) = not (k == n)

unfoldable pub check_socket : System → ℕ → Bool
check_socket sys s = socket_answer sys.not_sock (sys.sockopt_error s)

-- `FdCtx::init` behind its guard.
abbrev pub probe : System → FdCtx → FdCtx
probe sys c =
    let here = sys.has_handle c.fd in
    let socket = if here then check_socket sys c.fd else false in
    record c {
      is_init = here;
      is_socket = socket;
      sys_nonblock = socket;
      user_nonblock = false;
      is_closed = false;
      recv_timeout = minus_one;
      send_timeout = minus_one;
    }

unfoldable pub init : System → FdCtx → FdCtx
init sys c = if c.is_init then c else probe sys c

-- The constructor, which calls `init`.
unfoldable pub new_fd_ctx : System → ℕ → FdCtx
new_fd_ctx sys fd = init sys (record {
  is_init = false;
  is_socket = false;
  sys_nonblock = false;
  user_nonblock = false;
  is_closed = false;
  fd = fd;
  recv_timeout = minus_one;
  send_timeout = minus_one;
})

unfoldable pub set_timeout : System → ℕ → ℕ → FdCtx → FdCtx
set_timeout sys type v c =
    if type == sys.so_rcvtimeo then record c { recv_timeout = v } else record c { send_timeout = v }

unfoldable pub get_timeout : System → ℕ → FdCtx → ℕ
get_timeout sys type c = if type == sys.so_rcvtimeo then c.recv_timeout else c.send_timeout

-- `FdManager`: `datas` gives the object of a descriptor, where `m_datas` has one that is not null;
-- `objects` are the `FdCtx` that have been made, those from `next` on are not yet.
pub record FdManager : Type 0 where
  pub datas : ℕ → Option ℕ
  pub objects : ℕ → FdCtx
  pub next : ℕ

-- How the part of `get` under the read lock ends: with an answer, or going on to make a context.
pub data Look : Type 0 where
  answers : Option ℕ → Look
  creates : Look

abbrev pub look_at : Bool → Option ℕ → Look
look_at auto_create (some i) = answers (some i)
look_at true none = creates
look_at false none = answers none

unfoldable pub look : ℕ → Bool → FdManager → Look
look fd auto_create s = if fd == minus_one then answers none else look_at auto_create (s.datas fd)

abbrev pub put {ℓ} : {A : Type ℓ} → ℕ → A → (ℕ → A) → ℕ → A
put i a f j = if j == i then a else f j

-- The part of `get` under the write lock, and the object that it returns.
unfoldable pub create : System → ℕ → FdManager → ℕ × FdManager
create sys fd s = (
  s.next,
  record {
    datas = put fd (some s.next) s.datas;
    objects = put s.next (new_fd_ctx sys fd) s.objects;
    next = s.next + 1;
  },
)

abbrev pub after_look : System → ℕ → Look → FdManager → Option ℕ × FdManager
after_look sys fd (answers o) s = (o, s)
after_look sys fd creates s = let r = create sys fd s in (some r.0, r.1)

-- `get` of a thread that no other comes in between.
unfoldable pub get : System → ℕ → Bool → FdManager → Option ℕ × FdManager
get sys fd auto_create s = after_look sys fd (look fd auto_create s) s

unfoldable pub del : ℕ → FdManager → FdManager
del fd s = record s { datas = put fd none s.datas }

-- What threads do to the manager and to its contexts, in any order: the second half of a `get`, `del`, and
-- the calls on a context that somebody holds.
pub data Call : Type 0 where
  creates_for deletes : ℕ → Call
  sets_timeout : ℕ → ℕ → ℕ → Call
  sets_user_nonblock sets_sys_nonblock : ℕ → Bool → Call

abbrev pub change : ℕ → (FdCtx → FdCtx) → FdManager → FdManager
change i f s = record s { objects = put i (f (s.objects i)) s.objects }

unfoldable pub run : System → Call → FdManager → FdManager
run sys (creates_for fd) s = (create sys fd s).1
run sys (deletes fd) s = del fd s
run sys (sets_timeout i type v) s = change i (set_timeout sys type v) s
run sys (sets_user_nonblock i v) s = change i (λ c. record c { user_nonblock = v }) s
run sys (sets_sys_nonblock i v) s = change i (λ c. record c { sys_nonblock = v }) s

unfoldable pub run_all : System → List Call → FdManager → FdManager
run_all sys [] s = s
run_all sys (c ∷ cs) s = run_all sys cs (run sys c s)
