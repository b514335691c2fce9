-- ===== src/Runs/Streams.antt =====
-- Runs of the asynchronous streams and their pools.
use sylar_windows.Prelude.{
  ℕ, ◌^◌, ◌-◌, ◌+◌, ◌≤◌, ◌≡◌, refl, arith, [], ◌∷◌, All, Bool, true, false, none, ◌==◌,
}
use sylar_windows.Prelude.{List, ◌⊎◌, Option, none, some}
use sylar_windows.Async.Contexts.{write_end}
use sylar_windows.Async.State.{Ctx, Stream, new_ctx, new_stream}
use sylar_windows.Async.Contexts.{
  wait_for_response, respond, on_timeout, inner_close, do_rsp, wake, lookup, remove, add_ctx,
  enqueue, get_and_del_ctx, fail_all, write_round, send_all,
}
use sylar_windows.Async.Answers.{waiting, wakes_of}
use sylar_windows.Async.Closing.{requests, times_out, closes, stays, goes, woken_once}
use sylar_windows.Async.Release.{inner_close_answers}
use sylar_windows.Async.Connecting.{Connection, start, start_waited, retry, give_up, read_end}
use sylar_windows.Async.Permits.{start_permits}
use sylar_windows.Async.Pool.{Pool, new_pool, get}
use sylar_windows.Async.Rotation.{get_misses}

abbrev heap : ℕ → Ctx
heap i = new_ctx

abbrev started : Stream
started = new_stream heap

-- Context 7 asks with serial number 3 on fiber 20 of scheduler 10, with timer 5.
abbrev asked : Stream
asked = wait_for_response 7 3 1000 10 20 5 started

answered_once : wakes_of 7 (on_timeout 7 (inner_close (respond 3 0 [] asked))).wakes ≡ 1
unfolding wait_for_response respond on_timeout inner_close do_rsp wake lookup remove add_ctx enqueue
    get_and_del_ctx fail_all
answered_once = refl

-- What cannot be sent ends the connection, and the request fails.
unsent : wakes_of 7 (write_round (λ i. false) asked).1.wakes ≡ 1
unfolding wait_for_response inner_close do_rsp wake lookup add_ctx enqueue fail_all write_round
    send_all
unsent = refl

woken_once_example : wakes_of 7 (inner_close (on_timeout 7 asked)).wakes ≤ 1
woken_once_example = woken_once heap 7 (inner_close (on_timeout 7 asked)) refl (
    goes started (on_timeout 7 asked) (inner_close (on_timeout 7 asked))
      (goes started asked (on_timeout 7 asked)
        (goes started started asked (stays started) (requests 7 3 1000 10 20 5 started refl refl))
        (times_out 7 asked))
      (closes (on_timeout 7 asked)))

inner_close_answers_example :
    All
      (λ (e : ℕ × ℕ).
        wakes_of e.1 (inner_close asked).wakes
        ≡ waiting (asked.objects e.1).scheduler + wakes_of e.1 asked.wakes)
      asked.ctxs
unfolding wait_for_response add_ctx enqueue lookup
inner_close_answers_example = inner_close_answers asked ((λ e. ground arith), tt)

abbrev pool : Pool
pool = record new_pool { datas = 4 ∷ 5 ∷ 6 ∷ []; size = 3; idx = 10 }

abbrev only_six : ℕ → Bool
only_six i = i == 6

get_misses_example :
    (get only_six (record new_pool { datas = 4 ∷ 5 ∷ 6 ∷ []; size = 3; idx = 2 ^ 32 - 1 })).0 ≡ none
get_misses_example = get_misses only_six 4 5 6 refl refl refl

-- A stream that could not be reached, and one that could.
abbrev connection : Connection
connection = record {
  stream = started;
  auto_connect = true;
  try_connect_count = 24;
  timer = none;
  retries = [];
  runs = 0;
}

abbrev retries_of : Option (Bool × Connection) → List (ℕ × ℕ)
retries_of none = []
retries_of (some r) = r.1.retries

unreachable :
    retries_of
      (start 8 false true (record connection { stream = record started { connected = false } }))
    ≡ (8, 2000) ∷ []
unfolding start start_waited retry give_up inner_close fail_all
unreachable = refl

start_permits_example :
    (b : Bool) × (d : Connection) × (start 8 true true connection ≡ some (b, d))
    × (((b ≡ false) × (d.stream.wait_sem ≡ 2))
        ⊎ ((b ≡ true)
            × (d.stream.wait_sem + 2 ≡ 2)
            × ((read_end 9 (record d { stream = write_end d.stream })).stream.wait_sem ≡ 2)))
start_permits_example = start_permits 8 9 true true connection (omega arith)
