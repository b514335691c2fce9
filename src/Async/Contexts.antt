-- ===== src/Async/Contexts.antt =====
-- The operations on contexts and on the queue. A call that holds a lock is one step.
use sylar_windows.Prelude.{
  ℕ, suc, ◌+◌, List, [], ◌∷◌, ◌++◌, Bool, true, false, ◌&&◌, Option, none, some, ◌==◌,
  if◌then◌else◌,
}
use sylar_windows.Async.State.{Stream, set_ctx, timed_out, io_error, new_ctx}

-- The timer of a context is cancelled and forgotten, if there is one.
abbrev pub drop_timer : ℕ → Option ℕ → Stream → Stream
drop_timer i none s = s
drop_timer i (some t) s = record (set_ctx i (record (s.objects i) { timer = none }) s) {
  cancelled = t ∷ s.cancelled;
}

-- A timeout becomes the result.
abbrev pub mark_timeout : ℕ → Stream → Stream
mark_timeout i s =
    if (s.objects i).timed
    then set_ctx i
        (record (s.objects i) {
          result = timed_out;
          result_str = b't' ∷ b'i' ∷ b'm' ∷ b'e' ∷ b'o' ∷ b'u' ∷ b't' ∷ [];
        })
        s
    else s

-- `doRsp` from the exchange on: `scd` is what `scheduler` was. `schedule(&fiber)` takes the fiber out of the
-- context, which is not asked for it again.
unfoldable pub wake : ℕ → Option ℕ → Option ℕ → Stream → Stream
wake i none f s = s
wake i (some scd) none s = s
wake i (some scd) (some f) s =
    let t = mark_timeout i (drop_timer i (s.objects i).timer s) in
    record t { wakes = record { ctx = i; scheduler = scd; fiber = f } ∷ t.wakes }

-- `Ctx::doRsp`. The exchange of `scheduler` for null succeeds, since the two are one step.
unfoldable pub do_rsp : ℕ → Stream → Stream
do_rsp i s =
    wake i (s.objects i).scheduler (s.objects i).fiber
      (set_ctx i (record (s.objects i) { scheduler = none }) s)

-- `m_ctxs.find(sn)` and `m_ctxs.erase(sn)`.
unfoldable pub lookup : ℕ → List (ℕ × ℕ) → Option ℕ
lookup sn [] = none
lookup sn (e ∷ es) = if e.0 == sn then some e.1 else lookup sn es

unfoldable pub remove : ℕ → List (ℕ × ℕ) → List (ℕ × ℕ)
remove sn [] = []
remove sn (e ∷ es) = if e.0 == sn then es else e ∷ remove sn es

-- `onTimeOut`.
unfoldable pub on_timeout : ℕ → Stream → Stream
on_timeout i s =
    let s' = record s { ctxs = remove (s.objects i).sn s.ctxs } in
    do_rsp i (set_ctx i (record (s'.objects i) { timed = true }) s')

unfoldable pub get_ctx : ℕ → Stream → Option ℕ
get_ctx sn s = lookup sn s.ctxs

-- `getAndDelCtx`, on what `find` found.
abbrev pub take_out : ℕ → Option ℕ → Stream → Option ℕ × Stream
take_out sn none s = (none, s)
take_out sn (some i) s = (some i, record s { ctxs = remove sn s.ctxs })

unfoldable pub get_and_del_ctx : ℕ → Stream → Option ℕ × Stream
get_and_del_ctx sn s = take_out sn (lookup sn s.ctxs) s

-- `insert` keeps what is there under the same serial number.
abbrev pub put_in : ℕ → Option ℕ → Stream → Stream
put_in i none s = record s { ctxs = ((s.objects i).sn, i) ∷ s.ctxs }
put_in i (some j) s = s

unfoldable pub add_ctx : ℕ → Stream → Stream
add_ctx i s = put_in i (lookup (s.objects i).sn s.ctxs) s

abbrev pub is_empty : List ℕ → Bool
is_empty [] = true
is_empty (q ∷ qs) = false

-- `enqueue`: whether the queue was empty, in which case the writer is notified.
unfoldable pub enqueue : ℕ → Stream → Bool × Stream
enqueue i s = (
  is_empty s.queue,
  record s { queue = s.queue ++ i ∷ []; sem = if is_empty s.queue then s.sem + 1 else s.sem },
)

-- The loop at the end of `innerClose`.
unfoldable pub fail_all : List (ℕ × ℕ) → Stream → Stream
fail_all [] s = s
fail_all (e ∷ es) s = fail_all es (
    do_rsp e.1 (
      set_ctx e.1
        (record (s.objects e.1) {
          result = io_error;
          result_str = b'i' ∷ b'o' ∷ b'_' ∷ b'e' ∷ b'r' ∷ b'r' ∷ b'o' ∷ b'r' ∷ [];
        })
        s))

-- `innerClose`; `onClose` of this class does nothing.
unfoldable pub inner_close : Stream → Stream
inner_close s = fail_all s.ctxs (record s {
  disconnects = if s.connected && s.has_disconnect_cb then suc s.disconnects else s.disconnects;
  connected = false;
  sem = s.sem + 1;
  ctxs = [];
  queue = [];
})

-- The loop over the contexts that `doWrite` took; `send` tells whether `doSend` of one succeeds. The
-- contexts sent are listed.
unfoldable pub send_all : (ℕ → Bool) → List ℕ → Stream → List ℕ × Stream
send_all send [] s = ([], s)
send_all send (i ∷ is) s =
    let rest = send_all send is s in if send i then (i ∷ rest.0, rest.1) else ([], inner_close s)

-- A round of `doWrite`, once it is past its semaphore.
unfoldable pub write_round : (ℕ → Bool) → Stream → List ℕ × Stream
write_round send s = send_all send s.queue (record s { queue = [] })

-- The end of `doWrite`.
abbrev pub write_end : Stream → Stream
write_end s = record s { queue = []; wait_sem = s.wait_sem + 1 }

-- A response that `RockStream::doRecv` reads and `doRead` passes on: the context that waits for its
-- serial number, if there is one, gets the result and is woken.
abbrev pub answer : ℕ → List ℕ → Option ℕ × Stream → Stream
answer result result_str (none, s) = s
answer result result_str (some i, s) =
    do_rsp i (set_ctx i (record (s.objects i) { result = result; result_str = result_str }) s)

unfoldable pub respond : ℕ → ℕ → List ℕ → Stream → Stream
respond sn result result_str s = answer result result_str (get_and_del_ctx sn s)

-- The body of `RockStream::request` up to its `YieldToHold`: `i` is the new context, `sn` the number of
-- the request, `t` the new timer, `scd` and `f` the scheduler and the fiber that it runs on.
unfoldable pub wait_for_response : ℕ → ℕ → ℕ → ℕ → ℕ → ℕ → Stream → Stream
wait_for_response i sn timeout_ms scd f t s =
    let c = record new_ctx {
      sn = sn;
      timeout = timeout_ms;
      scheduler = some scd;
      fiber = some f;
    } in
    let s' = add_ctx i (set_ctx i c s) in
    (enqueue i (set_ctx i (record (s'.objects i) { timer = some t }) s')).1

-- `RockStream::request`; on a stream that is closed nothing waits, and the answer is `NOT_CONNECT`.
unfoldable pub request : ℕ → ℕ → ℕ → ℕ → ℕ → ℕ → Stream → Option Stream
request i sn timeout_ms scd f t s =
    if s.connected then some (wait_for_response i sn timeout_ms scd f t s) else none
