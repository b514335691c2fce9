-- ===== src/Async/Connecting.antt =====
-- `start` of a stream, its retries, and the ends of the reader and the writer that it starts.
use sylar_windows.Prelude.{
  ℕ, suc, ◌+◌, ◌-◌, ◌*◌, ◌^◌, ◌%◌, List, ◌∷◌, Bool, true, false, ◌||◌, Option, none, some, ltb, leb,
  if◌then◌else◌,
}
use sylar_windows.Async.State.{Stream}
use sylar_windows.Async.Contexts.{inner_close}

-- The members that `start` uses besides those of `Stream`, and what it has had scheduled: the timers
-- that call `start` again, with their waits, and how often a reader and a writer were started.
pub record Connection : Type 0 where
  pub stream : Stream
  pub auto_connect : Bool
  pub try_connect_count : ℕ
  pub timer : Option ℕ
  pub retries : List (ℕ × ℕ)
  pub runs : ℕ

-- `m_timer->cancel()` and `m_timer = nullptr`.
abbrev pub stop_timer : Connection → Connection
stop_timer c = elim c.timer [
  | none ↦ c
  | some t ↦ record c {
    stream = record c.stream { cancelled = t ∷ c.stream.cancelled };
    timer = none;
  }
]

-- The wait before the next try; the count is a `uint16_t`.
abbrev pub retry_wait : ℕ → ℕ
retry_wait count = if ltb 2000 (count * 2 * 50) then 2000 else count * 2 * 50

-- What follows a try that failed: `t` is the new timer.
unfoldable pub retry : ℕ → Connection → Connection
retry t c =
    let count = (c.try_connect_count + 1) % 2 ^ 16 in
    let d = stop_timer (record c { try_connect_count = count }) in
    if c.auto_connect
    then record d { timer = some t; retries = (t, retry_wait count) ∷ c.retries }
    else record c { try_connect_count = count }

-- The stream is closed and both permits go back.
unfoldable pub give_up : Connection → Connection
give_up c =
    let s = inner_close c.stream in record c { stream = record s { wait_sem = s.wait_sem + 1 + 1 } }

-- The reader and the writer are started.
unfoldable pub go_on : Connection → Connection
go_on c = record c { runs = suc c.runs; try_connect_count = 0 }

-- `start`, once its two waits are over; `reconnects` and `accepts` tell what `reconnect` and the connect
-- callback answer, the latter true also if there is none.
unfoldable pub start_waited : ℕ → Bool → Bool → Connection → Bool × Connection
start_waited t reconnects accepts c =
    let d = stop_timer c in
    let up = record d { stream = record d.stream { connected = true } } in
    if d.stream.connected || reconnects
    then (if accepts then (true, go_on up) else (false, retry t (give_up up)))
    else (false, retry t (give_up d))

-- `start`; `none` is a call that waits for a reader and a writer to end.
unfoldable pub start : ℕ → Bool → Bool → Connection → Option (Bool × Connection)
start t reconnects accepts c =
    if leb 2 c.stream.wait_sem
    then some (
        start_waited t reconnects accepts
          (record c { stream = record c.stream { wait_sem = c.stream.wait_sem - 2 } }))
    else none

-- The end of `doRead`: `t` is the timer that starts the stream again.
unfoldable pub read_end : ℕ → Connection → Connection
read_end t c =
    let s = inner_close c.stream in
    let d = record c { stream = record s { wait_sem = s.wait_sem + 1 } } in
    if c.auto_connect then record d { retries = (t, 10) ∷ c.retries } else d
