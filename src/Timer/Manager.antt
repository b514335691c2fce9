-- ===== src/Timer/Manager.antt =====
-- The operations of `Timer` and of `TimerManager`. `now` is what `GetCurrentMS()` returns during a call;
-- the lock makes each a step of its own.
use sylar_windows.Prelude.{
  ℕ, ◌*◌, List, [], ◌∷◌, ◌++◌, map, Bool, true, false, ◌&&◌, not, Option, none, some, ltb, leb,
  ◌==◌, if◌then◌else◌, ◌^◌, ◌-◌,
}
use sylar_windows.Timer.State.{
  Timer, TimerManager, add_u64, sub_u64, find, insert, erase, is_begin, lower_bound,
}

abbrev pub with_timers : List Timer → TimerManager → TimerManager
with_timers ts m = record { timers = ts; tickled = m.tickled; previouse_time = m.previouse_time }

abbrev pub with_next : ℕ → Timer → Timer
with_next next t = record {
  address = t.address;
  recurring = t.recurring;
  ms = t.ms;
  next = next;
  cb = t.cb;
}

abbrev pub with_ms : ℕ → Timer → Timer
with_ms ms t = record {
  address = t.address;
  recurring = t.recurring;
  ms = ms;
  next = t.next;
  cb = t.cb;
}

abbrev pub without_cb : Timer → Timer
without_cb t = record {
  address = t.address;
  recurring = t.recurring;
  ms = t.ms;
  next = t.next;
  cb = none;
}

-- `Timer(ms, cb, recurring, manager)`, at the address that the allocator gives.
unfoldable pub new_timer : ℕ → ℕ → ℕ → Option ℕ → Bool → Timer
new_timer now address ms cb recurring = record {
  address = address;
  recurring = recurring;
  ms = ms;
  next = add_u64 now ms;
  cb = cb;
}

-- `TimerManager()`.
abbrev pub new_manager : ℕ → TimerManager
new_manager now = record { timers = []; tickled = false; previouse_time = now }

-- `addTimer(val, lock)`: the manager, and whether `onTimerInsertedAtFront` is called.
unfoldable pub insert_timer : Timer → TimerManager → Bool × TimerManager
insert_timer t m =
    let ts = insert t m.timers in
    let at_front = is_begin t ts && not m.tickled in
    (
      at_front,
      record {
        timers = ts;
        tickled = if at_front then true else m.tickled;
        previouse_time = m.previouse_time;
      },
    )

-- `addTimer(ms, cb, recurring)`.
unfoldable pub add_timer :
    ℕ → ℕ → ℕ → Option ℕ → Bool → TimerManager → Timer × (Bool × TimerManager)
add_timer now address ms cb recurring m =
    let t = new_timer now address ms cb recurring in (t, insert_timer t m)

-- A step on a timer and its manager: what it returns, whether `onTimerInsertedAtFront` is called, and
-- the two afterwards.
pub record Step : Type 0 where
  pub result : Bool
  pub woken : Bool
  pub timer : Timer
  pub manager : TimerManager

-- The result without a change.
abbrev pub stay : Bool → Timer → TimerManager → Step
stay b t m = record { result = b; woken = false; timer = t; manager = m }

-- `if (m_cb)`.
abbrev pub if_cb {ℓ} : {A : Type ℓ} → Option ℕ → A → A → A
if_cb (some c) x y = x
if_cb none x y = y

-- `Timer::cancel`; `none` is `erase(end())`, which C++ leaves undefined.
unfoldable pub cancel : Timer → TimerManager → Option Step
cancel t m =
    let t' = without_cb t in
    if_cb t.cb
      (if find t' m.timers then some (stay true t' (with_timers (erase t' m.timers) m)) else none)
      (some (stay false t m))

-- `Timer::refresh`.
unfoldable pub refresh : ℕ → Timer → TimerManager → Step
refresh now t m =
    let t' = with_next (add_u64 now t.ms) t in
    if_cb t.cb
      (if find t m.timers
        then stay false t' (with_timers (insert t' (erase t m.timers)) m)
        else stay false t m)
      (stay false t m)

-- `Timer::reset`.
unfoldable pub reset : ℕ → ℕ → Bool → Timer → TimerManager → Step
reset now ms from_now t m =
    let start = if from_now then now else sub_u64 t.next t.ms in
    let t' = with_next (add_u64 start ms) (with_ms ms t) in
    let added = insert_timer t' (with_timers (erase t m.timers) m) in
    if (ms == t.ms) && not from_now
    then stay true t m
    else (if_cb t.cb
        (if find t m.timers
          then record { result = true; woken = added.0; timer = t'; manager = added.1 }
          else stay false t m)
        (stay false t m))

-- `getNextTimer`; `~0ull` is the largest `uint64_t`.
unfoldable pub get_next_timer : ℕ → TimerManager → ℕ × TimerManager
get_next_timer now m = (
  elim m.timers [ [] ↦ 2 ^ 64 - 1 | t ∷ ts ↦ if leb t.next now then 0 else sub_u64 t.next now ],
  record { timers = m.timers; tickled = false; previouse_time = m.previouse_time },
)

unfoldable pub has_timer : TimerManager → Bool
has_timer m = elim m.timers [ [] ↦ false | _ ↦ true ]

-- `detectClockRollover`: the answer; the caller stores `now` as the previous time.
unfoldable pub detect_clock_rollover : ℕ → ℕ → Bool
detect_clock_rollover now previouse =
    ltb now previouse && ltb now (sub_u64 previouse (60 * 60 * 1000))

-- The loop that passes the timers which are due at `now` exactly.
unfoldable pub pass_equal : ℕ → List Timer → List Timer × List Timer
pass_equal now [] = ([], [])
pass_equal now (t ∷ ts) =
    let rest = pass_equal now ts in if t.next == now then (t ∷ rest.0, rest.1) else ([], t ∷ ts)

-- What `it` divides the set into. `key` is where the allocator puts `now_timer`.
unfoldable pub split_expired : ℕ → ℕ → Bool → List Timer → List Timer × List Timer
split_expired key now rollover ts =
    if rollover
    then (ts, [])
    else (let low =
          lower_bound (record { address = key; recurring = false; ms = 0; next = now; cb = none })
            ts in
        let equal = pass_equal now low.1 in (low.0 ++ equal.0, equal.1))

-- The loop over `expired`: the recurring timers go back into the set.
unfoldable pub put_back : ℕ → List Timer → List Timer → List Timer
put_back now [] ts = ts
put_back now (t ∷ expired) ts =
    put_back now expired (if t.recurring then insert (with_next (add_u64 now t.ms) t) ts else ts)

-- The same loop: the timers that do not recur, which lose their callbacks and leave the set.
unfoldable pub let_go : List Timer → List Timer
let_go [] = []
let_go (t ∷ expired) =
    let rest = let_go expired in if t.recurring then rest else without_cb t ∷ rest

pub record Listing : Type 0 where
  pub cbs : List (Option ℕ)
  pub released : List Timer
  pub manager : TimerManager

-- The end of `listExpiredCb`, on what `it` divides the set into.
unfoldable pub collect : ℕ → TimerManager → List Timer × List Timer → Listing
collect now m (expired, rest) = record {
  cbs = map (λ t. t.cb) expired;
  released = let_go expired;
  manager = record {
    timers = put_back now expired rest;
    tickled = m.tickled;
    previouse_time = now;
  };
}

-- `listExpiredCb`.
unfoldable pub list_expired_cb : ℕ → ℕ → TimerManager → Listing
list_expired_cb key now m = elim m.timers [
  | [] ↦ record { cbs = []; released = []; manager = m }
  | t ∷ ts ↦
      let rollover = detect_clock_rollover now m.previouse_time in
      if not rollover && ltb now t.next
      then record {
        cbs = [];
        released = [];
        manager = record { timers = t ∷ ts; tickled = m.tickled; previouse_time = now };
      }
      else collect now m (split_expired key now rollover (t ∷ ts))
]
