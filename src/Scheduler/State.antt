-- ===== src/Scheduler/State.antt =====
-- The state of a scheduler and its fibers, the task queue, and `schedule`.
use sylar_windows.Prelude.{
  ℕ, ◌+◌, List, [], ◌∷◌, ◌++◌, Bool, true, false, not, ◌&&◌, ◌||◌, Option, none, some, ◌==◌,
  if◌then◌else◌,
}

-- `Fiber::State`.
pub data FiberState : Type 0 where
  init hold exec term ready except : FiberState

-- `m_state` and `m_cb` of a fiber; a callback is known by a number.
pub record Fiber : Type 0 where
  pub state : FiberState
  pub cb : Option ℕ

-- `FiberAndThread`; `thread` is none where the source has -1.
pub record Task : Type 0 where
  pub fiber : Option ℕ
  pub cb : Option ℕ
  pub thread : Option ℕ

-- `fibers` is `m_fibers`, the queue; the fibers themselves are objects, and `next` is `s_fiber_id`. `tickles` counts the calls of `tickle`, which an `IOManager` overrides.
pub record Scheduler : Type 0 where
  pub fibers : List Task
  pub active_count : ℕ
  pub idle_count : ℕ
  pub is_stopping : Bool
  pub auto_stop : Bool
  pub objects : ℕ → Fiber
  pub next : ℕ
  pub tickles : ℕ

unfoldable pub set_fiber : ℕ → Fiber → Scheduler → Scheduler
set_fiber f x s = record s { objects = λ g. if g == f then x else s.objects g }

unfoldable pub set_state : ℕ → FiberState → Scheduler → Scheduler
set_state f x s = set_fiber f (record (s.objects f) { state = x }) s

-- `Fiber::swapIn` up to the jump, `Fiber::reset`, and `NewFiber` with the number of the fiber.
unfoldable pub swap_in : ℕ → Scheduler → Scheduler
swap_in f s = set_state f exec s

unfoldable pub reset : ℕ → Option ℕ → Scheduler → Scheduler
reset f cb s = set_fiber f (record { state = init; cb = cb }) s

unfoldable pub new_fiber : ℕ → Scheduler → ℕ × Scheduler
new_fiber c s = let f = s.next + 1 in (f, reset f (some c) (record s { next = f }))

unfoldable pub tickle : Scheduler → Scheduler
tickle s = record s { tickles = s.tickles + 1 }

abbrev pub is_empty : List Task → Bool
is_empty [] = true
is_empty (t ∷ ts) = false

abbrev pub is_some : Option ℕ → Bool
is_some none = false
is_some (some x) = true

abbrev pub has_work : Task → Bool
has_work t = is_some t.fiber || is_some t.cb

-- `scheduleNoLock`: whether the workers are to be told, and the scheduler behind it.
unfoldable pub schedule_no_lock : Task → Scheduler → Bool × Scheduler
schedule_no_lock t s =
    (is_empty s.fibers, if has_work t then record s { fibers = s.fibers ++ t ∷ [] } else s)

abbrev pub tickle_if : Bool × Scheduler → Scheduler
tickle_if r = if r.0 then tickle r.1 else r.1

unfoldable pub schedule : Task → Scheduler → Scheduler
schedule t s = tickle_if (schedule_no_lock t s)

-- The loop of `schedule(begin, end)` under the lock.
unfoldable pub schedule_loop : List Task → Bool → Scheduler → Bool × Scheduler
schedule_loop [] need_tickle s = (need_tickle, s)
schedule_loop (t ∷ ts) need_tickle s =
    let r = schedule_no_lock (record t { thread = none }) s in
    schedule_loop ts (r.0 || need_tickle) r.1

unfoldable pub schedule_all : List Task → Scheduler → Scheduler
schedule_all ts s = tickle_if (schedule_loop ts false s)

-- `Scheduler::stopping`.
unfoldable pub stopping : Scheduler → Bool
stopping s = s.auto_stop && s.is_stopping && is_empty s.fibers && (s.active_count == 0)

-- How `stop` goes on: it returns at once, or it calls the root fiber where there is one and the
-- scheduler is not stopping yet, and waits for the threads.
pub data StopEnd : Type 0 where
  returns_at_once : StopEnd
  waits : Bool → StopEnd

abbrev pub is_present : Option FiberState → Bool
is_present none = false
is_present (some x) = true

abbrev pub unstarted : Option FiberState → Bool
unstarted (some term) = true
unstarted (some init) = true
unstarted _ = false

-- From `m_stopping = true` on: each thread is told, and the root fiber.
unfoldable pub stop_threads : ℕ → Option FiberState → Scheduler → StopEnd × Scheduler
stop_threads threads root s =
    let told = if is_present root then threads + 1 else threads in
    let t = record s { is_stopping = true; tickles = s.tickles + told } in
    (waits (is_present root && not (stopping t)), t)

-- `stop`, with `m_threadCount` and the state of `m_rootFiber`, up to the wait.
unfoldable pub stop : ℕ → Option FiberState → Scheduler → StopEnd × Scheduler
stop threads root s =
    let t = record s { auto_stop = true; is_stopping = true } in
    if (threads == 0) && unstarted root && stopping t
    then (returns_at_once, t)
    else stop_threads threads root (record s { auto_stop = true })
