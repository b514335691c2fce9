-- ===== src/Scheduler/Run.antt =====
-- `Scheduler::run` of each thread, as steps that the threads take in any order.
use sylar_windows.Prelude.{
  ℕ, zero, suc, ◌+◌, ◌%◌, ◌^◌, List, [], ◌∷◌, Bool, true, false, not, ◌||◌, Option, none, some,
  ◌==◌, if◌then◌else◌,
}
use sylar_windows.ByteArray.State.{sub_size}
use sylar_windows.Scheduler.State.{
  FiberState, hold, exec, term, ready, except, Fiber, Task, Scheduler, set_fiber, set_state,
  swap_in, reset, new_fiber, tickle_if, is_empty, schedule, schedule_all, stopping, stop,
}

-- The fiber that a thread has switched to: of a task, or `cb_fiber`.
pub data Job : Type 0 where
  of_task : Task → ℕ → Job
  of_callback : ℕ → Job

-- Where a thread is in the loop of `run`: at its top; behind the block with the lock, with `ft`; in the
-- fiber; in `swapOut`, with the state of the fiber set; behind the decrement; behind the second look
-- at the queue, on its way to the idle fiber; in the idle fiber; behind the loop.
pub data Phase : Type 0 where
  looking resting idling ended : Phase
  picked : Option Task → Phase
  running leaving left : Job → Phase

-- A thread, with its `cb_fiber` and the state of its `idle_fiber`.
pub record Worker : Type 0 where
  pub id : ℕ
  pub phase : Phase
  pub cb_fiber : Option ℕ
  pub idle_fiber : FiberState

unfoldable pub other_thread : ℕ → Option ℕ → Bool
other_thread self none = false
other_thread self (some thread) = not (thread == self)

abbrev pub is_exec : FiberState → Bool
is_exec exec = true
is_exec _ = false

unfoldable pub executing : (ℕ → Fiber) → Option ℕ → Bool
executing objects none = false
executing objects (some f) = is_exec (objects f).state

-- The walk over the queue: `tickle_me`, the task that is taken, and the queue without it.
unfoldable pub scan : ℕ → (ℕ → Fiber) → List Task → Bool × Option Task × List Task
scan self objects [] = (false, none, [])
scan self objects (t ∷ ts) =
    let rest = scan self objects ts in
    if other_thread self t.thread
    then (true, rest.1, t ∷ rest.2)
    else if executing objects t.fiber
    then (rest.0, rest.1, t ∷ rest.2)
    else (false, some t, ts)

unfoldable pub increment : ℕ → ℕ
increment n = (n + 1) % 2 ^ 64

abbrev pub with_taken : Option Task → Scheduler → Scheduler
with_taken none s = s
with_taken (some t) s = record s { active_count = increment s.active_count }

abbrev pub at_phase : Phase → Worker → Worker
at_phase p w = record w { phase = p }

-- The block with the lock, and `tickle` behind it.
unfoldable pub take : Worker → Scheduler → Worker × Scheduler
take w s =
    let r = scan w.id s.objects s.fibers in
    (
      at_phase (picked r.1) w,
      tickle_if (r.0 || not (is_empty r.2), with_taken r.1 (record s { fibers = r.2 })),
    )

abbrev pub finished : FiberState → Bool
finished term = true
finished except = true
finished _ = false

unfoldable pub drop_active : Scheduler → Scheduler
drop_active s = record s { active_count = sub_size s.active_count 1 }

-- The callback of a task: in `cb_fiber`, reset, or in a new fiber; no callback is a round without work.
unfoldable pub run_callback : Worker → Option ℕ → Option ℕ → Scheduler → Worker × Scheduler
run_callback w none cb_fiber s = (at_phase looking w, drop_active s)
run_callback w (some c) (some f) s =
    (at_phase (running (of_callback f)) w, swap_in f (reset f (some c) s))
run_callback w (some c) none s =
    let (f, t) = new_fiber c s in
    (record w { phase = running (of_callback f); cb_fiber = some f }, swap_in f t)

-- The fiber of a task, unless it has ended.
unfoldable pub run_task : Worker → Task → Option ℕ → Scheduler → Worker × Scheduler
run_task w t none s = run_callback w t.cb w.cb_fiber s
run_task w t (some f) s =
    if finished (s.objects f).state
    then run_callback w t.cb w.cb_fiber s
    else (at_phase (running (of_task t f)) w, swap_in f s)

-- The queue is looked at again, under the lock.
unfoldable pub go_idle : Worker → Scheduler → Worker × Scheduler
go_idle w s = (at_phase (if not (is_empty s.fibers) then looking else resting) w, s)

-- Behind the look, the idle count is incremented and the idle fiber entered.
unfoldable pub enter_idle : Worker → Scheduler → Worker × Scheduler
enter_idle w s = (
  record w { phase = idling; idle_fiber = exec },
  record s { idle_count = increment s.idle_count },
)

abbrev pub is_term : FiberState → Bool
is_term term = true
is_term _ = false

-- What is done with `ft`; without one the loop ends if the idle fiber has.
unfoldable pub begin : Worker → Option Task → Scheduler → Worker × Scheduler
begin w none s = if is_term w.idle_fiber then (at_phase ended w, s) else go_idle w s
begin w (some t) s = run_task w t t.fiber s

-- `idle`, which `IOManager` overrides: the fiber ends once the scheduler is stopping, and yields before.
unfoldable pub idle_round : Worker → Scheduler → Worker × Scheduler
idle_round w s = (
  record w { phase = looking; idle_fiber = if stopping s then term else hold },
  record s { idle_count = sub_size s.idle_count 1 },
)

-- Behind `swapIn` of a task's fiber.
unfoldable pub after_task : Task → ℕ → FiberState → Scheduler → Scheduler
after_task t f ready s = schedule (record { fiber = some f; cb = none; thread = t.thread }) s
after_task t f term s = s
after_task t f except s = s
after_task t f _ s = set_state f hold s

-- Behind `swapIn` of `cb_fiber`: the fiber it is from then on, and the scheduler.
unfoldable pub after_callback : ℕ → FiberState → Scheduler → Option ℕ × Scheduler
after_callback f ready s = (none, schedule (record { fiber = some f; cb = none; thread = none }) s)
after_callback f term s = (some f, reset f none s)
after_callback f except s = (some f, reset f none s)
after_callback f _ s = (none, set_state f hold s)

abbrev pub after_job : Worker → Job → Scheduler → Worker × Scheduler
after_job w (of_task t f) s = (at_phase looking w, after_task t f (s.objects f).state s)
after_job w (of_callback f) s =
    let r = after_callback f (s.objects f).state s in
    (record w { phase = looking; cb_fiber = r.0 }, r.1)

-- The next step of a thread. A running fiber goes on by itself.
unfoldable pub advance : Worker → Phase → Scheduler → Worker × Scheduler
advance w looking s = take w s
advance w (picked ft) s = begin w ft s
advance w (running j) s = (w, s)
advance w (leaving j) s = (at_phase (left j) w, drop_active s)
advance w (left j) s = after_job w j s
advance w resting s = enter_idle w s
advance w idling s = idle_round w s
advance w ended s = (w, s)

-- How a fiber stops running: `YieldToReady`, `YieldToHold`, and the two ends of `MainFunc`.
pub data Outcome : Type 0 where
  yields_ready yields_hold returns throws : Outcome

abbrev pub job_fiber : Job → ℕ
job_fiber (of_task t f) = f
job_fiber (of_callback f) = f

unfoldable pub set_outcome : Outcome → ℕ → Scheduler → Scheduler
set_outcome yields_ready f s = set_state f ready s
set_outcome yields_hold f s = set_state f hold s
set_outcome returns f s = set_fiber f (record { state = term; cb = none }) s
set_outcome throws f s = set_state f except s

-- The fiber of a thread sets its state and enters `swapOut`.
unfoldable pub suspend : Outcome → Worker → Phase → Scheduler → Worker × Scheduler
suspend o w (running j) s = (at_phase (leaving j) w, set_outcome o (job_fiber j) s)
suspend o w _ s = (w, s)

-- What happens: a step of the thread at a place, the fiber of a thread that stops, tasks from anywhere,
-- and `stop`.
pub data Event : Type 0 where
  advances : ℕ → Event
  suspends : ℕ → Outcome → Event
  schedules : Task → Event
  schedules_all : List Task → Event
  stops : ℕ → Option FiberState → Event

pub record World : Type 0 where
  pub workers : List Worker
  pub scheduler : Scheduler

abbrev pub act_at :
    (Worker → Scheduler → Worker × Scheduler)
    → ℕ
    → List Worker
    → Scheduler
    → List Worker × Scheduler
act_at f i [] s = ([], s)
act_at f zero (w ∷ ws) s = let r = f w s in (r.0 ∷ ws, r.1)
act_at f (suc i) (w ∷ ws) s = let r = act_at f i ws s in (w ∷ r.0, r.1)

abbrev pub world_of : List Worker × Scheduler → World
world_of r = record { workers = r.0; scheduler = r.1 }

unfoldable pub occur : Event → World → World
occur (advances i) w = world_of (act_at (λ x. advance x x.phase) i w.workers w.scheduler)
occur (suspends i o) w = world_of (act_at (λ x. suspend o x x.phase) i w.workers w.scheduler)
occur (schedules t) w = record w { scheduler = schedule t w.scheduler }
occur (schedules_all ts) w = record w { scheduler = schedule_all ts w.scheduler }
occur (stops threads root) w = record w { scheduler = (stop threads root w.scheduler).1 }

unfoldable pub occur_all : List Event → World → World
occur_all [] w = w
occur_all (e ∷ es) w = occur_all es (occur e w)
