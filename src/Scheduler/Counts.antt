-- ===== src/Scheduler/Counts.antt =====
-- `m_activeThreadCount` and `m_idleThreadCount` count the threads that are at work and idle.
use sylar_windows.Prelude.{
  ℕ, ◌+◌, ◌^◌, ◌<◌, ◌≡◌, sym, ◌∙◌, arith, List, [], ◌∷◌, Bool, true, false, not, Option, none, some,
  if-cases, subst,
}
use sylar_windows.ByteArray.State.{sub_size}
use sylar_windows.Scheduler.State.{
  FiberState, init, hold, exec, term, ready, except, Task, Scheduler, set_fiber, set_state, swap_in,
  reset, new_fiber, tickle, tickle_if, is_empty, has_work, schedule_no_lock, schedule,
  schedule_loop, schedule_all, StopEnd, stop, stop_threads,
}
use sylar_windows.Scheduler.Run.{
  Job, of_task, of_callback, Phase, looking, resting, idling, ended, picked, running, leaving, left,
  Worker, increment, with_taken, take, finished, drop_active, run_callback, run_task, go_idle,
  enter_idle, is_term, begin, idle_round, after_task, after_callback, after_job, advance, Outcome,
  yields_ready, yields_hold, returns, throws, job_fiber, set_outcome, suspend,
}

-- A thread counts as active from the lock under which it takes a task until the fiber has left.
abbrev pub busy : Phase → ℕ
busy (picked (some t)) = 1
busy (running j) = 1
busy (leaving j) = 1
busy _ = 0

abbrev pub idles : Phase → ℕ
idles idling = 1
idles _ = 0

-- What the counts are.
abbrev pub Reads : ℕ → ℕ → Scheduler → Type 0
Reads m n s = (s.active_count ≡ m) × (s.idle_count ≡ n)

-- The counts are those of the other threads, `b` and `c`, and this one.
abbrev pub Counted : ℕ → ℕ → Phase → Scheduler → Type 0
Counted b c p s = Reads (b + busy p) (c + idles p) s

tickle_if-Reads : (m n : ℕ) (r : Bool × Scheduler) → Reads m n r.1 → Reads m n (tickle_if r)
unfolding tickle
tickle_if-Reads m n (true, t) h = h
tickle_if-Reads m n (false, t) h = h

schedule_no_lock-Reads :
    (m n : ℕ) (t : Task) (s : Scheduler) → Reads m n s → Reads m n (schedule_no_lock t s).1
unfolding schedule_no_lock
schedule_no_lock-Reads m n t s h = if-cases (Reads m n) (has_work t) _ _ (λ e. h) (λ e. h)

pub schedule-Reads : (m n : ℕ) (t : Task) (s : Scheduler) → Reads m n s → Reads m n (schedule t s)
unfolding schedule
schedule-Reads m n t s h = tickle_if-Reads m n _ (schedule_no_lock-Reads m n t s h)

schedule_loop-Reads :
    (m n : ℕ) (ts : List Task) (b : Bool) (s : Scheduler)
    → Reads m n s
    → Reads m n (schedule_loop ts b s).1
unfolding schedule_loop
schedule_loop-Reads m n [] b s h = h
schedule_loop-Reads m n (t ∷ ts) b s h =
    schedule_loop-Reads m n ts _ _ (schedule_no_lock-Reads m n (record t { thread = none }) s h)

pub schedule_all-Reads :
    (m n : ℕ) (ts : List Task) (s : Scheduler) → Reads m n s → Reads m n (schedule_all ts s)
unfolding schedule_all
schedule_all-Reads m n ts s h = tickle_if-Reads m n _ (schedule_loop-Reads m n ts false s h)

pub stop-Reads :
    (m n k : ℕ) (root : Option FiberState) (s : Scheduler)
    → Reads m n s
    → Reads m n (stop k root s).1
unfolding stop stop_threads
stop-Reads m n k root s h =
    if-cases {A = StopEnd × Scheduler} (λ r. Reads m n r.1) _ _ _ (λ e. h) (λ e. h)

down : (n b : ℕ) → n ≡ b + 1 → b + 1 < 2 ^ 64 → sub_size n 1 ≡ b
down n b h k = ground arith

up : (n b : ℕ) → n ≡ b + 0 → b + 1 < 2 ^ 64 → increment n ≡ b + 1
unfolding increment
up n b h k = ground arith

-- What a step leaves of its thread and the scheduler.
abbrev pub Leaves : ℕ → ℕ → Worker × Scheduler → Type 0
Leaves b c r = Counted b c r.0.phase r.1

-- One step of one thread.
module _ (b c : ℕ) (bound : b + 1 < 2 ^ 64) (bound_idle : c + 1 < 2 ^ 64) where
  drop_active-Reads :
      (s : Scheduler) → Reads (b + 1) (c + 0) s → Reads (b + 0) (c + 0) (drop_active s)
  unfolding drop_active
  drop_active-Reads s h = (down s.active_count b h.0 bound ∙ omega arith, h.1)

  with_taken-Reads :
      (ft : Option Task) (ts : List Task) (s : Scheduler)
      → Counted b c looking s
      → Counted b c (picked ft) (with_taken ft (record s { fibers = ts }))
  with_taken-Reads none ts s h = h
  with_taken-Reads (some t) ts s h = (up s.active_count b h.0 bound, h.1)

  take-Leaves : (w : Worker) (s : Scheduler) → Counted b c looking s → Leaves b c (take w s)
  unfolding take
  take-Leaves w s h = tickle_if-Reads _ _ _ (with_taken-Reads _ _ s h)

  run_callback-Leaves :
      (w : Worker) (cb cb_fiber : Option ℕ) (s : Scheduler)
      → Reads (b + 1) (c + 0) s
      → Leaves b c (run_callback w cb cb_fiber s)
  unfolding run_callback set_fiber set_state swap_in reset new_fiber
  run_callback-Leaves w none f s h = drop_active-Reads s h
  run_callback-Leaves w (some k) (some f) s h = h
  run_callback-Leaves w (some k) none s h = h

  run_task-Leaves :
      (w : Worker) (t : Task) (f : Option ℕ) (s : Scheduler)
      → Reads (b + 1) (c + 0) s
      → Leaves b c (run_task w t f s)
  unfolding run_task set_state set_fiber swap_in
  run_task-Leaves w t none s h = run_callback-Leaves w t.cb w.cb_fiber s h
  run_task-Leaves w t (some f) s h =
      if-cases (Leaves b c) (finished (s.objects f).state) _ _
        (λ e. run_callback-Leaves w t.cb w.cb_fiber s h) (λ e. h)

  go_idle-Leaves :
      (w : Worker) (s : Scheduler) → Counted b c (picked none) s → Leaves b c (go_idle w s)
  unfolding go_idle
  go_idle-Leaves w s h =
      if-cases (λ p. Counted b c p s) (not (is_empty s.fibers)) looking resting (λ e. h) (λ e. h)

  begin-Leaves :
      (w : Worker) (ft : Option Task) (s : Scheduler)
      → Counted b c (picked ft) s
      → Leaves b c (begin w ft s)
  unfolding begin
  begin-Leaves w none s h =
      if-cases (Leaves b c) (is_term w.idle_fiber) _ _ (λ e. h) (λ e. go_idle-Leaves w s h)
  begin-Leaves w (some t) s h = run_task-Leaves w t t.fiber s h

  after_task-Reads :
      (m n f : ℕ) (t : Task) (x : FiberState) (s : Scheduler)
      → Reads m n s
      → Reads m n (after_task t f x s)
  unfolding after_task set_state set_fiber
  after_task-Reads m n f t ready s h = schedule-Reads m n _ s h
  after_task-Reads m n f t term s h = h
  after_task-Reads m n f t except s h = h
  after_task-Reads m n f t init s h = h
  after_task-Reads m n f t hold s h = h
  after_task-Reads m n f t exec s h = h

  after_callback-Reads :
      (m n f : ℕ) (x : FiberState) (s : Scheduler)
      → Reads m n s
      → Reads m n (after_callback f x s).1
  unfolding after_callback set_state set_fiber reset
  after_callback-Reads m n f ready s h = schedule-Reads m n _ s h
  after_callback-Reads m n f term s h = h
  after_callback-Reads m n f except s h = h
  after_callback-Reads m n f init s h = h
  after_callback-Reads m n f hold s h = h
  after_callback-Reads m n f exec s h = h

  after_job-Leaves :
      (w : Worker) (j : Job) (s : Scheduler) → Counted b c (left j) s → Leaves b c (after_job w j s)
  after_job-Leaves w (of_task t f) s h = after_task-Reads _ _ f t (s.objects f).state s h
  after_job-Leaves w (of_callback f) s h = after_callback-Reads _ _ f (s.objects f).state s h

  pub advance-Leaves :
      (w : Worker) (p : Phase) (s : Scheduler)
      → w.phase ≡ p
      → Counted b c p s
      → Leaves b c (advance w p s)
  unfolding advance enter_idle idle_round
  advance-Leaves w looking s q h = take-Leaves w s h
  advance-Leaves w (picked ft) s q h = begin-Leaves w ft s h
  advance-Leaves w (running j) s q h = subst (λ p. Counted b c p s) (sym q) h
  advance-Leaves w (leaving j) s q h = drop_active-Reads s h
  advance-Leaves w (left j) s q h = after_job-Leaves w j s h
  advance-Leaves w resting s q h = (h.0, up s.idle_count c h.1 bound_idle)
  advance-Leaves w idling s q h = (h.0, down s.idle_count c h.1 bound_idle ∙ omega arith)
  advance-Leaves w ended s q h = subst (λ p. Counted b c p s) (sym q) h

set_outcome-Reads :
    (m n f : ℕ) (o : Outcome) (s : Scheduler) → Reads m n s → Reads m n (set_outcome o f s)
unfolding set_outcome set_state set_fiber
set_outcome-Reads m n f yields_ready s h = h
set_outcome-Reads m n f yields_hold s h = h
set_outcome-Reads m n f returns s h = h
set_outcome-Reads m n f throws s h = h

pub suspend-Leaves :
    (b c : ℕ) (o : Outcome) (w : Worker) (p : Phase) (s : Scheduler)
    → w.phase ≡ p
    → Counted b c p s
    → Leaves b c (suspend o w p s)
unfolding suspend
suspend-Leaves b c o w (running j) s q h = set_outcome-Reads _ _ (job_fiber j) o s h
suspend-Leaves b c o w looking s q h = subst (λ p. Counted b c p s) (sym q) h
suspend-Leaves b c o w (picked ft) s q h = subst (λ p. Counted b c p s) (sym q) h
suspend-Leaves b c o w (leaving j) s q h = subst (λ p. Counted b c p s) (sym q) h
suspend-Leaves b c o w (left j) s q h = subst (λ p. Counted b c p s) (sym q) h
suspend-Leaves b c o w resting s q h = subst (λ p. Counted b c p s) (sym q) h
suspend-Leaves b c o w idling s q h = subst (λ p. Counted b c p s) (sym q) h
suspend-Leaves b c o w ended s q h = subst (λ p. Counted b c p s) (sym q) h
