-- ===== src/Scheduler/Resuming.antt =====
-- What becomes of a fiber that a thread has run.
use sylar_windows.Prelude.{
  ℕ, ◌≡◌, refl, ap, ◌∙◌, arith, [], ◌∷◌, ◌++◌, Bool, true, false, ◌==◌, Option, none, some, if-true,
  sym, subst,
}
use sylar_windows.Scheduler.State.{
  FiberState, init, hold, term, ready, except, Fiber, Task, Scheduler, set_fiber, set_state, reset,
  tickle, tickle_if, has_work, schedule_no_lock, schedule,
}
use sylar_windows.Scheduler.Run.{
  Job, of_task, of_callback, Phase, looking, running, Worker, advance, after_task, after_callback,
  drop_active, suspend, set_outcome, job_fiber, Outcome, yields_ready, yields_hold, returns, throws,
}

-- The fiber of a thread stops, `swapIn` returns, and the thread goes on to its next round.
abbrev pub resume : Outcome → Worker → Scheduler → Worker × Scheduler
resume o w s =
    let r = suspend o w w.phase s in let q = advance r.0 r.0.phase r.1 in advance q.0 q.0.phase q.1

abbrev pub requeued : Job → Task
requeued (of_task t f) = record { fiber = some f; cb = none; thread = t.thread }
requeued (of_callback f) = record { fiber = some f; cb = none; thread = none }

-- The fiber of a job, and the queue.
abbrev pub Became : Outcome → Job → Scheduler → Worker × Scheduler → Type 0
Became yields_ready j s (w, t) =
    ((t.objects (job_fiber j)).state ≡ ready) × (t.fibers ≡ s.fibers ++ requeued j ∷ [])
Became yields_hold j s (w, t) = ((t.objects (job_fiber j)).state ≡ hold) × (t.fibers ≡ s.fibers)
Became returns (of_task x f) s (w, t) =
    ((t.objects f) ≡ record { state = term; cb = none }) × (t.fibers ≡ s.fibers)
Became returns (of_callback f) s (w, t) =
    ((t.objects f) ≡ record { state = init; cb = none })
    × (t.fibers ≡ s.fibers)
    × (w.cb_fiber ≡ some f)
Became throws (of_task x f) s (w, t) = ((t.objects f).state ≡ except) × (t.fibers ≡ s.fibers)
Became throws (of_callback f) s (w, t) =
    ((t.objects f) ≡ record { state = init; cb = none })
    × (t.fibers ≡ s.fibers)
    × (w.cb_fiber ≡ some f)

same_fiber : (f : ℕ) → (f == f) ≡ true
same_fiber f = ground arith

set_fiber_reads : (f : ℕ) (x : Fiber) (s : Scheduler) → (set_fiber f x s).objects f ≡ x
unfolding set_fiber
set_fiber_reads f x s = if-true (f == f) x (s.objects f) (same_fiber f)

pub set_state_reads :
    (f : ℕ) (x : FiberState) (s : Scheduler) → ((set_state f x s).objects f).state ≡ x
unfolding set_state
set_state_reads f x s =
    ap (λ (y : Fiber). y.state) (set_fiber_reads f (record (s.objects f) { state = x }) s)

pub set_state_fibers :
    (f : ℕ) (x : FiberState) (s : Scheduler) → (set_state f x s).fibers ≡ s.fibers
unfolding set_state set_fiber
set_state_fibers f x s = refl

set_fiber_fibers : (f : ℕ) (x : Fiber) (s : Scheduler) → (set_fiber f x s).fibers ≡ s.fibers
unfolding set_fiber
set_fiber_fibers f x s = refl

-- `schedule` of a task with work.
abbrev Appended : Task → Scheduler → Scheduler → Type 0
Appended x s t = (t.fibers ≡ s.fibers ++ x ∷ []) × (t.objects ≡ s.objects)

tickle_if-Appended :
    (x : Task) (s : Scheduler) (r : Bool × Scheduler)
    → Appended x s r.1
    → Appended x s (tickle_if r)
unfolding tickle
tickle_if-Appended x s (true, t) h = h
tickle_if-Appended x s (false, t) h = h

schedule-Appended : (x : Task) (s : Scheduler) → has_work x ≡ true → Appended x s (schedule x s)
unfolding schedule schedule_no_lock
schedule-Appended x s h =
    tickle_if-Appended x s _ (subst (Appended x s) (sym (if-true (has_work x) _ s h)) (refl, refl))

-- The scheduler behind the fiber's stop and the decrement.
abbrev behind : Outcome → ℕ → Scheduler → Scheduler
behind o f s = drop_active (set_outcome o f s)

abbrev pub with_phase : Phase → ℕ → Option ℕ → FiberState → Worker
with_phase p id cb_fiber idle_fiber = record {
  id = id;
  phase = p;
  cb_fiber = cb_fiber;
  idle_fiber = idle_fiber;
}

abbrev ended_as : Outcome → FiberState
ended_as yields_ready = ready
ended_as yields_hold = hold
ended_as returns = term
ended_as throws = except

behind_state : (o : Outcome) (f : ℕ) (s : Scheduler) → ((behind o f s).objects f).state ≡ ended_as o
unfolding set_outcome drop_active
behind_state yields_ready f s = set_state_reads f ready s
behind_state yields_hold f s = set_state_reads f hold s
behind_state returns f s = ap (λ (y : Fiber). y.state) (set_fiber_reads f _ s)
behind_state throws f s = set_state_reads f except s

behind_fibers : (o : Outcome) (f : ℕ) (s : Scheduler) → (behind o f s).fibers ≡ s.fibers
unfolding set_outcome drop_active set_state set_fiber
behind_fibers yields_ready f s = refl
behind_fibers yields_hold f s = refl
behind_fibers returns f s = refl
behind_fibers throws f s = refl

-- What `after_task` and `after_callback` do for a state they find.
task_back :
    (id : ℕ) (c : Option ℕ) (d : FiberState) (x : Task) (f : ℕ) (s t : Scheduler) (o : Outcome)
    → (t.objects f).state ≡ ended_as o
    → t.fibers ≡ s.fibers
    → ((o ≡ returns) → t.objects f ≡ record { state = term; cb = none })
    → Became o (of_task x f) s (with_phase looking id c d, after_task x f (ended_as o) t)
unfolding after_task
task_back id c d x f s t yields_ready h q k =
    let r = schedule-Appended (requeued (of_task x f)) t refl in
    (
      ap (λ (g : ℕ → Fiber). (g f).state) r.1 ∙ h,
      r.0 ∙ ap (λ l. l ++ requeued (of_task x f) ∷ []) q,
    )
task_back id c d x f s t yields_hold h q k =
    (set_state_reads f hold t, set_state_fibers f hold t ∙ q)
task_back id c d x f s t returns h q k = (k refl, q)
task_back id c d x f s t throws h q k = (h, q)

callback_back :
    (id : ℕ) (d : FiberState) (f : ℕ) (s t : Scheduler) (o : Outcome)
    → (t.objects f).state ≡ ended_as o
    → t.fibers ≡ s.fibers
    → let r = after_callback f (ended_as o) t in
      Became o (of_callback f) s (with_phase looking id r.0 d, r.1)
unfolding after_callback reset
callback_back id d f s t yields_ready h q =
    let r = schedule-Appended (requeued (of_callback f)) t refl in
    (
      ap (λ (g : ℕ → Fiber). (g f).state) r.1 ∙ h,
      r.0 ∙ ap (λ l. l ++ requeued (of_callback f) ∷ []) q,
    )
callback_back id d f s t yields_hold h q = (set_state_reads f hold t, set_state_fibers f hold t ∙ q)
callback_back id d f s t returns h q = (set_fiber_reads f _ t, set_fiber_fibers f _ t ∙ q, refl)
callback_back id d f s t throws h q = (set_fiber_reads f _ t, set_fiber_fibers f _ t ∙ q, refl)

returned :
    (o : Outcome) (f : ℕ) (s : Scheduler)
    → o ≡ returns
    → (behind o f s).objects f ≡ record { state = term; cb = none }
unfolding set_outcome drop_active
returned o f s h =
    ap (λ o. (behind o f s).objects f) h ∙ set_fiber_reads f (record { state = term; cb = none }) s

-- When the fiber that a thread runs stops, and the thread is back from `swapIn` with nothing in between:
-- a fiber that yields as ready stands at the end of the queue, for the thread that its task was for; one
-- that yields to hold is on hold, and one that ends stays as it ended, the queue unchanged; the fiber of
-- a callback that ends is made ready for the next callback of the thread.
pub resume-Became :
    (id : ℕ) (c : Option ℕ) (d : FiberState) (j : Job) (s : Scheduler) (o : Outcome)
    → Became o j s (resume o (with_phase (running j) id c d) s)
unfolding suspend advance
resume-Became id c d (of_task x f) s o =
    subst
      (λ z. Became o (of_task x f) s (with_phase looking id c d, after_task x f z (behind o f s)))
      (sym (behind_state o f s))
      (task_back id c d x f s (behind o f s) o (behind_state o f s) (behind_fibers o f s)
        (returned o f s))
resume-Became id c d (of_callback f) s o =
    subst
      (λ z.
        let r = after_callback f z (behind o f s) in
        Became o (of_callback f) s (with_phase looking id r.0 d, r.1))
      (sym (behind_state o f s))
      (callback_back id d f s (behind o f s) o (behind_state o f s) (behind_fibers o f s))
