-- ===== src/Scheduler/Races.antt =====
-- A fiber that yields while another thread looks at the queue, and the end of a thread.
use sylar_windows.Prelude.{
  ℕ, zero, suc, ◌≡◌, refl, ap, ◌∙◌, subst, List, [], ◌∷◌, Bool, true, false, not, ◌||◌, Option,
  none, some, if◌then◌else◌, if-false, Bool-cases, inl, inr, ◌⊎◌,
}
use sylar_windows.ByteArray.State.{sub_size}
use sylar_windows.Scheduler.State.{
  FiberState, hold, exec, term, Fiber, Task, Scheduler, set_state, tickle, tickle_if, is_empty,
  stopping,
}
use sylar_windows.Scheduler.Run.{
  Job, of_task, looking, idling, ended, picked, running, leaving, Worker, other_thread, is_exec,
  executing, scan, with_taken, at_phase, take, finished, run_task, begin, idle_round, advance,
  suspend, set_outcome, yields_hold, job_fiber, advances, suspends, occur, occur_all,
}
use sylar_windows.Scheduler.Quiet.{stopping_empty}
use sylar_windows.Scheduler.Resuming.{set_state_reads, set_state_fibers, with_phase}

-- The task of a fiber, for any thread.
abbrev pub for_any : ℕ → Task
for_any f = record { fiber = some f; cb = none; thread = none }

scan_held :
    (id f : ℕ) (objects : ℕ → Fiber) (rest : List Task)
    → (objects f).state ≡ hold
    → scan id objects (for_any f ∷ rest) ≡ (false, some (for_any f), rest)
unfolding scan other_thread executing
scan_held id f objects rest h = if-false _ _ _ (ap is_exec h)

state_behind :
    (f : ℕ) (b : Bool) (ft : Option Task) (ts : List Task) (s : Scheduler)
    → ((tickle_if (b, with_taken ft (record s { fibers = ts }))).objects f).state
      ≡ (s.objects f).state
unfolding tickle
state_behind f true none ts s = refl
state_behind f true (some t) ts s = refl
state_behind f false none ts s = refl
state_behind f false (some t) ts s = refl

-- What a thread has picked, and the fiber on hold.
abbrev HasPicked : ℕ → Worker → Worker × Scheduler → Type 0
HasPicked f w r = (r.0 ≡ at_phase (picked (some (for_any f))) w) × ((r.1.objects f).state ≡ hold)

take_held :
    (w : Worker) (f : ℕ) (rest : List Task) (s : Scheduler)
    → s.fibers ≡ for_any f ∷ rest
    → (s.objects f).state ≡ hold
    → HasPicked f w (take w s)
unfolding take
take_held w f rest s q h =
    let r = scan w.id s.objects s.fibers in
    (
      ap (λ (r : Bool × Option Task × List Task). at_phase (picked r.1) w)
          (ap (scan w.id s.objects) q ∙ scan_held w.id f s.objects rest h),
      state_behind f (r.0 || not (is_empty r.2)) r.1 r.2 s ∙ h,
    )

begin_held :
    (f : ℕ) (w : Worker) (r : Worker × Scheduler)
    → HasPicked f w r
    → (advance r.0 r.0.phase r.1).0 ≡ at_phase (running (of_task (for_any f) f)) w
unfolding advance begin run_task
begin_held f w r (e, h) =
    ap (λ v. (advance v v.phase r.1).0) e
    ∙ ap (λ (x : Worker × Scheduler). x.0)
        (if-false (finished (r.1.objects f).state) _ _ (ap finished h))

-- A fiber that runs on one thread and stands in the queue for any, as it does when it is woken before it
-- has yielded: `YieldToHold` puts it on hold before it has left its thread, and a second thread takes it
-- and switches to it while the first one is still in `swapOut`.
pub resumed_twice :
    (id1 id2 f : ℕ) (j : Job) (c1 c2 : Option ℕ) (d1 d2 : FiberState) (rest : List Task)
    (s : Scheduler)
    → s.fibers ≡ for_any f ∷ rest
    → job_fiber j ≡ f
    → (occur_all (suspends 0 yields_hold ∷ advances 1 ∷ advances 1 ∷ []) (record {
      workers = with_phase (running j) id1 c1 d1 ∷ with_phase looking id2 c2 d2 ∷ [];
      scheduler = s;
    })).workers
      ≡ with_phase (leaving j) id1 c1 d1
        ∷ with_phase (running (of_task (for_any f) f)) id2 c2 d2
        ∷ []
unfolding occur_all occur suspend advance set_outcome
resumed_twice id1 id2 f j c1 c2 d1 d2 rest s q k =
    let w = with_phase looking id2 c2 d2 in
    ap (λ v. with_phase (leaving j) id1 c1 d1 ∷ v ∷ [])
      (begin_held f w (take w (set_state (job_fiber j) hold s)) (
        take_held w f rest (set_state (job_fiber j) hold s)
          (set_state_fibers (job_fiber j) hold s ∙ q)
          (subst (λ g. ((set_state (job_fiber j) hold s).objects g).state ≡ hold) k
            (set_state_reads (job_fiber j) hold s))))

-- A thread alone, for some steps.
unfoldable pub advance_for : ℕ → Worker × Scheduler → Worker × Scheduler
advance_for zero r = r
advance_for (suc n) r = advance_for n (advance r.0 r.0.phase r.1)

-- A thread whose idle fiber has ended, at an empty queue.
module _ (id : ℕ) (c : Option ℕ) (t : Scheduler) where
  abbrev after_scan : Bool × Option Task × List Task → Worker × Scheduler
  after_scan r = (
    with_phase (picked r.1) id c term,
    tickle_if (r.0 || not (is_empty r.2), with_taken r.1 (record t { fibers = r.2 })),
  )

  finds_nothing : (ts : List Task) → ts ≡ [] → scan id t.objects ts ≡ (false, none, [])
  unfolding scan
  finds_nothing ts h = ap (scan id t.objects) h

  leaves_loop :
      t.fibers ≡ []
      → (advance_for 2 (with_phase looking id c term, t)).0 ≡ with_phase ended id c term
  unfolding advance_for advance take begin
  leaves_loop h = ap (λ r. (advance_for 1 (after_scan r)).0) (finds_nothing t.fibers h)

-- A thread in the idle fiber ends with its next round if the scheduler is stopping; if it is not, the
-- thread looks at the queue again, with the idle fiber on hold.
pub idle_ends :
    (id : ℕ) (c : Option ℕ) (s : Scheduler)
    → ((stopping s ≡ true)
        × ((advance_for 3 (with_phase idling id c exec, s)).0 ≡ with_phase ended id c term))
      ⊎ ((stopping s ≡ false)
          × ((advance_for 1 (with_phase idling id c exec, s)).0 ≡ with_phase looking id c hold))
unfolding advance_for advance idle_round
idle_ends id c s = elim (Bool-cases (stopping s)) [
  | inl e ↦ inl (
    e,
    ap (λ b. (advance_for 2 (rounded b)).0) e
        ∙ leaves_loop id c (rounded true).1 (stopping_empty s e),
  )
  | inr e ↦ inr (e, ap (λ b. (rounded b).0) e)
]
  where
    rounded : Bool → Worker × Scheduler
    rounded b = (
      with_phase looking id c (if b then term else hold),
      record s { idle_count = sub_size s.idle_count 1 },
    )
