-- ===== src/Scheduler/Picking.antt =====
-- Which task a thread takes from the queue.
use sylar_windows.Prelude.{
  ℕ, ◌≡◌, ◌⊎◌, inl, inr, refl, sym, ap, ◌∙◌, List, [], ◌∷◌, ◌++◌, All, Bool, true, false, Option,
  none, some, if-cases, subst,
}
use sylar_windows.Scheduler.State.{Fiber, Task, Scheduler, tickle, tickle_if}
use sylar_windows.Scheduler.Run.{Worker, picked, scan, other_thread, executing, take, with_taken}

-- A task that a thread may run now: for this thread or any, and its fiber, if it has one, not running.
abbrev pub MayRun : ℕ → (ℕ → Fiber) → Task → Type 0
MayRun self objects t = (other_thread self t.thread ≡ false) × (executing objects t.fiber ≡ false)

abbrev pub IsPassedOver : ℕ → (ℕ → Fiber) → Task → Type 0
IsPassedOver self objects t =
    (other_thread self t.thread ≡ true) ⊎ (executing objects t.fiber ≡ true)

-- What is taken and what is left of a queue.
abbrev pub Taken : ℕ → (ℕ → Fiber) → List Task → Option Task → List Task → Type 0
Taken self objects ts none rest = (rest ≡ ts) × All (IsPassedOver self objects) ts
Taken self objects ts (some t) rest =
    (front back : List Task) × (ts ≡ front ++ t ∷ back)
    × (rest ≡ front ++ back)
    × All (IsPassedOver self objects) front
    × MayRun self objects t

pass_over :
    (self : ℕ) (objects : ℕ → Fiber) (t : Task) (ts : List Task) (ft : Option Task)
    (rest : List Task)
    → IsPassedOver self objects t
    → Taken self objects ts ft rest
    → Taken self objects (t ∷ ts) ft (t ∷ rest)
pass_over self objects t ts none rest h k = (ap (◌∷◌ t) k.0, (h, k.1))
pass_over self objects t ts (some x) rest h (front, back, a, b, c, d) =
    (t ∷ front, back, ap (◌∷◌ t) a, ap (◌∷◌ t) b, (h, c), d)

scan-Taken :
    (self : ℕ) (objects : ℕ → Fiber) (ts : List Task)
    → Taken self objects ts (scan self objects ts).1 (scan self objects ts).2
unfolding scan
scan-Taken self objects [] = (refl, tt)
scan-Taken self objects (t ∷ ts) =
    let h = scan-Taken self objects ts in
    if-cases (λ (r : Bool × Option Task × List Task). Taken self objects (t ∷ ts) r.1 r.2)
      (other_thread self t.thread) _ _ (λ e. pass_over self objects t ts _ _ (inl e) h)
      (λ e.
        if-cases (λ (r : Bool × Option Task × List Task). Taken self objects (t ∷ ts) r.1 r.2)
          (executing objects t.fiber) _ _ (λ k. pass_over self objects t ts _ _ (inr k) h)
          (λ k. ([], ts, refl, refl, tt, (e, k))))

tickle_if_fibers : (r : Bool × Scheduler) → (tickle_if r).fibers ≡ r.1.fibers
unfolding tickle
tickle_if_fibers (true, s) = refl
tickle_if_fibers (false, s) = refl

with_taken_fibers :
    (ft : Option Task) (ts : List Task) (s : Scheduler)
    → (with_taken ft (record s { fibers = ts })).fibers ≡ ts
with_taken_fibers none ts s = refl
with_taken_fibers (some t) ts s = refl

-- A thread takes the first task of the queue that is for it, or for any thread, and whose fiber is not
-- running, and leaves the others in their order; it takes none only if each is for another thread or has
-- a running fiber, and then leaves them all.
pub take-Taken :
    (w : Worker) (s : Scheduler)
    → (ft : Option Task) × ((take w s).0.phase ≡ picked ft)
      × Taken w.id s.objects s.fibers ft (take w s).1.fibers
unfolding take
take-Taken w s =
    let r = scan w.id s.objects s.fibers in
    (
      r.1,
      refl,
      subst (Taken w.id s.objects s.fibers r.1)
          (sym (tickle_if_fibers _ ∙ with_taken_fibers r.1 r.2 s))
          (scan-Taken w.id s.objects s.fibers),
    )
