-- ===== src/Async/Answers.antt =====
-- Each waiting context is woken at most once, by whatever comes first: a response, its timeout, or the
-- end of the connection.
use sylar_windows.Prelude.{
  ℕ, ◌+◌, ◌≤◌, ◌≡◌, ◌≢◌, arith, List, [], ◌∷◌, true, false, Option, none, some, ◌==◌, if◌then◌else◌,
  Bool-cases, inl, inr, refl, ap, ◌∙◌, if-cases, subst,
}
use sylar_windows.Async.State.{Ctx, Wake, Stream, update, set_ctx}
use sylar_windows.Async.Contexts.{drop_timer, mark_timeout, wake, do_rsp}

-- 1 for a context that has yet to be woken.
abbrev pub waiting : Option ℕ → ℕ
waiting none = 0
waiting (some scd) = 1

-- How often a context has been woken.
abbrev pub wakes_of : ℕ → List Wake → ℕ
wakes_of i [] = 0
wakes_of i (w ∷ ws) = (if w.ctx == i then 1 else 0) + wakes_of i ws

-- How often it has been and may still be.
abbrev pub score : ℕ → Stream → ℕ
score i s = waiting (s.objects i).scheduler + wakes_of i s.wakes

-- A step that leaves alone who waits, for what fiber, and who was woken.
pub record IsQuiet (s t : Stream) : Type 0 where
  pub scheduler : (i : ℕ) → (t.objects i).scheduler ≡ (s.objects i).scheduler
  pub fiber : (i : ℕ) → (t.objects i).fiber ≡ (s.objects i).fiber
  pub wakes : t.wakes ≡ s.wakes

pub IsQuiet-trans : (s t u : Stream) → IsQuiet s t → IsQuiet t u → IsQuiet s u
IsQuiet-trans s t u p q = record {
  scheduler = λ i. q.scheduler i ∙ p.scheduler i;
  fiber = λ i. q.fiber i ∙ p.fiber i;
  wakes = q.wakes ∙ p.wakes;
}

pub IsQuiet-refl : (s : Stream) → IsQuiet s s
IsQuiet-refl s = record { scheduler = λ i. refl; fiber = λ i. refl; wakes = refl }

pub set_ctx-IsQuiet :
    (i : ℕ) (c : Ctx) (s : Stream)
    → c.scheduler ≡ (s.objects i).scheduler
    → c.fiber ≡ (s.objects i).fiber
    → IsQuiet s (set_ctx i c s)
set_ctx-IsQuiet i c s e f = record {
  scheduler = λ j. at (λ c. c.scheduler) j e;
  fiber = λ j. at (λ c. c.fiber) j f;
  wakes = refl;
}
  where
    at :
        (g : Ctx → Option ℕ) (j : ℕ)
        → g c ≡ g (s.objects i)
        → g (update i c s.objects j) ≡ g (s.objects j)
    at g j e =
        if-cases (λ x. g x ≡ g (s.objects j)) (j == i) c (s.objects j)
          (λ k. e ∙ ap (λ n. g (s.objects n)) {x = i} {y = j} (ground arith)) (λ k. refl)

pub drop_timer-IsQuiet : (i : ℕ) (t : Option ℕ) (s : Stream) → IsQuiet s (drop_timer i t s)
drop_timer-IsQuiet i none s = IsQuiet-refl s
drop_timer-IsQuiet i (some t) s =
    let q = set_ctx-IsQuiet i (record (s.objects i) { timer = none }) s refl refl in
    record { scheduler = q.scheduler; fiber = q.fiber; wakes = refl }

pub mark_timeout-IsQuiet : (i : ℕ) (s : Stream) → IsQuiet s (mark_timeout i s)
mark_timeout-IsQuiet i s =
    if-cases (IsQuiet s) (s.objects i).timed _ s (λ e. set_ctx-IsQuiet i _ s refl refl)
      (λ e. IsQuiet-refl s)

pub IsQuiet-score : (i : ℕ) (s t : Stream) → IsQuiet s t → score i t ≡ score i s
IsQuiet-score i s t q = rw (q.scheduler i, q.wakes) refl

-- What `doRsp` wakes.
abbrev woken : Option ℕ → Option ℕ → ℕ
woken (some scd) (some f) = 1
woken (some scd) none = 0
woken none f = 0

wake_more :
    (i : ℕ) (w : Wake) (t : Stream)
    → score i (record t { wakes = w ∷ t.wakes }) ≡ (if w.ctx == i then 1 else 0) + score i t
wake_more i w t = omega arith

wake-score :
    (i j : ℕ) (o f : Option ℕ) (s : Stream)
    → score i (wake j o f s) ≡ (if j == i then woken o f else 0) + score i s
unfolding wake
wake-score i j none f s = ground arith
wake-score i j (some scd) none s = ground arith
wake-score i j (some scd) (some f) s =
    let d = drop_timer-IsQuiet j (s.objects j).timer s in
    let m = mark_timeout-IsQuiet j (drop_timer j (s.objects j).timer s) in
    let q = IsQuiet-score i s _ (IsQuiet-trans s _ _ d m) in
    omega (
      arith,
      q,
      wake_more i (record { ctx = j; scheduler = scd; fiber = f })
          (mark_timeout j (drop_timer j (s.objects j).timer s)),
    )

-- The exchange takes the claim of the context to be woken.
take-score :
    (i j : ℕ) (s : Stream)
    → score i (set_ctx j (record (s.objects j) { scheduler = none }) s)
        + (if j == i then waiting (s.objects j).scheduler else 0)
      ≡ score i s
take-score i j s = elim (Bool-cases (j == i)) [
  | inl e ↦
      subst
        (λ j.
          score i (set_ctx j (record (s.objects j) { scheduler = none }) s)
            + (if j == i then waiting (s.objects j).scheduler else 0)
          ≡ score i s)
        (ground arith) (take_own i s)
  | inr e ↦ rw (e, apart e) (omega arith)
]
  where
    eq_self : (i : ℕ) → (i == i) ≡ true
    eq_self i = ground arith

    apart : (j == i) ≡ false → (i == j) ≡ false
    apart e = ground arith

    take_own :
        (i : ℕ) (s : Stream)
        → score i (set_ctx i (record (s.objects i) { scheduler = none }) s)
            + (if i == i then waiting (s.objects i).scheduler else 0)
          ≡ score i s
    take_own i s = rw (eq_self i) (omega arith)

do_rsp-score :
    (i j : ℕ) (s : Stream)
    → score i (do_rsp j s) + (if j == i then waiting (s.objects j).scheduler else 0)
      ≡ (if j == i then woken (s.objects j).scheduler (s.objects j).fiber else 0) + score i s
unfolding do_rsp
do_rsp-score i j s =
    let o = (s.objects j).scheduler in
    let f = (s.objects j).fiber in
    let s' = set_ctx j (record (s.objects j) { scheduler = none }) s in
    let w = wake-score i j o f s' in let t = take-score i j s in omega (arith, w, t)

woken-le : (o f : Option ℕ) → woken o f ≤ waiting o
woken-le none f = omega arith
woken-le (some scd) none = omega arith
woken-le (some scd) (some f) = omega arith

woken-fiber : (o f : Option ℕ) → f ≢ none → woken o f ≡ waiting o
woken-fiber none f h = refl
woken-fiber (some scd) none h = absurd (h refl)
woken-fiber (some scd) (some f) h = refl

-- `doRsp` gives no context another wake.
pub do_rsp-score_le : (i j : ℕ) (s : Stream) → score i (do_rsp j s) ≤ score i s
do_rsp-score_le i j s =
    let e = do_rsp-score i j s in
    let w = woken-le (s.objects j).scheduler (s.objects j).fiber in ground arith

-- With a fiber, the wake is not lost.
pub do_rsp-score_eq :
    (i j : ℕ) (s : Stream) → (s.objects j).fiber ≢ none → score i (do_rsp j s) ≡ score i s
do_rsp-score_eq i j s h =
    let e = do_rsp-score i j s in
    let w = woken-fiber (s.objects j).scheduler (s.objects j).fiber h in ground arith
