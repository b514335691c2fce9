-- ===== src/Async/Release.antt =====
-- Who is woken by the end of a connection, by a timeout and by a response, and with what result.
use sylar_windows.Prelude.{
  ℕ, suc, ◌+◌, ◌≤◌, ◌≡◌, ◌≢◌, arith, List, [], ◌∷◌, All, All-map, Bool, true, false, Option, none,
  some, ◌==◌, if◌then◌else◌, ◌&&◌, refl, sym, ap, ◌∙◌, if-cases, if-false, subst,
}
use sylar_windows.Async.State.{Ctx, Wake, Stream, set_ctx, timed_out}
use sylar_windows.Async.Contexts.{
  drop_timer, wake, do_rsp, lookup, remove, on_timeout, get_and_del_ctx, take_out, answer, respond,
  fail_all, inner_close,
}
use sylar_windows.Async.Answers.{
  waiting, wakes_of, score, IsQuiet-trans, IsQuiet-score, drop_timer-IsQuiet, mark_timeout-IsQuiet,
  do_rsp-score_eq,
}
use sylar_windows.Async.Closing.{failed, failed-IsQuiet}

eq_self : (i : ℕ) → (i == i) ≡ true
eq_self i = ground arith

pub set_ctx_own : (i : ℕ) (c : Ctx) (s : Stream) → (set_ctx i c s).objects i ≡ c
set_ctx_own i c s = rw (eq_self i) refl

-- From the exchange on, nobody's scheduler or fiber changes.
wake-Keeps :
    (i j : ℕ) (o f : Option ℕ) (s : Stream)
    → (((wake j o f s).objects i).scheduler ≡ (s.objects i).scheduler)
      × (((wake j o f s).objects i).fiber ≡ (s.objects i).fiber)
unfolding wake
wake-Keeps i j none f s = (refl, refl)
wake-Keeps i j (some scd) none s = (refl, refl)
wake-Keeps i j (some scd) (some f) s =
    let q =
      IsQuiet-trans s _ _ (drop_timer-IsQuiet j (s.objects j).timer s)
        (mark_timeout-IsQuiet j (drop_timer j (s.objects j).timer s)) in
    (q.scheduler i, q.fiber i)

do_rsp-fiber : (i j : ℕ) (s : Stream) → ((do_rsp j s).objects i).fiber ≡ (s.objects i).fiber
unfolding do_rsp
do_rsp-fiber i j s =
    (wake-Keeps i j _ _ (set_ctx j (record (s.objects j) { scheduler = none }) s)).1
    ∙ if-cases (λ (c : Ctx). c.fiber ≡ (s.objects i).fiber) (i == j) _ _
        (λ e. ap (λ n. (s.objects n).fiber) {x = j} {y = i} (ground arith)) (λ e. refl)

do_rsp-waiting :
    (i j : ℕ) (s : Stream)
    → waiting ((do_rsp j s).objects i).scheduler ≤ waiting (s.objects i).scheduler
unfolding do_rsp
do_rsp-waiting i j s =
    let s' = set_ctx j (record (s.objects j) { scheduler = none }) s in
    let k = (wake-Keeps i j (s.objects j).scheduler (s.objects j).fiber s').0 in
    rw k (
      if-cases (λ (c : Ctx). waiting c.scheduler ≤ waiting (s.objects i).scheduler) (i == j) _ _
        (λ e. omega arith) (λ e. omega arith))

do_rsp_done : (i : ℕ) (s : Stream) → waiting ((do_rsp i s).objects i).scheduler ≡ 0
unfolding do_rsp
do_rsp_done i s =
    let s' = set_ctx i (record (s.objects i) { scheduler = none }) s in
    let k = (wake-Keeps i i (s.objects i).scheduler (s.objects i).fiber s').0 in
    rw (k, eq_self i) refl

fail_all-waiting :
    (i : ℕ) (es : List (ℕ × ℕ)) (s : Stream)
    → waiting ((fail_all es s).objects i).scheduler ≤ waiting (s.objects i).scheduler
unfolding fail_all
fail_all-waiting i [] s = omega arith
fail_all-waiting i (e ∷ es) s = omega (
  arith,
  fail_all-waiting i es (do_rsp e.1 (failed e.1 s)),
  do_rsp-waiting i e.1 (failed e.1 s),
  ap waiting ((failed-IsQuiet e.1 s).scheduler i),
)

-- Every context in the table has been answered, and no wake was lost.
fail_all_done :
    (es : List (ℕ × ℕ)) (s : Stream)
    → All (λ e. waiting ((fail_all es s).objects e.1).scheduler ≡ 0) es
unfolding fail_all
fail_all_done [] s = tt
fail_all_done (e ∷ es) s =
    let s' = do_rsp e.1 (failed e.1 s) in
    (omega (arith, fail_all-waiting e.1 es s', do_rsp_done e.1 (failed e.1 s)), fail_all_done es s')

abbrev HaveFibers : List (ℕ × ℕ) → Stream → Type 0
HaveFibers es s = All (λ e. (s.objects e.1).fiber ≢ none) es

fail_all-score_eq :
    (i : ℕ) (es : List (ℕ × ℕ)) (s : Stream) → HaveFibers es s → score i (fail_all es s) ≡ score i s
unfolding fail_all
fail_all-score_eq i [] s h = refl
fail_all-score_eq i (e ∷ es) s h =
    let t = failed e.1 s in
    let s' = do_rsp e.1 t in
    let fib : (j : ℕ) → (s'.objects j).fiber ≡ (s.objects j).fiber =
      λ j. do_rsp-fiber j e.1 t ∙ (failed-IsQuiet e.1 s).fiber j in
    let keep : HaveFibers es s' =
      All-map (λ (p : ℕ × ℕ). (s.objects p.1).fiber ≢ none)
        (λ (p : ℕ × ℕ). (s'.objects p.1).fiber ≢ none) (λ p k z. k (sym (fib p.1) ∙ z)) es h.1 in
    let own : (t.objects e.1).fiber ≢ none =
      λ z. h.0 (sym ((failed-IsQuiet e.1 s).fiber e.1) ∙ z) in
    omega (
      arith,
      fail_all-score_eq i es s' keep,
      do_rsp-score_eq i e.1 t own,
      IsQuiet-score i s t (failed-IsQuiet e.1 s),
    )

-- The end of the connection wakes every context that is in the table, if all have fibers: each has been
-- woken once more if it still waited, and as often as before if it did not.
pub inner_close_answers :
    (s : Stream)
    → All (λ e. (s.objects e.1).fiber ≢ none) s.ctxs
    → All
        (λ e.
          wakes_of e.1 (inner_close s).wakes
          ≡ waiting (s.objects e.1).scheduler + wakes_of e.1 s.wakes)
        s.ctxs
unfolding inner_close
inner_close_answers s h =
    let s' = record s {
      disconnects = if s.connected && s.has_disconnect_cb then suc s.disconnects else s.disconnects;
      connected = false;
      sem = s.sem + 1;
      ctxs = [];
      queue = [];
    } in
    All-map (λ (e : ℕ × ℕ). waiting ((fail_all s.ctxs s').objects e.1).scheduler ≡ 0)
      (λ (e : ℕ × ℕ).
        wakes_of e.1 (fail_all s.ctxs s').wakes
        ≡ waiting (s.objects e.1).scheduler + wakes_of e.1 s.wakes)
      (λ e z. omega (arith, z, fail_all-score_eq e.1 s.ctxs s' h)) s.ctxs (fail_all_done s.ctxs s')

drop_timer_own :
    {B : Type 0} (g : Ctx → B)
    → ((c : Ctx) → g (record c { timer = none }) ≡ g c)
    → (i : ℕ) (t : Option ℕ) (s : Stream) → g ((drop_timer i t s).objects i) ≡ g (s.objects i)
drop_timer_own g same i none s = refl
drop_timer_own g same i (some t) s =
    ap g (set_ctx_own i (record (s.objects i) { timer = none }) s) ∙ same (s.objects i)

-- What the fiber of a context finds when it goes on.
wake_result :
    (i scd f : ℕ) (s : Stream)
    → ((wake i (some scd) (some f) s).objects i).result
      ≡ (if (s.objects i).timed then timed_out else (s.objects i).result)
unfolding wake
wake_result i scd f s =
    let t = drop_timer i (s.objects i).timer s in
    marked (t.objects i).timed t
    ∙ rw
        (
          drop_timer_own (λ c. c.timed) (λ c. refl) i (s.objects i).timer s,
          drop_timer_own (λ c. c.result) (λ c. refl) i (s.objects i).timer s,
        )
        refl
  where
    marked :
        (b : Bool) (t : Stream)
        → ((if b
              then set_ctx i
                  (record (t.objects i) {
                    result = timed_out;
                    result_str = b't' ∷ b'i' ∷ b'm' ∷ b'e' ∷ b'o' ∷ b'u' ∷ b't' ∷ [];
                  })
                  t
              else t).objects
            i).result
          ≡ (if b then timed_out else (t.objects i).result)
    marked true t = ap (λ (c : Ctx). c.result) (set_ctx_own i _ t)
    marked false t = refl

wake_wakes :
    (i scd f : ℕ) (s : Stream)
    → (wake i (some scd) (some f) s).wakes
      ≡ record { ctx = i; scheduler = scd; fiber = f } ∷ s.wakes
unfolding wake
wake_wakes i scd f s =
    ap (λ (ws : List Wake). record { ctx = i; scheduler = scd; fiber = f } ∷ ws)
      (IsQuiet-trans s _ _ (drop_timer-IsQuiet i (s.objects i).timer s)
        (mark_timeout-IsQuiet i (drop_timer i (s.objects i).timer s))).wakes

do_rsp_wakes :
    (i scd f : ℕ) (s : Stream)
    → (s.objects i).scheduler ≡ some scd
    → (s.objects i).fiber ≡ some f
    → ((do_rsp i s).wakes ≡ record { ctx = i; scheduler = scd; fiber = f } ∷ s.wakes)
      × (((do_rsp i s).objects i).result
          ≡ (if (s.objects i).timed then timed_out else (s.objects i).result))
unfolding do_rsp
do_rsp_wakes i scd f s e k =
    let s' = set_ctx i (record (s.objects i) { scheduler = none }) s in
    let own = set_ctx_own i (record (s.objects i) { scheduler = none }) s in
    let Woken : Option ℕ → Option ℕ → Type 0 = λ o p.
      ((wake i o p s').wakes ≡ record { ctx = i; scheduler = scd; fiber = f } ∷ s.wakes)
      × (((wake i o p s').objects i).result
          ≡ (if (s.objects i).timed then timed_out else (s.objects i).result)) in
    let base : Woken (some scd) (some f) = (
      wake_wakes i scd f s',
      (wake_result i scd f s' ∙ ap (λ (c : Ctx). if c.timed then timed_out else c.result) own),
    ) in
    subst (λ o. Woken o (s.objects i).fiber) (sym e) (subst (λ p. Woken (some scd) p) (sym k) base)

waiting_zero : (o : Option ℕ) → waiting o ≡ 0 → o ≡ none
waiting_zero none h = refl
waiting_zero (some scd) h = absurd (omega arith)

-- A timeout of a context that waits wakes its fiber, with the result `TIMEOUT`.
pub on_timeout_wakes :
    (i scd f : ℕ) (s : Stream)
    → (s.objects i).scheduler ≡ some scd
    → (s.objects i).fiber ≡ some f
    → ((on_timeout i s).wakes ≡ record { ctx = i; scheduler = scd; fiber = f } ∷ s.wakes)
      × (((on_timeout i s).objects i).result ≡ timed_out)
      × (((on_timeout i s).objects i).scheduler ≡ none)
unfolding on_timeout
on_timeout_wakes i scd f s e k =
    let s' = record s { ctxs = remove (s.objects i).sn s.ctxs } in
    let t = set_ctx i (record (s.objects i) { timed = true }) s' in
    let own = set_ctx_own i (record (s.objects i) { timed = true }) s' in
    let w =
      do_rsp_wakes i scd f t (ap (λ (c : Ctx). c.scheduler) own ∙ e)
        (ap (λ (c : Ctx). c.fiber) own ∙ k) in
    (
      w.0,
      w.1 ∙ ap (λ (c : Ctx). if c.timed then timed_out else c.result) own,
      waiting_zero _ (do_rsp_done i t),
    )

-- A response to a context that waits under its serial number and has not timed out wakes its fiber, with
-- the result of the response.
pub respond_wakes :
    (sn i scd f result : ℕ) (result_str : List ℕ) (s : Stream)
    → lookup sn s.ctxs ≡ some i
    → (s.objects i).scheduler ≡ some scd
    → (s.objects i).fiber ≡ some f
    → (s.objects i).timed ≡ false
    → ((respond sn result result_str s).wakes
        ≡ record { ctx = i; scheduler = scd; fiber = f } ∷ s.wakes)
      × (((respond sn result result_str s).objects i).result ≡ result)
      × (((respond sn result result_str s).objects i).scheduler ≡ none)
unfolding respond get_and_del_ctx
respond_wakes sn i scd f result result_str s l e k d =
    let s' = record s { ctxs = remove sn s.ctxs } in
    let c = record (s.objects i) { result = result; result_str = result_str } in
    let own = set_ctx_own i c s' in
    let w =
      do_rsp_wakes i scd f (set_ctx i c s') (ap (λ (c : Ctx). c.scheduler) own ∙ e)
        (ap (λ (c : Ctx). c.fiber) own ∙ k) in
    let not_timed = ap (λ (c : Ctx). c.timed) own ∙ d in
    subst
      (λ o.
        let r = answer result result_str (take_out sn o s) in
        (r.wakes ≡ record { ctx = i; scheduler = scd; fiber = f } ∷ s.wakes)
        × ((r.objects i).result ≡ result)
        × ((r.objects i).scheduler ≡ none))
      (sym l)
      (
        w.0,
        (w.1 ∙ if-false _ _ _ not_timed ∙ ap (λ (c : Ctx). c.result) own),
        waiting_zero _ (do_rsp_done i (set_ctx i c s')),
      )
