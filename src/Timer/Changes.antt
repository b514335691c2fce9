-- ===== src/Timer/Changes.antt =====
-- What `addTimer`, `cancel`, `refresh` and `reset` do to the set, and when a waiting thread is woken.
use sylar_windows.Prelude.{
  ℕ, ◌≡◌, ◌≢◌, ◌↔◌, arith, List, [], ◌∷◌, ◌++◌, Bool, true, false, not, ◌&&◌, All, inl, inr, refl,
  ap, sym, subst, Bool-cases, ◌∙◌, ◌==◌, if◌then◌else◌, if-true, if-false, Option, none, some,
}
use sylar_windows.Timer.State.{
  Timer, TimerManager, before, insert, erase, find, is_begin, add_u64, sub_u64,
}
use sylar_windows.Timer.Manager.{
  insert_timer, cancel, refresh, reset, with_next, with_ms, without_cb, with_timers, Step, stay,
  if_cb,
}
use sylar_windows.Timer.Order.{
  Precedes, IsSorted, insert-IsSorted, insert-splits, erase-middle, find-middle,
  drop_middle-IsSorted, SamePlace-not_before, neither_before, Precedes-before,
}

-- `t` is added to the set `ts`, which becomes `ts'`.
abbrev pub Added : Timer → List Timer → List Timer → Type 0
Added t ts ts' = (front back : List Timer) × (ts ≡ front ++ back) × (ts' ≡ front ++ t ∷ back)

is_begin-insert :
    (t : Timer) (us : List Timer)
    → IsSorted us
    → find t us ≡ false
    → (is_begin t (insert t us) ≡ true) ↔ All (Precedes t) us
unfolding is_begin insert find
is_begin-insert t [] h f = ((λ _. tt), (λ _. rw (SamePlace-not_before t t (refl, refl)) refl))
is_begin-insert t (u ∷ us) h f = elim (Bool-cases (before t u)) [
  | inl e ↦
      let sorted : IsSorted (insert t (u ∷ us)) = insert-IsSorted t (u ∷ us) h in
      let first : All (Precedes t) (u ∷ us) = (rw e at sorted).0 in
      ((λ _. first), (λ _. rw (e, SamePlace-not_before t t (refl, refl)) refl))
  | inr e ↦ elim (Bool-cases (before u t)) [
    | inl k ↦ (
      (λ d. absurd (let g = rw (e, k) at d in ground arith)),
      (λ p. absurd (let g = Precedes-before t u p.0 in ground arith)),
    )
    | inr k ↦ absurd (let g = rw (e, k) at f in ground arith)
  ]
]

and_not : (a b : Bool) → (a && not b ≡ true) ↔ ((b ≡ false) × (a ≡ true))
and_not true true = ((λ e. absurd (ground arith)), (λ p. absurd (ground arith)))
and_not true false = ((λ e. (refl, refl)), (λ p. refl))
and_not false true = ((λ e. absurd (ground arith)), (λ p. absurd (ground arith)))
and_not false false = ((λ e. absurd (ground arith)), (λ p. absurd (ground arith)))

-- `addTimer` puts a timer that the set does not hold into the set, keeps all others and the order, and
-- calls `onTimerInsertedAtFront` exactly if the timer is the first of the set and the manager was
-- not tickled since the last `getNextTimer`.
pub insert_timer-Added :
    (t : Timer) (m : TimerManager)
    → IsSorted m.timers
    → find t m.timers ≡ false
    → let r = insert_timer t m in
      Added t m.timers r.1.timers
      × IsSorted r.1.timers
      × ((r.0 ≡ true) ↔ ((m.tickled ≡ false) × All (Precedes t) m.timers))
unfolding insert_timer
insert_timer-Added t m h f =
    let begin = is_begin-insert t m.timers h f in
    let both = and_not (is_begin t (insert t m.timers)) m.tickled in
    (
      insert-splits t m.timers h f,
      insert-IsSorted t m.timers h,
      ((λ e. ((both.0 e).0, begin.0 (both.0 e).1)), (λ p. both.1 (p.0, begin.1 p.1))),
    )

find_absent :
    (t : Timer) (us : List Timer) → All (λ u. u.address ≢ t.address) us → find t us ≡ false
unfolding find
find_absent t [] h = refl
find_absent t (u ∷ us) h = elim (Bool-cases (before t u)) [
  | inl e ↦ rw e refl
  | inr e ↦ elim (Bool-cases (before u t)) [
    | inl k ↦ rw (e, k) (find_absent t us h.1)
    | inr k ↦ absurd (h.0 (sym (neither_before t u e k).1))
  ]
]

if_cb-some {ℓ} : {A : Type ℓ} (o : Option ℕ) (c : ℕ) (x y : A) → o ≡ some c → if_cb o x y ≡ x
if_cb-some none c x y e = absurd (ground arith)
if_cb-some (some d) c x y e = refl

-- `cancel` of a timer that has a callback and stands in the set takes it, and nothing else, out of the
-- set, and the timer has no callback then.
pub cancel_removes :
    (t : Timer) (c : ℕ) (m : TimerManager) (front back : List Timer)
    → IsSorted (front ++ t ∷ back)
    → m.timers ≡ front ++ t ∷ back
    → t.cb ≡ some c
    → (cancel t m
        ≡ some (record {
          result = true;
          woken = false;
          timer = without_cb t;
          manager = with_timers (front ++ back) m;
        }))
      × IsSorted (front ++ back)
unfolding cancel
cancel_removes t c m front back h e k = (
  rw
      (
        k,
        e,
        find-middle t (without_cb t) (refl, refl) front back h,
        erase-middle t (without_cb t) (refl, refl) front back h,
      )
      refl,
  drop_middle-IsSorted t front back h,
)

refresh_within :
    (now : ℕ) (t : Timer) (c : ℕ) (m : TimerManager) (front back : List Timer)
    → IsSorted (front ++ t ∷ back)
    → m.timers ≡ front ++ t ∷ back
    → t.cb ≡ some c
    → let t' = with_next (add_u64 now t.ms) t in
      refresh now t m ≡ stay false t' (with_timers (insert t' (front ++ back)) m)
unfolding refresh
refresh_within now t c m front back h e k =
    let find_t =
      subst (λ ts. find t ts ≡ true) (sym e) (find-middle t t (refl, refl) front back h) in
    let erase_t =
      subst (λ ts. erase t ts ≡ front ++ back) (sym e)
        (erase-middle t t (refl, refl) front back h) in
    if_cb-some t.cb c _ _ k
    ∙ if-true (find t m.timers) _ _ find_t
    ∙ ap
        (λ ts.
          let t' = with_next (add_u64 now t.ms) t in stay false t' (with_timers (insert t' ts) m))
        erase_t

-- `refresh` of a timer that has a callback and stands in the set moves it to its place for an expiry
-- `ms` from now, keeps the others and the order, calls nothing, and returns false.
pub refresh_moves :
    (now : ℕ) (t : Timer) (c : ℕ) (m : TimerManager) (front back : List Timer)
    → IsSorted (front ++ t ∷ back)
    → All (λ u. u.address ≢ t.address) (front ++ back)
    → m.timers ≡ front ++ t ∷ back
    → t.cb ≡ some c
    → let r = refresh now t m in
      (r.result ≡ false)
      × (r.woken ≡ false)
      × (r.timer ≡ with_next (add_u64 now t.ms) t)
      × Added r.timer (front ++ back) r.manager.timers
      × IsSorted r.manager.timers
refresh_moves now t c m front back h a e k =
    let rest = drop_middle-IsSorted t front back h in
    let t' = with_next (add_u64 now t.ms) t in
    subst
      (λ (r : Step).
        (r.result ≡ false)
        × (r.woken ≡ false)
        × (r.timer ≡ t')
        × Added r.timer (front ++ back) r.manager.timers
        × IsSorted r.manager.timers)
      (sym (refresh_within now t c m front back h e k))
      (
        refl,
        refl,
        refl,
        insert-splits t' (front ++ back) rest (find_absent t' (front ++ back) a),
        insert-IsSorted t' (front ++ back) rest,
      )

reset_within :
    (now ms : ℕ) (from_now : Bool) (t : Timer) (c : ℕ) (m : TimerManager) (front back : List Timer)
    → IsSorted (front ++ t ∷ back)
    → m.timers ≡ front ++ t ∷ back
    → t.cb ≡ some c
    → (ms == t.ms) && not from_now ≡ false
    → let start = if from_now then now else sub_u64 t.next t.ms in
      let t' = with_next (add_u64 start ms) (with_ms ms t) in
      let added = insert_timer t' (with_timers (front ++ back) m) in
      reset now ms from_now t m
      ≡ record { result = true; woken = added.0; timer = t'; manager = added.1 }
unfolding reset
reset_within now ms from_now t c m front back h e k b =
    let find_t =
      subst (λ ts. find t ts ≡ true) (sym e) (find-middle t t (refl, refl) front back h) in
    let erase_t =
      subst (λ ts. erase t ts ≡ front ++ back) (sym e)
        (erase-middle t t (refl, refl) front back h) in
    if-false ((ms == t.ms) && not from_now) _ _ b
    ∙ if_cb-some t.cb c _ _ k
    ∙ if-true (find t m.timers) _ _ find_t
    ∙ ap
        (λ ts.
          let start = if from_now then now else sub_u64 t.next t.ms in
          let t' = with_next (add_u64 start ms) (with_ms ms t) in
          let added = insert_timer t' (with_timers ts m) in
          record { result = true; woken = added.0; timer = t'; manager = added.1 })
        erase_t

-- `reset` of a timer that has a callback and stands in the set, with a new period or from now on, moves
-- it to its place for an expiry `ms` after its start, which is now or the start of the period it is
-- in, keeps the others and the order, wakes the waiting thread as `addTimer` does, and
-- returns true.
pub reset_moves :
    (now ms : ℕ) (from_now : Bool) (t : Timer) (c : ℕ) (m : TimerManager) (front back : List Timer)
    → IsSorted (front ++ t ∷ back)
    → All (λ u. u.address ≢ t.address) (front ++ back)
    → m.timers ≡ front ++ t ∷ back
    → t.cb ≡ some c
    → (ms == t.ms) && not from_now ≡ false
    → let r = reset now ms from_now t m in
      let start = if from_now then now else sub_u64 t.next t.ms in
      (r.result ≡ true)
      × (r.timer ≡ with_next (add_u64 start ms) (with_ms ms t))
      × Added r.timer (front ++ back) r.manager.timers
      × IsSorted r.manager.timers
      × ((r.woken ≡ true) ↔ ((m.tickled ≡ false) × All (Precedes r.timer) (front ++ back)))
reset_moves now ms from_now t c m front back h a e k b =
    let rest = drop_middle-IsSorted t front back h in
    let start = if from_now then now else sub_u64 t.next t.ms in
    let t' = with_next (add_u64 start ms) (with_ms ms t) in
    let added =
      insert_timer-Added t' (with_timers (front ++ back) m) rest
        (find_absent t' (front ++ back) a) in
    subst
      (λ (r : Step).
        (r.result ≡ true)
        × (r.timer ≡ t')
        × Added r.timer (front ++ back) r.manager.timers
        × IsSorted r.manager.timers
        × ((r.woken ≡ true) ↔ ((m.tickled ≡ false) × All (Precedes r.timer) (front ++ back))))
      (sym (reset_within now ms from_now t c m front back h e k b))
      (refl, refl, added.0, added.1, added.2)
