-- ===== src/Timer/Expiry.antt =====
-- What `listExpiredCb` takes from the set, and when.
use sylar_windows.Prelude.{
  ℕ, ◌+◌, ◌%◌, ◌<◌, ◌≤◌, ◌≡◌, ◌^◌, ◌∙◌, arith, List, [], ◌∷◌, ◌++◌, map, Bool, true, false, not,
  All, All-map, ltb, leb, ◌==◌, inl, inr, refl, ap, Bool-cases, ◌↔◌, le→leb, leb→le, tests,
  if◌then◌else◌, if-cases, if-true, if-false, ◌-◌, ◌≢◌, subst, sym, filter, filter-All, ltb→lt,
  none,
}
use native.Mathlib.Decide.{dec_lt}
use sylar_windows.Timer.State.{Timer, TimerManager, before, lower_bound, add_u64, sub_u64, insert}
use sylar_windows.Timer.Manager.{
  pass_equal, split_expired, list_expired_cb, detect_clock_rollover, put_back, let_go, collect,
  with_next, Listing, get_next_timer, has_timer,
}
use sylar_windows.Timer.Order.{Precedes, IsSorted, insert-IsSorted, insert-All}

abbrev pub is_due : ℕ → Timer → Bool
is_due now t = leb t.next now

abbrev pub not_due : ℕ → Timer → Bool
not_due now t = not (is_due now t)

-- From a timer on, nothing is due if it is not.
pub none_due :
    (now : ℕ) (ts : List Timer)
    → All (λ t. now < t.next) ts
    → (filter (is_due now) ts ≡ []) × (filter (not_due now) ts ≡ ts)
none_due now [] h = (refl, refl)
none_due now (t ∷ ts) h = elim (Bool-cases (leb t.next now)) [
  | inl e ↦ absurd (omega (arith, tests))
  | inr e ↦ rw e ((none_due now ts h.1).0, ap (◌∷◌ t) (none_due now ts h.1).1)
]

later :
    (now : ℕ) (t : Timer) (ts : List Timer)
    → now < t.next
    → All (Precedes t) ts
    → All (λ u. now < u.next) ts
later now t ts h p = All-map (Precedes t) (λ u. now < u.next) (λ u k. ground arith) ts p

not_earlier :
    (now : ℕ) (t : Timer) (ts : List Timer)
    → now ≤ t.next
    → All (Precedes t) ts
    → All (λ u. now ≤ u.next) ts
not_earlier now t ts h p = All-map (Precedes t) (λ u. now ≤ u.next) (λ u k. ground arith) ts p

pub pass_equal-filter :
    (now : ℕ) (ts : List Timer)
    → IsSorted ts
    → All (λ t. now ≤ t.next) ts
    → pass_equal now ts ≡ (filter (is_due now) ts, filter (not_due now) ts)
unfolding pass_equal
pass_equal-filter now [] h k = refl
pass_equal-filter now (t ∷ ts) h k = elim (Bool-cases (t.next == now)) [
  | inl e ↦ rw (e, le_test e, pass_equal-filter now ts h.1 k.1) refl
  | inr e ↦
      let late = later now t ts (ground arith) h.0 in
      rw (e, gt_test e, (none_due now ts late).0, (none_due now ts late).1) refl
]
  where
    le_test : (t.next == now) ≡ true → leb t.next now ≡ true
    le_test e = ground arith

    gt_test : (t.next == now) ≡ false → leb t.next now ≡ false
    gt_test e = ground arith

-- The timer that stands for `now`.
abbrev pub now_timer : ℕ → ℕ → Timer
now_timer key now = record { address = key; recurring = false; ms = 0; next = now; cb = none }

before_now : (key now : ℕ) (t : Timer) → before t (now_timer key now) ≡ true → leb t.next now ≡ true
unfolding before
before_now key now t e = ground arith

not_before_now : (key now : ℕ) (t : Timer) → before t (now_timer key now) ≡ false → now ≤ t.next
unfolding before
not_before_now key now t e = ground arith

both : ℕ → List Timer × List Timer → List Timer × List Timer
both now low = (low.0 ++ (pass_equal now low.1).0, (pass_equal now low.1).1)

lower_bound-filter :
    (key now : ℕ) (ts : List Timer)
    → IsSorted ts
    → both now (lower_bound (now_timer key now) ts)
      ≡ (filter (is_due now) ts, filter (not_due now) ts)
unfolding both lower_bound
lower_bound-filter key now [] h = pass_equal-filter now [] tt tt
lower_bound-filter key now (t ∷ ts) h = elim (Bool-cases (before t (now_timer key now))) [
  | inl e ↦
      rw (e, before_now key now t e)
        (ap (λ (p : List Timer × List Timer). (t ∷ p.0, p.1)) (lower_bound-filter key now ts h.1))
  | inr e ↦
      let k = not_before_now key now t e in
      rw e (pass_equal-filter now (t ∷ ts) h (k, not_earlier now t ts k h.0))
]

pub split_expired-filter :
    (key now : ℕ) (ts : List Timer)
    → IsSorted ts
    → split_expired key now false ts ≡ (filter (is_due now) ts, filter (not_due now) ts)
unfolding split_expired both
split_expired-filter key now ts h = lower_bound-filter key now ts h

-- A set with nothing due is left as it is, which is what the early return of the code does.
nothing_due :
    (now : ℕ) (t : Timer) (ts : List Timer)
    → IsSorted (t ∷ ts)
    → ltb now t.next ≡ true
    → (filter (is_due now) (t ∷ ts) ≡ []) × (filter (not_due now) (t ∷ ts) ≡ t ∷ ts)
nothing_due now t ts h e =
    let k = ltb→lt now t.next e in none_due now (t ∷ ts) (k, later now t ts k h.0)

pub filter-IsSorted : (p : Timer → Bool) (ts : List Timer) → IsSorted ts → IsSorted (filter p ts)
filter-IsSorted p [] h = tt
filter-IsSorted p (t ∷ ts) h = elim (Bool-cases (p t)) [
  | inl e ↦ rw e (filter-All (Precedes t) p ts h.0, filter-IsSorted p ts h.1)
  | inr e ↦ rw e (filter-IsSorted p ts h.1)
]

pub put_back-IsSorted :
    (now : ℕ) (expired ts : List Timer) → IsSorted ts → IsSorted (put_back now expired ts)
unfolding put_back
put_back-IsSorted now [] ts h = h
put_back-IsSorted now (t ∷ expired) ts h =
    put_back-IsSorted now expired _
      (if-cases IsSorted t.recurring _ ts (λ e. insert-IsSorted _ ts h) (λ e. h))

pub put_back-All {ℓ} :
    (P : Timer → Type ℓ) (now : ℕ) (expired ts : List Timer)
    → All (λ t. t.recurring ≡ true → P (with_next (add_u64 now t.ms) t)) expired
    → All P ts
    → All P (put_back now expired ts)
unfolding put_back
put_back-All P now [] ts h k = k
put_back-All P now (t ∷ expired) ts h k =
    put_back-All P now expired _ h.1
      (if-cases (All P) t.recurring _ ts (λ e. insert-All P _ ts (h.0 e) k) (λ e. k))

-- The timers that have come to their end: those that do not recur, without callbacks.
abbrev pub is_once : Timer → Bool
is_once t = not t.recurring

abbrev pub without : Timer → Timer
without t = record t { cb = none }

abbrev pub ended : List Timer → List Timer
ended ts = map without (filter is_once ts)

-- The timers that recur, each due again `m_ms` milliseconds from now, in 64 bits.
abbrev pub is_again : Timer → Bool
is_again t = t.recurring

abbrev pub again : ℕ → Timer → Timer
again now t = record t { next = (now + t.ms) % 2 ^ 64 }

abbrev pub renewed : ℕ → List Timer → List Timer
renewed now ts = map (again now) (filter is_again ts)

-- Timers inserted one after the other.
abbrev pub insert_all : List Timer → List Timer → List Timer
insert_all [] ts = ts
insert_all (t ∷ us) ts = insert_all us (insert t ts)

pub let_go-ended : (ts : List Timer) → let_go ts ≡ ended ts
unfolding let_go
let_go-ended [] = refl
let_go-ended (t ∷ ts) = elim (Bool-cases t.recurring) [
  | inl e ↦
      if-true t.recurring _ _ e
      ∙ let_go-ended ts
      ∙ ap (map without)
          (sym (if-false (not t.recurring) (t ∷ filter is_once ts) (filter is_once ts) (ap not e)))
  | inr e ↦
      if-false t.recurring _ _ e
      ∙ ap (◌∷◌ (without t)) (let_go-ended ts)
      ∙ ap (map without)
          (sym (if-true (not t.recurring) (t ∷ filter is_once ts) (filter is_once ts) (ap not e)))
]

pub put_back-renewed :
    (now : ℕ) (expired ts : List Timer)
    → put_back now expired ts ≡ insert_all (renewed now expired) ts
unfolding put_back add_u64
put_back-renewed now [] ts = refl
put_back-renewed now (t ∷ expired) ts = elim (Bool-cases t.recurring) [
  | inl e ↦
      ap (put_back now expired) (if-true t.recurring _ _ e)
      ∙ put_back-renewed now expired (insert (again now t) ts)
      ∙ ap (λ us. insert_all (map (again now) us) ts)
          (sym (if-true t.recurring (t ∷ filter is_again expired) (filter is_again expired) e))
  | inr e ↦
      ap (put_back now expired) (if-false t.recurring _ _ e)
      ∙ put_back-renewed now expired ts
      ∙ ap (λ us. insert_all (map (again now) us) ts)
          (sym (if-false t.recurring (t ∷ filter is_again expired) (filter is_again expired) e))
]

-- What `listExpiredCb` has to list at `now`, and what has to be in the set then.
abbrev pub Lists : ℕ → List Timer → Listing → Type 0
Lists now ts r =
    (r.cbs ≡ map (λ t. t.cb) (filter (is_due now) ts))
    × (r.released ≡ let_go (filter (is_due now) ts))
    × (r.manager.timers ≡ put_back now (filter (is_due now) ts) (filter (not_due now) ts))

collect-Lists :
    (now : ℕ) (m : TimerManager) (ts : List Timer) (p : List Timer × List Timer)
    → p ≡ (filter (is_due now) ts, filter (not_due now) ts)
    → Lists now ts (collect now m p)
unfolding collect
collect-Lists now m ts p e = subst (λ p. Lists now ts (collect now m p)) (sym e) (refl, refl, refl)

list_expired-Lists :
    (key now previouse : ℕ) (tickled : Bool) (ts : List Timer)
    → IsSorted ts
    → detect_clock_rollover now previouse ≡ false
    → Lists now ts (
        list_expired_cb key now
          (record { timers = ts; tickled = tickled; previouse_time = previouse }))
unfolding list_expired_cb put_back let_go
list_expired-Lists key now previouse tickled [] h e = (refl, refl, refl)
list_expired-Lists key now previouse tickled (t ∷ ts) h e = rw e (
    if-cases (Lists now (t ∷ ts)) (ltb now t.next) _ _
      (λ k. rw ((nothing_due now t ts h k).0, (nothing_due now t ts h k).1) (refl, refl, refl))
      (λ k. collect-Lists now _ (t ∷ ts) _ (split_expired-filter key now (t ∷ ts) h)))

pub list_expired_cb-Lists_plain :
    (key now : ℕ) (m : TimerManager)
    → IsSorted m.timers
    → detect_clock_rollover now m.previouse_time ≡ false
    → Lists now m.timers (list_expired_cb key now m)
list_expired_cb-Lists_plain key now m h e =
    list_expired-Lists key now m.previouse_time m.tickled m.timers h e

-- Without a step back of the clock, what is listed are the callbacks of the timers that are due, in their
-- order; those that do not recur come out without their callbacks; the set has the timers that are not
-- due, with those that recur inserted at their times m_ms from now, and is sorted.
pub list_expired_cb-Lists :
    (key now : ℕ) (m : TimerManager)
    → IsSorted m.timers
    → detect_clock_rollover now m.previouse_time ≡ false
    → let r = list_expired_cb key now m in
      (r.cbs ≡ map (λ t. t.cb) (filter (is_due now) m.timers))
      × (r.released ≡ ended (filter (is_due now) m.timers))
      × (r.manager.timers
          ≡ insert_all (renewed now (filter (is_due now) m.timers)) (filter (not_due now) m.timers))
      × IsSorted r.manager.timers
list_expired_cb-Lists key now m h e =
    let (a, b, c) = list_expired_cb-Lists_plain key now m h e in
    (
      a,
      b ∙ let_go-ended (filter (is_due now) m.timers),
      c ∙ put_back-renewed now (filter (is_due now) m.timers) (filter (not_due now) m.timers),
      subst IsSorted (sym c) (
          put_back-IsSorted now (filter (is_due now) m.timers) _
            (filter-IsSorted (not_due now) m.timers h)),
    )

-- A clock that went back by more than an hour: every timer is listed.
pub list_expired_cb_rollover :
    (key now : ℕ) (m : TimerManager)
    → detect_clock_rollover now m.previouse_time ≡ true
    → ((list_expired_cb key now m).cbs ≡ map (λ t. t.cb) m.timers)
      × ((list_expired_cb key now m).released ≡ let_go m.timers)
      × ((list_expired_cb key now m).manager.timers ≡ put_back now m.timers [])
unfolding list_expired_cb collect put_back let_go split_expired
list_expired_cb_rollover key now m e = go m.timers
  where
    go :
        (ts : List Timer)
        → let r =
            list_expired_cb key now
              (record { timers = ts; tickled = m.tickled; previouse_time = m.previouse_time }) in
          (r.cbs ≡ map (λ t. t.cb) ts)
          × (r.released ≡ let_go ts)
          × (r.manager.timers ≡ put_back now ts [])
    go [] = (refl, refl, refl)
    go (t ∷ ts) = rw e (refl, refl, refl)

kept_later : (now : ℕ) (ts : List Timer) → All (λ t. now < t.next) (filter (not_due now) ts)
kept_later now [] = tt
kept_later now (t ∷ ts) = elim (Bool-cases (leb t.next now)) [
  | inl e ↦ rw e (kept_later now ts)
  | inr e ↦ rw e (ground arith, kept_later now ts)
]

add_u64-lt : (a b : ℕ) → a + b < 2 ^ 64 → 0 < b → a < add_u64 a b
unfolding add_u64
add_u64-lt a b h k = omega arith

-- Without a step back of the clock, a listing leaves nothing in the set that is due, if the timers wait
-- at least a millisecond and no sum wraps around.
pub list_expired_cb-later :
    (key now : ℕ) (m : TimerManager)
    → IsSorted m.timers
    → detect_clock_rollover now m.previouse_time ≡ false
    → All (λ t. (0 < t.ms) × (now + t.ms < 2 ^ 64)) m.timers
    → All (λ t. now < t.next) (list_expired_cb key now m).manager.timers
list_expired_cb-later key now m h e k =
    subst (All (λ t. now < t.next)) (sym (list_expired_cb-Lists_plain key now m h e).2) (
      put_back-All (λ t. now < t.next) now (filter (is_due now) m.timers)
        (filter (not_due now) m.timers)
        (filter-All _ (is_due now) m.timers (
          All-map (λ t. (0 < t.ms) × (now + t.ms < 2 ^ 64))
            (λ t. t.recurring ≡ true → now < add_u64 now t.ms)
            (λ t p r. add_u64-lt now t.ms p.1 p.0) m.timers k))
        (kept_later now m.timers))

-- A listing keeps the set sorted, whatever the clock did.
pub list_expired_cb-IsSorted :
    (key now : ℕ) (m : TimerManager)
    → IsSorted m.timers
    → IsSorted (list_expired_cb key now m).manager.timers
list_expired_cb-IsSorted key now m h =
    elim (Bool-cases (detect_clock_rollover now m.previouse_time)) [
      | inl e ↦
          subst IsSorted (sym (list_expired_cb_rollover key now m e).2)
            (put_back-IsSorted now m.timers [] tt)
      | inr e ↦ subst IsSorted (sym (list_expired_cb-Lists_plain key now m h e).2) (
          put_back-IsSorted now (filter (is_due now) m.timers) _
            (filter-IsSorted (not_due now) m.timers h))
    ]

earliest :
    (now : ℕ) (t : Timer) (ts : List Timer)
    → IsSorted (t ∷ ts)
    → now < t.next
    → filter (is_due now) (t ∷ ts) ≡ []
earliest now t ts h k = (none_due now (t ∷ ts) (k, later now t ts k h.0)).0

sub_u64-le : (a b : ℕ) → b ≤ a → a < 2 ^ 64 → sub_u64 a b ≡ a - b
unfolding sub_u64
sub_u64-le a b h k = omega arith

some_due : (at : ℕ) (t : Timer) (ts : List Timer) → t.next ≤ at → filter (is_due at) (t ∷ ts) ≢ []
some_due at t ts h = rw (le→leb t.next at h) (λ e. ground arith)

wait-sub :
    (now : ℕ) (t : Timer)
    → t.next < 2 ^ 64
    → (if leb t.next now then 0 else sub_u64 t.next now) ≡ t.next - now
wait-sub now t h = elim (Bool-cases (leb t.next now)) [
  | inl e ↦ rw e (omega (arith, leb→le t.next now e))
  | inr e ↦ rw e (sub_u64-le t.next now (ground arith) h)
]

due_at :
    (now at : ℕ) (t : Timer) (ts : List Timer)
    → IsSorted (t ∷ ts)
    → now ≤ at
    → (filter (is_due at) (t ∷ ts) ≡ []) ↔ (at < now + (t.next - now))
due_at now at t ts h lo = elim (dec_lt at t.next) [
  | yes k ↦ ((λ _. omega arith), (λ _. earliest at t ts h k))
  | no k ↦ ((λ e. absurd (some_due at t ts (omega arith) e)), (λ l. absurd (omega arith)))
]

-- The wait that `getNextTimer` returns is exact: of all times from now on, those at which no timer of
-- the set is due are the times before the end of the wait.
pub get_next_timer_exact :
    (now at : ℕ) (m : TimerManager)
    → IsSorted m.timers
    → All (λ t. t.next < 2 ^ 64) m.timers
    → has_timer m ≡ true
    → now ≤ at
    → (filter (is_due at) m.timers ≡ []) ↔ (at < now + (get_next_timer now m).0)
unfolding get_next_timer has_timer
get_next_timer_exact now at m h k e lo = go m.timers h k e
  where
    with : List Timer → TimerManager
    with ts = record { timers = ts; tickled = m.tickled; previouse_time = m.previouse_time }

    go :
        (ts : List Timer)
        → IsSorted ts
        → All (λ t. t.next < 2 ^ 64) ts
        → has_timer (with ts) ≡ true
        → (filter (is_due at) ts ≡ []) ↔ (at < now + (get_next_timer now (with ts)).0)
    go [] h k e = absurd (ground arith)
    go (u ∷ us) h k e =
        subst (λ w. (filter (is_due at) (u ∷ us) ≡ []) ↔ (at < now + w)) (sym (wait-sub now u k.0))
          (due_at now at u us h lo)
