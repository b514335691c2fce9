-- ===== src/Timer/Order.antt =====
-- The order of the timers, and the set's operations on a sorted list of them.
use sylar_windows.Prelude.{
  ◌<◌, ◌≡◌, arith, List, [], ◌∷◌, ◌++◌, true, false, All, All-middle, All-map, ◌⊎◌, inl, inr, refl,
  ap, Bool-cases,
}
use sylar_windows.Timer.State.{Timer, before, find, insert, erase}

abbrev pub Precedes : Timer → Timer → Type 0
Precedes t u = (t.next < u.next) ⊎ ((t.next ≡ u.next) × (t.address < u.address))

abbrev pub IsSorted : List Timer → Type 0
IsSorted [] = Unit
IsSorted (t ∷ ts) = All (Precedes t) ts × IsSorted ts

-- The same place in the order.
abbrev pub SamePlace : Timer → Timer → Type 0
SamePlace t u = (t.next ≡ u.next) × (t.address ≡ u.address)

pub before-Precedes : (t u : Timer) → before t u ≡ true → Precedes t u
unfolding before
before-Precedes t u h = ground arith

pub Precedes-before : (t u : Timer) → Precedes t u → before t u ≡ true
unfolding before
Precedes-before t u h = ground arith

pub Precedes-not_before : (t u : Timer) → Precedes t u → before u t ≡ false
unfolding before
Precedes-not_before t u h = ground arith

pub neither_before : (t u : Timer) → before t u ≡ false → before u t ≡ false → SamePlace t u
unfolding before
neither_before t u h k = ground arith

pub SamePlace-not_before : (t u : Timer) → SamePlace t u → before t u ≡ false
unfolding before
SamePlace-not_before t u h = ground arith

pub Precedes-trans : (t u v : Timer) → Precedes t u → Precedes u v → Precedes t v
Precedes-trans t u v h k = ground arith

pub insert-All {ℓ} :
    (P : Timer → Type ℓ) (t : Timer) (us : List Timer) → P t → All P us → All P (insert t us)
unfolding insert
insert-All P t [] p ps = (p, tt)
insert-All P t (u ∷ us) p ps = elim (Bool-cases (before t u)) [
  | inl e ↦ rw e (p, ps)
  | inr e ↦ elim (Bool-cases (before u t)) [
    | inl k ↦ rw (e, k) (ps.0, insert-All P t us p ps.1)
    | inr k ↦ rw (e, k) ps
  ]
]

pub insert-IsSorted : (t : Timer) (us : List Timer) → IsSorted us → IsSorted (insert t us)
unfolding insert
insert-IsSorted t [] h = (tt, tt)
insert-IsSorted t (u ∷ us) h = elim (Bool-cases (before t u)) [
  | inl e ↦ rw e (
    (
      (before-Precedes t u e),
      All-map (Precedes u) (Precedes t) (λ v k. Precedes-trans t u v (before-Precedes t u e) k) us
          h.0,
    ),
    h,
  )
  | inr e ↦ elim (Bool-cases (before u t)) [
    | inl k ↦
        rw (e, k)
          (insert-All (Precedes u) t us (before-Precedes u t k) h.0, insert-IsSorted t us h.1)
    | inr k ↦ rw (e, k) h
  ]
]

-- A timer that the set does not hold goes between two parts of it, and the answer of `is_begin` is
-- whether the first is empty.
pub insert-splits :
    (t : Timer) (us : List Timer)
    → IsSorted us
    → find t us ≡ false
    → (front back : List Timer) × (us ≡ front ++ back) × (insert t us ≡ front ++ t ∷ back)
unfolding insert find
insert-splits t [] h f = ([], [], refl, refl)
insert-splits t (u ∷ us) h f = elim (Bool-cases (before t u)) [
  | inl e ↦ ([], u ∷ us, refl, rw e refl)
  | inr e ↦ elim (Bool-cases (before u t)) [
    | inl k ↦
        let r = insert-splits t us h.1 (rw (e, k) at f) in
        (u ∷ r.0, r.1, ap (◌∷◌ u) r.2, rw (e, k) (ap (◌∷◌ u) r.3))
    | inr k ↦ (let g = rw (e, k) at f in ground arith)
  ]
]

-- The timers of a sorted set around one of them.
pub erase-middle :
    (t t' : Timer)
    → SamePlace t' t
    → (front back : List Timer) → IsSorted (front ++ t ∷ back)
    → erase t' (front ++ t ∷ back) ≡ front ++ back
unfolding erase
erase-middle t t' same [] back h =
    rw (SamePlace-not_before t' t same, SamePlace-not_before t t' (ground arith)) refl
erase-middle t t' same (u ∷ front) back h =
    let p = All-middle (Precedes u) front t back h.0 in
    rw (Precedes-not_before u t' (ground arith), Precedes-before u t' (ground arith))
      (ap (◌∷◌ u) (erase-middle t t' same front back h.1))

pub find-middle :
    (t t' : Timer)
    → SamePlace t' t
    → (front back : List Timer) → IsSorted (front ++ t ∷ back)
    → find t' (front ++ t ∷ back) ≡ true
unfolding find
find-middle t t' same [] back h =
    rw (SamePlace-not_before t' t same, SamePlace-not_before t t' (ground arith)) refl
find-middle t t' same (u ∷ front) back h =
    let p = All-middle (Precedes u) front t back h.0 in
    rw (Precedes-not_before u t' (ground arith), Precedes-before u t' (ground arith))
      (find-middle t t' same front back h.1)

pub drop_middle-IsSorted :
    (t : Timer) (front back : List Timer) → IsSorted (front ++ t ∷ back) → IsSorted (front ++ back)
drop_middle-IsSorted t [] back h = h.1
drop_middle-IsSorted t (u ∷ front) back h =
    (All-drop_middle (Precedes u) front t back h.0, drop_middle-IsSorted t front back h.1)
  where
    All-drop_middle :
        (P : Timer → Type 0) (xs : List Timer) (y : Timer) (ys : List Timer)
        → All P (xs ++ y ∷ ys)
        → All P (xs ++ ys)
    All-drop_middle P [] y ys p = p.1
    All-drop_middle P (x ∷ xs) y ys p = (p.0, All-drop_middle P xs y ys p.1)
