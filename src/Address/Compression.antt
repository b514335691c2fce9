-- ===== src/Address/Compression.antt =====
-- The text of an IPv6 address: its first run of zero groups is left out.
use sylar_windows.Prelude.{
  ℕ, zero, suc, ◌≡◌, ◌≢◌, refl, sym, ap, ◌∙◌, arith, List, [], ◌∷◌, ◌++◌, replicate, All, Bool,
  true, false, not, ◌&&◌, Option, none, some, ◌==◌, if◌then◌else◌, Bool-cases, inl, inr, ◌⊎◌,
}
use mathlib.Core.List.{append_assoc}
use sylar_windows.Address.Ipv6.{insert_loop, groups_text, after_zero, colon, ends_in_zero}

module _ (text : ℕ → List ℕ) where
  -- Each group behind a colon; groups with colons between them.
  abbrev pub each_behind : List ℕ → List ℕ
  each_behind [] = []
  each_behind (g ∷ gs) = b':' ∷ (text g ++ each_behind gs)

  abbrev pub joined : List ℕ → List ℕ
  joined [] = []
  joined (g ∷ gs) = text g ++ each_behind gs

  -- Once the gap is made, every group is printed.
  after_gap : (p : ℕ) (gs : List ℕ) → insert_loop text (some p) true gs ≡ (each_behind gs, true)
  unfolding insert_loop
  after_gap p [] = refl
  after_gap p (g ∷ gs) = elim (Bool-cases (p == 0)) [
    | inl e ↦ elim (Bool-cases (g == 0)) [
      | inl k ↦ rw (e, k, after_gap g gs) refl
      | inr k ↦ rw (e, k, after_gap g gs) refl
    ]
    | inr e ↦ elim (Bool-cases (g == 0)) [
      | inl k ↦ rw (e, k, after_gap g gs) refl
      | inr k ↦ rw (e, k, after_gap g gs) refl
    ]
  ]

  abbrev pub StartsNonzero : List ℕ → Type 0
  StartsNonzero [] = Unit
  StartsNonzero (g ∷ gs) = g ≢ 0

  abbrev behind : Option ℕ → List ℕ → List ℕ
  behind before [] = []
  behind before (g ∷ gs) = colon before ++ text g ++ each_behind gs

  -- What the loop has printed when it ends within its first gap, or has left that behind.
  abbrev Printed : List ℕ → List ℕ → List ℕ × Bool → Bool → Type 0
  Printed front [] r ends = (r ≡ (front, false)) × (ends ≡ true)
  Printed front (g ∷ gs) r ends = r ≡ (front ++ b':' ∷ b':' ∷ joined (g ∷ gs), true)

  nonzero : (g : ℕ) → (suc g == 0) ≡ false
  nonzero g = ground arith

  in_gap :
      (gs : List ℕ)
      → (n : ℕ) × (back : List ℕ) × (gs ≡ replicate n 0 ++ back)
        × StartsNonzero back
        × Printed [] back (insert_loop text (some 0) false gs) (ends_in_zero (0 ∷ gs))
  unfolding insert_loop
  in_gap [] = (0, [], refl, tt, (refl, refl))
  in_gap (zero ∷ gs) = let (n, back, e, s, p) = in_gap gs in (suc n, back, ap (◌∷◌ 0) e, s, p)
  in_gap (suc g ∷ gs) = (
    0,
    suc g ∷ gs,
    refl,
    (λ z. absurd (omega (arith, z))),
    rw (nonzero g, after_gap (suc g) gs) refl,
  )

  ends_in_nonzero : (g : ℕ) (gs : List ℕ) → ends_in_zero (suc g ∷ gs) ≡ ends_in_zero gs
  ends_in_nonzero g [] = nonzero g
  ends_in_nonzero g (h ∷ gs) = refl

  behind-some : (p : ℕ) (front : List ℕ) → behind (some p) front ≡ each_behind front
  behind-some p [] = refl
  behind-some p (g ∷ gs) = refl

  -- A group that is not zero, in front of the rest.
  group_step :
      (before : Option ℕ) (g : ℕ) (gs : List ℕ)
      → after_zero before ≡ false
      → insert_loop text before false (suc g ∷ gs) ≡ (
        colon before ++ text (suc g) ++ (insert_loop text (some (suc g)) false gs).0,
        (insert_loop text (some (suc g)) false gs).1,
      )
  unfolding insert_loop
  group_step before g gs h = rw (nonzero g, h) refl

  extend :
      (before : Option ℕ) (g : ℕ) (gs front back : List ℕ)
      → after_zero before ≡ false
      → Printed
          (behind (some (suc g)) front)
          back
          (insert_loop text (some (suc g)) false gs)
          (ends_in_zero gs)
      → Printed
          (behind before (suc g ∷ front))
          back
          (insert_loop text before false (suc g ∷ gs))
          (ends_in_zero (suc g ∷ gs))
  extend before g gs front [] h (e, z) =
      (group_step before g gs h ∙ rw (e, behind-some (suc g) front) refl, ends_in_nonzero g gs ∙ z)
  extend before g gs front (b ∷ back) h e =
      group_step before g gs h
      ∙ rw (e, behind-some (suc g) front)
          (ap (λ t. (t, true))
            (sym (append_assoc (colon before ++ text (suc g)) (each_behind front) _)))

  -- How a list of groups is cut at its first gap.
  abbrev Cut : Option ℕ → List ℕ → Type 0
  Cut before gs =
      (front : List ℕ) × (n : ℕ) × (back : List ℕ) × (gs ≡ front ++ replicate n 0 ++ back)
      × All (λ g. g ≢ 0) front
      × StartsNonzero back
      × (((n ≡ 0)
            × (back ≡ [])
            × (insert_loop text before false gs ≡ (behind before front, false))
            × (ends_in_zero gs ≡ false))
          ⊎ ((n ≢ 0)
              × Printed (behind before front) back (insert_loop text before false gs)
                  (ends_in_zero gs)))

  cut : (before : Option ℕ) (gs : List ℕ) → after_zero before ≡ false → Cut before gs
  unfolding insert_loop
  cut before [] h = ([], 0, [], refl, tt, tt, inl (refl, refl, refl, refl))
  cut before (zero ∷ gs) h =
      let (n, back, e, s, p) = in_gap gs in
      ([], suc n, back, ap (◌∷◌ 0) e, tt, s, inr ((λ z. absurd (omega (arith, z))), p))
  cut before (suc g ∷ gs) h =
      let (front, n, back, e, z, s, r) = cut (some (suc g)) gs (nonzero g) in
      (
        suc g ∷ front,
        n,
        back,
        ap (◌∷◌ (suc g)) e,
        ((λ z. absurd (omega (arith, z))), z),
        s,
        elim r [
          | inl c ↦ inl (
            c.0,
            c.1,
            (group_step before g gs h ∙ rw (c.2, behind-some (suc g) front) refl),
            ends_in_nonzero g gs ∙ c.3,
          )
          | inr c ↦ inr (c.0, extend before g gs front back h c.1)
        ],
      )

  whole :
      (back front : List ℕ) (r : List ℕ × Bool) (ends : Bool)
      → Printed front back r ends
      → (if not r.1 && ends then r.0 ++ b':' ∷ b':' ∷ [] else r.0)
        ≡ front ++ b':' ∷ b':' ∷ joined back
  whole [] front r ends (e, z) = rw (e, z) refl
  whole (b ∷ back) front r ends e = rw e refl

  behind-none : (front : List ℕ) → behind none front ≡ joined front
  behind-none [] = refl
  behind-none (g ∷ gs) = refl

  -- The text of the groups is their numbers with colons between them, where the first run of zero
  -- groups, if there is one, is left out between two colons: what stands before it has no zero group,
  -- and what stands behind it does not begin with one.
  pub groups_text_compressed :
      (gs : List ℕ)
      → (front : List ℕ) × (n : ℕ) × (back : List ℕ) × (gs ≡ front ++ replicate n 0 ++ back)
        × All (λ g. g ≢ 0) front
        × StartsNonzero back
        × (((n ≡ 0) × (back ≡ []) × (groups_text text gs ≡ joined front))
            ⊎ ((n ≢ 0) × (groups_text text gs ≡ joined front ++ b':' ∷ b':' ∷ joined back)))
  unfolding groups_text
  groups_text_compressed gs =
      let (front, n, back, e, z, s, r) = cut none gs refl in
      (
        front,
        n,
        back,
        e,
        z,
        s,
        elim r [
          | inl c ↦ inl (c.0, c.1, rw (c.2, c.3) (behind-none front))
          | inr c ↦ inr (
            c.0,
            whole back (behind none front) (insert_loop text none false gs) (ends_in_zero gs) c.1
                ∙ ap (λ t. t ++ b':' ∷ b':' ∷ joined back) (behind-none front),
          )
        ],
      )
