-- ===== src/Prelude/Slices.antt =====
-- Cutting a list, and overwriting a part of it: the laws of `take`, `drop` and `splice`.
use Prim.Native.Nat.{ℕ, zero, suc, ◌+◌, ◌≤◌}
use mathlib.Core.Path.{◌≡◌, refl, ap, sym, ◌∙◌}
use mathlib.Core.List.{List, [], ◌∷◌, ◌++◌, append-nil, append_assoc}
use native.Mathlib.Nat.{zero-add}
use native.Mathlib.Omega.{arith}
use sylar_windows.Prelude.Lists.{
  length, take, drop, length-append, length-take, length-drop, take-append-drop,
}

module _ {ℓ} {A : Type ℓ} where
  -- `ys` written over `xs` from offset `n` on.
  abbrev pub splice : ℕ → List A → List A → List A
  splice n ys xs = take n xs ++ (ys ++ drop (n + length ys) xs)

module _ {ℓ} {A : Type ℓ} where
  pub take-append_left : (n : ℕ) (xs ys : List A) → n ≤ length xs → take n (xs ++ ys) ≡ take n xs
  take-append_left zero xs ys h = refl
  take-append_left (suc n) [] ys h = absurd (omega arith)
  take-append_left (suc n) (x ∷ xs) ys h = ap (◌∷◌ x) (take-append_left n xs ys (omega arith))

  pub drop-append_left :
      (n : ℕ) (xs ys : List A) → n ≤ length xs → drop n (xs ++ ys) ≡ drop n xs ++ ys
  drop-append_left zero xs ys h = refl
  drop-append_left (suc n) [] ys h = absurd (omega arith)
  drop-append_left (suc n) (x ∷ xs) ys h = drop-append_left n xs ys (omega arith)

  pub take-append_right :
      (n k : ℕ) (xs ys : List A) → n ≡ length xs + k → take n (xs ++ ys) ≡ xs ++ take k ys
  take-append_right n k [] ys h = ap (λ m. take m ys) (omega arith)
  take-append_right zero k (x ∷ xs) ys h = absurd (omega arith)
  take-append_right (suc n) k (x ∷ xs) ys h = ap (◌∷◌ x) (take-append_right n k xs ys (omega arith))

  pub drop-append_right :
      (n k : ℕ) (xs ys : List A) → n ≡ length xs + k → drop n (xs ++ ys) ≡ drop k ys
  drop-append_right n k [] ys h = ap (λ m. drop m ys) (omega arith)
  drop-append_right zero k (x ∷ xs) ys h = absurd (omega arith)
  drop-append_right (suc n) k (x ∷ xs) ys h = drop-append_right n k xs ys (omega arith)

  pub take-all : (n : ℕ) (xs : List A) → length xs ≤ n → take n xs ≡ xs
  take-all zero [] h = refl
  take-all zero (x ∷ xs) h = absurd (omega arith)
  take-all (suc n) [] h = refl
  take-all (suc n) (x ∷ xs) h = ap (◌∷◌ x) (take-all n xs (omega arith))

  pub drop-all : (n : ℕ) (xs : List A) → length xs ≤ n → drop n xs ≡ []
  drop-all zero [] h = refl
  drop-all zero (x ∷ xs) h = absurd (omega arith)
  drop-all (suc n) [] h = refl
  drop-all (suc n) (x ∷ xs) h = drop-all n xs (omega arith)

  pub take-zero-eq : (n : ℕ) (xs : List A) → n ≡ 0 → take n xs ≡ []
  take-zero-eq zero xs h = refl
  take-zero-eq (suc n) xs h = absurd (omega arith)

  pub drop-drop : (m n : ℕ) (xs : List A) → drop m (drop n xs) ≡ drop (n + m) xs
  drop-drop m zero xs = ap (λ k. drop k xs) (omega arith)
  drop-drop zero (suc n) [] = sym (drop-all (suc n + 0) [] (omega arith))
  drop-drop (suc m) (suc n) [] = sym (drop-all (suc n + suc m) [] (omega arith))
  drop-drop m (suc n) (x ∷ xs) =
      drop-drop m n xs ∙ ap (λ k. drop k (x ∷ xs)) {x = suc (n + m)} {y = suc n + m} (omega arith)

  pub take-take : (m n : ℕ) (xs : List A) → m ≤ n → take m (take n xs) ≡ take m xs
  take-take zero n xs h = refl
  take-take (suc m) zero xs h = absurd (omega arith)
  take-take (suc m) (suc n) [] h = refl
  take-take (suc m) (suc n) (x ∷ xs) h = ap (◌∷◌ x) (take-take m n xs (omega arith))

  -- A cut of `n + m` is a cut of `n` and one of `m` behind it.
  pub take-add : (n m : ℕ) (xs : List A) → take (n + m) xs ≡ take n xs ++ take m (drop n xs)
  take-add zero m xs = ap (λ k. take k xs) (omega arith)
  take-add (suc n) zero [] = take-all (suc n + 0) [] (omega arith)
  take-add (suc n) (suc m) [] = take-all (suc n + suc m) [] (omega arith)
  take-add (suc n) m (x ∷ xs) =
      ap (λ k. take k (x ∷ xs)) {x = suc n + m} {y = suc (n + m)} (omega arith)
      ∙ ap (◌∷◌ x) (take-add n m xs)

  pub drop-take : (m n : ℕ) (xs : List A) → drop m (take (m + n) xs) ≡ take n (drop m xs)
  drop-take zero n xs = ap (λ k. take k xs) (omega arith)
  drop-take (suc m) zero [] = ap (drop (suc m)) (take-all (suc m + 0) [] (omega arith))
  drop-take (suc m) (suc n) [] = ap (drop (suc m)) (take-all (suc m + suc n) [] (omega arith))
  drop-take (suc m) n (x ∷ xs) =
      ap (λ k. drop (suc m) (take k (x ∷ xs))) {x = suc m + n} {y = suc (m + n)} (omega arith)
      ∙ drop-take m n xs

  pub length-splice :
      (n : ℕ) (ys xs : List A) → n + length ys ≤ length xs → length (splice n ys xs) ≡ length xs
  length-splice n ys xs h = omega (
    arith,
    length-append (take n xs) (ys ++ drop (n + length ys) xs),
    length-append ys (drop (n + length ys) xs),
    length-take n xs,
    length-drop (n + length ys) xs,
  )

  pub splice-nil : (n : ℕ) (xs : List A) → splice n [] xs ≡ xs
  splice-nil n xs = ap (λ k. take n xs ++ drop k xs) (omega arith) ∙ take-append-drop n xs

  pub splice-append_left :
      (n : ℕ) (ys xs zs : List A)
      → n + length ys ≤ length xs
      → splice n ys (xs ++ zs) ≡ splice n ys xs ++ zs
  splice-append_left n ys xs zs h =
      rw (take-append_left n xs zs (omega arith), drop-append_left (n + length ys) xs zs h)
        (simp append_assoc)

  -- What does not fit in `xs` goes on at the front of `zs`.
  pub splice-append_over :
      (n k : ℕ) (ys xs zs : List A)
      → n + k ≡ length xs
      → k ≤ length ys
      → splice n ys (xs ++ zs) ≡ splice n (take k ys) xs ++ splice 0 (drop k ys) zs
  splice-append_over n k ys xs zs e h =
      rw
        (
          take-append_left n xs zs (omega arith),
          drop-append_right (n + length ys) (length (drop k ys)) xs zs
              (omega (arith, length-drop k ys)),
          drop-all (n + length (take k ys)) xs (omega (arith, length-take k ys)),
        )
        (simp (append_assoc, append-nil, zero-add)
          (ap (λ l. take n xs ++ l)
            (ap (λ l. l ++ drop (length (drop k ys)) zs) (sym (take-append-drop k ys))
              ∙ append_assoc (take k ys) (drop k ys) (drop (length (drop k ys)) zs))))

  pub splice-append_right :
      (n k : ℕ) (ys xs zs : List A)
      → n ≡ length xs + k
      → splice n ys (xs ++ zs) ≡ xs ++ splice k ys zs
  splice-append_right n k ys xs zs e =
      rw
        (
          take-append_right n k xs zs e,
          drop-append_right (n + length ys) (k + length ys) xs zs (omega arith),
        )
        (append_assoc xs (take k zs) (ys ++ drop (k + length ys) zs))

  -- Of the list after an overwrite that ends at or behind `size`, and of one that ends before it.
  pub take-splice_grow :
      (n size : ℕ) (ys xs : List A)
      → n ≤ size
      → size ≤ n + length ys
      → n + length ys ≤ length xs
      → take (n + length ys) (splice n ys xs) ≡ splice n ys (take size xs)
  take-splice_grow n size ys xs h k l =
      rw
        (
          take-append_right (n + length ys) (length ys) (take n xs) (ys ++ drop (n + length ys) xs)
              (omega (arith, length-take n xs)),
          take-append_left (length ys) ys (drop (n + length ys) xs) (omega arith),
          take-all (length ys) ys (omega arith),
          take-take n size xs h,
          drop-all (n + length ys) (take size xs) (omega (arith, length-take size xs)),
        )
        (ap (λ l. take n xs ++ l) (sym (append-nil ys)))

  pub take-splice_keep :
      (n k : ℕ) (ys xs : List A)
      → n + length ys + k ≤ length xs
      → take (n + length ys + k) (splice n ys xs) ≡ splice n ys (take (n + length ys + k) xs)
  take-splice_keep n k ys xs h = rw (
    take-append_right (n + length ys + k) (length ys + k) (take n xs)
        (ys ++ drop (n + length ys) xs) (omega (arith, length-take n xs)),
    take-append_right (length ys + k) k ys (drop (n + length ys) xs) refl,
    take-take n (n + length ys + k) xs (omega arith),
    drop-take (n + length ys) k xs,
  )

  pub splice_end : (n : ℕ) (ys xs : List A) → n ≡ length xs → splice n ys xs ≡ xs ++ ys
  splice_end n ys xs e =
      rw (take-all n xs (omega arith), drop-all (n + length ys) xs (omega arith))
        (ap (λ l. xs ++ l) (append-nil ys))

  pub take-append_self : (xs ys : List A) → take (length xs) (xs ++ ys) ≡ xs
  take-append_self xs ys =
      take-append_left (length xs) xs ys (omega arith) ∙ take-all (length xs) xs (omega arith)

  pub drop-append_self : (n : ℕ) (xs ys : List A) → n ≡ length xs → drop n (xs ++ ys) ≡ ys
  drop-append_self n xs ys e = drop-append_right n 0 xs ys (omega arith)
