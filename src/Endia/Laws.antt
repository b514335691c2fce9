-- ===== src/Endia/Laws.antt =====
-- Storing a number and reading it back, and swapping twice.
use sylar_windows.Prelude.{
  ℕ, zero, suc, ◌+◌, ◌*◌, ◌/◌, ◌%◌, ◌^◌, ◌<◌, ◌≡◌, refl, sym, ap, subst, ◌∙◌, arith, List, [], ◌∷◌,
  length, length-append, All, All-append,
}
use mathlib.Core.List.{reverse, reverse-cons, reverse-reverse}
use native.Mathlib.Nat.{pow-suc}
use sylar_windows.Endia.{le_bytes, of_le_bytes, byteswap}

abbrev pub IsByte : ℕ → Type 0
IsByte b = b < 256

pub length-le_bytes : (w v : ℕ) → length (le_bytes w v) ≡ w
unfolding le_bytes
length-le_bytes zero v = refl
length-le_bytes (suc w) v = ap suc (length-le_bytes w (v / 256))

pub le_bytes-IsByte : (w v : ℕ) → All IsByte (le_bytes w v)
unfolding le_bytes
le_bytes-IsByte zero v = tt
le_bytes-IsByte (suc w) v = (omega arith, le_bytes-IsByte w (v / 256))

pub of_le_bytes-le_bytes : (w v : ℕ) → v < 256 ^ w → of_le_bytes (le_bytes w v) ≡ v
unfolding le_bytes of_le_bytes
of_le_bytes-le_bytes zero v h = omega arith
of_le_bytes-le_bytes (suc w) v h =
    omega (arith, of_le_bytes-le_bytes w (v / 256) (omega (arith, pow-suc 256 w)))

pub le_bytes-of_le_bytes :
    (bs : List ℕ) → All IsByte bs → le_bytes (length bs) (of_le_bytes bs) ≡ bs
unfolding le_bytes of_le_bytes
le_bytes-of_le_bytes [] h = refl
le_bytes-of_le_bytes (b ∷ bs) h =
    ap (λ x. x ∷ le_bytes (length bs) ((b + 256 * of_le_bytes bs) / 256))
      {x = (b + 256 * of_le_bytes bs) % 256} {y = b} (omega arith)
    ∙ ap (λ (x : ℕ). b ∷ le_bytes (length bs) x) (omega arith)
    ∙ ap (◌∷◌ b) (le_bytes-of_le_bytes bs h.1)

pub of_le_bytes-lt : (bs : List ℕ) → All IsByte bs → of_le_bytes bs < 256 ^ length bs
unfolding of_le_bytes
of_le_bytes-lt [] h = omega arith
of_le_bytes-lt (b ∷ bs) h = omega (arith, of_le_bytes-lt bs h.1, pow-suc 256 (length bs))

pub length-reverse : (xs : List ℕ) → length (reverse xs) ≡ length xs
length-reverse [] = refl
length-reverse (x ∷ xs) =
    ap length (reverse-cons x xs)
    ∙ length-append (reverse xs) (x ∷ [])
    ∙ omega (arith, length-reverse xs)

pub reverse-IsByte : (xs : List ℕ) → All IsByte xs → All IsByte (reverse xs)
reverse-IsByte [] h = tt
reverse-IsByte (x ∷ xs) h =
    rw (reverse-cons x xs)
      (All-append IsByte (reverse xs) (x ∷ []) (reverse-IsByte xs h.1) (h.0, tt))

-- The bytes of a swapped number are those of the number, backwards.
pub le_bytes-byteswap : (w v : ℕ) → le_bytes w (byteswap w v) ≡ reverse (le_bytes w v)
unfolding byteswap
le_bytes-byteswap w v =
    ap (λ n. le_bytes n (of_le_bytes swapped)) {x = w} {y = length swapped}
      (sym (length-reverse (le_bytes w v) ∙ length-le_bytes w v))
    ∙ le_bytes-of_le_bytes swapped (reverse-IsByte (le_bytes w v) (le_bytes-IsByte w v))
  where
    swapped : List ℕ
    swapped = reverse (le_bytes w v)

-- Swapping twice gives back a number of `w` bytes, and the swapped number fits `w` bytes too.
pub byteswap-byteswap : (w v : ℕ) → v < 256 ^ w → byteswap w (byteswap w v) ≡ v
byteswap-byteswap w v h =
    unfold byteswap in
    (ap (λ (l : List ℕ). of_le_bytes (reverse l)) (le_bytes-byteswap w v)
      ∙ ap of_le_bytes (reverse-reverse (le_bytes w v))
      ∙ of_le_bytes-le_bytes w v h)

pub byteswap-lt : (w v : ℕ) → byteswap w v < 256 ^ w
unfolding byteswap
byteswap-lt w v =
    subst (λ n. of_le_bytes (reverse (le_bytes w v)) < 256 ^ n)
      (length-reverse (le_bytes w v) ∙ length-le_bytes w v)
      (of_le_bytes-lt (reverse (le_bytes w v)) (reverse-IsByte _ (le_bytes-IsByte w v)))
