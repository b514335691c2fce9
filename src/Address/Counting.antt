-- ===== src/Address/Counting.antt =====
-- `CountBytes` counts the ones of a number, and ends.
use sylar_windows.Prelude.{
  ℕ, zero, suc, ◌+◌, ◌-◌, ◌/◌, ◌%◌, ◌^◌, ◌≤◌, ◌<◌, ◌≡◌, refl, ap, ◌∙◌, arith, some, bit_and, ◌==◌,
  Bool-cases, inl, inr,
}
use native.Mathlib.Nat.{pow-suc, one-le-pow}
use native.Mathlib.Decide.{dec_lt}
use sylar_windows.Prelude.Bits.{bit_and_step, zero-bit_and}
use sylar_windows.Prelude.Fields.{bit_and-le}
use sylar_windows.Address.Masks.{count_loop, count_bytes}

-- The sum of the lowest `w` binary digits.
unfoldable pub ones : ℕ → ℕ → ℕ
ones zero v = 0
ones (suc w) v = v % 2 + ones w (v / 2)

ones-zero : (w : ℕ) → ones w 0 ≡ 0
unfolding ones
ones-zero zero = refl
ones-zero (suc w) = omega (arith, ones-zero w)

and_self : (bound q : ℕ) → q < bound → bit_and q q ≡ q
and_self zero q h = absurd (omega arith)
and_self (suc bound) zero h = zero-bit_and 0
and_self (suc bound) (suc q) h =
    omega (arith, bit_and_step (suc q) (suc q), and_self bound (suc q / 2) (omega arith))

-- `value & (value - 1)` has one digit 1 less.
ones-clear : (w v : ℕ) → 0 < v → v < 2 ^ w → suc (ones w (bit_and v (v - 1))) ≡ ones w v
unfolding ones
ones-clear zero v h k = absurd (omega arith)
ones-clear (suc w) v h k = elim (dec_lt 0 (v % 2)) [
  | yes odd ↦
      let same : bit_and (v / 2) ((v - 1) / 2) ≡ v / 2 =
        ap (bit_and (v / 2)) {x = (v - 1) / 2} {y = v / 2} (omega arith)
        ∙ and_self (suc (v / 2)) (v / 2) (omega arith) in
      let step = bit_and_step v (v - 1) in
      omega (
        arith,
        ap (ones w) {x = bit_and v (v - 1) / 2} {y = v / 2} (omega (arith, same, step)),
        same,
        step,
      )
  | no even ↦
      let less : bit_and (v / 2) ((v - 1) / 2) ≡ bit_and (v / 2) (v / 2 - 1) =
        ap (bit_and (v / 2)) {x = (v - 1) / 2} {y = v / 2 - 1} (omega arith) in
      let step = bit_and_step v (v - 1) in
      omega (
        arith,
        ap (ones w) {x = bit_and v (v - 1) / 2} {y = bit_and (v / 2) (v / 2 - 1)}
            (omega (arith, less, step)),
        less,
        step,
        ones-clear w (v / 2) (omega arith) (omega (arith, pow-suc 2 w)),
      )
]

count_loop-ones :
    (w fuel v result : ℕ)
    → v < 2 ^ w
    → ones w v < fuel
    → count_loop fuel v result ≡ some (result + ones w v)
unfolding count_loop
count_loop-ones w zero v result h k = absurd (omega arith)
count_loop-ones w (suc fuel) v result h k = elim (Bool-cases (v == 0)) [
  | inl e ↦ rw e (ap some (omega (arith, ones-zero w, ap (ones w) {x = v} {y = 0} (ground arith))))
  | inr e ↦
      let c = ones-clear w v (ground arith) h in
      rw e (
        count_loop-ones w fuel (bit_and v (v - 1)) (result + 1)
          (omega (arith, bit_and-le (suc v) v (v - 1) (omega arith))) (omega (arith, c))
        ∙ ap some (omega (arith, c)))
]

ones-le : (w v : ℕ) → ones w v ≤ w
unfolding ones
ones-le zero v = omega arith
ones-le (suc w) v = omega (arith, ones-le w (v / 2))

-- `CountBytes` ends on every value of `w` bits, after at most a round for each bit, with the number of
-- its digits that are 1, which is at most `w`.
pub count_bytes-ones : (w v : ℕ) → v < 2 ^ w → (count_bytes w v ≡ some (ones w v)) × (ones w v ≤ w)
unfolding count_bytes
count_bytes-ones w v h = (
  count_loop-ones w (suc w) v 0 h (omega (arith, ones-le w v)) ∙ ap some (omega arith),
  ones-le w v,
)

pub ones_all : (k : ℕ) → ones k (2 ^ k - 1) ≡ k
unfolding ones
ones_all zero = refl
ones_all (suc k) = omega (
  arith,
  pow-suc 2 k,
  one-le-pow k 2,
  ones_all k,
  ap (ones k) {x = (2 ^ suc k - 1) / 2} {y = 2 ^ k - 1}
      (omega (arith, pow-suc 2 k, one-le-pow k 2)),
)

-- Ones from place `k` on.
pub ones_high : (k p : ℕ) → ones (k + p) (2 ^ (k + p) - 2 ^ k) ≡ p
unfolding ones
ones_high zero p = ap (λ n. ones n (2 ^ n - 1)) {x = 0 + p} {y = p} (omega arith) ∙ ones_all p
ones_high (suc k) p =
    ap (λ n. ones n (2 ^ n - 2 ^ suc k)) {x = suc k + p} {y = suc (k + p)} (omega arith)
    ∙ omega (
      arith,
      pow-suc 2 k,
      pow-suc 2 (k + p),
      ones_high k p,
      ap (ones (k + p)) {x = (2 ^ suc (k + p) - 2 ^ suc k) / 2} {y = 2 ^ (k + p) - 2 ^ k}
          (omega (arith, pow-suc 2 k, pow-suc 2 (k + p))),
    )
