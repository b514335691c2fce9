-- ===== src/Prelude/Bits.antt =====
-- The bit operations of the code as arithmetic, at every width: a step for the lowest digit, then
-- `|` of disjoint fields, `&` with a low mask, and `^` with a mask of ones.
use Prim.Native.Nat.{
  ℕ, zero, suc, ◌+◌, ◌-◌, ◌*◌, ◌/◌, ◌%◌, ◌^◌, ◌≤◌, ◌<◌, min, max, bit_and, bit_or, bit_xor, digits,
  bitwise, differ, bit_and-bitwise, bit_or-bitwise, bit_xor-bitwise,
}
use mathlib.Core.Path.{◌≡◌, refl, ap, ◌∙◌}
use native.Mathlib.Nat.{
  pow-suc, one-le-pow, mod-lt, mod-eq_of_lt, div-add-mod, add-mul-mod_self_right,
}
use native.Mathlib.Decide.{dec_lt}
use native.Mathlib.Omega.{arith}

module _ (z : ℕ → ℕ) (f : ℕ → ℕ → ℕ) where
  -- A number has no more digits than its value, so one more round changes nothing ...
  one_more_round : (a b n : ℕ) → a ≤ n → digits z f (suc n) a b ≡ digits z f n a b
  one_more_round zero b zero h = refl
  one_more_round zero b (suc n) h = refl
  one_more_round (suc a) b zero h = elim h [ ]
  one_more_round (suc a) b (suc n) h =
      ap (λ d. d * 2 + f (suc a % 2) (b % 2)) (one_more_round (suc a / 2) (b / 2) n (omega arith))

  -- ... and nor does any number of them.
  more_rounds : (m n a b : ℕ) → n ≤ m → a ≤ n → digits z f m a b ≡ digits z f n a b
  more_rounds m n a b h k = elim (dec_lt n m) [
    | yes l ↦ below m l
    | no l ↦ ap (λ d. digits z f d a b) {x = m} {y = n} (omega arith)
  ]
    where
      below : (i : ℕ) → n < i → digits z f i a b ≡ digits z f n a b
      below zero l = elim l [ ]
      below (suc i) l = elim (dec_lt n i) [
        | yes q ↦ one_more_round a b i (omega arith) ∙ below i q
        | no q ↦
            one_more_round a b i (omega arith)
            ∙ ap (λ d. digits z f d a b) {x = i} {y = n} (omega arith)
      ]

  bitwise_step :
      ((b : ℕ) → z b ≡ z (b / 2) * 2 + f 0 (b % 2))
      → (a b : ℕ) → bitwise z f a b ≡ bitwise z f (a / 2) (b / 2) * 2 + f (a % 2) (b % 2)
  bitwise_step hz zero b = hz b
  bitwise_step hz (suc a) b =
      ap (λ d. d * 2 + f (suc a % 2) (b % 2))
        (more_rounds a (suc a / 2) (suc a / 2) (b / 2) (omega arith) (omega arith))

pub bit_and_step : (a b : ℕ) → bit_and a b ≡ bit_and (a / 2) (b / 2) * 2 + min (a % 2) (b % 2)
bit_and_step a b = simp bit_and-bitwise (bitwise_step (λ _. 0) min (λ d. omega arith) a b)

pub bit_or_step : (a b : ℕ) → bit_or a b ≡ bit_or (a / 2) (b / 2) * 2 + max (a % 2) (b % 2)
bit_or_step a b = simp bit_or-bitwise (bitwise_step (λ d. d) max (λ d. omega arith) a b)

zero-differ : (b : ℕ) → differ 0 b ≡ b
zero-differ b = refl

bit_xor_step : (a b : ℕ) → bit_xor a b ≡ bit_xor (a / 2) (b / 2) * 2 + differ (a % 2) (b % 2)
bit_xor_step a b =
    simp bit_xor-bitwise
      (bitwise_step (λ d. d) differ (λ d. omega (arith, zero-differ (d % 2))) a b)

pub zero-bit_or : (b : ℕ) → bit_or 0 b ≡ b
zero-bit_or b = bit_or-bitwise 0 b

pub zero-bit_and : (b : ℕ) → bit_and 0 b ≡ 0
zero-bit_and b = bit_and-bitwise 0 b

zero-bit_xor : (b : ℕ) → bit_xor 0 b ≡ b
zero-bit_xor b = bit_xor-bitwise 0 b

double_shift : (b k : ℕ) → b * 2 ^ suc k ≡ b * 2 ^ k * 2
double_shift b k = omega (arith, ap (λ (t : ℕ). b * t) (pow-suc 2 k))

-- `a | (b << k)` is a sum where `a` fits `k` bits.
pub bit_or_shifted : (k a b : ℕ) → a < 2 ^ k → bit_or a (b * 2 ^ k) ≡ a + b * 2 ^ k
bit_or_shifted zero a b h = ground (arith, zero-bit_or (b * 1))
bit_or_shifted (suc k) a b h = omega (
  arith,
  double_shift b k,
  pow-suc 2 k,
  half_shift,
  bit_or_step a (b * 2 ^ suc k),
  bit_or_shifted k (a / 2) b (omega (arith, pow-suc 2 k)),
)
  where
    half_shift : bit_or (a / 2) (b * 2 ^ suc k / 2) ≡ bit_or (a / 2) (b * 2 ^ k)
    half_shift = ap (bit_or (a / 2)) (omega (arith, double_shift b k))

-- Nothing is common with zero.
common_zero : (bound : ℕ) {a : ℕ} → a < bound → bit_and a 0 ≡ 0
common_zero zero h = elim h [ ]
common_zero (suc bound) {a} h = elim (dec_lt 0 a) [
  | yes p ↦ omega (arith, bit_and_step a 0, common_zero bound {a = a / 2} (omega arith))
  | no p ↦ ap (λ x. bit_and x 0) {x = a} {y = 0} (omega arith) ∙ zero-bit_and 0
]

-- The remainder by a power of two, from that of the half.
mod_double : (k a : ℕ) → a % 2 ^ suc k ≡ a / 2 % 2 ^ k * 2 + a % 2
mod_double k a =
    ap (λ (t : ℕ). t % 2 ^ suc k) split
    ∙ add-mul-mod_self_right r q (2 ^ suc k)
    ∙ mod-eq_of_lt (omega (arith, pow-suc 2 k, mod-lt (a / 2) (one-le-pow k 2 (omega arith))))
  where
    r : ℕ
    r = a / 2 % 2 ^ k * 2 + a % 2

    q : ℕ
    q = a / 2 / 2 ^ k

    split : a ≡ r + q * 2 ^ suc k
    split = omega (arith, double_shift q k, div-add-mod (a / 2) (2 ^ k))

-- A mask of `k` ones is the remainder by `2 ^ k`.
pub bit_and_mask : (k a : ℕ) → bit_and a (2 ^ k - 1) ≡ a % 2 ^ k
bit_and_mask zero a = omega (arith, common_zero (suc a) {a = a} (omega arith))
bit_and_mask (suc k) a =
    ground (
      arith,
      bit_and_step a (2 ^ suc k - 1),
      half_mask,
      low_bit,
      mod_halves,
      bit_and_mask k (a / 2),
    )
  where
    half_mask : bit_and (a / 2) ((2 ^ suc k - 1) / 2) ≡ bit_and (a / 2) (2 ^ k - 1)
    half_mask = ap (bit_and (a / 2)) (omega (arith, pow-suc 2 k, one-le-pow k 2))

    low_bit : (2 ^ suc k - 1) % 2 ≡ 1
    low_bit = omega (arith, pow-suc 2 k, one-le-pow k 2)

    mod_halves : a % 2 ^ suc k ≡ a / 2 % 2 ^ k * 2 + a % 2
    mod_halves = mod_double k a

bit_flip : (a b : ℕ) → a < 2 → b ≡ 1 → differ a b ≡ 1 - a
bit_flip zero b h e = omega (arith, zero-differ b)
bit_flip (suc zero) (suc zero) h e = refl
bit_flip (suc zero) zero h e = absurd (omega arith)
bit_flip (suc zero) (suc (suc b)) h e = absurd (omega arith)
bit_flip (suc (suc a)) b h e = absurd (omega arith)

-- `a ^ ~0` at `k` bits flips every digit.
pub bit_xor_ones : (k a : ℕ) → a < 2 ^ k → bit_xor a (2 ^ k - 1) ≡ 2 ^ k - 1 - a
bit_xor_ones zero a h = ground (arith, zero-bit_xor 0)
bit_xor_ones (suc k) a h = omega (
  arith,
  bit_xor_step a (2 ^ suc k - 1),
  half_mask,
  pow-suc 2 k,
  one-le-pow k 2,
  bit_flip (a % 2) ((2 ^ suc k - 1) % 2) (omega arith) (omega (arith, pow-suc 2 k, one-le-pow k 2)),
  bit_xor_ones k (a / 2) (omega (arith, pow-suc 2 k)),
)
  where
    half_mask : bit_xor (a / 2) ((2 ^ suc k - 1) / 2) ≡ bit_xor (a / 2) (2 ^ k - 1)
    half_mask = ap (bit_xor (a / 2)) (omega (arith, pow-suc 2 k, one-le-pow k 2))

differ-zero : (a : ℕ) → differ a 0 ≡ a
differ-zero zero = refl
differ-zero (suc a) = refl

-- Nor does zero change a digit.
flip_zero : (bound : ℕ) {a : ℕ} → a < bound → bit_xor a 0 ≡ a
flip_zero zero h = elim h [ ]
flip_zero (suc bound) {a} h = elim (dec_lt 0 a) [
  | yes p ↦
      omega
        (arith, bit_xor_step a 0, differ-zero (a % 2), flip_zero bound {a = a / 2} (omega arith))
  | no p ↦ ap (λ x. bit_xor x 0) {x = a} {y = 0} (omega arith) ∙ zero-bit_xor 0 ∙ (omega arith)
]

pub bit_xor-zero : (a : ℕ) → bit_xor a 0 ≡ a
bit_xor-zero a = flip_zero (suc a) {a = a} (omega arith)
