-- ===== src/Prelude/Fields.antt =====
-- `|` and `&` of numbers that are made of two fields, field by field.
use Prim.Native.Nat.{ℕ, zero, suc, ◌+◌, ◌-◌, ◌*◌, ◌/◌, ◌%◌, ◌^◌, ◌≤◌, ◌<◌, bit_and, bit_or}
use mathlib.Core.Path.{◌≡◌, ap, ◌∙◌}
use native.Mathlib.Nat.{pow-suc, one-le-pow, mod-lt, div-add-mod'}
use native.Mathlib.Omega.{arith}
use sylar_windows.Prelude.Bits.{bit_and_step, bit_or_step, zero-bit_or, zero-bit_and}

double : (b k : ℕ) → b * 2 ^ suc k ≡ b * 2 ^ k * 2
double b k = omega (arith, ap (λ (t : ℕ). b * t) (pow-suc 2 k))

pub bit_or-lt : (k a b : ℕ) → a < 2 ^ k → b < 2 ^ k → bit_or a b < 2 ^ k
bit_or-lt zero a b h l =
    omega (arith, ap (λ n. bit_or n b) {x = a} {y = 0} (omega arith), zero-bit_or b)
bit_or-lt (suc k) a b h l = omega (
  arith,
  pow-suc 2 k,
  bit_or_step a b,
  bit_or-lt k (a / 2) (b / 2) (omega (arith, pow-suc 2 k)) (omega (arith, pow-suc 2 k)),
)

pub bit_or_fields :
    (k a b c d : ℕ)
    → a < 2 ^ k
    → c < 2 ^ k
    → bit_or (a + b * 2 ^ k) (c + d * 2 ^ k) ≡ bit_or a c + bit_or b d * 2 ^ k
bit_or_fields zero a b c d h l = ground (arith, zero-bit_or c, zero-bit_or 0)
bit_or_fields (suc k) a b c d h l = omega (
  arith,
  pow-suc 2 k,
  double b k,
  double d k,
  double (bit_or b d) k,
  bit_or_step (a + b * 2 ^ suc k) (c + d * 2 ^ suc k),
  bit_or_step a c,
  halves,
  bit_or_fields k (a / 2) b (c / 2) d (omega (arith, pow-suc 2 k)) (omega (arith, pow-suc 2 k)),
)
  where
    halves :
        bit_or ((a + b * 2 ^ suc k) / 2) ((c + d * 2 ^ suc k) / 2)
        ≡ bit_or (a / 2 + b * 2 ^ k) (c / 2 + d * 2 ^ k)
    halves =
        ap (λ x. bit_or x ((c + d * 2 ^ suc k) / 2)) {x = (a + b * 2 ^ suc k) / 2}
          {y = a / 2 + b * 2 ^ k} (omega (arith, double b k))
        ∙ ap (bit_or (a / 2 + b * 2 ^ k)) {x = (c + d * 2 ^ suc k) / 2} {y = c / 2 + d * 2 ^ k}
            (omega (arith, double d k))

pub bit_and_fields :
    (k a b c d : ℕ)
    → a < 2 ^ k
    → c < 2 ^ k
    → bit_and (a + b * 2 ^ k) (c + d * 2 ^ k) ≡ bit_and a c + bit_and b d * 2 ^ k
bit_and_fields zero a b c d h l = ground (arith, zero-bit_and c, zero-bit_and 0)
bit_and_fields (suc k) a b c d h l = omega (
  arith,
  pow-suc 2 k,
  double b k,
  double d k,
  double (bit_and b d) k,
  bit_and_step (a + b * 2 ^ suc k) (c + d * 2 ^ suc k),
  bit_and_step a c,
  halves,
  bit_and_fields k (a / 2) b (c / 2) d (omega (arith, pow-suc 2 k)) (omega (arith, pow-suc 2 k)),
)
  where
    halves :
        bit_and ((a + b * 2 ^ suc k) / 2) ((c + d * 2 ^ suc k) / 2)
        ≡ bit_and (a / 2 + b * 2 ^ k) (c / 2 + d * 2 ^ k)
    halves =
        ap (λ x. bit_and x ((c + d * 2 ^ suc k) / 2)) {x = (a + b * 2 ^ suc k) / 2}
          {y = a / 2 + b * 2 ^ k} (omega (arith, double b k))
        ∙ ap (bit_and (a / 2 + b * 2 ^ k)) {x = (c + d * 2 ^ suc k) / 2} {y = c / 2 + d * 2 ^ k}
            (omega (arith, double d k))

pub bit_and-le : (bound a b : ℕ) → a < bound → bit_and a b ≤ a
bit_and-le zero a b h = absurd (omega arith)
bit_and-le (suc bound) zero b h = omega (arith, zero-bit_and b)
bit_and-le (suc bound) (suc a) b h =
    omega (arith, bit_and_step (suc a) b, bit_and-le bound (suc a / 2) (b / 2) (omega arith))

-- Ones from the lowest digit on swallow what they are joined to, and nothing else.
pub bit_or_ones : (k a : ℕ) → a < 2 ^ k → bit_or a (2 ^ k - 1) ≡ 2 ^ k - 1
bit_or_ones zero a h =
    omega (arith, ap (λ n. bit_or n 0) {x = a} {y = 0} (omega arith), zero-bit_or 0)
bit_or_ones (suc k) a h = omega (
  arith,
  pow-suc 2 k,
  one-le-pow k 2,
  bit_or_step a (2 ^ suc k - 1),
  ap (bit_or (a / 2)) {x = (2 ^ suc k - 1) / 2} {y = 2 ^ k - 1}
      (omega (arith, pow-suc 2 k, one-le-pow k 2)),
  bit_or_ones k (a / 2) (omega (arith, pow-suc 2 k)),
)

or_zero : (bound a : ℕ) → a < bound → bit_or a 0 ≡ a
or_zero zero a h = absurd (omega arith)
or_zero (suc bound) zero h = zero-bit_or 0
or_zero (suc bound) (suc a) h =
    omega (arith, bit_or_step (suc a) 0, or_zero bound (suc a / 2) (omega arith))

pub bit_or-zero : (a : ℕ) → bit_or a 0 ≡ a
bit_or-zero a = or_zero (suc a) a (omega arith)

-- `a | (2 ^ k - 1)`.
pub bit_or_mask : (k a : ℕ) → bit_or a (2 ^ k - 1) ≡ a / 2 ^ k * 2 ^ k + (2 ^ k - 1)
bit_or_mask k a =
    ap (λ n. bit_or n (2 ^ k - 1)) {x = a} {y = r + q * 2 ^ k}
      (omega (arith, div-add-mod' a (2 ^ k)))
    ∙ ap (bit_or (r + q * 2 ^ k)) {x = 2 ^ k - 1} {y = 2 ^ k - 1 + 0 * 2 ^ k} (omega arith)
    ∙ bit_or_fields k r q (2 ^ k - 1) 0 low (omega (arith, one-le-pow k 2))
    ∙ omega (arith, bit_or_ones k r low, ap (λ (n : ℕ). n * 2 ^ k) (bit_or-zero q))
  where
    r : ℕ
    r = a % 2 ^ k

    q : ℕ
    q = a / 2 ^ k

    low : r < 2 ^ k
    low = mod-lt a (one-le-pow k 2 (omega arith))
