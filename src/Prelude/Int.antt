-- ===== src/Prelude/Int.antt =====
-- Signed integers, as the patterns of a machine word of `2 * half` values.
use Prim.Native.Nat.{ℕ, ◌+◌, ◌-◌, ◌<◌}
use mathlib.Core.Path.{◌≡◌}
use native.Mathlib.Omega.{arith}
use sylar_windows.Prelude.Tests.{ltb, if◌then◌else◌}

-- `negsuc n` is -(n + 1).
pub data ℤ : Type 0 where
  pos : ℕ → ℤ
  negsuc : ℕ → ℤ

-- The range of a signed integer type: -half .. half - 1.
abbrev pub InRange : ℕ → ℤ → Type 0
InRange half (pos n) = n < half
InRange half (negsuc n) = n < half

-- Two's complement.
abbrev pub to_word : ℕ → ℤ → ℕ
to_word half (pos n) = n
to_word half (negsuc n) = half + half - 1 - n

abbrev pub of_word : ℕ → ℕ → ℤ
of_word half p = if ltb p half then pos p else negsuc (half + half - 1 - p)

pub of_word-to_word : (half : ℕ) (z : ℤ) → InRange half z → of_word half (to_word half z) ≡ z
of_word-to_word half (pos n) h = ground arith
of_word-to_word half (negsuc n) h = ground arith

pub to_word-lt : (half : ℕ) (z : ℤ) → InRange half z → to_word half z < half + half
to_word-lt half (pos n) h = omega arith
to_word-lt half (negsuc n) h = omega arith
