-- ===== src/ByteArray/Values/Zigzag.antt =====
-- `EncodeZigzag32`, `EncodeZigzag64` and their inverses in bytearray.cpp.
use sylar_windows.Prelude.{
  ℕ, suc, ◌+◌, ◌-◌, ◌*◌, ◌/◌, ◌%◌, ◌^◌, ◌<◌, ◌≤◌, ◌≡◌, arith, ap, ◌∙◌, bit_xor, some, ltb, lt→ltb,
  if-true,
}
use native.Mathlib.Nat.{mod-eq_of_lt}
use sylar_windows.Prelude.Bits.{bit_and_mask, bit_xor_ones, bit_xor-zero}
use sylar_windows.Prelude.Int.{ℤ, pos, negsuc, InRange, of_word}
use sylar_windows.ByteArray.Values.{
  encode_zigzag, encode_zigzag32, encode_zigzag64, decode_zigzag32, decode_zigzag64, sign_mask,
}

-- Zigzag, as it is meant: 0, -1, 1, -2, 2, … are 0, 1, 2, 3, 4, …
abbrev pub zigzag : ℤ → ℕ
zigzag (pos n) = n * 2
zigzag (negsuc n) = n * 2 + 1

wraps : (x m : ℕ) → x < m → (x + m) % m ≡ x
wraps x m h = grind arith

-- The numbers whose code overflows no signed number: from -half + 1 on, and below `bound`.
abbrev pub Codes : ℕ → ℕ → ℤ → Type 0
Codes half bound (pos n) = n < bound
Codes half bound (negsuc n) = suc n < half

Codes-InRange : (half bound : ℕ) (z : ℤ) → bound ≤ half → Codes half bound z → InRange half z
Codes-InRange half bound (pos n) k h = omega arith
Codes-InRange half bound (negsuc n) k h = omega arith

-- The arithmetic of the code in unsigned numbers wraps, and does no harm.
pub encode_zigzag-zigzag :
    (half bound : ℕ) (z : ℤ)
    → bound ≤ half
    → Codes half bound z
    → encode_zigzag half bound z ≡ some (zigzag z)
encode_zigzag-zigzag half bound (pos n) k h =
    if-true (ltb n bound) _ _ (lt→ltb n bound h) ∙ ap some (mod-eq_of_lt (omega arith))
encode_zigzag-zigzag half bound (negsuc n) k h =
    if-true (ltb (suc n) half) _ _ (lt→ltb (suc n) half h)
    ∙ ap (λ (x : ℕ). some ((x * 2 + (half + half) - 1) % (half + half)))
        (mod-eq_of_lt (omega arith))
    ∙ ap (λ (x : ℕ). some (x % (half + half))) {x = suc n * 2 + (half + half) - 1}
        {y = n * 2 + 1 + (half + half)} (omega arith)
    ∙ ap some (wraps (n * 2 + 1) (half + half) (omega arith))

zigzag-lt : (half : ℕ) (z : ℤ) → InRange half z → zigzag z < half + half
zigzag-lt half (pos n) h = omega arith
zigzag-lt half (negsuc n) h = omega arith

sign_mask_even : (n : ℕ) → sign_mask (n * 2) ≡ 0
sign_mask_even n = omega (arith, bit_and_mask 1 (n * 2))

sign_mask_odd : (n : ℕ) → sign_mask (n * 2 + 1) ≡ 2 ^ 64 - 1
sign_mask_odd n = omega (arith, bit_and_mask 1 (n * 2 + 1))

-- The word that the decoders take the exclusive or to.
xor_even : (n : ℕ) → bit_xor (n * 2 / 2) (sign_mask (n * 2)) ≡ n
xor_even n = ap (bit_xor (n * 2 / 2)) (sign_mask_even n) ∙ bit_xor-zero (n * 2 / 2) ∙ omega arith

xor_odd : (n : ℕ) → n < 2 ^ 63 → bit_xor ((n * 2 + 1) / 2) (sign_mask (n * 2 + 1)) ≡ 2 ^ 64 - 1 - n
xor_odd n h =
    ap (bit_xor ((n * 2 + 1) / 2)) (sign_mask_odd n)
    ∙ bit_xor_ones 64 ((n * 2 + 1) / 2) (omega arith)
    ∙ omega arith

decode32_zigzag : (z : ℤ) → InRange (2 ^ 31) z → decode_zigzag32 (zigzag z) ≡ z
unfolding decode_zigzag32
decode32_zigzag (pos n) h =
    ap (λ (x : ℕ). of_word (2 ^ 31) (x % 2 ^ 32)) (xor_even n) ∙ ground arith
decode32_zigzag (negsuc n) h =
    ap (λ (x : ℕ). of_word (2 ^ 31) (x % 2 ^ 32)) (xor_odd n (omega arith)) ∙ ground arith

decode64_zigzag : (z : ℤ) → InRange (2 ^ 63) z → decode_zigzag64 (zigzag z) ≡ z
unfolding decode_zigzag64
decode64_zigzag (pos n) h = ap (of_word (2 ^ 63)) (xor_even n) ∙ ground arith
decode64_zigzag (negsuc n) h = ap (of_word (2 ^ 63)) (xor_odd n (omega arith)) ∙ ground arith

-- Every number of 32 bits whose code is defined has the zigzag code, which is below 2 ^ 32, and is decoded
-- from it.
pub zigzag32_round_trip :
    (z : ℤ)
    → Codes (2 ^ 31) (2 ^ 30) z
    → (encode_zigzag32 z ≡ some (zigzag z)) × (zigzag z < 2 ^ 32) × (decode_zigzag32 (zigzag z) ≡ z)
unfolding encode_zigzag32
zigzag32_round_trip z h =
    let k = Codes-InRange (2 ^ 31) (2 ^ 30) z (omega arith) h in
    (
      encode_zigzag-zigzag (2 ^ 31) (2 ^ 30) z (omega arith) h,
      zigzag-lt (2 ^ 31) z k,
      decode32_zigzag z k,
    )

-- So has every number of 64 bits but the least, below 2 ^ 64.
pub zigzag64_round_trip :
    (z : ℤ)
    → Codes (2 ^ 63) (2 ^ 63) z
    → (encode_zigzag64 z ≡ some (zigzag z)) × (zigzag z < 2 ^ 64) × (decode_zigzag64 (zigzag z) ≡ z)
unfolding encode_zigzag64
zigzag64_round_trip z h =
    let k = Codes-InRange (2 ^ 63) (2 ^ 63) z (omega arith) h in
    (
      encode_zigzag-zigzag (2 ^ 63) (2 ^ 63) z (omega arith) h,
      zigzag-lt (2 ^ 63) z k,
      decode64_zigzag z k,
    )
