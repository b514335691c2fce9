-- ===== src/Address/Swapping.antt =====
-- `|`, `&` and `~` go through the swap of the bytes of a number.
use sylar_windows.Prelude.{
  ℕ, suc, ◌+◌, ◌-◌, ◌*◌, ◌/◌, ◌%◌, ◌^◌, ◌<◌, ◌≡◌, refl, sym, ap, ◌∙◌, arith, bit_and, bit_or,
}
use sylar_windows.Prelude.Fields.{bit_or_fields, bit_and_fields, bit_or-lt, bit_and-le}
use sylar_windows.Endia.{
  Endian, little, big, le_bytes, of_le_bytes, byteswap, byteswap_on_little_endian,
}

-- A number from its four bytes, the lowest first.
abbrev four : ℕ → ℕ → ℕ → ℕ → ℕ
four a b c d = a + (b + (c + d * 2 ^ 8) * 2 ^ 8) * 2 ^ 8

four_bytes :
    (v : ℕ)
    → v < 2 ^ 32
    → v ≡ four (v % 256) (v / 256 % 256) (v / 256 / 256 % 256) (v / 256 / 256 / 256 % 256)
four_bytes v h = omega arith

byteswap_word :
    (v : ℕ)
    → byteswap 4 v
      ≡ four (v / 256 / 256 / 256 % 256) (v / 256 / 256 % 256) (v / 256 % 256) (v % 256)
unfolding byteswap le_bytes of_le_bytes
byteswap_word v = omega arith

or_four :
    (a b c d p q r s : ℕ)
    → a < 256
    → b < 256
    → c < 256
    → p < 256
    → q < 256
    → r < 256
    → bit_or (four a b c d) (four p q r s)
      ≡ four (bit_or a p) (bit_or b q) (bit_or c r) (bit_or d s)
or_four a b c d p q r s ha hb hc hp hq hr = omega (
  arith,
  bit_or_fields 8 a (b + (c + d * 2 ^ 8) * 2 ^ 8) p (q + (r + s * 2 ^ 8) * 2 ^ 8) ha hp,
  bit_or_fields 8 b (c + d * 2 ^ 8) q (r + s * 2 ^ 8) hb hq,
  bit_or_fields 8 c d r s hc hr,
)

and_four :
    (a b c d p q r s : ℕ)
    → a < 256
    → b < 256
    → c < 256
    → p < 256
    → q < 256
    → r < 256
    → bit_and (four a b c d) (four p q r s)
      ≡ four (bit_and a p) (bit_and b q) (bit_and c r) (bit_and d s)
and_four a b c d p q r s ha hb hc hp hq hr = omega (
  arith,
  bit_and_fields 8 a (b + (c + d * 2 ^ 8) * 2 ^ 8) p (q + (r + s * 2 ^ 8) * 2 ^ 8) ha hp,
  bit_and_fields 8 b (c + d * 2 ^ 8) q (r + s * 2 ^ 8) hb hq,
  bit_and_fields 8 c d r s hc hr,
)

byteswap-four :
    (a b c d : ℕ) → a < 256 → b < 256 → c < 256 → d < 256 → byteswap 4 (four a b c d) ≡ four d c b a
byteswap-four a b c d ha hb hc hd = omega (arith, byteswap_word (four a b c d))

-- The bytes of a number, by place.
b0 : ℕ → ℕ
b0 v = v % 256

b1 : ℕ → ℕ
b1 v = v / 256 % 256

b2 : ℕ → ℕ
b2 v = v / 256 / 256 % 256

b3 : ℕ → ℕ
b3 v = v / 256 / 256 / 256 % 256

module _ (op : ℕ → ℕ → ℕ) (small : (a b : ℕ) → a < 2 ^ 8 → b < 2 ^ 8 → op a b < 2 ^ 8)
    (by_four : (a b c d p q r s : ℕ)
      → a < 256
      → b < 256
      → c < 256
      → p < 256
      → q < 256
      → r < 256
      → op (four a b c d) (four p q r s) ≡ four (op a p) (op b q) (op c r) (op d s)) where
  byteswap_each :
      (a m : ℕ) → a < 2 ^ 32 → m < 2 ^ 32 → byteswap 4 (op (byteswap 4 a) (byteswap 4 m)) ≡ op a m
  unfolding b0 b1 b2 b3
  byteswap_each a m h k =
      ap (λ x. byteswap 4 (op x (byteswap 4 m))) (byteswap_word a)
      ∙ ap (λ x. byteswap 4 (op (four (b3 a) (b2 a) (b1 a) (b0 a)) x)) (byteswap_word m)
      ∙ ap (byteswap 4) (
          by_four (b3 a) (b2 a) (b1 a) (b0 a) (b3 m) (b2 m) (b1 m) (b0 m) (omega arith)
            (omega arith) (omega arith) (omega arith) (omega arith) (omega arith))
      ∙ byteswap-four (op (b3 a) (b3 m)) (op (b2 a) (b2 m)) (op (b1 a) (b1 m)) (op (b0 a) (b0 m))
          (small (b3 a) (b3 m) (omega arith) (omega arith))
          (small (b2 a) (b2 m) (omega arith) (omega arith))
          (small (b1 a) (b1 m) (omega arith) (omega arith))
          (small (b0 a) (b0 m) (omega arith) (omega arith))
      ∙ sym (
          by_four (b0 a) (b1 a) (b2 a) (b3 a) (b0 m) (b1 m) (b2 m) (b3 m) (omega arith)
            (omega arith) (omega arith) (omega arith) (omega arith) (omega arith))
      ∙ ap (λ x. op x (four (b0 m) (b1 m) (b2 m) (b3 m))) (sym (four_bytes a h))
      ∙ ap (op a) (sym (four_bytes m k))

-- On either byte order.
pub swap-bit_or :
    (order : Endian) (a m : ℕ)
    → a < 2 ^ 32
    → m < 2 ^ 32
    → byteswap_on_little_endian order 4
        (bit_or (byteswap_on_little_endian order 4 a) (byteswap_on_little_endian order 4 m))
      ≡ bit_or a m
unfolding byteswap_on_little_endian
swap-bit_or big a m h k = refl
swap-bit_or little a m h k = byteswap_each bit_or (bit_or-lt 8) or_four a m h k

pub swap-bit_and :
    (order : Endian) (a m : ℕ)
    → a < 2 ^ 32
    → m < 2 ^ 32
    → byteswap_on_little_endian order 4
        (bit_and (byteswap_on_little_endian order 4 a) (byteswap_on_little_endian order 4 m))
      ≡ bit_and a m
unfolding byteswap_on_little_endian
swap-bit_and big a m h k = refl
swap-bit_and little a m h k =
    byteswap_each bit_and (λ a b h k. omega (arith, bit_and-le (suc a) a b (omega arith))) and_four
      a m h k

byteswap_flip : (m : ℕ) → m < 2 ^ 32 → byteswap 4 (2 ^ 32 - 1 - byteswap 4 m) ≡ 2 ^ 32 - 1 - m
unfolding b0 b1 b2 b3
byteswap_flip m h =
    ap (λ x. byteswap 4 (2 ^ 32 - 1 - x)) (byteswap_word m)
    ∙ ap (byteswap 4) {x = 2 ^ 32 - 1 - four (b3 m) (b2 m) (b1 m) (b0 m)}
        {y = four (255 - b3 m) (255 - b2 m) (255 - b1 m) (255 - b0 m)} (omega arith)
    ∙ byteswap-four (255 - b3 m) (255 - b2 m) (255 - b1 m) (255 - b0 m) (omega arith) (omega arith)
        (omega arith) (omega arith)
    ∙ (omega (arith, four_bytes m h))

pub swap_flip :
    (order : Endian) (m : ℕ)
    → m < 2 ^ 32
    → byteswap_on_little_endian order 4 (2 ^ 32 - 1 - byteswap_on_little_endian order 4 m)
      ≡ 2 ^ 32 - 1 - m
unfolding byteswap_on_little_endian
swap_flip big m h = omega arith
swap_flip little m h = byteswap_flip m h
