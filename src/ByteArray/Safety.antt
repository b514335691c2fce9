-- ===== src/ByteArray/Safety.antt =====
-- The reads of bytearray.cpp on arbitrary bytes: what a peer sends cannot make them leave a valid
-- store, and a fault needs a store that is full up to its last block.
use sylar_windows.Prelude.{
  ℕ, zero, suc, ◌+◌, ◌*◌, ◌%◌, ◌^◌, ◌≡◌, arith, true, false, refl, ◌∙◌, ap, subst, length, bit_and,
  bit_or, ltb, Bool-cases, inl, inr,
}
use native.Mathlib.Decide.{dec_le, dec_lt}
use sylar_windows.ByteArray.State.{
  ByteArray, Outcome, returns, throws, faults, Method, after, ◌>>=◌,
}
use sylar_windows.ByteArray.Store.{read, to_string}
use sylar_windows.ByteArray.Invariant.{IsValid}
use sylar_windows.ByteArray.View.{view, length-view}
use sylar_windows.ByteArray.Reads.{read-Shows, read_throws, read_zero_faults, to_string-unread}
use sylar_windows.ByteArray.Values.{
  read_fixed, read_fuint8, read_varint_loop, read_string_f16, read_string_f32, read_string_f64,
  read_string_vint,
}

-- `t` is a valid store with the bytes of `s`.
pub record Keeps (s t : ByteArray) : Type 0 where
  pub valid : IsValid t
  pub size : t.size ≡ s.size
  pub capacity : t.capacity ≡ s.capacity
  pub bytes : (view t).bytes ≡ (view s).bytes

-- A read that returns or throws keeps the store; one that faults had a full store.
abbrev pub Sound {ℓ} : {A : Type ℓ} → ByteArray → Outcome A → Type 0
Sound s (returns a t) = Keeps s t
Sound s (throws t) = Keeps s t
Sound s faults = s.size ≡ s.capacity

abbrev pub IsSound {ℓ} : {A : Type ℓ} → Method A → Type 0
IsSound m = (s : ByteArray) → IsValid s → Sound s (m s)

pub Keeps-refl : (s : ByteArray) → IsValid s → Keeps s s
Keeps-refl s v = record { valid = v; size = refl; capacity = refl; bytes = refl }

Keeps-trans : (s t u : ByteArray) → Keeps s t → Keeps t u → Keeps s u
Keeps-trans s t u p q = record {
  valid = q.valid;
  size = q.size ∙ p.size;
  capacity = q.capacity ∙ p.capacity;
  bytes = q.bytes ∙ p.bytes;
}

pub Sound-trans {ℓ} :
    {A : Type ℓ} (s t : ByteArray) (r : Outcome A) → Keeps s t → Sound t r → Sound s r
Sound-trans s t (returns a u) p q = Keeps-trans s t u p q
Sound-trans s t (throws u) p q = Keeps-trans s t u p q
Sound-trans s t faults p q = omega (arith, p.size, p.capacity)

pub Sound-after {ℓ κ} :
    {A : Type ℓ} {B : Type κ} (s : ByteArray) (r : Outcome A) (f : A → Method B)
    → ((a : A) → IsSound (f a))
    → Sound s r
    → Sound s (after r f)
Sound-after s (returns a t) f hf h = Sound-trans s t (f a t) h (hf a t h.valid)
Sound-after s (throws t) f hf h = h
Sound-after s faults f hf h = h

pub >>=-IsSound {ℓ κ} :
    {A : Type ℓ} {B : Type κ} (m : Method A) (f : A → Method B)
    → IsSound m
    → ((a : A) → IsSound (f a))
    → IsSound (m >>= f)
>>=-IsSound m f hm hf s v = Sound-after s (m s) f hf (hm s v)

-- `read` of any number of bytes.
pub read-IsSound : (count : ℕ) → IsSound (read count)
read-IsSound count s v = elim (dec_le (s.position + count) s.size) [
  | yes h ↦ elim (dec_lt s.position s.capacity) [
    | yes k ↦
        let (t, r, st, c) = read-Shows count s v h k in
        rw r (record {
          valid = st.valid;
          size = omega (arith, length-view s v, length-view t st.valid, ap length st.bytes);
          capacity = c;
          bytes = st.bytes;
        })
    | no k ↦
        subst (λ n. Sound s (read n s)) {x = 0} {y = count} (omega arith)
          (rw (read_zero_faults s v (omega (arith, v.size_capacity))) (omega arith))
  ]
  | no h ↦ rw (read_throws count s v (omega arith)) (Keeps-refl s v)
]

pub read_fuint8-IsSound : IsSound read_fuint8
unfolding read_fuint8
read_fuint8-IsSound s v =
    Sound-after s (read 1 s) _ (λ bytes t w. Keeps-refl t w) (read-IsSound 1 s v)

pub read_fixed-IsSound : (w : ℕ) → IsSound (read_fixed w)
unfolding read_fixed
read_fixed-IsSound w s v =
    Sound-after s (read w s) _ (λ bytes t x. Keeps-refl t x) (read-IsSound w s v)

-- A round of the varint loop ends the loop or goes on with it.
round-IsSound :
    (last more : Method ℕ) (b : ℕ)
    → IsSound last
    → IsSound more
    → IsSound (elim (ltb b 0x80) [ true ↦ last | false ↦ more ])
round-IsSound last more b hl hm s v = elim (Bool-cases (ltb b 0x80)) [
  | inl e ↦ rw e (hl s v)
  | inr e ↦ rw e (hm s v)
]

pub read_varint_loop-IsSound :
    (bits rounds i result : ℕ) → IsSound (read_varint_loop bits rounds i result)
unfolding read_varint_loop
read_varint_loop-IsSound bits zero i result s v = Keeps-refl s v
read_varint_loop-IsSound bits (suc rounds) i result s v =
    Sound-after s (read_fuint8 s) _
      (λ b.
        round-IsSound (λ t. returns (bit_or result (b * 2 ^ i % 2 ^ bits)) t)
          (read_varint_loop bits rounds (i + 7) (bit_or result (bit_and b 0x7f * 2 ^ i % 2 ^ bits)))
          b Keeps-refl
          (read_varint_loop-IsSound bits rounds (i + 7)
            (bit_or result (bit_and b 0x7f * 2 ^ i % 2 ^ bits))))
      (read_fuint8-IsSound s v)

pub read_string_f16-IsSound : IsSound read_string_f16
unfolding read_string_f16
read_string_f16-IsSound = >>=-IsSound (read_fixed 2) read (read_fixed-IsSound 2) read-IsSound

pub read_string_f32-IsSound : IsSound read_string_f32
unfolding read_string_f32
read_string_f32-IsSound = >>=-IsSound (read_fixed 4) read (read_fixed-IsSound 4) read-IsSound

pub read_string_f64-IsSound : IsSound read_string_f64
unfolding read_string_f64
read_string_f64-IsSound = >>=-IsSound (read_fixed 8) read (read_fixed-IsSound 8) read-IsSound

pub read_string_vint-IsSound : IsSound read_string_vint
unfolding read_string_vint
read_string_vint-IsSound =
    >>=-IsSound (read_varint_loop 64 10 0 0) read (read_varint_loop-IsSound 64 10 0 0) read-IsSound

pub to_string-IsSound : IsSound to_string
to_string-IsSound s v = rw (to_string-unread s v) (Keeps-refl s v)
