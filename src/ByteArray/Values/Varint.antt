-- ===== src/ByteArray/Values/Varint.antt =====
-- Variable-length numbers: the bytes that `writeUint32` and `writeUint64` fill `tmp` with are what
-- `readUint32` and `readUint64` turn back into the number.
use sylar_windows.Prelude.{
  ℕ, zero, suc, ◌+◌, ◌*◌, ◌/◌, ◌%◌, ◌^◌, ◌≤◌, ◌<◌, ◌≡◌, arith, List, [], ◌∷◌, length, Bool, true,
  false, refl, ap, subst, ◌∙◌, inl, some, bit_and, bit_or, ltb, All, lt→ltb,
}
use sylar_windows.Prelude.Bits.{bit_or_shifted, bit_and_mask}
use native.Mathlib.Decide.{dec_lt}
use native.Mathlib.Nat.{pow-suc, mod-eq_of_lt}
use native.Mathlib.Numerals.{towards_suc}
use sylar_windows.Endia.{le_bytes}
use sylar_windows.Endia.Laws.{IsByte}
use sylar_windows.ByteArray.Values.{varint_loop, write_varint, read_varint_loop, read_fuint8}
use sylar_windows.ByteArray.Values.Fixed.{byte, read_fuint8-Parses}
use sylar_windows.ByteArray.Codec.{Emits, Parses, write-Emits, Parses->>=, returns-Parses}

-- The byte of an inner group: seven bits of the number and the mark that more follow.
inner_byte : (v : ℕ) → bit_or (bit_and v 0x7f) 0x80 ≡ v % 128 + 128
inner_byte v = omega (
  arith,
  bit_and_mask 7 v,
  ap (λ (x : ℕ). bit_or x 0x80) (bit_and_mask 7 v),
  bit_or_shifted 7 (v % 128) 1 (omega arith),
)

low_group : (g : ℕ) → g < 128 → bit_and (g + 128) 0x7f ≡ g
low_group g h = omega (arith, bit_and_mask 7 (g + 128))

one_byte : (b : ℕ) → b < 256 → byte b ≡ b ∷ []
unfolding le_bytes
one_byte b h = ap (λ (x : ℕ). x ∷ []) (omega arith)

byte-Parses : (order : Bool) (b : ℕ) → b < 256 → Parses true order read_fuint8 (b ∷ []) b
byte-Parses order b h =
    subst (λ l. Parses true order read_fuint8 l b) (one_byte b h) (read_fuint8-Parses order b h)

-- What a group adds: `result | (g << i)`, cut to the width, is a sum that fits.
add_group :
    (bits i result g : ℕ)
    → result < 2 ^ i
    → g * 2 ^ i < 2 ^ bits
    → bit_or result (g * 2 ^ i % 2 ^ bits) ≡ result + g * 2 ^ i
add_group bits i result g h k = ap (bit_or result) (mod-eq_of_lt k) ∙ bit_or_shifted i result g h

-- The round that reads the last group, and one that reads an inner group.
last_round :
    (order : Bool) (bits rounds i result g : ℕ)
    → g < 128
    → result < 2 ^ i
    → g * 2 ^ i < 2 ^ bits
    → Parses true order (read_varint_loop bits (suc rounds) i result) (g ∷ []) (result + g * 2 ^ i)
unfolding read_varint_loop
last_round order bits rounds i result g hg hr hb =
    Parses->>= true true order read_fuint8 _ (g ∷ []) [] g _ (inl refl)
      (byte-Parses order g (omega arith))
      (rw (lt→ltb g 128 hg, add_group bits i result g hr hb)
        (returns-Parses order (result + g * 2 ^ i)))

inner_round :
    (order : Bool) (bits rounds i result g : ℕ) (back : List ℕ) (v : ℕ)
    → g < 128
    → result < 2 ^ i
    → g * 2 ^ i < 2 ^ bits
    → Parses true order (read_varint_loop bits rounds (i + 7) (result + g * 2 ^ i)) back v
    → Parses true order (read_varint_loop bits (suc rounds) i result) ((g + 128) ∷ back) v
unfolding read_varint_loop
inner_round order bits rounds i result g back v hg hr hb h =
    Parses->>= true true order read_fuint8 _ ((g + 128) ∷ []) back (g + 128) v (inl refl)
      (byte-Parses order (g + 128) (omega arith))
      (rw (high_mark g, low_group g hg, add_group bits i result g hr hb) h)
  where
    high_mark : (k : ℕ) → ltb (k + 128) 128 ≡ false
    high_mark k = ground arith

-- One step of the loop that writes.
varint_loop_last : (room v : ℕ) → v < 128 → varint_loop (suc room) v ≡ some (v ∷ [])
unfolding varint_loop
varint_loop_last room v h = ground arith

varint_loop_inner :
    (room v : ℕ) (bytes : List ℕ)
    → 128 ≤ v
    → varint_loop room (v / 128) ≡ some bytes
    → varint_loop (suc room) v ≡ some ((v % 128 + 128) ∷ bytes)
unfolding varint_loop
varint_loop_inner room v bytes h e = ground (arith, inner_byte v)

shift_seven : (i : ℕ) → 2 ^ (i + 7) ≡ 128 * 2 ^ i
shift_seven i = simp towards_suc (omega arith)

-- The lowest group and the others, both in their places.
groups_sum : (v i : ℕ) → v * 2 ^ i ≡ v % 128 * 2 ^ i + v / 128 * 2 ^ (i + 7)
groups_sum v i =
    ap (λ (x : ℕ). x * 2 ^ i) {x = v} {y = v % 128 + 128 * (v / 128)} (omega arith)
    ∙ omega (arith, ap (λ (x : ℕ). v / 128 * x) (shift_seven i))

group_below : (v i : ℕ) → v % 128 * 2 ^ i ≤ v * 2 ^ i
group_below v i = omega (arith, groups_sum v i)

group_bound : (g x : ℕ) → g ≤ 127 → g * x ≤ 127 * x
group_bound g x h = grind arith

group_fits : (result g i : ℕ) → result < 2 ^ i → g < 128 → result + g * 2 ^ i < 2 ^ (i + 7)
group_fits result g i hr hg = omega (arith, shift_seven i, group_bound g (2 ^ i) (omega arith))

room_left : (room v : ℕ) → 128 ≤ v → v < 128 ^ suc room → 0 < room
room_left zero v h k = absurd (omega arith)
room_left (suc room) v h k = omega arith

-- A number below `128 ^ room` fills at most `room` bytes, and reading them adds it, shifted, to
-- what has been read.
varint_round_trip :
    (order : Bool) (bits room i result v : ℕ)
    → v < 128 ^ room
    → 0 < room
    → result < 2 ^ i
    → v * 2 ^ i < 2 ^ bits
    → (bytes : List ℕ) × (varint_loop room v ≡ some bytes)
      × (0 < length bytes)
      × (length bytes ≤ room)
      × All IsByte bytes
      × Parses true order (read_varint_loop bits room i result) bytes (result + v * 2 ^ i)
varint_round_trip order bits zero i result v hv h0 hr hb = absurd (omega arith)
varint_round_trip order bits (suc room) i result v hv h0 hr hb = elim (dec_lt v 128) [
  | yes h ↦ (
    v ∷ [],
    varint_loop_last room v h,
    omega arith,
    omega arith,
    (omega arith, tt),
    last_round order bits room i result v h hr hb,
  )
  | no h ↦
      let g : ℕ = v % 128 in
      let (bytes, e, l0, l, ib, ps) =
        varint_round_trip order bits room (i + 7) (result + g * 2 ^ i) (v / 128)
          (omega (arith, pow-suc 128 room)) (room_left room v (omega arith) hv)
          (group_fits result g i hr (omega arith)) (omega (arith, groups_sum v i)) in
      (
        (g + 128) ∷ bytes,
        varint_loop_inner room v bytes (omega arith) e,
        omega arith,
        omega arith,
        (omega arith, ib),
        subst (Parses true order (read_varint_loop bits (suc room) i result) ((g + 128) ∷ bytes))
            (omega (arith, groups_sum v i))
            (inner_round order bits room i result g bytes _ (omega arith) hr
              (omega (arith, group_below v i)) ps),
      )
]

-- `writeUint32` and `writeUint64` append what their loops fill `tmp` with.
write_varint-Emits :
    (order : Bool) (room v : ℕ) (bytes : List ℕ)
    → varint_loop room v ≡ some bytes
    → Emits order (write_varint room v) bytes
unfolding write_varint
write_varint-Emits order room v bytes e s i h o =
    rw (e, write_varint) (write-Emits order bytes s i h o)

-- A number of the type never overruns `tmp`. It is appended as 1 to `room` bytes, and reading
-- those gives it back, whatever follows.
pub varint-round_trip :
    (order : Bool) (bits room v : ℕ)
    → v < 2 ^ bits
    → v < 128 ^ room
    → 0 < room
    → (bytes : List ℕ) × Emits order (write_varint room v) bytes
      × (0 < length bytes)
      × (length bytes ≤ room)
      × All IsByte bytes
      × Parses true order (read_varint_loop bits room 0 0) bytes v
varint-round_trip order bits room v hb hv h0 =
    let (bytes, e, l0, l, ib, ps) =
      varint_round_trip order bits room 0 0 v hv h0 (omega arith) (omega arith) in
    (
      bytes,
      write_varint-Emits order room v bytes e,
      l0,
      l,
      ib,
      subst (Parses true order (read_varint_loop bits room 0 0) bytes) (omega arith) ps,
    )
