-- ===== src/ByteArray/RoundTrip.antt =====
-- A value that is written at the end of a `ByteArray`, after a step back to where it begins, is read
-- back: for the fixed-length and variable-length numbers and the strings of bytearray.cpp.
use sylar_windows.Prelude.{
  ℕ, ◌+◌, ◌^◌, ◌<◌, ◌≡◌, arith, List, [], ◌∷◌, ◌++◌, length, take, drop, true, refl, ◌∙◌, ap, sym,
  subst, inl, max, length-append,
}
use mathlib.Core.List.{append-nil}
use sylar_windows.Prelude.Slices.{drop-append_self}
use sylar_windows.Prelude.Int.{ℤ, InRange}
use sylar_windows.ByteArray.State.{ByteArray, returns, Method}
use sylar_windows.ByteArray.Store.{set_position}
use sylar_windows.ByteArray.Invariant.{IsValid, memory}
use sylar_windows.ByteArray.View.{view, unread, length-view}
use sylar_windows.ByteArray.Reads.{set_position-Shows}
use sylar_windows.ByteArray.Values.{
  write_fixed, read_fixed, write_fint16, write_fint32, write_fint64, read_fint16, read_fint32,
  read_fint64, write_uint32, write_uint64, read_uint32, read_uint64, write_int32, write_int64,
  read_int32, read_int64, write_string_f16, write_string_f32, write_string_f64, write_string_vint,
  read_string_f16, read_string_f32, read_string_f64, read_string_vint, decode_zigzag32,
  decode_zigzag64, write_code,
}
use sylar_windows.ByteArray.Values.Fixed.{
  field, write_fixed-Emits, read_fixed-Parses, signed-Parses,
}
use sylar_windows.ByteArray.Values.Varint.{varint-round_trip}
use sylar_windows.ByteArray.Values.Zigzag.{Codes, zigzag, zigzag32_round_trip, zigzag64_round_trip}
use sylar_windows.ByteArray.Values.Strings.{
  string_f16-round_trip, string_f32-round_trip, string_f64-round_trip, string_vint-round_trip,
}
use sylar_windows.ByteArray.Codec.{is_native, Appends, Emits, Parses, Parses-map, Shows-native}

-- From `s`, `w` returns; back at the position of `s`, `r` returns `a`, and consumes all there is.
abbrev pub ReadsBack {ℓ} : {A : Type ℓ} → ByteArray → Method (Unit {0}) → Method A → A → Type ℓ
ReadsBack s w r a =
    (t u v : ByteArray) × (w s ≡ returns tt t)
    × (set_position s.position t ≡ returns tt u)
    × (r u ≡ returns a v)
    × (v.position ≡ t.size)
    × IsValid v

-- The step back, to the front of what was appended.
rewind :
    (s t : ByteArray) (bytes : List ℕ)
    → IsValid s
    → s.position ≡ s.size
    → Appends s bytes t
    → (u : ByteArray) × (set_position s.position t ≡ returns tt u)
      × IsValid u
      × (u.position ≡ s.position)
      × (unread (view u) ≡ bytes ++ [])
      × (is_native u ≡ is_native s)
rewind s t bytes v e a =
    let size : t.size ≡ s.size + length bytes = omega (
      arith,
      length-view t a.valid,
      length-view s v,
      ap length a.bytes,
      length-append (view s).bytes bytes,
    ) in
    let (u, r, h) =
      set_position-Shows s.position t a.valid (omega (arith, a.valid.size_capacity)) in
    (
      u,
      r,
      h.valid,
      h.position,
      ap (λ n. drop n (view u).bytes) h.position
          ∙ ap (drop s.position) h.bytes
          ∙ ap (λ n. drop s.position (take n (memory t))) {x = max t.size s.position} {y = t.size}
              (omega arith)
          ∙ ap (drop s.position) a.bytes
          ∙ drop-append_self s.position (view s).bytes bytes (omega (arith, length-view s v))
          ∙ sym (append-nil bytes),
      Shows-native t u _ h ∙ a.order,
    )

reads_back {ℓ} :
    {A : Type ℓ} (s : ByteArray) (w : Method (Unit {0})) (r : Method A) (bytes : List ℕ) (a : A)
    → IsValid s
    → s.position ≡ s.size
    → Emits (is_native s) w bytes
    → Parses true (is_native s) r bytes a
    → ReadsBack s w r a
reads_back s w r bytes a v e hw hr =
    let (t, rt, at) = hw s v e refl in
    let (u, ru, vu, pu, eu, ou) = rewind s t bytes v e at in
    let (x, rx, cx) = hr u [] vu ou eu (inl refl) in
    (
      t,
      u,
      x,
      rt,
      ru,
      rx,
      omega (
        arith,
        cx.position,
        length-view t at.valid,
        length-view s v,
        ap length at.bytes,
        length-append (view s).bytes bytes,
      ),
      cx.valid,
    )

-- An unsigned number that fits its `w` bytes, in either byte order.
pub fixed-ReadsBack :
    (s : ByteArray) (w v : ℕ)
    → IsValid s
    → s.position ≡ s.size
    → 0 < w
    → v < 256 ^ w
    → ReadsBack s (write_fixed w v) (read_fixed w) v
fixed-ReadsBack s w v i e hw hv =
    reads_back s (write_fixed w v) (read_fixed w) (field (is_native s) w v) v i e
      (write_fixed-Emits (is_native s) w v) (read_fixed-Parses (is_native s) w v hw hv)

-- Signed numbers of 16, 32 and 64 bits, in either byte order.
pub signed-ReadsBack :
    (s : ByteArray) (x y z : ℤ)
    → IsValid s
    → s.position ≡ s.size
    → InRange (2 ^ 15) x
    → InRange (2 ^ 31) y
    → InRange (2 ^ 63) z
    → ReadsBack s (write_fint16 x) read_fint16 x
      × ReadsBack s (write_fint32 y) read_fint32 y
      × ReadsBack s (write_fint64 z) read_fint64 z
signed-ReadsBack s x y z i e hx hy hz = (
  reads_back s (write_fint16 x) read_fint16 _ x i e (write_fixed-Emits (is_native s) 2 _)
      (signed-Parses (is_native s) 2 (2 ^ 15) x (omega arith) (omega arith) hx),
  reads_back s (write_fint32 y) read_fint32 _ y i e (write_fixed-Emits (is_native s) 4 _)
      (signed-Parses (is_native s) 4 (2 ^ 31) y (omega arith) (omega arith) hy),
  reads_back s (write_fint64 z) read_fint64 _ z i e (write_fixed-Emits (is_native s) 8 _)
      (signed-Parses (is_native s) 8 (2 ^ 63) z (omega arith) (omega arith) hz),
)

-- Variable-length numbers of 32 and of 64 bits.
pub varint-ReadsBack :
    (s : ByteArray) (x y : ℕ)
    → IsValid s
    → s.position ≡ s.size
    → x < 2 ^ 32
    → y < 2 ^ 64
    → ReadsBack s (write_uint32 x) read_uint32 x × ReadsBack s (write_uint64 y) read_uint64 y
varint-ReadsBack s x y i e hx hy =
    let (bx, ex, _, _, _, px) =
      varint-round_trip (is_native s) 32 5 x hx (omega arith) (omega arith) in
    let (by, ey, _, _, _, py) =
      varint-round_trip (is_native s) 64 10 y hy (omega arith) (omega arith) in
    (
      reads_back s (write_uint32 x) read_uint32 bx x i e ex px,
      reads_back s (write_uint64 y) read_uint64 by y i e ey py,
    )

-- Signed variable-length numbers whose zigzag code overflows no signed number: of 32 bits those above
-- -2^31 and below 2^30, of 64 bits all but the least.
pub zigzag-ReadsBack :
    (s : ByteArray) (x y : ℤ)
    → IsValid s
    → s.position ≡ s.size
    → Codes (2 ^ 31) (2 ^ 30) x
    → Codes (2 ^ 63) (2 ^ 63) y
    → ReadsBack s (write_int32 x) read_int32 x × ReadsBack s (write_int64 y) read_int64 y
zigzag-ReadsBack s x y i e hx hy =
    let (e32, l32, d32) = zigzag32_round_trip x hx in
    let (e64, l64, d64) = zigzag64_round_trip y hy in
    let (bx, ex, _, _, _, px) =
      varint-round_trip (is_native s) 32 5 (zigzag x) l32 (omega (arith, l32)) (omega arith) in
    let (by, ey, _, _, _, py) =
      varint-round_trip (is_native s) 64 10 (zigzag y) l64 (omega (arith, l64)) (omega arith) in
    (
      subst (λ c. ReadsBack s (write_code write_uint32 c) read_int32 x) (sym e32)
          (reads_back s (write_uint32 (zigzag x)) read_int32 bx x i e ex (
            subst (Parses true (is_native s) read_int32 bx) d32
              (Parses-map true (is_native s) read_uint32 decode_zigzag32 bx _ px))),
      subst (λ c. ReadsBack s (write_code write_uint64 c) read_int64 y) (sym e64)
          (reads_back s (write_uint64 (zigzag y)) read_int64 by y i e ey (
            subst (Parses true (is_native s) read_int64 by) d64
              (Parses-map true (is_native s) read_uint64 decode_zigzag64 by _ py))),
    )

-- A string that is not empty and fits its length field, with each of the four kinds of field.
pub string-ReadsBack :
    (s : ByteArray) (value : List ℕ)
    → IsValid s
    → s.position ≡ s.size
    → 0 < length value
    → length value < 2 ^ 16
    → ReadsBack s (write_string_f16 value) read_string_f16 value
      × ReadsBack s (write_string_f32 value) read_string_f32 value
      × ReadsBack s (write_string_f64 value) read_string_f64 value
      × ReadsBack s (write_string_vint value) read_string_vint value
string-ReadsBack s [] i e h0 h = absurd (omega arith)
string-ReadsBack s (b ∷ bs) i e h0 h =
    let o = is_native s in
    let value : List ℕ = b ∷ bs in
    let f16 = string_f16-round_trip o value h in
    let f32 = string_f32-round_trip o value (omega arith) in
    let f64 = string_f64-round_trip o value (omega arith) in
    let (front, ev, _, _, pv) = string_vint-round_trip o value (omega arith) in
    (
      reads_back s (write_string_f16 value) read_string_f16 _ value i e f16.0 f16.1,
      reads_back s (write_string_f32 value) read_string_f32 _ value i e f32.0 f32.1,
      reads_back s (write_string_f64 value) read_string_f64 _ value i e f64.0 f64.1,
      reads_back s (write_string_vint value) read_string_vint _ value i e ev pv,
    )
