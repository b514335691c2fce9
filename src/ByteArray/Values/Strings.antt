-- ===== src/ByteArray/Values/Strings.antt =====
-- Strings with a length in front: what the four `writeString…` methods append, and its reading.
use sylar_windows.Prelude.{
  ℕ, ◌%◌, ◌^◌, ◌≤◌, ◌<◌, arith, List, [], ◌∷◌, ◌++◌, length, Bool, true, false, refl, subst, sym,
  inl,
}
use native.Mathlib.Nat.{mod-eq_of_lt}
use sylar_windows.ByteArray.State.{Method, ◌>>=◌, ◌>>◌}
use sylar_windows.ByteArray.Store.{write, read}
use sylar_windows.ByteArray.Values.{
  write_fixed, read_fixed, write_varint, read_varint_loop, write_string_f16, write_string_f32,
  write_string_f64, write_string_vint, read_string_f16, read_string_f32, read_string_f64,
  read_string_vint,
}
use sylar_windows.ByteArray.Values.Fixed.{field, write_fixed-Emits, read_fixed-Parses}
use sylar_windows.ByteArray.Values.Varint.{varint-round_trip}
use sylar_windows.ByteArray.Codec.{
  Emits, Parses, write-Emits, read-Parses, read-Parses_before, Parses->>=, Emits->>,
}

abbrev pub non_empty : List ℕ → Bool
non_empty [] = false
non_empty (b ∷ bs) = true

read-Parses_all :
    (order : Bool) (value : List ℕ)
    → Parses (non_empty value) order (read (length value)) value value
read-Parses_all order [] = read-Parses_before order []
read-Parses_all order (b ∷ bs) = read-Parses order (b ∷ bs) (omega arith)

-- The length as a method reads it, then the bytes.
sized-Parses :
    (order : Bool) (m : Method ℕ) (front value : List ℕ)
    → Parses true order m front (length value)
    → Parses (non_empty value) order (m >>= read) (front ++ value) value
sized-Parses order m front value h =
    Parses->>= true (non_empty value) order m read front value (length value) value (inl refl) h
      (read-Parses_all order value)

-- The bytes of a string behind a length field of `w` bytes.
abbrev pub sized : Bool → ℕ → List ℕ → List ℕ
sized order w value = field order w (length value) ++ value

sized-Emits :
    (order : Bool) (w bound : ℕ) (value : List ℕ)
    → length value < bound
    → Emits order (write_fixed w (length value % bound) >> write value) (sized order w value)
sized-Emits order w bound value h =
    subst (λ n. Emits order (write_fixed w n >> write value) (sized order w value))
      (sym (mod-eq_of_lt h))
      (Emits->> order (write_fixed w (length value)) (write value) (field order w (length value))
        value (write_fixed-Emits order w (length value)) (write-Emits order value))

-- A string shorter than 2 ^ 16 is appended with its length, and read back.
pub string_f16-round_trip :
    (order : Bool) (value : List ℕ)
    → length value < 2 ^ 16
    → Emits order (write_string_f16 value) (sized order 2 value)
      × Parses (non_empty value) order read_string_f16 (sized order 2 value) value
unfolding write_string_f16 read_string_f16
string_f16-round_trip order value h = (
  sized-Emits order 2 (2 ^ 16) value h,
  sized-Parses order (read_fixed 2) (field order 2 (length value)) value
      (read_fixed-Parses order 2 (length value) (omega arith) h),
)

-- A string shorter than 2 ^ 32 is appended with its length, and read back.
pub string_f32-round_trip :
    (order : Bool) (value : List ℕ)
    → length value < 2 ^ 32
    → Emits order (write_string_f32 value) (sized order 4 value)
      × Parses (non_empty value) order read_string_f32 (sized order 4 value) value
unfolding write_string_f32 read_string_f32
string_f32-round_trip order value h = (
  sized-Emits order 4 (2 ^ 32) value h,
  sized-Parses order (read_fixed 4) (field order 4 (length value)) value
      (read_fixed-Parses order 4 (length value) (omega arith) h),
)

-- A string shorter than 2 ^ 64 is appended with its length, and read back.
pub string_f64-round_trip :
    (order : Bool) (value : List ℕ)
    → length value < 2 ^ 64
    → Emits order (write_string_f64 value) (sized order 8 value)
      × Parses (non_empty value) order read_string_f64 (sized order 8 value) value
unfolding write_string_f64 read_string_f64
string_f64-round_trip order value h = (
  sized-Emits order 8 (2 ^ 64) value h,
  sized-Parses order (read_fixed 8) (field order 8 (length value)) value
      (read_fixed-Parses order 8 (length value) (omega arith) h),
)

-- With a variable length in front the string is appended behind 1 to 10 bytes, and read back.
pub string_vint-round_trip :
    (order : Bool) (value : List ℕ)
    → length value < 2 ^ 64
    → (front : List ℕ) × Emits order (write_string_vint value) (front ++ value)
      × (0 < length front)
      × (length front ≤ 10)
      × Parses (non_empty value) order read_string_vint (front ++ value) value
unfolding write_string_vint read_string_vint
string_vint-round_trip order value h =
    let (front, em, l0, l, ib, ps) =
      varint-round_trip order 64 10 (length value) h (omega arith) (omega arith) in
    (
      front,
      subst (λ n. Emits order (write_varint 10 n >> write value) (front ++ value))
          (sym (mod-eq_of_lt h))
          (Emits->> order (write_varint 10 (length value)) (write value) front value em
            (write-Emits order value)),
      l0,
      l,
      sized-Parses order (read_varint_loop 64 10 0 0) front value ps,
    )
