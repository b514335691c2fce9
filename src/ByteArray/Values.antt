-- ===== src/ByteArray/Values.antt =====
-- The typed reads and writes of bytearray.cpp. A string is the list of its bytes; a float is its
-- bit pattern, since the code copies the pattern.
pub mod Fixed
pub mod Varint
pub mod Zigzag
pub mod Strings
use sylar_windows.Prelude.{
  ℕ, zero, suc, ◌+◌, ◌-◌, ◌*◌, ◌/◌, ◌%◌, ◌^◌, List, [], ◌∷◌, ◌++◌, Bool, true, false, Option, none,
  some, length, ltb, leb, if◌then◌else◌, bit_and, bit_or, bit_xor,
}
use sylar_windows.Prelude.Int.{ℤ, pos, negsuc, to_word, of_word}
use sylar_windows.Endia.{le_bytes, of_le_bytes, byteswap, same_order}
use sylar_windows.ByteArray.State.{
  ByteArray, Outcome, returns, throws, faults, Method, after, ◌>>=◌, ◌>>◌, pure,
}
use sylar_windows.ByteArray.Store.{write, read}

-- `m_endian == BYTE_ORDER`, or else the value is swapped.
abbrev pub in_order : ByteArray → ℕ → ℕ → ℕ
in_order s w v = if same_order s.endian s.byte_order then v else byteswap w v

-- The bodies of the fixed-length methods for 2, 4 and 8 bytes.
unfoldable pub write_fixed : ℕ → ℕ → Method (Unit {0})
write_fixed w value s = write (le_bytes w (in_order s w value)) s

unfoldable pub read_fixed : ℕ → Method ℕ
read_fixed w s = after (read w s) (λ bytes t. returns (in_order t w (of_le_bytes bytes)) t)

-- One byte is written and read as it is.
unfoldable pub write_fuint8 : ℕ → Method (Unit {0})
write_fuint8 value = write (le_bytes 1 value)

unfoldable pub read_fuint8 : Method ℕ
read_fuint8 s = after (read 1 s) (λ bytes. returns (of_le_bytes bytes))

unfoldable pub write_fint8 : ℤ → Method (Unit {0})
write_fint8 value = write (le_bytes 1 (to_word (2 ^ 7) value))

unfoldable pub read_fint8 : Method ℤ
read_fint8 s = after (read 1 s) (λ bytes. returns (of_word (2 ^ 7) (of_le_bytes bytes)))

abbrev pub write_fuint16 : ℕ → Method (Unit {0})
write_fuint16 = write_fixed 2

abbrev pub write_fuint32 : ℕ → Method (Unit {0})
write_fuint32 = write_fixed 4

abbrev pub write_fuint64 : ℕ → Method (Unit {0})
write_fuint64 = write_fixed 8

abbrev pub write_fint16 : ℤ → Method (Unit {0})
write_fint16 value = write_fixed 2 (to_word (2 ^ 15) value)

abbrev pub write_fint32 : ℤ → Method (Unit {0})
write_fint32 value = write_fixed 4 (to_word (2 ^ 31) value)

abbrev pub write_fint64 : ℤ → Method (Unit {0})
write_fint64 value = write_fixed 8 (to_word (2 ^ 63) value)

abbrev pub read_fuint16 : Method ℕ
read_fuint16 = read_fixed 2

abbrev pub read_fuint32 : Method ℕ
read_fuint32 = read_fixed 4

abbrev pub read_fuint64 : Method ℕ
read_fuint64 = read_fixed 8

abbrev pub read_fint16 : Method ℤ
read_fint16 s = after (read_fixed 2 s) (λ v. returns (of_word (2 ^ 15) v))

abbrev pub read_fint32 : Method ℤ
read_fint32 s = after (read_fixed 4 s) (λ v. returns (of_word (2 ^ 31) v))

abbrev pub read_fint64 : Method ℤ
read_fint64 s = after (read_fixed 8 s) (λ v. returns (of_word (2 ^ 63) v))

abbrev pub write_float : ℕ → Method (Unit {0})
write_float bits = write_fuint32 bits

abbrev pub write_double : ℕ → Method (Unit {0})
write_double bits = write_fuint64 bits

abbrev pub read_float : Method ℕ
read_float = read_fuint32

abbrev pub read_double : Method ℕ
read_double = read_fuint64

-- `EncodeZigzag32` and `EncodeZigzag64`, for words of `2 * half` values. `none` is where a signed number
-- overflows, which C++ leaves undefined: `-v` of the least number, and `v * 2` from `bound` on; the
-- shift of the 64 bits does not.
abbrev pub encode_zigzag : ℕ → ℕ → ℤ → Option ℕ
encode_zigzag half bound (pos n) = if ltb n bound then some (n * 2 % (half + half)) else none
encode_zigzag half bound (negsuc n) =
    if ltb (suc n) half
    then some ((suc n % (half + half) * 2 + (half + half) - 1) % (half + half))
    else none

unfoldable pub encode_zigzag32 : ℤ → Option ℕ
encode_zigzag32 = encode_zigzag (2 ^ 31) (2 ^ 30)

unfoldable pub encode_zigzag64 : ℤ → Option ℕ
encode_zigzag64 = encode_zigzag (2 ^ 63) (2 ^ 63)

-- `-((int64_t)v & 1)`, as a word of 64 bits.
abbrev pub sign_mask : ℕ → ℕ
sign_mask v = (2 ^ 64 - bit_and v 1) % 2 ^ 64

-- `DecodeZigzag32`: the exclusive or is taken at 64 bits and cut to 32.
unfoldable pub decode_zigzag32 : ℕ → ℤ
decode_zigzag32 v = of_word (2 ^ 31) (bit_xor (v / 2) (sign_mask v) % 2 ^ 32)

unfoldable pub decode_zigzag64 : ℕ → ℤ
decode_zigzag64 v = of_word (2 ^ 63) (bit_xor (v / 2) (sign_mask v))

-- The loop that fills `tmp`, with `room` bytes of it left: a byte past its end is a fault.
unfoldable pub varint_loop : ℕ → ℕ → Option (List ℕ)
varint_loop zero value = none
varint_loop (suc room) value =
    let rest = varint_loop room (value / 2 ^ 7) in
    if leb 0x80 value
    then elim rest [ none ↦ none | some tmp ↦ some (bit_or (bit_and value 0x7f) 0x80 ∷ tmp) ]
    else some (value ∷ [])

unfoldable pub write_varint : ℕ → ℕ → Method (Unit {0})
write_varint room value s = elim (varint_loop room value) [ none ↦ faults | some tmp ↦ write tmp s ]

-- `writeUint32`, `writeUint64`: `tmp[5]` and `tmp[10]`.
abbrev pub write_uint32 : ℕ → Method (Unit {0})
write_uint32 = write_varint 5

abbrev pub write_uint64 : ℕ → Method (Unit {0})
write_uint64 = write_varint 10

-- The write of a code that is defined.
abbrev pub write_code : (ℕ → Method (Unit {0})) → Option ℕ → Method (Unit {0})
write_code write none s = faults
write_code write (some v) s = write v s

abbrev pub write_int32 : ℤ → Method (Unit {0})
write_int32 value = write_code write_uint32 (encode_zigzag32 value)

abbrev pub write_int64 : ℤ → Method (Unit {0})
write_int64 value = write_code write_uint64 (encode_zigzag64 value)

-- The loop of `readUint32` and `readUint64`, with `rounds` rounds to go, at the shift `i` and for
-- words of `bits` bits.
unfoldable pub read_varint_loop : ℕ → ℕ → ℕ → ℕ → Method ℕ
read_varint_loop bits zero i result s = returns result s
read_varint_loop bits (suc rounds) i result s = after (read_fuint8 s) (λ b. elim (ltb b 0x80) [
  | true ↦ returns (bit_or result (b * 2 ^ i % 2 ^ bits))
  | false ↦ read_varint_loop bits rounds (i + 7) (bit_or result (bit_and b 0x7f * 2 ^ i % 2 ^ bits))
])

-- `for (int i = 0; i < 32; i += 7)` is five rounds, and ten for 64.
abbrev pub read_uint32 : Method ℕ
read_uint32 = read_varint_loop 32 5 0 0

abbrev pub read_uint64 : Method ℕ
read_uint64 = read_varint_loop 64 10 0 0

abbrev pub read_int32 : Method ℤ
read_int32 s = after (read_uint32 s) (λ v. returns (decode_zigzag32 v))

abbrev pub read_int64 : Method ℤ
read_int64 s = after (read_uint64 s) (λ v. returns (decode_zigzag64 v))

-- Strings: the length, cut to the width of its field, then the bytes.
unfoldable pub write_string_f16 : List ℕ → Method (Unit {0})
write_string_f16 value = write_fuint16 (length value % 2 ^ 16) >> write value

unfoldable pub write_string_f32 : List ℕ → Method (Unit {0})
write_string_f32 value = write_fuint32 (length value % 2 ^ 32) >> write value

unfoldable pub write_string_f64 : List ℕ → Method (Unit {0})
write_string_f64 value = write_fuint64 (length value % 2 ^ 64) >> write value

unfoldable pub write_string_vint : List ℕ → Method (Unit {0})
write_string_vint value = write_uint64 (length value % 2 ^ 64) >> write value

abbrev pub write_string_without_length : List ℕ → Method (Unit {0})
write_string_without_length value = write value

unfoldable pub read_string_f16 : Method (List ℕ)
read_string_f16 = read_fuint16 >>= read

unfoldable pub read_string_f32 : Method (List ℕ)
read_string_f32 = read_fuint32 >>= read

unfoldable pub read_string_f64 : Method (List ℕ)
read_string_f64 = read_fuint64 >>= read

unfoldable pub read_string_vint : Method (List ℕ)
read_string_vint = read_uint64 >>= read
