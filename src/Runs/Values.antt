-- ===== src/Runs/Values.antt =====
-- Runs of the typed reads and writes.
use sylar_windows.Prelude.{none, ◌^◌, ◌-◌, ℕ, ◌≡◌, refl, arith, List, [], ◌∷◌, some}
use sylar_windows.Prelude.Int.{pos, negsuc}
use sylar_windows.Endia.{byteswap}
use sylar_windows.ByteArray.Values.{
  varint_loop, encode_zigzag32, decode_zigzag32, write_uint32, write_uint64, read_uint32,
  read_uint64, write_int32, write_int64, read_int32, read_int64,
}
use sylar_windows.ByteArray.RoundTrip.{ReadsBack, varint-ReadsBack, zigzag-ReadsBack}
use sylar_windows.Runs.Samples.{blank, blank-IsValid}

varint_300 : varint_loop 5 300 ≡ some (0xac ∷ 0x02 ∷ [])
unfolding varint_loop
varint_300 = refl

zigzag_minus_two : (encode_zigzag32 (negsuc 1) ≡ some 3) × (decode_zigzag32 3 ≡ negsuc 1)
unfolding decode_zigzag32 encode_zigzag32
zigzag_minus_two = (refl, refl)

zigzag_least : encode_zigzag32 (negsuc (2 ^ 31 - 1)) ≡ none
unfolding encode_zigzag32
zigzag_least = refl

byteswap_word : byteswap 4 0x11223344 ≡ 0x44332211
unfolding byteswap
byteswap_word = refl

varint-ReadsBack_example :
    ReadsBack blank (write_uint32 300) read_uint32 300
    × ReadsBack blank (write_uint64 70000) read_uint64 70000
varint-ReadsBack_example =
    varint-ReadsBack blank 300 70000 blank-IsValid refl (omega arith) (omega arith)

zigzag-ReadsBack_example :
    ReadsBack blank (write_int32 (negsuc 8)) read_int32 (negsuc 8)
    × ReadsBack blank (write_int64 (pos 9)) read_int64 (pos 9)
zigzag-ReadsBack_example =
    zigzag-ReadsBack blank (negsuc 8) (pos 9) blank-IsValid refl (omega arith) (omega arith)

abbrev word : List ℕ
word = b's' ∷ b'y' ∷ b'l' ∷ b'a' ∷ b'r' ∷ []
