-- ===== src/Endia.antt =====
-- sylar/sylar/endia.h: byte order. A number of `w` bytes is stored lowest byte first, as Windows
-- does; `byteswap` is the compiler's `_byteswap_ushort`, `_byteswap_ulong` and `_byteswap_uint64`.
pub mod Laws
use sylar_windows.Prelude.{ℕ, zero, suc, ◌+◌, ◌*◌, ◌/◌, ◌%◌, List, [], ◌∷◌, ◌++◌, Bool, true, false}
use mathlib.Core.List.{reverse}

-- The bytes at the address of a number of `w` bytes.
unfoldable pub le_bytes : ℕ → ℕ → List ℕ
le_bytes zero v = []
le_bytes (suc w) v = (v % 256) ∷ le_bytes w (v / 256)

-- The number at an address.
unfoldable pub of_le_bytes : List ℕ → ℕ
of_le_bytes [] = 0
of_le_bytes (b ∷ bs) = b + 256 * of_le_bytes bs

-- `byteswap` of a value of `w` bytes.
unfoldable pub byteswap : ℕ → ℕ → ℕ
unfolding le_bytes of_le_bytes
byteswap w v = of_le_bytes (reverse (le_bytes w v))

pub data Endian : Type 0 where
  little big : Endian

-- `m_endian == BYTE_ORDER`.
abbrev pub same_order : Endian → Endian → Bool
same_order little little = true
same_order little big = false
same_order big little = false
same_order big big = true

-- `byteswapOnLittleEndian` and `byteswapOnBigEndian`, by what `BYTE_ORDER` is: on a big-endian build
-- the first returns its argument, on a little-endian build the second does.
unfoldable pub byteswap_on_little_endian : Endian → ℕ → ℕ → ℕ
byteswap_on_little_endian big w v = v
byteswap_on_little_endian little w v = byteswap w v

unfoldable pub byteswap_on_big_endian : Endian → ℕ → ℕ → ℕ
byteswap_on_big_endian big w v = byteswap w v
byteswap_on_big_endian little w v = v
