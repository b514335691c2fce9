-- ===== src/ByteArray/Start.antt =====
-- The constructors of bytearray.cpp and `clear`: where a store begins.
use sylar_windows.Prelude.{
  ℕ, ◌<◌, ◌≡◌, arith, List, [], ◌∷◌, ◌++◌, length, All, All-append, ap, refl, length-append, Bool,
}
use mathlib.Core.List.{append-nil}
use sylar_windows.Prelude.Slices.{take-all}
use sylar_windows.Endia.{Endian}
use sylar_windows.ByteArray.State.{ByteArray, Node, returns, new_byte_array, of_memory}
use sylar_windows.ByteArray.Store.{clear}
use sylar_windows.ByteArray.Invariant.{IsBlock, IsValid}
use sylar_windows.ByteArray.Capacity.{new_node-IsBlock}
use sylar_windows.ByteArray.View.{Shows}

pub new_byte_array-IsValid :
    (fresh : ℕ → ℕ → ℕ) (byte_order : Endian) (base : ℕ)
    → 0 < base
    → IsValid (new_byte_array fresh byte_order base)
unfolding new_byte_array
new_byte_array-IsValid fresh byte_order base h = record {
  base_pos = h;
  passed_blocks = tt;
  ahead_blocks = (new_node-IsBlock fresh 0 base, tt);
  low = omega arith;
  high = omega arith;
  cap = omega arith;
  position_size = omega arith;
  size_capacity = omega arith;
  rooted = omega arith;
}

-- A store over the bytes of a caller shows those bytes, from the first on.
pub of_memory-Shows :
    (fresh : ℕ → ℕ → ℕ) (byte_order : Endian) (bytes : List ℕ) (owner : Bool)
    → 0 < length bytes
    → Shows
        (of_memory fresh byte_order bytes owner)
        (record { bytes = bytes; position = 0 })
        (of_memory fresh byte_order bytes owner)
unfolding of_memory
of_memory-Shows fresh byte_order bytes owner h = record {
  valid = record {
    base_pos = h;
    passed_blocks = tt;
    ahead_blocks = ((refl, refl), tt);
    low = omega arith;
    high = omega arith;
    cap = omega arith;
    position_size = omega arith;
    size_capacity = omega arith;
    rooted = omega arith;
  };
  bytes = rw append-nil (take-all (length bytes) bytes (omega arith));
  position = refl;
  base_size = refl;
  endian = refl;
  byte_order = refl;
}

-- `clear` keeps the root alone, and shows nothing.
pub clear-Shows :
    (s : ByteArray)
    → IsValid s
    → (t : ByteArray) × (clear s ≡ returns tt t) × Shows s (record { bytes = []; position = 0 }) t
unfolding clear
clear-Shows s v =
    go (s.passed ++ s.ahead) refl
      (All-append (IsBlock s.base_size) s.passed s.ahead v.passed_blocks v.ahead_blocks)
  where
    go :
        (l : List Node)
        → s.passed ++ s.ahead ≡ l
        → All (IsBlock s.base_size) l
        → (t : ByteArray) × (clear s ≡ returns tt t)
          × Shows s (record { bytes = []; position = 0 }) t
    go [] e a = absurd (omega (arith, ap length e, length-append s.passed s.ahead, v.rooted))
    go (n ∷ ns) e a = (
      record s { position = 0; size = 0; capacity = s.base_size; passed = []; ahead = n ∷ [] },
      rw (e, clear),
      record {
        valid = record {
          base_pos = v.base_pos;
          passed_blocks = tt;
          ahead_blocks = (a.0, tt);
          low = omega arith;
          high = omega (arith, v.base_pos);
          cap = omega arith;
          position_size = omega arith;
          size_capacity = omega arith;
          rooted = omega arith;
        };
        bytes = refl;
        position = refl;
        base_size = refl;
        endian = refl;
        byte_order = refl;
      },
    )
