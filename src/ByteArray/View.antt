-- ===== src/ByteArray/View.antt =====
-- What a `ByteArray` promises, with no blocks in sight: a run of bytes and a position in it.
use sylar_windows.Prelude.{
  ℕ, ◌+◌, ◌-◌, ◌*◌, ◌%◌, ◌≤◌, ◌≡◌, arith, List, length, take, drop, ap, ◌∙◌, refl, length-append,
  length-take,
}
use sylar_windows.Prelude.Slices.{splice}
use native.Mathlib.Nat.{add-mul-mod_self_right, mod-eq_of_lt}
use sylar_windows.ByteArray.State.{ByteArray}
use sylar_windows.ByteArray.Store.{Cursor, at_cursor}
use sylar_windows.ByteArray.Invariant.{flat, memory, IsValid, Lands, length-flat}

pub record Tape : Type 0 where
  pub bytes : List ℕ
  pub position : ℕ

-- The bytes up to `m_size`, and the position. What lies behind `m_size` is not seen.
abbrev pub view : ByteArray → Tape
view s = record { bytes = take s.size (memory s); position = s.position }

-- Writing overwrites from the position on, and lengthens the run where it ends behind it.
abbrev pub tape_write : List ℕ → Tape → Tape
tape_write buf f = record {
  bytes = splice f.position buf f.bytes;
  position = f.position + length buf;
}

-- What lies between the position and the end.
abbrev pub unread : Tape → List ℕ
unread f = drop f.position f.bytes

abbrev pub tape_skip : ℕ → Tape → Tape
tape_skip count f = record f { position = f.position + count }

-- The store `t` shows `f`, and has the block size and the byte orders of `s`.
pub record Shows (s : ByteArray) (f : Tape) (t : ByteArray) : Type 0 where
  pub valid : IsValid t
  pub bytes : take t.size (memory t) ≡ f.bytes
  pub position : t.position ≡ f.position
  pub base_size : t.base_size ≡ s.base_size
  pub endian : t.endian ≡ s.endian
  pub byte_order : t.byte_order ≡ s.byte_order

pub view-Shows : (s : ByteArray) → IsValid s → Shows s (view s) s
view-Shows s v = record {
  valid = v;
  bytes = refl;
  position = refl;
  base_size = refl;
  endian = refl;
  byte_order = refl;
}

pub length-memory : (s : ByteArray) → IsValid s → length (memory s) ≡ s.capacity
length-memory s v = omega (
  arith,
  length-append (flat s.passed) (flat s.ahead),
  length-flat s.base_size s.passed v.passed_blocks,
  length-flat s.base_size s.ahead v.ahead_blocks,
)

pub length-view : (s : ByteArray) → IsValid s → length (view s).bytes ≡ s.size
length-view s v = omega (arith, length-take s.size (memory s), length-memory s v)

-- `m_position % m_baseSize` is the place in the current block.
pub position-mod :
    (s : ByteArray)
    → IsValid s
    → s.position % s.base_size ≡ s.position - length s.passed * s.base_size
position-mod s v =
    ap (λ (p : ℕ). p % s.base_size) {x = s.position} {y = place + length s.passed * s.base_size}
      (omega arith)
    ∙ add-mul-mod_self_right place (length s.passed) s.base_size
    ∙ mod-eq_of_lt (omega arith)
  where
    place : ℕ
    place = s.position - length s.passed * s.base_size

-- A store whose cursor has landed is valid, with any size from there up to the capacity.
pub Lands-IsValid :
    (s : ByteArray) (c : Cursor) (at size : ℕ) (m : List ℕ)
    → IsValid s
    → Lands s.base_size (length s.passed + length s.ahead) at m c
    → c.position ≡ at
    → at ≤ size
    → size ≤ s.capacity
    → IsValid (record (at_cursor c s) { size = size })
Lands-IsValid s c at size m v l e h k = record {
  base_pos = v.base_pos;
  passed_blocks = l.passed_blocks;
  ahead_blocks = l.ahead_blocks;
  low = omega (arith, l.low);
  high = omega (arith, l.high);
  cap = omega (arith, ap (λ (t : ℕ). t * s.base_size) l.blocks, v.cap);
  position_size = omega arith;
  size_capacity = k;
  rooted = omega (arith, l.blocks, v.rooted);
}
