-- ===== src/ByteArray/Invariant.antt =====
-- The well-formedness of a `ByteArray`, and what its blocks hold as one run of bytes.
use sylar_windows.Prelude.{
  ℕ, ◌+◌, ◌*◌, ◌≤◌, ◌<◌, ◌≡◌, arith, List, [], ◌∷◌, ◌++◌, length, All, length-append, ap, ◌∙◌,
  Option, some,
}
use mathlib.Core.List.{append_assoc}
use sylar_windows.ByteArray.State.{Node, ByteArray}
use sylar_windows.ByteArray.Store.{Cursor}

abbrev pub IsBlock : ℕ → Node → Type 0
IsBlock base n = (n.size ≡ base) × (length n.mem ≡ base)

abbrev pub flat : List Node → List ℕ
flat [] = []
flat (n ∷ ns) = n.mem ++ flat ns

-- All bytes that the store holds, in order; there are `capacity` of them.
abbrev pub memory : ByteArray → List ℕ
memory s = flat s.passed ++ flat s.ahead

-- Every block has `m_baseSize` bytes, the position lies in the current block or right behind the
-- last one, position, size and capacity are in order, and there is a root.
pub record IsValid (s : ByteArray) : Type 0 where
  pub base_pos : 0 < s.base_size
  pub passed_blocks : All (IsBlock s.base_size) s.passed
  pub ahead_blocks : All (IsBlock s.base_size) s.ahead
  pub low : length s.passed * s.base_size ≤ s.position
  pub high : s.position < length s.passed * s.base_size + s.base_size
  pub cap : s.capacity ≡ length s.passed * s.base_size + length s.ahead * s.base_size
  pub position_size : s.position ≤ s.size
  pub size_capacity : s.size ≤ s.capacity
  pub rooted : 0 < length s.passed + length s.ahead

-- Where a loop over the blocks leaves the cursor: `at` bytes from the root, in a list of `total`
-- blocks that holds the bytes `m`.
pub record Lands (base total at : ℕ) (m : List ℕ) (c : Cursor) : Type 0 where
  pub passed_blocks : All (IsBlock base) c.passed
  pub ahead_blocks : All (IsBlock base) c.ahead
  pub low : length c.passed * base ≤ at
  pub high : at < length c.passed * base + base
  pub blocks : length c.passed + length c.ahead ≡ total
  pub bytes : flat c.passed ++ flat c.ahead ≡ m

pub Lands-cast :
    (base total total' at at' : ℕ) (m m' : List ℕ) (c : Cursor)
    → total ≡ total'
    → at ≡ at'
    → m ≡ m'
    → Lands base total at m c
    → Lands base total' at' m' c
Lands-cast base total total' at at' m m' c et ea em l = record {
  passed_blocks = l.passed_blocks;
  ahead_blocks = l.ahead_blocks;
  low = omega arith;
  high = omega arith;
  blocks = l.blocks ∙ et;
  bytes = l.bytes ∙ em;
}

-- A loop ends without a fault, at position `pos`, and its cursor lands there.
abbrev pub Reaches : ℕ → ℕ → ℕ → ℕ → List ℕ → Option Cursor → Type 0
Reaches base total at pos m r =
    (c : Cursor) × (r ≡ some c) × (c.position ≡ pos) × Lands base total at m c

pub Reaches-cast :
    (base total total' at at' pos pos' : ℕ) (m m' : List ℕ) (r r' : Option Cursor)
    → r' ≡ r
    → total ≡ total'
    → at ≡ at'
    → pos ≡ pos'
    → m ≡ m'
    → Reaches base total at pos m r
    → Reaches base total' at' pos' m' r'
Reaches-cast base total total' at at' pos pos' m m' r r' er et ea ep em (c, e, p, l) =
    (c, er ∙ e, p ∙ ep, Lands-cast base total total' at at' m m' c et ea em l)

pub flat-append : (ms ns : List Node) → flat (ms ++ ns) ≡ flat ms ++ flat ns
flat-append [] ns = λ i. flat ns
flat-append (m ∷ ms) ns = rw append_assoc (ap (◌++◌ m.mem) (flat-append ms ns))

pub length-flat :
    (base : ℕ) (ns : List Node) → All (IsBlock base) ns → length (flat ns) ≡ length ns * base
length-flat base [] v = omega arith
length-flat base (n ∷ ns) v = grind (arith, length-append n.mem (flat ns), length-flat base ns v.1)
