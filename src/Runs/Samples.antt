-- ===== src/Runs/Samples.antt =====
-- Stores for the runs: an empty one, one of two full blocks, and one full up to its last block.
use sylar_windows.Prelude.{[], ◌∷◌, true, arith}
use sylar_windows.Endia.{little, big}
use sylar_windows.ByteArray.State.{ByteArray, Node}
use sylar_windows.ByteArray.Invariant.{IsValid}

abbrev pub blank : ByteArray
blank = record {
  base_size = 4;
  position = 0;
  capacity = 4;
  size = 0;
  endian = little;
  owner = true;
  passed = [];
  ahead = record { mem = 0 ∷ 0 ∷ 0 ∷ 0 ∷ []; size = 4 } ∷ [];
  fresh = λ k i. 0;
  byte_order = big;
}

abbrev pub first : Node
first = record { mem = 1 ∷ 2 ∷ 3 ∷ 4 ∷ []; size = 4 }

abbrev pub second : Node
second = record { mem = 5 ∷ 6 ∷ 7 ∷ 8 ∷ []; size = 4 }

-- Seven of the eight bytes are in use, and the position is on the second.
abbrev pub loaded : ByteArray
loaded = record blank { position = 1; capacity = 8; size = 7; ahead = first ∷ second ∷ [] }

-- Both blocks are in use, and the position is behind them.
abbrev pub full : ByteArray
full = record blank {
  position = 8;
  capacity = 8;
  size = 8;
  passed = first ∷ second ∷ [];
  ahead = [];
}

pub blank-IsValid : IsValid blank
blank-IsValid = omega arith

pub loaded-IsValid : IsValid loaded
loaded-IsValid = omega arith

pub full-IsValid : IsValid full
full-IsValid = omega arith
