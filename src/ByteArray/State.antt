-- ===== src/ByteArray/State.antt =====
-- The state of `ByteArray` (sylar/sylar/bytearray.h), its constructors, and what a call may end in.
use sylar_windows.Prelude.{
  ℕ, ◌+◌, ◌-◌, ◌^◌, List, [], ◌∷◌, Bool, true, false, length, leb, if◌then◌else◌, zero, suc,
}
use sylar_windows.Endia.{Endian, little, big}

-- A block: its memory is `size` bytes long once it is allocated.
pub record Node : Type 0 where
  pub mem : List ℕ
  pub size : ℕ

-- The list that `m_root` heads is `passed ++ ahead`, and `m_cur` heads `ahead`: it is the null
-- pointer if `ahead` is empty. `fresh k i` is what byte `i` of the `k`-th block happens to hold
-- when it is allocated, since `new char[s]` sets nothing. `byte_order` is `BYTE_ORDER`, which endia.h
-- takes from the value of a multi-character literal: that value is the compiler's choice, and need not
-- be the order in which the machine, little-endian in any case, stores a number.
pub record ByteArray : Type 0 where
  pub base_size : ℕ
  pub position : ℕ
  pub capacity : ℕ
  pub size : ℕ
  pub endian : Endian
  pub owner : Bool
  pub passed : List Node
  pub ahead : List Node
  pub fresh : ℕ → ℕ → ℕ
  pub byte_order : Endian

-- How a call ends: it returns, it throws `std::out_of_range`, or it reads or writes through a null
-- pointer or past a block, which C++ leaves undefined.
pub data Outcome {ℓ} (A : Type ℓ) : Type ℓ where
  returns : A → ByteArray → Outcome A
  throws : ByteArray → Outcome A
  faults : Outcome A

-- A method: from the state before to the outcome.
abbrev pub Method {ℓ} : Type ℓ → Type ℓ
Method A = ByteArray → Outcome A

infixl 5 ◌>>=◌ ◌>>◌
abbrev pub after {ℓ κ} : {A : Type ℓ} {B : Type κ} → Outcome A → (A → Method B) → Outcome B
after (returns a s) f = f a s
after (throws s) f = throws s
after faults f = faults

abbrev pub ◌>>=◌ {ℓ κ} : {A : Type ℓ} {B : Type κ} → Method A → (A → Method B) → Method B
◌>>=◌ m f s = after (m s) f

abbrev pub ◌>>◌ {κ} : {B : Type κ} → Method (Unit {0}) → Method B → Method B
◌>>◌ m k s = after (m s) (λ _. k)

abbrev pub pure {ℓ} : {A : Type ℓ} → A → Method A
pure a s = returns a s

-- `a - b` in `size_t`, for `a` and `b` below 2 ^ 64.
abbrev pub sub_size : ℕ → ℕ → ℕ
sub_size a b = if leb b a then a - b else 2 ^ 64 + a - b

-- `new char[n]`: `n` bytes of what was there.
abbrev pub tabulate : (ℕ → ℕ) → ℕ → ℕ → List ℕ
tabulate f i zero = []
tabulate f i (suc n) = f i ∷ tabulate f (i + 1) n

-- `Node::Node(size_t s)`, as the `k`-th block.
abbrev pub new_node : (ℕ → ℕ → ℕ) → ℕ → ℕ → Node
new_node fresh k s = record { mem = tabulate (fresh k) 0 s; size = s }

-- `ByteArray::ByteArray(size_t base_size)`.
unfoldable pub new_byte_array : (ℕ → ℕ → ℕ) → Endian → ℕ → ByteArray
new_byte_array fresh byte_order base_size = record {
  base_size = base_size;
  position = 0;
  capacity = base_size;
  size = 0;
  endian = byte_order;
  owner = true;
  passed = [];
  ahead = new_node fresh 0 base_size ∷ [];
  fresh = fresh;
  byte_order = byte_order;
}

-- `ByteArray::ByteArray(void* data, size_t size, bool owner)`, over the `size` bytes at `data`.
unfoldable pub of_memory : (ℕ → ℕ → ℕ) → Endian → List ℕ → Bool → ByteArray
of_memory fresh byte_order bytes owner = record {
  base_size = length bytes;
  position = 0;
  capacity = length bytes;
  size = length bytes;
  endian = byte_order;
  owner = owner;
  passed = [];
  ahead = record { mem = bytes; size = length bytes } ∷ [];
  fresh = fresh;
  byte_order = byte_order;
}

-- `getReadSize`, `getCapacity`.
abbrev pub get_read_size : ByteArray → ℕ
get_read_size s = sub_size s.size s.position

abbrev pub get_capacity : ByteArray → ℕ
get_capacity s = sub_size s.capacity s.position

-- `isLittleEndian`, `setIsLittleEndian`.
abbrev pub is_little_endian : ByteArray → Bool
is_little_endian s = elim s.endian [ little ↦ true | big ↦ false ]

abbrev pub set_is_little_endian : Bool → ByteArray → ByteArray
set_is_little_endian val s = record s { endian = if val then little else big }
