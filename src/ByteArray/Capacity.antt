-- ===== src/ByteArray/Capacity.antt =====
-- `addCapacity`: it makes room, behind every byte that is there.
use sylar_windows.Prelude.{
  ℕ, zero, suc, ◌+◌, ◌-◌, ◌*◌, ◌≤◌, ◌<◌, ◌≡◌, arith, List, [], ◌∷◌, ◌++◌, length, All,
  length-append, All-append, ap, sym, refl, subst, inl, inr, true, false, ◌||◌, leb, ◌==◌,
  Bool-cases,
}
use mathlib.Core.List.{append_assoc, append-nil}
use native.Mathlib.Decide.{dec_le}
use native.Mathlib.Nat.{div-add-mod', mod-lt}
use sylar_windows.ByteArray.State.{Node, ByteArray, tabulate, new_node, get_capacity}
use sylar_windows.ByteArray.Store.{new_nodes, ceil_div, link_blocks, add_capacity}
use sylar_windows.ByteArray.Invariant.{IsBlock, flat, memory, IsValid, flat-append}

length-tabulate : (f : ℕ → ℕ) (i n : ℕ) → length (tabulate f i n) ≡ n
length-tabulate f i zero = refl
length-tabulate f i (suc n) = ap suc (length-tabulate f (i + 1) n)

pub new_node-IsBlock : (fresh : ℕ → ℕ → ℕ) (k base : ℕ) → IsBlock base (new_node fresh k base)
new_node-IsBlock fresh k base = (refl, length-tabulate (fresh k) 0 base)

new_nodes-IsBlock :
    (fresh : ℕ → ℕ → ℕ) (base k count : ℕ) → All (IsBlock base) (new_nodes fresh base k count)
unfolding new_nodes
new_nodes-IsBlock fresh base k zero = tt
new_nodes-IsBlock fresh base k (suc count) =
    (new_node-IsBlock fresh k base, new_nodes-IsBlock fresh base (k + 1) count)

length-new_nodes :
    (fresh : ℕ → ℕ → ℕ) (base k count : ℕ) → length (new_nodes fresh base k count) ≡ count
unfolding new_nodes
length-new_nodes fresh base k zero = refl
length-new_nodes fresh base k (suc count) = ap suc (length-new_nodes fresh base (k + 1) count)

le-ceil_div : (a b : ℕ) → 0 < b → a ≤ ceil_div a b * b
le-ceil_div a b h = omega (arith, div-add-mod' (a + b - 1) b, mod-lt (a + b - 1) h)

zero_of_mul_lt : (l b : ℕ) → l * b < b → l ≡ 0
zero_of_mul_lt zero b h = refl
zero_of_mul_lt (suc l) b h = absurd (omega arith)

-- No block lies ahead exactly where the capacity is used up.
pub ahead-nil : (s : ByteArray) → IsValid s → s.capacity ≤ s.position → s.ahead ≡ []
ahead-nil s v h = length_zero s.ahead (zero_of_mul_lt (length s.ahead) s.base_size (omega arith))
  where
    length_zero : (ns : List Node) → length ns ≡ 0 → ns ≡ []
    length_zero [] e = refl
    length_zero (n ∷ ns) e = absurd (omega arith)

pub ahead-cons :
    (s : ByteArray)
    → IsValid s
    → s.position < s.capacity
    → (n : Node) × (ns : List Node) × (s.ahead ≡ n ∷ ns)
ahead-cons s v h = go s.ahead refl
  where
    go : (l : List Node) → s.ahead ≡ l → (n : Node) × (ns : List Node) × (s.ahead ≡ n ∷ ns)
    go [] e = absurd (omega (arith, ap (λ (l : List Node). length l * s.base_size) e))
    go (n ∷ ns) e = (n, ns, e)

-- `t` is `s` with room for `count` bytes from the position on, and with nothing else changed.
pub record HasRoom (count : ℕ) (s t : ByteArray) : Type 0 where
  pub valid : IsValid t
  pub room : s.position + count ≤ t.capacity
  pub same_position : t.position ≡ s.position
  pub same_size : t.size ≡ s.size
  pub same_base : t.base_size ≡ s.base_size
  pub same_endian : t.endian ≡ s.endian
  pub same_order : t.byte_order ≡ s.byte_order
  pub extra : List ℕ
  pub grown : memory t ≡ memory s ++ extra

capacity_left : (s : ByteArray) → s.position < s.capacity → (get_capacity s == 0) ≡ false
capacity_left s h = ground arith

no_capacity : (s : ByteArray) → IsValid s → s.capacity ≤ s.position → (get_capacity s == 0) ≡ true
no_capacity s v h = ground arith

-- In a valid store the new blocks go behind those from the current one on.
link_blocks-append :
    (s : ByteArray) (blocks : List Node) (c : ℕ)
    → IsValid s
    → link_blocks (get_capacity s) blocks (record s { capacity = c })
      ≡ record s { capacity = c; ahead = s.ahead ++ blocks }
unfolding link_blocks
link_blocks-append s blocks c v = elim (dec_le s.capacity s.position) [
  | yes full ↦ ground (arith, no_capacity s v full, ahead-nil s v full, append-nil s.passed)
  | no left ↦
      let (n, ns, e) = ahead-cons s v (omega arith) in
      ground (arith, capacity_left s (omega arith), e)
]

append-HasRoom :
    (count : ℕ) (s : ByteArray) (blocks : List Node)
    → IsValid s
    → All (IsBlock s.base_size) blocks
    → s.position + count ≤ s.capacity + length blocks * s.base_size
    → HasRoom count s (record s {
      capacity = s.capacity + length blocks * s.base_size;
      ahead = s.ahead ++ blocks;
    })
append-HasRoom count s blocks v vb h = record {
  valid = record {
    base_pos = v.base_pos;
    passed_blocks = v.passed_blocks;
    ahead_blocks = All-append (IsBlock s.base_size) s.ahead blocks v.ahead_blocks vb;
    low = v.low;
    high = v.high;
    cap = rw length-append (omega arith);
    position_size = v.position_size;
    size_capacity = omega arith;
    rooted = omega (arith, length-append s.ahead blocks, v.rooted);
  };
  room = h;
  same_position = refl;
  same_size = refl;
  same_base = refl;
  same_endian = refl;
  same_order = refl;
  extra = flat blocks;
  grown = rw flat-append (sym (append_assoc (flat s.passed) (flat s.ahead) (flat blocks)));
}

enough-HasRoom :
    (count : ℕ) (s : ByteArray) → IsValid s → s.position + count ≤ s.capacity → HasRoom count s s
enough-HasRoom count s v h = record {
  valid = v;
  room = h;
  same_position = refl;
  same_size = refl;
  same_base = refl;
  same_endian = refl;
  same_order = refl;
  extra = [];
  grown = sym (append-nil (memory s));
}

enough_test :
    (count : ℕ) (s : ByteArray)
    → IsValid s
    → (count == 0 || leb count (get_capacity s)) ≡ true
    → s.position + count ≤ s.capacity
enough_test count s v h = ground arith

short_test :
    (count : ℕ) (s : ByteArray)
    → IsValid s
    → (count == 0 || leb count (get_capacity s)) ≡ false
    → s.capacity < s.position + count × (get_capacity s ≡ s.capacity - s.position)
short_test count s v h = ground arith

-- After `addCapacity(count)` the store is valid and has `count` bytes of room from the position
-- on. Position, size, block size and byte order stay, and so do all bytes that were there.
pub add_capacity-HasRoom :
    (count : ℕ) (s : ByteArray) → IsValid s → HasRoom count s (add_capacity count s)
unfolding add_capacity
add_capacity-HasRoom count s v = elim (Bool-cases (count == 0 || leb count (get_capacity s))) [
  | inl e ↦ rw e (enough-HasRoom count s v (enough_test count s v e))
  | inr e ↦
      rw (e, link_blocks-append s blocks (s.capacity + q * s.base_size) v)
        (subst
          (λ k.
            HasRoom count s
              (record s { capacity = s.capacity + k * s.base_size; ahead = s.ahead ++ blocks }))
          blocks_count
          (append-HasRoom count s blocks v (new_nodes-IsBlock s.fresh s.base_size _ q)
            (rw blocks_count (covers e))))
]
  where
    q : ℕ
    q = ceil_div (count - get_capacity s) s.base_size

    blocks : List Node
    blocks = new_nodes s.fresh s.base_size (length s.passed + length s.ahead) q

    blocks_count : length blocks ≡ q
    blocks_count = length-new_nodes s.fresh s.base_size _ q

    covers :
        (count == 0 || leb count (get_capacity s)) ≡ false
        → s.position + count ≤ s.capacity + q * s.base_size
    covers e =
        omega (
          arith,
          short_test count s v e,
          le-ceil_div (count - get_capacity s) s.base_size v.base_pos,
        )
