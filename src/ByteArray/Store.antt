-- ===== src/ByteArray/Store.antt =====
-- The operations of bytearray.cpp on the blocks: `write`, `read`, `setPosition`, `addCapacity`, `clear`.
use sylar_windows.Prelude.{
  ℕ, ◌+◌, ◌-◌, ◌*◌, ◌/◌, ◌%◌, List, [], ◌∷◌, ◌++◌, true, false, Option, none, some, length, take,
  drop, leb, ltb, ◌==◌, ◌||◌, if◌then◌else◌, zero, suc,
}
use sylar_windows.Prelude.Slices.{splice}
use sylar_windows.ByteArray.State.{
  Node, ByteArray, returns, throws, faults, Method, sub_size, new_node, get_read_size, get_capacity,
}

-- `memcpy(node->ptr + npos, bytes, …)`: past the block it is undefined.
abbrev pub copy_in : Node → ℕ → List ℕ → Option Node
copy_in n npos bytes =
    if leb (npos + length bytes) (length n.mem)
    then some (record n { mem = splice npos bytes n.mem })
    else none

-- `memcpy(…, node->ptr + npos, count)`.
abbrev pub copy_out : Node → ℕ → ℕ → Option (List ℕ)
copy_out n npos count =
    if leb (npos + count) (length n.mem) then some (take count (drop npos n.mem)) else none

-- `addCapacity`: `count` blocks behind the last one, numbered from `k` on.
unfoldable pub new_nodes : (ℕ → ℕ → ℕ) → ℕ → ℕ → ℕ → List Node
new_nodes fresh base_size k zero = []
new_nodes fresh base_size k (suc count) =
    new_node fresh k base_size ∷ new_nodes fresh base_size (k + 1) count

-- `ceil(1.0 * size / m_baseSize)`.
abbrev pub ceil_div : ℕ → ℕ → ℕ
ceil_div a b = (a + b - 1) / b

-- Where the new blocks go: the first becomes current if no capacity was left, else `m_cur` stays.
unfoldable pub link_blocks : ℕ → List Node → ByteArray → ByteArray
link_blocks old_cap blocks s =
    if old_cap == 0
    then record s { passed = s.passed ++ s.ahead; ahead = blocks }
    else elim s.ahead [
      | [] ↦ record s { passed = s.passed ++ blocks }
      | n ∷ ns ↦ record s { ahead = (n ∷ ns) ++ blocks }
    ]

unfoldable pub add_capacity : ℕ → ByteArray → ByteArray
add_capacity wanted s =
    if wanted == 0 || leb wanted (get_capacity s)
    then s
    else let old_cap = get_capacity s in
      let count = ceil_div (wanted - old_cap) s.base_size in
      let blocks = new_nodes s.fresh s.base_size (length s.passed + length s.ahead) count in
      link_blocks old_cap blocks (record s { capacity = s.capacity + count * s.base_size })

-- The local variables that a loop moves: `m_position`, and `m_cur` between `passed` and `ahead`.
pub record Cursor : Type 0 where
  pub position : ℕ
  pub passed : List Node
  pub ahead : List Node

-- Past the last byte of its block the cursor is on the next one.
abbrev pub step_over : ℕ → List Node → Node → List Node → ℕ → Cursor
step_over pos passed n ns npos =
    if n.size == npos
    then record { position = pos; passed = passed ++ n ∷ []; ahead = ns }
    else record { position = pos; passed = passed; ahead = n ∷ ns }

-- The loop of `write`: `buf` is what is still to be written, `npos` the place in the block.
-- Each round moves to the next block or ends, so the recursion is on the blocks.
unfoldable pub write_loop : ℕ → List Node → List Node → ℕ → List ℕ → Option Cursor
write_loop pos passed ahead npos [] =
    some (record { position = pos; passed = passed; ahead = ahead })
write_loop pos passed [] npos (b ∷ bs) = none
write_loop pos passed (n ∷ ns) npos (b ∷ bs) =
    let ncap = sub_size n.size npos in
    let size = length (b ∷ bs) in
    elim (leb size ncap) [
      | true ↦ elim (copy_in n npos (b ∷ bs)) [
        | none ↦ none
        | some n' ↦ some (step_over (pos + size) passed n' ns (npos + size))
      ]
      | false ↦ elim (copy_in n npos (take ncap (b ∷ bs))) [
        | none ↦ none
        | some n' ↦ write_loop (pos + ncap) (passed ++ n' ∷ []) ns 0 (drop ncap (b ∷ bs))
      ]
    ]

abbrev pub at_cursor : Cursor → ByteArray → ByteArray
at_cursor c s = record s { position = c.position; passed = c.passed; ahead = c.ahead }

-- `if (m_position > m_size) m_size = m_position`.
abbrev pub grow_size : ByteArray → ByteArray
grow_size s = if ltb s.size s.position then record s { size = s.position } else s

-- `write(const void* buf, size_t size)`.
unfoldable pub write : List ℕ → Method (Unit {0})
write [] s = returns tt s
write (b ∷ bs) s =
    let t = add_capacity (length (b ∷ bs)) s in
    elim (write_loop t.position t.passed t.ahead (t.position % t.base_size) (b ∷ bs)) [
      | none ↦ faults
      | some c ↦ returns tt (grow_size (at_cursor c t))
    ]

-- The bytes of one round, before those of the later rounds.
unfoldable pub prepend : List ℕ → Option (List ℕ × Cursor) → Option (List ℕ × Cursor)
prepend bytes none = none
prepend bytes (some (rest, c)) = some (bytes ++ rest, c)

-- The loop of `read`: the bytes that it copies out, and the cursor behind them.
unfoldable pub read_loop : ℕ → List Node → List Node → ℕ → ℕ → Option (List ℕ × Cursor)
read_loop pos passed ahead npos zero =
    some ([], record { position = pos; passed = passed; ahead = ahead })
read_loop pos passed [] npos (suc k) = none
read_loop pos passed (n ∷ ns) npos (suc k) =
    let ncap = sub_size n.size npos in
    elim (leb (suc k) ncap) [
      | true ↦ elim (copy_out n npos (suc k)) [
        | none ↦ none
        | some bytes ↦ some (bytes, step_over (pos + suc k) passed n ns (npos + suc k))
      ]
      | false ↦ elim (copy_out n npos ncap) [
        | none ↦ none
        | some bytes ↦ prepend bytes (read_loop (pos + ncap) (passed ++ n ∷ []) ns 0 (suc k - ncap))
      ]
    ]

-- `m_cur->size` is read before the loop, also where nothing is to be read.
abbrev pub read_from : ℕ → ℕ → ByteArray → Option (List ℕ × Cursor)
read_from count pos s = elim s.ahead [
  | [] ↦ none
  | n ∷ ns ↦ read_loop pos s.passed (n ∷ ns) (pos % s.base_size) count
]

-- `read(void* buf, size_t size)`.
unfoldable pub read : ℕ → Method (List ℕ)
read count s =
    if ltb (get_read_size s) count then throws s else elim (read_from count s.position s) [
      | none ↦ faults
      | some (bytes, c) ↦ returns bytes (at_cursor c s)
    ]

-- `read(void* buf, size_t size, size_t position) const`: the loop starts at `m_cur`, and moves a copy.
unfoldable pub read_at : ℕ → ℕ → Method (List ℕ)
read_at count position s =
    if ltb (sub_size s.size position) count
    then throws s
    else elim (read_from count position s) [ none ↦ faults | some (bytes, c) ↦ returns bytes s ]

-- The loop of `setPosition`, from the root.
unfoldable pub seek : List Node → List Node → ℕ → Option (List Node × List Node)
seek passed [] v = none
seek passed (n ∷ ns) v =
    let further = seek (passed ++ n ∷ []) ns (v - n.size) in
    if ltb n.size v
    then further
    else if v == n.size
    then some (passed ++ n ∷ [], ns)
    else some (passed, n ∷ ns)

-- `setPosition`.
unfoldable pub set_position : ℕ → Method (Unit {0})
set_position v s = if ltb s.capacity v then throws s else elim (seek [] (s.passed ++ s.ahead) v) [
  | none ↦ faults
  | some (passed, ahead) ↦
      returns tt (record (grow_size (record s { position = v })) { passed = passed; ahead = ahead })
]

-- `clear`: every block but the root is freed.
unfoldable pub clear : Method (Unit {0})
clear s = elim (s.passed ++ s.ahead) [
  | [] ↦ faults
  | root ∷ others ↦
      returns tt (record s {
        position = 0;
        size = 0;
        capacity = s.base_size;
        passed = [];
        ahead = root ∷ [];
      })
]

-- `toString`: the bytes from the position on.
unfoldable pub to_string : Method (List ℕ)
to_string s = if get_read_size s == 0 then returns [] s else read_at (get_read_size s) s.position s
