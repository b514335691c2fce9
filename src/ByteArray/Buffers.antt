-- ===== src/ByteArray/Buffers.antt =====
-- `getReadBuffers` and `getWriteBuffers` of bytearray.cpp: the memory that Winsock sends from and
-- receives into.
pub mod Gathering
pub mod Scattering
use sylar_windows.Prelude.{
  ℕ, zero, suc, ◌+◌, ◌-◌, ◌/◌, ◌%◌, ◌^◌, map, List, [], ◌∷◌, ◌++◌, length, take, drop, Option, none,
  some, leb, ltb, ◌==◌, if◌then◌else◌,
}
use sylar_windows.Prelude.Slices.{splice}
use sylar_windows.ByteArray.State.{Node, ByteArray, sub_size, get_read_size}
use sylar_windows.ByteArray.Store.{add_capacity}

-- `WSABUF`: `len` bytes from `offset` on in the block with that number.
pub record Buffer : Type 0 where
  pub block : ℕ
  pub offset : ℕ
  pub len : ℕ

abbrev pub and_then : Buffer → Option (List Buffer) → Option (List Buffer)
and_then b none = none
and_then b (some bs) = some (b ∷ bs)

-- The loop that all of them have, `k` the number of the block `cur`, with lengths that are not cut to 32 bits
-- yet.
unfoldable pub buffers_loop : ℕ → List Node → ℕ → ℕ → Option (List Buffer)
buffers_loop k ahead npos zero = some []
buffers_loop k [] npos (suc l) = none
buffers_loop k (n ∷ ns) npos (suc l) =
    let ncap = sub_size n.size npos in
    let rest = buffers_loop (k + 1) ns 0 (suc l - ncap) in
    if leb (suc l) ncap
    then some (record { block = k; offset = npos; len = suc l } ∷ [])
    else and_then (record { block = k; offset = npos; len = ncap }) rest

-- `iov.len` is a `ULONG`, of 32 bits.
abbrev pub narrow : Buffer → Buffer
narrow b = record b { len = b.len % 2 ^ 32 }

abbrev pub with_size : ℕ → Option (List Buffer) → Option (List Buffer × ℕ)
with_size size none = none
with_size size (some bs) = some (map narrow bs, size)

-- `len > getReadSize() ? getReadSize() : len`.
abbrev pub bounded : ℕ → ByteArray → ℕ
bounded len s = if ltb (get_read_size s) len then get_read_size s else len

-- `none` is a fault, a step through a null pointer.
unfoldable pub get_read_buffers : ℕ → ByteArray → Option (List Buffer × ℕ)
get_read_buffers len s =
    let size = bounded len s in
    if size == 0
    then some ([], 0)
    else with_size size (buffers_loop (length s.passed) s.ahead (s.position % s.base_size) size)

-- `getReadBuffers(buffers, len, position)`, from the root on.
unfoldable pub get_read_buffers_at : ℕ → ℕ → ByteArray → Option (List Buffer × ℕ)
get_read_buffers_at len position s =
    let size = bounded len s in
    let count = position / s.base_size in
    if size == 0
    then some ([], 0)
    else with_size size
        (buffers_loop count (drop count (s.passed ++ s.ahead)) (position % s.base_size) size)

-- The buffers, and the store with the room for them.
unfoldable pub get_write_buffers : ℕ → ByteArray → Option (List Buffer × ℕ) × ByteArray
get_write_buffers len s =
    let t = add_capacity len s in
    if len == 0
    then (some ([], 0), s)
    else (with_size len (buffers_loop (length t.passed) t.ahead (t.position % t.base_size) len), t)

-- The memory of a block, and a change of it.
abbrev pub block_at : ℕ → List Node → List ℕ
block_at k [] = []
block_at zero (n ∷ ns) = n.mem
block_at (suc k) (n ∷ ns) = block_at k ns

abbrev pub change_block : ℕ → (List ℕ → List ℕ) → List Node → List Node
change_block k f [] = []
change_block zero f (n ∷ ns) = record n { mem = f n.mem } ∷ ns
change_block (suc k) f (n ∷ ns) = n ∷ change_block k f ns

-- What is sent from buffers, one after the other.
unfoldable pub gather : List Node → List Buffer → List ℕ
gather nodes [] = []
gather nodes (b ∷ bs) = take b.len (drop b.offset (block_at b.block nodes)) ++ gather nodes bs

-- Bytes that are received into buffers, one after the other.
unfoldable pub scatter : List ℕ → List Buffer → List Node → List Node
scatter bytes [] nodes = nodes
scatter bytes (b ∷ bs) nodes =
    scatter (drop b.len bytes) bs (change_block b.block (splice b.offset (take b.len bytes)) nodes)
