-- ===== src/ByteArray/Reads.antt =====
-- `read`, `setPosition`, `clear` and `toString` of bytearray.cpp against the tape.
use sylar_windows.Prelude.{
  ℕ, ◌+◌, ◌-◌, ◌%◌, ◌≤◌, ◌<◌, ◌≡◌, arith, List, [], ◌++◌, length, take, drop, ap, sym, ◌∙◌, refl,
  some, max, length-append, length-drop, All-append,
}
use sylar_windows.Prelude.Slices.{drop-append_right, drop-take, take-take, take-all, drop-all}
use native.Mathlib.Decide.{dec_le}
use sylar_windows.ByteArray.State.{ByteArray, Node, returns, throws, faults}
use sylar_windows.ByteArray.Store.{
  Cursor, at_cursor, read, read_from, read_at, read_loop, seek, set_position, to_string,
}
use sylar_windows.ByteArray.Invariant.{
  IsBlock, flat-append, flat, memory, IsValid, Lands, Lands-cast, length-flat,
}
use sylar_windows.ByteArray.Loops.Reading.{read_loop-Reads, Reads, seek-Lands}
use sylar_windows.ByteArray.Capacity.{ahead-cons, ahead-nil}
use sylar_windows.ByteArray.View.{
  view, unread, tape_skip, Shows, length-view, position-mod, Lands-IsValid,
}

-- What the blocks from the current one on hold, up to the size.
pub ahead-unread :
    (s : ByteArray) (count : ℕ)
    → IsValid s
    → s.position + count ≤ s.size
    → take count (drop (s.position % s.base_size) (flat s.ahead)) ≡ take count (unread (view s))
ahead-unread s count v h = sym (
    ap (λ n. take count (drop s.position (take n (memory s)))) {x = s.size} {y = s.position + rest}
      (omega arith)
    ∙ ap (take count) (drop-take s.position rest (memory s))
    ∙ take-take count rest (drop s.position (memory s)) (omega arith)
    ∙ ap (take count) (
        drop-append_right s.position (s.position % s.base_size) (flat s.passed) (flat s.ahead)
          (omega (arith, position-mod s v, length-flat s.base_size s.passed v.passed_blocks))))
  where
    rest : ℕ
    rest = s.size - s.position

-- The loop of `read`, from the current position.
read_loop-unread :
    (s : ByteArray) (count : ℕ)
    → IsValid s
    → s.position + count ≤ s.size
    → Reads s.base_size
        (length s.passed + length s.ahead)
        (s.position + count)
        (s.position + count)
        (memory s)
        (take count (unread (view s)))
        (read_loop s.position s.passed s.ahead (s.position % s.base_size) count)
read_loop-unread s count v h =
    let npos : ℕ = s.position % s.base_size in
    let (c, e, p, l) =
      read_loop-Reads s.base_size s.position s.passed s.ahead npos count v.passed_blocks
        v.ahead_blocks (omega (arith, position-mod s v)) (omega (arith, position-mod s v)) in
    (
      c,
      e ∙ ap (λ (b : List ℕ). some (b, c)) (ahead-unread s count v h),
      p,
      Lands-cast s.base_size _ _ _ _ _ _ c refl (omega (arith, position-mod s v)) refl l,
    )

read_from_loop :
    (s : ByteArray) (count pos : ℕ)
    → IsValid s
    → s.position < s.capacity
    → read_from count pos s ≡ read_loop pos s.passed s.ahead (pos % s.base_size) count
read_from_loop s count pos v h = let (n, ns, e) = ahead-cons s v h in ground (arith, e)

read_returns :
    (s : ByteArray) (count : ℕ) (bytes : List ℕ) (c : Cursor)
    → s.position + count ≤ s.size
    → read_from count s.position s ≡ some (bytes, c)
    → read count s ≡ returns bytes (at_cursor c s)
unfolding read
read_returns s count bytes c h e = ground arith

-- What a read leaves: the same bytes, and the position behind those that it took.
read-landed :
    (s : ByteArray) (count : ℕ) (c : Cursor)
    → IsValid s
    → s.position + count ≤ s.size
    → c.position ≡ s.position + count
    → Lands s.base_size (length s.passed + length s.ahead) (s.position + count) (memory s) c
    → Shows s (tape_skip count (view s)) (at_cursor c s)
read-landed s count c v h p l = record {
  valid = Lands-IsValid s c (s.position + count) s.size (memory s) v l p h v.size_capacity;
  bytes = ap (take s.size) l.bytes;
  position = p;
  base_size = refl;
  endian = refl;
  byte_order = refl;
}

-- `read(size)` with that many bytes unread, and a current block: it returns them, moves the
-- position over them, and changes neither a byte nor the capacity.
pub read-Shows :
    (count : ℕ) (s : ByteArray)
    → IsValid s
    → s.position + count ≤ s.size
    → s.position < s.capacity
    → (t : ByteArray) × (read count s ≡ returns (take count (unread (view s))) t)
      × Shows s (tape_skip count (view s)) t
      × (t.capacity ≡ s.capacity)
read-Shows count s v h k =
    let (c, e, p, l) = read_loop-unread s count v h in
    (
      at_cursor c s,
      read_returns s count _ c h (read_from_loop s count s.position v k ∙ e),
      read-landed s count c v h p l,
      refl,
    )

-- With fewer bytes unread it throws, and the store is as it was.
pub read_throws :
    (count : ℕ) (s : ByteArray) → IsValid s → s.size < s.position + count → read count s ≡ throws s
unfolding read
read_throws count s v h = ground arith

-- Reading nothing at the end of a store that is filled up to the last block reads through a null
-- pointer: `m_cur` is null there, and `read` looks at `m_cur->size` before its loop.
pub read_zero_faults : (s : ByteArray) → IsValid s → s.position ≡ s.capacity → read 0 s ≡ faults
unfolding read
read_zero_faults s v h = ground (arith, ahead-nil s v (omega arith))

set_position_returns :
    (v : ℕ) (s : ByteArray) (passed ahead : List Node)
    → v ≤ s.capacity
    → seek [] (s.passed ++ s.ahead) v ≡ some (passed, ahead)
    → set_position v s
      ≡ returns tt (record s { position = v; size = max s.size v; passed = passed; ahead = ahead })
unfolding set_position
set_position_returns v s passed ahead h e = ground arith

-- `setPosition(v)` within the capacity: it ends without a fault, with the position at `v` and the
-- cursor on its block. The bytes up to the size stay; a size below `v` becomes `v`.
pub set_position-Shows :
    (v : ℕ) (s : ByteArray)
    → IsValid s
    → v ≤ s.capacity
    → (t : ByteArray) × (set_position v s ≡ returns tt t)
      × Shows s (record { bytes = take (max s.size v) (memory s); position = v }) t
set_position-Shows v s i h =
    let (p, a, e, l) =
      seek-Lands s.base_size v [] (s.passed ++ s.ahead) v tt
        (All-append (IsBlock s.base_size) s.passed s.ahead i.passed_blocks i.ahead_blocks)
        i.base_pos (omega (arith, length-append s.passed s.ahead, i.rooted))
        (rw length-append (omega arith)) in
    (
      _,
      set_position_returns v s p a h e,
      sought v s p a i h (
          Lands-cast s.base_size _ _ _ _ _ _ _ (omega (arith, length-append s.passed s.ahead))
            (omega arith) (flat-append s.passed s.ahead) l),
    )
  where
    sought :
        (n : ℕ) (u : ByteArray) (p a : List Node)
        → IsValid u
        → n ≤ u.capacity
        → Lands u.base_size
            (length u.passed + length u.ahead)
            n
            (memory u)
            (record { position = n; passed = p; ahead = a })
        → Shows u
            (record { bytes = take (max u.size n) (memory u); position = n })
            (record u { position = n; size = max u.size n; passed = p; ahead = a })
    sought n u p a j k l = record {
      valid =
          Lands-IsValid u (record { position = n; passed = p; ahead = a }) n (max u.size n)
            (memory u) j l refl (omega arith) (omega (arith, j.size_capacity));
      bytes = ap (take (max u.size n)) l.bytes;
      position = refl;
      base_size = refl;
      endian = refl;
      byte_order = refl;
    }

-- Past the capacity it throws, and the store is as it was.
pub set_position_throws : (v : ℕ) (s : ByteArray) → s.capacity < v → set_position v s ≡ throws s
unfolding set_position
set_position_throws v s h = ground arith

to_string_nothing : (s : ByteArray) → s.position ≡ s.size → to_string s ≡ returns [] s
unfolding to_string
to_string_nothing s h = ground arith

to_string_reads :
    (s : ByteArray) (c : Cursor) (bytes : List ℕ)
    → s.position < s.size
    → s.position ≤ s.size
    → read_from (s.size - s.position) s.position s ≡ some (bytes, c)
    → to_string s ≡ returns bytes s
unfolding to_string read_at
to_string_reads s c bytes h k e = ground arith

-- `toString` returns what is unread, and leaves the store as it was.
pub to_string-unread : (s : ByteArray) → IsValid s → to_string s ≡ returns (unread (view s)) s
to_string-unread s v = elim (dec_le s.size s.position) [
  | yes h ↦
      to_string_nothing s (omega arith)
      ∙ ap (λ (b : List ℕ). returns b s)
          (sym (drop-all s.position (view s).bytes (omega (arith, length-view s v))))
  | no h ↦
      let (c, e, p, l) = read_loop-unread s (s.size - s.position) v (omega arith) in
      to_string_reads s c _ (omega arith) (omega arith)
        (read_from_loop s (s.size - s.position) s.position v (omega arith) ∙ e)
      ∙ ap (λ (b : List ℕ). returns b s)
          (take-all (s.size - s.position) (unread (view s))
            (omega (arith, length-drop s.position (view s).bytes, length-view s v)))
]
