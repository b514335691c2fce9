-- ===== src/ByteArray/Writes.antt =====
-- `write` of bytearray.cpp against the tape that the store stands for.
use sylar_windows.Prelude.{
  ℕ, ◌+◌, ◌-◌, ◌%◌, ◌≤◌, ◌≡◌, arith, List, [], ◌∷◌, length, take, ap, sym, ◌∙◌, refl, some, max,
}
use sylar_windows.Prelude.Slices.{
  splice, splice-nil, splice-append_right, take-splice_grow, take-splice_keep, take-append_left,
}
use native.Mathlib.Decide.{dec_le}
use sylar_windows.ByteArray.State.{ByteArray, returns}
use sylar_windows.ByteArray.Store.{Cursor, at_cursor, grow_size, write, write_loop, add_capacity}
use sylar_windows.ByteArray.Invariant.{
  flat, memory, IsValid, Lands, Lands-cast, Reaches, length-flat,
}
use sylar_windows.ByteArray.Loops.Writing.{write_loop-Reaches}
use sylar_windows.ByteArray.Capacity.{HasRoom, add_capacity-HasRoom}
use sylar_windows.ByteArray.View.{
  view, tape_write, Shows, length-memory, position-mod, Lands-IsValid,
}

-- The loop, from the state that `addCapacity` leaves.
pub write_loop-memory :
    (t : ByteArray) (buf : List ℕ)
    → IsValid t
    → t.position + length buf ≤ t.capacity
    → Reaches t.base_size
        (length t.passed + length t.ahead)
        (t.position + length buf)
        (t.position + length buf)
        (splice t.position buf (memory t))
        (write_loop t.position t.passed t.ahead (t.position % t.base_size) buf)
write_loop-memory t buf v h =
    let npos : ℕ = t.position % t.base_size in
    let (c, e, p, l) =
      write_loop-Reaches t.base_size t.position t.passed t.ahead npos buf v.passed_blocks
        v.ahead_blocks (omega (arith, position-mod t v)) (omega (arith, position-mod t v)) in
    (
      c,
      e,
      p,
      Lands-cast t.base_size _ _ _ _ _ _ c refl (omega (arith, position-mod t v))
          (sym (
            splice-append_right t.position npos buf (flat t.passed) (flat t.ahead)
              (omega (arith, position-mod t v, length-flat t.base_size t.passed v.passed_blocks))))
          l,
    )

-- The size after the write, and the bytes up to it.
pub written_bytes :
    (position size : ℕ) (buf mem : List ℕ)
    → position ≤ size
    → size ≤ length mem
    → position + length buf ≤ length mem
    → take (max size (position + length buf)) (splice position buf mem)
      ≡ splice position buf (take size mem)
written_bytes position size buf mem h k l = elim (dec_le size (position + length buf)) [
  | yes grows ↦
      ap (λ n. take n (splice position buf mem)) {x = max size (position + length buf)}
        {y = position + length buf} (omega arith)
      ∙ take-splice_grow position size buf mem h grows l
  | no keeps ↦
      ap (λ n. take n (splice position buf mem)) {x = max size (position + length buf)} {y = end}
        (omega arith)
      ∙ take-splice_keep position (size - (position + length buf)) buf mem (omega arith)
      ∙ ap (λ n. splice position buf (take n mem)) {x = end} {y = size} (omega arith)
]
  where
    end : ℕ
    end = position + length buf + (size - (position + length buf))

pub grow_size-max : (s : ByteArray) → grow_size s ≡ record s { size = max s.size s.position }
grow_size-max s = ground arith

-- What the loop has written is seen, once the size is brought up to the position.
pub landed-Shows :
    (s t : ByteArray) (buf : List ℕ) (c : Cursor)
    → IsValid s
    → HasRoom (length buf) s t
    → c.position ≡ t.position + length buf
    → Lands t.base_size
        (length t.passed + length t.ahead)
        (t.position + length buf)
        (splice t.position buf (memory t))
        c
    → Shows s (tape_write buf (view s)) (record (at_cursor c t) { size = max t.size c.position })
landed-Shows s t buf c v r p l = record {
  valid =
      Lands-IsValid t c (t.position + length buf) (max t.size c.position) _ r.valid l p
        (omega arith) (omega (arith, r.room, r.same_position, r.valid.size_capacity));
  bytes =
      ap (take (max t.size c.position)) l.bytes
      ∙ ap (λ n. take n (splice t.position buf (memory t))) {x = max t.size c.position}
          {y = max t.size (t.position + length buf)} (omega arith)
      ∙ written_bytes t.position t.size buf (memory t) r.valid.position_size
          (omega (arith, length-memory t r.valid, r.valid.size_capacity))
          (omega (arith, length-memory t r.valid, r.room, r.same_position))
      ∙ ap (λ n. splice n buf (take t.size (memory t))) r.same_position
      ∙ ap (λ n. splice s.position buf (take n (memory t))) r.same_size
      ∙ ap (λ m. splice s.position buf (take s.size m)) r.grown
      ∙ ap (splice s.position buf) (
          take-append_left s.size (memory s) r.extra
            (omega (arith, length-memory s v, v.size_capacity)));
  position = omega (arith, r.same_position);
  base_size = r.same_base;
  endian = r.same_endian;
  byte_order = r.same_order;
}

write_cons :
    (b : ℕ) (bs : List ℕ) (s : ByteArray) (c : Cursor)
    → let t = add_capacity (length (b ∷ bs)) s in
      write_loop t.position t.passed t.ahead (t.position % t.base_size) (b ∷ bs) ≡ some c
      → write (b ∷ bs) s ≡ returns tt (record (at_cursor c t) { size = max t.size c.position })
unfolding write
write_cons b bs s c ec =
    rw (ec, write)
      (ap (returns tt) (grow_size-max (at_cursor c (add_capacity (length (b ∷ bs)) s))))

-- `write` never faults and never throws. The bytes from the position on are those of the buffer,
-- all others stay, the run grows as far as the buffer needs, and the position is behind it.
pub write-Shows :
    (buf : List ℕ) (s : ByteArray)
    → IsValid s
    → (t : ByteArray) × (write buf s ≡ returns tt t) × Shows s (tape_write buf (view s)) t
write-Shows [] s v = (
  s,
  unfold write in refl,
  record {
    valid = v;
    bytes = sym (splice-nil s.position (view s).bytes);
    position = omega arith;
    base_size = refl;
    endian = refl;
    byte_order = refl;
  },
)
write-Shows (b ∷ bs) s v =
    let r = add_capacity-HasRoom (length (b ∷ bs)) s v in
    let t = add_capacity (length (b ∷ bs)) s in
    let (c, e, p, l) =
      write_loop-memory t (b ∷ bs) r.valid (omega (arith, r.room, r.same_position)) in
    (_, write_cons b bs s c e, landed-Shows s t (b ∷ bs) c v r p l)
