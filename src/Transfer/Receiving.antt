-- ===== src/Transfer/Receiving.antt =====
-- What a read of a socket into a `ByteArray` leaves.
use sylar_windows.Prelude.Int.{pos}
use sylar_windows.Prelude.{
  ℕ, zero, suc, ◌+◌, ◌-◌, ◌%◌, ◌^◌, ◌≤◌, ◌<◌, ◌≡◌, arith, max, List, [], ◌∷◌, ◌++◌, length, take,
  drop, Bool, true, Option, none, some, ltb, ◌==◌, ap, sym, ◌∙◌, refl, subst, if-true, if-false,
  if-cases, leb, take-append-drop,
}
use sylar_windows.Prelude.Slices.{splice}
use sylar_windows.ByteArray.State.{ByteArray, Node, Outcome, returns, faults, after, pure, sub_size}
use sylar_windows.ByteArray.Store.{Cursor, at_cursor, grow_size, seek, set_position, add_capacity}
use sylar_windows.ByteArray.Invariant.{memory, IsValid, Lands}
use sylar_windows.ByteArray.View.{view, tape_write, Shows, position-mod}
use sylar_windows.ByteArray.Writes.{write_loop-memory, landed-Shows, grow_size-max}
use sylar_windows.ByteArray.Reads.{set_position-Shows}
use sylar_windows.ByteArray.Capacity.{HasRoom, add_capacity-HasRoom}
use sylar_windows.ByteArray.Buffers.{Buffer, buffers_loop, and_then, get_write_buffers, scatter}
use sylar_windows.ByteArray.Buffers.Gathering.{with_size-same}
use sylar_windows.ByteArray.Buffers.Scattering.{buffers_loop-Scatters}
use sylar_windows.Transfer.Loops.{Piece, piece}
use sylar_windows.Transfer.Arrays.{arrive, receive, read_array}

-- `setPosition` looks at the list of the blocks, not at where it was split.
abbrev settle : ℕ → ByteArray → Option (List Node × List Node) → Outcome (Unit {0})
settle v s none = faults
settle v s (some r) =
    returns tt (record (grow_size (record s { position = v })) { passed = r.0; ahead = r.1 })

abbrev in_blocks : ByteArray → List Node → List Node → ByteArray
in_blocks t passed ahead = record t { passed = passed; ahead = ahead }

set_position_settles :
    (v : ℕ) (s : ByteArray)
    → v ≤ s.capacity
    → set_position v s ≡ settle v s (seek [] (s.passed ++ s.ahead) v)
unfolding set_position
set_position_settles v s h =
    if-false (ltb s.capacity v) _ _ (ground arith) ∙ same (seek [] (s.passed ++ s.ahead) v)
  where
    same :
        (r : Option (List Node × List Node))
        → (elim r [
          | none ↦ faults
          | some (passed, ahead) ↦
              returns tt
                (record (grow_size (record s { position = v })) { passed = passed; ahead = ahead })
        ])
          ≡ settle v s r
    same none = refl
    same (some r) = refl

settle_same :
    (v q : ℕ) (t : ByteArray) (p a p' a' : List Node) (r : Option (List Node × List Node))
    → settle v (in_blocks t p a) r
      ≡ settle v (in_blocks (record t { position = q; size = max t.size v }) p' a') r
settle_same v q t p a p' a' none = refl
settle_same v q t p a p' a' (some r) =
    ap (λ (x : ByteArray). returns tt (record x { passed = r.0; ahead = r.1 }))
      (grow_size-max (record (in_blocks t p a) { position = v }))
    ∙ ap (λ n. returns tt (record t { position = v; size = n; passed = r.0; ahead = r.1 }))
        {x = max t.size v} {y = max (max t.size v) v} (omega arith)
    ∙ ap (λ (x : ByteArray). returns tt (record x { passed = r.0; ahead = r.1 }))
        (sym
          (grow_size-max (record t { position = v; size = max t.size v; passed = p'; ahead = a' })))

set_position_same :
    (v q : ℕ) (t : ByteArray) (p a p' a' : List Node)
    → v ≤ t.capacity
    → p ++ a ≡ p' ++ a'
    → set_position v (in_blocks t p a)
      ≡ set_position v (in_blocks (record t { position = q; size = max t.size v }) p' a')
set_position_same v q t p a p' a' h e =
    set_position_settles v (in_blocks t p a) h
    ∙ ap (λ l. settle v (in_blocks t p a) (seek [] l v)) e
    ∙ settle_same v q t p a p' a' (seek [] (p' ++ a') v)
    ∙ sym (
        set_position_settles v (in_blocks (record t { position = q; size = max t.size v }) p' a') h)

-- There are buffers where there are bytes to receive.
abbrev pub HasSome : Option (List Buffer) → Type 0
HasSome none = Unit
HasSome (some bs) = 0 < length bs

and_then-HasSome : (b : Buffer) (r : Option (List Buffer)) → HasSome (and_then b r)
and_then-HasSome b none = tt
and_then-HasSome b (some bs) = omega arith

pub buffers_loop-HasSome :
    (k : ℕ) (ahead : List Node) (npos len : ℕ) → 0 < len → HasSome (buffers_loop k ahead npos len)
unfolding buffers_loop
buffers_loop-HasSome k ahead npos zero h = absurd (omega arith)
buffers_loop-HasSome k [] npos (suc l) h = tt
buffers_loop-HasSome k (n ∷ ns) npos (suc l) h =
    if-cases HasSome (leb (suc l) (sub_size n.size npos)) _ _ (λ e. omega arith)
      (λ e. and_then-HasSome _ (buffers_loop (k + 1) ns 0 (suc l - sub_size n.size npos)))

pub receive-some {ℓ} :
    {W : Type ℓ} (connected : W → Bool) (recv : ℕ → W → Piece × W) (bs : List Buffer) (size : ℕ)
    (w : W) (s : ByteArray)
    → HasSome (some bs)
    → receive connected recv (some (bs, size)) w s
      ≡ arrive connected bs (recv size w).0 (recv size w).1 s
receive-some connected recv [] size w s h = absurd (omega arith)
receive-some connected recv (b ∷ bs) size w s h = refl

pub write_buffers :
    (len : ℕ) (s : ByteArray) (bs : List Buffer)
    → 0 < len
    → IsValid (add_capacity len s)
    → (add_capacity len s).base_size < 2 ^ 32
    → let t = add_capacity len s in
      buffers_loop (length t.passed) t.ahead (t.position % t.base_size) len ≡ some bs
      → get_write_buffers len s ≡ (some (bs, len), add_capacity len s)
unfolding get_write_buffers
write_buffers len s bs h v small e =
    let t : ByteArray = add_capacity len s in
    if-false (len == 0) _ _ (ground arith)
    ∙ ap (λ r. (r, add_capacity len s))
        (with_size-same t.base_size len (length t.passed) t.ahead (t.position % t.base_size) len bs
          small v.ahead_blocks (omega (arith, position-mod t v, v.low, v.high)) e)

-- The position behind what was received, and the cursor on its block.
placed :
    (s t : ByteArray) (buf : List ℕ) (c : Cursor) (nodes : List Node)
    → IsValid s
    → HasRoom (length buf) s t
    → c.position ≡ t.position + length buf
    → Lands t.base_size
        (length t.passed + length t.ahead)
        (t.position + length buf)
        (splice t.position buf (memory t))
        c
    → nodes ≡ c.passed ++ c.ahead
    → (t' : ByteArray) × (set_position
          (t.position + length buf)
          (in_blocks t (take (length t.passed) nodes) (drop (length t.passed) nodes))
        ≡ returns tt t')
      × Shows s (tape_write buf (view s)) t'
placed s t buf c nodes v r p l e =
    let h = landed-Shows s t buf c v r p l in
    let k : c.position ≤ t.capacity = omega (arith, p, r.room, r.same_position) in
    let x : ByteArray = record (at_cursor c t) { size = max t.size c.position } in
    let (t', f, g) = set_position-Shows c.position x h.valid k in
    (
      t',
      ap
            (λ n.
              set_position n
                (in_blocks t (take (length t.passed) nodes) (drop (length t.passed) nodes)))
            (sym p)
          ∙ set_position_same c.position c.position t _ _ c.passed c.ahead k
              (take-append-drop (length t.passed) nodes ∙ e)
          ∙ f,
      record {
        valid = g.valid;
        bytes =
            g.bytes
            ∙ ap (λ n. take n (memory x)) {x = max x.size c.position} {y = x.size} (omega arith)
            ∙ h.bytes;
        position = g.position ∙ h.position;
        base_size = g.base_size ∙ h.base_size;
        endian = g.endian ∙ h.endian;
        byte_order = g.byte_order ∙ h.byte_order;
      },
    )

-- Room for more is room for less.
HasRoom-less : (m n : ℕ) (s t : ByteArray) → m ≤ n → HasRoom n s t → HasRoom m s t
HasRoom-less m n s t h r = record {
  valid = r.valid;
  room = omega (arith, r.room);
  same_position = r.same_position;
  same_size = r.same_size;
  same_base = r.same_base;
  same_endian = r.same_endian;
  same_order = r.same_order;
  extra = r.extra;
  grown = r.grown;
}

abbrev or_else : Cursor → Option Cursor → Cursor
or_else c none = c
or_else c (some d) = d

-- `SocketStream::read` into a `ByteArray`, on blocks of fewer than 2^32 bytes, of a socket that is
-- connected and gives bytes, at most as many
-- as were asked for: it returns their number, and they stand in the array as if `write` had written
-- them, whatever room was made for more.
pub read_array-Shows {ℓ} :
    {W : Type ℓ} (connected : W → Bool) (recv : ℕ → W → Piece × W) (len : ℕ) (w w' : W)
    (s : ByteArray) (b : ℕ) (bytes : List ℕ)
    → IsValid s
    → s.base_size < 2 ^ 32
    → connected w ≡ true
    → recv len w ≡ (piece (b ∷ bytes), w')
    → length (b ∷ bytes) ≤ len
    → (t : ByteArray) × (read_array connected recv len w s
        ≡ returns (pos (length (b ∷ bytes)), w') t)
      × Shows s (tape_write (b ∷ bytes) (view s)) t
unfolding read_array
read_array-Shows connected recv len w w' s b bytes v small o a h =
    let r = add_capacity-HasRoom len s v in
    let t : ByteArray = add_capacity len s in
    let (bs, c, e, f, g) =
      buffers_loop-Scatters t.base_size t.position t.passed t.ahead (t.position % t.base_size) len
        (b ∷ bytes) r.valid.ahead_blocks
        (omega (arith, position-mod t r.valid, r.valid.low, r.valid.high)) h
        (omega
          (arith, position-mod t r.valid, r.room, r.same_position, r.valid.cap, r.valid.low)) in
    let (d, e', p, l) =
      write_loop-memory t (b ∷ bytes) r.valid (omega (arith, r.room, r.same_position)) in
    let q : c ≡ d = ap (or_else c) (sym f ∙ e') in
    let (t', i, j) =
      placed s t (b ∷ bytes) d (scatter (b ∷ bytes) bs (t.passed ++ t.ahead)) v
        (HasRoom-less (length (b ∷ bytes)) len s t h r) p l
        (g ∙ ap (λ (c : Cursor). c.passed ++ c.ahead) q) in
    (
      t',
      if-true (connected w) _ _ o
          ∙ ap (λ r. receive connected recv r.0 w r.1)
              (write_buffers len s bs (omega arith) r.valid (omega (arith, r.same_base)) e)
          ∙ receive-some connected recv bs len w t (
              subst HasSome e (
                buffers_loop-HasSome (length t.passed) t.ahead (t.position % t.base_size) len
                  (omega arith)))
          ∙ ap (λ r. arrive connected bs r.0 r.1 t) a
          ∙ ap (λ o. after o (λ _. pure (pos (length (b ∷ bytes)), w'))) i,
      j,
    )
