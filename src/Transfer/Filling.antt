-- ===== src/Transfer/Filling.antt =====
-- `readFixSize(ByteArray, length)` ends, and the array has what the peer has sent.
use sylar_windows.Prelude.Int.{ℤ, pos, negsuc}
use sylar_windows.Prelude.{
  ℕ, zero, suc, ◌-◌, ◌%◌, ◌^◌, ◌≤◌, ◌<◌, ◌≡◌, ◌⊎◌, inl, inr, arith, min, List, [], ◌∷◌, ◌++◌,
  length, take, Bool, true, Option, some, ap, sym, ◌∙◌, refl, subst, if-true, if-false, Bool-cases,
  length-append,
}
use mathlib.Core.List.{append_assoc, append-nil}
use sylar_windows.Prelude.Slices.{take-append_left}
use sylar_windows.ByteArray.State.{ByteArray, Outcome, returns, Method}
use sylar_windows.ByteArray.Store.{add_capacity}
use sylar_windows.ByteArray.Invariant.{memory, IsValid}
use sylar_windows.ByteArray.View.{position-mod, length-memory}
use sylar_windows.ByteArray.Capacity.{HasRoom, add_capacity-HasRoom}
use sylar_windows.ByteArray.Codec.{Appends, Appends-trans, Shows-Appends}
use sylar_windows.ByteArray.Buffers.{Buffer}
use sylar_windows.ByteArray.Buffers.Gathering.{buffers_loop-Gathers}
use sylar_windows.Transfer.Loops.{Piece, piece, refused, bytes_of, as_int}
use sylar_windows.Transfer.Complete.{IsFailure, as_int-pos, as_left-same}
use sylar_windows.Transfer.Arrays.{
  arrive, receive, read_array, after_move, move_fix_loop, read_fix_array,
}
use sylar_windows.Transfer.Receiving.{
  HasSome, buffers_loop-HasSome, receive-some, write_buffers, read_array-Shows,
}

-- The number that a read returns is that of the bytes, or negative without any.
abbrev pub IsCount : ℤ → List ℕ → Type 0
IsCount (pos n) bytes = n ≡ length bytes
IsCount (negsuc k) bytes = bytes ≡ []

stay-Appends : (s : ByteArray) → IsValid s → s.position ≡ s.size → Appends s [] s
stay-Appends s v e = record {
  valid = v;
  at_end = e;
  bytes = sym (append-nil _);
  order = refl;
  base = refl;
}

module _ {ℓ} {W : Type ℓ} (pending : W → List ℕ) where
  -- A read returns, and the next bytes of the peer are behind those of the array.
  abbrev pub Moves : ℕ → W → ByteArray → Outcome (ℤ × W) → Type ℓ
  Moves n w s o =
      (code : ℤ) × (w' : W) × (t : ByteArray) × (bytes : List ℕ) × (o ≡ returns (code, w') t)
      × (pending w ≡ bytes ++ pending w')
      × Appends s bytes t
      × (length bytes ≤ n)
      × IsCount code bytes

  -- The loop returns, either with all of the bytes or with a failure and fewer.
  abbrev pub Fills : ℕ → ℕ → W → ByteArray → Option (Outcome (ℤ × W)) → Type ℓ
  Fills total left w s o =
      (code : ℤ) × (w' : W) × (t : ByteArray) × (bytes : List ℕ) × (o ≡ some (returns (code, w') t))
      × (pending w ≡ bytes ++ pending w')
      × Appends s bytes t
      × (((code ≡ as_int total) × (length bytes ≡ left)) ⊎ (IsFailure code × (length bytes < left)))

  module _ (max_len total : ℕ) (some_len : 0 < max_len) (move : ℕ → W → Method (ℤ × W))
      (moves : (n : ℕ) (w : W) (s : ByteArray)
        → 0 < n
        → IsValid s
        → s.base_size < 2 ^ 32
        → s.position ≡ s.size
        → Moves n w s (move n w s)) where
    goes_on :
        (left : ℕ) (w w' : W) (s t : ByteArray) (front : List ℕ) (o : Option (Outcome (ℤ × W)))
        → pending w ≡ front ++ pending w'
        → Appends s front t
        → length front ≤ left
        → Fills total (left - length front) w' t o
        → Fills total left w s o
    goes_on left w w' s t front o e a h (code, w'', u, bytes, q, f, b, r) = (
      code,
      w'',
      u,
      front ++ bytes,
      q,
      e ∙ ap (front ++◌) f ∙ sym (append_assoc front bytes (pending w'')),
      Appends-trans s t u front bytes a b,
      elim r [
        | inl c ↦ inl (c.0, omega (arith, length-append front bytes, c.1))
        | inr c ↦ inr (c.0, omega (arith, length-append front bytes, c.1))
      ],
    )

    -- A round, where the rounds behind it fill what is left.
    round :
        (left : ℕ) (w w' : W) (s t : ByteArray) (bytes : List ℕ) (code : ℤ)
        (rest : ℕ → W → ByteArray → Option (Outcome (ℤ × W)))
        → ((m : ℕ) (w : W) (t : ByteArray)
            → IsValid t
            → t.base_size < 2 ^ 32
            → t.position ≡ t.size
            → Fills total (suc left - suc m) w t (rest (suc m) w t))
        → s.base_size < 2 ^ 32
        → pending w ≡ bytes ++ pending w'
        → Appends s bytes t
        → length bytes ≤ suc left
        → IsCount code bytes
        → Fills total (suc left) w s (after_move max_len total move (returns (code, w') t) rest)
    round left w w' s t bytes (pos zero) rest next small f a k c =
        (pos 0, w', t, bytes, refl, f, a, inr (refl, omega (arith, c)))
    round left w w' s t bytes (pos (suc m)) rest next small f a k c =
        goes_on (suc left) w w' s t bytes _ f a k (
          subst (λ n. Fills total (suc left - n) w' t (rest (suc m) w' t)) c
            (next m w' t a.valid (omega (arith, a.base, small)) a.at_end))
    round left w w' s t bytes (negsuc j) rest next small f a k c =
        (negsuc j, w', t, bytes, refl, f, a, inr (tt, omega (arith, ap length c)))

    pub loop-Fills :
        (fuel left : ℕ) (w : W) (s : ByteArray)
        → left < fuel
        → IsValid s
        → s.base_size < 2 ^ 32
        → s.position ≡ s.size
        → Fills total left w s (move_fix_loop max_len total move fuel left w s)
    unfolding move_fix_loop
    loop-Fills zero left w s h v small e = absurd (omega arith)
    loop-Fills (suc fuel) zero w s h v small e =
        (as_int total, w, s, [], refl, refl, stay-Appends s v e, inl (refl, refl))
    loop-Fills (suc fuel) (suc left) w s h v small e =
        let (code, w', t, bytes, q, f, a, k, c) =
          moves (min (suc left) max_len) w s (omega arith) v small e in
        let rest : ℕ → W → ByteArray → Option (Outcome (ℤ × W)) =
          λ n w s. move_fix_loop max_len total move fuel (suc left - n) w s in
        subst (λ o. Fills total (suc left) w s (after_move max_len total move o rest)) (sym q)
          (round left w w' s t bytes code rest
            (λ m w t v small e. loop-Fills fuel (suc left - suc m) w t (omega arith) v small e)
            small f a (omega (arith, k)) c)

-- A read that brings nothing leaves the array as it shows itself.
HasRoom-Appends :
    (n : ℕ) (s t : ByteArray) → IsValid s → s.position ≡ s.size → HasRoom n s t → Appends s [] t
HasRoom-Appends n s t v e r = record {
  valid = r.valid;
  at_end = r.same_position ∙ e ∙ sym r.same_size;
  bytes =
      ap (λ k. take k (memory t)) r.same_size
      ∙ ap (take s.size) r.grown
      ∙ take-append_left s.size (memory s) r.extra
          (omega (arith, length-memory s v, v.size_capacity))
      ∙ sym (append-nil _);
  order = rw (r.same_endian, r.same_order) refl;
  base = r.same_base;
}

-- `read_array` up to what the socket gives.
read_array_arrives {ℓ} :
    {W : Type ℓ} (connected : W → Bool) (recv : ℕ → W → Piece × W) (len : ℕ) (w : W) (s : ByteArray)
    → IsValid s
    → s.base_size < 2 ^ 32
    → connected w ≡ true
    → 0 < len
    → (bs : List Buffer) × (read_array connected recv len w s
        ≡ arrive connected bs (recv len w).0 (recv len w).1 (add_capacity len s))
unfolding read_array
read_array_arrives connected recv len w s v small o h =
    let r = add_capacity-HasRoom len s v in
    let t : ByteArray = add_capacity len s in
    let (bs, e, g) =
      buffers_loop-Gathers t.base_size t.passed t.ahead (t.position % t.base_size) len
        r.valid.ahead_blocks (omega (arith, position-mod t r.valid, r.valid.low, r.valid.high))
        (omega
          (arith, position-mod t r.valid, r.room, r.same_position, r.valid.cap, r.valid.low)) in
    (
      bs,
      if-true (connected w) _ _ o
          ∙ ap (λ r. receive connected recv r.0 w r.1)
              (write_buffers len s bs h r.valid (omega (arith, r.same_base)) e)
          ∙ receive-some connected recv bs len w t (
              subst HasSome e
                (buffers_loop-HasSome (length t.passed) t.ahead (t.position % t.base_size) len h)),
    )

module _ {ℓ} {W : Type ℓ} (connected : W → Bool) (recv : ℕ → W → Piece × W) (pending : W → List ℕ)
    (gives : (n : ℕ) (w : W)
      → (length (bytes_of (recv n w).0) ≤ n)
        × (pending w ≡ bytes_of (recv n w).0 ++ pending (recv n w).1)) where
  -- Each end of a read.
  given :
      (len : ℕ) (w w' : W) (s : ByteArray) (p : Piece)
      → IsValid s
      → s.base_size < 2 ^ 32
      → s.position ≡ s.size
      → connected w ≡ true
      → 0 < len
      → recv len w ≡ (p, w')
      → length (bytes_of p) ≤ len
      → pending w ≡ bytes_of p ++ pending w'
      → Moves pending len w s (read_array connected recv len w s)
  given len w w' s (refused k) v small e o h r l f =
      let (bs, q) = read_array_arrives connected recv len w s v small o h in
      (
        negsuc k,
        w',
        add_capacity len s,
        [],
        q ∙ ap (λ r. arrive connected bs r.0 r.1 (add_capacity len s)) r,
        f,
        HasRoom-Appends len s _ v e (add_capacity-HasRoom len s v),
        omega arith,
        refl,
      )
  given len w w' s (piece []) v small e o h r l f =
      let (bs, q) = read_array_arrives connected recv len w s v small o h in
      (
        pos 0,
        w',
        add_capacity len s,
        [],
        q ∙ ap (λ r. arrive connected bs r.0 r.1 (add_capacity len s)) r,
        f,
        HasRoom-Appends len s _ v e (add_capacity-HasRoom len s v),
        omega arith,
        refl,
      )
  given len w w' s (piece (b ∷ bytes)) v small e o h r l f =
      let (t, q, a) = read_array-Shows connected recv len w w' s b bytes v small o r l in
      (
        pos (length (b ∷ bytes)),
        w',
        t,
        b ∷ bytes,
        q,
        f,
        Shows-Appends s t (b ∷ bytes) v e a,
        l,
        refl,
      )

  read_array-Moves :
      (len : ℕ) (w : W) (s : ByteArray)
      → 0 < len
      → IsValid s
      → s.base_size < 2 ^ 32
      → s.position ≡ s.size
      → Moves pending len w s (read_array connected recv len w s)
  read_array-Moves len w s h v small e = elim (Bool-cases (connected w)) [
    | inl o ↦
        given len w (recv len w).1 s (recv len w).0 v small e o h refl (gives len w).0
          (gives len w).1
    | inr o ↦ (
      negsuc 0,
      w,
      s,
      [],
      unfold read_array in if-false (connected w) _ _ o,
      refl,
      stay-Appends s v e,
      omega arith,
      refl,
    )
  ]

-- `readFixSize(ByteArray, length)` of fewer than 2^31 bytes ends on every socket that gives at most what was
-- asked for, and the next bytes that the peer has sent, into an array of blocks of fewer than 2^32 bytes
-- whose position is at its end: it returns the length, with that many bytes appended to the array, or a
-- number that is not positive, with fewer; in both cases they are the next bytes of the peer, nothing is
-- thrown and the array is kept valid.
pub read_fix_array-Fills {ℓ} :
    {W : Type ℓ} (max_len total : ℕ) (connected : W → Bool) (recv : ℕ → W → Piece × W)
    (pending : W → List ℕ) (w : W) (s : ByteArray)
    → ((n : ℕ) (w : W)
        → (length (bytes_of (recv n w).0) ≤ n)
          × (pending w ≡ bytes_of (recv n w).0 ++ pending (recv n w).1))
    → total < 2 ^ 31
    → 0 < max_len
    → IsValid s
    → s.base_size < 2 ^ 32
    → s.position ≡ s.size
    → Fills pending total total w s (read_fix_array max_len connected recv total w s)
unfolding read_fix_array
read_fix_array-Fills max_len total connected recv pending w s gives k h v small e =
    subst
      (λ left.
        Fills pending total total w s
          (move_fix_loop max_len total (read_array connected recv) (suc total) left w s))
      (sym (as_left-same total k))
      (loop-Fills pending max_len total h (read_array connected recv)
        (λ n w s k v small e. read_array-Moves connected recv pending gives n w s k v small e)
        (suc total) total w s (omega arith) v small e)

-- The number that is returned then.
pub Fills-pos {ℓ} :
    {W : Type ℓ} (pending : W → List ℕ) (total left : ℕ) (w : W) (s : ByteArray)
    (o : Option (Outcome (ℤ × W)))
    → total < 2 ^ 31
    → Fills pending total left w s o
    → (code : ℤ) × (w' : W) × (t : ByteArray) × (bytes : List ℕ) × (o ≡ some (returns (code, w') t))
      × (pending w ≡ bytes ++ pending w')
      × Appends s bytes t
      × (((code ≡ pos total) × (length bytes ≡ left)) ⊎ (IsFailure code × (length bytes < left)))
Fills-pos pending total left w s o h (code, w', t, bytes, q, f, a, r) = (
  code,
  w',
  t,
  bytes,
  q,
  f,
  a,
  elim r [ inl c ↦ inl (c.0 ∙ as_int-pos total h, c.1) | inr c ↦ inr c ],
)
