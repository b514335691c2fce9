-- ===== src/Transfer/Draining.antt =====
-- `writeFixSize(ByteArray, length)` ends, and the peer has what was unread.
use sylar_windows.Prelude.Int.{ℤ, pos, negsuc}
use sylar_windows.Prelude.{
  ℕ, zero, suc, ◌+◌, ◌-◌, ◌%◌, ◌^◌, ◌≤◌, ◌<◌, ◌≡◌, ◌⊎◌, inl, inr, arith, min, max, List, [], ◌∷◌,
  ◌++◌, length, take, drop, Bool, Option, none, some, ap, sym, ◌∙◌, refl, subst, ◌==◌, if-true,
  if-false, Bool-cases, length-take,
}
use mathlib.Core.List.{append_assoc, append-nil}
use sylar_windows.Prelude.Slices.{take-take, take-add, drop-drop}
use sylar_windows.ByteArray.State.{ByteArray, Outcome, returns, Method, after, pure}
use sylar_windows.ByteArray.Store.{set_position}
use sylar_windows.ByteArray.Invariant.{memory, IsValid}
use sylar_windows.ByteArray.View.{view, unread, tape_skip, Shows, length-view}
use sylar_windows.ByteArray.Reads.{set_position-Shows}
use sylar_windows.ByteArray.Buffers.{Buffer, bounded, get_read_buffers, gather, with_size}
use sylar_windows.ByteArray.Buffers.Gathering.{get_read_buffers-Holds}
use sylar_windows.Transfer.Loops.{Sent, sent, rejected, count_of, as_int}
use sylar_windows.Transfer.Complete.{IsFailure, as_left-same}
use sylar_windows.Transfer.Arrays.{
  depart, transmit, write_array, after_move, move_fix_loop, write_fix_array,
}
use sylar_windows.Transfer.Receiving.{HasSome, buffers_loop-HasSome}

abbrev pub IsCountOf : ℤ → ℕ → Type 0
IsCountOf (pos n) m = n ≡ m
IsCountOf (negsuc k) m = m ≡ 0

-- The position moves over what was sent.
skipped :
    (n : ℕ) (s : ByteArray)
    → IsValid s
    → s.position + n ≤ s.size
    → (t : ByteArray) × (set_position (s.position + n) s ≡ returns tt t)
      × Shows s (tape_skip n (view s)) t
skipped n s v h =
    let (t, e, r) = set_position-Shows (s.position + n) s v (omega (arith, v.size_capacity)) in
    (
      t,
      e,
      record {
        valid = r.valid;
        bytes =
            r.bytes
            ∙ ap (λ k. take k (memory s)) {x = max s.size (s.position + n)} {y = s.size}
                (omega arith);
        position = r.position;
        base_size = r.base_size;
        endian = r.endian;
        byte_order = r.byte_order;
      },
    )

at_zero : (s : ByteArray) → IsValid s → Shows s (tape_skip 0 (view s)) s
at_zero s v = record {
  valid = v;
  bytes = refl;
  position = omega arith;
  base_size = refl;
  endian = refl;
  byte_order = refl;
}

unread-skip :
    (n : ℕ) (s t : ByteArray)
    → Shows s (tape_skip n (view s)) t
    → unread (view t) ≡ drop n (unread (view s))
unread-skip n s t h =
    ap (drop t.position) h.bytes
    ∙ ap (λ k. drop k (view s).bytes) h.position
    ∙ sym (drop-drop n s.position (view s).bytes)

skip-skip :
    (m n : ℕ) (s t u : ByteArray)
    → Shows s (tape_skip m (view s)) t
    → Shows t (tape_skip n (view t)) u
    → Shows s (tape_skip (m + n) (view s)) u
skip-skip m n s t u h k = record {
  valid = k.valid;
  bytes = k.bytes ∙ h.bytes;
  position = omega (arith, k.position, h.position);
  base_size = k.base_size ∙ h.base_size;
  endian = k.endian ∙ h.endian;
  byte_order = k.byte_order ∙ h.byte_order;
}

module _ {ℓ} {W : Type ℓ} (taken : W → List ℕ) where
  -- A write returns, and the peer has the next `n` bytes of what was unread.
  abbrev pub Sends : ℕ → W → ByteArray → Outcome (ℤ × W) → Type ℓ
  Sends len w s o =
      (code : ℤ) × (w' : W) × (t : ByteArray) × (n : ℕ) × (o ≡ returns (code, w') t)
      × (taken w' ≡ taken w ++ take n (unread (view s)))
      × Shows s (tape_skip n (view s)) t
      × (n ≤ len)
      × IsCountOf code n

  -- The loop returns, either with all bytes sent or with a failure and fewer.
  abbrev pub Drains : ℕ → ℕ → W → ByteArray → Option (Outcome (ℤ × W)) → Type ℓ
  Drains total left w s o =
      (code : ℤ) × (w' : W) × (t : ByteArray) × (n : ℕ) × (o ≡ some (returns (code, w') t))
      × (taken w' ≡ taken w ++ take n (unread (view s)))
      × Shows s (tape_skip n (view s)) t
      × (((code ≡ as_int total) × (n ≡ left)) ⊎ (IsFailure code × (n < left)))

  none_sent : (w : W) (s : ByteArray) → taken w ≡ taken w ++ take 0 (unread (view s))
  none_sent w s = sym (append-nil (taken w))

  sends_on :
      (left m : ℕ) (w w' : W) (s t : ByteArray) (o : Option (Outcome (ℤ × W))) (total : ℕ)
      → taken w' ≡ taken w ++ take m (unread (view s))
      → Shows s (tape_skip m (view s)) t
      → m ≤ left
      → Drains total (left - m) w' t o
      → Drains total left w s o
  sends_on left m w w' s t o total e a h (code, w'', u, n, q, f, b, r) = (
    code,
    w'',
    u,
    m + n,
    q,
    f
        ∙ ap (◌++ take n (unread (view t))) e
        ∙ append_assoc (taken w) (take m (unread (view s))) (take n (unread (view t)))
        ∙ ap (λ l. taken w ++ (take m (unread (view s)) ++ take n l)) (unread-skip m s t a)
        ∙ ap (taken w ++◌) (sym (take-add m n (unread (view s)))),
    skip-skip m n s t u a b,
    elim r [ inl c ↦ inl (c.0, omega (arith, c.1)) | inr c ↦ inr (c.0, omega (arith, c.1)) ],
  )

  module _ (max_len total : ℕ) (some_len : 0 < max_len) (move : ℕ → W → Method (ℤ × W))
      (sends : (n : ℕ) (w : W) (s : ByteArray)
        → 0 < n
        → IsValid s
        → s.base_size < 2 ^ 32
        → s.position + n ≤ s.size
        → Sends n w s (move n w s)) where
    round :
        (left : ℕ) (w w' : W) (s t : ByteArray) (n : ℕ) (code : ℤ)
        (rest : ℕ → W → ByteArray → Option (Outcome (ℤ × W)))
        → ((m : ℕ) (w : W) (t : ByteArray)
            → IsValid t
            → t.base_size < 2 ^ 32
            → t.position + (suc left - suc m) ≤ t.size
            → Drains total (suc left - suc m) w t (rest (suc m) w t))
        → IsValid s
        → s.base_size < 2 ^ 32
        → s.position + suc left ≤ s.size
        → taken w' ≡ taken w ++ take n (unread (view s))
        → Shows s (tape_skip n (view s)) t
        → n ≤ suc left
        → IsCountOf code n
        → Drains total (suc left) w s (after_move max_len total move (returns (code, w') t) rest)
    round left w w' s t n (pos zero) rest next v small h f a k c =
        (pos 0, w', t, n, refl, f, a, inr (refl, omega (arith, c)))
    round left w w' s t n (pos (suc m)) rest next v small h f a k c =
        sends_on (suc left) n w w' s t _ total f a k (
          subst (λ j. Drains total (suc left - j) w' t (rest (suc m) w' t)) c
            (next m w' t a.valid (omega (arith, a.base_size, small)) (
              omega
                (arith, c, a.position, length-view t a.valid, length-view s v, ap length a.bytes))))
    round left w w' s t n (negsuc j) rest next v small h f a k c =
        (negsuc j, w', t, n, refl, f, a, inr (tt, omega (arith, c)))

    pub loop-Drains :
        (fuel left : ℕ) (w : W) (s : ByteArray)
        → left < fuel
        → IsValid s
        → s.base_size < 2 ^ 32
        → s.position + left ≤ s.size
        → Drains total left w s (move_fix_loop max_len total move fuel left w s)
    unfolding move_fix_loop
    loop-Drains zero left w s h v small e = absurd (omega arith)
    loop-Drains (suc fuel) zero w s h v small e =
        (as_int total, w, s, 0, refl, none_sent w s, at_zero s v, inl (refl, refl))
    loop-Drains (suc fuel) (suc left) w s h v small e =
        let (code, w', t, n, q, f, a, k, c) =
          sends (min (suc left) max_len) w s (omega arith) v small (omega arith) in
        let rest : ℕ → W → ByteArray → Option (Outcome (ℤ × W)) =
          λ n w s. move_fix_loop max_len total move fuel (suc left - n) w s in
        subst (λ o. Drains total (suc left) w s (after_move max_len total move o rest)) (sym q)
          (round left w w' s t n code rest
            (λ m w t v small e. loop-Drains fuel (suc left - suc m) w t (omega arith) v small e) v
            small e f a (omega (arith, k)) c)

-- The buffers of a read that is not empty.
abbrev ListsSome : Option (List Buffer × ℕ) → Type 0
ListsSome none = Unit
ListsSome (some r) = 0 < length r.0

with_size-ListsSome : (n : ℕ) (r : Option (List Buffer)) → HasSome r → ListsSome (with_size n r)
with_size-ListsSome n none h = tt
with_size-ListsSome n (some []) h = absurd (omega arith)
with_size-ListsSome n (some (b ∷ bs)) h = omega arith

get_read_buffers-ListsSome :
    (len : ℕ) (s : ByteArray)
    → 0 < len
    → s.position + len ≤ s.size
    → ListsSome (get_read_buffers len s)
unfolding get_read_buffers
get_read_buffers-ListsSome len s h k =
    subst ListsSome (sym (if-false (bounded len s == 0) _ _ (ground arith))) (
      with_size-ListsSome (bounded len s) _ (
        buffers_loop-HasSome (length s.passed) s.ahead (s.position % s.base_size) (bounded len s)
          (ground arith)))

transmit-some {ℓ} :
    {W : Type ℓ} (connected : W → Bool) (send : List ℕ → W → Sent × W) (bs : List Buffer) (size : ℕ)
    (w : W) (s : ByteArray)
    → 0 < length bs
    → transmit connected send (some (bs, size)) w s
      ≡ depart connected
          (send (gather (s.passed ++ s.ahead) bs) w).0
          (send (gather (s.passed ++ s.ahead) bs) w).1
          s
transmit-some connected send [] size w s h = absurd (omega arith)
transmit-some connected send (b ∷ bs) size w s h = refl

module _ {ℓ} {W : Type ℓ} (connected : W → Bool) (send : List ℕ → W → Sent × W) (taken : W → List ℕ)
    (takes : (bytes : List ℕ) (w : W)
      → (count_of (send bytes w).0 ≤ length bytes)
        × (taken (send bytes w).1 ≡ taken w ++ take (count_of (send bytes w).0) bytes)) where
  departs :
      (len : ℕ) (w w' : W) (s : ByteArray) (p : Sent)
      → IsValid s
      → s.position + len ≤ s.size
      → count_of p ≤ len
      → taken w' ≡ taken w ++ take (count_of p) (unread (view s))
      → Sends taken len w s (depart connected p w' s)
  departs len w w' s (rejected k) v h l e =
      (negsuc k, w', s, 0, refl, e, at_zero s v, omega arith, refl)
  departs len w w' s (sent zero) v h l e =
      (pos 0, w', s, 0, refl, e, at_zero s v, omega arith, refl)
  departs len w w' s (sent (suc n)) v h l e =
      let (t, q, r) = skipped (suc n) s v (omega arith) in
      (pos (suc n), w', t, suc n, ap (λ o. after o (λ _. pure (pos (suc n), w'))) q, e, r, l, refl)

  write_array-Sends :
      (len : ℕ) (w : W) (s : ByteArray)
      → 0 < len
      → IsValid s
      → s.base_size < 2 ^ 32
      → s.position + len ≤ s.size
      → Sends taken len w s (write_array connected send len w s)
  unfolding write_array
  write_array-Sends len w s h v small k = elim (Bool-cases (connected w)) [
    | inl o ↦
        let (bs, e, g) = get_read_buffers-Holds len s v small in
        let bytes : List ℕ = take len (unread (view s)) in
        let r = send bytes w in
        let long : length bytes ≤ len = omega (arith, length-take len (unread (view s))) in
        let t = takes bytes w in
        subst (Sends taken len w s)
          (sym (
            if-true (connected w) _ _ o
            ∙ ap (λ b. transmit connected send b w s) e
            ∙ transmit-some connected send bs (length bytes) w s
                (subst ListsSome e (get_read_buffers-ListsSome len s h k))
            ∙ ap (λ b. depart connected (send b w).0 (send b w).1 s) g))
          (departs len w r.1 s r.0 v k (omega (arith, t.0)) (
            t.1
            ∙ ap (taken w ++◌)
                (take-take (count_of r.0) len (unread (view s)) (omega (arith, t.0)))))
    | inr o ↦ (
      negsuc 0,
      w,
      s,
      0,
      if-false (connected w) _ _ o,
      none_sent taken w s,
      at_zero s v,
      omega arith,
      refl,
    )
  ]

-- `writeFixSize(ByteArray, length)`, of at most what is unread, fewer than 2^31 bytes in blocks of fewer
-- than 2^32, ends on every socket that takes a beginning of
-- what it is given: it returns the length, with that many of the unread bytes sent in order, or a number
-- that is not positive, with fewer; in both cases the position is behind what was sent, and nothing
-- else of the array has changed.
pub write_fix_array-Drains {ℓ} :
    {W : Type ℓ} (max_len total : ℕ) (connected : W → Bool) (send : List ℕ → W → Sent × W)
    (taken : W → List ℕ) (w : W) (s : ByteArray)
    → ((bytes : List ℕ) (w : W)
        → (count_of (send bytes w).0 ≤ length bytes)
          × (taken (send bytes w).1 ≡ taken w ++ take (count_of (send bytes w).0) bytes))
    → total < 2 ^ 31
    → 0 < max_len
    → IsValid s
    → s.base_size < 2 ^ 32
    → s.position + total ≤ s.size
    → Drains taken total total w s (write_fix_array max_len connected send total w s)
unfolding write_fix_array
write_fix_array-Drains max_len total connected send taken w s takes k h v small e =
    subst
      (λ left.
        Drains taken total total w s
          (move_fix_loop max_len total (write_array connected send) (suc total) left w s))
      (sym (as_left-same total k))
      (loop-Drains taken max_len total h (write_array connected send)
        (λ n w s k v small e. write_array-Sends connected send taken takes n w s k v small e)
        (suc total) total w s (omega arith) v small e)
