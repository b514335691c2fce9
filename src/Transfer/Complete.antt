-- ===== src/Transfer/Complete.antt =====
-- The loops end, and what they have moved is what the stream has given or taken.
use sylar_windows.Prelude.{
  ℕ, zero, suc, ◌-◌, ◌≤◌, ◌<◌, ◌≡◌, ◌⊎◌, inl, inr, arith, min, List, [], ◌∷◌, ◌++◌, length, take,
  drop, length-append, length-drop, take-append-drop, Option, some, refl, sym, ap, ◌∙◌, ◌^◌, ltb,
  if-true,
}
use mathlib.Core.List.{append_assoc, append-nil}
use native.Mathlib.Decide.{dec_lt}
use sylar_windows.Prelude.Int.{ℤ, pos, negsuc}
use sylar_windows.Transfer.Loops.{
  Piece, piece, refused, Sent, sent, rejected, Transfer, as_int, as_left, more, map_transfer,
  bytes_of, count_of, after_read, read_fix_loop, read_fix_size, after_write, write_fix_loop,
  write_fix_size,
}

-- A length that is an `int` is returned as it is.
pub as_int-pos : (n : ℕ) → n < 2 ^ 31 → as_int n ≡ pos n
as_int-pos n h = ground arith

pub as_left-same : (n : ℕ) → n < 2 ^ 31 → as_left n ≡ n
as_left-same n h = if-true (ltb n (2 ^ 63)) _ _ (ground arith)

-- A number that says that a transfer broke off.
abbrev pub IsFailure : ℤ → Type 0
IsFailure (pos n) = n ≡ 0
IsFailure (negsuc k) = Unit

module _ {ℓ} {W : Type ℓ} (max_len total : ℕ) (read : ℕ → W → Piece × W) (pending : W → List ℕ)
    (gives : (n : ℕ) (w : W)
      → (length (bytes_of (read n w).0) ≤ n)
        × (pending w ≡ bytes_of (read n w).0 ++ pending (read n w).1)) where
  -- The loop has an end, which is either all of the bytes or a failure with fewer, and the bytes are
  -- the next ones of the stream.
  abbrev pub Finishes : ℕ → W → Option (Transfer W) → Type ℓ
  Finishes left w o =
      (r : Transfer W) × (o ≡ some r)
      × (pending w ≡ r.bytes ++ pending r.stream)
      × (((r.code ≡ as_int total) × (length r.bytes ≡ left))
          ⊎ (IsFailure r.code × (length r.bytes < left)))

  after_read-Finishes :
      (left : ℕ) (p : Piece) (w w' : W) (rest : Option (Transfer W))
      → length (bytes_of p) ≤ suc left
      → pending w ≡ bytes_of p ++ pending w'
      → Finishes (suc left - length (bytes_of p)) w' rest
      → Finishes (suc left) w (after_read max_len total p w' rest)
  after_read-Finishes left (refused k) w w' rest h e f = (_, refl, e, inr (tt, omega arith))
  after_read-Finishes left (piece []) w w' rest h e f = (_, refl, e, inr (refl, omega arith))
  after_read-Finishes left (piece (b ∷ bs)) w w' rest h e (r, q, s, t) = (
    more (b ∷ bs) r,
    ap (map_transfer (more (b ∷ bs))) q,
    (e ∙ ap ((b ∷ bs) ++◌) s ∙ sym (append_assoc (b ∷ bs) r.bytes (pending r.stream))),
    elim t [
      | inl c ↦ inl (c.0, omega (arith, length-append (b ∷ bs) r.bytes, c.1))
      | inr c ↦ inr (c.0, omega (arith, length-append (b ∷ bs) r.bytes, c.1))
    ],
  )

  read_fix_loop-Finishes :
      (fuel left : ℕ) (w : W)
      → left < fuel
      → Finishes left w (read_fix_loop max_len total read fuel left w)
  unfolding read_fix_loop
  read_fix_loop-Finishes zero left w h = absurd (omega arith)
  read_fix_loop-Finishes (suc fuel) zero w h = (_, refl, refl, inl (refl, refl))
  read_fix_loop-Finishes (suc fuel) (suc left) w h =
      let r = read (min (suc left) max_len) w in
      let g = gives (min (suc left) max_len) w in
      elim (dec_lt 0 (length (bytes_of r.0))) [
        | yes k ↦
            after_read-Finishes left r.0 w r.1 _ (omega (arith, g.0)) g.1
              (read_fix_loop-Finishes fuel (suc left - length (bytes_of r.0)) r.1 (omega arith))
        | no k ↦ stops r.0 r.1 _ (omega arith) g.1
      ]
    where
      stops :
          (p : Piece) (w' : W) (rest : Option (Transfer W))
          → length (bytes_of p) ≡ 0
          → pending w ≡ bytes_of p ++ pending w'
          → Finishes (suc left) w (after_read max_len total p w' rest)
      stops (refused k) w' rest z e = (_, refl, e, inr (tt, omega arith))
      stops (piece []) w' rest z e = (_, refl, e, inr (refl, omega arith))
      stops (piece (b ∷ bs)) w' rest z e = absurd (omega arith)

-- `readFixSize` of fewer than 2^31 bytes ends, for every stream whose `read` gives at most what was asked for, and the next bytes
-- that the peer has sent: it returns the length, with that many bytes, or a number that is not positive,
-- with fewer; in both cases they are the next bytes that the peer has sent, and the stream goes on behind them.
pub read_fix_size_ends {ℓ} :
    {W : Type ℓ} (max_len total : ℕ) (read : ℕ → W → Piece × W) (pending : W → List ℕ) (w : W)
    → ((n : ℕ) (w : W)
        → (length (bytes_of (read n w).0) ≤ n)
          × (pending w ≡ bytes_of (read n w).0 ++ pending (read n w).1))
    → total < 2 ^ 31
    → (r : Transfer W) × (read_fix_size max_len read total w ≡ some r)
      × (pending w ≡ r.bytes ++ pending r.stream)
      × (((r.code ≡ pos total) × (length r.bytes ≡ total))
          ⊎ (IsFailure r.code × (length r.bytes < total)))
unfolding read_fix_size
read_fix_size_ends max_len total read pending w gives h =
    let (r, q, f, c) =
      read_fix_loop-Finishes max_len total read pending gives (suc total) total w (omega arith) in
    (
      r,
      ap (λ n. read_fix_loop max_len total read (suc total) n w) (as_left-same total h) ∙ q,
      f,
      elim c [ inl x ↦ inl (x.0 ∙ as_int-pos total h, x.1) | inr x ↦ inr x ],
    )

take-take : (n m : ℕ) (xs : List ℕ) → n ≤ length (take m xs) → take n (take m xs) ≡ take n xs
take-take zero m xs h = refl
take-take (suc n) zero xs h = absurd (omega arith)
take-take (suc n) (suc m) [] h = refl
take-take (suc n) (suc m) (x ∷ xs) h = ap (◌∷◌ x) (take-take n m xs (omega arith))

module _ {ℓ} {W : Type ℓ} (max_len total : ℕ) (write : List ℕ → W → Sent × W) (taken : W → List ℕ)
    (takes : (bytes : List ℕ) (w : W)
      → (count_of (write bytes w).0 ≤ length bytes)
        × (taken (write bytes w).1 ≡ taken w ++ take (count_of (write bytes w).0) bytes)) where
  -- The loop has an end, which is either with nothing left or a failure with some left, and the stream
  -- has taken the rest.
  abbrev pub Delivers : List ℕ → W → Option (Transfer W) → Type ℓ
  Delivers left w o =
      (r : Transfer W) × (o ≡ some r)
      × (taken r.stream ++ r.bytes ≡ taken w ++ left)
      × (((r.code ≡ as_int total) × (r.bytes ≡ [])) ⊎ (IsFailure r.code × (0 < length r.bytes)))

  passed_on :
      (n : ℕ) (left : List ℕ) (w w' : W) (o : Option (Transfer W))
      → n ≤ length (take max_len left)
      → taken w' ≡ taken w ++ take n (take max_len left)
      → Delivers (drop n left) w' o
      → Delivers left w o
  passed_on n left w w' o h e (r, q, s, t) = (
    r,
    q,
    (s
        ∙ ap (◌++ drop n left) (e ∙ ap (taken w ++◌) (take-take n max_len left h))
        ∙ append_assoc (taken w) (take n left) (drop n left)
        ∙ ap (taken w ++◌) (take-append-drop n left)),
    t,
  )

  write_fix_loop-Delivers :
      (fuel : ℕ) (left : List ℕ) (w : W)
      → length left < fuel
      → Delivers left w (write_fix_loop max_len total write fuel left w)
  unfolding write_fix_loop
  write_fix_loop-Delivers zero left w h = absurd (omega arith)
  write_fix_loop-Delivers (suc fuel) [] w h = (_, refl, refl, inl (refl, refl))
  write_fix_loop-Delivers (suc fuel) (b ∷ bs) w h =
      let r = write (take max_len (b ∷ bs)) w in
      let g = takes (take max_len (b ∷ bs)) w in
      elim (dec_lt 0 (count_of r.0)) [
        | yes k ↦ goes_on r.0 r.1 _ k g.0 g.1 (
            write_fix_loop-Delivers fuel (drop (count_of r.0) (b ∷ bs)) r.1
              (omega (arith, length-drop (count_of r.0) (b ∷ bs))))
        | no k ↦ stops r.0 r.1 _ (omega arith) g.1
      ]
    where
      goes_on :
          (p : Sent) (w' : W) (rest : Option (Transfer W))
          → 0 < count_of p
          → count_of p ≤ length (take max_len (b ∷ bs))
          → taken w' ≡ taken w ++ take (count_of p) (take max_len (b ∷ bs))
          → Delivers (drop (count_of p) (b ∷ bs)) w' rest
          → Delivers (b ∷ bs) w (after_write max_len total p (b ∷ bs) w' rest)
      goes_on (sent zero) w' rest k l e d = absurd (omega arith)
      goes_on (sent (suc n)) w' rest k l e d = passed_on (suc n) (b ∷ bs) w w' rest l e d
      goes_on (rejected n) w' rest k l e d = absurd (omega arith)

      stops :
          (p : Sent) (w' : W) (rest : Option (Transfer W))
          → count_of p ≡ 0
          → taken w' ≡ taken w ++ take (count_of p) (take max_len (b ∷ bs))
          → Delivers (b ∷ bs) w (after_write max_len total p (b ∷ bs) w' rest)
      stops (sent zero) w' rest z e =
          (_, refl, ap (◌++ (b ∷ bs)) (e ∙ append-nil (taken w)), inr (refl, omega arith))
      stops (sent (suc n)) w' rest z e = absurd (omega arith)
      stops (rejected n) w' rest z e =
          (_, refl, ap (◌++ (b ∷ bs)) (e ∙ append-nil (taken w)), inr (tt, omega arith))

-- `writeFixSize` of fewer than 2^31 bytes ends, for every stream whose `write` takes a beginning of what it is given: it returns the
-- length, with the whole buffer taken in order, or a number that is not positive, with a proper
-- beginning of it taken.
pub write_fix_size_ends {ℓ} :
    {W : Type ℓ} (max_len : ℕ) (write : List ℕ → W → Sent × W) (taken : W → List ℕ)
    (buffer : List ℕ) (w : W)
    → ((bytes : List ℕ) (w : W)
        → (count_of (write bytes w).0 ≤ length bytes)
          × (taken (write bytes w).1 ≡ taken w ++ take (count_of (write bytes w).0) bytes))
    → length buffer < 2 ^ 31
    → (r : Transfer W) × (write_fix_size max_len write buffer w ≡ some r)
      × (taken r.stream ++ r.bytes ≡ taken w ++ buffer)
      × (((r.code ≡ pos (length buffer)) × (r.bytes ≡ []))
          ⊎ (IsFailure r.code × (0 < length r.bytes)))
unfolding write_fix_size
write_fix_size_ends max_len write taken buffer w takes h =
    let (r, q, f, c) =
      write_fix_loop-Delivers max_len (length buffer) write taken takes (suc (length buffer)) buffer
        w (omega arith) in
    (r, q, f, elim c [ inl x ↦ inl (x.0 ∙ as_int-pos (length buffer) h, x.1) | inr x ↦ inr x ])
