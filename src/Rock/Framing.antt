-- ===== src/Rock/Framing.antt =====
-- `RockMessageDecoder::parseFrom` on a peer that has sent a frame.
use sylar_windows.Prelude.Int.{ℤ, pos, negsuc}
use sylar_windows.Prelude.{
  ℕ, zero, suc, ◌^◌, ◌≤◌, ◌<◌, ◌≡◌, ◌⊎◌, inl, inr, arith, List, ◌++◌, length, Bool, Option, none,
  some, leb, ap, sym, ◌∙◌, refl, subst, if-true, if-false, if-cases, length-append,
}
use mathlib.Core.List.{append_assoc}
use sylar_windows.Endia.{Endian, le_bytes, byteswap_on_little_endian}
use sylar_windows.ByteArray.State.{ByteArray, Outcome, returns, new_byte_array}
use sylar_windows.ByteArray.Store.{set_position}
use sylar_windows.ByteArray.Start.{new_byte_array-IsValid}
use sylar_windows.Transfer.Loops.{Piece, Transfer, bytes_of}
use sylar_windows.Transfer.Complete.{IsFailure, as_int-pos, read_fix_size_ends}
use sylar_windows.Transfer.Arrays.{read_fix_array}
use sylar_windows.Transfer.Filling.{Fills, read_fix_array-Fills}
use sylar_windows.Rock.Message.{Message}
use sylar_windows.Rock.Emitting.{Fits}
use sylar_windows.Rock.Parsing.{stamp}
use sylar_windows.Rock.RoundTrip.{encoding, HasEnd, parse_rewound, fresh-is_native}
use sylar_windows.Rock.Frame.{
  Header, header_bytes, new_header, Decoded, decoded, read_buffer, parsed, read_message, after_body,
  read_body, check_header, after_header, after_transfer, parse_from,
}
use sylar_windows.Rock.Headers.{
  frame_header, frame, swap_back, swap-lt, header_of-header_bytes, length-header, fresh_ends,
  fresh-small, same_cut,
}

module _ {ℓ} {W : Type ℓ} (fresh : ℕ → ℕ → ℕ) (order : Endian) (now max_len min_length : ℕ)
    (ungzip : ByteArray → Option ByteArray) (connected : W → Bool) (recv : ℕ → W → Piece × W)
    (pending : W → List ℕ) where
  -- The message comes back and the frame is gone from what is pending, or the connection has broken off
  -- within the frame.
  abbrev pub Comes : Message → List ℕ → W → Decoded W → Type ℓ
  Comes msg more w r =
      (w' : W) × (((r ≡ decoded (some (stamp now msg)) w') × (pending w' ≡ more))
        ⊎ ((r ≡ decoded none w')
            × ((got : List ℕ) × (pending w ≡ got ++ pending w')
                × (length got < length (frame order msg)))))

  -- The parts of the decoder at these parameters.
  abbrev body_at : ℕ → Option (Outcome (ℤ × W)) → Decoded W
  body_at = after_body fresh order now max_len min_length ungzip connected recv

  abbrev header_at : ℤ → List ℕ → W → Decoded W
  header_at = after_header fresh order now max_len min_length ungzip connected recv

  abbrev check_at : Header → W → Decoded W
  check_at = check_header fresh order now max_len min_length ungzip connected recv

  abbrev length_at : ℕ → ℕ → W → Decoded W
  length_at = read_body fresh order now max_len min_length ungzip connected recv

  abbrev message_at : ℕ → W → Outcome (Unit {0}) → Decoded W
  message_at = read_message fresh order now max_len min_length ungzip connected recv

  body_read :
      (flag n : ℕ) (w : W) (ba : ByteArray)
      → 0 < n
      → body_at flag (some (returns (pos n, w) ba)) ≡ message_at flag w (set_position 0 ba)
  body_read flag zero w ba h = absurd (omega arith)
  body_read flag (suc n) w ba h = refl

  body_fails :
      (flag : ℕ) (code : ℤ) (w : W) (ba : ByteArray)
      → IsFailure code
      → body_at flag (some (returns (code, w) ba)) ≡ decoded none w
  body_fails flag (pos zero) w ba h = refl
  body_fails flag (pos (suc n)) w ba h = absurd (omega (arith, h))
  body_fails flag (negsuc k) w ba h = refl

  header_fails :
      (code : ℤ) (bytes : List ℕ) (w : W) → IsFailure code → header_at code bytes w ≡ decoded none w
  header_fails (pos zero) bytes w h = refl
  header_fails (pos (suc n)) bytes w h = absurd (omega (arith, h))
  header_fails (negsuc k) bytes w h = refl

  length_passes :
      (n : ℕ) (w : W)
      → n < min_length
      → n < 2 ^ 31
      → length_at 0 n w
        ≡ body_at 0 (read_fix_array max_len connected recv n w (new_byte_array fresh order 4096))
  length_passes n w h k =
      if-false (leb min_length n) _ _ (ground arith) ∙ if-false (leb (2 ^ 31) n) _ _ (ground arith)

  -- The header of a frame passes its checks.
  header_passes :
      (msg : Message) (w : W)
      → length (encoding msg) < 2 ^ 31
      → header_at (pos 8) (frame_header order msg) w ≡ length_at 0 (length (encoding msg)) w
  header_passes msg w h =
      ap (λ x. check_at x w)
        (header_of-header_bytes 0 _ (swap-lt order (length (encoding msg)) (omega arith)))
      ∙ ap (λ n. length_at 0 n w) (swap_back order (length (encoding msg)) (omega arith))

  positive : (msg : Message) → 0 < length (encoding msg)
  unfolding le_bytes
  positive msg = omega arith

  -- The body of a frame, behind its header.
  body-Comes :
      (msg : Message) (more : List ℕ) (w v : W)
      → Fits msg
      → HasEnd msg
      → length (encoding msg) < 2 ^ 31
      → pending w ≡ frame_header order msg ++ pending v
      → pending v ≡ encoding msg ++ more
      → Fills pending
          (length (encoding msg))
          (length (encoding msg))
          v
          (new_byte_array fresh order 4096)
          (read_fix_array max_len connected recv
            (length (encoding msg))
            v
            (new_byte_array fresh order 4096))
      → Comes msg more w (
          body_at 0 (
            read_fix_array max_len connected recv
              (length (encoding msg))
              v
              (new_byte_array fresh order 4096)))
  unfolding new_byte_array
  body-Comes msg more w v h k m e e' (code, x, s, bytes, q, f, a, inl (c, l)) =
      let cut = same_cut bytes (encoding msg) (pending x) more (sym f ∙ e') l in
      let (t, u, rt, ru, p) =
        parse_rewound now msg s h k a.valid (a.bytes ∙ cut.0) a.base
          (a.order ∙ fresh-is_native fresh order 4096) in
      (
        x,
        inl (
          ap (body_at 0)
                (q ∙ ap (λ c. some (returns (c, x) s)) (c ∙ as_int-pos (length (encoding msg)) m))
              ∙ body_read 0 (length (encoding msg)) x s (positive msg)
              ∙ ap (message_at 0 x) rt
              ∙ ap (parsed fresh order now max_len min_length ungzip connected recv x) ru,
          cut.1,
        ),
      )
  body-Comes msg more w v h k m e e' (code, x, s, bytes, q, f, a, inr (c, l)) = (
    x,
    inr (
      ap (body_at 0) q ∙ body_fails 0 code x s c,
      (
        frame_header order msg ++ bytes,
        e
            ∙ ap (frame_header order msg ++◌) f
            ∙ sym (append_assoc (frame_header order msg) bytes (pending x)),
        omega (
          arith,
          length-append (frame_header order msg) bytes,
          length-append (frame_header order msg) (encoding msg),
          l,
        ),
      ),
    ),
  )

  module _
      (gives : (n : ℕ) (w : W)
        → (length (bytes_of (recv n w).0) ≤ n)
          × (pending w ≡ bytes_of (recv n w).0 ++ pending (recv n w).1)) where
    buffer_gives :
        (n : ℕ) (w : W)
        → (length (bytes_of (read_buffer connected recv n w).0) ≤ n)
          × (pending w
              ≡ bytes_of (read_buffer connected recv n w).0
                ++ pending (read_buffer connected recv n w).1)
    buffer_gives n w =
        if-cases {A = Piece × W}
          (λ r. (length (bytes_of r.0) ≤ n) × (pending w ≡ bytes_of r.0 ++ pending r.1))
          (connected w) _ _ (λ e. gives n w) (λ e. (omega arith, refl))

    header-Comes :
        (msg : Message) (more : List ℕ) (w : W) (r : Transfer W)
        → Fits msg
        → HasEnd msg
        → length (encoding msg) < min_length
        → length (encoding msg) < 2 ^ 31
        → 0 < max_len
        → pending w ≡ frame order msg ++ more
        → pending w ≡ r.bytes ++ pending r.stream
        → ((r.code ≡ pos 8) × (length r.bytes ≡ 8)) ⊎ (IsFailure r.code × (length r.bytes < 8))
        → Comes msg more w (header_at r.code r.bytes r.stream)
    header-Comes msg more w r h k l m p e f (inl (c, n)) =
        let cut =
          same_cut r.bytes (frame_header order msg) (pending r.stream) (encoding msg ++ more)
            (sym f ∙ e ∙ append_assoc (frame_header order msg) (encoding msg) more)
            (n ∙ sym (length-header (new_header 0 _) refl)) in
        subst (Comes msg more w)
          (sym (
            ap (λ c. header_at c r.bytes r.stream) c
            ∙ ap (λ b. header_at (pos 8) b r.stream) cut.0
            ∙ header_passes msg r.stream m
            ∙ length_passes (length (encoding msg)) r.stream l m))
          (body-Comes msg more w r.stream h k m (f ∙ ap (λ b. b ++ pending r.stream) cut.0) cut.1 (
            read_fix_array-Fills max_len (length (encoding msg)) connected recv pending r.stream
              (new_byte_array fresh order 4096) gives m p
              (new_byte_array-IsValid fresh order 4096 (omega arith)) (fresh-small fresh order)
              (fresh_ends fresh order)))
    header-Comes msg more w r h k l m p e f (inr (c, n)) = (
      r.stream,
      inr (
        header_fails r.code r.bytes r.stream c,
        (
          r.bytes,
          f,
          omega (
            arith,
            length-append (frame_header order msg) (encoding msg),
            length-header (new_header 0 (byteswap_on_little_endian order 4 (length (encoding msg))))
                refl,
          ),
        ),
      ),
    )

    rejects :
        (flag n : ℕ) (more : List ℕ) (w : W) (r : Transfer W)
        → min_length ≤ n
        → n < 2 ^ 32
        → pending w ≡ header_bytes (new_header flag (byteswap_on_little_endian order 4 n)) ++ more
        → pending w ≡ r.bytes ++ pending r.stream
        → ((r.code ≡ pos 8) × (length r.bytes ≡ 8)) ⊎ (IsFailure r.code × (length r.bytes < 8))
        → header_at r.code r.bytes r.stream ≡ decoded none r.stream
    rejects flag n more w r h k e f (inl (c, l)) =
        let swapped : ℕ = byteswap_on_little_endian order 4 n in
        let cut =
          same_cut r.bytes (header_bytes (new_header flag swapped)) (pending r.stream) more
            (sym f ∙ e) (l ∙ sym (length-header (new_header flag swapped) refl)) in
        ap (λ c. header_at c r.bytes r.stream) c
        ∙ ap (λ b. header_at (pos 8) b r.stream) cut.0
        ∙ ap (λ x. check_at x r.stream) (header_of-header_bytes flag swapped (swap-lt order n k))
        ∙ ap (λ n. length_at flag n r.stream) (swap_back order n k)
        ∙ if-true (leb min_length n) _ _ (ground arith)
    rejects flag n more w r h k e f (inr (c, l)) = header_fails r.code r.bytes r.stream c

-- `parseFrom` returns null for every frame whose length is that of gzip_min_length or more, so also for one
-- that `serializeTo` has compressed to that length, and below max_length; it reads no more than the header.
pub parse_from_rejects {ℓ} :
    {W : Type ℓ} (fresh : ℕ → ℕ → ℕ) (order : Endian) (now max_len min_length : ℕ)
    (ungzip : ByteArray → Option ByteArray) (connected : W → Bool) (recv : ℕ → W → Piece × W)
    (pending : W → List ℕ) (flag n : ℕ) (more : List ℕ) (w : W)
    → ((n : ℕ) (w : W)
        → (length (bytes_of (recv n w).0) ≤ n)
          × (pending w ≡ bytes_of (recv n w).0 ++ pending (recv n w).1))
    → min_length ≤ n
    → n < 2 ^ 32
    → pending w ≡ header_bytes (new_header flag (byteswap_on_little_endian order 4 n)) ++ more
    → (w' : W) × (got : List ℕ) × (parse_from fresh order now max_len min_length ungzip connected
          recv w
        ≡ decoded none w')
      × (pending w ≡ got ++ pending w')
      × (length got ≤ 8)
unfolding parse_from
parse_from_rejects fresh order now max_len min_length ungzip connected recv pending flag n more w
      gives h k e =
    let (r, q, f, c) =
      read_fix_size_ends max_len 8 (read_buffer connected recv) pending w
        (buffer_gives fresh order now max_len min_length ungzip connected recv pending gives)
        (omega arith) in
    (
      r.stream,
      r.bytes,
      ap (after_transfer fresh order now max_len min_length ungzip connected recv) q
          ∙ rejects fresh order now max_len min_length ungzip connected recv pending gives flag n
              more w r h k e f c,
      f,
      elim c [ inl x ↦ omega (arith, x.1) | inr x ↦ omega (arith, x.1) ],
    )

-- `parseFrom` on a socket whose peer has sent the frame of a message that fits its fields, is shorter than
-- gzip_min_length and 2^31 bytes, and has a non-empty body or does not fill its array up to the last
-- block: it returns the message, apart from the time stamp, and leaves on the socket exactly what comes
-- behind the frame; or it returns null, with a part of the frame read, since the connection broke off.
pub parse_from-frame {ℓ} :
    {W : Type ℓ} (fresh : ℕ → ℕ → ℕ) (order : Endian) (now max_len min_length : ℕ)
    (ungzip : ByteArray → Option ByteArray) (connected : W → Bool) (recv : ℕ → W → Piece × W)
    (pending : W → List ℕ) (msg : Message) (more : List ℕ) (w : W)
    → ((n : ℕ) (w : W)
        → (length (bytes_of (recv n w).0) ≤ n)
          × (pending w ≡ bytes_of (recv n w).0 ++ pending (recv n w).1))
    → 0 < max_len
    → Fits msg
    → HasEnd msg
    → length (encoding msg) < min_length
    → length (encoding msg) < 2 ^ 31
    → pending w ≡ frame order msg ++ more
    → Comes fresh order now max_len min_length ungzip connected recv pending msg more w
        (parse_from fresh order now max_len min_length ungzip connected recv w)
unfolding parse_from
parse_from-frame fresh order now max_len min_length ungzip connected recv pending msg more w gives p
      h k l m e =
    let (r, q, f, c) =
      read_fix_size_ends max_len 8 (read_buffer connected recv) pending w
        (buffer_gives fresh order now max_len min_length ungzip connected recv pending gives)
        (omega arith) in
    subst (Comes fresh order now max_len min_length ungzip connected recv pending msg more w)
      (sym (ap (after_transfer fresh order now max_len min_length ungzip connected recv) q))
      (header-Comes fresh order now max_len min_length ungzip connected recv pending gives msg more
        w r h k l m p e f c)
