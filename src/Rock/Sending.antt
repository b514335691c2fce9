-- ===== src/Rock/Sending.antt =====
-- `RockMessageDecoder::serializeTo` on any socket.
use sylar_windows.Prelude.Int.{ℤ, pos, negsuc}
use sylar_windows.Prelude.{
  ℕ, zero, suc, ◌+◌, ◌%◌, ◌^◌, ◌≤◌, ◌<◌, ◌≡◌, ◌⊎◌, inl, inr, arith, List, [], ◌++◌, length, take,
  drop, Bool, Option, some, leb, ap, sym, ◌∙◌, refl, subst, if-false, if-cases, length-append,
  length-drop, take-append-drop,
}
use mathlib.Core.List.{append_assoc, append-nil}
use sylar_windows.Prelude.Slices.{drop-all}
use sylar_windows.Endia.{Endian, le_bytes, byteswap_on_little_endian}
use sylar_windows.ByteArray.State.{ByteArray, Outcome, returns, get_read_size}
use sylar_windows.ByteArray.Invariant.{IsValid}
use sylar_windows.ByteArray.View.{view, unread, length-view}
use sylar_windows.ByteArray.Reads.{set_position-Shows}
use sylar_windows.Transfer.Loops.{Sent, Transfer, count_of, write_fix_size}
use sylar_windows.Transfer.Complete.{IsFailure, as_int-pos, write_fix_size_ends}
use sylar_windows.Transfer.Arrays.{write_fix_array}
use sylar_windows.Transfer.Draining.{Drains, write_fix_array-Drains}
use sylar_windows.Rock.Message.{Message}
use sylar_windows.Rock.Emitting.{Fits}
use sylar_windows.Rock.RoundTrip.{encoding, to_byte_array-encoding, rewound_bytes}
use sylar_windows.Rock.Headers.{frame_header, frame, length-header}
use sylar_windows.Rock.Frame.{
  new_header, header_bytes, write_buffer, Zipped, Encoded, encoded, body_written, header_written,
  header_sent, write_frame, write_message, from_array, serialize_to,
}

module _ {ℓ} {W : Type ℓ} (fresh : ℕ → ℕ → ℕ) (order : Endian) (max_len min_length : ℕ)
    (gzip : ByteArray → Zipped) (connected : W → Bool) (send : List ℕ → W → Sent × W)
    (taken : W → List ℕ) where
  -- The peer has the frame, behind what it had, or a beginning of it.
  abbrev pub Goes : Message → W → Encoded W → Type ℓ
  Goes msg w r =
      (code : ℤ) × (w' : W) × (rest : List ℕ) × (r ≡ encoded code w')
      × (taken w' ++ rest ≡ taken w ++ frame order msg)
      × (((code ≡ pos (length (frame order msg))) × (rest ≡ []))
          ⊎ (((k : ℕ) × (code ≡ negsuc k)) × (0 < length rest)))

  abbrev written_at : ByteArray → Option (Outcome (ℤ × W)) → Encoded W
  written_at = body_written fresh order max_len min_length gzip connected send

  abbrev header_at : ByteArray → ℤ → W → Encoded W
  header_at = header_written fresh order max_len min_length gzip connected send

  body_done :
      (n : ℕ) (ba t : ByteArray) (w : W)
      → 0 < n
      → written_at ba (some (returns (pos n, w) t)) ≡ encoded (pos (8 + t.size)) w
  body_done zero ba t w h = absurd (omega arith)
  body_done (suc n) ba t w h = refl

  body_fails :
      (code : ℤ) (ba t : ByteArray) (w : W)
      → IsFailure code
      → written_at ba (some (returns (code, w) t)) ≡ encoded (negsuc 3) w
  body_fails (pos zero) ba t w h = refl
  body_fails (pos (suc n)) ba t w h = absurd (omega (arith, h))
  body_fails (negsuc k) ba t w h = refl

  header_fails :
      (code : ℤ) (ba : ByteArray) (w : W)
      → IsFailure code
      → header_at ba code w ≡ encoded (negsuc 2) w
  header_fails (pos zero) ba w h = refl
  header_fails (pos (suc n)) ba w h = absurd (omega (arith, h))
  header_fails (negsuc k) ba w h = refl

  positive : (msg : Message) → 0 < length (encoding msg)
  unfolding le_bytes
  positive msg = omega arith

  length-frame : (msg : Message) → length (frame order msg) ≡ 8 + length (encoding msg)
  length-frame msg = omega (
    arith,
    length-append (frame_header order msg) (encoding msg),
    length-header (new_header 0 (byteswap_on_little_endian order 4 (length (encoding msg)))) refl,
  )

  -- The body, behind the header.
  body-Goes :
      (msg : Message) (ba : ByteArray) (w v : W)
      → IsValid ba
      → length (encoding msg) < 2 ^ 31
      → (view ba).bytes ≡ encoding msg
      → ba.position ≡ 0
      → taken v ≡ taken w ++ frame_header order msg
      → Drains taken
          (length (encoding msg))
          (length (encoding msg))
          v
          ba
          (write_fix_array max_len connected send (length (encoding msg)) v ba)
      → Goes msg w
          (written_at ba (write_fix_array max_len connected send (length (encoding msg)) v ba))
  body-Goes msg ba w v i m b p e (code, x, t, n, q, f, a, r) =
      let whole : unread (view ba) ≡ encoding msg = ap (λ k. drop k (view ba).bytes) p ∙ b in
      let path : taken x ++ drop n (encoding msg) ≡ taken w ++ frame order msg =
        ap (◌++ drop n (encoding msg)) (f ∙ ap (λ l. taken v ++ take n l) whole)
        ∙ append_assoc (taken v) (take n (encoding msg)) (drop n (encoding msg))
        ∙ ap (taken v ++◌) (take-append-drop n (encoding msg))
        ∙ ap (◌++ encoding msg) e
        ∙ append_assoc (taken w) (frame_header order msg) (encoding msg) in
      let size : t.size ≡ length (encoding msg) =
        omega (arith, length-view t a.valid, ap length a.bytes, ap length b) in
      elim r [
        | inl (c, l) ↦ (
          pos (8 + t.size),
          x,
          drop n (encoding msg),
          ap (written_at ba)
                (q ∙ ap (λ c. some (returns (c, x) t)) (c ∙ as_int-pos (length (encoding msg)) m))
              ∙ body_done (length (encoding msg)) ba t x (positive msg),
          path,
          inl (
            ap pos (omega (arith, size, length-frame msg)),
            drop-all n (encoding msg) (omega (arith, l)),
          ),
        )
        | inr (c, l) ↦ (
          negsuc 3,
          x,
          drop n (encoding msg),
          ap (written_at ba) q ∙ body_fails code ba t x c,
          path,
          inr ((3, refl), omega (arith, l, length-drop n (encoding msg))),
        )
      ]

  module _
      (takes : (bytes : List ℕ) (w : W)
        → (count_of (send bytes w).0 ≤ length bytes)
          × (taken (send bytes w).1 ≡ taken w ++ take (count_of (send bytes w).0) bytes)) where
    buffer_takes :
        (bytes : List ℕ) (w : W)
        → (count_of (write_buffer connected send bytes w).0 ≤ length bytes)
          × (taken (write_buffer connected send bytes w).1
              ≡ taken w ++ take (count_of (write_buffer connected send bytes w).0) bytes)
    buffer_takes bytes w =
        if-cases {A = Sent × W}
          (λ r. (count_of r.0 ≤ length bytes) × (taken r.1 ≡ taken w ++ take (count_of r.0) bytes))
          (connected w) _ _ (λ e. takes bytes w) (λ e. (omega arith, sym (append-nil (taken w))))

    header-Goes :
        (msg : Message) (ba : ByteArray) (w : W) (r : Transfer W)
        → 0 < max_len
        → IsValid ba
        → ba.base_size < 2 ^ 32
        → length (encoding msg) < 2 ^ 31
        → (view ba).bytes ≡ encoding msg
        → ba.position ≡ 0
        → ba.size ≡ length (encoding msg)
        → taken r.stream ++ r.bytes ≡ taken w ++ frame_header order msg
        → ((r.code ≡ pos (length (frame_header order msg))) × (r.bytes ≡ []))
          ⊎ (IsFailure r.code × (0 < length r.bytes))
        → Goes msg w (header_at ba r.code r.stream)
    header-Goes msg ba w r m i small k b p z e (inl (c, n)) =
        subst (Goes msg w)
          (sym (
            ap (λ c. header_at ba c r.stream)
              (c
                ∙ ap pos (
                    length-header
                      (new_header 0 (byteswap_on_little_endian order 4 (length (encoding msg))))
                      refl))
            ∙ ap (λ k. written_at ba (write_fix_array max_len connected send k r.stream ba))
                {x = get_read_size ba} {y = length (encoding msg)} (ground arith)))
          (body-Goes msg ba w r.stream i k b p
            (sym (append-nil _) ∙ ap (taken r.stream ++◌) (sym n) ∙ e)
            (write_fix_array-Drains max_len (length (encoding msg)) connected send taken r.stream ba
              takes k m i small (omega arith)))
    header-Goes msg ba w r m i small k b p z e (inr (c, n)) = (
      negsuc 2,
      r.stream,
      r.bytes ++ encoding msg,
      header_fails r.code ba r.stream c,
      sym (append_assoc (taken r.stream) r.bytes (encoding msg))
          ∙ ap (◌++ encoding msg) e
          ∙ append_assoc (taken w) (frame_header order msg) (encoding msg),
      inr ((2, refl), omega (arith, length-append r.bytes (encoding msg))),
    )

    frame-Goes :
        (msg : Message) (ba : ByteArray) (w : W)
        → 0 < max_len
        → IsValid ba
        → ba.base_size < 2 ^ 32
        → (view ba).bytes ≡ encoding msg
        → ba.position ≡ 0
        → ba.size ≡ length (encoding msg)
        → length (encoding msg) < 2 ^ 31
        → Goes msg w (write_frame fresh order max_len min_length gzip connected send 0 ba w)
    frame-Goes msg ba w m i small b p z h =
        let (r, q, f, c) =
          write_fix_size_ends max_len (write_buffer connected send) taken (frame_header order msg) w
            buffer_takes
            (omega (
              arith,
              length-header
                  (new_header 0 (byteswap_on_little_endian order 4 (length (encoding msg)))) refl,
            )) in
        subst (Goes msg w)
          (sym (
            ap
              (λ n. header_sent fresh order max_len min_length gzip connected send ba (
                write_fix_size max_len (write_buffer connected send)
                  (header_bytes (new_header 0 (byteswap_on_little_endian order 4 n))) w))
              {x = ba.size % 2 ^ 32} {y = length (encoding msg)} (omega (arith, z))
            ∙ ap (header_sent fresh order max_len min_length gzip connected send ba) q))
          (header-Goes msg ba w r m i small h b p z f c)

-- `serializeTo` of a message that fits its fields and is shorter than gzip_min_length and 2^31 bytes, on
-- any socket that takes a beginning of what it is given, returns: the number of bytes of the frame,
-- with the whole frame taken behind what was taken before, or a negative number, with only a beginning.
pub serialize_to-frame {ℓ} :
    {W : Type ℓ} (fresh : ℕ → ℕ → ℕ) (order : Endian) (max_len min_length : ℕ)
    (gzip : ByteArray → Zipped) (connected : W → Bool) (send : List ℕ → W → Sent × W)
    (taken : W → List ℕ) (msg : Message) (w : W)
    → ((bytes : List ℕ) (w : W)
        → (count_of (send bytes w).0 ≤ length bytes)
          × (taken (send bytes w).1 ≡ taken w ++ take (count_of (send bytes w).0) bytes))
    → 0 < max_len
    → Fits msg
    → length (encoding msg) < min_length
    → length (encoding msg) < 2 ^ 31
    → Goes fresh order max_len min_length gzip connected send taken msg w
        (serialize_to fresh order max_len min_length gzip connected send msg w)
unfolding serialize_to
serialize_to-frame fresh order max_len min_length gzip connected send taken msg w takes m h l k =
    let (s, r, v, b, eb, o) = to_byte_array-encoding fresh order msg h in
    let (t, rt, st) = set_position-Shows 0 s v (omega arith) in
    let bytes : (view t).bytes ≡ encoding msg = st.bytes ∙ rewound_bytes s ∙ b in
    let size : t.size ≡ length (encoding msg) =
      omega (arith, length-view t st.valid, ap length bytes) in
    subst (Goes fresh order max_len min_length gzip connected send taken msg w)
      (sym (
        ap (λ o. from_array fresh order max_len min_length gzip connected send o w) r
        ∙ ap (λ o. write_message fresh order max_len min_length gzip connected send o w) rt
        ∙ if-false (leb min_length (t.size % 2 ^ 32)) _ _ (ground arith)))
      (frame-Goes fresh order max_len min_length gzip connected send taken takes msg t w m st.valid
        (omega (arith, eb, st.base_size)) bytes st.position size k)
