-- ===== src/Transfer/Sockets.antt =====
-- What `recv` and `send` of `Socket` give, where calls of Winsock that end at once move all they can.
use sylar_windows.Prelude.{
  ℕ, zero, suc, ◌-◌, ◌≤◌, ◌≡◌, refl, sym, ap, ◌∙◌, subst, arith, List, [], ◌++◌, length, take, Bool,
  not, Option, some, if-cases,
}
use mathlib.Core.List.{append-nil}
use sylar_windows.Prelude.Slices.{take-all}
use sylar_windows.ByteArray.State.{ByteArray}
use sylar_windows.Descriptors.State.{FdCtx}
use sylar_windows.Transfer.Loops.{Piece, piece, Sent, bytes_of, count_of}
use sylar_windows.Transfer.Winsock.{
  Ended, at_once, completes, times_out, fails, counted, do_socket, stale, in_buffer, socket_recv,
  sent_count, itself, socket_send,
}

-- A receive into `n` bytes takes the next bytes of the peer, at most `n`, and `n` if it ends at once; it takes
-- none if it fails or is cancelled.
abbrev pub Receives {ℓ} : {W : Type ℓ} → (W → List ℕ) → ℕ → W → Ended (List ℕ) → W → Type 0
Receives pending n w (at_once bytes) w' = (length bytes ≡ n) × (pending w ≡ bytes ++ pending w')
Receives pending n w (completes bytes) w' = (length bytes ≤ n) × (pending w ≡ bytes ++ pending w')
Receives pending n w times_out w' = pending w ≡ pending w'
Receives pending n w fails w' = pending w ≡ pending w'

-- What `readFixSize` needs of a read.
abbrev pub Gives {ℓ} : {W : Type ℓ} → (W → List ℕ) → ℕ → W → Piece × W → Type 0
Gives pending n w r = (length (bytes_of r.0) ≤ n) × (pending w ≡ bytes_of r.0 ++ pending r.1)

-- A send takes a beginning of the bytes, all of them if it ends at once, and none if it fails or is cancelled.
abbrev pub Sends {ℓ} : {W : Type ℓ} → (W → List ℕ) → List ℕ → W → Ended ℕ → W → Type 0
Sends taken bytes w (at_once n) w' = (n ≡ length bytes) × (taken w' ≡ taken w ++ take n bytes)
Sends taken bytes w (completes n) w' = (n ≤ length bytes) × (taken w' ≡ taken w ++ take n bytes)
Sends taken bytes w times_out w' = taken w' ≡ taken w
Sends taken bytes w fails w' = taken w' ≡ taken w

-- What `writeFixSize` needs of a write.
abbrev pub Takes {ℓ} : {W : Type ℓ} → (W → List ℕ) → List ℕ → W → Sent × W → Type 0
Takes taken bytes w r =
    (count_of r.0 ≤ length bytes) × (taken r.1 ≡ taken w ++ take (count_of r.0) bytes)

in_buffer-whole :
    (held : ℕ → ℕ) (num : ℕ) (bytes : List ℕ)
    → num ≡ length bytes
    → in_buffer held (num, some bytes) ≡ piece bytes
in_buffer-whole held num bytes l =
    ap (λ k. piece (take num bytes ++ stale held (length bytes) k)) {x = num - length bytes} {y = 0}
      (omega (arith, l))
    ∙ ap (λ b. piece (b ++ [])) (take-all num bytes (omega (arith, l)))
    ∙ ap piece (append-nil bytes)

-- A receive that ends at once with less than the buffer holds: `do_socket` counts the whole buffer, and
-- what stood in it before follows the bytes of the peer.
pub short_receive :
    (held : ℕ → ℕ) (n : ℕ) (bytes : List ℕ)
    → length bytes ≤ n
    → in_buffer held (counted length n (at_once bytes))
      ≡ piece (bytes ++ stale held (length bytes) (n - length bytes))
short_receive held n bytes h =
    ap (λ b. piece (b ++ stale held (length bytes) (n - length bytes))) (take-all n bytes h)

module _ {ℓ} {W : Type ℓ} (connected : W → Bool) (context : W → FdCtx) where
  module _ (pending : W → List ℕ) (held : W → ℕ → ℕ) where
    counted-Gives :
        (n : ℕ) (w w' : W) (p : Ended (List ℕ))
        → Receives pending n w p w'
        → Gives pending n w (in_buffer (held w) (counted length n p), w')
    counted-Gives n w w' (at_once bytes) (l, e) =
        subst (λ p. Gives pending n w (p, w')) (sym (in_buffer-whole (held w) n bytes (sym l)))
          (omega (arith, l), e)
    counted-Gives n w w' (completes bytes) (l, e) =
        subst (λ p. Gives pending n w (p, w'))
          (sym (in_buffer-whole (held w) (length bytes) bytes refl)) (l, e)
    counted-Gives n w w' times_out e = (omega arith, e)
    counted-Gives n w w' fails e = (omega arith, e)

    pub socket_recv-Gives :
        (wsa_recv : ℕ → W → Ended (List ℕ) × W)
        → ((n : ℕ) (w : W) → Receives pending n w (wsa_recv n w).0 (wsa_recv n w).1)
        → (n : ℕ) (w : W) → Gives pending n w (socket_recv connected context held wsa_recv n w)
    unfolding socket_recv do_socket
    socket_recv-Gives wsa_recv law n w =
        if-cases {A = Piece × W} (Gives pending n w) (connected w) _ _
          (λ e.
            if-cases {A = (ℕ × Option (List ℕ)) × W}
              (λ r. Gives pending n w (in_buffer (held w) r.0, r.1)) (context w).is_closed _ _
              (λ k. (omega arith, refl))
              (λ k.
                if-cases {A = (ℕ × Option (List ℕ)) × W}
                  (λ r. Gives pending n w (in_buffer (held w) r.0, r.1)) (not (context w).is_socket)
                  _ _ (λ j. (omega arith, refl))
                  (λ j. counted-Gives n w (wsa_recv n w).1 (wsa_recv n w).0 (law n w))))
          (λ e. (omega arith, refl))

  count_of-sent_count : (u : Sent) (k : ℕ) → count_of u ≡ 0 → count_of (sent_count u k) ≡ k
  count_of-sent_count u zero h = h
  count_of-sent_count u (suc k) h = refl

  module _ (taken : W → List ℕ) (num : W → Sent) (unset : (w : W) → count_of (num w) ≡ 0) where
    answered :
        (bytes : List ℕ) (w w' : W) (k : ℕ)
        → k ≤ length bytes
        → taken w' ≡ taken w ++ take k bytes
        → Takes taken bytes w (sent_count (num w) k, w')
    answered bytes w w' k h e =
        let c = count_of-sent_count (num w) k (unset w) in
        (omega (arith, c), e ∙ ap (λ n. taken w ++ take n bytes) (sym c))

    counted-Takes :
        (bytes : List ℕ) (w w' : W) (p : Ended ℕ)
        → Sends taken bytes w p w'
        → Takes taken bytes w (sent_count (num w) (counted itself (length bytes) p).0, w')
    counted-Takes bytes w w' (at_once n) (l, e) =
        answered bytes w w' (length bytes) (omega arith) (e ∙ ap (λ n. taken w ++ take n bytes) l)
    counted-Takes bytes w w' (completes n) (l, e) = answered bytes w w' n l e
    counted-Takes bytes w w' times_out e =
        answered bytes w w' 0 (omega arith) (e ∙ sym (append-nil (taken w)))
    counted-Takes bytes w w' fails e =
        answered bytes w w' 0 (omega arith) (e ∙ sym (append-nil (taken w)))

    pub socket_send-Takes :
        (wsa_send : List ℕ → W → Ended ℕ × W)
        → ((bytes : List ℕ) (w : W) → Sends taken bytes w (wsa_send bytes w).0 (wsa_send bytes w).1)
        → (bytes : List ℕ) (w : W)
        → Takes taken bytes w (socket_send connected context num wsa_send bytes w)
    unfolding socket_send do_socket
    socket_send-Takes wsa_send law bytes w =
        if-cases {A = Sent × W} (Takes taken bytes w) (connected w) _ _
          (λ e.
            if-cases {A = (ℕ × Option ℕ) × W}
              (λ r. Takes taken bytes w (sent_count (num w) r.0.0, r.1)) (context w).is_closed _ _
              (λ k. nothing)
              (λ k.
                if-cases {A = (ℕ × Option ℕ) × W}
                  (λ r. Takes taken bytes w (sent_count (num w) r.0.0, r.1))
                  (not (context w).is_socket) _ _ (λ j. nothing)
                  (λ j.
                    counted-Takes bytes w (wsa_send bytes w).1 (wsa_send bytes w).0 (law bytes w))))
          (λ e. (omega arith, sym (append-nil (taken w))))
      where
        nothing : Takes taken bytes w (sent_count (num w) 0, w)
        nothing = answered bytes w w 0 (omega arith) (sym (append-nil (taken w)))
