-- ===== src/Transfer/Winsock.antt =====
-- `recv` and `send` of `Socket` (sylar/sylar/socket.cpp) and `do_socket` (sylar/sylar/hook.cpp), over what
-- Winsock does with an overlapped call.
use sylar_windows.Prelude.{
  ℕ, zero, suc, ◌-◌, List, [], ◌∷◌, ◌++◌, length, take, Bool, not, Option, none, some,
  if◌then◌else◌,
}
use sylar_windows.Descriptors.State.{FdCtx}
use sylar_windows.Transfer.Loops.{Piece, piece, refused, Sent, sent, rejected}

-- How an overlapped call ends that has moved `A`: at once; later, when its completion wakes the fiber; by
-- the timer, which sets `cancelled`; or with an error other than WSA_IO_PENDING.
pub data Ended {ℓ} (A : Type ℓ) : Type ℓ where
  at_once completes : A → Ended A
  times_out fails : Ended A

-- The number that `do_socket` returns, and what has been moved: a call that ends at once counts as the sum
-- `total` of the lengths of its buffers, and a later one as `dwDataLength`.
abbrev pub counted {ℓ} : {A : Type ℓ} → (A → ℕ) → ℕ → Ended A → ℕ × Option A
counted size total (at_once a) = (total, some a)
counted size total (completes a) = (size a, some a)
counted size total times_out = (0, none)
counted size total fails = (0, none)

-- `do_socket`; `context` is what `FdManager::get` gives for the socket, which has one from `s_socket` on, and `call` the function of Winsock.
-- The setting socket.buff_size is an `int32_t`, so that no sum of lengths needs to be cut to 32 bits.
unfoldable pub do_socket {ℓ ℓ'} :
    {W : Type ℓ} {A : Type ℓ'}
    → (W → FdCtx)
    → (A → ℕ)
    → ℕ
    → (W → Ended A × W)
    → W
    → (ℕ × Option A) × W
do_socket context size total call w =
    let ctx = context w in
    let r = call w in
    if ctx.is_closed
    then ((0, none), w)
    else if not ctx.is_socket
    then ((0, none), w)
    else (counted size total r.0, r.1)

-- What the buffer held before, from a place on.
abbrev pub stale : (ℕ → ℕ) → ℕ → ℕ → List ℕ
stale held i zero = []
stale held i (suc k) = held i ∷ stale held (suc i) k

-- The first `num` bytes of a buffer into which some have been received.
abbrev pub in_buffer : (ℕ → ℕ) → ℕ × Option (List ℕ) → Piece
in_buffer held (num, none) = piece (stale held 0 num)
in_buffer held (num, some bytes) =
    piece (take num bytes ++ stale held (length bytes) (num - length bytes))

-- `Socket::recv` into `n` bytes, of one buffer or of several; `held` is what they held.
unfoldable pub socket_recv {ℓ} :
    {W : Type ℓ}
    → (W → Bool)
    → (W → FdCtx)
    → (W → ℕ → ℕ)
    → (ℕ → W → Ended (List ℕ) × W)
    → ℕ
    → W
    → Piece × W
socket_recv connected context held wsa_recv n w =
    let r = do_socket context length n (λ w. wsa_recv n w) w in
    if connected w then (in_buffer (held w) r.0, r.1) else (refused 0, w)

-- `if (rt == 0) return num`, where `num` is what the variable holds that nothing has been stored in.
abbrev pub sent_count : Sent → ℕ → Sent
sent_count num zero = num
sent_count num (suc n) = sent (suc n)

abbrev pub itself : ℕ → ℕ
itself n = n

-- `Socket::send`, of one buffer or of several.
unfoldable pub socket_send {ℓ} :
    {W : Type ℓ}
    → (W → Bool)
    → (W → FdCtx)
    → (W → Sent)
    → (List ℕ → W → Ended ℕ × W)
    → List ℕ
    → W
    → Sent × W
socket_send connected context num wsa_send bytes w =
    let r = do_socket context itself (length bytes) (λ w. wsa_send bytes w) w in
    if connected w then (sent_count (num w) r.0.0, r.1) else (rejected 0, w)
