-- ===== src/Transfer/Arrays.antt =====
-- `SocketStream::read` and `write` on a `ByteArray`, and the loops of `readFixSize` and `writeFixSize`
-- around them.
use sylar_windows.Prelude.Int.{ℤ, pos, negsuc}
use sylar_windows.Prelude.{
  ℕ, zero, suc, ◌+◌, ◌-◌, min, List, [], ◌∷◌, ◌++◌, length, take, drop, Bool, Option, none, some,
  if◌then◌else◌,
}
use sylar_windows.ByteArray.State.{ByteArray, Outcome, returns, throws, faults, Method, after, pure}
use sylar_windows.ByteArray.Store.{set_position}
use sylar_windows.ByteArray.Buffers.{Buffer, get_read_buffers, get_write_buffers, gather, scatter}
use sylar_windows.Transfer.Loops.{Piece, piece, refused, Sent, sent, rejected, as_int, as_left}

-- The blocks behind a receive; which of them is current is as it was.
abbrev pub received : List ℕ → List Buffer → ByteArray → ByteArray
received bytes bs t =
    let nodes = scatter bytes bs (t.passed ++ t.ahead) in
    record t { passed = take (length t.passed) nodes; ahead = drop (length t.passed) nodes }

-- `setPosition(getPosition() + rt)`, and the return.
abbrev pub move_on {ℓ} : {W : Type ℓ} → ℕ → W → Method (ℤ × W)
move_on n w s = after (set_position (s.position + n) s) (λ _. pure (pos n, w))

-- A socket of type `W`: `recv` fills buffers of so many bytes in order, and `send` takes from them. Those of
-- `Socket` are socket_recv and socket_send of the module Winsock.
module _ {ℓ} {W : Type ℓ} (connected : W → Bool) where
  abbrev pub arrive : List Buffer → Piece → W → Method (ℤ × W)
  arrive bs (refused k) w s = returns (negsuc k, w) s
  arrive bs (piece []) w s = returns (pos 0, w) s
  arrive bs (piece (b ∷ bytes)) w s = move_on (length (b ∷ bytes)) w (received (b ∷ bytes) bs s)

  -- With no buffers the code takes the address of the first element of an empty vector.
  abbrev pub receive : (ℕ → W → Piece × W) → Option (List Buffer × ℕ) → W → Method (ℤ × W)
  receive recv none w s = faults
  receive recv (some ([], size)) w s = faults
  receive recv (some (b ∷ bs, size)) w s = let r = recv size w in arrive (b ∷ bs) r.0 r.1 s

  -- `read(ByteArray, length)`.
  unfoldable pub read_array : (ℕ → W → Piece × W) → ℕ → W → Method (ℤ × W)
  read_array recv len w s =
      let r = get_write_buffers len s in
      if connected w then receive recv r.0 w r.1 else returns (negsuc 0, w) s

  abbrev pub depart : Sent → W → Method (ℤ × W)
  depart (rejected k) w s = returns (negsuc k, w) s
  depart (sent zero) w s = returns (pos 0, w) s
  depart (sent (suc n)) w s = move_on (suc n) w s

  abbrev pub transmit : (List ℕ → W → Sent × W) → Option (List Buffer × ℕ) → W → Method (ℤ × W)
  transmit send none w s = faults
  transmit send (some ([], size)) w s = faults
  transmit send (some (b ∷ bs, size)) w s =
      let r = send (gather (s.passed ++ s.ahead) (b ∷ bs)) w in depart r.0 r.1 s

  -- `write(ByteArray, length)`.
  unfoldable pub write_array : (List ℕ → W → Sent × W) → ℕ → W → Method (ℤ × W)
  write_array send len w s =
      if connected w then transmit send (get_read_buffers len s) w s else returns (negsuc 0, w) s

-- The loop of `readFixSize` and of `writeFixSize` on a `ByteArray`, around `move`, which is `read` or
-- `write`; `none` is a loop that goes on.
module _ {ℓ} {W : Type ℓ} (max_len total : ℕ) (move : ℕ → W → Method (ℤ × W)) where
  abbrev pub after_move :
      Outcome (ℤ × W) → (ℕ → W → ByteArray → Option (Outcome (ℤ × W))) → Option (Outcome (ℤ × W))
  after_move (returns (pos zero, w) s) rest = some (returns (pos 0, w) s)
  after_move (returns (pos (suc n), w) s) rest = rest (suc n) w s
  after_move (returns (negsuc k, w) s) rest = some (returns (negsuc k, w) s)
  after_move (throws s) rest = some (throws s)
  after_move faults rest = some faults

  unfoldable pub move_fix_loop : ℕ → ℕ → W → ByteArray → Option (Outcome (ℤ × W))
  move_fix_loop zero left w s = none
  move_fix_loop (suc fuel) zero w s = some (returns (as_int total, w) s)
  move_fix_loop (suc fuel) (suc left) w s =
      after_move (move (min (suc left) max_len) w s)
        (λ n w s. move_fix_loop fuel (suc left - n) w s)

-- `readFixSize(ByteArray, length)` and `writeFixSize(ByteArray, length)`.
unfoldable pub read_fix_array {ℓ} :
    {W : Type ℓ}
    → ℕ
    → (W → Bool)
    → (ℕ → W → Piece × W)
    → ℕ
    → W
    → ByteArray
    → Option (Outcome (ℤ × W))
read_fix_array max_len connected recv total w s =
    move_fix_loop max_len total (read_array connected recv) (suc total) (as_left total) w s

unfoldable pub write_fix_array {ℓ} :
    {W : Type ℓ}
    → ℕ
    → (W → Bool)
    → (List ℕ → W → Sent × W)
    → ℕ
    → W
    → ByteArray
    → Option (Outcome (ℤ × W))
write_fix_array max_len connected send total w s =
    move_fix_loop max_len total (write_array connected send) (suc total) (as_left total) w s
