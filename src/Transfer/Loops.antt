-- ===== src/Transfer/Loops.antt =====
-- The loops of `readFixSize(buffer, length)` and `writeFixSize(buffer, length)`, over any stream.
use sylar_windows.Prelude.Int.{ℤ, pos, negsuc, of_word}
use sylar_windows.Prelude.{
  ℕ, zero, suc, ◌-◌, min, List, [], ◌∷◌, ◌++◌, length, take, drop, Option, none, some, ◌^◌, ◌%◌,
  ltb, if◌then◌else◌,
}

-- What `read` and `write` return: a count that is not negative, for a read with the bytes, or a negative
-- number, `refused k` being -(k + 1).
pub data Piece : Type 0 where
  piece : List ℕ → Piece
  refused : ℕ → Piece

pub data Sent : Type 0 where
  sent : ℕ → Sent
  rejected : ℕ → Sent

-- The end of a transfer: the number that is returned, the bytes that were read, or the bytes that are
-- left to write, and the stream.
pub record Transfer {ℓ} (W : Type ℓ) : Type ℓ where
  pub code : ℤ
  pub bytes : List ℕ
  pub stream : W

abbrev pub more {ℓ} : {W : Type ℓ} → List ℕ → Transfer W → Transfer W
more bytes r = record r { bytes = bytes ++ r.bytes }

abbrev pub map_transfer {ℓ} :
    {W : Type ℓ} → (Transfer W → Transfer W) → Option (Transfer W) → Option (Transfer W)
map_transfer f none = none
map_transfer f (some r) = some (f r)

-- The bytes of a read, and the count of a write.
abbrev pub bytes_of : Piece → List ℕ
bytes_of (piece bytes) = bytes
bytes_of (refused k) = []

abbrev pub count_of : Sent → ℕ
count_of (sent n) = n
count_of (rejected k) = 0

abbrev pub returned : Sent → ℤ
returned (sent n) = pos n
returned (rejected k) = negsuc k

-- `return length`, of a `size_t` as an `int`, and `int64_t left = length`, where a negative number ends the
-- loop at once as 0 does. A buffer is shorter than 2^63 bytes.
abbrev pub as_int : ℕ → ℤ
as_int n = of_word (2 ^ 31) (n % 2 ^ 32)

abbrev pub as_left : ℕ → ℕ
as_left n = if ltb n (2 ^ 63) then n else 0

-- A stream of type `W`: `read n` reads at most `n` bytes, `write bytes` writes some of them. `max_len` is
-- the setting socket.buff_size, and `length` in the code is `total`.
module _ {ℓ} {W : Type ℓ} (max_len total : ℕ) where
  -- The body of the loop: `rest` is what the following rounds come to.
  abbrev pub after_read : Piece → W → Option (Transfer W) → Option (Transfer W)
  after_read (refused k) w rest = some (record { code = negsuc k; bytes = []; stream = w })
  after_read (piece []) w rest = some (record { code = pos 0; bytes = []; stream = w })
  after_read (piece (b ∷ bs)) w rest = map_transfer (more (b ∷ bs)) rest

  -- The loop, `left` bytes from its end; `none` is a loop that goes on.
  unfoldable pub read_fix_loop : (ℕ → W → Piece × W) → ℕ → ℕ → W → Option (Transfer W)
  read_fix_loop read zero left w = none
  read_fix_loop read (suc fuel) zero w =
      some (record { code = as_int total; bytes = []; stream = w })
  read_fix_loop read (suc fuel) (suc left) w =
      let r = read (min (suc left) max_len) w in
      let rest = read_fix_loop read fuel (suc left - length (bytes_of r.0)) r.1 in
      after_read r.0 r.1 rest

  -- The body of the loop of `writeFixSize`, with the bytes that are left.
  abbrev pub after_write : Sent → List ℕ → W → Option (Transfer W) → Option (Transfer W)
  after_write (rejected k) left w rest = some (record { code = negsuc k; bytes = left; stream = w })
  after_write (sent zero) left w rest = some (record { code = pos 0; bytes = left; stream = w })
  after_write (sent (suc n)) left w rest = rest

  unfoldable pub write_fix_loop : (List ℕ → W → Sent × W) → ℕ → List ℕ → W → Option (Transfer W)
  write_fix_loop write zero left w = none
  write_fix_loop write (suc fuel) [] w =
      some (record { code = as_int total; bytes = []; stream = w })
  write_fix_loop write (suc fuel) (b ∷ bs) w =
      let r = write (take max_len (b ∷ bs)) w in
      let rest = write_fix_loop write fuel (drop (count_of r.0) (b ∷ bs)) r.1 in
      after_write r.0 (b ∷ bs) r.1 rest

-- `readFixSize` and `writeFixSize`, with a round for each byte, and one to see that none is left.
unfoldable pub read_fix_size {ℓ} :
    {W : Type ℓ} → ℕ → (ℕ → W → Piece × W) → ℕ → W → Option (Transfer W)
read_fix_size max_len read total w = read_fix_loop max_len total read (suc total) (as_left total) w

unfoldable pub write_fix_size {ℓ} :
    {W : Type ℓ} → ℕ → (List ℕ → W → Sent × W) → List ℕ → W → Option (Transfer W)
write_fix_size max_len write buffer w =
    write_fix_loop max_len (length buffer) write (suc (length buffer)) buffer w
