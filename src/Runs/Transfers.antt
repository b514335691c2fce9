-- ===== src/Runs/Transfers.antt =====
-- Runs of the two loops, over a stream that gives two bytes at a time and one that takes three.
use sylar_windows.Prelude.{ℕ, ◌≡◌, refl, min, List, [], ◌∷◌, ◌++◌, length, take, drop, some}
use sylar_windows.Prelude.Int.{pos}
use sylar_windows.Transfer.Loops.{
  Piece, piece, Sent, sent, read_fix_size, read_fix_loop, write_fix_size, write_fix_loop,
}

abbrev by_two : ℕ → List ℕ → Piece × List ℕ
by_two n w = (piece (take (min n 2) w), drop (min n 2) w)

abbrev by_three : List ℕ → List ℕ → Sent × List ℕ
by_three bytes w = (sent (min 3 (length bytes)), w ++ take (min 3 (length bytes)) bytes)

abbrev waiting_bytes : List ℕ
waiting_bytes = 1 ∷ 2 ∷ 3 ∷ 4 ∷ 5 ∷ 6 ∷ 7 ∷ []

-- Five bytes in three rounds, and a peer that has only seven of the nine asked for.
five :
    read_fix_size 16384 by_two 5 waiting_bytes
    ≡ some (record { code = pos 5; bytes = 1 ∷ 2 ∷ 3 ∷ 4 ∷ 5 ∷ []; stream = 6 ∷ 7 ∷ [] })
unfolding read_fix_size read_fix_loop
five = refl

too_few :
    read_fix_size 16384 by_two 9 waiting_bytes
    ≡ some (record { code = pos 0; bytes = waiting_bytes; stream = [] })
unfolding read_fix_size read_fix_loop
too_few = refl

all_written :
    write_fix_size 16384 by_three waiting_bytes []
    ≡ some (record { code = pos 7; bytes = []; stream = waiting_bytes })
unfolding write_fix_size write_fix_loop
all_written = refl
