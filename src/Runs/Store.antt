-- ===== src/Runs/Store.antt =====
-- Runs of the operations on the blocks.
use sylar_windows.Prelude.{ℕ, ◌≡◌, refl, arith, List, [], ◌∷◌}
use sylar_windows.ByteArray.State.{ByteArray, Outcome, returns, throws, faults, ◌>>=◌}
use sylar_windows.ByteArray.Store.{
  write, write_loop, add_capacity, link_blocks, new_nodes, read, read_loop, prepend, set_position,
  seek, to_string,
}
use sylar_windows.ByteArray.View.{view, tape_write, tape_skip, Shows}
use sylar_windows.ByteArray.Writes.{write-Shows}
use sylar_windows.ByteArray.Reads.{read-Shows, read_zero_faults, to_string-unread}
use sylar_windows.Runs.Samples.{blank, loaded, full, loaded-IsValid, full-IsValid}

abbrev digits : List ℕ
digits = 1 ∷ 2 ∷ 3 ∷ 4 ∷ 5 ∷ 6 ∷ 7 ∷ 8 ∷ 9 ∷ []

-- Nine bytes over three blocks, then four of them from the fourth on.
abbrev bytes_of : Outcome (List ℕ) → List ℕ
bytes_of (returns bytes s) = bytes
bytes_of (throws s) = []
bytes_of faults = []

write_seek_read :
    bytes_of ((write digits >>= λ _. set_position 3 >>= λ _. read 4) blank) ≡ 4 ∷ 5 ∷ 6 ∷ 7 ∷ []
unfolding write write_loop add_capacity link_blocks new_nodes set_position seek read read_loop
    prepend
write_seek_read = refl

rest_of_loaded : bytes_of (to_string loaded) ≡ 2 ∷ 3 ∷ 4 ∷ 5 ∷ 6 ∷ 7 ∷ []
rest_of_loaded = rw (to_string-unread loaded loaded-IsValid) refl

write-Shows_example :
    (t : ByteArray) × (write digits loaded ≡ returns tt t)
    × Shows loaded (tape_write digits (view loaded)) t
write-Shows_example = write-Shows digits loaded loaded-IsValid

read-Shows_example :
    (t : ByteArray) × (read 5 loaded ≡ returns (2 ∷ 3 ∷ 4 ∷ 5 ∷ 6 ∷ []) t)
    × Shows loaded (tape_skip 5 (view loaded)) t
    × (t.capacity ≡ 8)
read-Shows_example = read-Shows 5 loaded loaded-IsValid (omega arith) (omega arith)

read_zero_faults_example : read 0 full ≡ faults
read_zero_faults_example = read_zero_faults full full-IsValid refl
