-- ===== src/Runs/Messages.antt =====
-- Runs of the Rock messages.
use sylar_windows.Prelude.{ℕ, ◌≡◌, refl, arith, List, [], ◌∷◌, ◌++◌, length, true, some, inl}
use sylar_windows.Endia.{little, big, le_bytes}
use sylar_windows.ByteArray.State.{ByteArray, returns, faults}
use sylar_windows.ByteArray.Store.{set_position}
use sylar_windows.ByteArray.Invariant.{IsValid}
use sylar_windows.ByteArray.View.{view, unread}
use sylar_windows.Rock.Message.{Message, request, notice, to_byte_array, parse_message}
use sylar_windows.Rock.Emitting.{payload}
use sylar_windows.Rock.RoundTrip.{encoding, parse_message-to_byte_array}
use sylar_windows.Rock.Faults.{parse_message_faults}
use sylar_windows.Rock.Safety.{Answers, parse_message-Answers}
use sylar_windows.Runs.Samples.{loaded, loaded-IsValid}

abbrev call : Message
call = request (record { sn = 1; cmd = 100; time = 0 }) (b'h' ∷ b'i' ∷ [])

parse_message-to_byte_array_example :
    (s t u : ByteArray) × (to_byte_array (λ k i. 0) big call ≡ returns true s)
    × (set_position 0 s ≡ returns tt t)
    × (parse_message 50 t
        ≡ returns (some (request (record { sn = 1; cmd = 100; time = 50 }) (b'h' ∷ b'i' ∷ []))) u)
    × (u.position ≡ length (encoding call))
parse_message-to_byte_array_example =
    parse_message-to_byte_array (λ k i. 0) big 50 call (omega arith) (inl (omega arith))

parse_message-Answers_example : Answers loaded (parse_message 50 loaded)
parse_message-Answers_example = parse_message-Answers 50 loaded loaded-IsValid

-- A notice with no body, alone in a store of its size.
abbrev bare : Message
bare = notice (record { notify = 7 }) []

abbrev bare_bytes : List ℕ
bare_bytes = 3 ∷ 7 ∷ 0 ∷ 0 ∷ 0 ∷ 0 ∷ 0 ∷ 0 ∷ 0 ∷ []

abbrev bare_store : ByteArray
bare_store = record loaded {
  base_size = 9;
  position = 0;
  capacity = 9;
  size = 9;
  ahead = record { mem = bare_bytes; size = 9 } ∷ [];
  byte_order = little;
}

bare_store-IsValid : IsValid bare_store
bare_store-IsValid = omega arith

unread-bare : unread (view bare_store) ≡ le_bytes 1 3 ++ payload true bare
unfolding le_bytes
unread-bare = refl

parse_message_faults_example : parse_message 50 bare_store ≡ faults
parse_message_faults_example =
    parse_message_faults 50 bare bare_store (omega arith) refl bare_store-IsValid unread-bare refl
