-- ===== src/Runs/Frames.antt =====
-- Runs of the frames of the Rock protocol, over a socket that is the list of the bytes in it.
use sylar_windows.Prelude.{
  ℕ, ◌-◌, ◌≡◌, refl, arith, min, List, [], ◌∷◌, ◌++◌, length, take, drop, Bool, true, false, none,
  some, Option, ◌^◌,
}
use sylar_windows.Endia.{little, le_bytes, byteswap_on_little_endian, byteswap, of_le_bytes}
use sylar_windows.ByteArray.State.{ByteArray, new_byte_array}
use sylar_windows.ByteArray.View.{view, unread}
use sylar_windows.ByteArray.Buffers.{
  get_read_buffers, get_read_buffers_at, get_write_buffers, buffers_loop, scatter,
}
use sylar_windows.ByteArray.Store.{
  add_capacity, link_blocks, new_nodes, set_position, seek, read, read_loop, prepend,
}
use sylar_windows.ByteArray.Values.{read_fuint8, read_string_f32, read_fixed}
use sylar_windows.ByteArray.Buffers.Gathering.{Holds, get_read_buffers-Holds}
use sylar_windows.Transfer.Loops.{Piece, piece, Sent, sent, read_fix_size, read_fix_loop}
use sylar_windows.Transfer.Arrays.{read_fix_array, read_array, move_fix_loop}
use sylar_windows.Transfer.Winsock.{Ended, at_once, completes, do_socket, socket_recv, socket_send}
use sylar_windows.Descriptors.State.{FdCtx, minus_one}
use sylar_windows.Rock.Message.{
  Message, request, parse_message, parse_rock_request, parse_request, parse_body,
}
use sylar_windows.Rock.Headers.{frame}
use sylar_windows.Rock.Frame.{Decoded, decoded, parse_from, header_of, header_bytes, new_header}
use sylar_windows.Runs.Samples.{loaded, loaded-IsValid}

-- Receives and sends that complete later, with three bytes at a time.
abbrev give : ℕ → List ℕ → Ended (List ℕ) × List ℕ
give n w = (completes (take (min n 3) w), drop (min n 3) w)

abbrev accept : List ℕ → List ℕ → Ended ℕ × List ℕ
accept bytes w = (completes (min 3 (length bytes)), w ++ take (min 3 (length bytes)) bytes)

abbrev open_socket : List ℕ → Bool
open_socket w = true

abbrev a_socket : List ℕ → FdCtx
a_socket w = record {
  is_init = true;
  is_socket = true;
  sys_nonblock = true;
  user_nonblock = false;
  is_closed = false;
  fd = 4;
  recv_timeout = minus_one;
  send_timeout = minus_one;
}

abbrev zeros : List ℕ → ℕ → ℕ
zeros w i = 0

abbrev recv3 : ℕ → List ℕ → Piece × List ℕ
recv3 = socket_recv open_socket a_socket zeros give

abbrev send3 : List ℕ → List ℕ → Sent × List ℕ
send3 = socket_send open_socket a_socket (λ w. sent 0) accept

-- Four bytes into a buffer of six, at once: six are counted.
six_counted :
    socket_recv open_socket a_socket zeros
      (λ n w. (at_once (take 4 w), drop 4 w))
      6
      (1 ∷ 2 ∷ 3 ∷ 4 ∷ [])
    ≡ (piece (1 ∷ 2 ∷ 3 ∷ 4 ∷ 0 ∷ 0 ∷ []), [])
unfolding socket_recv do_socket
six_counted = refl

get_read_buffers-Holds_example :
    Holds loaded (take 5 (unread (view loaded))) (get_read_buffers 5 loaded)
get_read_buffers-Holds_example = get_read_buffers-Holds 5 loaded loaded-IsValid (omega arith)

-- An array that has been written and not rewound has nothing to read, and so lists nothing from its
-- beginning either.
abbrev written : ByteArray
written = record loaded { position = loaded.size }

nothing_listed : get_read_buffers_at (2 ^ 64 - 1) 0 written ≡ some ([], 0)
unfolding get_read_buffers_at
nothing_listed = refl

abbrev small : ByteArray
small = new_byte_array (λ k i. 0) little 4

abbrev eight_bytes : List ℕ
eight_bytes = 1 ∷ 2 ∷ 3 ∷ 4 ∷ 5 ∷ 6 ∷ 7 ∷ 8 ∷ []

abbrev ping : Message
ping = request (record { sn = 1; cmd = 100; time = 0 }) (b'h' ∷ b'i' ∷ [])

abbrev too_long : List ℕ
too_long = header_bytes (new_header 1 (byteswap_on_little_endian little 4 12)) ++ []

-- The whole way, on a socket that moves three bytes at a time.
abbrev arrives : Decoded (List ℕ) → Option (List ℕ)
arrives (decoded (some msg) w) = some w
arrives d = none

arrives-ping :
    arrives (
      parse_from
        (λ k i. 0)
        little
        50
        16384
        67108864
        (λ ba. none)
        open_socket
        recv3
        (frame little ping ++ 9 ∷ []))
    ≡ some (9 ∷ [])
unfolding parse_from read_fix_size read_fix_loop header_of header_bytes le_bytes of_le_bytes
    byteswap byteswap_on_little_endian read_fix_array move_fix_loop read_array get_write_buffers
    buffers_loop scatter add_capacity link_blocks new_nodes set_position seek parse_message
    parse_rock_request parse_request parse_body read read_loop prepend new_byte_array read_fuint8
    socket_recv do_socket read_string_f32 read_fixed
arrives-ping = refl
