-- ===== src/Rock/Frame.antt =====
-- `RockMsgHeader` and `RockMessageDecoder` (sylar/sylar/rock/rock_protocol.h, rock_protocol.cpp): a message
-- on a socket.
use sylar_windows.Prelude.Int.{ℤ, pos, negsuc}
use sylar_windows.Prelude.{
  ℕ, zero, suc, ◌+◌, ◌%◌, ◌^◌, List, [], ◌∷◌, ◌++◌, take, drop, Bool, true, false, not, ◌&&◌,
  Option, none, some, leb, ◌==◌, if◌then◌else◌,
}
use sylar_windows.Endia.{Endian, le_bytes, of_le_bytes, byteswap_on_little_endian}
use sylar_windows.ByteArray.State.{
  ByteArray, Outcome, returns, throws, faults, new_byte_array, get_read_size,
}
use sylar_windows.ByteArray.Store.{set_position}
use sylar_windows.Transfer.Loops.{
  Piece, refused, Sent, rejected, Transfer, read_fix_size, write_fix_size,
}
use sylar_windows.Transfer.Arrays.{read_fix_array, write_fix_array}
use sylar_windows.Rock.Message.{Message, to_byte_array, parse_message}

-- `RockMsgHeader`; `len` is the number at `length`, an `int32_t`, by its 32 bits.
pub record Header : Type 0 where
  pub magic : List ℕ
  pub version : ℕ
  pub flag : ℕ
  pub len : ℕ

-- The memory of a header, which has no padding, and the header in 8 bytes.
unfoldable pub header_bytes : Header → List ℕ
header_bytes h = h.magic ++ h.version ∷ h.flag ∷ le_bytes 4 h.len

abbrev pub head_or : ℕ → List ℕ → ℕ
head_or a [] = a
head_or a (b ∷ bs) = b

unfoldable pub header_of : List ℕ → Header
header_of bytes = record {
  magic = take 2 bytes;
  version = head_or 0 (drop 2 bytes);
  flag = head_or 0 (drop 3 bytes);
  len = of_le_bytes (drop 4 bytes);
}

-- `s_rock_magic`, and `RockMsgHeader()` with a flag and a length.
abbrev pub rock_magic : List ℕ
rock_magic = 0x12 ∷ 0x21 ∷ []

abbrev pub new_header : ℕ → ℕ → Header
new_header flag len = record { magic = rock_magic; version = 1; flag = flag; len = len }

abbrev pub same_bytes : List ℕ → List ℕ → Bool
same_bytes [] [] = true
same_bytes (a ∷ as') (b ∷ bs) = (a == b) && same_bytes as' bs
same_bytes as' bs = false

-- How `parseFrom` ends: it returns a message or null, it returns null behind an exception from a read,
-- it faults, or a loop goes on.
pub data Decoded {ℓ} (W : Type ℓ) : Type ℓ where
  decoded : Option Message → W → Decoded W
  caught : Decoded W
  faulted : Decoded W
  endless : Decoded W

-- `SocketStream::read` and `write` on a buffer.
abbrev pub read_buffer {ℓ} : {W : Type ℓ} → (W → Bool) → (ℕ → W → Piece × W) → ℕ → W → Piece × W
read_buffer connected recv n w = if connected w then recv n w else (refused 0, w)

abbrev pub write_buffer {ℓ} :
    {W : Type ℓ} → (W → Bool) → (List ℕ → W → Sent × W) → List ℕ → W → Sent × W
write_buffer connected send bytes w = if connected w then send bytes w else (rejected 0, w)

-- `max_len` is the setting socket.buff_size, `min_length` rock.protocol.gzip_min_length, and `ungzip` what
-- a `ZlibStream` makes of an array, if it makes something of it.
module _ {ℓ} {W : Type ℓ} (fresh : ℕ → ℕ → ℕ) (order : Endian) (now max_len min_length : ℕ)
    (ungzip : ByteArray → Option ByteArray) (connected : W → Bool) (recv : ℕ → W → Piece × W) where
  abbrev pub parsed : W → Outcome (Option Message) → Decoded W
  parsed w (returns msg t) = decoded msg w
  parsed w (throws t) = decoded none w
  parsed w faults = faulted

  abbrev pub unzipped : W → Option ByteArray → Decoded W
  unzipped w none = decoded none w
  unzipped w (some ba) = parsed w (parse_message now ba)

  -- From `setPosition(0)` on.
  abbrev pub read_message : ℕ → W → Outcome (Unit {0}) → Decoded W
  read_message flag w (returns u ba) =
      if flag % 2 == 1 then unzipped w (ungzip ba) else parsed w (parse_message now ba)
  read_message flag w (throws ba) = decoded none w
  read_message flag w faults = faulted

  abbrev pub after_body : ℕ → Option (Outcome (ℤ × W)) → Decoded W
  after_body flag none = endless
  after_body flag (some (returns (pos (suc n), w) ba)) = read_message flag w (set_position 0 ba)
  after_body flag (some (returns (pos zero, w) ba)) = decoded none w
  after_body flag (some (returns (negsuc k, w) ba)) = decoded none w
  after_body flag (some (throws ba)) = caught
  after_body flag (some faults) = faulted

  -- The body, behind the checks of the length. A negative length makes the loop of `readFixSize` end at
  -- once, with a negative number.
  abbrev pub read_body : ℕ → ℕ → W → Decoded W
  read_body flag len w =
      if leb min_length len
      then decoded none w
      else if leb (2 ^ 31) len
      then decoded none w
      else after_body flag
          (read_fix_array max_len connected recv len w (new_byte_array fresh order 4096))

  abbrev pub check_header : Header → W → Decoded W
  check_header h w =
      if not (same_bytes h.magic rock_magic)
      then decoded none w
      else if not (h.version == 1)
      then decoded none w
      else read_body h.flag (byteswap_on_little_endian order 4 h.len) w

  abbrev pub after_header : ℤ → List ℕ → W → Decoded W
  after_header (pos (suc n)) bytes w = check_header (header_of bytes) w
  after_header (pos zero) bytes w = decoded none w
  after_header (negsuc k) bytes w = decoded none w

  abbrev pub after_transfer : Option (Transfer W) → Decoded W
  after_transfer none = endless
  after_transfer (some r) = after_header r.code r.bytes r.stream

  -- `parseFrom`.
  unfoldable pub parse_from : W → Decoded W
  parse_from w = after_transfer (read_fix_size max_len (read_buffer connected recv) 8 w)

-- What a `ZlibStream` makes of an array that it compresses.
pub data Zipped : Type 0 where
  write_fails flush_fails : Zipped
  zipped : ByteArray → Zipped

-- How `serializeTo` ends: with a number and the stream, by an exception, by a fault, or not.
pub data Encoded {ℓ} (W : Type ℓ) : Type ℓ where
  encoded : ℤ → W → Encoded W
  uncaught : Encoded W
  failed : Encoded W
  unending : Encoded W

module _ {ℓ} {W : Type ℓ} (fresh : ℕ → ℕ → ℕ) (order : Endian) (max_len min_length : ℕ)
    (gzip : ByteArray → Zipped) (connected : W → Bool) (send : List ℕ → W → Sent × W) where
  abbrev pub body_written : ByteArray → Option (Outcome (ℤ × W)) → Encoded W
  body_written ba none = unending
  body_written ba (some (returns (pos (suc n), w) t)) = encoded (pos (8 + t.size)) w
  body_written ba (some (returns (pos zero, w) t)) = encoded (negsuc 3) w
  body_written ba (some (returns (negsuc k, w) t)) = encoded (negsuc 3) w
  body_written ba (some (throws t)) = uncaught
  body_written ba (some faults) = failed

  abbrev pub header_written : ByteArray → ℤ → W → Encoded W
  header_written ba (pos (suc n)) w =
      body_written ba (write_fix_array max_len connected send (get_read_size ba) w ba)
  header_written ba (pos zero) w = encoded (negsuc 2) w
  header_written ba (negsuc k) w = encoded (negsuc 2) w

  abbrev pub header_sent : ByteArray → Option (Transfer W) → Encoded W
  header_sent ba none = unending
  header_sent ba (some r) = header_written ba r.code r.stream

  -- The header with its length swapped, and the array behind it.
  abbrev pub write_frame : ℕ → ByteArray → W → Encoded W
  write_frame flag ba w = header_sent ba (
      write_fix_size max_len (write_buffer connected send)
        (header_bytes (new_header flag (byteswap_on_little_endian order 4 (ba.size % 2 ^ 32)))) w)

  abbrev pub write_zipped : Zipped → W → Encoded W
  write_zipped write_fails w = encoded (negsuc 0) w
  write_zipped flush_fails w = encoded (negsuc 1) w
  write_zipped (zipped ba) w = write_frame 1 ba w

  abbrev pub write_message : Outcome (Unit {0}) → W → Encoded W
  write_message (returns u ba) w =
      if leb min_length (ba.size % 2 ^ 32) then write_zipped (gzip ba) w else write_frame 0 ba w
  write_message (throws ba) w = uncaught
  write_message faults w = failed

  -- `toByteArray` returns null where it is false, and the call on it faults.
  abbrev pub from_array : Outcome Bool → W → Encoded W
  from_array (returns true ba) w = write_message (set_position 0 ba) w
  from_array (returns false ba) w = failed
  from_array (throws ba) w = uncaught
  from_array faults w = failed

  -- `serializeTo`.
  unfoldable pub serialize_to : Message → W → Encoded W
  serialize_to msg w = from_array (to_byte_array fresh order msg) w
