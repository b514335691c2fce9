-- ===== src/Rock/Message.antt =====
-- The three messages, and their `serializeToByteArray` and `parseFromByteArray`.
use sylar_windows.Prelude.{
  ℕ, List, [], ◌∷◌, Bool, true, false, ◌&&◌, Option, none, some, ◌==◌, if◌then◌else◌,
}
use sylar_windows.Endia.{Endian}
use sylar_windows.ByteArray.State.{
  Outcome, returns, throws, faults, Method, after, ◌>>=◌, ◌>>◌, pure, new_byte_array,
}
use sylar_windows.ByteArray.Store.{to_string}
use sylar_windows.ByteArray.Values.{
  write_fuint8, read_fuint8, write_fuint32, read_fuint32, write_string_f32, read_string_f32,
}

-- `m_time` is when the object was made; it is not sent.
pub record Request : Type 0 where
  pub sn : ℕ
  pub cmd : ℕ
  pub time : ℕ

pub record Response : Type 0 where
  pub sn : ℕ
  pub cmd : ℕ
  pub result : ℕ
  pub result_str : List ℕ

pub record Notify : Type 0 where
  pub notify : ℕ

-- `RockRequest`, `RockResponse` and `RockNotify`: a message and a `RockBody`.
pub data Message : Type 0 where
  request : Request → List ℕ → Message
  response : Response → List ℕ → Message
  notice : Notify → List ℕ → Message

-- `getType`.
abbrev pub get_type : Message → ℕ
get_type (request r body) = 1
get_type (response r body) = 2
get_type (notice n body) = 3

-- `RockRequest::createResponse`: a fresh `Response` is (0, 0, 404, "unhandle").
unfoldable pub create_response : Request → Message
create_response r =
    response
      (record {
        sn = r.sn;
        cmd = r.cmd;
        result = 404;
        result_str = b'u' ∷ b'n' ∷ b'h' ∷ b'a' ∷ b'n' ∷ b'd' ∷ b'l' ∷ b'e' ∷ [];
      })
      []

-- `Request::serializeToByteArray` and its kin; `type` is what the virtual `getType` returns.
unfoldable pub serialize_request : ℕ → Request → Method Bool
serialize_request type r = do write_fuint8 type; write_fuint32 r.sn; write_fuint32 r.cmd; pure true

unfoldable pub serialize_response : ℕ → Response → Method Bool
serialize_response type r = do
  write_fuint8 type
  write_fuint32 r.sn
  write_fuint32 r.cmd
  write_fuint32 r.result
  write_string_f32 r.result_str
  pure true

unfoldable pub serialize_notify : ℕ → Notify → Method Bool
serialize_notify type n = do write_fuint8 type; write_fuint32 n.notify; pure true

-- `RockBody::serializeToByteArray`.
unfoldable pub serialize_body : List ℕ → Method Bool
serialize_body body = do write_string_f32 body; pure true

-- `v &= m; v &= k; return v;`
abbrev pub both : Method Bool → Method Bool → Method Bool
both m k = m >>= λ a. k >>= λ b. pure (a && b)

-- `catch (...) { … } return false;`
abbrev pub or_false : Method Bool → Method Bool
or_false m s = elim (m s) [
  | returns b t ↦ returns b t
  | throws t ↦ returns false t
  | faults ↦ faults
]

-- `serializeToByteArray` of the Rock messages.
unfoldable pub serialize : Message → Method Bool
serialize (request r body) = or_false (both (serialize_request 1 r) (serialize_body body))
serialize (response r body) = or_false (both (serialize_response 2 r) (serialize_body body))
serialize (notice n body) = or_false (both (serialize_notify 3 n) (serialize_body body))

-- `Message::toByteArray`: a fresh array of blocks of 4096 bytes, or null where this returns false.
unfoldable pub to_byte_array : (ℕ → ℕ → ℕ) → Endian → Message → Outcome Bool
to_byte_array fresh byte_order msg = serialize msg (new_byte_array fresh byte_order 4096)

-- `parseFromByteArray`, into a message that was made at `now`.
unfoldable pub parse_request : ℕ → Method Request
parse_request now = do
  sn ← read_fuint32
  cmd ← read_fuint32
  pure (record { sn = sn; cmd = cmd; time = now })

unfoldable pub parse_response : Method Response
parse_response = do
  sn ← read_fuint32
  cmd ← read_fuint32
  result ← read_fuint32
  result_str ← read_string_f32
  pure (record { sn = sn; cmd = cmd; result = result; result_str = result_str })

unfoldable pub parse_notify : Method Notify
parse_notify = read_fuint32 >>= λ n. pure (record { notify = n })

-- `RockBody::parseFromByteArray`.
unfoldable pub parse_body : Method (List ℕ)
parse_body = read_string_f32

-- A message that could not be parsed is dropped: `none`. The handler of `RockRequest` logs
-- `bytearray->toHexString()`, so it reads the array once more.
abbrev pub or_dropped : Method (Unit {0}) → Method Message → Method (Option Message)
or_dropped handler m s = elim (m s) [
  | returns msg t ↦ returns (some msg) t
  | throws t ↦ after (handler t) (λ _. returns none)
  | faults ↦ faults
]

abbrev pub log_bytes : Method (Unit {0})
log_bytes s = after (to_string s) (λ _. returns tt)

unfoldable pub parse_rock_request : ℕ → Method (Option Message)
parse_rock_request now =
    or_dropped log_bytes (parse_request now >>= λ r. parse_body >>= λ body. pure (request r body))

unfoldable pub parse_rock_response : Method (Option Message)
parse_rock_response =
    or_dropped (pure tt) (parse_response >>= λ r. parse_body >>= λ body. pure (response r body))

unfoldable pub parse_rock_notify : Method (Option Message)
parse_rock_notify =
    or_dropped (pure tt) (parse_notify >>= λ n. parse_body >>= λ body. pure (notice n body))

-- The end of `RockMessageDecoder::parseFrom`: the type, then the message; null for any other type.
abbrev pub parse_type : ℕ → ℕ → Method (Option Message)
parse_type now type =
    if type == 1
    then parse_rock_request now
    else if type == 2
    then parse_rock_response
    else if type == 3
    then parse_rock_notify
    else pure none

-- What the decoder throws it catches, and returns null.
unfoldable pub parse_message : ℕ → Method (Option Message)
parse_message now s = elim ((read_fuint8 >>= parse_type now) s) [
  | returns msg t ↦ returns msg t
  | throws t ↦ returns none t
  | faults ↦ faults
]
