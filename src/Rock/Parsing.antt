-- ===== src/Rock/Parsing.antt =====
-- What the decoder reads off the bytes of a message.
use sylar_windows.Prelude.{
  ℕ, ◌<◌, arith, List, ◌++◌, length, Bool, true, refl, subst, some, inl, inr, length-append,
}
use mathlib.Core.List.{append_assoc}
use sylar_windows.ByteArray.State.{Method, ◌>>=◌, pure}
use sylar_windows.ByteArray.Values.{read_fuint8, read_fuint32, read_string_f32}
use sylar_windows.ByteArray.Values.Fixed.{
  field, byte, read_fuint8-Parses, read_fixed-Parses, length-field,
}
use sylar_windows.ByteArray.Values.Strings.{sized, non_empty, string_f32-round_trip}
use sylar_windows.ByteArray.Codec.{Parses, Parses->>=, Parses-map}
use sylar_windows.Rock.Message.{
  Request, Response, Notify, Message, request, response, notice, parse_request, parse_response,
  parse_notify, parse_body, or_dropped, log_bytes, parse_rock_request, parse_rock_response,
  parse_rock_notify, parse_type, parse_message, get_type,
}
use sylar_windows.Rock.Emitting.{IsU32, Fits, payload}

-- The message as the decoder makes it: a request is given the time of its making.
abbrev pub stamp : ℕ → Message → Message
stamp now (request r body) = request (record r { time = now }) body
stamp now (response r body) = response r body
stamp now (notice n body) = notice n body

abbrev pub body_of : Message → List ℕ
body_of (request r body) = body
body_of (response r body) = body
body_of (notice n body) = body

fuint32-Parses :
    (order : Bool) (v : ℕ) → IsU32 v → Parses true order read_fuint32 (field order 4 v) v
fuint32-Parses order v h = read_fixed-Parses order 4 v (omega arith) (omega arith)

-- A field in front of a method that reads the rest.
field-then {ℓ} :
    {B : Type ℓ} (last order : Bool) (f : ℕ → Method B) (v : ℕ) (back : List ℕ) (b : B)
    → IsU32 v
    → Parses last order (f v) back b
    → Parses last order (read_fuint32 >>= f) (field order 4 v ++ back) b
field-then last order f v back b h hf =
    Parses->>= true last order read_fuint32 f (field order 4 v) back v b (inl refl)
      (fuint32-Parses order v h) hf

pub request-Parses :
    (order : Bool) (now : ℕ) (r : Request)
    → IsU32 r.sn
    → IsU32 r.cmd
    → Parses true order
        (parse_request now)
        (field order 4 r.sn ++ field order 4 r.cmd)
        (record r { time = now })
unfolding parse_request
request-Parses order now r hs hc = field-then true order _ r.sn (field order 4 r.cmd) _ hs (
    Parses-map true order read_fuint32 (λ cmd. record { sn = r.sn; cmd = cmd; time = now }) _ r.cmd
      (fuint32-Parses order r.cmd hc))

pub response-Parses :
    (order : Bool) (r : Response)
    → IsU32 r.sn
    → IsU32 r.cmd
    → IsU32 r.result
    → IsU32 (length r.result_str)
    → Parses
        (non_empty r.result_str)
        order
        parse_response
        (field order 4 r.sn
          ++ (field order 4 r.cmd ++ (field order 4 r.result ++ sized order 4 r.result_str)))
        r
unfolding parse_response
response-Parses order r hs hc hr hl = field-then _ order _ r.sn _ _ hs (
    field-then _ order _ r.cmd _ _ hc (
      field-then _ order _ r.result _ _ hr (
        Parses-map _ order read_string_f32
          (λ str. record { sn = r.sn; cmd = r.cmd; result = r.result; result_str = str }) _
          r.result_str (string_f32-round_trip order r.result_str hl).1)))

pub notify-Parses :
    (order : Bool) (n : Notify)
    → IsU32 n.notify
    → Parses true order parse_notify (field order 4 n.notify) n
unfolding parse_notify
notify-Parses order n h =
    Parses-map true order read_fuint32 (λ v. record { notify = v }) _ n.notify
      (fuint32-Parses order n.notify h)

-- The body behind the message, and the handler that is not needed.
with_body-Parses {ℓ} :
    {A : Type ℓ} (solid order : Bool) (handler : Method (Unit {0})) (m : Method A)
    (make : A → List ℕ → Message) (front body : List ℕ) (a : A)
    → IsU32 (length body)
    → Parses solid order m front a
    → Parses
        (non_empty body)
        order
        (or_dropped handler (m >>= λ x. parse_body >>= λ b. pure (make x b)))
        (front ++ sized order 4 body)
        (some (make a body))
unfolding parse_body
with_body-Parses solid order handler m make front body a h hm s rest v o e p =
    let (t, r, c) =
      Parses->>= solid (non_empty body) order m (λ x. read_string_f32 >>= λ b. pure (make x b))
        front (sized order 4 body) a (make a body)
        (inr (
          omega (
            arith,
            length-append (field order 4 (length body)) body,
            length-field order 4 (length body),
          )))
        hm
        (Parses-map _ order read_string_f32 (make a) _ body (string_f32-round_trip order body h).1)
        s rest v o e p in
    (t, rw (r, or_dropped), c)

-- What the dispatch on the type makes of the payload.
parse_type-Parses :
    (order : Bool) (now : ℕ) (msg : Message)
    → Fits msg
    → Parses
        (non_empty (body_of msg))
        order
        (parse_type now (get_type msg))
        (payload order msg)
        (some (stamp now msg))
unfolding parse_rock_request parse_rock_response parse_rock_notify
parse_type-Parses order now (request r body) h =
    subst
      (λ l.
        Parses (non_empty body) order (parse_rock_request now) l
          (some (request (record r { time = now }) body)))
      (append_assoc (field order 4 r.sn) (field order 4 r.cmd) (sized order 4 body))
      (with_body-Parses true order log_bytes (parse_request now) request _ body _ h.2
        (request-Parses order now r h.0 h.1))
parse_type-Parses order now (response r body) h =
    subst (λ l. Parses (non_empty body) order parse_rock_response l (some (response r body)))
      (simp append_assoc)
      (with_body-Parses (non_empty r.result_str) order (pure tt) parse_response response _ body r
        h.4 (response-Parses order r h.0 h.1 h.2 h.3))
parse_type-Parses order now (notice n body) h =
    with_body-Parses true order (pure tt) parse_notify notice _ body n h.1
      (notify-Parses order n h.0)

pub type_is_byte : (m : Message) → get_type m < 256
type_is_byte (request q b) = omega arith
type_is_byte (response q b) = omega arith
type_is_byte (notice q b) = omega arith

-- From the bytes of a message the decoder makes that message again, and consumes them all. Where
-- the body is empty, the store must not be full up to its last block.
pub parse_message-Parses :
    (order : Bool) (now : ℕ) (msg : Message)
    → Fits msg
    → Parses
        (non_empty (body_of msg))
        order
        (parse_message now)
        (byte (get_type msg) ++ payload order msg)
        (some (stamp now msg))
unfolding parse_message
parse_message-Parses order now msg h s rest v o e p =
    let (t, r, c) =
      Parses->>= true (non_empty (body_of msg)) order read_fuint8 (parse_type now)
        (byte (get_type msg)) (payload order msg) (get_type msg) (some (stamp now msg)) (inl refl)
        (read_fuint8-Parses order (get_type msg) (type_is_byte msg))
        (parse_type-Parses order now msg h) s rest v o e p in
    (t, rw (r, parse_message), c)
