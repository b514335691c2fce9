-- ===== src/Rock/Emitting.antt =====
-- What a message appends to a `ByteArray`.
use sylar_windows.Prelude.{ℕ, ◌^◌, ◌<◌, ◌≡◌, List, ◌++◌, length, Bool, true, ◌∙◌, subst}
use mathlib.Core.List.{append_assoc}
use sylar_windows.ByteArray.State.{ByteArray, returns, Method, ◌>>◌, pure}
use sylar_windows.ByteArray.Invariant.{IsValid}
use sylar_windows.ByteArray.Values.{write_fuint8, write_fuint32, write_string_f32}
use sylar_windows.ByteArray.Values.Fixed.{field, byte, write_fuint8-Emits, write_fixed-Emits}
use sylar_windows.ByteArray.Values.Strings.{sized, string_f32-round_trip}
use sylar_windows.ByteArray.Codec.{is_native, Appends, Appends-trans, Emits}
use sylar_windows.Rock.Message.{
  Request, Response, Notify, Message, request, response, notice, serialize_request,
  serialize_response, serialize_notify, serialize_body, both, or_false, serialize, get_type,
}

-- The numbers of a message fit their fields.
abbrev pub IsU32 : ℕ → Type 0
IsU32 n = n < 2 ^ 32

abbrev pub Fits : Message → Type 0
Fits (request r body) = IsU32 r.sn × IsU32 r.cmd × IsU32 (length body)
Fits (response r body) =
    IsU32 r.sn × IsU32 r.cmd × IsU32 r.result × IsU32 (length r.result_str) × IsU32 (length body)
Fits (notice n body) = IsU32 n.notify × IsU32 (length body)

-- The wire format behind the type byte, in the byte order `order`.
abbrev pub payload : Bool → Message → List ℕ
payload order (request r body) = field order 4 r.sn ++ (field order 4 r.cmd ++ sized order 4 body)
payload order (response r body) =
    field order 4 r.sn
    ++ (field order 4 r.cmd
        ++ (field order 4 r.result ++ (sized order 4 r.result_str ++ sized order 4 body)))
payload order (notice n body) = field order 4 n.notify ++ sized order 4 body

-- `Emits`, for a method that returns true.
abbrev pub Serializes : Bool → Method Bool → List ℕ → Type 0
Serializes order m bytes =
    (s : ByteArray)
    → IsValid s
    → s.position ≡ s.size
    → is_native s ≡ order
    → (t : ByteArray) × (m s ≡ returns true t) × Appends s bytes t

then-Serializes :
    (order : Bool) (m : Method (Unit {0})) (k : Method Bool) (front back : List ℕ)
    → Emits order m front
    → Serializes order k back
    → Serializes order (m >> k) (front ++ back)
then-Serializes order m k front back hm hk s v e o =
    let (t, rt, at) = hm s v e o in
    let (u, ru, au) = hk t at.valid at.at_end (at.order ∙ o) in
    (u, rw rt ru, Appends-trans s t u front back at au)

done-Serializes :
    (order : Bool) (m : Method (Unit {0})) (bytes : List ℕ)
    → Emits order m bytes
    → Serializes order (m >> pure true) bytes
done-Serializes order m bytes h s v e o = let (t, r, a) = h s v e o in (t, rw r, a)

-- Two parts in turn, under the handler.
both-Serializes :
    (order : Bool) (m k : Method Bool) (front back : List ℕ)
    → Serializes order m front
    → Serializes order k back
    → Serializes order (or_false (both m k)) (front ++ back)
both-Serializes order m k front back hm hk s v e o =
    let (t, rt, at) = hm s v e o in
    let (u, ru, au) = hk t at.valid at.at_end (at.order ∙ o) in
    (u, rw (rt, or_false) (rw (ru, or_false)), Appends-trans s t u front back at au)

body-Serializes :
    (order : Bool) (body : List ℕ)
    → IsU32 (length body)
    → Serializes order (serialize_body body) (sized order 4 body)
unfolding serialize_body
body-Serializes order body h =
    done-Serializes order (write_string_f32 body) (sized order 4 body)
      (string_f32-round_trip order body h).0

request-Serializes :
    (order : Bool) (r : Request)
    → Serializes order
        (serialize_request 1 r)
        (byte 1 ++ (field order 4 r.sn ++ field order 4 r.cmd))
unfolding serialize_request
request-Serializes order r =
    then-Serializes order (write_fuint8 1) _ (byte 1) _ (write_fuint8-Emits order 1) (
      then-Serializes order (write_fuint32 r.sn) _ (field order 4 r.sn) _
        (write_fixed-Emits order 4 r.sn)
        (done-Serializes order (write_fuint32 r.cmd) (field order 4 r.cmd)
          (write_fixed-Emits order 4 r.cmd)))

response-Serializes :
    (order : Bool) (r : Response)
    → IsU32 (length r.result_str)
    → Serializes order (serialize_response 2 r) (
        byte 2
        ++ (field order 4 r.sn
            ++ (field order 4 r.cmd ++ (field order 4 r.result ++ sized order 4 r.result_str))))
unfolding serialize_response
response-Serializes order r h =
    then-Serializes order (write_fuint8 2) _ (byte 2) _ (write_fuint8-Emits order 2) (
      then-Serializes order (write_fuint32 r.sn) _ (field order 4 r.sn) _
        (write_fixed-Emits order 4 r.sn)
        (then-Serializes order (write_fuint32 r.cmd) _ (field order 4 r.cmd) _
          (write_fixed-Emits order 4 r.cmd)
          (then-Serializes order (write_fuint32 r.result) _ (field order 4 r.result) _
            (write_fixed-Emits order 4 r.result)
            (done-Serializes order (write_string_f32 r.result_str) (sized order 4 r.result_str)
              (string_f32-round_trip order r.result_str h).0))))

notify-Serializes :
    (order : Bool) (n : Notify)
    → Serializes order (serialize_notify 3 n) (byte 3 ++ field order 4 n.notify)
unfolding serialize_notify
notify-Serializes order n =
    then-Serializes order (write_fuint8 3) _ (byte 3) _ (write_fuint8-Emits order 3) (
      done-Serializes order (write_fuint32 n.notify) (field order 4 n.notify)
        (write_fixed-Emits order 4 n.notify))

-- `serializeToByteArray` at the end of a store returns true, and appends the type and the payload.
pub serialize-Serializes :
    (order : Bool) (msg : Message)
    → Fits msg
    → Serializes order (serialize msg) (byte (get_type msg) ++ payload order msg)
unfolding serialize
serialize-Serializes order (request r body) h =
    subst (Serializes order (serialize (request r body))) (simp append_assoc) (
      both-Serializes order (serialize_request 1 r) (serialize_body body) _ (sized order 4 body)
        (request-Serializes order r) (body-Serializes order body h.2))
serialize-Serializes order (response r body) h =
    subst (Serializes order (serialize (response r body))) (simp append_assoc) (
      both-Serializes order (serialize_response 2 r) (serialize_body body) _ (sized order 4 body)
        (response-Serializes order r h.3) (body-Serializes order body h.4))
serialize-Serializes order (notice n body) h =
    subst (Serializes order (serialize (notice n body))) (simp append_assoc) (
      both-Serializes order (serialize_notify 3 n) (serialize_body body) _ (sized order 4 body)
        (notify-Serializes order n) (body-Serializes order body h.1))
