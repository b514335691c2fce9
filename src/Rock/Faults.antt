-- ===== src/Rock/Faults.antt =====
-- An empty body at the very end of a full array: the decoder reads through a null pointer.
use sylar_windows.Prelude.{
  ℕ, ◌+◌, ◌<◌, ◌≡◌, arith, List, [], ◌++◌, length, Bool, true, refl, ◌∙◌, subst, inl, inr,
  length-append,
}
use mathlib.Core.List.{append_assoc}
use sylar_windows.ByteArray.State.{ByteArray, faults, Method, ◌>>=◌, pure}
use sylar_windows.ByteArray.Reads.{read_zero_faults}
use sylar_windows.ByteArray.Invariant.{IsValid}
use sylar_windows.ByteArray.View.{view, unread}
use sylar_windows.ByteArray.Values.{read_fuint8, read_string_f32}
use sylar_windows.ByteArray.Values.Fixed.{
  field, byte, read_fuint8-Parses, read_fixed-Parses, length-field,
}
use sylar_windows.ByteArray.Values.Strings.{sized}
use sylar_windows.ByteArray.Codec.{is_native, Parses, length-unread}
use sylar_windows.Rock.Message.{
  Message, request, response, notice, parse_request, parse_response, parse_notify, parse_body,
  or_dropped, log_bytes, parse_rock_request, parse_rock_response, parse_rock_notify, parse_type,
  parse_message, get_type,
}
use sylar_windows.Rock.Emitting.{Fits, payload}
use sylar_windows.Rock.Parsing.{
  body_of, request-Parses, response-Parses, notify-Parses, type_is_byte,
}

-- The method faults where `front` is all that is unread, and ends where the last block ends.
abbrev pub FaultsAtEnd {ℓ} : {A : Type ℓ} → Bool → Method A → List ℕ → Type ℓ
FaultsAtEnd order m front =
    (s : ByteArray)
    → IsValid s
    → is_native s ≡ order
    → unread (view s) ≡ front
    → s.position + length front ≡ s.capacity
    → m s ≡ faults

then-FaultsAtEnd {ℓ κ} :
    {A : Type ℓ} {B : Type κ} (solid order : Bool) (m : Method A) (f : A → Method B)
    (front back : List ℕ) (a : A)
    → 0 < length back
    → Parses solid order m front a
    → FaultsAtEnd order (f a) back
    → FaultsAtEnd order (m >>= f) (front ++ back)
then-FaultsAtEnd solid order m f front back a h hm hf s v o e p =
    let (t, r, c) = hm s back v o e (inr (omega (arith, length-append front back))) in
    rw r (
      hf t c.valid (c.order ∙ o) c.rest_unread
        (omega (arith, c.position, c.capacity, length-append front back)))

empty_string-FaultsAtEnd : (order : Bool) → FaultsAtEnd order read_string_f32 (sized order 4 [])
unfolding read_string_f32
empty_string-FaultsAtEnd order s v o e p =
    let (t, r, c) = read_fixed-Parses order 4 0 (omega arith) (omega arith) s [] v o e (inl refl) in
    rw r (
      read_zero_faults t c.valid
        (omega (arith, c.position, c.capacity, length-append (field order 4 0) [])))

-- A message behind which an empty body ends the array.
with_body-FaultsAtEnd {ℓ} :
    {A : Type ℓ} (solid order : Bool) (handler : Method (Unit {0})) (m : Method A)
    (make : A → List ℕ → Message) (front : List ℕ) (a : A)
    → Parses solid order m front a
    → FaultsAtEnd order
        (or_dropped handler (m >>= λ x. parse_body >>= λ b. pure (make x b)))
        (front ++ sized order 4 [])
unfolding parse_body
with_body-FaultsAtEnd solid order handler m make front a hm s v o e p = rw (
  then-FaultsAtEnd solid order m (λ x. read_string_f32 >>= λ b. pure (make x b)) front
      (sized order 4 []) a
      (omega (arith, length-append (field order 4 0) [], length-field order 4 0)) hm
      (λ t w q d r. rw (empty_string-FaultsAtEnd order t w q d r)) s v o e p,
  or_dropped,
)

parse_type-FaultsAtEnd :
    (order : Bool) (now : ℕ) (msg : Message)
    → Fits msg
    → body_of msg ≡ []
    → FaultsAtEnd order (parse_type now (get_type msg)) (payload order msg)
unfolding parse_rock_request parse_rock_response parse_rock_notify
parse_type-FaultsAtEnd order now (request r body) h b = rw b (
    subst (FaultsAtEnd order (parse_rock_request now))
      (append_assoc (field order 4 r.sn) (field order 4 r.cmd) (sized order 4 []))
      (with_body-FaultsAtEnd true order log_bytes (parse_request now) request _ _
        (request-Parses order now r h.0 h.1)))
parse_type-FaultsAtEnd order now (response r body) h b = rw b (
    subst (FaultsAtEnd order parse_rock_response) (simp append_assoc) (
      with_body-FaultsAtEnd _ order (pure tt) parse_response response _ r
        (response-Parses order r h.0 h.1 h.2 h.3)))
parse_type-FaultsAtEnd order now (notice n body) h b =
    rw b (
      with_body-FaultsAtEnd true order (pure tt) parse_notify notice _ n
        (notify-Parses order n h.0))

-- A message with an empty body that ends where the last block of the array ends makes the decoder
-- read through a null pointer, which no handler catches.
pub parse_message_faults :
    (now : ℕ) (msg : Message) (s : ByteArray)
    → Fits msg
    → body_of msg ≡ []
    → IsValid s
    → unread (view s) ≡ byte (get_type msg) ++ payload (is_native s) msg
    → s.size ≡ s.capacity
    → parse_message now s ≡ faults
unfolding parse_message
parse_message_faults now msg s h b v e p = rw (
  then-FaultsAtEnd true (is_native s) read_fuint8 (parse_type now) (byte (get_type msg))
      (payload (is_native s) msg) (get_type msg) (payload_pos msg)
      (read_fuint8-Parses (is_native s) (get_type msg) (type_is_byte msg))
      (parse_type-FaultsAtEnd (is_native s) now msg h b) s v refl e (length-unread s _ v e ∙ p),
  parse_message,
)
  where
    payload_pos : (m : Message) → 0 < length (payload (is_native s) m)
    payload_pos (request q l) =
        omega
          (arith, length-append (field (is_native s) 4 q.sn) _, length-field (is_native s) 4 q.sn)
    payload_pos (response q l) =
        omega
          (arith, length-append (field (is_native s) 4 q.sn) _, length-field (is_native s) 4 q.sn)
    payload_pos (notice q l) = omega (
      arith,
      length-append (field (is_native s) 4 q.notify) _,
      length-field (is_native s) 4 q.notify,
    )
