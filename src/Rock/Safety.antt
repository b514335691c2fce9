-- ===== src/Rock/Safety.antt =====
-- The decoder on arbitrary bytes.
use sylar_windows.Prelude.{List, ℕ, ◌≡◌, Option, none, some, ◌==◌, Bool-cases, inl, inr}
use sylar_windows.ByteArray.State.{
  ByteArray, Outcome, returns, throws, faults, Method, after, ◌>>=◌, pure,
}
use sylar_windows.ByteArray.Store.{to_string}
use sylar_windows.ByteArray.Invariant.{IsValid}
use sylar_windows.ByteArray.Values.{read_fuint8, read_fuint32, read_string_f32}
use sylar_windows.ByteArray.Safety.{
  Keeps, Keeps-refl, Sound, Sound-trans, Sound-after, IsSound, >>=-IsSound, read_fuint8-IsSound,
  read_fixed-IsSound, read_string_f32-IsSound, to_string-IsSound,
}
use sylar_windows.Rock.Message.{
  Message, request, response, notice, parse_request, parse_response, parse_notify, parse_body,
  or_dropped, log_bytes, parse_rock_request, parse_rock_response, parse_rock_notify, parse_type,
  parse_message,
}

parse_request-IsSound : (now : ℕ) → IsSound (parse_request now)
unfolding parse_request
parse_request-IsSound now =
    >>=-IsSound read_fuint32 _ (read_fixed-IsSound 4)
      (λ sn. >>=-IsSound read_fuint32 _ (read_fixed-IsSound 4) (λ cmd. Keeps-refl))

parse_response-IsSound : IsSound parse_response
unfolding parse_response
parse_response-IsSound = >>=-IsSound read_fuint32 _ (read_fixed-IsSound 4) (λ sn.
    >>=-IsSound read_fuint32 _ (read_fixed-IsSound 4) (λ cmd.
      >>=-IsSound read_fuint32 _ (read_fixed-IsSound 4)
        (λ result. >>=-IsSound read_string_f32 _ read_string_f32-IsSound (λ str. Keeps-refl))))

parse_notify-IsSound : IsSound parse_notify
unfolding parse_notify
parse_notify-IsSound = >>=-IsSound read_fuint32 _ (read_fixed-IsSound 4) (λ n. Keeps-refl)

log_bytes-IsSound : IsSound log_bytes
log_bytes-IsSound = >>=-IsSound to_string _ to_string-IsSound (λ b. Keeps-refl)

or_dropped-Sound :
    (handler : Method (Unit {0})) (s : ByteArray) (r : Outcome Message)
    → IsSound handler
    → Sound s r
    → Sound s (elim r [
      | returns msg t ↦ returns (some msg) t
      | throws t ↦ after (handler t) (λ _. returns none)
      | faults ↦ faults
    ])
or_dropped-Sound handler s (returns msg t) hh h = h
or_dropped-Sound handler s (throws t) hh h =
    Sound-trans s t (after (handler t) (λ _. returns none)) h
      (Sound-after t (handler t) (λ _. returns none) (λ _. Keeps-refl) (hh t h.valid))
or_dropped-Sound handler s faults hh h = h

with_body-IsSound {ℓ} :
    {A : Type ℓ} (handler : Method (Unit {0})) (m : Method A) (make : A → List ℕ → Message)
    → IsSound handler
    → IsSound m
    → IsSound (or_dropped handler (m >>= λ x. parse_body >>= λ b. pure (make x b)))
unfolding parse_body
with_body-IsSound handler m make hh hm s v = or_dropped-Sound handler s _ hh (
    >>=-IsSound m (λ x. read_string_f32 >>= λ b. pure (make x b)) hm
      (λ x. >>=-IsSound read_string_f32 _ read_string_f32-IsSound (λ b. Keeps-refl)) s v)

parse_type-IsSound : (now type : ℕ) → IsSound (parse_type now type)
unfolding parse_rock_request parse_rock_response parse_rock_notify
parse_type-IsSound now type s v = elim (Bool-cases (type == 1)) [
  | inl e ↦ rw e (
      with_body-IsSound log_bytes (parse_request now) request log_bytes-IsSound
        (parse_request-IsSound now) s v)
  | inr e ↦ rw e (elim (Bool-cases (type == 2)) [
    | inl f ↦ rw f (
        with_body-IsSound (pure tt) parse_response response (λ t w. Keeps-refl t w)
          parse_response-IsSound s v)
    | inr f ↦ rw f (elim (Bool-cases (type == 3)) [
      | inl g ↦ rw g (
          with_body-IsSound (pure tt) parse_notify notice (λ t w. Keeps-refl t w)
            parse_notify-IsSound s v)
      | inr g ↦ rw g (Keeps-refl s v)
    ])
  ])
]

-- An outcome of the decoder: it returns and keeps the store, or it faults on a full store.
abbrev pub Answers {ℓ} : {A : Type ℓ} → ByteArray → Outcome A → Type 0
Answers s (returns a t) = Keeps s t
Answers s (throws t) = ⊥
Answers s faults = s.size ≡ s.capacity

catch-Answers :
    (s : ByteArray) (r : Outcome (Option Message))
    → Sound s r
    → Answers s
        (elim r [ returns msg t ↦ returns msg t | throws t ↦ returns none t | faults ↦ faults ])
catch-Answers s (returns msg t) h = h
catch-Answers s (throws t) h = h
catch-Answers s faults h = h

-- Whatever bytes the array holds, the decoder ends and no exception leaves it: it returns a message
-- or null and keeps the bytes, or it faults, and then the array is full up to its last block.
pub parse_message-Answers : (now : ℕ) (s : ByteArray) → IsValid s → Answers s (parse_message now s)
unfolding parse_message
parse_message-Answers now s v =
    catch-Answers s _
      (>>=-IsSound read_fuint8 (parse_type now) read_fuint8-IsSound (parse_type-IsSound now) s v)
