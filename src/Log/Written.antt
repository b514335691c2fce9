-- ===== src/Log/Written.antt =====
-- A pattern that was written from texts and items is cut into them again.
use sylar_windows.Prelude.{
  ℕ, zero, suc, ◌<◌, ◌≡◌, refl, sym, ap, ◌∙◌, arith, List, [], ◌∷◌, ◌++◌, length, All, Bool, true,
  false, not, ◌&&◌, Option, none, some, ◌==◌, if-true, if-false, ◌⊎◌, inl, inr, length-append,
}
use mathlib.Core.List.{append_assoc, append-nil}
use sylar_windows.Log.Pattern.{
  Piece, text, item, is_alpha, scan_format, named, scan_name, flush, begins_with, add_piece, pieces,
}

-- A text, or an item with or without a format.
pub data Token : Type 0 where
  words : List ℕ → Token
  field : List ℕ → Option (List ℕ) → Token

abbrev pub write_token : Token → List ℕ
write_token (words w) = w
write_token (field name none) = b'%' ∷ name
write_token (field name (some fmt)) = b'%' ∷ (name ++ b'{' ∷ (fmt ++ b'}' ∷ []))

abbrev pub write_tokens : List Token → List ℕ
write_tokens [] = []
write_tokens (t ∷ ts) = write_token t ++ write_tokens ts

abbrev pub piece_of : Token → Piece
piece_of (words w) = text w
piece_of (field name none) = item name []
piece_of (field name (some fmt)) = item name fmt

abbrev pub pieces_of : List Token → List Piece
pieces_of [] = []
pieces_of (t ∷ ts) = piece_of t ∷ pieces_of ts

abbrev pub Lacks : ℕ → List ℕ → Type 0
Lacks c l = All (λ d. (d == c) ≡ false) l

-- A name ends at any byte but a letter or a brace.
abbrev pub ends_name : ℕ → Bool
ends_name c = not (is_alpha c) && not (c == b'{') && not (c == b'}')

abbrev pub IsName : List ℕ → Type 0
IsName [] = false ≡ true
IsName (c ∷ cs) = All (λ d. is_alpha d ≡ true) (c ∷ cs)

-- No text comes next; what comes next ends a name.
abbrev pub NoWords : List Token → Type 0
NoWords (words w ∷ ts) = false ≡ true
NoWords ts = Unit

abbrev pub EndsName : List Token → Type 0
EndsName (words (c ∷ w) ∷ ts) = ends_name c ≡ true
EndsName ts = Unit

-- Texts are not empty, have no percent sign and do not follow each other; names are letters; formats
-- have no closing brace; a text behind a name without a format does not go on with the name.
abbrev pub IsWellFormed : List Token → Type 0
IsWellFormed [] = Unit
IsWellFormed (words [] ∷ ts) = false ≡ true
IsWellFormed (words (c ∷ w) ∷ ts) = Lacks b'%' (c ∷ w) × NoWords ts × IsWellFormed ts
IsWellFormed (field name none ∷ ts) = IsName name × EndsName ts × IsWellFormed ts
IsWellFormed (field name (some fmt) ∷ ts) = IsName name × Lacks b'}' fmt × IsWellFormed ts

scan_format_written :
    (acc fmt rest : List ℕ)
    → Lacks b'}' fmt
    → scan_format acc (fmt ++ b'}' ∷ rest) ≡ some (acc ++ fmt, rest)
unfolding scan_format
scan_format_written acc [] rest h = ap (λ l. some (l, rest)) (sym (append-nil acc))
scan_format_written acc (c ∷ fmt) rest h =
    if-false (c == b'}') _ _ h.0
    ∙ scan_format_written (acc ++ c ∷ []) fmt rest h.1
    ∙ ap (λ l. some (l, rest)) (append_assoc acc (c ∷ []) fmt)

letter_goes_on : (c : ℕ) → is_alpha c ≡ true → (ends_name c ≡ false) × ((c == b'{') ≡ false)
letter_goes_on c h = (ground arith, ground arith)

scan_name_letters :
    (acc name rest : List ℕ)
    → All (λ d. is_alpha d ≡ true) name
    → scan_name acc (name ++ rest) ≡ scan_name (acc ++ name) rest
unfolding scan_name
scan_name_letters acc [] rest h = ap (λ l. scan_name l rest) (sym (append-nil acc))
scan_name_letters acc (c ∷ name) rest h =
    if-false (ends_name c) _ _ (letter_goes_on c h.0).0
    ∙ if-false (c == b'{') _ _ (letter_goes_on c h.0).1
    ∙ scan_name_letters (acc ++ c ∷ []) name rest h.1
    ∙ ap (λ l. scan_name l rest) (append_assoc acc (c ∷ []) name)

-- A name in front of what may follow it.
name_ends :
    (str : List ℕ) (ts : List Token)
    → EndsName ts
    → IsWellFormed ts
    → scan_name str (write_tokens ts) ≡ some (str, [], write_tokens ts)
unfolding scan_name
name_ends str [] e h = refl
name_ends str (words [] ∷ ts) e h = absurd (ground (arith, h))
name_ends str (words (c ∷ w) ∷ ts) e h = if-true (ends_name c) _ _ e
name_ends str (field name none ∷ ts) e h = refl
name_ends str (field name (some fmt) ∷ ts) e h = refl

-- A text is gathered in `nstr`.
words_run :
    (fuel : ℕ) (nstr w rest : List ℕ)
    → Lacks b'%' w
    → length (w ++ rest) < fuel
    → (k : ℕ) × (length rest < k) × (pieces fuel nstr (w ++ rest) ≡ pieces k (nstr ++ w) rest)
unfolding pieces
words_run fuel nstr [] rest h l = (fuel, l, ap (λ n. pieces fuel n rest) (sym (append-nil nstr)))
words_run zero nstr (c ∷ w) rest h l = absurd (omega arith)
words_run (suc fuel) nstr (c ∷ w) rest h l =
    let (k, m, e) = words_run fuel (nstr ++ c ∷ []) w rest h.1 (omega arith) in
    (
      k,
      m,
      if-true (not (c == b'%')) _ _ (ap not h.0)
          ∙ e
          ∙ ap (λ n. pieces k n rest) (append_assoc nstr (c ∷ []) w),
    )

-- An item.
field_step :
    (fuel : ℕ) (nstr cs str fmt rest : List ℕ)
    → begins_with b'%' cs ≡ false
    → scan_name [] cs ≡ some (str, fmt, rest)
    → pieces (suc fuel) nstr (b'%' ∷ cs)
      ≡ add_piece nstr (some (str, fmt, rest)) (pieces fuel [] rest)
unfolding pieces
field_step fuel nstr cs str fmt rest h e =
    if-false (begins_with b'%' cs) _ _ h
    ∙ ap
        (λ (f : Option (List ℕ × List ℕ × List ℕ)).
          add_piece nstr f (elim f [ none ↦ pieces fuel nstr cs | some r ↦ pieces fuel [] r.2 ]))
        e

begins_with-name : (name rest : List ℕ) → IsName name → begins_with b'%' (name ++ rest) ≡ false
begins_with-name [] rest h = absurd (ground (arith, h))
begins_with-name (c ∷ name) rest h = ground (arith, h.0)

IsName-letters : (name : List ℕ) → IsName name → All (λ d. is_alpha d ≡ true) name
IsName-letters [] h = tt
IsName-letters (c ∷ name) h = h

braced :
    (name fmt rest : List ℕ)
    → (name ++ b'{' ∷ (fmt ++ b'}' ∷ [])) ++ rest ≡ name ++ b'{' ∷ (fmt ++ b'}' ∷ rest)
braced name fmt rest =
    append_assoc name (b'{' ∷ (fmt ++ b'}' ∷ [])) rest
    ∙ ap (λ l. name ++ b'{' ∷ l) (append_assoc fmt (b'}' ∷ []) rest)

scan_braced :
    (name fmt rest : List ℕ)
    → IsName name
    → Lacks b'}' fmt
    → scan_name [] (name ++ b'{' ∷ (fmt ++ b'}' ∷ rest)) ≡ some (name, fmt, rest)
scan_braced name fmt rest h k =
    scan_name_letters [] name (b'{' ∷ (fmt ++ b'}' ∷ rest)) (IsName-letters name h)
    ∙ (unfold scan_name in ap (named name) (scan_format_written [] fmt rest k))

pub pieces-written :
    (fuel : ℕ) (nstr : List ℕ) (ts : List Token)
    → IsWellFormed ts
    → (nstr ≡ []) ⊎ NoWords ts
    → length (write_tokens ts) < fuel
    → pieces fuel nstr (write_tokens ts) ≡ some (flush nstr (pieces_of ts), false)
pieces-written zero nstr ts h k l = absurd (omega arith)
pieces-written (suc fuel) nstr [] h k l = unfold pieces in refl
pieces-written (suc fuel) nstr (words [] ∷ ts) h k l = absurd (ground (arith, h))
pieces-written (suc fuel) nstr (words (c ∷ w) ∷ ts) h (inr k) l = absurd (ground (arith, k))
pieces-written (suc fuel) nstr (words (c ∷ w) ∷ ts) h (inl k) l =
    let (f, m, e) = words_run (suc fuel) nstr (c ∷ w) (write_tokens ts) h.0 l in
    e
    ∙ ap (λ n. pieces f (n ++ c ∷ w) (write_tokens ts)) k
    ∙ pieces-written f (c ∷ w) ts h.2 (inr h.1) m
    ∙ ap (λ n. some (flush n (text (c ∷ w) ∷ pieces_of ts), false)) (sym k)
pieces-written (suc fuel) nstr (field name none ∷ ts) h k l =
    field_step fuel nstr (name ++ write_tokens ts) name [] (write_tokens ts)
      (begins_with-name name (write_tokens ts) h.0)
      (scan_name_letters [] name (write_tokens ts) (IsName-letters name h.0)
        ∙ name_ends name ts h.1 h.2)
    ∙ ap (add_piece nstr (some (name, [], write_tokens ts))) (
        pieces-written fuel [] ts h.2 (inl refl)
          (omega (arith, length-append name (write_tokens ts))))
pieces-written (suc fuel) nstr (field name (some fmt) ∷ ts) h k l =
    ap (λ l. pieces (suc fuel) nstr (b'%' ∷ l)) (braced name fmt (write_tokens ts))
    ∙ field_step fuel nstr (name ++ b'{' ∷ (fmt ++ b'}' ∷ write_tokens ts)) name fmt
        (write_tokens ts) (begins_with-name name _ h.0)
        (scan_braced name fmt (write_tokens ts) h.0 h.1)
    ∙ ap (add_piece nstr (some (name, fmt, write_tokens ts))) (
        pieces-written fuel [] ts h.2 (inl refl)
          (omega (arith, length-append (name ++ b'{' ∷ (fmt ++ b'}' ∷ [])) (write_tokens ts))))
