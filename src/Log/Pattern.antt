-- ===== src/Log/Pattern.antt =====
-- `LogFormatter::init`: a pattern is cut into texts and items, and these become format items.
use sylar_windows.Prelude.{
  ℕ, zero, suc, List, [], ◌∷◌, ◌++◌, length, Bool, true, false, not, ◌&&◌, ◌||◌, Option, none, some,
  leb, ◌==◌, if◌then◌else◌,
}

-- An entry of `vec`: a text, or the name and the format of an item.
pub data Piece : Type 0 where
  text : List ℕ → Piece
  item : List ℕ → List ℕ → Piece

-- `isalpha` in the C locale; C++ leaves it undefined on a byte from 0x80 on, a negative `char`.
abbrev pub is_alpha : ℕ → Bool
is_alpha c = (leb b'a' c && leb c b'z') || (leb b'A' c && leb c b'Z')

-- The format, from behind its brace; `none` where the pattern ends within it.
unfoldable pub scan_format : List ℕ → List ℕ → Option (List ℕ × List ℕ)
scan_format fmt [] = none
scan_format fmt (c ∷ cs) =
    let rest = scan_format (fmt ++ c ∷ []) cs in if c == b'}' then some (fmt, cs) else rest

abbrev pub named : List ℕ → Option (List ℕ × List ℕ) → Option (List ℕ × List ℕ × List ℕ)
named str none = none
named str (some r) = some (str, r.0, r.1)

-- The inner loop, from behind the percent sign: `str`, `fmt` and what is left of the pattern; `none` is
-- the end in `fmt_status` 1.
unfoldable pub scan_name : List ℕ → List ℕ → Option (List ℕ × List ℕ × List ℕ)
scan_name str [] = some (str, [], [])
scan_name str (c ∷ cs) =
    let rest = scan_name (str ++ c ∷ []) cs in
    if not (is_alpha c) && not (c == b'{') && not (c == b'}')
    then some (str, [], c ∷ cs)
    else if c == b'{'
    then named str (scan_format [] cs)
    else rest

-- `nstr` goes into `vec` unless it is empty.
abbrev pub flush : List ℕ → List Piece → List Piece
flush [] ps = ps
flush (c ∷ nstr) ps = text (c ∷ nstr) ∷ ps

-- "<<pattern_error>>"
abbrev pub error_text : List ℕ
error_text =
    b'<' ∷ b'<' ∷ b'p' ∷ b'a' ∷ b't' ∷ b't' ∷ b'e' ∷ b'r' ∷ b'n' ∷ b'_' ∷ b'e' ∷ b'r' ∷ b'r' ∷ b'o'
    ∷ b'r' ∷ b'>' ∷ b'>' ∷ []

abbrev pub begins_with : ℕ → List ℕ → Bool
begins_with c [] = false
begins_with c (d ∷ ds) = d == c

-- Behind the inner loop; `later` is `vec` and `m_error` of what follows.
abbrev pub add_piece :
    List ℕ
    → Option (List ℕ × List ℕ × List ℕ)
    → Option (List Piece × Bool)
    → Option (List Piece × Bool)
add_piece nstr found none = none
add_piece nstr none (some (ps, error)) = some (text error_text ∷ ps, true)
add_piece nstr (some r) (some (ps, error)) = some (flush nstr (item r.0 r.1 ∷ ps), error)

-- The loop over the pattern; `none` is a loop that goes on. Behind "%%" it goes on at the second sign.
unfoldable pub pieces : ℕ → List ℕ → List ℕ → Option (List Piece × Bool)
pieces zero nstr pattern = none
pieces (suc fuel) nstr [] = some (flush nstr [], false)
pieces (suc fuel) nstr (c ∷ cs) =
    let plain = pieces fuel (nstr ++ c ∷ []) cs in
    let found = scan_name [] cs in
    let later : Option (List Piece × Bool) = elim found [
      | none ↦ pieces fuel nstr cs
      | some r ↦ pieces fuel [] r.2
    ] in
    if not (c == b'%')
    then plain
    else if begins_with b'%' cs
    then plain
    else add_piece nstr found later

-- `m_items`: a string, or the class of a letter with its format.
pub data FormatItem : Type 0 where
  string_item : List ℕ → FormatItem
  letter_item : ℕ → List ℕ → FormatItem

-- The letters of `s_format_items`.
abbrev pub is_known : ℕ → Bool
is_known c =
    (c == b'm')
    || (c == b'p')
    || (c == b'r')
    || (c == b'c')
    || (c == b't')
    || (c == b'n')
    || (c == b'd')
    || (c == b'f')
    || (c == b'l')
    || (c == b'T')
    || (c == b'F')
    || (c == b'N')

-- "<<error_format %" and ">>" around a name.
abbrev pub unknown_text : List ℕ → List ℕ
unknown_text name =
    (b'<' ∷ b'<' ∷ b'e' ∷ b'r' ∷ b'r' ∷ b'o' ∷ b'r' ∷ b'_' ∷ b'f' ∷ b'o' ∷ b'r' ∷ b'm' ∷ b'a' ∷ b't'
      ∷ b' ' ∷ b'%' ∷ [])
    ++ name
    ++ b'>' ∷ b'>' ∷ []

-- The format item of a piece, and whether it is an error.
unfoldable pub item_of : Piece → FormatItem × Bool
item_of (text s) = (string_item s, false)
item_of (item [] fmt) = (string_item (unknown_text []), true)
item_of (item (c ∷ []) fmt) =
    if is_known c then (letter_item c fmt, false) else (string_item (unknown_text (c ∷ [])), true)
item_of (item (c ∷ d ∷ name) fmt) = (string_item (unknown_text (c ∷ d ∷ name)), true)

unfoldable pub items_of : List Piece → List FormatItem × Bool
items_of [] = ([], false)
items_of (p ∷ ps) = let i = item_of p in let rest = items_of ps in (i.0 ∷ rest.0, i.1 || rest.1)

abbrev pub with_items : Option (List Piece × Bool) → Option (List FormatItem × Bool)
with_items none = none
with_items (some (ps, error)) = let r = items_of ps in some (r.0, error || r.1)

-- `init`: `m_items` and `m_error`, with a round for each byte of the pattern and one for its end.
unfoldable pub init : List ℕ → Option (List FormatItem × Bool)
init pattern = with_items (pieces (suc (length pattern)) [] pattern)
