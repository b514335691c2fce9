-- ===== src/Runs/Patterns.antt =====
-- Runs of the log patterns.
use sylar_windows.Prelude.{◌≡◌, refl, List, [], ◌∷◌, true, false, some, Bool, none}
use sylar_windows.Log.Pattern.{
  text, item, FormatItem, string_item, letter_item, items_of, item_of, init, pieces, scan_name,
  scan_format, error_text,
}
use sylar_windows.Log.Written.{words, field, pieces_of, Token}
use sylar_windows.Log.Ends.{init_ends, escaped_name}

-- "%d{%Y}%T[%p]"
abbrev dated : List Token
dated =
    field (b'd' ∷ []) (some (b'%' ∷ b'Y' ∷ []))
    ∷ field (b'T' ∷ []) none
    ∷ words (b'[' ∷ [])
    ∷ field (b'p' ∷ []) none
    ∷ words (b']' ∷ [])
    ∷ []

dated_items : items_of (pieces_of dated) ≡ (
  letter_item b'd' (b'%' ∷ b'Y' ∷ [])
      ∷ letter_item b'T' []
      ∷ string_item (b'[' ∷ [])
      ∷ letter_item b'p' []
      ∷ string_item (b']' ∷ [])
      ∷ [],
  false,
)
unfolding items_of item_of
dated_items = refl

-- "a%d{": the format does not end, and its text comes before the "a" and the rest.
open_format :
    init (b'a' ∷ b'%' ∷ b'd' ∷ b'{' ∷ [])
    ≡ some (string_item error_text ∷ string_item (b'a' ∷ b'd' ∷ b'{' ∷ []) ∷ [], true)
unfolding init pieces scan_name scan_format items_of item_of
open_format = refl

init_ends_example : (r : List FormatItem × Bool) × (init (b'%' ∷ []) ≡ some r)
init_ends_example = init_ends (b'%' ∷ [])

escaped_name_example :
    init (b'%' ∷ b'%' ∷ b'm' ∷ []) ≡ some (items_of (text (b'%' ∷ []) ∷ item (b'm' ∷ []) [] ∷ []))
escaped_name_example = escaped_name (b'm' ∷ []) (refl, tt)
