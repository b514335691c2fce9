-- ===== src/Log/Ends.antt =====
-- The loops of `LogFormatter::init` end on every pattern, and what they make of an escaped percent sign.
use sylar_windows.Prelude.{
  ℕ, zero, suc, ◌≤◌, ◌<◌, ◌≡◌, refl, sym, ap, ◌∙◌, arith, List, [], ◌∷◌, ◌++◌, length, Bool, not,
  ◌&&◌, Option, none, some, ◌==◌, if-cases, inr, length-append,
}
use mathlib.Core.List.{append-nil}
use sylar_windows.Log.Pattern.{
  Piece, text, item, FormatItem, is_alpha, scan_format, named, scan_name, begins_with, add_piece,
  pieces, items_of, with_items, init,
}
use sylar_windows.Log.Written.{IsName, field, pieces-written}

-- No more is left than there was.
abbrev LeavesFormat : ℕ → Option (List ℕ × List ℕ) → Type 0
LeavesFormat n none = Unit
LeavesFormat n (some r) = length r.1 ≤ n

abbrev LeavesName : ℕ → Option (List ℕ × List ℕ × List ℕ) → Type 0
LeavesName n none = Unit
LeavesName n (some r) = length r.2 ≤ n

more_format : (m n : ℕ) (o : Option (List ℕ × List ℕ)) → m ≤ n → LeavesFormat m o → LeavesFormat n o
more_format m n none h k = tt
more_format m n (some r) h k = omega arith

more_name :
    (m n : ℕ) (o : Option (List ℕ × List ℕ × List ℕ)) → m ≤ n → LeavesName m o → LeavesName n o
more_name m n none h k = tt
more_name m n (some r) h k = omega arith

named-LeavesName :
    (n : ℕ) (str : List ℕ) (o : Option (List ℕ × List ℕ))
    → LeavesFormat n o
    → LeavesName n (named str o)
named-LeavesName n str none h = tt
named-LeavesName n str (some r) h = h

scan_format-LeavesFormat : (fmt cs : List ℕ) → LeavesFormat (length cs) (scan_format fmt cs)
unfolding scan_format
scan_format-LeavesFormat fmt [] = tt
scan_format-LeavesFormat fmt (c ∷ cs) =
    if-cases (LeavesFormat (suc (length cs))) (c == b'}') _ _ (λ e. omega arith)
      (λ e.
        more_format (length cs) (suc (length cs)) (scan_format (fmt ++ c ∷ []) cs) (omega arith)
          (scan_format-LeavesFormat (fmt ++ c ∷ []) cs))

scan_name-LeavesName : (str cs : List ℕ) → LeavesName (length cs) (scan_name str cs)
unfolding scan_name
scan_name-LeavesName str [] = omega arith
scan_name-LeavesName str (c ∷ cs) =
    if-cases (LeavesName (suc (length cs))) (not (is_alpha c) && not (c == b'{') && not (c == b'}'))
      _ _ (λ e. omega arith)
      (λ e.
        if-cases (LeavesName (suc (length cs))) (c == b'{') _ _
          (λ k. named-LeavesName (suc (length cs)) str (scan_format [] cs) (
            more_format (length cs) (suc (length cs)) (scan_format [] cs) (omega arith)
              (scan_format-LeavesFormat [] cs)))
          (λ k.
            more_name (length cs) (suc (length cs)) (scan_name (str ++ c ∷ []) cs) (omega arith)
              (scan_name-LeavesName (str ++ c ∷ []) cs)))

abbrev Ends : Option (List Piece × Bool) → Type 0
Ends o = (r : List Piece × Bool) × (o ≡ some r)

add_piece-Ends :
    (nstr : List ℕ) (f : Option (List ℕ × List ℕ × List ℕ)) (o : Option (List Piece × Bool))
    → Ends o
    → Ends (add_piece nstr f o)
add_piece-Ends nstr none o (r, e) = (_, ap (add_piece nstr none) e)
add_piece-Ends nstr (some x) o (r, e) = (_, ap (add_piece nstr (some x)) e)

-- What follows an item ends, if all that is shorter does.
later-Ends :
    (fuel : ℕ) (nstr cs : List ℕ) (f : Option (List ℕ × List ℕ × List ℕ))
    → ((nstr p : List ℕ) → length p ≤ length cs → Ends (pieces fuel nstr p))
    → LeavesName (length cs) f
    → Ends (add_piece nstr f (elim f [ none ↦ pieces fuel nstr cs | some r ↦ pieces fuel [] r.2 ]))
later-Ends fuel nstr cs none h k = add_piece-Ends nstr none _ (h nstr cs (omega arith))
later-Ends fuel nstr cs (some r) h k = add_piece-Ends nstr (some r) _ (h [] r.2 k)

pieces-Ends : (fuel : ℕ) (nstr p : List ℕ) → length p < fuel → Ends (pieces fuel nstr p)
unfolding pieces
pieces-Ends zero nstr p h = absurd (omega arith)
pieces-Ends (suc fuel) nstr [] h = (_, refl)
pieces-Ends (suc fuel) nstr (c ∷ cs) h =
    if-cases Ends (not (c == b'%')) _ _ (λ e. pieces-Ends fuel (nstr ++ c ∷ []) cs (omega arith))
      (λ e.
        if-cases Ends (begins_with b'%' cs) _ _
          (λ k. pieces-Ends fuel (nstr ++ c ∷ []) cs (omega arith))
          (λ k.
            later-Ends fuel nstr cs (scan_name [] cs)
              (λ nstr p l. pieces-Ends fuel nstr p (omega arith)) (scan_name-LeavesName [] cs)))

-- `init` ends on every pattern, within a round of its loop for each byte and one more.
pub init_ends : (pattern : List ℕ) → (r : List FormatItem × Bool) × (init pattern ≡ some r)
unfolding init
init_ends pattern =
    let (r, e) = pieces-Ends (suc (length pattern)) [] pattern (omega arith) in (_, ap with_items e)

-- Two percent signs in front of a name are not an escaped one: they make a text of one percent sign, and
-- then the item of the name.
pub escaped_name :
    (name : List ℕ)
    → IsName name
    → init (b'%' ∷ b'%' ∷ name) ≡ some (items_of (text (b'%' ∷ []) ∷ item name [] ∷ []))
unfolding init
escaped_name name h = ap with_items (
    first_sign
    ∙ (ap (λ l. pieces (suc (suc (length name))) (b'%' ∷ []) (b'%' ∷ l)) (sym (append-nil name))
        ∙ pieces-written (suc (suc (length name))) (b'%' ∷ []) (field name none ∷ []) (h, tt, tt)
            (inr tt) (omega (arith, length-append name []))))
  where
    first_sign :
        pieces (suc (suc (suc (length name)))) [] (b'%' ∷ b'%' ∷ name)
        ≡ pieces (suc (suc (length name))) (b'%' ∷ []) (b'%' ∷ name)
    first_sign = unfold pieces in refl
