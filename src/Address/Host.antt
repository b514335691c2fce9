-- ===== src/Address/Host.antt =====
-- `Address::Lookup` up to its call of `getaddrinfo`, and the comparisons of addresses.
use sylar_windows.Prelude.{
  ℕ, min, List, [], ◌∷◌, length, take, Bool, true, false, ◌&&◌, Option, none, some, ltb, ◌==◌,
  if◌then◌else◌,
}

-- `memchr(s, b, n)`: what stands before the byte, and what behind it.
unfoldable pub split_at_byte : ℕ → List ℕ → Option (List ℕ × List ℕ)
split_at_byte b [] = none
split_at_byte b (c ∷ cs) =
    let rest = split_at_byte b cs in
    if c == b then some ([], cs) else elim rest [ none ↦ none | some r ↦ some (c ∷ r.0, r.1) ]

abbrev pub is_empty : List ℕ → Bool
is_empty [] = true
is_empty (c ∷ cs) = false

-- `node` and `service`, null where it is `none`.
pub record Target : Type 0 where
  pub node : List ℕ
  pub service : Option (List ℕ)

-- `*(endipv6 + 1) == ':'`; behind the host stands the byte 0.
abbrev pub service_behind : List ℕ → Option (List ℕ)
service_behind [] = none
service_behind (c ∷ cs) = if c == b':' then some cs else none

-- An address in brackets.
abbrev pub bracketed : Option (List ℕ × List ℕ) → Target
bracketed none = record { node = []; service = none }
bracketed (some r) = record { node = r.0; service = service_behind r.1 }

unfoldable pub in_brackets : List ℕ → Target
in_brackets [] = record { node = []; service = none }
in_brackets (c ∷ cs) =
    if c == b'[' then bracketed (split_at_byte b']' cs) else record { node = []; service = none }

-- The first colon, with `r` around it: where another one follows, `service` still points at it.
abbrev pub after_colon : List ℕ × List ℕ → Option (List ℕ × List ℕ) → Target
after_colon r none = record { node = r.0; service = some r.1 }
after_colon r (some s) = record { node = []; service = some (b':' ∷ r.1) }

abbrev pub at_colon : Option (List ℕ × List ℕ) → Target
at_colon none = record { node = []; service = none }
at_colon (some r) = after_colon r (split_at_byte b':' r.1)

unfoldable pub split_host : List ℕ → Target
split_host host =
    let first = in_brackets host in
    let second = if is_empty first.node then at_colon (split_at_byte b':' host) else first in
    if is_empty second.node then record second { node = host } else second

-- `memcmp` of two runs of the same length.
pub data Sign : Type 0 where
  below equal above : Sign

unfoldable pub memcmp : List ℕ → List ℕ → Sign
memcmp [] bs = equal
memcmp (a ∷ as') [] = equal
memcmp (a ∷ as') (b ∷ bs) =
    let rest = memcmp as' bs in if ltb a b then below else if ltb b a then above else rest

-- `operator<`: where the shorter address is a beginning of the other, and is not the left one, the
-- function ends without a value.
unfoldable pub less : List ℕ → List ℕ → Option Bool
less lhs rhs =
    let len = min (length lhs) (length rhs) in
    elim (memcmp (take len lhs) (take len rhs)) [
      | below ↦ some true
      | above ↦ some false
      | equal ↦ if ltb (length lhs) (length rhs) then some true else none
    ]

unfoldable pub equals : List ℕ → List ℕ → Bool
equals lhs rhs = (length lhs == length rhs) && elim (memcmp lhs rhs) [ equal ↦ true | _ ↦ false ]
