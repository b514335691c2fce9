-- ===== src/Address/Hosts.antt =====
-- How a host is split, and where addresses can be compared.
use sylar_windows.Prelude.{
  ℕ, suc, ◌≡◌, ◌≢◌, ◌⊎◌, inl, inr, refl, sym, ap, ◌∙◌, arith, min, List, [], ◌∷◌, ◌++◌, length,
  take, All, Bool, true, false, Option, none, some, ltb, ◌==◌, if◌then◌else◌, if-true, if-false,
  Bool-cases, lt→ltb, ◌≤◌, if-cases, subst,
}
use sylar_windows.Address.Host.{
  split_at_byte, is_empty, in_brackets, at_colon, split_host, Sign, below, equal, above, memcmp,
  less,
}

abbrev pub Lacks : ℕ → List ℕ → Type 0
Lacks b s = All (λ c. c ≢ b) s

differs : (c b : ℕ) → c ≢ b → (c == b) ≡ false
differs c b h = elim (Bool-cases (c == b)) [ inl e ↦ absurd (h (ground arith)) | inr e ↦ e ]

same : (b : ℕ) → (b == b) ≡ true
same b = ground arith

split_at_byte_here :
    (b : ℕ) (s rest : List ℕ) → Lacks b s → split_at_byte b (s ++ b ∷ rest) ≡ some (s, rest)
unfolding split_at_byte
split_at_byte_here b [] rest h = rw (same b) refl
split_at_byte_here b (c ∷ s) rest h = rw (differs c b h.0, split_at_byte_here b s rest h.1) refl

split_at_byte_nowhere : (b : ℕ) (s : List ℕ) → Lacks b s → split_at_byte b s ≡ none
unfolding split_at_byte
split_at_byte_nowhere b [] h = refl
split_at_byte_nowhere b (c ∷ s) h = rw (differs c b h.0, split_at_byte_nowhere b s h.1) refl

without_bracket :
    (c : ℕ) (s : List ℕ)
    → c ≢ b'['
    → split_host (c ∷ s) ≡ (
        let second = at_colon (split_at_byte b':' (c ∷ s)) in
        if is_empty second.node then record second { node = c ∷ s } else second)
unfolding split_host in_brackets
without_bracket c s h = rw (differs c b'[' h) refl

-- `Lookup` splits a name without a colon that stands alone, such a name and a port, and an address in
-- brackets, with any colons in it, and a port. Of a name with two colons behind it, as an IPv6 address
-- without brackets has, it takes the whole as the node, and what begins at the first colon as the service.
pub split_host_parts :
    (c : ℕ) (name : List ℕ) (d : ℕ) (address port rest : List ℕ)
    → c ≢ b'['
    → Lacks b':' (c ∷ name)
    → Lacks b']' (d ∷ address)
    → Lacks b':' port
    → (split_host (c ∷ name) ≡ record { node = c ∷ name; service = none })
      × (split_host ((c ∷ name) ++ b':' ∷ port) ≡ record { node = c ∷ name; service = some port })
      × (split_host (b'[' ∷ (d ∷ address) ++ b']' ∷ b':' ∷ port)
          ≡ record { node = d ∷ address; service = some port })
      × (split_host ((c ∷ name) ++ b':' ∷ (port ++ b':' ∷ rest)) ≡ record {
        node = (c ∷ name) ++ b':' ∷ (port ++ b':' ∷ rest);
        service = some (b':' ∷ (port ++ b':' ∷ rest));
      })
unfolding split_host in_brackets
split_host_parts c name d address port rest h k l p = (
  without_bracket c name h ∙ rw (split_at_byte_nowhere b':' (c ∷ name) k) refl,
  (without_bracket c (name ++ b':' ∷ port) h
      ∙ rw (split_at_byte_here b':' (c ∷ name) port k, split_at_byte_nowhere b':' port p) refl),
  rw (split_at_byte_here b']' (d ∷ address) (b':' ∷ port) l) refl,
  (without_bracket c (name ++ b':' ∷ (port ++ b':' ∷ rest)) h
      ∙ rw
          (
            split_at_byte_here b':' (c ∷ name) (port ++ b':' ∷ rest) k,
            split_at_byte_here b':' port rest p,
          )
          refl),
)

-- The order of runs of bytes, a beginning of a run before the run.
abbrev pub lexicographic : List ℕ → List ℕ → Bool
lexicographic as' [] = false
lexicographic [] (b ∷ bs) = true
lexicographic (a ∷ as') (b ∷ bs) =
    let rest = lexicographic as' bs in if ltb a b then true else if ltb b a then false else rest

abbrev Compared : List ℕ → List ℕ → Sign → Type 0
Compared a b below = lexicographic a b ≡ true
Compared a b above = lexicographic a b ≡ false
Compared a b equal =
    ((lexicographic a b ≡ true) × (ltb (length a) (length b) ≡ true))
    ⊎ ((rest : List ℕ) × (a ≡ b ++ rest) × (ltb (length a) (length b) ≡ false))

min-suc : (m n : ℕ) → min (suc m) (suc n) ≡ suc (min m n)
min-suc m n = omega arith

-- The comparison of what both have is that of the two runs.
memcmp-take :
    (a b : List ℕ)
    → memcmp (take (min (length a) (length b)) a) (take (min (length a) (length b)) b) ≡ memcmp a b
unfolding memcmp
memcmp-take [] b =
    ap (λ n. memcmp (take n []) (take n b)) {x = min 0 (length b)} {y = 0} (omega arith)
memcmp-take (a ∷ as') [] =
    ap (λ n. memcmp (take n (a ∷ as')) (take n [])) {x = min (suc (length as')) 0} {y = 0}
      (omega arith)
memcmp-take (a ∷ as') (b ∷ bs) =
    ap (λ n. memcmp (take n (a ∷ as')) (take n (b ∷ bs))) (min-suc (length as') (length bs))
    ∙ ap (λ r. if ltb a b then below else if ltb b a then above else r) (memcmp-take as' bs)

ltb-le : (m n : ℕ) → n ≤ m → ltb m n ≡ false
ltb-le m n h = ground arith

ltb-suc : (m n : ℕ) → ltb (suc m) (suc n) ≡ ltb m n
ltb-suc m n = ground arith

-- Equal bytes in front change nothing.
Compared-more :
    (a b : ℕ) (as' bs : List ℕ) (s : Sign)
    → a ≡ b
    → lexicographic (a ∷ as') (b ∷ bs) ≡ lexicographic as' bs
    → Compared as' bs s
    → Compared (a ∷ as') (b ∷ bs) s
Compared-more a b as' bs below q e h = e ∙ h
Compared-more a b as' bs above q e h = e ∙ h
Compared-more a b as' bs equal q e (inl h) = inl (e ∙ h.0, ltb-suc (length as') (length bs) ∙ h.1)
Compared-more a b as' bs equal q e (inr (rest, h, l)) =
    inr (rest, ap (λ n. n ∷ as') q ∙ ap (◌∷◌ b) h, ltb-suc (length as') (length bs) ∙ l)

compared : (a b : List ℕ) → Compared a b (memcmp a b)
unfolding memcmp
compared [] [] = inr ([], refl, refl)
compared [] (b ∷ bs) = inl (refl, lt→ltb 0 (suc (length bs)) (omega arith))
compared (a ∷ as') [] = inr (a ∷ as', refl, ltb-le (length (a ∷ as')) 0 (omega arith))
compared (a ∷ as') (b ∷ bs) =
    if-cases (Compared (a ∷ as') (b ∷ bs)) (ltb a b) below _ (λ e. rw e refl)
      (λ e.
        if-cases (Compared (a ∷ as') (b ∷ bs)) (ltb b a) above _ (λ k. rw (e, k) refl)
          (λ k.
            Compared-more a b as' bs (memcmp as' bs) (ground arith) (rw (e, k) refl)
              (compared as' bs)))

decided :
    (lhs rhs : List ℕ) (s : Sign)
    → Compared lhs rhs s
    → let r : Option Bool = elim s [
      | below ↦ some true
      | above ↦ some false
      | equal ↦ if ltb (length lhs) (length rhs) then some true else none
    ] in
      (r ≡ some (lexicographic lhs rhs)) ⊎ ((r ≡ none) × ((rest : List ℕ) × (lhs ≡ rhs ++ rest)))
decided lhs rhs below h = inl (ap some (sym h))
decided lhs rhs above h = inl (ap some (sym h))
decided lhs rhs equal (inl h) = inl (if-true _ _ _ h.1 ∙ ap some (sym h.0))
decided lhs rhs equal (inr (rest, h, l)) = inr (if-false _ _ _ l, (rest, h))

-- `operator<` is the lexicographic order of the bytes of the addresses, where it returns; it returns
-- nothing only if the right address is a beginning of the left one, as it is where the two are equal.
pub less-lexicographic :
    (lhs rhs : List ℕ)
    → (less lhs rhs ≡ some (lexicographic lhs rhs))
      ⊎ ((less lhs rhs ≡ none) × ((rest : List ℕ) × (lhs ≡ rhs ++ rest)))
unfolding less
less-lexicographic lhs rhs =
    decided lhs rhs _ (subst (Compared lhs rhs) (sym (memcmp-take lhs rhs)) (compared lhs rhs))
