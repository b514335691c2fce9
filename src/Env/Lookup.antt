-- ===== src/Env/Lookup.antt =====
-- The maps of the environment: assigning, finding and removing by key, and the help texts.
use sylar_windows.Prelude.{
  ℕ, ◌≡◌, ◌≢◌, arith, List, [], ◌∷◌, ◌++◌, Bool, true, false, not, ◌&&◌, some, ◌==◌, refl, ap, ◌∙◌,
  sym, subst, Bool-cases, inl, inr, filter,
}
use sylar_windows.Env.State.{
  Text, Env, same, assign, find, add, get, add_help, remove_help, value_or,
}

pub same_refl : (x : Text) → same x x ≡ true
same_refl [] = refl
same_refl (c ∷ cs) = rw (eq_self c, same_refl cs) refl
  where
    eq_self : (c : ℕ) → (c == c) ≡ true
    eq_self c = ground arith

and_true : (a b : Bool) → (a && b) ≡ true → (a ≡ true) × (b ≡ true)
and_true true true h = (refl, refl)
and_true true false h = absurd (ground arith)
and_true false b h = absurd (ground arith)

pub same-eq : (x y : Text) → same x y ≡ true → x ≡ y
same-eq [] [] h = refl
same-eq [] (y ∷ ys) h = absurd (ground arith)
same-eq (x ∷ xs) [] h = absurd (ground arith)
same-eq (x ∷ xs) (y ∷ ys) h =
    let p = and_true (x == y) (same xs ys) h in
    ap (λ n. n ∷ xs) {x = x} {y = y} (let g = p.0 in ground arith) ∙ ap (◌∷◌ y) (same-eq xs ys p.1)

pub find-assign :
    (key val : Text) (es : List (Text × Text)) → find key (assign key val es) ≡ some val
unfolding find assign
find-assign key val [] = rw (same_refl key) refl
find-assign key val (e ∷ es) = elim (Bool-cases (same e.0 key)) [
  | inl h ↦ rw (h, h) refl
  | inr h ↦ rw (h, h) (find-assign key val es)
]

pub find-assign_other :
    (key other val : Text) (es : List (Text × Text))
    → same key other ≡ false
    → find other (assign key val es) ≡ find other es
unfolding find assign
find-assign_other key other val [] k = rw k refl
find-assign_other key other val (e ∷ es) k = elim (Bool-cases (same e.0 key)) [
  | inl h ↦
      let d : same e.0 other ≡ false =
        subst (λ n. same n other ≡ false) (sym (same-eq e.0 key h)) k in
      rw (h, d) refl
  | inr h ↦ elim (Bool-cases (same e.0 other)) [
    | inl d ↦ rw (h, d) refl
    | inr d ↦ rw (h, d) (find-assign_other key other val es k)
  ]
]

not_same : (key other : Text) → other ≢ key → same key other ≡ false
not_same key other h = elim (Bool-cases (same key other)) [
  | inl e ↦ absurd (h (sym (same-eq key other e)))
  | inr e ↦ e
]

-- After `add(key, val)`, `get` of that key is the value, whatever it was before, and `get` of another key
-- is what it was.
pub get-add :
    (key other val default_value : Text) (s : Env)
    → other ≢ key
    → (get key default_value (add key val s) ≡ val)
      × (get other default_value (add key val s) ≡ get other default_value s)
unfolding get add
get-add key other val default_value s h = (
  ap (value_or default_value) (find-assign key val s.args),
  ap (value_or default_value) (find-assign_other key other val s.args (not_same key other h)),
)

-- After `addHelp(key, desc)` the key has one help text, the new one, and it is the last.
pub add_help_one :
    (key desc : Text) (s : Env)
    → filter (λ h. same h.0 key) (add_help key desc s).helps ≡ (key, desc) ∷ []
unfolding add_help remove_help
add_help_one key desc s = go s.helps
  where
    go :
        (hs : List (Text × Text))
        → filter (λ h. same h.0 key) (filter (λ h. not (same h.0 key)) hs ++ (key, desc) ∷ [])
          ≡ (key, desc) ∷ []
    go [] = rw (same_refl key) refl
    go (h ∷ hs) = elim (Bool-cases (same h.0 key)) [
      | inl e ↦ rw e (go hs)
      | inr e ↦ rw (e, e) (go hs)
    ]
