-- ===== src/Env/Options.antt =====
-- The command line: what `init` reads from options that are written out.
use sylar_windows.Prelude.{
  ℕ, ◌≡◌, arith, List, [], ◌∷◌, ◌++◌, All, Bool, true, false, Option, none, some, ◌==◌,
  if◌then◌else◌, refl, ◌∙◌, Bool-cases, inl, inr,
}
use sylar_windows.Env.State.{Text, Env, add, parse_args, value_or, init, before_last}

-- An option: a name behind the dash, its first byte apart since it has one, and a value, if there is one.
pub record Given : Type 0 where
  pub first : ℕ
  pub others : Text
  pub value : Option Text

abbrev pub key_of : Given → Text
key_of o = o.first ∷ o.others

-- A value does not start with a dash.
abbrev pub is_value : Option Text → Bool
is_value none = true
is_value (some []) = true
is_value (some (c ∷ cs)) = if c == b'-' then false else true

-- Options as arguments.
abbrev pub with_value : Option Text → List Text → List Text
with_value none rest = rest
with_value (some v) rest = v ∷ rest

abbrev pub written : List Given → List Text
written [] = []
written (o ∷ os) = (b'-' ∷ key_of o) ∷ with_value o.value (written os)

-- What they set: an option without a value is set to the empty string.
abbrev pub set_all : List Given → Env → Env
set_all [] s = s
set_all (o ∷ os) s = set_all os (add (key_of o) (value_or [] o.value) s)

-- The option that waits is done once the next one begins.
abbrev pub settle : Option Text → Env → Env
settle none s = s
settle (some k) s = add k [] s

pub option_step :
    (o : Given) (rest : List Text) (key : Option Text) (s : Env)
    → parse_args ((b'-' ∷ key_of o) ∷ rest) key s ≡ parse_args rest (some (key_of o)) (settle key s)
unfolding parse_args
option_step o rest none s = refl
option_step o rest (some k) s = refl

pub value_step :
    (v : Text) (rest : List Text) (k : Text) (s : Env)
    → is_value (some v) ≡ true
    → parse_args (v ∷ rest) (some k) s ≡ parse_args rest none (add k v s)
unfolding parse_args
value_step [] rest k s h = refl
value_step (c ∷ cs) rest k s h = elim (Bool-cases (c == b'-')) [
  | inl e ↦ absurd (let g = rw e at h in ground arith)
  | inr e ↦ rw e refl
]

parse_rest :
    (os : List Given) (k : Text) (v : Option Text) (s : Env)
    → is_value v ≡ true
    → ((key : Option Text) (s : Env)
        → parse_args (written os) key s ≡ (true, set_all os (settle key s)))
    → parse_args (with_value v (written os)) (some k) s
      ≡ (true, set_all os (add k (value_or [] v) s))
parse_rest os k none s h next = next (some k) s
parse_rest os k (some v) s h next = value_step v (written os) k s h ∙ next none (add k v s)

parse_written :
    (os : List Given) (key : Option Text) (s : Env)
    → All (λ o. is_value o.value ≡ true) os
    → parse_args (written os) key s ≡ (true, set_all os (settle key s))
unfolding parse_args
parse_written [] none s h = refl
parse_written [] (some k) s h = refl
parse_written (o ∷ os) key s h =
    option_step o (with_value o.value (written os)) key s
    ∙ parse_rest os (key_of o) o.value (settle key s) h.0 (λ key s. parse_written os key s h.1)

-- The state in which `init` reads the arguments.
abbrev pub located : ℕ → Text → Text → Env → Env
located sep path program s = record s {
  exe = path;
  cwd = before_last sep path ++ sep ∷ [];
  program = program;
}

-- `init` accepts every command line of options `-name` and `-name value`, where no value begins with a
-- dash, and sets each option in turn, an option without a value to the empty string.
pub init-written :
    (sep : ℕ) (path program : Text) (os : List Given) (s : Env)
    → All (λ o. is_value o.value ≡ true) os
    → init sep path program (written os) s ≡ (true, set_all os (located sep path program s))
unfolding init
init-written sep path program os s h = parse_written os none (located sep path program s) h
