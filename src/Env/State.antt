-- ===== src/Env/State.antt =====
-- `Env`: the arguments of the program, the help texts, and the paths. A string is the list of its bytes;
-- a C string has no byte 0, and ends before the first one.
use sylar_windows.Prelude.{
  ℕ, List, [], ◌∷◌, ◌++◌, Bool, true, false, not, ◌&&◌, Option, none, some, ◌==◌, if◌then◌else◌,
  filter,
}

abbrev pub Text : Type 0
Text = List ℕ

-- `m_args` is a map: a list with a key at most once.
pub record Env : Type 0 where
  pub args : List (Text × Text)
  pub helps : List (Text × Text)
  pub program : Text
  pub exe : Text
  pub cwd : Text

abbrev pub same : Text → Text → Bool
same [] [] = true
same [] (y ∷ ys) = false
same (x ∷ xs) [] = false
same (x ∷ xs) (y ∷ ys) = (x == y) && same xs ys

-- `m_args[key] = val`.
unfoldable pub assign : Text → Text → List (Text × Text) → List (Text × Text)
assign key val [] = (key, val) ∷ []
assign key val (e ∷ es) = if same e.0 key then (e.0, val) ∷ es else e ∷ assign key val es

unfoldable pub find : Text → List (Text × Text) → Option Text
find key [] = none
find key (e ∷ es) = if same e.0 key then some e.1 else find key es

unfoldable pub remove : Text → List (Text × Text) → List (Text × Text)
remove key [] = []
remove key (e ∷ es) = if same e.0 key then es else e ∷ remove key es

unfoldable pub add : Text → Text → Env → Env
add key val s = record s { args = assign key val s.args }

abbrev pub is_some {ℓ} : {A : Type ℓ} → Option A → Bool
is_some none = false
is_some (some a) = true

abbrev pub value_or : Text → Option Text → Text
value_or d none = d
value_or d (some v) = v

unfoldable pub has : Text → Env → Bool
has key s = is_some (find key s.args)

unfoldable pub del : Text → Env → Env
del key s = record s { args = remove key s.args }

unfoldable pub get : Text → Text → Env → Text
get key default_value s = value_or default_value (find key s.args)

unfoldable pub remove_help : Text → Env → Env
remove_help key s = record s { helps = filter (λ h. not (same h.0 key)) s.helps }

unfoldable pub add_help : Text → Text → Env → Env
add_help key desc s = let t = remove_help key s in record t { helps = t.helps ++ (key, desc) ∷ [] }

-- The loop of `init` over the arguments behind the first, and the `add` behind it. `now_key` is the option
-- that waits for its value. The answer is false at an argument that is out of place.
unfoldable pub parse_args : List Text → Option Text → Env → Bool × Env
parse_args [] none s = (true, s)
parse_args [] (some k) s = (true, add k [] s)
parse_args ([] ∷ rest) none s = (false, s)
parse_args ([] ∷ rest) (some k) s = parse_args rest none (add k [] s)
parse_args ((c ∷ cs) ∷ rest) none s =
    let option = parse_args rest (some cs) s in
    if c == b'-' then elim cs [ [] ↦ (false, s) | _ ↦ option ] else (false, s)
parse_args ((c ∷ cs) ∷ rest) (some k) s =
    let option = parse_args rest (some cs) (add k [] s) in
    let value = parse_args rest none (add k (c ∷ cs) s) in
    if c == b'-' then elim cs [ [] ↦ (false, s) | _ ↦ option ] else value

-- `substr(0, find_last_of(sep))`: all of it, if there is no separator.
abbrev pub has_byte : ℕ → Text → Bool
has_byte b [] = false
has_byte b (c ∷ cs) = if c == b then true else has_byte b cs

abbrev pub before_last : ℕ → Text → Text
before_last sep [] = []
before_last sep (c ∷ cs) =
    if c == sep
    then (if has_byte sep cs then c ∷ before_last sep cs else [])
    else c ∷ before_last sep cs

-- `init`; `path` is the module's file name, `sep` the path separator. `m_exe` is the path in the end, also
-- when it is empty.
unfoldable pub init : ℕ → Text → Text → List Text → Env → Bool × Env
init sep path program args s =
    parse_args args none
      (record s { exe = path; cwd = before_last sep path ++ sep ∷ []; program = program })

unfoldable pub get_absolute_path : ℕ → Text → Env → Text
get_absolute_path sep [] s = sep ∷ []
get_absolute_path sep (c ∷ cs) s = if c == sep then c ∷ cs else s.cwd ++ c ∷ cs

unfoldable pub get_config_path : ℕ → Env → Text
get_config_path sep s = get_absolute_path sep (get (b'c' ∷ []) (b'c' ∷ b'o' ∷ b'n' ∷ b'f' ∷ []) s) s
