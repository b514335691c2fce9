-- ===== src/Runs/Arguments.antt =====
-- Runs of the environment.
use sylar_windows.Prelude.{◌≡◌, refl, [], ◌∷◌, true, false, none, some}
use sylar_windows.Env.State.{
  Text, Env, init, parse_args, add, assign, find, has, get, del, remove, get_config_path,
  get_absolute_path,
}
use sylar_windows.Env.Options.{Given, written, set_all, located, init-written}

abbrev empty : Env
empty = record { args = []; helps = []; program = []; exe = []; cwd = [] }

abbrev with_config : Given
with_config = record { first = b'c'; others = []; value = some (b'a' ∷ b'b' ∷ []) }

abbrev daemon : Given
daemon = record { first = b'd'; others = []; value = none }

abbrev path : Text
path = b'C' ∷ b':' ∷ 92 ∷ b'x' ∷ []

-- `-c ab -d` behind the program's name.
configured :
    get_config_path 92 (init 92 path [] (written (with_config ∷ daemon ∷ [])) empty).1
    ≡ b'C' ∷ b':' ∷ 92 ∷ b'a' ∷ b'b' ∷ []
unfolding init parse_args add assign get find get_config_path get_absolute_path
configured = refl

-- A value with no option in front of it.
stray : (init 92 path [] (path ∷ []) empty).0 ≡ false
unfolding init parse_args
stray = refl

deleted : has (b'c' ∷ []) (del (b'c' ∷ []) (add (b'c' ∷ []) [] empty)) ≡ false
unfolding has del add assign find remove
deleted = refl

init-written_example :
    init 92 path [] (written (with_config ∷ daemon ∷ [])) empty
    ≡ (true, set_all (with_config ∷ daemon ∷ []) (located 92 path [] empty))
init-written_example = init-written 92 path [] (with_config ∷ daemon ∷ []) empty (refl, (refl, tt))
