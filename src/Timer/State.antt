-- ===== src/Timer/State.antt =====
-- `Timer`, its `Comparator`, and the `std::set` of timers that the manager keeps, as a sorted list.
use sylar_windows.Prelude.{
  ℕ, ◌+◌, ◌-◌, ◌^◌, ◌%◌, List, [], ◌∷◌, Bool, true, false, Option, none, some, ltb, if◌then◌else◌,
}

-- A timer object: `address` is where it lies, which the order of the set depends on. A callback is
-- a number that names it, and `none` is the empty `std::function`.
pub record Timer : Type 0 where
  pub address : ℕ
  pub recurring : Bool
  pub ms : ℕ
  pub next : ℕ
  pub cb : Option ℕ

-- The members of `TimerManager`, less its mutex.
pub record TimerManager : Type 0 where
  pub timers : List Timer
  pub tickled : Bool
  pub previouse_time : ℕ

-- Sums and differences in `uint64_t`, of numbers below 2 ^ 64.
unfoldable pub add_u64 : ℕ → ℕ → ℕ
add_u64 a b = (a + b) % 2 ^ 64

unfoldable pub sub_u64 : ℕ → ℕ → ℕ
sub_u64 a b = (a + 2 ^ 64 - b) % 2 ^ 64

-- The comparison of two timers that are there: by `m_next`, then by address.
unfoldable pub before : Timer → Timer → Bool
before lhs rhs =
    if ltb lhs.next rhs.next
    then true
    else if ltb rhs.next lhs.next
    then false
    else ltb lhs.address rhs.address

-- `Comparator`, null pointers included.
abbrev pub comparator : Option Timer → Option Timer → Bool
comparator none none = false
comparator none (some rhs) = true
comparator (some lhs) none = true
comparator (some lhs) (some rhs) = before lhs rhs

-- `find(t) != end()`: the set holds a timer that is neither before nor behind `t`.
unfoldable pub find : Timer → List Timer → Bool
find t [] = false
find t (u ∷ us) = if before t u then false else if before u t then find t us else true

unfoldable pub insert : Timer → List Timer → List Timer
insert t [] = t ∷ []
insert t (u ∷ us) =
    if before t u then t ∷ u ∷ us else if before u t then u ∷ insert t us else u ∷ us

unfoldable pub erase : Timer → List Timer → List Timer
erase t [] = []
erase t (u ∷ us) = if before t u then u ∷ us else if before u t then u ∷ erase t us else us

-- Whether `t`, or the timer in its place, is at `begin()`.
unfoldable pub is_begin : Timer → List Timer → Bool
is_begin t [] = false
is_begin t (u ∷ us) = if before t u then false else if before u t then false else true

-- What is in front of `lower_bound(t)`, and the rest.
unfoldable pub lower_bound : Timer → List Timer → List Timer × List Timer
lower_bound t [] = ([], [])
lower_bound t (u ∷ us) =
    let rest = lower_bound t us in if before u t then (u ∷ rest.0, rest.1) else ([], u ∷ us)
