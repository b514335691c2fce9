-- ===== src/Async/Rotation.antt =====
-- `get` of a pool: it returns a stream that is connected, and finds one if there is one, until the counter
-- wraps around.
use sylar_windows.Prelude.{
  ℕ, zero, suc, ◌-◌, ◌^◌, ◌%◌, ◌≡◌, ◌≢◌, arith, List, [], ◌∷◌, Bool, true, false, Option, none,
  some, Bool-cases, inl, inr, refl, subst,
}
use sylar_windows.Async.Pool.{Pool, new_pool, get_elem?, connected_at, get_loop, get}

-- What the loop returns is connected, if it is a stream.
get_loop_connected :
    (connected : ℕ → Bool) (datas : List ℕ) (size left idx i : ℕ)
    → (get_loop connected datas size left idx).0 ≡ some i
    → connected i ≡ true
unfolding get_loop
get_loop_connected connected datas size zero idx i e = absurd (ground arith)
get_loop_connected connected datas size (suc left) idx i e =
    elim (Bool-cases (connected_at connected (get_elem? datas (idx % size)))) [
      | inl c ↦ let found = rw c at e in subst (λ o. connected_at connected o ≡ true) found c
      | inr c ↦ get_loop_connected connected datas size left _ i (rw c at e)
    ]

-- The stream that `get` returns is connected.
pub get_connected :
    (connected : ℕ → Bool) (p : Pool) (i : ℕ) → (get connected p).0 ≡ some i → connected i ≡ true
unfolding get
get_connected connected p i e = get_loop_connected connected p.datas p.size p.size p.idx i e

found : (o : Option ℕ) → o ≢ none → (j : ℕ) × (o ≡ some j)
found none h = absurd (h refl)
found (some j) h = (j, refl)

-- When the counter wraps around, the loop can ask one place twice and another not at all: with three
-- streams, the third is not found though it is connected.
pub get_misses :
    (connected : ℕ → Bool) (a b c : ℕ)
    → connected a ≡ false
    → connected b ≡ false
    → connected c ≡ true
    → (get connected (record new_pool { datas = a ∷ b ∷ c ∷ []; size = 3; idx = 2 ^ 32 - 1 })).0
      ≡ none
unfolding get get_loop
get_misses connected a b c na nb yc = rw (na, nb) refl
