-- ===== src/Address/Masks.antt =====
-- `CreateMask` and `CountBytes`, and what a call on an address may end in.
use sylar_windows.Prelude.{
  ℕ, zero, suc, ◌+◌, ◌-◌, ◌*◌, ◌^◌, ◌%◌, Option, none, some, bit_and, ltb, ◌==◌, if◌then◌else◌,
}
use sylar_windows.ByteArray.State.{sub_size}

-- A call returns, returns a null pointer, or computes what C++ leaves undefined.
pub data Made {ℓ} (A : Type ℓ) : Type ℓ where
  made : A → Made A
  null : Made A
  undefined : Made A

abbrev pub map_made {ℓ κ} : {A : Type ℓ} {B : Type κ} → (A → B) → Made A → Made B
map_made f (made a) = made (f a)
map_made f null = null
map_made f undefined = undefined

-- `CreateMask<T>(bits)` for a type of `w` bytes: `(1 << (8 * w - bits)) - 1` in `int`. A shift by 32
-- or more is undefined, and so is 1 less than what a shift by 31 makes, the least `int`.
unfoldable pub create_mask : ℕ → ℕ → Made ℕ
create_mask w bits =
    let k = sub_size (w * 8) bits in
    if ltb k 31 then made ((2 ^ k - 1) % 2 ^ (8 * w)) else undefined

-- `CountBytes`: each round clears the lowest digit that is 1. `none` is a loop that goes on.
unfoldable pub count_loop : ℕ → ℕ → ℕ → Option ℕ
count_loop zero value result = none
count_loop (suc fuel) value result =
    let rest = count_loop fuel (bit_and value (value - 1)) (result + 1) in
    if value == 0 then some result else rest

-- For a type of `w` bits, with a round for each bit and one to see that none is left.
unfoldable pub count_bytes : ℕ → ℕ → Option ℕ
count_bytes w value = count_loop (suc w) value 0
