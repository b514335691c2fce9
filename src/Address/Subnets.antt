-- ===== src/Address/Subnets.antt =====
-- What `broadcastAddress`, `networdAddress` and `subnetMask` of an IPv4 address make of a prefix.
use sylar_windows.Prelude.{
  ℕ, ◌+◌, ◌-◌, ◌*◌, ◌/◌, ◌%◌, ◌^◌, ◌≤◌, ◌<◌, ◌≡◌, sym, ap, ◌∙◌, arith, some, ltb, if◌then◌else◌,
  if-true, if-false, lt→ltb, ◌⊎◌, inl, inr, false,
}
use sylar_windows.Prelude.Bits.{bit_and_mask}
use sylar_windows.Prelude.Fields.{bit_or_mask}
use native.Mathlib.Nat.{one-le-pow, pow-le-pow_right}
use sylar_windows.ByteArray.State.{sub_size}
use sylar_windows.Endia.{Endian}
use sylar_windows.Address.Masks.{made, null, undefined, map_made, create_mask, count_bytes}
use sylar_windows.Address.Ipv4.{
  SockaddrIn, new_ipv4, broadcast_address, netword_address, subnet_mask, host_number,
}
use sylar_windows.Address.Swapping.{swap-bit_or, swap-bit_and, swap_flip}
use sylar_windows.Address.Counting.{ones, ones_high, count_bytes-ones}

width : (k p : ℕ) → k + p ≡ 32 → sub_size 32 p ≡ k
width k p h = ground arith

mask_bound : (k p : ℕ) → k + p ≡ 32 → 2 ^ k ≤ 2 ^ 32
mask_bound k p h = pow-le-pow_right {n = 2} (omega arith) {i = k} {j = 32} (omega arith)

mask-lt : (k p : ℕ) → k + p ≡ 32 → 2 ^ k - 1 < 2 ^ 32
mask-lt k p h = omega (arith, mask_bound k p h)

create_mask_made : (k p : ℕ) → k + p ≡ 32 → 2 ≤ p → create_mask 4 p ≡ made (2 ^ k - 1)
unfolding create_mask
create_mask_made k p h l =
    ap (λ n. if ltb n 31 then made ((2 ^ n - 1) % 2 ^ 32) else undefined) {x = sub_size 32 p}
      {y = k} (width k p h)
    ∙ if-true (ltb k 31) _ _ (lt→ltb k 31 (omega arith))
    ∙ ap made (omega (arith, mask_bound k p h))

-- For a prefix of 2 to 32 bits, `broadcastAddress` sets all bits behind the prefix and keeps the prefix,
-- and `subnetMask` is the ones of the prefix, which `CountBytes` counts. `networdAddress` keeps the
-- bits behind the prefix and clears the prefix.
pub subnet_of :
    (order : Endian) (k p address port : ℕ)
    → k + p ≡ 32
    → 2 ≤ p
    → address < 2 ^ 32
    → (b m n : SockaddrIn) × (broadcast_address order p (new_ipv4 order address port) ≡ made b)
      × (host_number order b ≡ address / 2 ^ k * 2 ^ k + (2 ^ k - 1))
      × (subnet_mask order p ≡ made m)
      × (host_number order m ≡ 2 ^ 32 - 2 ^ k)
      × (count_bytes 32 (host_number order m) ≡ some p)
      × (netword_address order p (new_ipv4 order address port) ≡ made n)
      × (host_number order n ≡ address % 2 ^ k)
unfolding broadcast_address netword_address subnet_mask host_number new_ipv4
subnet_of order k p address port h l a =
    let mask = create_mask_made k p h l in
    let within : ltb 32 p ≡ false = ground arith in
    let high : 2 ^ 32 - 1 - (2 ^ k - 1) ≡ 2 ^ 32 - 2 ^ k = omega (arith, one-le-pow k 2) in
    let flip = swap_flip order (2 ^ k - 1) (mask-lt k p h) ∙ high in
    (
      _,
      _,
      _,
      if-false (ltb 32 p) _ _ within ∙ ap (map_made _) mask,
      swap-bit_or order address (2 ^ k - 1) a (mask-lt k p h) ∙ bit_or_mask k address,
      ap (map_made _) mask,
      flip,
      ap (count_bytes 32) flip
          ∙ (count_bytes-ones 32 (2 ^ 32 - 2 ^ k) (omega (arith, one-le-pow k 2))).0
          ∙ ap some (ap (λ w. ones w (2 ^ w - 2 ^ k)) {x = 32} {y = k + p} (sym h) ∙ ones_high k p),
      if-false (ltb 32 p) _ _ within ∙ ap (map_made _) mask,
      swap-bit_and order address (2 ^ k - 1) a (mask-lt k p h) ∙ bit_and_mask k address,
    )

create_mask_undefined : (p : ℕ) → 31 ≤ sub_size 32 p → create_mask 4 p ≡ undefined
unfolding create_mask
create_mask_undefined p h = if-false (ltb (sub_size 32 p) 31) _ _ (ground arith)

-- A prefix of 0 or 1 bits shifts or subtracts beyond `int`, in `subnetMask` and in `broadcastAddress`; for
-- one of more than 32 bits there is no broadcast address, and `subnetMask` shifts beyond `int`.
pub subnet_undefined :
    (order : Endian) (p : ℕ) (a : SockaddrIn)
    → (p < 2) ⊎ ((32 < p) × (p < 2 ^ 32))
    → (subnet_mask order p ≡ undefined)
      × (((p < 2) × (broadcast_address order p a ≡ undefined))
          ⊎ ((32 < p) × (broadcast_address order p a ≡ null)))
unfolding broadcast_address subnet_mask
subnet_undefined order p a (inl h) =
    let mask = create_mask_undefined p (ground arith) in
    (ap (map_made _) mask, inl (h, if-false (ltb 32 p) _ _ (ground arith) ∙ ap (map_made _) mask))
subnet_undefined order p a (inr h) = (
  ap (map_made _) (create_mask_undefined p (ground arith)),
  inr (h.0, if-true (ltb 32 p) _ _ (lt→ltb 32 p h.0)),
)
