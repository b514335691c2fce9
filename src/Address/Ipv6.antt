-- ===== src/Address/Ipv6.antt =====
-- `IPv6Address`.
use sylar_windows.Prelude.{
  ℕ, zero, suc, ◌+◌, ◌-◌, ◌*◌, ◌/◌, ◌%◌, List, [], ◌∷◌, ◌++◌, replicate, Bool, true, false, not,
  ◌&&◌, Option, none, some, bit_and, bit_or, ltb, ◌==◌, if◌then◌else◌,
}
use sylar_windows.Endia.{Endian, byteswap_on_little_endian}
use sylar_windows.Address.Masks.{Made, made, null, undefined, map_made, create_mask}
use sylar_windows.Address.Ipv4.{decimal}

-- `sockaddr_in6`, less the members that the code leaves zero: the address as its 16 bytes.
pub record SockaddrIn6 : Type 0 where
  pub family : ℕ
  pub port : ℕ
  pub bytes : List ℕ

-- `AF_INET6` on Windows.
abbrev pub af_inet6 : ℕ
af_inet6 = 23

abbrev pub any_ipv6 : SockaddrIn6
any_ipv6 = record { family = af_inet6; port = 0; bytes = replicate 16 0 }

unfoldable pub new_ipv6 : Endian → List ℕ → ℕ → SockaddrIn6
new_ipv6 order address port = record {
  family = af_inet6;
  port = byteswap_on_little_endian order 2 port;
  bytes = address;
}

-- `Byte[i] = f(Byte[i])`; beyond the array it is undefined.
abbrev pub change_at : ℕ → (ℕ → ℕ) → List ℕ → Made (List ℕ)
change_at i f [] = undefined
change_at zero f (b ∷ bs) = made (f b ∷ bs)
change_at (suc i) f (b ∷ bs) = map_made (λ bs. b ∷ bs) (change_at i f bs)

-- The loops `for (i = from; i < 16; ++i) Byte[i] = v` and `for (i = 0; i < to; ++i) Byte[i] = v`.
abbrev pub fill_from : ℕ → ℕ → List ℕ → List ℕ
fill_from i v [] = []
fill_from zero v (b ∷ bs) = v ∷ fill_from zero v bs
fill_from (suc i) v (b ∷ bs) = b ∷ fill_from i v bs

abbrev pub fill_to : ℕ → ℕ → List ℕ → List ℕ
fill_to zero v bs = bs
fill_to (suc i) v [] = []
fill_to (suc i) v (b ∷ bs) = v ∷ fill_to i v bs

abbrev pub and_then {ℓ κ} : {A : Type ℓ} {B : Type κ} → Made A → (A → Made B) → Made B
and_then (made a) f = f a
and_then null f = null
and_then undefined f = undefined

-- `broadcastAddress`.
unfoldable pub broadcast_address6 : ℕ → SockaddrIn6 → Made SockaddrIn6
broadcast_address6 prefix_len a = and_then (create_mask 1 (prefix_len % 8)) (λ mask.
    map_made (λ bs. record a { bytes = fill_from (prefix_len / 8 + 1) 255 bs })
      (change_at (prefix_len / 8) (λ b. bit_or b mask) a.bytes))

-- `networdAddress`.
unfoldable pub netword_address6 : ℕ → SockaddrIn6 → Made SockaddrIn6
netword_address6 prefix_len a = and_then (create_mask 1 (prefix_len % 8)) (λ mask.
    map_made (λ bs. record a { bytes = fill_from (prefix_len / 8 + 1) 0 bs })
      (change_at (prefix_len / 8) (λ b. bit_and b mask) a.bytes))

-- `subnetMask`; `~` of a `uint8_t`.
unfoldable pub subnet_mask6 : ℕ → Made SockaddrIn6
subnet_mask6 prefix_len = and_then (create_mask 1 (prefix_len % 8)) (λ mask.
    map_made (λ bs. record any_ipv6 { bytes = fill_to (prefix_len / 8) 255 bs })
      (change_at (prefix_len / 8) (λ b. 255 - mask) (replicate 16 0)))

unfoldable pub get_port6 : Endian → SockaddrIn6 → ℕ
get_port6 order a = byteswap_on_little_endian order 2 a.port

unfoldable pub set_port6 : Endian → ℕ → SockaddrIn6 → SockaddrIn6
set_port6 order v a = record a { port = byteswap_on_little_endian order 2 v }

-- `addr[i]`: the machine reads the bytes of a group lowest first.
abbrev pub groups : List ℕ → List ℕ
groups (a ∷ b ∷ bs) = (a + 256 * b) ∷ groups bs
groups bs = []

abbrev pub hex_digit : ℕ → ℕ
hex_digit n = if ltb n 10 then b'0' + n else b'a' + (n - 10)

-- `os << std::hex << n`.
unfoldable pub hex : ℕ → ℕ → List ℕ
hex zero n = []
hex (suc fuel) n =
    let high = hex fuel (n / 16) in
    if ltb n 16 then hex_digit n ∷ [] else high ++ hex_digit (n % 16) ∷ []

-- `i && addr[i - 1] == 0`.
abbrev pub after_zero : Option ℕ → Bool
after_zero none = false
after_zero (some g) = g == 0

-- `if (i) os << ":"`.
abbrev pub colon : Option ℕ → List ℕ
colon none = []
colon (some g) = b':' ∷ []

-- The loop of `insert` over the groups, after `addr[i - 1]`: the text, and `used_zeros` at its end.
unfoldable pub insert_loop : (ℕ → List ℕ) → Option ℕ → Bool → List ℕ → List ℕ × Bool
insert_loop text before used_zeros [] = ([], used_zeros)
insert_loop text before used_zeros (g ∷ gs) =
    let gap = after_zero before && not used_zeros in
    let skipped = insert_loop text (some g) used_zeros gs in
    let rest = insert_loop text (some g) (if gap then true else used_zeros) gs in
    if (g == 0) && not used_zeros
    then skipped
    else ((if gap then b':' ∷ [] else []) ++ colon before ++ text g ++ rest.0, rest.1)

-- `addr[7] == 0`.
abbrev pub ends_in_zero : List ℕ → Bool
ends_in_zero [] = false
ends_in_zero (g ∷ []) = g == 0
ends_in_zero (g ∷ h ∷ gs) = ends_in_zero (h ∷ gs)

-- What stands between the brackets.
unfoldable pub groups_text : (ℕ → List ℕ) → List ℕ → List ℕ
groups_text text gs =
    let r = insert_loop text none false gs in
    if not r.1 && ends_in_zero gs then r.0 ++ b':' ∷ b':' ∷ [] else r.0

-- `insert`.
unfoldable pub insert6 : Endian → SockaddrIn6 → List ℕ
insert6 order a =
    b'[' ∷ groups_text (λ g. hex 4 (byteswap_on_little_endian order 2 g)) (groups a.bytes)
    ++ b']' ∷ decimal 5 (get_port6 order a)
