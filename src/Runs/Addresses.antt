-- ===== src/Runs/Addresses.antt =====
-- Runs of the addresses.
use sylar_windows.Prelude.{
  ℕ, ◌+◌, ◌-◌, ◌*◌, ◌/◌, ◌%◌, ◌^◌, ◌<◌, ◌≤◌, ◌≡◌, ◌≢◌, ◌⊎◌, inl, refl, arith, List, [], ◌∷◌, ◌++◌,
  replicate, All, some, none,
}
use sylar_windows.Endia.{little, byteswap_on_little_endian, byteswap, le_bytes, of_le_bytes}
use sylar_windows.Address.Masks.{made, null, undefined, create_mask, count_bytes}
use sylar_windows.Address.Ipv4.{
  SockaddrIn, new_ipv4, broadcast_address, netword_address, subnet_mask, host_number, insert,
  decimal, get_port,
}
use sylar_windows.Address.Ipv6.{
  new_ipv6, broadcast_address6, any_ipv6, insert6, groups_text, insert_loop, hex, get_port6,
}
use sylar_windows.Address.Host.{split_host, less, memcmp}
use sylar_windows.Address.Hosts.{lexicographic, split_host_parts, less-lexicographic}
use sylar_windows.Address.Counting.{ones, count_bytes-ones}
use sylar_windows.Address.Subnets.{subnet_of, subnet_undefined}
use sylar_windows.Address.Compression.{joined, StartsNonzero, groups_text_compressed}

-- 192.168.1.77, port 80.
abbrev number : ℕ
number = 192 * 2 ^ 24 + 168 * 2 ^ 16 + 256 + 77

printed :
    insert little (new_ipv4 little number 80)
    ≡ b'1' ∷ b'9' ∷ b'2' ∷ b'.' ∷ b'1' ∷ b'6' ∷ b'8' ∷ b'.' ∷ b'1' ∷ b'.' ∷ b'7' ∷ b'7' ∷ b':'
      ∷ b'8' ∷ b'0' ∷ []
unfolding insert decimal new_ipv4 host_number get_port byteswap_on_little_endian byteswap le_bytes
    of_le_bytes
printed = refl

-- fe80::1, port 0.
link_local :
    insert6 little
      (new_ipv6 little (254 ∷ 128 ∷ 0 ∷ 0 ∷ 0 ∷ 0 ∷ 0 ∷ 0 ∷ 0 ∷ 0 ∷ 0 ∷ 0 ∷ 0 ∷ 0 ∷ 0 ∷ 1 ∷ []) 0)
    ≡ b'[' ∷ b'f' ∷ b'e' ∷ b'8' ∷ b'0' ∷ b':' ∷ b':' ∷ b'1' ∷ b']' ∷ b'0' ∷ []
unfolding insert6 groups_text insert_loop hex decimal new_ipv6 get_port6 byteswap_on_little_endian
    byteswap le_bytes of_le_bytes
link_local = refl

-- A prefix of all 128 bits reaches for a byte behind the address.
full_prefix : broadcast_address6 128 any_ipv6 ≡ undefined
unfolding broadcast_address6 create_mask
full_prefix = refl

subnet_of_example :
    (b m n : SockaddrIn) × (broadcast_address little 24 (new_ipv4 little number 80) ≡ made b)
    × (host_number little b ≡ number / 2 ^ 8 * 2 ^ 8 + (2 ^ 8 - 1))
    × (subnet_mask little 24 ≡ made m)
    × (host_number little m ≡ 2 ^ 32 - 2 ^ 8)
    × (count_bytes 32 (host_number little m) ≡ some 24)
    × (netword_address little 24 (new_ipv4 little number 80) ≡ made n)
    × (host_number little n ≡ number % 2 ^ 8)
subnet_of_example = subnet_of little 8 24 number 80 refl (omega arith) (omega arith)

subnet_undefined_example :
    (subnet_mask little 0 ≡ undefined)
    × (((0 < 2) × (broadcast_address little 0 (new_ipv4 little number 80) ≡ undefined))
        ⊎ ((32 < 0) × (broadcast_address little 0 (new_ipv4 little number 80) ≡ null)))
subnet_undefined_example = subnet_undefined little 0 (new_ipv4 little number 80) (inl (omega arith))

count_bytes-ones_example : (count_bytes 8 0xf0 ≡ some (ones 8 0xf0)) × (ones 8 0xf0 ≤ 8)
count_bytes-ones_example = count_bytes-ones 8 0xf0 (omega arith)

groups_text_compressed_example :
    (front : List ℕ) × (n : ℕ) × (back : List ℕ) × (0xfe80 ∷ 0 ∷ 0 ∷ 1 ∷ []
      ≡ front ++ replicate n 0 ++ back)
    × All (λ g. g ≢ 0) front
    × StartsNonzero (hex 4) back
    × (((n ≡ 0)
          × (back ≡ [])
          × (groups_text (hex 4) (0xfe80 ∷ 0 ∷ 0 ∷ 1 ∷ []) ≡ joined (hex 4) front))
        ⊎ ((n ≢ 0)
            × (groups_text (hex 4) (0xfe80 ∷ 0 ∷ 0 ∷ 1 ∷ [])
                ≡ joined (hex 4) front ++ b':' ∷ b':' ∷ joined (hex 4) back)))
groups_text_compressed_example = groups_text_compressed (hex 4) (0xfe80 ∷ 0 ∷ 0 ∷ 1 ∷ [])

abbrev local : List ℕ
local = b'h' ∷ b'o' ∷ b's' ∷ b't' ∷ []

abbrev loopback : List ℕ
loopback = b':' ∷ b':' ∷ b'1' ∷ []

split_host_parts_example :
    (split_host local ≡ record { node = local; service = none })
    × (split_host (local ++ b':' ∷ b'8' ∷ b'0' ∷ [])
        ≡ record { node = local; service = some (b'8' ∷ b'0' ∷ []) })
    × (split_host (b'[' ∷ loopback ++ b']' ∷ b':' ∷ b'8' ∷ b'0' ∷ [])
        ≡ record { node = loopback; service = some (b'8' ∷ b'0' ∷ []) })
    × (split_host (local ++ (b':' ∷ b'8' ∷ b'0' ∷ b':' ∷ [])) ≡ record {
      node = local ++ (b':' ∷ b'8' ∷ b'0' ∷ b':' ∷ []);
      service = some (b':' ∷ b'8' ∷ b'0' ∷ b':' ∷ []);
    })
split_host_parts_example =
    split_host_parts b'h' (b'o' ∷ b's' ∷ b't' ∷ []) b':' (b':' ∷ b'1' ∷ []) (b'8' ∷ b'0' ∷ []) []
      (λ e. omega (arith, e))
      (
        (λ e. omega (arith, e)),
        ((λ e. omega (arith, e)), ((λ e. omega (arith, e)), ((λ e. omega (arith, e)), tt))),
      )
      ((λ e. omega (arith, e)), ((λ e. omega (arith, e)), ((λ e. omega (arith, e)), tt)))
      ((λ e. omega (arith, e)), ((λ e. omega (arith, e)), tt))

-- An address is not less than itself, but `operator<` does not say so.
less_than_itself : less local local ≡ none
unfolding less memcmp
less_than_itself = refl

less-lexicographic_example :
    (less local (local ++ b'1' ∷ []) ≡ some (lexicographic local (local ++ b'1' ∷ [])))
    ⊎ ((less local (local ++ b'1' ∷ []) ≡ none)
        × ((rest : List ℕ) × (local ≡ local ++ b'1' ∷ [] ++ rest)))
less-lexicographic_example = less-lexicographic local (local ++ b'1' ∷ [])
