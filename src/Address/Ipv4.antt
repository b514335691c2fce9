-- ===== src/Address/Ipv4.antt =====
-- `IPv4Address`.
use sylar_windows.Prelude.{
  ℕ, ◌+◌, ◌-◌, ◌/◌, ◌%◌, ◌^◌, List, [], ◌∷◌, ◌++◌, bit_and, bit_or, ltb, if◌then◌else◌, zero, suc,
}
use sylar_windows.Endia.{Endian, byteswap_on_little_endian}
use sylar_windows.Address.Masks.{Made, null, map_made, create_mask}

-- `sockaddr_in`: the numbers at its members, as the machine reads them.
pub record SockaddrIn : Type 0 where
  pub family : ℕ
  pub port : ℕ
  pub addr : ℕ

-- `AF_INET`.
abbrev pub af_inet : ℕ
af_inet = 2

module _ (order : Endian) where
  -- `IPv4Address(address, port)`.
  unfoldable pub new_ipv4 : ℕ → ℕ → SockaddrIn
  new_ipv4 address port = record {
    family = af_inet;
    port = byteswap_on_little_endian order 2 port;
    addr = byteswap_on_little_endian order 4 address;
  }

  -- `broadcastAddress`.
  unfoldable pub broadcast_address : ℕ → SockaddrIn → Made SockaddrIn
  broadcast_address prefix_len a =
      if ltb 32 prefix_len
      then null
      else map_made
          (λ mask. record a { addr = bit_or a.addr (byteswap_on_little_endian order 4 mask) })
          (create_mask 4 prefix_len)

  -- `networdAddress`.
  unfoldable pub netword_address : ℕ → SockaddrIn → Made SockaddrIn
  netword_address prefix_len a =
      if ltb 32 prefix_len
      then null
      else map_made
          (λ mask. record a { addr = bit_and a.addr (byteswap_on_little_endian order 4 mask) })
          (create_mask 4 prefix_len)

  -- `subnetMask`; `~` of a number of 32 bits.
  unfoldable pub subnet_mask : ℕ → Made SockaddrIn
  subnet_mask prefix_len =
      map_made
        (λ mask. record {
          family = af_inet;
          port = 0;
          addr = 2 ^ 32 - 1 - byteswap_on_little_endian order 4 mask;
        })
        (create_mask 4 prefix_len)

  unfoldable pub get_port : SockaddrIn → ℕ
  get_port a = byteswap_on_little_endian order 2 a.port

  unfoldable pub set_port : ℕ → SockaddrIn → SockaddrIn
  set_port v a = record a { port = byteswap_on_little_endian order 2 v }

  -- The number that `insert` prints the four parts of.
  unfoldable pub host_number : SockaddrIn → ℕ
  host_number a = byteswap_on_little_endian order 4 a.addr

-- A number below 1000 in decimal digits, and one below 100000.
abbrev pub digit : ℕ → ℕ
digit n = b'0' + n % 10

-- `os << n`, with as many digits as there is fuel for.
unfoldable pub decimal : ℕ → ℕ → List ℕ
decimal zero n = []
decimal (suc fuel) n =
    let high = decimal fuel (n / 10) in if ltb n 10 then digit n ∷ [] else high ++ digit n ∷ []

-- `insert`: a part has at most three digits, and a port five.
unfoldable pub insert : Endian → SockaddrIn → List ℕ
insert order a =
    let addr = host_number order a in
    decimal 3 (addr / 2 ^ 24 % 256)
    ++ b'.' ∷ decimal 3 (addr / 2 ^ 16 % 256)
    ++ b'.' ∷ decimal 3 (addr / 2 ^ 8 % 256)
    ++ b'.' ∷ decimal 3 (addr % 256)
    ++ b':' ∷ decimal 5 (get_port order a)
