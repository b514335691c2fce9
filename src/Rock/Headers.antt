-- ===== src/Rock/Headers.antt =====
-- The header of a frame: its 8 bytes, and the header that they are read as.
use sylar_windows.Prelude.{
  ℕ, ◌^◌, ◌<◌, ◌≡◌, arith, List, ◌∷◌, ◌++◌, length, take, drop, ap, sym, ◌∙◌, refl, length-append,
}
use sylar_windows.Prelude.Slices.{take-append_self, drop-append_self}
use sylar_windows.Endia.{Endian, little, big, le_bytes, byteswap_on_little_endian}
use sylar_windows.Endia.Laws.{length-le_bytes, of_le_bytes-le_bytes, byteswap-byteswap, byteswap-lt}
use sylar_windows.ByteArray.State.{new_byte_array}
use sylar_windows.Rock.Message.{Message}
use sylar_windows.Rock.RoundTrip.{encoding}
use sylar_windows.Rock.Frame.{Header, header_bytes, header_of, new_header, rock_magic}

-- The frame of a message: the header with the length, in the byte order of the net, and the encoding.
abbrev pub frame_header : Endian → Message → List ℕ
frame_header order msg =
    header_bytes (new_header 0 (byteswap_on_little_endian order 4 (length (encoding msg))))

abbrev pub frame : Endian → Message → List ℕ
frame order msg = frame_header order msg ++ encoding msg

pub swap_back :
    (order : Endian) (n : ℕ)
    → n < 2 ^ 32
    → byteswap_on_little_endian order 4 (byteswap_on_little_endian order 4 n) ≡ n
unfolding byteswap_on_little_endian
swap_back little n h = byteswap-byteswap 4 n (omega arith)
swap_back big n h = refl

pub swap-lt : (order : Endian) (n : ℕ) → n < 2 ^ 32 → byteswap_on_little_endian order 4 n < 256 ^ 4
unfolding byteswap_on_little_endian
swap-lt little n h = byteswap-lt 4 n
swap-lt big n h = omega arith

pub header_of-header_bytes :
    (flag n : ℕ) → n < 256 ^ 4 → header_of (header_bytes (new_header flag n)) ≡ new_header flag n
unfolding header_of header_bytes
header_of-header_bytes flag n h =
    ap (λ k. record { magic = rock_magic; version = 1; flag = flag; len = k })
      (of_le_bytes-le_bytes 4 n h)

pub length-header : (h : Header) → length h.magic ≡ 2 → length (header_bytes h) ≡ 8
unfolding header_bytes
length-header h e =
    omega (
      arith,
      length-append h.magic (h.version ∷ h.flag ∷ le_bytes 4 h.len),
      length-le_bytes 4 h.len,
    )

pub fresh_ends :
    (fresh : ℕ → ℕ → ℕ) (order : Endian)
    → (new_byte_array fresh order 4096).position ≡ (new_byte_array fresh order 4096).size
unfolding new_byte_array
fresh_ends fresh order = refl

pub fresh-small :
    (fresh : ℕ → ℕ → ℕ) (order : Endian) → (new_byte_array fresh order 4096).base_size < 2 ^ 32
unfolding new_byte_array
fresh-small fresh order = omega arith

-- Two ways to cut the same bytes, at the same length.
pub same_cut :
    (xs ys as' bs : List ℕ) → xs ++ as' ≡ ys ++ bs → length xs ≡ length ys → (xs ≡ ys) × (as' ≡ bs)
same_cut xs ys as' bs e h = (
  sym (take-append_self xs as')
      ∙ ap (λ n. take n (xs ++ as')) h
      ∙ ap (take (length ys)) e
      ∙ take-append_self ys bs,
  sym (drop-append_self (length ys) xs as' (sym h))
      ∙ ap (drop (length ys)) e
      ∙ drop-append_self (length ys) ys bs refl,
)
