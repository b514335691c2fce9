-- ===== src/Rock/RoundTrip.antt =====
-- `toByteArray`, `setPosition(0)` and the decoder, in a row.
use sylar_windows.Prelude.{
  ℕ, ◌+◌, ◌*◌, ◌%◌, ◌≤◌, ◌<◌, ◌≡◌, ◌≢◌, arith, List, [], ◌∷◌, ◌++◌, length, take, drop, true, refl,
  ◌∙◌, ap, sym, some, inl, inr, ◌⊎◌, max,
}
use mathlib.Core.List.{append-nil}
use native.Mathlib.Nat.{zero-add}
use sylar_windows.Endia.{Endian, little, big, same_order}
use sylar_windows.ByteArray.State.{ByteArray, returns, new_byte_array}
use sylar_windows.ByteArray.Store.{set_position}
use sylar_windows.ByteArray.Invariant.{IsValid, memory}
use sylar_windows.ByteArray.View.{view, unread, length-view}
use sylar_windows.ByteArray.Reads.{set_position-Shows}
use sylar_windows.ByteArray.Start.{new_byte_array-IsValid}
use sylar_windows.ByteArray.Values.Fixed.{byte}
use sylar_windows.ByteArray.Values.Strings.{non_empty}
use sylar_windows.ByteArray.Codec.{is_native, Shows-native}
use sylar_windows.Rock.Message.{Message, get_type, to_byte_array, parse_message}
use sylar_windows.Rock.Emitting.{Fits, payload, serialize-Serializes}
use sylar_windows.Rock.Parsing.{stamp, body_of, parse_message-Parses}

-- The bytes of a message in a fresh array.
abbrev pub encoding : Message → List ℕ
encoding msg = byte (get_type msg) ++ payload true msg

same_order_self : (e : Endian) → same_order e e ≡ true
same_order_self little = refl
same_order_self big = refl

pub fresh-is_native :
    (fresh : ℕ → ℕ → ℕ) (e : Endian) (base : ℕ) → is_native (new_byte_array fresh e base) ≡ true
unfolding new_byte_array
fresh-is_native fresh e base = same_order_self e

-- `toByteArray` never returns null, and the array holds the encoding of the message.
pub to_byte_array-encoding :
    (fresh : ℕ → ℕ → ℕ) (e : Endian) (msg : Message)
    → Fits msg
    → (s : ByteArray) × (to_byte_array fresh e msg ≡ returns true s)
      × IsValid s
      × ((view s).bytes ≡ encoding msg)
      × (s.base_size ≡ 4096)
      × (is_native s ≡ true)
unfolding to_byte_array new_byte_array
to_byte_array-encoding fresh e msg h =
    let start : ByteArray = new_byte_array fresh e 4096 in
    let (s, r, a) =
      serialize-Serializes true msg h start (new_byte_array-IsValid fresh e 4096 (omega arith)) refl
        (fresh-is_native fresh e 4096) in
    (s, r, a.valid, a.bytes, a.base, a.order ∙ fresh-is_native fresh e 4096)

pub rewound_bytes : (s : ByteArray) → take (max s.size 0) (memory s) ≡ take s.size (memory s)
rewound_bytes s = ap (λ n. take n (memory s)) {x = max s.size 0} {y = s.size} (omega arith)

capacity_blocks : (p a b c : ℕ) → b ≡ 4096 → c ≡ p * b + a * b → c ≡ (p + a) * 4096
capacity_blocks p a b c e h = h ∙ ap (λ (x : ℕ). p * x + a * x) e ∙ omega arith

not_full : (n c k : ℕ) → n ≤ c → c ≡ k * 4096 → n % 4096 ≢ 0 → n < c
not_full n c k h e m = omega arith

-- The condition under which the array is not full, or is not read from past its end.
abbrev pub HasEnd : Message → Type 0
HasEnd msg = (0 < length (body_of msg)) ⊎ (length (encoding msg) % 4096 ≢ 0)

non_empty_pos : (l : List ℕ) → 0 < length l → non_empty l ≡ true
non_empty_pos [] h = absurd (omega arith)
non_empty_pos (b ∷ bs) h = refl

end_premise :
    (msg : Message) (t : ByteArray)
    → IsValid t
    → t.base_size ≡ 4096
    → t.position ≡ 0
    → t.size ≡ length (encoding msg)
    → HasEnd msg
    → (non_empty (body_of msg) ≡ true) ⊎ (t.position + length (encoding msg) < t.capacity)
end_premise msg t v eb ep es (inl p) = inl (non_empty_pos (body_of msg) p)
end_premise msg t v eb ep es (inr p) =
    let n = length (encoding msg) in
    let blocks : ℕ = length t.passed + length t.ahead in
    inr (
      rw ep (
        rw zero-add (
          not_full n t.capacity blocks (omega (arith, v.size_capacity))
            (capacity_blocks (length t.passed) (length t.ahead) t.base_size t.capacity eb v.cap)
            p)))

-- From any array that holds the encoding of a message, with blocks of 4096 bytes, and is rewound.
pub parse_rewound :
    (now : ℕ) (msg : Message) (s : ByteArray)
    → Fits msg
    → HasEnd msg
    → IsValid s
    → (view s).bytes ≡ encoding msg
    → s.base_size ≡ 4096
    → is_native s ≡ true
    → (t u : ByteArray) × (set_position 0 s ≡ returns tt t)
      × (parse_message now t ≡ returns (some (stamp now msg)) u)
      × (u.position ≡ length (encoding msg))
parse_rewound now msg s h k v b eb o =
    let (t, rt, st) = set_position-Shows 0 s v (omega arith) in
    let bytes : (view t).bytes ≡ encoding msg = st.bytes ∙ rewound_bytes s ∙ b in
    let unread_all : unread (view t) ≡ encoding msg ++ [] =
      ap (λ n. drop n (view t).bytes) st.position ∙ bytes ∙ sym (append-nil (encoding msg)) in
    let premise =
      end_premise msg t st.valid (st.base_size ∙ eb) st.position
        (omega (arith, length-view t st.valid, ap length bytes)) k in
    let (u, ru, cu) =
      parse_message-Parses true now msg h t [] st.valid (Shows-native s t _ st ∙ o) unread_all
        premise in
    (t, u, rt, ru, omega (arith, cu.position, st.position))

-- The decoder makes a message again from its array, and consumes every byte of it.
pub parse_message-to_byte_array :
    (fresh : ℕ → ℕ → ℕ) (e : Endian) (now : ℕ) (msg : Message)
    → Fits msg
    → HasEnd msg
    → (s t u : ByteArray) × (to_byte_array fresh e msg ≡ returns true s)
      × (set_position 0 s ≡ returns tt t)
      × (parse_message now t ≡ returns (some (stamp now msg)) u)
      × (u.position ≡ length (encoding msg))
parse_message-to_byte_array fresh e now msg h k =
    let (s, r, v, b, eb, o) = to_byte_array-encoding fresh e msg h in
    let (t, u, rt, ru, p) = parse_rewound now msg s h k v b eb o in (s, t, u, r, rt, ru, p)
