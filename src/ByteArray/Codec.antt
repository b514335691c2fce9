-- ===== src/ByteArray/Codec.antt =====
-- Writers and readers of bytearray.cpp in sequence: what a method appends at the end of a store, and
-- what it reads off the front of what is unread.
use sylar_windows.Prelude.{
  ℕ, ◌+◌, ◌<◌, ◌≡◌, arith, List, [], ◌++◌, length, take, drop, ap, sym, ◌∙◌, refl, Bool, true,
  false, ◌⊎◌, inl, inr, length-append, length-drop,
}
use mathlib.Core.List.{append_assoc}
use sylar_windows.Prelude.Slices.{splice_end, take-append_self, drop-append_self, drop-drop}
use sylar_windows.Endia.{same_order}
use sylar_windows.ByteArray.State.{ByteArray, returns, Method, after, ◌>>=◌, ◌>>◌}
use sylar_windows.ByteArray.Store.{write, read}
use sylar_windows.ByteArray.Invariant.{IsValid}
use sylar_windows.ByteArray.View.{Tape, tape_write, view, unread, Shows, length-view}
use sylar_windows.ByteArray.Writes.{write-Shows}
use sylar_windows.ByteArray.Reads.{read-Shows}

-- Whether numbers are stored in the order that `BYTE_ORDER` names.
abbrev pub is_native : ByteArray → Bool
is_native s = same_order s.endian s.byte_order

-- `t` is `s` with `more` behind its last byte, and its position behind those.
pub record Appends (s : ByteArray) (more : List ℕ) (t : ByteArray) : Type 0 where
  pub valid : IsValid t
  pub at_end : t.position ≡ t.size
  pub bytes : (view t).bytes ≡ (view s).bytes ++ more
  pub order : is_native t ≡ is_native s
  pub base : t.base_size ≡ s.base_size

-- At the end of a store, in the byte order `order`, the method appends `bytes` and returns.
abbrev pub Emits : Bool → Method (Unit {0}) → List ℕ → Type 0
Emits order m bytes =
    (s : ByteArray)
    → IsValid s
    → s.position ≡ s.size
    → is_native s ≡ order
    → (t : ByteArray) × (m s ≡ returns tt t) × Appends s bytes t

pub Shows-native : (s t : ByteArray) (f : Tape) → Shows s f t → is_native t ≡ is_native s
Shows-native s t f h = rw (h.endian, h.byte_order)

-- What is written at the end is appended.
pub Shows-Appends :
    (s t : ByteArray) (buf : List ℕ)
    → IsValid s
    → s.position ≡ s.size
    → Shows s (tape_write buf (view s)) t
    → Appends s buf t
Shows-Appends s t buf v e h = record {
  valid = h.valid;
  at_end = omega (
    arith,
    h.position,
    length-view t h.valid,
    length-view s v,
    ap length (h.bytes ∙ splice_end s.position buf (view s).bytes (omega (arith, length-view s v))),
    length-append (view s).bytes buf,
  );
  bytes = h.bytes ∙ splice_end s.position buf (view s).bytes (omega (arith, length-view s v));
  order = Shows-native s t _ h;
  base = h.base_size;
}

pub write-Emits : (order : Bool) (buf : List ℕ) → Emits order (write buf) buf
write-Emits order buf s v e o =
    let (t, r, h) = write-Shows buf s v in (t, r, Shows-Appends s t buf v e h)

pub Appends-trans :
    (s t u : ByteArray) (front back : List ℕ)
    → Appends s front t
    → Appends t back u
    → Appends s (front ++ back) u
Appends-trans s t u front back at au = record {
  valid = au.valid;
  at_end = au.at_end;
  bytes = au.bytes ∙ ap (λ l. l ++ back) at.bytes ∙ append_assoc (view s).bytes front back;
  order = au.order ∙ at.order;
  base = au.base ∙ at.base;
}

pub Emits->> :
    (order : Bool) (m k : Method (Unit {0})) (front back : List ℕ)
    → Emits order m front
    → Emits order k back
    → Emits order (m >> k) (front ++ back)
Emits->> order m k front back hm hk s v e o =
    let (t, rt, at) = hm s v e o in
    let (u, ru, au) = hk t at.valid at.at_end (at.order ∙ o) in
    (u, rw rt ru, Appends-trans s t u front back at au)

-- `t` is `s` with its position moved over `front`, and `rest` is what is unread then.
pub record Consumes (s : ByteArray) (front rest : List ℕ) (t : ByteArray) : Type 0 where
  pub valid : IsValid t
  pub bytes : (view t).bytes ≡ (view s).bytes
  pub position : t.position ≡ s.position + length front
  pub rest_unread : unread (view t) ≡ rest
  pub order : is_native t ≡ is_native s
  pub capacity : t.capacity ≡ s.capacity

-- From a store that has `front` and then `rest` unread the method returns `a` and consumes `front`.
-- A method that is not `solid` may end in a read of no bytes: the store must not be full up to there.
abbrev pub Parses {ℓ} : {A : Type ℓ} → Bool → Bool → Method A → List ℕ → A → Type ℓ
Parses solid order m front a =
    (s : ByteArray) (rest : List ℕ)
    → IsValid s
    → is_native s ≡ order
    → unread (view s) ≡ front ++ rest
    → (solid ≡ true) ⊎ (s.position + length front < s.capacity)
    → (t : ByteArray) × (m s ≡ returns a t) × Consumes s front rest t

pub length-unread :
    (s : ByteArray) (l : List ℕ) → IsValid s → unread (view s) ≡ l → s.position + length l ≡ s.size
length-unread s l v e =
    omega (arith, ap length e, length-drop s.position (view s).bytes, length-view s v)

read_front :
    (front : List ℕ) (s : ByteArray) (rest : List ℕ)
    → IsValid s
    → unread (view s) ≡ front ++ rest
    → s.position < s.capacity
    → (t : ByteArray) × (read (length front) s ≡ returns front t) × Consumes s front rest t
read_front front s rest v e p =
    let total = length-unread s (front ++ rest) v e in
    let (t, r, h, c) = read-Shows (length front) s v (omega (arith, length-append front rest)) p in
    (
      t,
      r
          ∙ ap (λ (b : List ℕ). returns b t)
              (ap (take (length front)) e ∙ take-append_self front rest),
      record {
        valid = h.valid;
        bytes = h.bytes;
        position = h.position;
        rest_unread =
            ap (λ (b : List ℕ). drop t.position b) h.bytes
            ∙ ap (λ (n : ℕ). drop n (view s).bytes) h.position
            ∙ sym (drop-drop (length front) s.position (view s).bytes)
            ∙ ap (drop (length front)) e
            ∙ drop-append_self (length front) front rest refl;
        order = Shows-native s t _ h;
        capacity = c;
      },
    )

pub read-Parses :
    (order : Bool) (front : List ℕ)
    → 0 < length front
    → Parses true order (read (length front)) front front
read-Parses order front h s rest v o e p =
    read_front front s rest v e (
      omega (arith, length-append front rest, length-unread s (front ++ rest) v e, v.size_capacity))

-- Where the store is not full up to there, also a read of no bytes is fine.
pub read-Parses_before :
    (order : Bool) (front : List ℕ) → Parses false order (read (length front)) front front
read-Parses_before order front s rest v o e (inl p) = cc
read-Parses_before order front s rest v o e (inr p) = read_front front s rest v e (omega arith)

pub Parses->>= {ℓ κ} :
    {A : Type ℓ} {B : Type κ} (solid last order : Bool) (m : Method A) (f : A → Method B)
    (front back : List ℕ) (a : A) (b : B)
    → (solid ≡ true) ⊎ (0 < length back)
    → Parses solid order m front a
    → Parses last order (f a) back b
    → Parses last order (m >>= f) (front ++ back) b
Parses->>= solid last order m f front back a b h hm hf s rest v o e p =
    let (t, rt, ct) = hm s (back ++ rest) v o (e ∙ append_assoc front back rest) (enough h) in
    let (u, ru, cu) =
      hf t rest ct.valid (ct.order ∙ o) ct.rest_unread (at_end t ct.position ct.capacity p) in
    (
      u,
      rw rt ru,
      record {
        valid = cu.valid;
        bytes = cu.bytes ∙ ct.bytes;
        position = omega (arith, cu.position, ct.position, length-append front back);
        rest_unread = cu.rest_unread;
        order = cu.order ∙ ct.order;
        capacity = cu.capacity ∙ ct.capacity;
      },
    )
  where
    enough :
        (solid ≡ true) ⊎ (0 < length back)
        → (solid ≡ true) ⊎ (s.position + length front < s.capacity)
    enough (inl q) = inl q
    enough (inr q) = inr (
        omega (
          arith,
          length-append front back,
          length-append (front ++ back) rest,
          length-unread s ((front ++ back) ++ rest) v e,
          v.size_capacity,
        ))

    at_end :
        (t : ByteArray)
        → t.position ≡ s.position + length front
        → t.capacity ≡ s.capacity
        → (last ≡ true) ⊎ (s.position + length (front ++ back) < s.capacity)
        → (last ≡ true) ⊎ (t.position + length back < t.capacity)
    at_end t ep ec (inl q) = inl q
    at_end t ep ec (inr q) = inr (omega (arith, length-append front back))

-- A solid method is fine in any place.
pub Parses-weaken {ℓ} :
    {A : Type ℓ} (last order : Bool) (m : Method A) (front : List ℕ) (a : A)
    → Parses true order m front a
    → Parses last order m front a
Parses-weaken last order m front a h s rest v o e p = h s rest v o e (inl refl)

-- A value that is converted once it is read.
pub Parses-map {ℓ κ} :
    {A : Type ℓ} {B : Type κ} (solid order : Bool) (m : Method A) (g : A → B) (front : List ℕ)
    (a : A)
    → Parses solid order m front a
    → Parses solid order (λ s. after (m s) (λ x. returns (g x))) front (g a)
Parses-map solid order m g front a h s rest v o e p =
    let (t, r, c) = h s rest v o e p in (t, rw r, c)

-- A method that reads nothing.
pub returns-Parses {ℓ} :
    {A : Type ℓ} (order : Bool) (a : A) → Parses true order (λ s. returns a s) [] a
returns-Parses order a s rest v o e p = (
  s,
  refl,
  record {
    valid = v;
    bytes = refl;
    position = omega arith;
    rest_unread = e;
    order = refl;
    capacity = refl;
  },
)
