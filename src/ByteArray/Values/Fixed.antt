-- ===== src/ByteArray/Values/Fixed.antt =====
-- Fixed-length numbers: what `writeFuint16` and its kin append, the matching read gives back.
use sylar_windows.Prelude.{
  ℕ, ◌+◌, ◌^◌, ◌≤◌, ◌<◌, ◌≡◌, arith, List, length, Bool, true, false, ap, subst, ◌∙◌, if◌then◌else◌,
}
use sylar_windows.Prelude.Int.{ℤ, to_word, of_word, InRange, of_word-to_word, to_word-lt}
use sylar_windows.Endia.{le_bytes, of_le_bytes, byteswap}
use sylar_windows.Endia.Laws.{length-le_bytes, of_le_bytes-le_bytes, byteswap-byteswap, byteswap-lt}
use sylar_windows.ByteArray.State.{returns, after}
use sylar_windows.ByteArray.Store.{read}
use sylar_windows.ByteArray.Values.{write_fixed, read_fixed, write_fuint8, read_fuint8}
use sylar_windows.ByteArray.Codec.{Emits, Parses, write-Emits, read-Parses, Parses-map}

-- A number of `w` bytes as it lies in the store.
abbrev pub field : Bool → ℕ → ℕ → List ℕ
field order w v = le_bytes w (if order then v else byteswap w v)

pub length-field : (order : Bool) (w v : ℕ) → length (field order w v) ≡ w
length-field order w v = length-le_bytes w (if order then v else byteswap w v)

pub write_fixed-Emits : (order : Bool) (w v : ℕ) → Emits order (write_fixed w v) (field order w v)
unfolding write_fixed
write_fixed-Emits order w v s i e o = rw o (write-Emits order (field order w v) s i e o)

-- The conversion on the way in undoes the one on the way out.
field_value :
    (order : Bool) (w v : ℕ)
    → v < 256 ^ w
    → (if order then of_le_bytes (field order w v) else byteswap w (of_le_bytes (field order w v)))
      ≡ v
field_value true w v h = of_le_bytes-le_bytes w v h
field_value false w v h =
    ap (byteswap w) (of_le_bytes-le_bytes w (byteswap w v) (byteswap-lt w v))
    ∙ byteswap-byteswap w v h

read-field :
    (order : Bool) (w v : ℕ)
    → 0 < w
    → Parses true order (read w) (field order w v) (field order w v)
read-field order w v h =
    subst (λ n. Parses true order (read n) (field order w v) (field order w v))
      (length-field order w v)
      (read-Parses order (field order w v) (omega (arith, length-field order w v)))

pub read_fixed-Parses :
    (order : Bool) (w v : ℕ)
    → 0 < w
    → v < 256 ^ w
    → Parses true order (read_fixed w) (field order w v) v
unfolding read_fixed
read_fixed-Parses order w v hw hv s rest i o e p =
    let (t, r, c) = read-field order w v hw s rest i o e p in
    (t, rw r (rw (c.order ∙ o) (ap (λ (x : ℕ). returns x t) (field_value order w v hv))), c)

-- One byte has no order.
abbrev pub byte : ℕ → List ℕ
byte v = le_bytes 1 v

pub write_fuint8-Emits : (order : Bool) (v : ℕ) → Emits order (write_fuint8 v) (byte v)
unfolding write_fuint8
write_fuint8-Emits order v = write-Emits order (byte v)

pub read_fuint8-Parses : (order : Bool) (v : ℕ) → v < 256 → Parses true order read_fuint8 (byte v) v
unfolding read_fuint8
read_fuint8-Parses order v h s rest i o e p =
    let (t, r, c) =
      subst (λ n. Parses true order (read n) (byte v) (byte v)) (length-le_bytes 1 v)
        (read-Parses order (byte v) (omega (arith, length-le_bytes 1 v))) s rest i o e p in
    (t, rw r (ap (λ (x : ℕ). returns x t) (of_le_bytes-le_bytes 1 v h)), c)

-- A signed number of `w` bytes, whose type holds `2 * half` values, is read back as it was written.
pub signed-Parses :
    (order : Bool) (w half : ℕ) (z : ℤ)
    → 0 < w
    → half + half ≤ 256 ^ w
    → InRange half z
    → Parses true order
        (λ s. after (read_fixed w s) (λ v. returns (of_word half v)))
        (field order w (to_word half z))
        z
signed-Parses order w half z hw hh hz =
    subst
      (Parses true order (λ s. after (read_fixed w s) (λ v. returns (of_word half v)))
        (field order w (to_word half z)))
      (of_word-to_word half z hz)
      (Parses-map true order (read_fixed w) (of_word half) _ (to_word half z)
        (read_fixed-Parses order w (to_word half z) hw (omega (arith, to_word-lt half z hz))))
