-- ===== src/ByteArray/Buffers/Gathering.antt =====
-- What the read buffers hold.
use sylar_windows.Prelude.{
  ℕ, zero, suc, ◌+◌, ◌-◌, ◌*◌, ◌%◌, ◌≤◌, ◌<◌, ◌≡◌, arith, min, List, [], ◌∷◌, ◌++◌, length, take,
  drop, All, Option, none, some, ◌==◌, ◌^◌, leb, map, if-cases, subst, ap, sym, ◌∙◌, refl,
  length-append, length-drop, length-take, ==_iff, Bool-cases, inl, inr, if-true, if-false,
}
use mathlib.Core.List.{append_assoc, append-nil}
use native.Mathlib.Decide.{dec_le}
use native.Mathlib.Nat.{mod-eq_of_lt}
use sylar_windows.Prelude.Slices.{take-zero-eq, take-all}
use sylar_windows.ByteArray.State.{Node, ByteArray, sub_size}
use sylar_windows.ByteArray.Invariant.{IsBlock, flat, IsValid}
use sylar_windows.ByteArray.Loops.Reading.{take_over, take_within}
use sylar_windows.ByteArray.View.{view, unread, position-mod, length-view}
use sylar_windows.ByteArray.Reads.{ahead-unread}
use sylar_windows.ByteArray.Buffers.{
  Buffer, buffers_loop, and_then, with_size, get_read_buffers, gather, block_at, bounded, narrow,
}

block_at-append :
    (passed : List Node) (n : Node) (ns : List Node)
    → block_at (length passed) (passed ++ n ∷ ns) ≡ n.mem
block_at-append [] n ns = refl
block_at-append (m ∷ passed) n ns = block_at-append passed n ns

-- A round of the loop.
pub buffers_fit :
    (base k : ℕ) (n : Node) (ns : List Node) (npos l : ℕ)
    → IsBlock base n
    → npos < base
    → npos + suc l ≤ base
    → buffers_loop k (n ∷ ns) npos (suc l)
      ≡ some (record { block = k; offset = npos; len = suc l } ∷ [])
unfolding buffers_loop
buffers_fit base k n ns npos l v h e = ground arith

pub buffers_over :
    (base k : ℕ) (n : Node) (ns : List Node) (npos l : ℕ)
    → IsBlock base n
    → npos < base
    → base < npos + suc l
    → buffers_loop k (n ∷ ns) npos (suc l)
      ≡ and_then
          (record { block = k; offset = npos; len = base - npos })
          (buffers_loop (k + 1) ns 0 (suc l - (base - npos)))
unfolding buffers_loop
buffers_over base k n ns npos l v h e = ground arith

abbrev pub Gathers : List Node → List ℕ → Option (List Buffer) → Type 0
Gathers nodes bytes r = (bs : List Buffer) × (r ≡ some bs) × (gather nodes bs ≡ bytes)

pub buffers_loop-Gathers :
    (base : ℕ) (passed ahead : List Node) (npos len : ℕ)
    → All (IsBlock base) ahead
    → npos < base
    → npos + len ≤ length ahead * base
    → Gathers
        (passed ++ ahead)
        (take len (drop npos (flat ahead)))
        (buffers_loop (length passed) ahead npos len)
unfolding gather
buffers_loop-Gathers base passed ahead npos zero v hn h = ([], unfold buffers_loop in refl, refl)
buffers_loop-Gathers base passed [] npos (suc l) v hn h = absurd (omega arith)
buffers_loop-Gathers base passed (n ∷ ns) npos (suc l) v hn h = elim (dec_le (npos + suc l) base) [
  | yes fits ↦ (
    _,
    buffers_fit base (length passed) n ns npos l v.0 hn fits,
    append-nil _
        ∙ ap (λ m. take (suc l) (drop npos m)) (block_at-append passed n ns)
        ∙ take_within npos (suc l) n.mem (flat ns) (omega arith),
  )
  | no more ↦
      let (bs, e, g) =
        buffers_loop-Gathers base (passed ++ n ∷ []) ns 0 (suc l - (base - npos)) v.1 (omega arith)
          (omega arith) in
      (
        _,
        buffers_over base (length passed) n ns npos l v.0 hn (omega arith)
            ∙ ap
                (λ k.
                  and_then (record { block = length passed; offset = npos; len = base - npos })
                    (buffers_loop k ns 0 (suc l - (base - npos))))
                {x = length passed + 1} {y = length (passed ++ n ∷ [])}
                (omega (arith, length-append passed (n ∷ [])))
            ∙ ap (and_then _) e,
        ap (λ m. take (base - npos) (drop npos m) ++ gather (passed ++ n ∷ ns) bs)
              (block_at-append passed n ns)
            ∙ ap (◌++◌ (take (base - npos) (drop npos n.mem)))
                (ap (λ l. gather l bs) (sym (append_assoc passed (n ∷ []) ns)) ∙ g)
            ∙ take_over (base - npos) npos (suc l) n.mem (flat ns) (omega arith) (omega arith),
      )
]

-- No buffer is longer than a block.
abbrev pub IsShort : ℕ → Option (List Buffer) → Type 0
IsShort base none = Unit
IsShort base (some bs) = All (λ b. b.len ≤ base) bs

and_then-IsShort :
    (base : ℕ) (b : Buffer) (r : Option (List Buffer))
    → b.len ≤ base
    → IsShort base r
    → IsShort base (and_then b r)
and_then-IsShort base b none h k = tt
and_then-IsShort base b (some bs) h k = (h, k)

buffers_loop-IsShort :
    (base k : ℕ) (ahead : List Node) (npos len : ℕ)
    → All (IsBlock base) ahead
    → npos ≤ base
    → IsShort base (buffers_loop k ahead npos len)
unfolding buffers_loop
buffers_loop-IsShort base k ahead npos zero v h = tt
buffers_loop-IsShort base k [] npos (suc l) v h = tt
buffers_loop-IsShort base k (n ∷ ns) npos (suc l) v h =
    let short : sub_size n.size npos ≤ base = ground (arith, v.0.0) in
    if-cases (IsShort base) (leb (suc l) (sub_size n.size npos)) _ _
      (λ e. (ground (arith, short), tt))
      (λ e.
        and_then-IsShort base _ _ short
          (buffers_loop-IsShort base (k + 1) ns 0 _ v.1 (omega arith)))

narrow-All :
    (base : ℕ) (bs : List Buffer) → base < 2 ^ 32 → All (λ b. b.len ≤ base) bs → map narrow bs ≡ bs
narrow-All base [] h k = refl
narrow-All base (b ∷ bs) h k =
    ap (λ n. record b { len = n } ∷ map narrow bs) (mod-eq_of_lt (omega (arith, k.0)))
    ∙ ap (◌∷◌ b) (narrow-All base bs h k.1)

-- Buffers in blocks of fewer than 2^32 bytes keep their lengths.
pub with_size-same :
    (base n k : ℕ) (ahead : List Node) (npos len : ℕ) (bs : List Buffer)
    → base < 2 ^ 32
    → All (IsBlock base) ahead
    → npos ≤ base
    → buffers_loop k ahead npos len ≡ some bs
    → with_size n (buffers_loop k ahead npos len) ≡ some (bs, n)
with_size-same base n k ahead npos len bs h v o e =
    ap (with_size n) e
    ∙ ap (λ l. some (l, n))
        (narrow-All base bs h
          (subst (IsShort base) e (buffers_loop-IsShort base k ahead npos len v o)))

take-min : (n m : ℕ) (xs : List ℕ) → m ≡ min n (length xs) → take m xs ≡ take n xs
take-min n m xs h = elim (dec_le n (length xs)) [
  | yes e ↦ ap (λ k. take k xs) {x = m} {y = n} (omega arith)
  | no e ↦ take-all m xs (omega arith) ∙ sym (take-all n xs (omega arith))
]

-- A list of buffers with the number of its bytes: these bytes.
abbrev pub Holds : ByteArray → List ℕ → Option (List Buffer × ℕ) → Type 0
Holds s bytes r =
    (bs : List Buffer) × (r ≡ some (bs, length bytes)) × (gather (s.passed ++ s.ahead) bs ≡ bytes)

bounded-min :
    (len : ℕ) (s : ByteArray) → s.position ≤ s.size → bounded len s ≡ min len (s.size - s.position)
bounded-min len s h = ground arith

read_size : (s : ByteArray) → IsValid s → length (unread (view s)) ≡ s.size - s.position
read_size s v = omega (arith, length-drop s.position (view s).bytes, length-view s v)

-- `getReadBuffers(buffers, len)` on blocks of fewer than 2^32 bytes never faults, and lists memory that holds the next `len` unread bytes
-- in order, or all unread ones where there are fewer; it returns their number.
pub get_read_buffers-Holds :
    (len : ℕ) (s : ByteArray)
    → IsValid s
    → s.base_size < 2 ^ 32
    → Holds s (take len (unread (view s))) (get_read_buffers len s)
unfolding get_read_buffers gather
get_read_buffers-Holds len s v small =
    let size : ℕ = bounded len s in
    let m : size ≡ min len (length (unread (view s))) =
      omega (arith, bounded-min len s v.position_size, read_size s v) in
    let n : length (take len (unread (view s))) ≡ size =
      omega (arith, length-take len (unread (view s)), m) in
    elim (Bool-cases (size == 0)) [
      | inl e ↦ (
        [],
        if-true _ _ _ e ∙ ap (λ k. some ([], k)) (omega (arith, n, (==_iff _ _).0 e)),
        sym (take-zero-eq size (unread (view s)) ((==_iff _ _).0 e))
            ∙ take-min len size (unread (view s)) m,
      )
      | inr e ↦
          let (bs, f, g) =
            buffers_loop-Gathers s.base_size s.passed s.ahead (s.position % s.base_size) size
              v.ahead_blocks (omega (arith, position-mod s v))
              (omega (arith, position-mod s v, m, read_size s v)) in
          (
            bs,
            if-false _ _ _ e
                ∙ with_size-same s.base_size size (length s.passed) s.ahead
                    (s.position % s.base_size) size bs small v.ahead_blocks
                    (omega (arith, position-mod s v)) f
                ∙ ap (λ k. some (bs, k)) (sym n),
            g
                ∙ ahead-unread s size v (omega (arith, m, read_size s v))
                ∙ take-min len size (unread (view s)) m,
          )
    ]
