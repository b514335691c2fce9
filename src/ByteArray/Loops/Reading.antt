-- ===== src/ByteArray/Loops/Reading.antt =====
-- The loops of `ByteArray::read` and `ByteArray::setPosition`.
use sylar_windows.Prelude.{
  ℕ, zero, suc, ◌+◌, ◌-◌, ◌*◌, ◌≤◌, ◌<◌, ◌≡◌, arith, List, [], ◌∷◌, ◌++◌, length, All,
  length-append, ap, ◌∙◌, refl, Option, some, take, drop, All-append, length-drop,
}
use native.Mathlib.Decide.{dec_le}
use sylar_windows.ByteArray.State.{Node}
use sylar_windows.ByteArray.Store.{Cursor, step_over, seek, read_loop, prepend}
use sylar_windows.ByteArray.Invariant.{IsBlock, flat, Lands, Lands-cast}
use sylar_windows.Prelude.Slices.{take-append_left, drop-append_left, take-append_right, take-all}
use sylar_windows.ByteArray.Loops.Landing.{
  step_over-Lands, step_over-position, length-snoc, flat-snoc,
}

read_loop_fits :
    (base pos : ℕ) (passed : List Node) (n : Node) (ns : List Node) (npos k : ℕ)
    → IsBlock base n
    → npos < base
    → npos + suc k ≤ base
    → read_loop pos passed (n ∷ ns) npos (suc k)
      ≡ some (take (suc k) (drop npos n.mem), step_over (pos + suc k) passed n ns (npos + suc k))
unfolding read_loop
read_loop_fits base pos passed n ns npos k vn hn h = ground arith

read_loop_over :
    (base pos : ℕ) (passed : List Node) (n : Node) (ns : List Node) (npos k : ℕ)
    → IsBlock base n
    → npos < base
    → base < npos + suc k
    → read_loop pos passed (n ∷ ns) npos (suc k)
      ≡ prepend
          (take (base - npos) (drop npos n.mem))
          (read_loop (pos + (base - npos)) (passed ++ n ∷ []) ns 0 (suc k - (base - npos)))
unfolding read_loop
read_loop_over base pos passed n ns npos k vn hn h = ground arith

-- The bytes of a read that begins in `mem` and goes on behind it.
pub take_over :
    (k npos count : ℕ) (mem more : List ℕ)
    → npos + k ≡ length mem
    → k ≤ count
    → take k (drop npos mem) ++ take (count - k) more ≡ take count (drop npos (mem ++ more))
take_over k npos count mem more e h = rw (
  drop-append_left npos mem more (omega arith),
  take-append_right count (count - k) (drop npos mem) more (omega (arith, length-drop npos mem)),
  take-all k (drop npos mem) (omega (arith, length-drop npos mem)),
)

pub take_within :
    (npos count : ℕ) (mem more : List ℕ)
    → npos + count ≤ length mem
    → take count (drop npos mem) ≡ take count (drop npos (mem ++ more))
take_within npos count mem more h = rw (
  drop-append_left npos mem more (omega arith),
  take-append_left count (drop npos mem) more (omega (arith, length-drop npos mem)),
)

-- A read ends without a fault, gives `bytes`, and its cursor lands at `at`.
abbrev pub Reads : ℕ → ℕ → ℕ → ℕ → List ℕ → List ℕ → Option (List ℕ × Cursor) → Type 0
Reads base total at pos m bytes r =
    (c : Cursor) × (r ≡ some (bytes, c)) × (c.position ≡ pos) × Lands base total at m c

-- A round that empties the block, before the rounds that follow.
prepend-Reads :
    (base total total' at at' pos pos' : ℕ) (m m' front bytes bytes' : List ℕ)
    (r r' : Option (List ℕ × Cursor))
    → r' ≡ prepend front r
    → front ++ bytes ≡ bytes'
    → total ≡ total'
    → at ≡ at'
    → pos ≡ pos'
    → m ≡ m'
    → Reads base total at pos m bytes r
    → Reads base total' at' pos' m' bytes' r'
unfolding prepend
prepend-Reads base total total' at at' pos pos' m m' front bytes bytes' r r' er eb et ea ep em
      (c, e, p, l) =
    (
      c,
      er ∙ ap (prepend front) e ∙ ap (λ (b : List ℕ). some (b, c)) eb,
      p ∙ ep,
      Lands-cast base total total' at at' m m' c et ea em l,
    )

-- The loop of `read` ends, without a fault, where the blocks from the current one on hold enough
-- bytes. It copies the bytes from the cursor on, in order, and leaves every block as it was.
pub read_loop-Reads :
    (base pos : ℕ) (passed ahead : List Node) (npos count : ℕ)
    → All (IsBlock base) passed
    → All (IsBlock base) ahead
    → npos < base
    → npos + count ≤ length ahead * base
    → Reads base
        (length passed + length ahead)
        (length passed * base + npos + count)
        (pos + count)
        (flat passed ++ flat ahead)
        (take count (drop npos (flat ahead)))
        (read_loop pos passed ahead npos count)
read_loop-Reads base pos passed ahead npos zero vp va hn h = (
  record { position = pos; passed = passed; ahead = ahead },
  unfold read_loop in refl,
  omega arith,
  record {
    passed_blocks = vp;
    ahead_blocks = va;
    low = omega arith;
    high = omega arith;
    blocks = refl;
    bytes = refl;
  },
)
read_loop-Reads base pos passed [] npos (suc k) vp va hn h = absurd (omega arith)
read_loop-Reads base pos passed (n ∷ ns) npos (suc k) vp va hn h =
    elim (dec_le (npos + suc k) base) [
      | yes fits ↦ (
        _,
        read_loop_fits base pos passed n ns npos k va.0 hn fits
            ∙ ap (λ (l : List ℕ). some (l, step_over (pos + suc k) passed n ns (npos + suc k)))
                (take_within npos (suc k) n.mem (flat ns) (omega arith)),
        step_over-position _ _ _ _ _,
        Lands-cast base _ _ _ _ _ _ _ refl (omega arith) refl (
            step_over-Lands base (pos + suc k) passed n ns (npos + suc k) vp va.0 va.1 (omega arith)
              fits),
      )
      | no more ↦
          prepend-Reads base _ _ _ _ _ _ _ _ _ _ _ _ _
            (read_loop_over base pos passed n ns npos k va.0 hn (omega arith))
            (take_over (base - npos) npos (suc k) n.mem (flat ns) (omega arith) (omega arith))
            (omega (arith, length-append passed (n ∷ [])))
            (omega (arith, length-snoc base passed n)) (omega arith) (flat-snoc passed n (flat ns))
            (read_loop-Reads base (pos + (base - npos)) (passed ++ n ∷ []) ns 0
              (suc k - (base - npos)) (All-append (IsBlock base) passed (n ∷ []) vp (va.0, tt)) va.1
              (omega arith) (omega arith))
    ]

pos_of_mul : (l b v : ℕ) → v ≤ l * b → 0 < v → 0 < l
pos_of_mul zero b v h p = omega arith
pos_of_mul (suc l) b v h p = omega arith

-- One round of the loop of `setPosition`.
seek_here :
    (base : ℕ) (passed : List Node) (n : Node) (ns : List Node) (v : ℕ)
    → IsBlock base n
    → v ≤ base
    → let c = step_over v passed n ns v in seek passed (n ∷ ns) v ≡ some (c.passed, c.ahead)
unfolding seek
seek_here base passed n ns v vn h = ground arith

seek_further :
    (base : ℕ) (passed : List Node) (n : Node) (ns : List Node) (v : ℕ)
    → IsBlock base n
    → base < v
    → seek passed (n ∷ ns) v ≡ seek (passed ++ n ∷ []) ns (v - base)
unfolding seek
seek_further base passed n ns v vn h = ground arith

-- The loop of `setPosition` ends, without a fault, `v` bytes behind where it began.
pub seek-Lands :
    (base pos : ℕ) (passed ahead : List Node) (v : ℕ)
    → All (IsBlock base) passed
    → All (IsBlock base) ahead
    → 0 < base
    → 0 < length ahead
    → v ≤ length ahead * base
    → (passed' ahead' : List Node) × (seek passed ahead v ≡ some (passed', ahead'))
      × Lands base
          (length passed + length ahead)
          (length passed * base + v)
          (flat passed ++ flat ahead)
          (record { position = pos; passed = passed'; ahead = ahead' })
seek-Lands base pos passed [] v vp va hb hl h = absurd (omega arith)
seek-Lands base pos passed (n ∷ ns) v vp va hb hl h = elim (dec_le v base) [
  | yes here ↦ (
    _,
    _,
    seek_here base passed n ns v va.0 here,
    let l = step_over-Lands base v passed n ns v vp va.0 va.1 hb here in
        record {
          passed_blocks = l.passed_blocks;
          ahead_blocks = l.ahead_blocks;
          low = l.low;
          high = l.high;
          blocks = l.blocks;
          bytes = l.bytes;
        },
  )
  | no further ↦
      let (p, a, e, l) =
        seek-Lands base pos (passed ++ n ∷ []) ns (v - base)
          (All-append (IsBlock base) passed (n ∷ []) vp (va.0, tt)) va.1 hb
          (pos_of_mul (length ns) base (v - base) (omega arith) (omega arith)) (omega arith) in
      (
        p,
        a,
        seek_further base passed n ns v va.0 (omega arith) ∙ e,
        Lands-cast base _ _ _ _ _ _ _ (omega (arith, length-append passed (n ∷ [])))
            (omega (arith, length-snoc base passed n)) (flat-snoc passed n (flat ns)) l,
      )
]
