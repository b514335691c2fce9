-- ===== src/ByteArray/Loops/Writing.antt =====
-- The loop of `ByteArray::write`.
use sylar_windows.Prelude.{
  ℕ, ◌+◌, ◌-◌, ◌*◌, ◌≤◌, ◌<◌, ◌≡◌, arith, List, [], ◌∷◌, ◌++◌, length, All, length-append, ap, sym,
  ◌∙◌, refl, some, take, drop, All-append, length-take, length-drop,
}
use sylar_windows.Prelude.Slices.{splice, splice-nil, splice-append_left, splice-append_over}
use native.Mathlib.Decide.{dec_le}
use sylar_windows.ByteArray.State.{Node}
use sylar_windows.ByteArray.Store.{write_loop, step_over}
use sylar_windows.ByteArray.Invariant.{IsBlock, flat, Reaches, Reaches-cast}
use sylar_windows.ByteArray.Loops.Landing.{
  step_over-Lands, step_over-position, length-snoc, flat-snoc, splice-IsBlock,
}

-- One round of the loop of `write`, where the block has room for the rest and where it has not.
pub write_loop_fits :
    (base pos : ℕ) (passed : List Node) (n : Node) (ns : List Node) (npos b : ℕ) (bs : List ℕ)
    → IsBlock base n
    → npos < base
    → npos + length (b ∷ bs) ≤ base
    → write_loop pos passed (n ∷ ns) npos (b ∷ bs)
      ≡ some (
          step_over
            (pos + length (b ∷ bs))
            passed
            (record n { mem = splice npos (b ∷ bs) n.mem })
            ns
            (npos + length (b ∷ bs)))
unfolding write_loop
write_loop_fits base pos passed n ns npos b bs vn hn h = ground arith

pub write_loop_over :
    (base pos : ℕ) (passed : List Node) (n : Node) (ns : List Node) (npos b : ℕ) (bs : List ℕ)
    → IsBlock base n
    → npos < base
    → base < npos + length (b ∷ bs)
    → write_loop pos passed (n ∷ ns) npos (b ∷ bs)
      ≡ write_loop
          (pos + (base - npos))
          (passed ++ record n { mem = splice npos (take (base - npos) (b ∷ bs)) n.mem } ∷ [])
          ns
          0
          (drop (base - npos) (b ∷ bs))
unfolding write_loop
write_loop_over base pos passed n ns npos b bs vn hn h =
    ground (arith, length-take (base - npos) (b ∷ bs))

write_loop_rest :
    (base : ℕ) (passed : List Node) (n : Node) (ns : List Node) (npos : ℕ) (buf : List ℕ)
    → IsBlock base n
    → npos < base
    → base < npos + length buf
    → let k = base - npos in
      flat (passed ++ record n { mem = splice npos (take k buf) n.mem } ∷ [])
        ++ splice 0 (drop k buf) (flat ns)
      ≡ flat passed ++ splice npos buf (n.mem ++ flat ns)
write_loop_rest base passed n ns npos buf vn hn h =
    flat-snoc passed _ (splice 0 (drop (base - npos) buf) (flat ns))
    ∙ ap (◌++◌ (flat passed)) (
        sym (splice-append_over npos (base - npos) buf n.mem (flat ns) (omega arith) (omega arith)))

-- The loop of `write` ends, without a fault, where the blocks from the current one on have room.
-- It overwrites the bytes from the cursor on with those of the buffer, and no others.
pub write_loop-Reaches :
    (base pos : ℕ) (passed ahead : List Node) (npos : ℕ) (buf : List ℕ)
    → All (IsBlock base) passed
    → All (IsBlock base) ahead
    → npos < base
    → npos + length buf ≤ length ahead * base
    → Reaches base
        (length passed + length ahead)
        (length passed * base + npos + length buf)
        (pos + length buf)
        (flat passed ++ splice npos buf (flat ahead))
        (write_loop pos passed ahead npos buf)
write_loop-Reaches base pos passed ahead npos [] vp va hn h = (
  record { position = pos; passed = passed; ahead = ahead },
  unfold write_loop in refl,
  omega arith,
  record {
    passed_blocks = vp;
    ahead_blocks = va;
    low = omega arith;
    high = omega arith;
    blocks = refl;
    bytes = ap (◌++◌ (flat passed)) (sym (splice-nil npos (flat ahead)));
  },
)
write_loop-Reaches base pos passed [] npos (b ∷ bs) vp va hn h = absurd (omega arith)
write_loop-Reaches base pos passed (n ∷ ns) npos (b ∷ bs) vp va hn h =
    elim (dec_le (npos + length (b ∷ bs)) base) [
      | yes fits ↦
          Reaches-cast base _ _ _ _ _ _ _ _ _ _
            (write_loop_fits base pos passed n ns npos b bs va.0 hn fits) refl (omega arith) refl
            (ap (◌++◌ (flat passed))
              (sym (splice-append_left npos (b ∷ bs) n.mem (flat ns) (omega arith))))
            (
              _,
              refl,
              step_over-position _ _ _ _ _,
              step_over-Lands base (pos + length (b ∷ bs)) passed
                  (record n { mem = splice npos (b ∷ bs) n.mem }) ns (npos + length (b ∷ bs)) vp
                  (splice-IsBlock base npos (b ∷ bs) n va.0 fits) va.1 (omega arith) fits,
            )
      | no more ↦
          Reaches-cast base _ _ _ _ _ _ _ _ _ _
            (write_loop_over base pos passed n ns npos b bs va.0 hn (omega arith))
            (omega (arith, length-append passed (written ∷ [])))
            (omega (arith, length-snoc base passed written, length-drop k (b ∷ bs)))
            (omega (arith, length-drop k (b ∷ bs)))
            (write_loop_rest base passed n ns npos (b ∷ bs) va.0 hn (omega arith))
            (write_loop-Reaches base (pos + k) (passed ++ written ∷ []) ns 0 (drop k (b ∷ bs))
              (All-append (IsBlock base) passed (written ∷ []) vp (written-IsBlock, tt)) va.1
              (omega arith) (omega (arith, length-drop k (b ∷ bs))))
    ]
  where
    k : ℕ
    k = base - npos

    written : Node
    written = record n { mem = splice npos (take k (b ∷ bs)) n.mem }

    written-IsBlock : IsBlock base written
    written-IsBlock =
        splice-IsBlock base npos (take k (b ∷ bs)) n va.0 (omega (arith, length-take k (b ∷ bs)))
