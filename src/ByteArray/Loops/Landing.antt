-- ===== src/ByteArray/Loops/Landing.antt =====
-- Where the cursor of bytearray.cpp comes to stand when it leaves a block.
use sylar_windows.Prelude.{
  ℕ, suc, ◌+◌, ◌*◌, ◌≤◌, ◌<◌, ◌≡◌, arith, List, [], ◌∷◌, ◌++◌, length, All, length-append, ◌∙◌,
  refl, All-append, ◌==◌, false, Bool-cases, ==_iff, ◌≢◌, inl, inr,
}
use sylar_windows.Prelude.Slices.{splice, length-splice}
use mathlib.Core.List.{append_assoc, append-nil}
use sylar_windows.ByteArray.State.{Node}
use sylar_windows.ByteArray.Store.{step_over}
use sylar_windows.ByteArray.Invariant.{IsBlock, flat, Lands, flat-append}

-- What the code writes into a block leaves it a block.
pub splice-IsBlock :
    (base npos : ℕ) (bytes : List ℕ) (n : Node)
    → IsBlock base n
    → npos + length bytes ≤ base
    → IsBlock base (record n { mem = splice npos bytes n.mem })
splice-IsBlock base npos bytes n v h = (v.0, length-splice npos bytes n.mem (omega arith) ∙ v.1)

pub length-snoc :
    (base : ℕ) (passed : List Node) (n : Node)
    → length (passed ++ n ∷ []) * base ≡ length passed * base + base
length-snoc base passed n = rw length-append (omega arith)

pub flat-snoc :
    (passed : List Node) (n : Node) (bytes : List ℕ)
    → flat (passed ++ n ∷ []) ++ bytes ≡ flat passed ++ (n.mem ++ bytes)
flat-snoc passed n bytes = simp (flat-append, append_assoc, append-nil)

test_false : (a b : ℕ) → (a == b) ≡ false → a ≢ b
test_false a b h = ground arith

-- A cursor inside or right behind its block, with its block counted as passed in the latter case.
pub step_over-Lands :
    (base pos : ℕ) (passed : List Node) (n : Node) (ns : List Node) (npos : ℕ)
    → All (IsBlock base) passed
    → IsBlock base n
    → All (IsBlock base) ns
    → 0 < base
    → npos ≤ base
    → Lands base
        (length passed + suc (length ns))
        (length passed * base + npos)
        (flat passed ++ (n.mem ++ flat ns))
        (step_over pos passed n ns npos)
step_over-Lands base pos passed n ns npos vp vn vs hb h = elim (Bool-cases (n.size == npos)) [
  | inl e ↦ rw e (record {
    passed_blocks = All-append (IsBlock base) passed (n ∷ []) vp (vn, tt);
    ahead_blocks = vs;
    low = omega (arith, length-snoc base passed n, (==_iff _ _).0 e);
    high = omega (arith, length-snoc base passed n);
    blocks = omega (arith, length-append passed (n ∷ []));
    bytes = flat-snoc passed n (flat ns);
  })
  | inr e ↦ rw e (record {
    passed_blocks = vp;
    ahead_blocks = (vn, vs);
    low = omega arith;
    high = omega (arith, test_false _ _ e);
    blocks = refl;
    bytes = refl;
  })
]

pub step_over-position :
    (pos : ℕ) (passed : List Node) (n : Node) (ns : List Node) (npos : ℕ)
    → (step_over pos passed n ns npos).position ≡ pos
step_over-position pos passed n ns npos = ground arith
