-- ===== src/ByteArray/Buffers/Scattering.antt =====
-- Bytes received into the write buffers are where `write` puts them.
use sylar_windows.Prelude.{
  ℕ, zero, suc, ◌+◌, ◌-◌, ◌*◌, ◌≤◌, ◌<◌, ◌≡◌, arith, List, [], ◌∷◌, ◌++◌, length, take, drop, All,
  Option, some, ap, sym, ◌∙◌, refl, length-append, length-drop, if-cases, ◌==◌,
}
use mathlib.Core.List.{append_assoc}
use native.Mathlib.Decide.{dec_le}
use sylar_windows.Prelude.Slices.{splice, splice-nil, take-all, drop-all}
use sylar_windows.ByteArray.State.{Node}
use sylar_windows.ByteArray.Store.{Cursor, write_loop, step_over}
use sylar_windows.ByteArray.Invariant.{IsBlock}
use sylar_windows.ByteArray.Loops.Writing.{write_loop_fits, write_loop_over}
use sylar_windows.ByteArray.Buffers.{Buffer, buffers_loop, and_then, scatter, change_block}
use sylar_windows.ByteArray.Buffers.Gathering.{buffers_fit, buffers_over, buffers_loop-Gathers}

-- No bytes change nothing.
change_block_same :
    (k : ℕ) (f : List ℕ → List ℕ) (ns : List Node)
    → ((m : List ℕ) → f m ≡ m)
    → change_block k f ns ≡ ns
change_block_same k f [] h = refl
change_block_same zero f (n ∷ ns) h = ap (λ m. (record n { mem = m }) ∷ ns) (h n.mem)
change_block_same (suc k) f (n ∷ ns) h = ap (◌∷◌ n) (change_block_same k f ns h)

take_nil : (n : ℕ) → take {A = ℕ} n [] ≡ []
take_nil n = take-all n [] (omega arith)

drop_nil : (n : ℕ) → drop {A = ℕ} n [] ≡ []
drop_nil n = drop-all n [] (omega arith)

scatter-nil : (bs : List Buffer) (nodes : List Node) → scatter [] bs nodes ≡ nodes
unfolding scatter
scatter-nil [] nodes = refl
scatter-nil (b ∷ bs) nodes =
    ap (λ l. scatter l bs (change_block b.block (splice b.offset (take b.len [])) nodes))
      (drop_nil b.len)
    ∙ scatter-nil bs _
    ∙ change_block_same b.block (splice b.offset (take b.len [])) nodes
        (λ m. ap (λ l. splice b.offset l m) (take_nil b.len) ∙ splice-nil b.offset m)

change_block-append :
    (passed : List Node) (n : Node) (ns : List Node) (f : List ℕ → List ℕ)
    → change_block (length passed) f (passed ++ n ∷ ns) ≡ passed ++ record n { mem = f n.mem } ∷ ns
change_block-append [] n ns f = refl
change_block-append (m ∷ passed) n ns f = ap (◌∷◌ m) (change_block-append passed n ns f)

step_over_blocks :
    (pos : ℕ) (passed : List Node) (n : Node) (ns : List Node) (npos : ℕ)
    → (step_over pos passed n ns npos).passed ++ (step_over pos passed n ns npos).ahead
      ≡ passed ++ n ∷ ns
step_over_blocks pos passed n ns npos =
    if-cases (λ (c : Cursor). c.passed ++ c.ahead ≡ passed ++ n ∷ ns) (n.size == npos) _ _
      (λ e. append_assoc passed (n ∷ []) ns) (λ e. refl)

-- One buffer, with all bytes going into it or only its part.
scatter_one :
    (passed : List Node) (n : Node) (ns : List Node) (npos len : ℕ) (bytes : List ℕ)
    (bs : List Buffer)
    → scatter bytes
        (record { block = length passed; offset = npos; len = len } ∷ bs)
        (passed ++ n ∷ ns)
      ≡ scatter
          (drop len bytes)
          bs
          (passed ++ record n { mem = splice npos (take len bytes) n.mem } ∷ ns)
unfolding scatter
scatter_one passed n ns npos len bytes bs =
    ap (scatter (drop len bytes) bs)
      (change_block-append passed n ns (splice npos (take len bytes)))

scatter_within :
    (passed : List Node) (n : Node) (ns : List Node) (npos len : ℕ) (bytes : List ℕ)
    (bs : List Buffer)
    → length bytes ≤ len
    → scatter bytes
        (record { block = length passed; offset = npos; len = len } ∷ bs)
        (passed ++ n ∷ ns)
      ≡ passed ++ record n { mem = splice npos bytes n.mem } ∷ ns
scatter_within passed n ns npos len bytes bs h =
    scatter_one passed n ns npos len bytes bs
    ∙ ap (λ l. scatter l bs (passed ++ record n { mem = splice npos (take len bytes) n.mem } ∷ ns))
        (drop-all len bytes h)
    ∙ scatter-nil bs _
    ∙ ap (λ l. passed ++ record n { mem = splice npos l n.mem } ∷ ns) (take-all len bytes h)

-- The round behind `n`, with any block in its place.
buffers_beyond :
    (base : ℕ) (passed : List Node) (n m : Node) (ns : List Node) (npos l : ℕ)
    → IsBlock base n
    → npos < base
    → base < npos + suc l
    → buffers_loop (length passed) (n ∷ ns) npos (suc l)
      ≡ and_then
          (record { block = length passed; offset = npos; len = base - npos })
          (buffers_loop (length (passed ++ m ∷ [])) ns 0 (suc l - (base - npos)))
buffers_beyond base passed n m ns npos l v hn h =
    buffers_over base (length passed) n ns npos l v hn h
    ∙ ap
        (λ k.
          and_then (record { block = length passed; offset = npos; len = base - npos })
            (buffers_loop k ns 0 (suc l - (base - npos))))
        {x = length passed + 1} {y = length (passed ++ m ∷ [])}
        (omega (arith, length-append passed (m ∷ [])))

-- The buffers, and the blocks behind the bytes in them, which are those of the loop of `write`.
abbrev pub Scatters : List Node → List ℕ → Option (List Buffer) → Option Cursor → Type 0
Scatters nodes bytes r w =
    (bs : List Buffer) × (c : Cursor) × (r ≡ some bs)
    × (w ≡ some c)
    × (scatter bytes bs nodes ≡ c.passed ++ c.ahead)

pub buffers_loop-Scatters :
    (base pos : ℕ) (passed ahead : List Node) (npos len : ℕ) (bytes : List ℕ)
    → All (IsBlock base) ahead
    → npos < base
    → length bytes ≤ len
    → npos + len ≤ length ahead * base
    → Scatters
        (passed ++ ahead)
        bytes
        (buffers_loop (length passed) ahead npos len)
        (write_loop pos passed ahead npos bytes)
buffers_loop-Scatters base pos passed ahead npos len [] v hn hl h =
    let (bs, e, g) = buffers_loop-Gathers base passed ahead npos len v hn h in
    (
      bs,
      record { position = pos; passed = passed; ahead = ahead },
      e,
      unfold write_loop in refl,
      scatter-nil bs (passed ++ ahead),
    )
buffers_loop-Scatters base pos passed ahead npos zero (b ∷ bytes) v hn hl h = absurd (omega arith)
buffers_loop-Scatters base pos passed [] npos (suc l) (b ∷ bytes) v hn hl h = absurd (omega arith)
buffers_loop-Scatters base pos passed (n ∷ ns) npos (suc l) (b ∷ bytes) v hn hl h =
    elim (dec_le (npos + suc l) base) [
      | yes fits ↦ (
        _,
        _,
        buffers_fit base (length passed) n ns npos l v.0 hn fits,
        write_loop_fits base pos passed n ns npos b bytes v.0 hn (omega arith),
        scatter_within passed n ns npos (suc l) (b ∷ bytes) [] hl
            ∙ sym (step_over_blocks _ _ _ _ _),
      )
      | no more ↦ elim (dec_le (npos + length (b ∷ bytes)) base) [
        | yes within ↦
            let (bs, e, g) =
              buffers_loop-Gathers base (passed ++ n ∷ []) ns 0 (suc l - (base - npos)) v.1
                (omega arith) (omega arith) in
            (
              _,
              _,
              buffers_beyond base passed n n ns npos l v.0 hn (omega arith) ∙ ap (and_then _) e,
              write_loop_fits base pos passed n ns npos b bytes v.0 hn within,
              scatter_within passed n ns npos (base - npos) (b ∷ bytes) bs (omega arith)
                  ∙ sym (step_over_blocks _ _ _ _ _),
            )
        | no beyond ↦
            let (bs, c, e, w, g) =
              buffers_loop-Scatters base (pos + (base - npos)) (passed ++ written ∷ []) ns 0
                (suc l - (base - npos)) (drop (base - npos) (b ∷ bytes)) v.1 (omega arith)
                (omega (arith, length-drop (base - npos) (b ∷ bytes))) (omega arith) in
            (
              _,
              c,
              buffers_beyond base passed n written ns npos l v.0 hn (omega arith)
                  ∙ ap (and_then _) e,
              write_loop_over base pos passed n ns npos b bytes v.0 hn (omega arith) ∙ w,
              scatter_one passed n ns npos (base - npos) (b ∷ bytes) bs
                  ∙ ap (scatter (drop (base - npos) (b ∷ bytes)) bs)
                      (sym (append_assoc passed (written ∷ []) ns))
                  ∙ g,
            )
      ]
    ]
  where
    written : Node
    written = record n { mem = splice npos (take (base - npos) (b ∷ bytes)) n.mem }
