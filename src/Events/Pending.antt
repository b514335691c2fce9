-- ===== src/Events/Pending.antt =====
-- `m_pendingEventCount` counts the events that are waited for, and no call goes through a null pointer.
use sylar_windows.Prelude.{
  ℕ, ◌+◌, ◌≡◌, refl, sym, ap, ◌∙◌, subst, arith, List, [], ◌∷◌, All, Bool, true, false, ◌==◌,
  if-true, if-false, if-cases, Bool-cases, inl, inr,
}
use sylar_windows.Events.State.{
  Event, read_event, write_event, EventContext, FdContext, Result, done, aborts, faults, Io,
  has_event, drop_pending, add_event, and_then, if_waiting, cancel_all, put_front, keep_front,
  at_fd, new_fd_context, Action, adds, deletes, cancels, cancels_all, completes, nothing_there, act,
  act_next, act_all,
}
use sylar_windows.Events.Keeping.{
  bit, flags, IsSound, without, Keeps, dropped, trigger_and_drop-done, IsSound-without,
  add_event-Keeps, del_event-Keeps, cancel_event-Keeps, complete-Keeps,
}

abbrev other : Event → FdContext → Bool
other read_event c = c.writes
other write_event c = c.reads

other-without : (event : Event) (c : FdContext) → other event (without event c) ≡ other event c
other-without read_event c = refl
other-without write_event c = refl

has_event-without : (event : Event) (c : FdContext) → has_event event (without event c) ≡ false
has_event-without read_event c = refl
has_event-without write_event c = refl

-- One half of `cancelAll`.
if_waiting-done :
    (b : ℕ) (c : FdContext) (io : Io) (event : Event)
    → IsSound c
    → io.pending ≡ b + flags c
    → (c' : FdContext) × (io' : Io) × (if_waiting event c io ≡ done (c', io'))
      × IsSound c'
      × (io'.pending ≡ b + flags c')
      × (has_event event c' ≡ false)
      × (other event c' ≡ other event c)
if_waiting-done b c io event sound count = elim (Bool-cases (has_event event c)) [
  | inl e ↦
      let (s, t) = trigger_and_drop-done b c io sound count event e in
      (
        without event c,
        record (drop_pending io) { scheduler = s },
        if-true (has_event event c) _ _ e ∙ t,
        IsSound-without event c sound,
        dropped b c io sound count event e,
        has_event-without event c,
        other-without event c,
      )
  | inr e ↦ (c, io, if-false (has_event event c) _ _ e, sound, count, e, refl)
]

cancel_all-Keeps :
    (b : ℕ) (c : FdContext) (io : Io)
    → IsSound c
    → io.pending ≡ b + flags c
    → Keeps b (cancel_all c io)
unfolding cancel_all
cancel_all-Keeps b c io sound count =
    let (c1, io1, e1, s1, n1, f1, g1) = if_waiting-done b c io read_event sound count in
    let (c2, io2, e2, s2, n2, f2, g2) = if_waiting-done b c1 io1 write_event s1 n1 in
    let last : FdContext → Io → Result (FdContext × Io) =
      λ c io. done (record c { reads = false; writes = false }, io) in
    subst (Keeps b)
      (sym (
        ap (λ r. and_then r (λ c io. and_then (if_waiting write_event c io) last)) e1
        ∙ ap (λ r. and_then r last) e2))
      ((tt, tt), omega (arith, n2, ap bit f2, ap bit (g2 ∙ f1)))

-- All descriptors.
unfoldable pub total : List (ℕ × FdContext) → ℕ
total [] = 0
total (e ∷ es) = flags e.1 + total es

abbrev pub KeepsAll : ℕ → Result (List (ℕ × FdContext) × Io) → Type 0
KeepsAll b (done r) = All (λ e. IsSound e.1) r.0 × (r.1.pending ≡ b + total r.0)
KeepsAll b aborts = Unit
KeepsAll b faults = false ≡ true

put_front-KeepsAll :
    (b fd : ℕ) (es : List (ℕ × FdContext)) (r : Result (FdContext × Io))
    → All (λ e. IsSound e.1) es
    → Keeps (b + total es) r
    → KeepsAll b (put_front fd es r)
unfolding total
put_front-KeepsAll b fd es (done r) s k = ((k.0, s), omega (arith, k.1))
put_front-KeepsAll b fd es aborts s k = tt
put_front-KeepsAll b fd es faults s k = k

keep_front-KeepsAll :
    (b : ℕ) (e : ℕ × FdContext) (r : Result (List (ℕ × FdContext) × Io))
    → IsSound e.1
    → KeepsAll (b + flags e.1) r
    → KeepsAll b (keep_front e r)
unfolding total
keep_front-KeepsAll b e (done r) s k = ((s, k.0), omega (arith, k.1))
keep_front-KeepsAll b e aborts s k = tt
keep_front-KeepsAll b e faults s k = k

module _ (op : FdContext → Io → Result (FdContext × Io))
    (op_keeps : (b : ℕ) (c : FdContext) (io : Io)
      → IsSound c
      → io.pending ≡ b + flags c
      → Keeps b (op c io))
    (missing : Io → Result (List (ℕ × FdContext) × Io))
    (missing_keeps : (b : ℕ) (io : Io) → io.pending ≡ b → KeepsAll b (missing io)) where
  at_fd-KeepsAll :
      (b fd : ℕ) (es : List (ℕ × FdContext)) (io : Io)
      → All (λ e. IsSound e.1) es
      → io.pending ≡ b + total es
      → KeepsAll b (at_fd op missing fd es io)
  unfolding at_fd total
  at_fd-KeepsAll b fd [] io s k = missing_keeps b io (omega (arith, k))
  at_fd-KeepsAll b fd (e ∷ es) io s k =
      if-cases (KeepsAll b) (e.0 == fd) _ _
        (λ h.
          put_front-KeepsAll b fd es (op e.1 io) s.1
            (op_keeps (b + total es) e.1 io s.0 (omega (arith, k))))
        (λ h.
          keep_front-KeepsAll b e (at_fd op missing fd es io) s.0
            (at_fd-KeepsAll (b + flags e.1) fd es io s.1 (omega (arith, k))))

nothing_there-KeepsAll : (b : ℕ) (io : Io) → io.pending ≡ b → KeepsAll b (nothing_there io)
unfolding total
nothing_there-KeepsAll b io h = (tt, omega (arith, h))

new_fd_context-KeepsAll :
    (fd : ℕ) (event : Event) (x : EventContext)
    → x.has_scheduler ≡ true
    → (b : ℕ) (io : Io) → io.pending ≡ b
    → KeepsAll b (put_front fd [] (add_event event x new_fd_context io))
unfolding total
new_fd_context-KeepsAll fd event x p b io h =
    put_front-KeepsAll b fd [] (add_event event x new_fd_context io) tt
      (add_event-Keeps (b + 0) new_fd_context io (tt, tt) (omega (arith, h)) event x p)

-- A call of `addEvent` comes from a thread of the scheduler.
abbrev pub OnScheduler : Action → Type 0
OnScheduler (adds fd event x) = x.has_scheduler ≡ true
OnScheduler (deletes fd event) = Unit
OnScheduler (cancels fd event) = Unit
OnScheduler (cancels_all fd) = Unit
OnScheduler (completes fd overlapped) = Unit

act-KeepsAll :
    (a : Action) (b : ℕ) (es : List (ℕ × FdContext)) (io : Io)
    → OnScheduler a
    → All (λ e. IsSound e.1) es
    → io.pending ≡ b + total es
    → KeepsAll b (act a es io)
unfolding act
act-KeepsAll (adds fd event x) b es io p s k =
    at_fd-KeepsAll _ (λ b c io s k. add_event-Keeps b c io s k event x p) _
      (new_fd_context-KeepsAll fd event x p) b fd es io s k
act-KeepsAll (deletes fd event) b es io p s k =
    at_fd-KeepsAll _ (λ b c io s k. del_event-Keeps b c io s k event) _ nothing_there-KeepsAll b fd
      es io s k
act-KeepsAll (cancels fd event) b es io p s k =
    at_fd-KeepsAll _ (λ b c io s k. cancel_event-Keeps b c io s k event) _ nothing_there-KeepsAll b
      fd es io s k
act-KeepsAll (cancels_all fd) b es io p s k =
    at_fd-KeepsAll _ cancel_all-Keeps _ nothing_there-KeepsAll b fd es io s k
act-KeepsAll (completes fd overlapped) b es io p s k =
    at_fd-KeepsAll _ (λ b c io s k. complete-Keeps b c io s k overlapped) _ nothing_there-KeepsAll b
      fd es io s k

next-KeepsAll :
    (b : ℕ) (f : List (ℕ × FdContext) → Io → Result (List (ℕ × FdContext) × Io))
    (r : Result (List (ℕ × FdContext) × Io))
    → ((es : List (ℕ × FdContext)) (io : Io)
        → All (λ e. IsSound e.1) es
        → io.pending ≡ b + total es
        → KeepsAll b (f es io))
    → KeepsAll b r
    → KeepsAll b (act_next f r)
next-KeepsAll b f (done r) h k = h r.0 r.1 k.0 k.1
next-KeepsAll b f aborts h k = tt
next-KeepsAll b f faults h k = k

-- However calls of delEvent, cancelEvent, cancelAll, completions, and calls of addEvent from the threads of the
-- scheduler follow each other, m_pendingEventCount is the number of the events that are waited for, each
-- of these has its context with a scheduler, and no call goes through a null pointer; the course may end
-- in the assertion of addEvent against an event that is waited for already.
pub act_all-KeepsAll :
    (actions : List Action) (es : List (ℕ × FdContext)) (io : Io)
    → All OnScheduler actions
    → All (λ e. IsSound e.1) es
    → io.pending ≡ total es
    → KeepsAll 0 (act_all actions es io)
unfolding act_all
act_all-KeepsAll [] es io p s k = (s, omega (arith, k))
act_all-KeepsAll (a ∷ actions) es io p s k =
    next-KeepsAll 0 (λ es io. act_all actions es io) (act a es io)
      (λ es io s k. act_all-KeepsAll actions es io p.1 s (omega (arith, k)))
      (act-KeepsAll a 0 es io p.0 s (omega (arith, k)))
