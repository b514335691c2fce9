-- ===== src/Async/Permits.antt =====
-- The two permits of a stream: who holds them.
use sylar_windows.Prelude.{
  ℕ, ◌+◌, ◌-◌, ◌≤◌, ◌≡◌, ◌⊎◌, arith, List, [], ◌∷◌, Bool, true, false, ◌||◌, Option, none, some,
  le→leb, if-cases, if-true, refl, ◌∙◌, Bool-cases, inl, inr,
}
use sylar_windows.Async.State.{Stream}
use sylar_windows.Async.Contexts.{
  inner_close, fail_all, do_rsp, wake, write_end, drop_timer, mark_timeout,
}
use sylar_windows.Async.Connecting.{
  Connection, stop_timer, retry, give_up, go_on, start_waited, start, read_end,
}

mark_timeout-permits : (i : ℕ) (s : Stream) → (mark_timeout i s).wait_sem ≡ s.wait_sem
mark_timeout-permits i s = elim (Bool-cases (s.objects i).timed) [
  | inl e ↦ rw e refl
  | inr e ↦ rw e refl
]

drop_timer-permits : (i : ℕ) (t : Option ℕ) (s : Stream) → (drop_timer i t s).wait_sem ≡ s.wait_sem
drop_timer-permits i none s = refl
drop_timer-permits i (some t) s = refl

wake-permits : (i : ℕ) (o f : Option ℕ) (s : Stream) → (wake i o f s).wait_sem ≡ s.wait_sem
unfolding wake
wake-permits i none f s = refl
wake-permits i (some scd) none s = refl
wake-permits i (some scd) (some f) s =
    mark_timeout-permits i (drop_timer i (s.objects i).timer s)
    ∙ drop_timer-permits i (s.objects i).timer s

fail_all-permits : (es : List (ℕ × ℕ)) (s : Stream) → (fail_all es s).wait_sem ≡ s.wait_sem
unfolding fail_all do_rsp
fail_all-permits [] s = refl
fail_all-permits (e ∷ es) s = fail_all-permits es _ ∙ wake-permits e.1 _ _ _

inner_close-permits : (s : Stream) → (inner_close s).wait_sem ≡ s.wait_sem
unfolding inner_close
inner_close-permits s = fail_all-permits s.ctxs _

abbrev permits : Connection → ℕ
permits c = c.stream.wait_sem

stop_timer-permits : (c : Connection) → permits (stop_timer c) ≡ permits c
stop_timer-permits c = go c.timer
  where
    go : (o : Option ℕ) → permits (stop_timer (record c { timer = o })) ≡ permits c
    go none = refl
    go (some t) = refl

retry-permits : (t : ℕ) (c : Connection) → permits (retry t c) ≡ permits c
unfolding retry
retry-permits t c =
    if-cases (λ (d : Connection). permits d ≡ permits c) c.auto_connect _ _
      (λ e. stop_timer-permits (record c { try_connect_count = _ })) (λ e. refl)

give_up-permits : (c : Connection) → permits (give_up c) ≡ permits c + 2
unfolding give_up
give_up-permits c = omega (arith, inner_close-permits c.stream)

read_end-permits : (t : ℕ) (c : Connection) → permits (read_end t c) ≡ permits c + 1
unfolding read_end
read_end-permits t c =
    if-cases (λ (d : Connection). permits d ≡ permits c + 1) c.auto_connect _ _
      (λ e. omega (arith, inner_close-permits c.stream))
      (λ e. omega (arith, inner_close-permits c.stream))

-- How a try ends, from the permits `n` that are left after its two waits.
abbrev Ends : ℕ → ℕ → Bool × Connection → Type 0
Ends n u r =
    ((r.0 ≡ false) × (permits r.1 ≡ n + 2))
    ⊎ ((r.0 ≡ true)
        × (permits r.1 ≡ n)
        × (permits (read_end u (record r.1 { stream = write_end r.1.stream })) ≡ n + 2))

start_waited-Ends :
    (t u : ℕ) (reconnects accepts : Bool) (c : Connection)
    → Ends (permits c) u (start_waited t reconnects accepts c)
unfolding start_waited go_on
start_waited-Ends t u reconnects accepts c =
    let d = stop_timer c in
    let up = record d { stream = record d.stream { connected = true } } in
    let s = stop_timer-permits c in
    if-cases (Ends (permits c) u) (d.stream.connected || reconnects) _ _
      (λ e.
        if-cases (Ends (permits c) u) accepts (true, go_on up) _
          (λ e. inr (
            refl,
            s,
            omega (
              arith,
              s,
              read_end-permits u (record (go_on up) { stream = write_end (go_on up).stream }),
            ),
          ))
          (λ e. inl (refl, omega (arith, s, retry-permits t (give_up up), give_up-permits up))))
      (λ e. inl (refl, omega (arith, s, retry-permits t (give_up d), give_up-permits d)))

-- `start` goes through when both permits are there. If it fails it has given both back, so that it can be
-- called again; if it succeeds it keeps both, and the ends of the writer and of the reader give them
-- back.
pub start_permits :
    (t u : ℕ) (reconnects accepts : Bool) (c : Connection)
    → 2 ≤ c.stream.wait_sem
    → (b : Bool) × (d : Connection) × (start t reconnects accepts c ≡ some (b, d))
      × (((b ≡ false) × (d.stream.wait_sem ≡ c.stream.wait_sem))
          ⊎ ((b ≡ true)
              × (d.stream.wait_sem + 2 ≡ c.stream.wait_sem)
              × ((read_end u (record d { stream = write_end d.stream })).stream.wait_sem
                  ≡ c.stream.wait_sem)))
unfolding start
start_permits t u reconnects accepts c h =
    let c' = record c { stream = record c.stream { wait_sem = c.stream.wait_sem - 2 } } in
    let r = start_waited t reconnects accepts c' in
    (
      r.0,
      r.1,
      if-true _ _ _ (le→leb 2 c.stream.wait_sem h),
      elim (start_waited-Ends t u reconnects accepts c') [
        | inl e ↦ inl (e.0, omega (arith, e.1))
        | inr e ↦ inr (e.0, omega (arith, e.1), omega (arith, e.2))
      ],
    )
