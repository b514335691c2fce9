-- ===== src/Events/Keeping.antt =====
-- Each operation on the events of a descriptor keeps their number in `m_pendingEventCount`.
use sylar_windows.Prelude.{
  ℕ, suc, ◌+◌, ◌≡◌, refl, sym, ap, ◌∙◌, subst, arith, Bool, true, false, not, ◌&&◌, Option, none,
  some, if-true, if-false, if-cases, Bool-cases, inl, inr,
}
use sylar_windows.ByteArray.State.{sub_size}
use sylar_windows.Scheduler.State.{Scheduler, schedule}
use sylar_windows.Events.State.{
  Event, read_event, write_event, EventContext, FdContext, Result, done, aborts, faults, Io,
  has_event, set_event, get_context, put_context, reset_context, waiting_task, wake_context,
  trigger_event, drop_pending, triggered, add_event, del_event, cancel_event, trigger_and_drop,
  is_context, complete,
}

abbrev pub bit : Bool → ℕ
bit true = 1
bit false = 0

-- How many events a descriptor waits for.
abbrev pub flags : FdContext → ℕ
flags c = bit c.reads + bit c.writes

-- A context with a scheduler is there for each event that is waited for.
abbrev pub IsPresent : Bool → Option EventContext → Type 0
IsPresent false o = Unit
IsPresent true none = false ≡ true
IsPresent true (some x) = x.has_scheduler ≡ true

abbrev pub IsSound : FdContext → Type 0
IsSound c = IsPresent c.reads c.read × IsPresent c.writes c.write

IsPresent-some :
    (b : Bool) (o : Option EventContext)
    → b ≡ true
    → IsPresent b o
    → (x : EventContext) × (o ≡ some x) × (x.has_scheduler ≡ true)
IsPresent-some true none h p = absurd (ground (arith, p))
IsPresent-some true (some x) h p = (x, refl, p)
IsPresent-some false o h p = absurd (ground (arith, h))

IsSound-some :
    (event : Event) (c : FdContext)
    → IsSound c
    → has_event event c ≡ true
    → (x : EventContext) × (get_context event c ≡ some x) × (x.has_scheduler ≡ true)
IsSound-some read_event c s h = IsPresent-some c.reads c.read h s.0
IsSound-some write_event c s h = IsPresent-some c.writes c.write h s.1

-- The descriptor once an event has come.
abbrev pub without : Event → FdContext → FdContext
without event c = reset_context event (set_event event false c)

pub flags-without :
    (event : Event) (c : FdContext)
    → has_event event c ≡ true
    → flags c ≡ suc (flags (without event c))
flags-without read_event c h = ap (λ b. bit b + bit c.writes) h ∙ omega arith
flags-without write_event c h = ap (λ b. bit c.reads + bit b) h ∙ omega arith

pub IsSound-without : (event : Event) (c : FdContext) → IsSound c → IsSound (without event c)
IsSound-without read_event c s = (tt, s.1)
IsSound-without write_event c s = (s.0, tt)

-- An event that is waited for wakes what waits, once.
pub trigger_wakes :
    (event : Event) (c : FdContext) (s : Scheduler)
    → IsSound c
    → has_event event c ≡ true
    → (x : EventContext) × (get_context event c ≡ some x)
      × (trigger_event event c s ≡ done (without event c, schedule (waiting_task x.fiber x.cb) s))
unfolding trigger_event
trigger_wakes event c s h k =
    let (x, e, p) = IsSound-some event c h k in
    (
      x,
      e,
      if-false (not (has_event event c)) _ _ (ap not k)
          ∙ ap (λ o. wake_context event (set_event event false c) o s) e
          ∙ if-true x.has_scheduler _ _ p,
    )

-- What is kept: the contexts, and the count, `b` of it at other descriptors.
abbrev pub Keeps : ℕ → Result (FdContext × Io) → Type 0
Keeps b (done r) = IsSound r.0 × (r.1.pending ≡ b + flags r.0)
Keeps b aborts = Unit
Keeps b faults = false ≡ true

counted_down : (n m : ℕ) → n ≡ suc m → sub_size n 1 ≡ m
counted_down n m h = ground arith

module _ (b : ℕ) (c : FdContext) (io : Io) (sound : IsSound c)
    (count : io.pending ≡ b + flags c) where
  -- One event less.
  pub dropped :
      (event : Event)
      → has_event event c ≡ true
      → sub_size io.pending 1 ≡ b + flags (without event c)
  dropped event h =
      counted_down io.pending (b + flags (without event c))
        (omega (arith, count, flags-without event c h))

  pub trigger_and_drop-done :
      (event : Event)
      → has_event event c ≡ true
      → (s : Scheduler) × (trigger_and_drop event c io
          ≡ done (without event c, record (drop_pending io) { scheduler = s }))
  trigger_and_drop-done event h =
      let (x, e, t) = trigger_wakes event c io.scheduler sound h in
      (_, ap (triggered (drop_pending io)) t)

  pub trigger_and_drop-Keeps :
      (event : Event) → has_event event c ≡ true → Keeps b (trigger_and_drop event c io)
  trigger_and_drop-Keeps event h =
      let (s, e) = trigger_and_drop-done event h in
      subst (Keeps b) (sym e) (IsSound-without event c sound, dropped event h)

  pub add_event-Keeps :
      (event : Event) (x : EventContext) → x.has_scheduler ≡ true → Keeps b (add_event event x c io)
  unfolding add_event
  add_event-Keeps event x p =
      if-cases (Keeps b) (has_event event c) _ _ (λ e. tt) (λ e. added event e)
    where
      added :
          (event : Event)
          → has_event event c ≡ false
          → Keeps b (
              done (
                put_context event (some x) (set_event event true c),
                record io { pending = io.pending + 1 },
              ))
      added read_event e = ((p, sound.1), omega (arith, count, ap bit e))
      added write_event e = ((sound.0, p), omega (arith, count, ap bit e))

  pub del_event-Keeps : (event : Event) → Keeps b (del_event event c io)
  unfolding del_event
  del_event-Keeps event = elim (Bool-cases (has_event event c)) [
    | inl e ↦
        subst (Keeps b) (sym (if-false (not (has_event event c)) _ _ (ap not e)))
          (IsSound-without event c sound, dropped event e)
    | inr e ↦
        subst (Keeps b) (sym (if-true (not (has_event event c)) _ _ (ap not e))) (sound, count)
  ]

  cancelled :
      (event : Event)
      → has_event event c ≡ true
      → Keeps b
          (triggered (drop_pending io) (trigger_event event (set_event event false c) io.scheduler))
  unfolding trigger_event
  cancelled read_event e = ((tt, sound.1), dropped read_event e)
  cancelled write_event e = ((sound.0, tt), dropped write_event e)

  pub cancel_event-Keeps : (event : Event) → Keeps b (cancel_event event c io)
  unfolding cancel_event
  cancel_event-Keeps event = elim (Bool-cases (has_event event c)) [
    | inl e ↦
        subst (Keeps b) (sym (if-false (not (has_event event c)) _ _ (ap not e)))
          (cancelled event e)
    | inr e ↦
        subst (Keeps b) (sym (if-true (not (has_event event c)) _ _ (ap not e))) (sound, count)
  ]

  pub complete-Keeps : (overlapped : ℕ) → Keeps b (complete overlapped c io)
  unfolding complete
  complete-Keeps overlapped =
      if-cases (Keeps b) (c.reads && is_context overlapped c.read) _ _
        (λ e. trigger_and_drop-Keeps read_event (both_true c.reads _ e))
        (λ e.
          if-cases (Keeps b) (c.writes && is_context overlapped c.write) _ _
            (λ k. trigger_and_drop-Keeps write_event (both_true c.writes _ k))
            (λ k. (sound, count)))
    where
      both_true : (a b : Bool) → (a && b) ≡ true → a ≡ true
      both_true true b h = refl
      both_true false b h = absurd (ground (arith, h))
