-- ===== src/Events/Waking.antt =====
-- Who is woken by a completion, and who is not by `cancelEvent`.
use sylar_windows.Prelude.{
  ℕ, ◌+◌, ◌<◌, ◌≡◌, ◌⊎◌, inl, inr, refl, sym, ap, ◌∙◌, arith, [], ◌∷◌, ◌++◌, Bool, true, false, not,
  ◌&&◌, ◌==◌, none, some, if◌then◌else◌, if-true, if-false, if-cases,
}
use sylar_windows.Scheduler.State.{
  Task, Scheduler, schedule, schedule_no_lock, tickle, has_work, is_empty,
}
use sylar_windows.Events.State.{
  Event, read_event, write_event, EventContext, FdContext, done, Io, has_event, set_event,
  get_context, waiting_task, wake_context, trigger_event, drop_pending, triggered, cancel_event,
  trigger_and_drop, is_context, complete,
}
use sylar_windows.Events.Keeping.{without}

-- `cancelEvent` of an event that is waited for takes it out of the events and the count, and wakes nobody:
-- the scheduler is as it was, and the context still holds the fiber or the callback.
pub cancel_event_loses :
    (event : Event) (c : FdContext) (io : Io)
    → has_event event c ≡ true
    → (c' : FdContext) × (io' : Io) × (cancel_event event c io ≡ done (c', io'))
      × (has_event event c' ≡ false)
      × (get_context event c' ≡ get_context event c)
      × (io'.scheduler ≡ io.scheduler)
unfolding cancel_event trigger_event
cancel_event_loses read_event c io h =
    (_, _, if-false (not c.reads) _ _ (ap not h), refl, refl, refl)
cancel_event_loses write_event c io h =
    (_, _, if-false (not c.writes) _ _ (ap not h), refl, refl, refl)

same_id : (n : ℕ) → (n == n) ≡ true
same_id n = ground arith

and_true : (a b : Bool) → a ≡ true → b ≡ true → (a && b) ≡ true
and_true true true h k = refl
and_true true false h k = absurd (ground (arith, k))
and_true false b h k = absurd (ground (arith, h))

and_false : (a b : Bool) → b ≡ false → (a && b) ≡ false
and_false true b h = h
and_false false b h = refl

woken :
    (event : Event) (c : FdContext) (io : Io) (x : EventContext)
    → has_event event c ≡ true
    → get_context event c ≡ some x
    → x.has_scheduler ≡ true
    → trigger_and_drop event c io
      ≡ done (
        without event c,
        record (drop_pending io) { scheduler = schedule (waiting_task x.fiber x.cb) io.scheduler },
      )
unfolding trigger_event
woken event c io x h e p = ap (triggered (drop_pending io)) (
    if-false (not (has_event event c)) _ _ (ap not h)
    ∙ ap (λ o. wake_context event (set_event event false c) o io.scheduler) e
    ∙ if-true x.has_scheduler _ _ p)

complete_done :
    (event : Event) (c : FdContext) (io : Io) (x : EventContext)
    → has_event event c ≡ true
    → get_context event c ≡ some x
    → x.has_scheduler ≡ true
    → (event ≡ write_event → is_context x.id c.read ≡ false)
    → complete x.id c io
      ≡ done (
        without event c,
        record (drop_pending io) { scheduler = schedule (waiting_task x.fiber x.cb) io.scheduler },
      )
unfolding complete
complete_done read_event c io x h e p o =
    if-true (c.reads && is_context x.id c.read) _ _
      (and_true c.reads _ h (ap (is_context x.id) e ∙ same_id x.id))
    ∙ woken read_event c io x h e p
complete_done write_event c io x h e p o =
    if-false (c.reads && is_context x.id c.read) _ _ (and_false c.reads _ (o refl))
    ∙ if-true (c.writes && is_context x.id c.write) _ _
        (and_true c.writes _ h (ap (is_context x.id) e ∙ same_id x.id))
    ∙ woken write_event c io x h e p

schedule-fibers :
    (t : Task) (s : Scheduler) → has_work t ≡ true → (schedule t s).fibers ≡ s.fibers ++ t ∷ []
unfolding schedule schedule_no_lock tickle
schedule-fibers t s h =
    if-cases {A = Scheduler} (λ r. r.fibers ≡ s.fibers ++ t ∷ []) (is_empty s.fibers) _ _
      (λ e. added) (λ e. added)
  where
    added :
        (if has_work t then record s { fibers = s.fibers ++ t ∷ [] } else s).fibers
        ≡ s.fibers ++ t ∷ []
    added = ap {A = Scheduler} (λ r. r.fibers) (if-true (has_work t) _ _ h)

-- The task of what waits: its callback, or its fiber where it has none.
abbrev pub Waits : EventContext → Task → Type 0
Waits x t =
    ((k : ℕ) × (x.cb ≡ some k) × (t ≡ record { fiber = none; cb = some k; thread = none }))
    ⊎ ((f : ℕ) × (x.cb ≡ none)
        × (x.fiber ≡ some f)
        × (t ≡ record { fiber = some f; cb = none; thread = none }))

Waits-task :
    (x : EventContext) (t : Task)
    → Waits x t
    → (waiting_task x.fiber x.cb ≡ t) × (has_work t ≡ true)
Waits-task x t (inl (k, e, h)) = (ap (waiting_task x.fiber) e ∙ sym h, ap has_work h)
Waits-task x t (inr (f, e, g, h)) =
    (ap (waiting_task x.fiber) e ∙ ap (λ o. waiting_task o none) g ∙ sym h, ap has_work h)

cleared :
    (event : Event) (c : FdContext)
    → (has_event event (without event c) ≡ false) × (get_context event (without event c) ≡ none)
cleared read_event c = (refl, refl)
cleared write_event c = (refl, refl)

-- The completion of an event that is waited for by a thread of the scheduler, and whose `OVERLAPPED` is not
-- that of the other event, puts what waits at the end of the queue of the scheduler, the callback if
-- there is one and else the fiber, for any thread; it counts one event less, and leaves the descriptor
-- without the event and its context.
pub complete_wakes :
    (event : Event) (c : FdContext) (io : Io) (x : EventContext) (t : Task)
    → has_event event c ≡ true
    → get_context event c ≡ some x
    → x.has_scheduler ≡ true
    → Waits x t
    → 0 < io.pending
    → (event ≡ write_event → is_context x.id c.read ≡ false)
    → (c' : FdContext) × (io' : Io) × (complete x.id c io ≡ done (c', io'))
      × (has_event event c' ≡ false)
      × (get_context event c' ≡ none)
      × (io'.pending + 1 ≡ io.pending)
      × (io'.scheduler.fibers ≡ io.scheduler.fibers ++ t ∷ [])
complete_wakes event c io x t h e p w n o =
    let (q, r) = Waits-task x t w in
    (
      _,
      _,
      complete_done event c io x h e p o,
      (cleared event c).0,
      (cleared event c).1,
      ground arith,
      ap (λ u. (schedule u io.scheduler).fibers) q ∙ schedule-fibers t io.scheduler r,
    )
