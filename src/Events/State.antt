-- ===== src/Events/State.antt =====
-- `FdContext`, and the operations of `IOManager` on events.
use sylar_windows.Prelude.{
  ℕ, ◌+◌, List, [], ◌∷◌, Bool, true, false, not, ◌&&◌, Option, none, some, ◌==◌, if◌then◌else◌,
}
use sylar_windows.ByteArray.State.{sub_size}
use sylar_windows.Scheduler.State.{Task, Scheduler, schedule}

-- `READ` and `WRITE`.
pub data Event : Type 0 where
  read_event write_event : Event

-- `EventContext`: what waits, a fiber or a callback. `id` stands for the address of its `OVERLAPPED`.
-- `has_scheduler` says whether its scheduler, that of the thread which has waited, is the manager; else it
-- is null, on a thread of no scheduler.
pub record EventContext : Type 0 where
  pub id : ℕ
  pub has_scheduler : Bool
  pub fiber : Option ℕ
  pub cb : Option ℕ

-- `FdContext`: the two bits of `events`, and the two contexts.
pub record FdContext : Type 0 where
  pub reads : Bool
  pub writes : Bool
  pub read : Option EventContext
  pub write : Option EventContext

-- A call that goes on, that fails an assertion, or that goes through a null pointer.
pub data Result {ℓ} (A : Type ℓ) : Type ℓ where
  done : A → Result A
  aborts : Result A
  faults : Result A

-- `m_pendingEventCount`, and the scheduler that the manager is.
pub record Io : Type 0 where
  pub pending : ℕ
  pub scheduler : Scheduler

abbrev pub has_event : Event → FdContext → Bool
has_event read_event c = c.reads
has_event write_event c = c.writes

abbrev pub set_event : Event → Bool → FdContext → FdContext
set_event read_event b c = record c { reads = b }
set_event write_event b c = record c { writes = b }

-- `getContext`, `resetContext`, and the assignment in `addEvent`.
abbrev pub get_context : Event → FdContext → Option EventContext
get_context read_event c = c.read
get_context write_event c = c.write

abbrev pub put_context : Event → Option EventContext → FdContext → FdContext
put_context read_event x c = record c { read = x }
put_context write_event x c = record c { write = x }

abbrev pub reset_context : Event → FdContext → FdContext
reset_context event c = put_context event none c

-- The callback of a context where there is one, else its fiber.
abbrev pub waiting_task : Option ℕ → Option ℕ → Task
waiting_task fiber none = record { fiber = fiber; cb = none; thread = none }
waiting_task fiber (some k) = record { fiber = none; cb = some k; thread = none }

abbrev pub wake_context :
    Event → FdContext → Option EventContext → Scheduler → Result (FdContext × Scheduler)
wake_context event c none s = faults
wake_context event c (some x) s =
    if x.has_scheduler
    then done (reset_context event c, schedule (waiting_task x.fiber x.cb) s)
    else faults

-- `triggerEvent`.
unfoldable pub trigger_event : Event → FdContext → Scheduler → Result (FdContext × Scheduler)
trigger_event event c s =
    if not (has_event event c)
    then done (c, s)
    else wake_context event (set_event event false c) (get_context event c) s

abbrev pub drop_pending : Io → Io
drop_pending io = record io { pending = sub_size io.pending 1 }

-- Behind `triggerEvent`, with the count that the caller has.
abbrev pub triggered : Io → Result (FdContext × Scheduler) → Result (FdContext × Io)
triggered io (done r) = done (r.0, record io { scheduler = r.1 })
triggered io aborts = aborts
triggered io faults = faults

-- The part of `addEvent` on an `FdContext`. `x` is the context with the callback or the current fiber in it;
-- the assertions that it came empty, and that the fiber is in `EXEC`, are left to the caller. The numbers and
-- answers that this and the next calls return only say whether the event was there.
unfoldable pub add_event : Event → EventContext → FdContext → Io → Result (FdContext × Io)
add_event event x c io =
    if has_event event c
    then aborts
    else done (
      put_context event (some x) (set_event event true c),
      record io { pending = io.pending + 1 },
    )

unfoldable pub del_event : Event → FdContext → Io → Result (FdContext × Io)
del_event event c io =
    if not (has_event event c)
    then done (c, io)
    else done (reset_context event (set_event event false c), drop_pending io)

-- `cancelEvent`: the event is taken out of `events` before `triggerEvent` looks for it there.
unfoldable pub cancel_event : Event → FdContext → Io → Result (FdContext × Io)
cancel_event event c io =
    if not (has_event event c)
    then done (c, io)
    else triggered (drop_pending io) (trigger_event event (set_event event false c) io.scheduler)

-- `triggerEvent` and the decrement, as `cancelAll` and `idle` have them.
abbrev pub trigger_and_drop : Event → FdContext → Io → Result (FdContext × Io)
trigger_and_drop event c io = triggered (drop_pending io) (trigger_event event c io.scheduler)

abbrev pub and_then :
    Result (FdContext × Io) → (FdContext → Io → Result (FdContext × Io)) → Result (FdContext × Io)
and_then (done r) f = f r.0 r.1
and_then aborts f = aborts
and_then faults f = faults

abbrev pub if_waiting : Event → FdContext → Io → Result (FdContext × Io)
if_waiting event c io = if has_event event c then trigger_and_drop event c io else done (c, io)

unfoldable pub cancel_all : FdContext → Io → Result (FdContext × Io)
cancel_all c io = and_then (if_waiting read_event c io) (λ c io.
    and_then (if_waiting write_event c io)
      (λ c io. done (record c { reads = false; writes = false }, io)))

abbrev pub is_context : ℕ → Option EventContext → Bool
is_context overlapped none = false
is_context overlapped (some x) = x.id == overlapped

-- A completion that `idle` has taken from the port.
unfoldable pub complete : ℕ → FdContext → Io → Result (FdContext × Io)
complete overlapped c io =
    if c.reads && is_context overlapped c.read
    then trigger_and_drop read_event c io
    else if c.writes && is_context overlapped c.write
    then trigger_and_drop write_event c io
    else done (c, io)

-- The contexts of the descriptors, `m_fdContexts`, and the operations at one of them.
abbrev pub put_front :
    ℕ → List (ℕ × FdContext) → Result (FdContext × Io) → Result (List (ℕ × FdContext) × Io)
put_front fd rest (done r) = done ((fd, r.0) ∷ rest, r.1)
put_front fd rest aborts = aborts
put_front fd rest faults = faults

abbrev pub keep_front :
    ℕ × FdContext → Result (List (ℕ × FdContext) × Io) → Result (List (ℕ × FdContext) × Io)
keep_front e (done r) = done (e ∷ r.0, r.1)
keep_front e aborts = aborts
keep_front e faults = faults

-- An operation at a descriptor; where there is none, `missing` says what becomes of the end of the list.
unfoldable pub at_fd :
    (FdContext → Io → Result (FdContext × Io))
    → (Io → Result (List (ℕ × FdContext) × Io))
    → ℕ
    → List (ℕ × FdContext)
    → Io
    → Result (List (ℕ × FdContext) × Io)
at_fd op missing fd [] io = missing io
at_fd op missing fd (e ∷ es) io =
    let rest = at_fd op missing fd es io in
    if e.0 == fd then put_front fd es (op e.1 io) else keep_front e rest

abbrev pub new_fd_context : FdContext
new_fd_context = record { reads = false; writes = false; read = none; write = none }

pub data Action : Type 0 where
  adds : ℕ → Event → EventContext → Action
  deletes cancels : ℕ → Event → Action
  cancels_all : ℕ → Action
  completes : ℕ → ℕ → Action

abbrev pub nothing_there : Io → Result (List (ℕ × FdContext) × Io)
nothing_there io = done ([], io)

unfoldable pub act : Action → List (ℕ × FdContext) → Io → Result (List (ℕ × FdContext) × Io)
act (adds fd event x) es io =
    at_fd (add_event event x) (λ io. put_front fd [] (add_event event x new_fd_context io)) fd es io
act (deletes fd event) es io = at_fd (del_event event) nothing_there fd es io
act (cancels fd event) es io = at_fd (cancel_event event) nothing_there fd es io
act (cancels_all fd) es io = at_fd cancel_all nothing_there fd es io
act (completes fd overlapped) es io = at_fd (complete overlapped) nothing_there fd es io

abbrev pub act_next :
    (List (ℕ × FdContext) → Io → Result (List (ℕ × FdContext) × Io))
    → Result (List (ℕ × FdContext) × Io)
    → Result (List (ℕ × FdContext) × Io)
act_next f (done r) = f r.0 r.1
act_next f aborts = aborts
act_next f faults = faults

unfoldable pub act_all :
    List Action → List (ℕ × FdContext) → Io → Result (List (ℕ × FdContext) × Io)
act_all [] es io = done (es, io)
act_all (a ∷ as') es io = act_next (λ es io. act_all as' es io) (act a es io)
