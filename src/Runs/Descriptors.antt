-- ===== src/Runs/Descriptors.antt =====
-- Runs of the events of descriptors.
use sylar_windows.Prelude.{arith, ◌+◌, inl, ◌≡◌, refl, List, [], ◌∷◌, true, false, none, some}
use sylar_windows.Scheduler.State.{Scheduler, schedule, schedule_no_lock, tickle, init}
use sylar_windows.Events.State.{
  read_event, write_event, EventContext, FdContext, done, Io, has_event, get_context, waiting_task,
  trigger_event, add_event, del_event, cancel_event, complete, at_fd, new_fd_context, Action, adds,
  deletes, cancels, completes, act, act_all,
}
use sylar_windows.Events.Pending.{KeepsAll, total, act_all-KeepsAll}
use sylar_windows.Events.Waking.{cancel_event_loses, complete_wakes}

abbrev idle_scheduler : Scheduler
idle_scheduler = record {
  fibers = [];
  active_count = 0;
  idle_count = 1;
  is_stopping = false;
  auto_stop = false;
  objects = λ f. record { state = init; cb = none };
  next = 0;
  tickles = 0;
}

abbrev idle_io : Io
idle_io = record { pending = 0; scheduler = idle_scheduler }

-- The fiber 4 waits with the `OVERLAPPED` 100, the callback 5 with 101.
abbrev fiber4 : EventContext
fiber4 = record { id = 100; has_scheduler = true; fiber = some 4; cb = none }

abbrev call5 : EventContext
call5 = record { id = 101; has_scheduler = true; fiber = none; cb = some 5 }

-- Both wait at the descriptor 9; the write completes, and at 8 a read comes and goes.
abbrev waits : List Action
waits =
    adds 9 read_event fiber4
    ∷ adds 9 write_event call5
    ∷ adds 8 read_event fiber4
    ∷ completes 9 101
    ∷ deletes 8 read_event
    ∷ cancels 7 read_event
    ∷ []

abbrev reading : FdContext
reading = record { reads = true; writes = false; read = some fiber4; write = none }

act_all-waits :
    act_all waits [] idle_io
    ≡ done (
      (9, reading) ∷ (8, new_fd_context) ∷ [],
      record { pending = 1; scheduler = schedule (waiting_task none (some 5)) idle_scheduler },
    )
unfolding act_all act at_fd add_event complete del_event cancel_event trigger_event schedule
    schedule_no_lock tickle
act_all-waits = refl

act_all-KeepsAll_example : KeepsAll 0 (act_all waits [] idle_io)
unfolding total
act_all-KeepsAll_example =
    act_all-KeepsAll waits [] idle_io (refl, (refl, (refl, (tt, (tt, (tt, tt)))))) tt refl

abbrev waiting_io : Io
waiting_io = record { pending = 1; scheduler = idle_scheduler }

cancel_event_loses_example :
    (c' : FdContext) × (io' : Io) × (cancel_event read_event reading waiting_io ≡ done (c', io'))
    × (has_event read_event c' ≡ false)
    × (get_context read_event c' ≡ some fiber4)
    × (io'.scheduler ≡ idle_scheduler)
cancel_event_loses_example = cancel_event_loses read_event reading waiting_io refl

abbrev both_wait : FdContext
both_wait = record { reads = true; writes = true; read = some fiber4; write = some call5 }

complete_wakes_example :
    (c' : FdContext) × (io' : Io) × (complete 101 both_wait waiting_io ≡ done (c', io'))
    × (has_event write_event c' ≡ false)
    × (get_context write_event c' ≡ none)
    × (io'.pending + 1 ≡ 1)
    × (io'.scheduler.fibers ≡ record { fiber = none; cb = some 5; thread = none } ∷ [])
complete_wakes_example =
    complete_wakes write_event both_wait waiting_io call5
      (record { fiber = none; cb = some 5; thread = none }) refl refl refl (inl (5, refl, refl))
      (omega arith) (λ h. refl)
