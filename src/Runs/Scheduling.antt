-- ===== src/Runs/Scheduling.antt =====
-- Runs of the scheduler.
use sylar_windows.Prelude.{◌≡◌, refl, arith, List, [], ◌∷◌, All, true, false, Option, none, some}
use sylar_windows.Scheduler.State.{
  init, hold, exec, Task, Scheduler, set_fiber, set_state, swap_in, reset, new_fiber, tickle,
  schedule, schedule_no_lock, stopping, stop, stop_threads,
}
use sylar_windows.Scheduler.Run.{
  of_task, of_callback, Phase, looking, idling, ended, picked, running, leaving, Worker, scan,
  other_thread, executing, increment, take, drop_active, run_callback, run_task, go_idle,
  enter_idle, begin, idle_round, after_task, after_callback, advance, yields_ready, yields_hold,
  returns, set_outcome, suspend, Event, advances, suspends, schedules, stops, World, occur,
  occur_all,
}
use sylar_windows.Scheduler.Counts.{busy}
use sylar_windows.Scheduler.Picking.{Taken, take-Taken}
use sylar_windows.Scheduler.Quiet.{
  busy_all, idle_all, IsCounted, occur_all-IsCounted, stopping_quiet,
}
use sylar_windows.Scheduler.Resuming.{with_phase, resume, Became, resume-Became}
use sylar_windows.Scheduler.Races.{for_any, resumed_twice}

-- The callbacks 7, for any thread, and 8, for the thread 2.
abbrev call7 : Task
call7 = record { fiber = none; cb = some 7; thread = none }

abbrev call8 : Task
call8 = record { fiber = none; cb = some 8; thread = some 2 }

abbrev fresh : Scheduler
fresh = record {
  fibers = [];
  active_count = 0;
  idle_count = 0;
  is_stopping = false;
  auto_stop = false;
  objects = λ f. record { state = init; cb = none };
  next = 0;
  tickles = 0;
}

-- Two threads at the top of their loops.
abbrev two : World
two = record {
  workers = with_phase looking 1 none init ∷ with_phase looking 2 none init ∷ [];
  scheduler = fresh;
}

-- Thread 1 passes over 8, takes 7, runs it to its end, and goes idle; thread 2 does the same with 8.
abbrev course : List Event
course =
    schedules call8
    ∷ schedules call7
    ∷ advances 0
    ∷ advances 0
    ∷ suspends 0 returns
    ∷ advances 0
    ∷ advances 0
    ∷ advances 1
    ∷ advances 1
    ∷ suspends 1 returns
    ∷ advances 1
    ∷ advances 1
    ∷ advances 0
    ∷ advances 0
    ∷ advances 0
    ∷ stops 2 none
    ∷ []

abbrev phases : World → List Phase
phases w = go w.workers
  where
    go : List Worker → List Phase
    go [] = []
    go (x ∷ xs) = x.phase ∷ go xs

phases-course : phases (occur_all course two) ≡ idling ∷ looking ∷ []
unfolding occur_all occur schedule schedule_no_lock tickle advance take scan other_thread executing
    begin run_task run_callback new_fiber reset swap_in set_state set_fiber suspend set_outcome
    drop_active after_callback go_idle enter_idle idle_round stop stop_threads stopping increment
phases-course = refl

two-IsCounted : IsCounted two
unfolding busy_all idle_all
two-IsCounted = (omega arith, (refl, refl))

occur_all-IsCounted_example : IsCounted (occur_all course two)
occur_all-IsCounted_example = occur_all-IsCounted course two two-IsCounted

stopping-course : stopping (occur_all course two).scheduler ≡ true
unfolding occur_all occur schedule schedule_no_lock tickle advance take scan other_thread executing
    begin run_task run_callback new_fiber reset swap_in set_state set_fiber suspend set_outcome
    drop_active after_callback go_idle enter_idle idle_round stop stop_threads stopping increment
stopping-course = refl

stopping_quiet_example :
    ((occur_all course two).scheduler.auto_stop ≡ true)
    × ((occur_all course two).scheduler.is_stopping ≡ true)
    × ((occur_all course two).scheduler.fibers ≡ [])
    × All (λ x. busy x.phase ≡ 0) (occur_all course two).workers
stopping_quiet_example = stopping_quiet course two two-IsCounted stopping-course

-- Thread 1 at a queue with the callbacks 8 and 7.
abbrev loaded : Scheduler
loaded = record fresh { fibers = call8 ∷ call7 ∷ [] }

take-Taken_example :
    (ft : Option Task) × ((take (with_phase looking 1 none init) loaded).0.phase ≡ picked ft)
    × Taken 1 loaded.objects loaded.fibers ft
        (take (with_phase looking 1 none init) loaded).1.fibers
take-Taken_example = take-Taken (with_phase looking 1 none init) loaded

resume-Became_example :
    Became yields_ready
      (of_task (for_any 3) 3)
      loaded
      (resume yields_ready (with_phase (running (of_task (for_any 3) 3)) 1 none hold) loaded)
resume-Became_example = resume-Became 1 none hold (of_task (for_any 3) 3) loaded yields_ready

resumed_twice_example :
    (occur_all (suspends 0 yields_hold ∷ advances 1 ∷ advances 1 ∷ []) (record {
      workers =
          with_phase (running (of_callback 3)) 1 (some 3) hold
          ∷ with_phase looking 2 none hold
          ∷ [];
      scheduler = record fresh { fibers = for_any 3 ∷ [] };
    })).workers
    ≡ with_phase (leaving (of_callback 3)) 1 (some 3) hold
      ∷ with_phase (running (of_task (for_any 3) 3)) 2 none hold
      ∷ []
resumed_twice_example =
    resumed_twice 1 2 3 (of_callback 3) (some 3) none hold hold []
      (record fresh { fibers = for_any 3 ∷ [] }) refl refl

-- The scheduler is stopping while a fiber runs on thread 1 and thread 2 is idle. Between the decrement
-- and the new task of the fiber that yields, thread 2 sees an end; what the fiber then schedules for
-- thread 2 stays in the queue.
abbrev closing : World
closing = record {
  workers =
      with_phase (running (of_task (for_any 3) 3)) 1 none hold ∷ with_phase idling 2 none exec ∷ [];
  scheduler = record fresh {
    active_count = 1;
    idle_count = 1;
    is_stopping = true;
    auto_stop = true;
  };
}

abbrev cut_off : List Event
cut_off =
    suspends 0 yields_ready
    ∷ advances 0
    ∷ advances 1
    ∷ advances 1
    ∷ advances 1
    ∷ advances 0
    ∷ advances 0
    ∷ advances 0
    ∷ schedules call8
    ∷ suspends 0 returns
    ∷ advances 0
    ∷ advances 0
    ∷ []

left_over :
    (phases (occur_all cut_off closing) ≡ looking ∷ ended ∷ [])
    × ((occur_all cut_off closing).scheduler.fibers ≡ call8 ∷ [])
unfolding occur_all occur schedule schedule_no_lock tickle advance take scan other_thread executing
    begin run_task run_callback swap_in set_state set_fiber suspend set_outcome drop_active
    after_task go_idle enter_idle idle_round stopping increment
left_over = (refl, refl)
