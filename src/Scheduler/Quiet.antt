-- ===== src/Scheduler/Quiet.antt =====
-- The counts of active and idle threads over any course of events, and what `stopping` tells.
use sylar_windows.Prelude.{
  ℕ, zero, suc, ◌+◌, ◌^◌, ◌<◌, ◌≤◌, ◌≡◌, refl, sym, ap, ◌∙◌, arith, List, [], ◌∷◌, length, All,
  Bool, true, false, ◌&&◌, ◌==◌, subst, none, some,
}
use sylar_windows.Scheduler.State.{Task, Scheduler, is_empty, stopping}
use sylar_windows.Scheduler.Run.{
  Phase, looking, resting, idling, ended, picked, running, leaving, left, Worker, Event, advances,
  suspends, schedules, schedules_all, stops, World, act_at, world_of, occur, occur_all,
}
use sylar_windows.Scheduler.Counts.{
  busy, idles, Reads, Counted, Leaves, advance-Leaves, suspend-Leaves, schedule-Reads,
  schedule_all-Reads, stop-Reads,
}

-- The threads at work, and the idle ones.
unfoldable pub busy_all : List Worker → ℕ
busy_all [] = 0
busy_all (w ∷ ws) = busy w.phase + busy_all ws

unfoldable pub idle_all : List Worker → ℕ
idle_all [] = 0
idle_all (w ∷ ws) = idles w.phase + idle_all ws

busy_one : (p : Phase) → (busy p ≤ 1) × (idles p ≤ 1)
busy_one looking = (omega arith, omega arith)
busy_one resting = (omega arith, omega arith)
busy_one idling = (omega arith, omega arith)
busy_one ended = (omega arith, omega arith)
busy_one (picked none) = (omega arith, omega arith)
busy_one (picked (some t)) = (omega arith, omega arith)
busy_one (running j) = (omega arith, omega arith)
busy_one (leaving j) = (omega arith, omega arith)
busy_one (left j) = (omega arith, omega arith)

all_at_most : (ws : List Worker) → (busy_all ws ≤ length ws) × (idle_all ws ≤ length ws)
unfolding busy_all idle_all
all_at_most [] = (omega arith, omega arith)
all_at_most (w ∷ ws) =
    let h = all_at_most ws in
    let k = busy_one w.phase in (omega (arith, h.0, k.0), omega (arith, h.1, k.1))

-- A step of the thread at any place.
module _ (f : Worker → Scheduler → Worker × Scheduler)
    (step : (b c : ℕ) (w : Worker) (s : Scheduler)
      → b + 1 < 2 ^ 64
      → c + 1 < 2 ^ 64
      → Counted b c w.phase s
      → Leaves b c (f w s)) where
  act_at-Reads :
      (b c i : ℕ) (ws : List Worker) (s : Scheduler)
      → b + length ws < 2 ^ 64
      → c + length ws < 2 ^ 64
      → Reads (b + busy_all ws) (c + idle_all ws) s
      → Reads
          (b + busy_all (act_at f i ws s).0)
          (c + idle_all (act_at f i ws s).0)
          (act_at f i ws s).1
  unfolding busy_all idle_all
  act_at-Reads b c i [] s h k r = r
  act_at-Reads b c zero (w ∷ ws) s h k r =
      let n = all_at_most ws in
      let t =
        step (b + busy_all ws) (c + idle_all ws) w s (omega (arith, h, n.0)) (omega (arith, k, n.1))
          (omega (arith, r.0), omega (arith, r.1)) in
      (omega (arith, t.0), omega (arith, t.1))
  act_at-Reads b c (suc i) (w ∷ ws) s h k r =
      let n = busy_one w.phase in
      let t =
        act_at-Reads (b + busy w.phase) (c + idles w.phase) i ws s (omega (arith, h, n.0))
          (omega (arith, k, n.1)) (omega (arith, r.0), omega (arith, r.1)) in
      (omega (arith, t.0), omega (arith, t.1))

  length-act_at :
      (i : ℕ) (ws : List Worker) (s : Scheduler) → length (act_at f i ws s).0 ≡ length ws
  length-act_at i [] s = refl
  length-act_at zero (w ∷ ws) s = refl
  length-act_at (suc i) (w ∷ ws) s = ap suc (length-act_at i ws s)

-- Fewer threads than a `size_t` counts, and both counts those of the threads.
abbrev pub IsCounted : World → Type 0
IsCounted w =
    (length w.workers < 2 ^ 64) × Reads (busy_all w.workers) (idle_all w.workers) w.scheduler

act_at-IsCounted :
    (f : Worker → Scheduler → Worker × Scheduler)
    → ((b c : ℕ) (w : Worker) (s : Scheduler)
        → b + 1 < 2 ^ 64
        → c + 1 < 2 ^ 64
        → Counted b c w.phase s
        → Leaves b c (f w s))
    → (i : ℕ) (w : World) → IsCounted w
    → IsCounted (world_of (act_at f i w.workers w.scheduler))
act_at-IsCounted f step i w h =
    let r =
      act_at-Reads f step 0 0 i w.workers w.scheduler (omega (arith, h.0)) (omega (arith, h.0))
        (omega (arith, h.1.0), omega (arith, h.1.1)) in
    (
      subst (λ n. n < 2 ^ 64) (sym (length-act_at f step i w.workers w.scheduler)) h.0,
      (omega (arith, r.0), omega (arith, r.1)),
    )

occur-IsCounted : (e : Event) (w : World) → IsCounted w → IsCounted (occur e w)
unfolding occur
occur-IsCounted (advances i) w h =
    act_at-IsCounted _ (λ b c x s k l m. advance-Leaves b c k l x x.phase s refl m) i w h
occur-IsCounted (suspends i o) w h =
    act_at-IsCounted _ (λ b c x s k l m. suspend-Leaves b c o x x.phase s refl m) i w h
occur-IsCounted (schedules t) w h = (h.0, schedule-Reads _ _ t w.scheduler h.1)
occur-IsCounted (schedules_all ts) w h = (h.0, schedule_all-Reads _ _ ts w.scheduler h.1)
occur-IsCounted (stops n root) w h = (h.0, stop-Reads _ _ n root w.scheduler h.1)

-- However the threads, their fibers, calls of `schedule` and calls of `stop` interleave,
-- `m_activeThreadCount` is the number of threads that have taken a task and are not back from it, and
-- `m_idleThreadCount` that of threads in the idle fiber: no decrement wraps around.
pub occur_all-IsCounted : (es : List Event) (w : World) → IsCounted w → IsCounted (occur_all es w)
unfolding occur_all
occur_all-IsCounted [] w h = h
occur_all-IsCounted (e ∷ es) w h = occur_all-IsCounted es (occur e w) (occur-IsCounted e w h)

nobody_busy : (ws : List Worker) → busy_all ws ≡ 0 → All (λ w. busy w.phase ≡ 0) ws
unfolding busy_all
nobody_busy [] h = tt
nobody_busy (w ∷ ws) h = (omega (arith, h), nobody_busy ws (omega (arith, h)))

and_parts :
    (a b c d : Bool) → (a && b && c && d) ≡ true → (a ≡ true) × (b ≡ true) × (c ≡ true) × (d ≡ true)
and_parts true true true true h = (refl, refl, refl, refl)
and_parts true true true false h = absurd (ground arith)
and_parts true true false d h = absurd (ground arith)
and_parts true false c d h = absurd (ground arith)
and_parts false b c d h = absurd (ground arith)

empty_queue : (ts : List Task) → is_empty ts ≡ true → ts ≡ []
empty_queue [] h = refl
empty_queue (t ∷ ts) h = absurd (ground arith)

pub stopping_empty : (s : Scheduler) → stopping s ≡ true → s.fibers ≡ []
unfolding stopping
stopping_empty s h =
    empty_queue s.fibers
      (and_parts s.auto_stop s.is_stopping (is_empty s.fibers) (s.active_count == 0) h).2

quiet :
    (w : World)
    → IsCounted w
    → stopping w.scheduler ≡ true
    → (w.scheduler.auto_stop ≡ true)
      × (w.scheduler.is_stopping ≡ true)
      × (w.scheduler.fibers ≡ [])
      × All (λ x. busy x.phase ≡ 0) w.workers
unfolding stopping
quiet w h k =
    let (a, b, c, d) =
      and_parts w.scheduler.auto_stop w.scheduler.is_stopping (is_empty w.scheduler.fibers)
        (w.scheduler.active_count == 0) k in
    (a, b, empty_queue w.scheduler.fibers c, nobody_busy w.workers (sym h.1.0 ∙ ground (arith, d)))

-- Once `stopping` answers yes, after any course of events, both flags that `stop` sets are set, the
-- queue is empty, and no thread has taken a task that it is not back from.
pub stopping_quiet :
    (es : List Event) (w : World)
    → IsCounted w
    → stopping (occur_all es w).scheduler ≡ true
    → ((occur_all es w).scheduler.auto_stop ≡ true)
      × ((occur_all es w).scheduler.is_stopping ≡ true)
      × ((occur_all es w).scheduler.fibers ≡ [])
      × All (λ x. busy x.phase ≡ 0) (occur_all es w).workers
stopping_quiet es w h k = quiet (occur_all es w) (occur_all-IsCounted es w h) k
