-- ===== src/Runs/Timers.antt =====
-- Runs of the timers.
use sylar_windows.Prelude.{
  map, ◌+◌, ◌<◌, ◌≡◌, ◌↔◌, refl, arith, [], ◌∷◌, All, filter, true, false, some, inl,
}
use sylar_windows.Timer.State.{
  Timer, TimerManager, before, find, insert, is_begin, lower_bound, add_u64, sub_u64,
}
use sylar_windows.Timer.Manager.{
  new_timer, new_manager, insert_timer, add_timer, refresh, get_next_timer, list_expired_cb,
  collect, split_expired, pass_equal, put_back, let_go, detect_clock_rollover, has_timer, with_next,
}
use sylar_windows.Timer.Order.{Precedes, IsSorted}
use sylar_windows.Timer.Expiry.{
  is_due, not_due, ended, insert_all, renewed, list_expired_cb-Lists, get_next_timer_exact,
}
use sylar_windows.Timer.Changes.{Added, insert_timer-Added, refresh_moves}

abbrev once : Timer
once = record { address = 10; recurring = false; ms = 100; next = 1100; cb = some 1 }

abbrev again : Timer
again = record { address = 11; recurring = true; ms = 50; next = 1200; cb = some 2 }

abbrev late : Timer
late = record { address = 12; recurring = true; ms = 900; next = 1900; cb = some 3 }

abbrev busy : TimerManager
busy = record { timers = once ∷ again ∷ late ∷ []; tickled = false; previouse_time = 1000 }

busy-IsSorted : IsSorted busy.timers
busy-IsSorted = ((inl (omega arith), (inl (omega arith), tt)), ((inl (omega arith), tt), (tt, tt)))

abbrev newer : Timer
newer = record { address = 13; recurring = false; ms = 10; next = 1010; cb = some 4 }

-- Timers added in one order and listed in that of their times.
first_listing :
    (list_expired_cb 99 1200
      (add_timer 1000 11 50
        (some 2)
        true
        (add_timer 1000 10 100 (some 1) false (new_manager 1000)).1.1).1.1).cbs
    ≡ some 2 ∷ some 1 ∷ []
unfolding list_expired_cb add_timer new_timer insert_timer insert is_begin before add_u64 collect
    split_expired lower_bound pass_equal put_back let_go detect_clock_rollover sub_u64
first_listing = refl

list_expired_cb-Lists_example :
    let r = list_expired_cb 99 1200 busy in
    (r.cbs ≡ map (λ t. t.cb) (filter (is_due 1200) busy.timers))
    × (r.released ≡ ended (filter (is_due 1200) busy.timers))
    × (r.manager.timers
        ≡ insert_all
            (renewed 1200 (filter (is_due 1200) busy.timers))
            (filter (not_due 1200) busy.timers))
    × IsSorted r.manager.timers
unfolding detect_clock_rollover sub_u64
list_expired_cb-Lists_example = list_expired_cb-Lists 99 1200 busy busy-IsSorted refl

abbrev ahead_of_time : TimerManager
ahead_of_time = record { timers = once ∷ late ∷ []; tickled = false; previouse_time = 4000000 }

get_next_timer_exact_example :
    (filter (is_due 1050) busy.timers ≡ []) ↔ (1050 < 1000 + (get_next_timer 1000 busy).0)
unfolding has_timer
get_next_timer_exact_example =
    get_next_timer_exact 1000 1050 busy busy-IsSorted
      (omega arith, (omega arith, (omega arith, tt))) refl (omega arith)

insert_timer-Added_example :
    let r = insert_timer newer busy in
    Added newer busy.timers r.1.timers
    × IsSorted r.1.timers
    × ((r.0 ≡ true) ↔ ((false ≡ false) × All (Precedes newer) busy.timers))
unfolding find before
insert_timer-Added_example = insert_timer-Added newer busy busy-IsSorted refl

refresh_moves_example :
    let r = refresh 1500 again busy in
    (r.result ≡ false)
    × (r.woken ≡ false)
    × (r.timer ≡ with_next (add_u64 1500 50) again)
    × Added r.timer (once ∷ late ∷ []) r.manager.timers
    × IsSorted r.manager.timers
refresh_moves_example =
    refresh_moves 1500 again 2 busy (once ∷ []) (late ∷ []) busy-IsSorted
      ((λ e. omega arith), ((λ e. omega arith), tt)) refl refl
