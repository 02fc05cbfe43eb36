-- ===== src/Net/TimerQueue/Tests.antt =====
-- The timer theorems at two timers.
use lali_rpc_frame.Base.{
  ◌==◌, if◌then◌else◌, ◌+◌, ◌*◌, ◌≤◌, ◌<◌, ◌≡◌, ◌⊎◌, none, some, List, [], ◌∷◌, arith,
}
use lali_rpc_frame.Net.TimerQueue.{Entry, add_timer_in_loop, handle_read, how_much_time_from_now}
use lali_rpc_frame.Net.TimerQueue.Reset.{Handles, handle_read-Handles, how_much_time_from_now_exact}
use lali_rpc_frame.Net.TimerQueue.Order.{All, IsSorted, HasAdded, add_timer_in_loop-IsSorted}

abbrev early : Entry
early = record { when = 10; timer = 2 }

abbrev late : Entry
late = record { when = 20; timer = 1 }

abbrev timers : List Entry
timers = early ∷ late ∷ []

timers-IsSorted : IsSorted timers
timers-IsSorted = ((omega arith, tt), (tt, tt))

abbrev new_timer : Entry
new_timer = record { when = 5; timer = 3 }

add_timer_in_loop-IsSorted_example :
    HasAdded new_timer timers (add_timer_in_loop new_timer timers).1
    × IsSorted (add_timer_in_loop new_timer timers).1
    × (((add_timer_in_loop new_timer timers).0 ≡ some 5) × All (λ x. 5 < x.when) timers
        ⊎ ((add_timer_in_loop new_timer timers).0 ≡ none)
          × ((x : Entry) × (xs : List Entry) × (timers ≡ x ∷ xs) × (x.when ≤ 5)))
add_timer_in_loop-IsSorted_example = add_timer_in_loop-IsSorted new_timer timers timers-IsSorted

-- The first timer repeats, so it stands in the queue again; the other one waits.
handle_read-Handles_example :
    Handles
      (λ t. if t == 2 then 7 else 0)
      15
      timers
      (handle_read (λ t. if t == 2 then 7 else 0) 15 timers)
handle_read-Handles_example =
    handle_read-Handles (λ t. if t == 2 then 7 else 0) 15 timers timers-IsSorted

how_much_time_from_now_exact_example :
    (500000000 < 1000000000) × (2 * 1000000000 + 500000000 ≡ 2500000 * 1000)
unfolding how_much_time_from_now
how_much_time_from_now_exact_example = how_much_time_from_now_exact 2500010 10
