-- ===== src/Net/TimerQueue.antt =====
-- LALI/net/TimerQueue.cpp: the set of timers, ordered by time and then by address. A timer is the
-- number of its address, and a time its microseconds.
pub mod Order
pub mod Reset
mod Tests
use lali_rpc_frame.Base.{
  [], ltb, leb, ◌==◌, if◌then◌else◌, ℕ, ◌+◌, ◌-◌, ◌*◌, ◌/◌, ◌%◌, Bool, true, ◌&&◌, ◌||◌, Option,
  none, some, List, ◌∷◌, map,
}

pub record Entry : Type 0 where
  pub when : ℕ
  pub timer : ℕ

-- The order of std::pair.
unfoldable pub is_before : Entry → Entry → Bool
is_before a b = ltb a.when b.when || (a.when == b.when && ltb a.timer b.timer)

-- std::set::insert.
unfoldable pub insert_entry : Entry → List Entry → List Entry
insert_entry e [] = e ∷ []
insert_entry e (x ∷ xs) =
    let later = insert_entry e xs in
    if is_before e x then e ∷ x ∷ xs else if is_before x e then x ∷ later else x ∷ xs

unfoldable pub earliest_changes : Entry → List Entry → Bool
earliest_changes e [] = true
earliest_changes e (x ∷ xs) = ltb e.when x.when

-- Whether the earliest time changes, and the timers afterwards.
unfoldable pub insert : Entry → List Entry → Bool × List Entry
insert e timers = (earliest_changes e timers, insert_entry e timers)

-- The time that the timer descriptor is set to, if it is set, and the timers afterwards.
unfoldable pub add_timer_in_loop : Entry → List Entry → Option ℕ × List Entry
add_timer_in_loop e timers =
    (if (insert e timers).0 then some e.when else none, (insert e timers).1)

-- Below the sentry, whose address is the greatest, stand the times up to `now`.
unfoldable pub expired : ℕ → List Entry → List Entry
expired now [] = []
expired now (x ∷ xs) = let more = expired now xs in if leb x.when now then x ∷ more else []

unfoldable pub remaining : ℕ → List Entry → List Entry
remaining now [] = []
remaining now (x ∷ xs) = let more = remaining now xs in if leb x.when now then more else x ∷ xs

-- What has expired, and the timers that are left.
unfoldable pub get_expired : ℕ → List Entry → List Entry × List Entry
get_expired now timers = (expired now timers, remaining now timers)

-- The interval of each timer, which is constant; a timer repeats where it is positive. A timer in the
-- set stands under its own expiration. `restart` is given a repeating timer only.
unfoldable pub restart : (ℕ → ℕ) → ℕ → ℕ → Entry
restart interval now timer = record { when = now + interval timer; timer = timer }

-- The timers behind `handleRead`, the timers that were run and those that were deleted, in order, and
-- the time that the descriptor is set to, if it is set. The callbacks themselves add no timer here.
pub record Handled : Type 0 where
  pub timers : List Entry
  pub deleted : List ℕ
  pub ran : List ℕ
  pub timerfd : Option ℕ

-- The loop of `reset`: the timers, and those that are deleted.
unfoldable pub reset_timers : (ℕ → ℕ) → ℕ → List Entry → List Entry → List Entry × List ℕ
reset_timers interval now [] timers = (timers, [])
reset_timers interval now (e ∷ es) timers =
    let again = reset_timers interval now es (insert (restart interval now e.timer) timers).1 in
    let rest = reset_timers interval now es timers in
    if ltb 0 (interval e.timer) then again else (rest.0, e.timer ∷ rest.1)

-- A time is valid where it is positive.
unfoldable pub next_expire : List Entry → Option ℕ
next_expire [] = none
next_expire (e ∷ es) = if ltb 0 e.when then some e.when else none

unfoldable pub handle_read : (ℕ → ℕ) → ℕ → List Entry → Handled
handle_read interval now timers =
    let due = get_expired now timers in
    let kept = reset_timers interval now due.0 due.1 in
    record {
      timers = kept.0;
      deleted = kept.1;
      ran = map (λ e. e.timer) due.0;
      timerfd = next_expire kept.0;
    }

-- `howMuchTimeFromNow`, in seconds and nanoseconds; a time that has passed counts as less than 100.
unfoldable pub how_much_time_from_now : ℕ → ℕ → ℕ × ℕ
how_much_time_from_now when now =
    let microseconds = if ltb (when - now) 100 then 100 else when - now in
    (microseconds / 1000000, microseconds % 1000000 * 1000)
