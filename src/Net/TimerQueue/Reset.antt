-- ===== src/Net/TimerQueue/Reset.antt =====
-- The handling of expired timers (LALI/net/TimerQueue.cpp, `handleRead` and `reset`).
use lali_rpc_frame.Base.{
  ltb, ltb→lt, ltb-eq-false, lt→ltb, Bool-cases, ℕ, suc, ◌+◌, ◌-◌, ◌*◌, ◌≤◌, ◌<◌, ◌≡◌, refl, ◌⊎◌,
  inl, inr, Option, none, some, List, [], ◌∷◌, ◌++◌, map, arith,
}
use Prim.Native.Nat.{max}
use lali_rpc_frame.Net.TimerQueue.{
  Entry, is_before, insert_entry, insert, get_expired, restart, Handled, reset_timers, next_expire,
  handle_read, how_much_time_from_now,
}
use lali_rpc_frame.Net.TimerQueue.Order.{
  All, From, IsSorted, IsIn, same_entry, get_expired-splits, insert_entry-From,
  insert_entry-IsSorted,
}

insert_entry-IsIn : (e : Entry) (xs : List Entry) → IsIn e (insert_entry e xs)
unfolding insert_entry
insert_entry-IsIn e [] = inl refl
insert_entry-IsIn e (x ∷ xs) =
    let later = insert_entry-IsIn e xs in
    elim (Bool-cases (is_before e x)) [
      | inl first ↦ rw first (inl refl)
      | inr behind ↦ elim (Bool-cases (is_before x e)) [
        | inl second ↦ rw behind (rw second (inr later))
        | inr same ↦ rw behind (rw same (inl (same_entry e x behind same)))
      ]
    ]

insert_entry-keeps : (e y : Entry) (xs : List Entry) → IsIn y xs → IsIn y (insert_entry e xs)
unfolding insert_entry
insert_entry-keeps e y [] h = elim h [ ]
insert_entry-keeps e y (x ∷ xs) h = elim (Bool-cases (is_before e x)) [
  | inl first ↦ rw first (inr h)
  | inr behind ↦ elim (Bool-cases (is_before x e)) [
    | inl second ↦ rw behind (
        rw second
          (elim h [ inl same ↦ inl same | inr more ↦ inr (insert_entry-keeps e y xs more) ]))
    | inr same ↦ rw behind (rw same h)
  ]
]

-- What becomes of an expired timer.
abbrev pub IsReset : (ℕ → ℕ) → ℕ → List Entry → List ℕ → Entry → Type 0
IsReset interval now timers deleted e =
    (0 < interval e.timer) × IsIn (restart interval now e.timer) timers
    ⊎ (interval e.timer ≡ 0) × IsIn e.timer deleted

-- The result of the loop of `reset`.
record Resets (interval : ℕ → ℕ) (now : ℕ) (es timers : List Entry) (r : List Entry × List ℕ)
    : Type 0 where
  sorted : IsSorted r.0
  later : From (suc now) r.0
  kept : (y : Entry) → IsIn y timers → IsIn y r.0
  each : All (IsReset interval now r.0 r.1) es

weaker :
    (interval : ℕ → ℕ) (now : ℕ) (timers : List Entry) (t : ℕ) (deleted : List ℕ) (es : List Entry)
    → All (IsReset interval now timers deleted) es
    → All (IsReset interval now timers (t ∷ deleted)) es
weaker interval now timers t deleted [] h = tt
weaker interval now timers t deleted (e ∷ es) h = (
  elim (h.0) [ inl again ↦ inl again | inr gone ↦ inr (gone.0, inr gone.1) ],
  weaker interval now timers t deleted es h.1,
)

reset_timers-Resets :
    (interval : ℕ → ℕ) (now : ℕ) (es timers : List Entry)
    → IsSorted timers
    → From (suc now) timers
    → Resets interval now es timers (reset_timers interval now es timers)
unfolding reset_timers restart insert
reset_timers-Resets interval now [] timers s l = record {
  sorted = s;
  later = l;
  kept = λ y h. h;
  each = tt;
}
reset_timers-Resets interval now (e ∷ es) timers s l =
    let new = restart interval now e.timer in
    elim (Bool-cases (ltb 0 (interval e.timer))) [
      | inl repeats ↦
          let positive : 0 < interval e.timer = ltb→lt 0 (interval e.timer) repeats in
          let r =
            reset_timers-Resets interval now es (insert_entry new timers)
              (insert_entry-IsSorted new timers s)
              (insert_entry-From new (suc now) timers (omega (arith, positive)) l) in
          rw repeats (record {
            sorted = r.sorted;
            later = r.later;
            kept = λ y h. r.kept y (insert_entry-keeps new y timers h);
            each = (inl (positive, r.kept new (insert_entry-IsIn new timers)), r.each);
          })
      | inr once ↦
          let r = reset_timers-Resets interval now es timers s l in
          let rest = reset_timers interval now es timers in
          let none' : interval e.timer ≡ 0 = ground arith in
          rw once (record {
            sorted = r.sorted;
            later = r.later;
            kept = r.kept;
            each = (inr (none', inl refl), weaker interval now rest.0 e.timer rest.1 es r.each);
          })
    ]

all_in : (xs ys : List Entry) → ((y : Entry) → IsIn y xs → IsIn y ys) → All (λ y. IsIn y ys) xs
all_in [] ys h = tt
all_in (x ∷ xs) ys h = (h x (inl refl), all_in xs ys (λ y k. h y (inr k)))

abbrev pub first_time : List Entry → Option ℕ
first_time [] = none
first_time (e ∷ es) = some e.when

next_expire_first :
    (now : ℕ) (timers : List Entry) → From (suc now) timers → next_expire timers ≡ first_time timers
unfolding next_expire
next_expire_first now [] h = refl
next_expire_first now (e ∷ es) h = rw (lt→ltb 0 e.when (omega (arith, h.0))) refl

-- The timers split into those that are due and the rest. The due ones were run, once each and in order;
-- each that repeats stands in the queue again, one interval behind `now`, and the others were deleted.
-- The rest is still there, the queue is sorted, and nothing of it is due; the descriptor is set to
-- its first time.
pub record Handles (interval : ℕ → ℕ) (now : ℕ) (timers : List Entry) (r : Handled) : Type 0 where
  pub due : List Entry
  pub rest : List Entry
  pub split : due ++ rest ≡ timers
  pub all_due : All (λ e. e.when ≤ now) due
  pub none_due : All (λ e. now < e.when) rest
  pub run : r.ran ≡ map (λ e. e.timer) due
  pub each : All (IsReset interval now r.timers r.deleted) due
  pub kept : All (λ e. IsIn e r.timers) rest
  pub sorted : IsSorted r.timers
  pub later : From (suc now) r.timers
  pub set : r.timerfd ≡ first_time r.timers

-- The handling of a timer event on sorted timers runs exactly the due timers, in order, keeps the
-- repeating ones and the rest, leaves nothing due, and sets the descriptor to the first time left.
pub handle_read-Handles :
    (interval : ℕ → ℕ) (now : ℕ) (timers : List Entry)
    → IsSorted timers
    → Handles interval now timers (handle_read interval now timers)
unfolding handle_read
handle_read-Handles interval now timers s =
    let due = get_expired now timers in
    let (before, after, rest, whole) = get_expired-splits now timers s in
    let r = reset_timers-Resets interval now due.0 due.1 rest (later_than now due.1 after) in
    record {
      due = due.0;
      rest = due.1;
      split = whole;
      all_due = before;
      none_due = after;
      run = refl;
      each = r.each;
      kept = all_in due.1 (reset_timers interval now due.0 due.1).0 r.kept;
      sorted = r.sorted;
      later = r.later;
      set = next_expire_first now (reset_timers interval now due.0 due.1).0 r.later;
    }
  where
    later_than : (t : ℕ) (xs : List Entry) → All (λ e. t < e.when) xs → From (suc t) xs
    later_than t [] h = tt
    later_than t (x ∷ xs) h = (omega (arith, h.0), later_than t xs h.1)

-- The time that the descriptor is given is the time left in nanoseconds, at least 100 microseconds, with
-- less than a second in the nanoseconds.
pub how_much_time_from_now_exact :
    (when now : ℕ)
    → ((how_much_time_from_now when now).1 < 1000000000)
      × ((how_much_time_from_now when now).0 * 1000000000 + (how_much_time_from_now when now).1
          ≡ max 100 (when - now) * 1000)
unfolding how_much_time_from_now
how_much_time_from_now_exact when now = elim (Bool-cases (ltb (when - now) 100)) [
  | inl short ↦
      let less : when - now < 100 = ltb→lt (when - now) 100 short in
      rw short (omega arith, omega arith)
  | inr long ↦
      let more : 100 ≤ when - now = ltb-eq-false (when - now) 100 long in
      rw long (omega arith, omega arith)
]
