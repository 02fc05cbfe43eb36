-- ===== src/Net/TimerQueue/Order.antt =====
-- The order of the timers (LALI/net/TimerQueue.cpp, `insert` and `getExpired`).
use lali_rpc_frame.Base.{
  ltb, leb, if◌then◌else◌, ltb→lt, ltb-eq-false, leb-eq-false, leb→le, Bool-cases, ℕ, suc, ◌≤◌, ◌<◌,
  ◌≡◌, refl, ap, ◌∙◌, ◌⊎◌, inl, inr, Bool, true, false, none, some, List, [], ◌∷◌, ◌++◌, arith,
}
use lali_rpc_frame.Net.TimerQueue.{
  Entry, is_before, insert_entry, earliest_changes, insert, add_timer_in_loop, expired, remaining,
  get_expired,
}

abbrev pub All : (Entry → Type 0) → List Entry → Type 0
All P [] = Unit
All P (x ∷ xs) = P x × All P xs

abbrev pub IsIn : {A : Type 0} → A → List A → Type 0
IsIn a [] = ⊥
IsIn a (x ∷ xs) = (x ≡ a) ⊎ IsIn a xs

pub same_entry : (e x : Entry) → is_before e x ≡ false → is_before x e ≡ false → x ≡ e
unfolding is_before
same_entry e x h k =
    let w : x.when ≡ e.when = ground arith in
    let t : x.timer ≡ e.timer = ground arith in
    ap (λ v. record { when = v; timer = x.timer }) w
    ∙ ap (λ v. record { when = e.when; timer = v }) t

abbrev pub From : ℕ → List Entry → Type 0
From t xs = All (λ x. t ≤ x.when) xs

abbrev pub IsSorted : List Entry → Type 0
IsSorted [] = Unit
IsSorted (x ∷ xs) = From x.when xs × IsSorted xs

pub From-later : (s t : ℕ) (xs : List Entry) → s ≤ t → From t xs → From s xs
From-later s t [] h k = tt
From-later s t (x ∷ xs) h k = (omega (arith, h, k.0), From-later s t xs h k.1)

After : ℕ → List Entry → Type 0
After now xs = All (λ x. now < x.when) xs

-- Of sorted timers the expired ones are those up to `now`, all others are later and stay sorted, and
-- none is lost or doubled.
pub get_expired-splits :
    (now : ℕ) (timers : List Entry)
    → IsSorted timers
    → All (λ x. x.when ≤ now) (get_expired now timers).0
      × All (λ x. now < x.when) (get_expired now timers).1
      × IsSorted (get_expired now timers).1
      × ((get_expired now timers).0 ++ (get_expired now timers).1 ≡ timers)
unfolding get_expired expired remaining
get_expired-splits now [] sorted = (tt, tt, tt, refl)
get_expired-splits now (x ∷ xs) sorted =
    let (before, after, rest, whole) = get_expired-splits now xs sorted.1 in
    elim (Bool-cases (leb x.when now)) [
      | inl due ↦ rw due ((leb→le x.when now due, before), after, rest, ap (λ l. x ∷ l) whole)
      | inr late ↦
          let later : now < x.when = leb-eq-false x.when now late in
          rw late (tt, (later, From-later (suc now) x.when xs later sorted.0), sorted, refl)
    ]

pub insert_entry-From :
    (e : Entry) (t : ℕ) (xs : List Entry) → t ≤ e.when → From t xs → From t (insert_entry e xs)
unfolding insert_entry
insert_entry-From e t [] h k = (h, tt)
insert_entry-From e t (x ∷ xs) h k =
    let later = insert_entry-From e t xs h k.1 in
    elim (Bool-cases (is_before e x)) [
      | inl first ↦ rw first (h, k)
      | inr behind ↦ rw behind (go (is_before x e) later)
    ]
  where
    go :
        (b : Bool)
        → From t (insert_entry e xs)
        → From t (if b then x ∷ insert_entry e xs else x ∷ xs)
    go true later = (k.0, later)
    go false later = k

before-when : (a b : Entry) → is_before a b ≡ true → a.when ≤ b.when
unfolding is_before
before-when a b h = ground arith

pub insert_entry-IsSorted :
    (e : Entry) (xs : List Entry) → IsSorted xs → IsSorted (insert_entry e xs)
unfolding insert_entry
insert_entry-IsSorted e [] sorted = (tt, tt)
insert_entry-IsSorted e (x ∷ xs) sorted =
    let later = insert_entry-IsSorted e xs sorted.1 in
    elim (Bool-cases (is_before e x)) [
      | inl first ↦
          let order = before-when e x first in
          rw first ((order, From-later e.when x.when xs order sorted.0), sorted)
      | inr behind ↦ elim (Bool-cases (is_before x e)) [
        | inl second ↦
            rw behind
              (rw second (insert_entry-From e x.when xs (before-when x e second) sorted.0, later))
        | inr same ↦ rw behind (rw same sorted)
      ]
    ]

-- One timer more, with the others on its two sides; or the timers as they were, with the timer in them.
abbrev pub HasAdded : Entry → List Entry → List Entry → Type 0
HasAdded e timers after =
    ((front : List Entry) × (back : List Entry) × (timers ≡ front ++ back)
      × (after ≡ front ++ e ∷ back))
    ⊎ IsIn e timers × (after ≡ timers)

insert_entry-HasAdded : (e : Entry) (xs : List Entry) → HasAdded e xs (insert_entry e xs)
unfolding insert_entry
insert_entry-HasAdded e [] = inl ([], [], refl, refl)
insert_entry-HasAdded e (x ∷ xs) =
    let later = insert_entry-HasAdded e xs in
    elim (Bool-cases (is_before e x)) [
      | inl first ↦ rw first (inl ([], x ∷ xs, refl, refl))
      | inr behind ↦ elim (Bool-cases (is_before x e)) [
        | inl second ↦ rw behind (rw second (behind_head e x xs (insert_entry e xs) later))
        | inr same ↦ rw behind (rw same (inr (inl (same_entry e x behind same), refl)))
      ]
    ]
  where
    behind_head :
        (e x : Entry) (xs after : List Entry)
        → HasAdded e xs after
        → HasAdded e (x ∷ xs) (x ∷ after)
    behind_head e x xs after (inl (front, back, old, new)) =
        inl (x ∷ front, back, ap (λ l. x ∷ l) old, ap (λ l. x ∷ l) new)
    behind_head e x xs after (inr (there, same)) = inr (inr there, ap (λ l. x ∷ l) same)

-- On sorted timers, a new timer stands in the result between exactly the timers that were there, or the
-- timers stay as they are where it was there already; the result is sorted; and the descriptor is set to
-- its time exactly where no timer was as early: otherwise some waiting timer is due at that time or
-- before it.
pub add_timer_in_loop-IsSorted :
    (e : Entry) (timers : List Entry)
    → IsSorted timers
    → HasAdded e timers (add_timer_in_loop e timers).1
      × IsSorted (add_timer_in_loop e timers).1
      × (((add_timer_in_loop e timers).0 ≡ some e.when) × All (λ x. e.when < x.when) timers
          ⊎ ((add_timer_in_loop e timers).0 ≡ none)
            × ((x : Entry) × (xs : List Entry) × (timers ≡ x ∷ xs) × (x.when ≤ e.when)))
unfolding add_timer_in_loop insert earliest_changes
add_timer_in_loop-IsSorted e [] sorted =
    (insert_entry-HasAdded e [], insert_entry-IsSorted e [] sorted, inl (refl, tt))
add_timer_in_loop-IsSorted e (x ∷ xs) sorted = (
  insert_entry-HasAdded e (x ∷ xs),
  insert_entry-IsSorted e (x ∷ xs) sorted,
  elim (Bool-cases (ltb e.when x.when)) [
    | inl earlier ↦
        let first : e.when < x.when = ltb→lt e.when x.when earlier in
        inl (rw earlier refl, (first, From-later (suc e.when) x.when xs first sorted.0))
    | inr waiting ↦ inr (rw waiting refl, (x, xs, refl, ltb-eq-false e.when x.when waiting))
  ],
)
