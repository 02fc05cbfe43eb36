-- ===== src/Zrpc/Stub/Replace.antt =====
-- When the replacement of a text ends (LALI/zrpc/stub/StubGenerator.h, `replaceAll`).
use lali_rpc_frame.Base.{
  has_byte, Bytes, ◌==◌, if◌then◌else◌, Bool-cases, Option-cases, length, take, drop, ℕ, zero, suc,
  ◌+◌, ◌≤◌, ◌<◌, ◌≡◌, refl, ap, inl, inr, true, false, none, some, [], ◌∷◌, ◌++◌, arith,
}
use lali_rpc_frame.Zrpc.Stub.Template.{starts_with, find_text, replace_at, replace_all}

-- How often a byte occurs.
unfoldable pub count : ℕ → Bytes → ℕ
count c [] = 0
count c (d ∷ ds) = (if d == c then 1 else 0) + count c ds

count-append : (c : ℕ) (xs ys : Bytes) → count c (xs ++ ys) ≡ count c xs + count c ys
unfolding count
count-append c [] ys = omega arith
count-append c (x ∷ xs) ys = omega (arith, count-append c xs ys)

count-none : (c : ℕ) (xs : Bytes) → has_byte c xs ≡ false → count c xs ≡ 0
unfolding count has_byte
count-none c [] h = refl
count-none c (x ∷ xs) h = ground (arith, count-none c xs)

count-length : (c : ℕ) (xs : Bytes) → count c xs ≤ length xs
unfolding count
count-length c [] = omega arith
count-length c (x ∷ xs) = ground (arith, count-length c xs)

count-drop : (c n : ℕ) (xs : Bytes) → count c (drop n xs) ≤ count c xs
unfolding count
count-drop c zero xs = omega arith
count-drop c (suc n) [] = omega arith
count-drop c (suc n) (x ∷ xs) = ground (arith, count-drop c n xs)

-- Cutting a match out takes an occurrence of its first byte away.
count-match :
    (c d : ℕ) (cs ds : Bytes)
    → starts_with (c ∷ cs) (d ∷ ds) ≡ true
    → count c (drop (length cs) ds) < count c (d ∷ ds)
unfolding starts_with count
count-match c d cs ds h = ground (arith, count-drop c (length cs) ds)

find_text-here :
    (c d i : ℕ) (cs ds : Bytes)
    → starts_with (c ∷ cs) (d ∷ ds) ≡ true
    → find_text (c ∷ cs) (d ∷ ds) ≡ some i
    → i ≡ 0
unfolding find_text
find_text-here c d i cs ds h found = ground arith

find_text-later :
    (c d i : ℕ) (cs ds : Bytes)
    → starts_with (c ∷ cs) (d ∷ ds) ≡ false
    → find_text (c ∷ cs) (d ∷ ds) ≡ some i
    → (k : ℕ) × (i ≡ suc k) × (find_text (c ∷ cs) ds ≡ some k)
unfolding find_text
find_text-later c d i cs ds h found = elim (Option-cases (find_text (c ∷ cs) ds)) [
  | inl absent ↦ absurd (ground arith)
  | inr (k, later) ↦ (k, ground arith, later)
]

replace_at-zero : (n d : ℕ) (to ds : Bytes) → replace_at 0 (suc n) to (d ∷ ds) ≡ to ++ drop n ds
replace_at-zero n d to ds =
    let e : 0 + suc n ≡ suc n = omega arith in ap (λ k. to ++ drop k (d ∷ ds)) e

replace_at-suc :
    (k n d : ℕ) (to ds : Bytes) → replace_at (suc k) n to (d ∷ ds) ≡ d ∷ replace_at k n to ds
replace_at-suc k n d to ds =
    let e : suc k + n ≡ suc (k + n) = omega arith in
    ap (λ m. d ∷ (take k ds ++ (to ++ drop m (d ∷ ds)))) e

count-cons :
    (c d : ℕ) (xs ys : Bytes) → count c xs < count c ys → count c (d ∷ xs) < count c (d ∷ ys)
unfolding count
count-cons c d xs ys h = omega arith

-- Each replacement takes an occurrence of the first byte away.
count-replaced :
    (c : ℕ) (cs str to : Bytes) (i : ℕ)
    → has_byte c to ≡ false
    → find_text (c ∷ cs) str ≡ some i
    → count c (replace_at i (suc (length cs)) to str) < count c str
count-replaced c cs [] to i h found = unfold find_text in unfold starts_with in cc
count-replaced c cs (d ∷ ds) to i h found = elim (Bool-cases (starts_with (c ∷ cs) (d ∷ ds))) [
  | inl here ↦ rw (find_text-here c d i cs ds here found) (
      rw (replace_at-zero (length cs) d to ds) (
        omega (
          arith,
          count-append c to (drop (length cs) ds),
          count-none c to h,
          count-match c d cs ds here,
        )))
  | inr there ↦
      let (k, e, later) = find_text-later c d i cs ds there found in
      rw e (
        rw (replace_at-suc k (suc (length cs)) d to ds) (
          count-cons c d (replace_at k (suc (length cs)) to ds) ds
            (count-replaced c cs ds to k h later)))
]

-- Where the replacing text lacks the first byte of the replaced one, the replacement ends, with as
-- many rounds as that byte occurs and one more, and its result does not hold the replaced text.
pub replace_all-ends :
    (fuel : ℕ) (str to : Bytes) (c : ℕ) (cs : Bytes)
    → has_byte c to ≡ false
    → count c str < fuel
    → (r : Bytes) × (replace_all fuel str (c ∷ cs) to ≡ some r) × (find_text (c ∷ cs) r ≡ none)
unfolding replace_all
replace_all-ends zero str to c cs h enough = absurd (omega arith)
replace_all-ends (suc fuel) str to c cs h enough = elim (Option-cases (find_text (c ∷ cs) str)) [
  | inl absent ↦ (str, rw (absent, replace_all) refl, absent)
  | inr (i, found) ↦
      let less = count-replaced c cs str to i h found in
      let (r, ends, gone) =
        replace_all-ends fuel (replace_at i (suc (length cs)) to str) to c cs h
          (omega (arith, less)) in
      (r, rw (found, replace_all) ends, gone)
]

starts_with-append :
    (from str more : Bytes) → starts_with from str ≡ true → starts_with from (str ++ more) ≡ true
unfolding starts_with
starts_with-append [] str more h = refl
starts_with-append (c ∷ cs) [] more h = cc
starts_with-append (c ∷ cs) (d ∷ ds) more h = ground (arith, starts_with-append cs ds more)

find_text-first : (from str : Bytes) → starts_with from str ≡ true → find_text from str ≡ some 0
unfolding find_text
find_text-first from [] h = rw h refl
find_text-first from (d ∷ ds) h = rw h refl

find_text-cons :
    (from ds : Bytes) (d k : ℕ)
    → find_text from ds ≡ some k
    → (m : ℕ) × (find_text from (d ∷ ds) ≡ some m)
unfolding find_text
find_text-cons from ds d k h = elim (Bool-cases (starts_with from (d ∷ ds))) [
  | inl here ↦ (0, rw here refl)
  | inr there ↦ (suc k, rw there (rw h refl))
]

find_text-nil : (from : Bytes) (i : ℕ) → find_text from [] ≡ some i → starts_with from [] ≡ true
unfolding find_text
find_text-nil from i h = ground arith

find_text-parts :
    (from ds : Bytes) (d i : ℕ)
    → find_text from (d ∷ ds) ≡ some i
    → starts_with from (d ∷ ds) ≡ false
    → (k : ℕ) × (find_text from ds ≡ some k)
unfolding find_text
find_text-parts from ds d i h there = elim (Option-cases (find_text from ds)) [
  | inl absent ↦ absurd (ground arith)
  | inr found ↦ found
]

find_text-append :
    (from str more : Bytes) (i : ℕ)
    → find_text from str ≡ some i
    → (k : ℕ) × (find_text from (str ++ more) ≡ some k)
find_text-append from [] more i h =
    (0, find_text-first from more (starts_with-append from [] more (find_text-nil from i h)))
find_text-append from (d ∷ ds) more i h = elim (Bool-cases (starts_with from (d ∷ ds))) [
  | inl here ↦
      (0, find_text-first from (d ∷ (ds ++ more)) (starts_with-append from (d ∷ ds) more here))
  | inr there ↦
      let (k, later) = find_text-parts from ds d i h there in
      let (m, found) = find_text-append from ds more k later in
      find_text-cons from (ds ++ more) d m found
]

find_text-prepend :
    (from front str : Bytes) (i : ℕ)
    → find_text from str ≡ some i
    → (k : ℕ) × (find_text from (front ++ str) ≡ some k)
find_text-prepend from [] str i h = (i, h)
find_text-prepend from (c ∷ front) str i h =
    let (k, later) = find_text-prepend from front str i h in
    find_text-cons from (front ++ str) c k later

-- Where the replacing text holds the replaced one, a replacement of what is found never ends.
pub replace_all-loops :
    (fuel : ℕ) (str from to : Bytes) (i k : ℕ)
    → find_text from str ≡ some i
    → find_text from to ≡ some k
    → replace_all fuel str from to ≡ none
unfolding replace_all
replace_all-loops zero str from to i k h again = refl
replace_all-loops (suc fuel) str from to i k h again =
    let (a, within) = find_text-append from to (drop (i + length from) str) k again in
    let (b, still) =
      find_text-prepend from (take i str) (to ++ drop (i + length from) str) a within in
    rw (h, replace_all)
      (replace_all-loops fuel (replace_at i (length from) to str) from to b k still again)
