-- ===== src/Log/Stream/Convert.antt =====
-- The text of an integer (LALI/base/Logstream.cpp, `convert`).
use lali_rpc_frame.Base.{
  Bytes, ltb, ◌==◌, if◌then◌else◌, ltb→lt, ltb-eq-false, ==_iff, Bool-cases, ℕ, zero, suc, ◌+◌, ◌/◌,
  ◌%◌, ◌≤◌, ◌<◌, ◌≡◌, refl, sym, ap, ◌∙◌, inl, inr, Bool, true, false, ◌&&◌, [], ◌∷◌, ◌++◌,
  append_assoc, append-nil, arith,
}
use lali_rpc_frame.Base.Int.{ℤ, pos, negsuc}
use lali_rpc_frame.Base.Decimal.{decimal_loop, to_decimal}
use lali_rpc_frame.Log.Stream.{
  digit_at, negated, quot10, rem10, is_zero, convert_loop, reverse, convert,
}

-- The decimal text of an integer, with a sign where it is negative.
abbrev pub text_of : ℤ → Bytes
text_of (pos n) = to_decimal n
text_of (negsuc n) = b'-' ∷ to_decimal (suc n)

reverse-append : (xs ys : Bytes) → reverse (xs ++ ys) ≡ reverse ys ++ reverse xs
unfolding reverse
reverse-append [] ys = sym (append-nil (reverse ys))
reverse-append (x ∷ xs) ys =
    ap (λ l. l ++ x ∷ []) (reverse-append xs ys) ∙ append_assoc (reverse ys) (reverse xs) (x ∷ [])

-- A test that holds below a bound, checked by evaluation.
all_below : ℕ → (ℕ → Bool) → Bool
all_below zero p = true
all_below (suc n) p = all_below n p && p n

all_below_sound : (n : ℕ) (p : ℕ → Bool) (d : ℕ) → all_below n p ≡ true → d < n → p d ≡ true
unfolding all_below
all_below_sound zero p d h k = absurd (omega arith)
all_below_sound (suc n) p d h k = ground (arith, all_below_sound n p d)

-- The digit of a remainder, whatever its sign.
digit-pos : (d : ℕ) → d < 10 → digit_at (pos d) ≡ 48 + d
unfolding digit_at all_below
digit-pos d h =
    (==_iff (digit_at (pos d)) (48 + d)).0
      (all_below_sound 10 (λ n. digit_at (pos n) == 48 + n) d refl h)

digit-negated : (d : ℕ) → d < 10 → digit_at (negated d) ≡ 48 + d
unfolding digit_at all_below
digit-negated d h =
    (==_iff (digit_at (negated d)) (48 + d)).0
      (all_below_sound 10 (λ n. digit_at (negated n) == 48 + n) d refl h)

-- The loop on a magnitude.
unsigned_loop : ℕ → ℕ → Bytes
unsigned_loop zero n = []
unsigned_loop (suc fuel) n =
    let more = unsigned_loop fuel (n / 10) in (48 + n % 10) ∷ (if n / 10 == 0 then [] else more)

convert_loop-pos : (fuel n : ℕ) → convert_loop fuel (pos n) ≡ unsigned_loop fuel n
unfolding convert_loop quot10 rem10 unsigned_loop
convert_loop-pos zero n = refl
convert_loop-pos (suc fuel) n =
    rw (digit-pos (n % 10) (omega arith)) (rw (convert_loop-pos fuel (n / 10)) refl)

quot10-negated : (n : ℕ) → quot10 (negated n) ≡ negated (n / 10)
unfolding quot10
quot10-negated zero = refl
quot10-negated (suc n) = refl

rem10-negated : (n : ℕ) → rem10 (negated n) ≡ negated (n % 10)
unfolding rem10
rem10-negated zero = refl
rem10-negated (suc n) = refl

is_zero-negated : (n : ℕ) → is_zero (negated n) ≡ (n == 0)
is_zero-negated zero = refl
is_zero-negated (suc n) = ground arith

convert_loop-negated : (fuel n : ℕ) → convert_loop fuel (negated n) ≡ unsigned_loop fuel n
unfolding convert_loop unsigned_loop
convert_loop-negated zero n = refl
convert_loop-negated (suc fuel) n = rw (quot10-negated n) (
    rw (rem10-negated n) (
      rw (digit-negated (n % 10) (omega arith))
        (rw (is_zero-negated (n / 10)) (rw (convert_loop-negated fuel (n / 10)) refl))))

tens_zero : (n : ℕ) → ltb n 10 ≡ true → ((n / 10 == 0) ≡ true) × (n % 10 ≡ n)
tens_zero n h =
    let small : n < 10 = ltb→lt n 10 h in ((==_iff (n / 10) 0).1 (omega arith), omega arith)

tens_left : (n : ℕ) → ltb n 10 ≡ false → (n / 10 == 0) ≡ false
tens_left n h = let big : 10 ≤ n = ltb-eq-false n 10 h in ground arith

reverse-unsigned_loop : (fuel n : ℕ) → reverse (unsigned_loop fuel n) ≡ decimal_loop fuel n
unfolding unsigned_loop reverse decimal_loop
reverse-unsigned_loop zero n = refl
reverse-unsigned_loop (suc fuel) n = elim (Bool-cases (ltb n 10)) [
  | inl small ↦ let (last, same) = tens_zero n small in rw small (rw last (rw same refl))
  | inr big ↦ rw big (
      rw (tens_left n big)
        (ap (λ l. l ++ (48 + n % 10) ∷ []) (reverse-unsigned_loop fuel (n / 10))))
]

-- The conversion gives the decimal text of the integer.
pub convert-text : (value : ℤ) → convert value ≡ text_of value
unfolding convert reverse to_decimal
convert-text (pos n) =
    rw (append-nil (convert_loop (suc n) (pos n)))
      (rw (convert_loop-pos (suc n) n) (reverse-unsigned_loop (suc n) n))
convert-text (negsuc n) = rw (reverse-append (convert_loop (suc (suc n)) (negsuc n)) (b'-' ∷ [])) (
    ap (λ l. b'-' ∷ reverse l) (convert_loop-negated (suc (suc n)) (suc n))
    ∙ ap (λ l. b'-' ∷ l) (reverse-unsigned_loop (suc (suc n)) (suc n)))
