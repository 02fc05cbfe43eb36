-- ===== src/Base/Decimal.antt =====
-- Decimal text of a number: std::to_string, and "%d" and "%zd" of snprintf, for numbers that are
-- not negative.
use Prim.Native.Nat.{ℕ, zero, suc, ◌+◌, ◌-◌, ◌*◌, ◌/◌, ◌%◌, ◌<◌}
use mathlib.Core.Path.{◌≡◌, refl}
use mathlib.Core.Bool.{false}
use mathlib.Core.Logic.{◌⊎◌, inl, inr}
use mathlib.Core.List.{[], ◌∷◌, ◌++◌}
use native.Mathlib.Omega.{arith}
use lali_rpc_frame.Base.Tests.{ltb, if◌then◌else◌, Bool-cases, ltb-eq-false}
use lali_rpc_frame.Base.Text.{Bytes, has_byte, has_byte-append}

-- The fuel is more than the number itself, which is more than its digits.
unfoldable pub decimal_loop : ℕ → ℕ → Bytes
decimal_loop zero n = []
decimal_loop (suc f) n =
    let more = decimal_loop f (n / 10) ++ (48 + n % 10) ∷ [] in
    if ltb n 10 then (48 + n) ∷ [] else more

unfoldable pub to_decimal : ℕ → Bytes
unfolding decimal_loop
to_decimal n = decimal_loop (suc n) n

-- The number that a text of digits stands for, after `acc`.
unfoldable pub read_decimal : ℕ → Bytes → ℕ
read_decimal acc [] = acc
read_decimal acc (d ∷ ds) = read_decimal (acc * 10 + (d - 48)) ds

read_decimal-append :
    (acc : ℕ) (ds es : Bytes) → read_decimal acc (ds ++ es) ≡ read_decimal (read_decimal acc ds) es
unfolding read_decimal
read_decimal-append acc [] es = refl
read_decimal-append acc (d ∷ ds) es = read_decimal-append (acc * 10 + (d - 48)) ds es

read-decimal_loop : (f n : ℕ) → n < f → read_decimal 0 (decimal_loop f n) ≡ n
unfolding decimal_loop
read-decimal_loop zero n h = absurd (omega arith)
read-decimal_loop (suc f) n h = elim (Bool-cases (ltb n 10)) [
  | inl small ↦ rw small (unfold read_decimal in omega arith)
  | inr big ↦
      let tens = read-decimal_loop f (n / 10) (omega (arith, ltb-eq-false n 10 big)) in
      rw big (
        rw (read_decimal-append 0 (decimal_loop f (n / 10)) ((48 + n % 10) ∷ []))
          (rw tens (unfold read_decimal in omega arith)))
]

-- Printing and reading a number gives the number.
pub read-to_decimal : (n : ℕ) → read_decimal 0 (to_decimal n) ≡ n
unfolding to_decimal
read-to_decimal n = read-decimal_loop (suc n) n (omega arith)

-- The text has digits only, so it lacks every byte that is none.
pub has_byte-decimal_loop :
    (c f n : ℕ) → (c < 48) ⊎ (57 < c) → has_byte c (decimal_loop f n) ≡ false
unfolding decimal_loop has_byte
has_byte-decimal_loop c zero n h = refl
has_byte-decimal_loop c (suc f) n h = ground (
  arith,
  has_byte-append c (decimal_loop f (n / 10)) ((48 + n % 10) ∷ []),
  has_byte-decimal_loop c f (n / 10),
)

pub has_byte-to_decimal : (c n : ℕ) → (c < 48) ⊎ (57 < c) → has_byte c (to_decimal n) ≡ false
unfolding to_decimal
has_byte-to_decimal c n h = has_byte-decimal_loop c (suc n) n h
