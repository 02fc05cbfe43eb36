-- ===== src/Zrpc/Json.antt =====
-- The JSON library that LALI/zrpc calls (LALI/jackson, a copy of another project's library), as far
-- as it is called: a parameter of the model.
use lali_rpc_frame.Base.{
  Bytes, codes, ℕ, ◌^◌, ◌<◌, ◌≡◌, refl, Bool, true, false, Option, some, List, ◌++◌, arith,
}
use lali_rpc_frame.Base.Int.{ℤ, pos}
use lali_rpc_frame.Base.Decimal.{to_decimal}

-- json::ValueType.
pub data ValueType : Type 0 where
  type_null type_bool type_int32 type_int64 type_double type_string type_array type_object :
      ValueType

unfoldable pub type_eq : ValueType → ValueType → Bool
type_eq type_null type_null = true
type_eq type_bool type_bool = true
type_eq type_int32 type_int32 = true
type_eq type_int64 type_int64 = true
type_eq type_double type_double = true
type_eq type_string type_string = true
type_eq type_array type_array = true
type_eq type_object type_object = true
type_eq _ _ = false

pub type_eq→eq : (s t : ValueType) → type_eq s t ≡ true → s ≡ t
unfolding type_eq
type_eq→eq type_null t h = ground arith
type_eq→eq _ t h = ground arith

pub type_eq_refl : (t : ValueType) → type_eq t t ≡ true
unfolding type_eq
type_eq_refl type_null = refl
type_eq_refl _ = refl

-- The calls. `find_member` is `none` for the end iterator, `parse` for every error; an accessor is
-- called only at its type, and `set_member` is `addMember`.
pub record Json : Type 1 where
  pub Value : Type 0
  pub get_type : Value → ValueType
  pub get_size : Value → ℕ
  pub element : Value → ℕ → Value
  pub find_member : Value → Bytes → Option Value
  pub get_object : Value → List (Value × Value)
  pub get_string : Value → Bytes
  pub get_int32 : Value → ℤ
  pub new_value : ValueType → Value
  pub of_string : Bytes → Value
  pub of_int64 : ℤ → Value
  pub add_member : Value → Bytes → Value → Value
  pub add_value : Value → Value → Value
  pub parse : Bytes → Option Value
  pub write : Value → Bytes

-- What the parser makes of the digits of an int32 and a line end: white space behind a number is
-- skipped.
abbrev pub ReadsLength : Json → Type 0
ReadsLength j =
    (n : ℕ)
    → n < 2 ^ 31
    → (v : j.Value) × (j.parse (to_decimal n ++ codes "\r\n") ≡ some v)
      × (j.get_type v ≡ type_int32)
      × (j.get_int32 v ≡ pos n)
