-- ===== src/Zrpc/Sample.antt =====
-- A small JSON library, for the tests: numbers, texts, flat objects, and arrays of these.
use lali_rpc_frame.Base.{
  has_byte, has_byte-append, Bytes, codes, if◌then◌else◌, length, length-append, take, take-append,
  ℕ, zero, suc, ◌-◌, ◌≡◌, refl, inr, false, Option, none, some, List, [], ◌∷◌, ◌++◌, map, arith,
}
use lali_rpc_frame.Base.Dict.{lookup}
use lali_rpc_frame.Base.Int.{ℤ, pos, pos_part}
use lali_rpc_frame.Base.Decimal.{to_decimal, read_decimal, read-to_decimal, has_byte-to_decimal}
use lali_rpc_frame.Zrpc.Json.{
  Json, ReadsLength, ValueType, type_null, type_int32, type_string, type_array, type_object,
}

pub data Leaf : Type 0 where
  number : ℕ → Leaf
  word : Bytes → Leaf

pub data Document : Type 0 where
  null : Document
  leaf : Leaf → Document
  object : List (Bytes × Leaf) → Document
  array : List (List (Bytes × Leaf)) → Document

abbrev type_of : Document → ValueType
type_of null = type_null
type_of (leaf (number n)) = type_int32
type_of (leaf (word w)) = type_string
type_of (object members) = type_object
type_of (array items) = type_array

abbrev size_of : Document → ℕ
size_of (object members) = length members
size_of (array items) = length items
size_of _ = 0

abbrev item : List (List (Bytes × Leaf)) → ℕ → Document
item [] i = null
item (x ∷ xs) zero = object x
item (x ∷ xs) (suc i) = item xs i

abbrev element_of : Document → ℕ → Document
element_of (array items) i = item items i
element_of _ i = null

abbrev member_of : Document → Bytes → Option Document
member_of (object members) key = elim (lookup key members) [ none ↦ none | some v ↦ some (leaf v) ]
member_of _ key = none

abbrev members_of : Document → List (Document × Document)
members_of (object members) = map (λ m. (leaf (word m.0), leaf m.1)) members
members_of _ = []

abbrev string_of : Document → Bytes
string_of (leaf (word w)) = w
string_of _ = []

abbrev number_of : Document → ℤ
number_of (leaf (number n)) = pos n
number_of _ = pos 0

abbrev with_member : Document → Bytes → Document → Document
with_member (object members) key (leaf v) = object (members ++ (key, v) ∷ [])
with_member d key v = d

abbrev with_value : Document → Document → Document
with_value (array items) (object members) = array (items ++ members ∷ [])
with_value d v = d

abbrev empty_of : ValueType → Document
empty_of type_array = array []
empty_of type_object = object []
empty_of _ = null

-- {"id": 7, "jsonrpc": "2.0", "method": "Math.zero"}
abbrev pub call : Document
call = object (
    (codes "id", number 7)
    ∷ (codes "jsonrpc", word (codes "2.0"))
    ∷ (codes "method", word (codes "Math.zero"))
    ∷ [])

-- {"id": 7, "jsonrpc": "2.0", "result": 5}
abbrev pub answer : Document
answer = object (
    (codes "id", number 7)
    ∷ (codes "jsonrpc", word (codes "2.0"))
    ∷ (codes "result", number 5)
    ∷ [])

-- A text with a brace is taken for the call or, with a bracket before it, for the answer, any other one
-- for a number and a line end.
unfoldable pub parse_sample : Bytes → Option Document
parse_sample bytes =
    if has_byte b'{' bytes
    then some (if has_byte b'[' bytes then answer else call)
    else some (leaf (number (read_decimal 0 (take (length bytes - 2) bytes))))

-- A request has a method, a response has none.
abbrev pub write_sample : Document → Bytes
write_sample d = elim (member_of d (codes "method")) [ none ↦ codes "[{}]" | some v ↦ codes "{}" ]

abbrev pub sample : Json
sample = record {
  Value = Document;
  get_type = type_of;
  get_size = size_of;
  element = element_of;
  find_member = member_of;
  get_object = members_of;
  get_string = string_of;
  get_int32 = number_of;
  new_value = empty_of;
  of_string = λ s. leaf (word s);
  of_int64 = λ n. leaf (number (pos_part n));
  add_member = with_member;
  add_value = with_value;
  parse = parse_sample;
  write = write_sample;
}

plain : (n : ℕ) → has_byte b'{' (to_decimal n ++ 13 ∷ 10 ∷ []) ≡ false
unfolding has_byte
plain n =
    rw (has_byte-append b'{' (to_decimal n) (13 ∷ 10 ∷ []))
      (rw (has_byte-to_decimal b'{' n (inr (omega arith))) refl)

digits :
    (n : ℕ)
    → take (length (to_decimal n ++ 13 ∷ 10 ∷ []) - 2) (to_decimal n ++ 13 ∷ 10 ∷ []) ≡ to_decimal n
digits n =
    let size : length (to_decimal n ++ 13 ∷ 10 ∷ []) - 2 ≡ length (to_decimal n) =
      omega (arith, length-append (to_decimal n) (13 ∷ 10 ∷ [])) in
    rw size (take-append (to_decimal n) (13 ∷ 10 ∷ []))

pub sample-ReadsLength : ReadsLength sample
unfolding parse_sample
sample-ReadsLength n h = (
  leaf (number n),
  rw (plain n, parse_sample) (rw (digits n) (rw (read-to_decimal n) refl)),
  refl,
  refl,
)
