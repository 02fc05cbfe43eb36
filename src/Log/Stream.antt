-- ===== src/Log/Stream.antt =====
-- LALI/base/Logstream.h and Logstream.cpp: a buffer of fixed size, and the stream that prints into it.
-- `storage` is the array `data_`, so its length is `SIZE`, and `cur` is the offset of `cur_`.
pub mod Convert
pub mod Fit
mod Tests
use lali_rpc_frame.Base.{
  [], copy_to, find_byte, Bytes, codes, ltb, leb, ◌==◌, if◌then◌else◌, length, get_or, take,
  replicate, ℕ, zero, suc, ◌+◌, ◌-◌, ◌/◌, ◌%◌, Bool, true, false, Option, none, some, List, ◌∷◌,
  ◌++◌,
}
use lali_rpc_frame.Base.Int.{ℤ, pos, negsuc}

pub record FixedBuffer : Type 0 where
  pub storage : Bytes
  pub cur : ℕ

abbrev pub small_size : ℕ
small_size = 4000

abbrev pub large_size : ℕ
large_size = 4000000

unfoldable pub new_buffer : ℕ → FixedBuffer
new_buffer size = record { storage = replicate size 0; cur = 0 }

unfoldable pub avail : FixedBuffer → ℕ
avail b = length b.storage - b.cur

-- A text that does not fit is dropped.
unfoldable pub append : Bytes → FixedBuffer → FixedBuffer
append text b =
    if ltb (length text) (avail b)
    then record { storage = copy_to b.cur text b.storage; cur = b.cur + length text }
    else b

unfoldable pub add : ℕ → FixedBuffer → FixedBuffer
add len b = record b { cur = b.cur + len }

unfoldable pub reset : FixedBuffer → FixedBuffer
reset b = record b { cur = 0 }

unfoldable pub bzero : FixedBuffer → FixedBuffer
bzero b = record b { storage = replicate (length b.storage) 0 }

-- The bytes from `data()` on, `length()` of them.
unfoldable pub contents : FixedBuffer → Bytes
contents b = take b.cur b.storage

-- The bytes up to the first zero, as std::string reads them from `data_`.
unfoldable pub to_string : FixedBuffer → Bytes
to_string b = take (find_byte 0 b.storage) b.storage

-- The array `digits`; `zero` stands at its offset 9.
abbrev pub digits : Bytes
digits = codes "9876543210123456789"

unfoldable pub digit_at : ℤ → ℕ
digit_at (pos n) = get_or digits (9 + n) 0
digit_at (negsuc n) = get_or digits (8 - n) 0

-- C++ rounds a quotient towards zero, and the remainder has the sign of the number.
abbrev pub negated : ℕ → ℤ
negated zero = pos 0
negated (suc n) = negsuc n

unfoldable pub quot10 : ℤ → ℤ
quot10 (pos n) = pos (n / 10)
quot10 (negsuc n) = negated (suc n / 10)

unfoldable pub rem10 : ℤ → ℤ
rem10 (pos n) = pos (n % 10)
rem10 (negsuc n) = negated (suc n % 10)

abbrev pub is_zero : ℤ → Bool
is_zero (pos n) = n == 0
is_zero (negsuc n) = false

abbrev pub is_negative : ℤ → Bool
is_negative (pos n) = false
is_negative (negsuc n) = true

abbrev pub magnitude : ℤ → ℕ
magnitude (pos n) = n
magnitude (negsuc n) = suc n

-- The `do` loop, on fuel: the digits, the last one first.
unfoldable pub convert_loop : ℕ → ℤ → Bytes
convert_loop zero i = []
convert_loop (suc fuel) i =
    let more = convert_loop fuel (quot10 i) in
    digit_at (rem10 i) ∷ (if is_zero (quot10 i) then [] else more)

unfoldable pub reverse : Bytes → Bytes
reverse [] = []
reverse (c ∷ cs) = reverse cs ++ c ∷ []

-- The text in `buf`, without its zero byte.
unfoldable pub convert : ℤ → Bytes
convert value =
    reverse
      (convert_loop (suc (magnitude value)) value ++ (if is_negative value then b'-' ∷ [] else []))

abbrev pub max_numeric_size : ℕ
max_numeric_size = 32

-- `convert` writes the text and a zero byte to `getcur()`, and `add` counts the text.
unfoldable pub write_number : Bytes → FixedBuffer → FixedBuffer
write_number text b =
    add (length text) (record b { storage = copy_to b.cur (text ++ 0 ∷ []) b.storage })

unfoldable pub format_integer : ℤ → FixedBuffer → FixedBuffer
format_integer v b = if leb max_numeric_size (avail b) then write_number (convert v) b else b

-- The operators of all integer types; a short is widened to an int first.
unfoldable pub show_integer : ℤ → FixedBuffer → FixedBuffer
show_integer v b = format_integer v b

unfoldable pub format_floating : Bytes → FixedBuffer → FixedBuffer
format_floating text b = if leb max_numeric_size (avail b) then write_number text b else b

-- What the operators `<<` print. The text of a double is what snprintf makes of it.
pub data Item : Type 0 where
  flag : Bool → Item
  integer : ℤ → Item
  floating : Bytes → Item
  character : ℕ → Item
  c_string : Option Bytes → Item
  string : Bytes → Item

unfoldable pub show : Item → FixedBuffer → FixedBuffer
show (flag v) b = append (if v then codes "1" else codes "0") b
show (integer v) b = show_integer v b
show (floating text) b = format_floating text b
show (character c) b = append (c ∷ []) b
show (c_string none) b = append (codes "(null)") b
show (c_string (some text)) b = append text b
show (string text) b = append text b

-- `Logstream::append` and `resetBuffer` are `append` and `reset` of the buffer.
unfoldable pub show_all : List Item → FixedBuffer → FixedBuffer
show_all [] b = b
show_all (item ∷ items) b = show_all items (show item b)
