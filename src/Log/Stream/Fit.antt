-- ===== src/Log/Stream/Fit.antt =====
-- What a log stream holds, and that it never writes past its array (LALI/base/Logstream.cpp).
use lali_rpc_frame.Base.{
  copy_to, length-copy_to, take-copy_to, Bytes, codes, ltb, leb, if◌then◌else◌, ltb→lt, lt→ltb,
  leb→le, Bool-cases, length, length-append, take, drop, length-take, take-append, take-append_ge,
  ℕ, zero, suc, ◌+◌, ◌-◌, ◌*◌, ◌/◌, ◌%◌, ◌^◌, ◌≤◌, ◌<◌, ◌≡◌, refl, sym, ap, ◌∙◌, subst, inl, inr,
  Bool, true, false, none, some, List, [], ◌∷◌, ◌++◌, append_assoc, append-nil, arith,
}
use lali_rpc_frame.Base.Int.{ℤ, pos, negsuc}
use lali_rpc_frame.Base.Decimal.{decimal_loop, to_decimal}
use lali_rpc_frame.Log.Stream.{
  FixedBuffer, avail, append, add, contents, magnitude, max_numeric_size, write_number,
  format_integer, show_integer, format_floating, Item, flag, integer, floating, character, c_string,
  string, show, show_all,
}
use lali_rpc_frame.Log.Stream.Convert.{text_of, convert-text}

-- The text of an item, and the room that it asks for.
abbrev pub item_text : Item → Bytes
item_text (flag v) = if v then codes "1" else codes "0"
item_text (integer v) = text_of v
item_text (floating text) = text
item_text (character c) = c ∷ []
item_text (c_string none) = codes "(null)"
item_text (c_string (some text)) = text
item_text (string text) = text

abbrev pub fits : ℕ → Item → Bool
fits room (integer v) = leb max_numeric_size room
fits room (floating text) = leb max_numeric_size room
fits room item = ltb (length (item_text item)) room

-- What a run of items leaves in an empty stream with `room` free bytes: each item whole, or, where it
-- does not fit, not at all.
abbrev pub printed : ℕ → List Item → Bytes
printed room [] = []
printed room (item ∷ items) =
    if fits room item
    then item_text item ++ printed (room - length (item_text item)) items
    else printed room items

-- A number is one of at most 64 bits, and snprintf was given 32 bytes.
abbrev pub IsPrintable : Item → Type 0
IsPrintable (integer v) = magnitude v < 2 ^ 64
IsPrintable (floating text) = length text < 32
IsPrintable item = Unit

abbrev pub ArePrintable : List Item → Type 0
ArePrintable [] = Unit
ArePrintable (item ∷ items) = IsPrintable item × ArePrintable items

abbrev ten_to : ℕ → ℕ
ten_to zero = 1
ten_to (suc k) = 10 * ten_to k

length-decimal_loop : (k fuel n : ℕ) → n < ten_to (suc k) → length (decimal_loop fuel n) ≤ suc k
unfolding decimal_loop
length-decimal_loop k zero n h = omega arith
length-decimal_loop zero (suc fuel) n h =
    let small : n < 10 = omega arith in rw (lt→ltb n 10 small) (omega arith)
length-decimal_loop (suc k) (suc fuel) n h = elim (Bool-cases (ltb n 10)) [
  | inl small ↦ rw small (omega arith)
  | inr big ↦ rw big (
      omega (
        arith,
        length-append (decimal_loop fuel (n / 10)) ((48 + n % 10) ∷ []),
        length-decimal_loop k fuel (n / 10) (omega (arith, h)),
      ))
]

length-text_of : (v : ℤ) → magnitude v < 2 ^ 64 → length (text_of v) < 32
unfolding to_decimal
length-text_of (pos n) h = omega (arith, length-decimal_loop 19 (suc n) n (omega (arith, h)))
length-text_of (negsuc n) h =
    omega (arith, length-decimal_loop 19 (suc (suc n)) (suc n) (omega (arith, h)))

-- Some byte of the array is free.
pub record IsInside (b : FixedBuffer) : Type 0 where
  pub free : b.cur < length b.storage

-- `b'` holds what `b` holds and `text` behind it, in an array of the same size.
pub record Extends (b : FixedBuffer) (text : Bytes) (b' : FixedBuffer) : Type 0 where
  pub holds : contents b' ≡ contents b ++ text
  pub size : length b'.storage ≡ length b.storage
  pub counted : b'.cur ≡ b.cur + length text
  pub inside : IsInside b'

unchanged : (b : FixedBuffer) → IsInside b → Extends b [] b
unchanged b v = record {
  holds = sym (append-nil (contents b));
  size = refl;
  counted = omega arith;
  inside = v;
}

pub append-Extends :
    (text : Bytes) (b : FixedBuffer)
    → IsInside b
    → ltb (length text) (avail b) ≡ true
    → Extends b text (append text b)
unfolding append avail contents
append-Extends text b v h =
    let room : length text < length b.storage - b.cur = ltb→lt (length text) (avail b) h in
    let size = length-copy_to b.cur text b.storage (omega (arith, room)) in
    rw (h, append)
      (record {
        holds = take-copy_to b.cur text b.storage (omega (arith, v.free));
        size = size;
        counted = refl;
        inside = record { free = omega (arith, size, room) };
      })

pub append-full :
    (text : Bytes) (b : FixedBuffer) → ltb (length text) (avail b) ≡ false → append text b ≡ b
unfolding append
append-full text b h = rw (h, append) refl

-- A copy of a text and more: what stands before the end of the text.
take-copy_to_text :
    (i : ℕ) (text more s : Bytes)
    → i ≤ length s
    → take (i + length text) (copy_to i (text ++ more) s) ≡ take i s ++ text
take-copy_to_text i text more s h =
    let e : i ≡ length (take i s) = omega (arith, length-take i s) in
    let rest = drop (i + length (text ++ more)) s in
    subst (λ k. take (k + length text) (copy_to i (text ++ more) s) ≡ take i s ++ text) (sym e)
      (take-append_ge (length text) (take i s) ((text ++ more) ++ rest)
        ∙ ap (λ l. take i s ++ l)
            (ap (λ l. take (length text) l) (append_assoc text more rest)
              ∙ take-append text (more ++ rest)))

write_number-Extends :
    (text : Bytes) (b : FixedBuffer)
    → IsInside b
    → length text < 32
    → leb max_numeric_size (avail b) ≡ true
    → Extends b text (write_number text b)
unfolding write_number add avail contents
write_number-Extends text b v short h =
    let room : 32 ≤ length b.storage - b.cur = leb→le 32 (avail b) h in
    let longer : length (text ++ 0 ∷ []) ≡ length text + 1 = length-append text (0 ∷ []) in
    let size = length-copy_to b.cur (text ++ 0 ∷ []) b.storage (omega (arith, room, longer)) in
    record {
      holds = take-copy_to_text b.cur text (0 ∷ []) b.storage (omega (arith, v.free));
      size = size;
      counted = refl;
      inside = record { free = omega (arith, size, room) };
    }

show-Extends :
    (item : Item) (b : FixedBuffer)
    → IsPrintable item
    → IsInside b
    → fits (avail b) item ≡ true
    → Extends b (item_text item) (show item b)
unfolding show show_integer format_integer format_floating
show-Extends (flag v) b p v' h = append-Extends (if v then codes "1" else codes "0") b v' h
show-Extends (integer v) b p v' h =
    rw (h, convert-text v) (write_number-Extends (text_of v) b v' (length-text_of v p) h)
show-Extends (floating text) b p v' h = rw h (write_number-Extends text b v' p h)
show-Extends (character c) b p v' h = append-Extends (c ∷ []) b v' h
show-Extends (c_string none) b p v' h = append-Extends (codes "(null)") b v' h
show-Extends (c_string (some text)) b p v' h = append-Extends text b v' h
show-Extends (string text) b p v' h = append-Extends text b v' h

show_full : (item : Item) (b : FixedBuffer) → fits (avail b) item ≡ false → show item b ≡ b
unfolding show show_integer format_integer format_floating
show_full (flag v) b h = append-full (if v then codes "1" else codes "0") b h
show_full (integer v) b h = rw h refl
show_full (floating text) b h = rw h refl
show_full (character c) b h = append-full (c ∷ []) b h
show_full (c_string none) b h = append-full (codes "(null)") b h
show_full (c_string (some text)) b h = append-full text b h
show_full (string text) b h = append-full text b h

Extends-trans :
    (a b c : FixedBuffer) (text more : Bytes)
    → Extends a text b
    → Extends b more c
    → Extends a (text ++ more) c
Extends-trans a b c text more h k = record {
  holds = k.holds ∙ ap (λ l. l ++ more) h.holds ∙ append_assoc (contents a) text more;
  size = k.size ∙ h.size;
  counted = omega (arith, h.counted, k.counted, length-append text more);
  inside = k.inside;
}

avail_after :
    (b b' : FixedBuffer) (text : Bytes) → Extends b text b' → avail b' ≡ avail b - length text
unfolding avail
avail_after b b' text h = omega (arith, h.size, h.counted)

-- Printing any items, with integers of 64 bits, into a stream with some free byte: the stream then
-- holds what it held and the items that fit, each whole and in order; the array keeps its size, and
-- some byte of it is still free.
pub show_all-Extends :
    (items : List Item) (b : FixedBuffer)
    → ArePrintable items
    → IsInside b
    → Extends b (printed (avail b) items) (show_all items b)
unfolding show_all
show_all-Extends [] b p v = unchanged b v
show_all-Extends (item ∷ items) b p v = elim (Bool-cases (fits (avail b) item)) [
  | inl room ↦
      let first = show-Extends item b p.0 v room in
      let rest = show_all-Extends items (show item b) p.1 first.inside in
      rw room (
        Extends-trans b (show item b) (show_all items (show item b)) (item_text item)
          (printed (avail b - length (item_text item)) items) first
          (subst (λ n. Extends (show item b) (printed n items) (show_all items (show item b)))
            (avail_after b (show item b) (item_text item) first) rest))
  | inr full ↦ rw (full, show_full item b full) (show_all-Extends items b p.1 v)
]
