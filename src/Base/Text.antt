-- ===== src/Base/Text.antt =====
-- Bytes as numbers, and the searches that the sources make with std::find and std::search.
use Prim.Native.Nat.{ℕ, suc, ◌+◌, ◌≤◌}
use Prim.Native.Char.{code}
use Prim.Native.String.{String}
use mathlib.Core.Bool.{Bool, true, false, ◌&&◌, ◌||◌}
use mathlib.Core.List.{List, [], ◌∷◌, ◌++◌}
use lali_rpc_frame.Base.Tests.{◌==◌, if◌then◌else◌}
use lali_rpc_frame.Base.Lists.{
  length, take, drop, length-append, length-take, length-drop, take-append, take-append_ge,
}
use mathlib.Core.Path.{◌≡◌, refl, sym, ap, ◌∙◌, subst}
use native.Mathlib.Omega.{arith}

abbrev pub Bytes : Type 0
Bytes = List ℕ

-- The bytes of an ASCII text.
abbrev pub codes : String → Bytes
codes String.[] = []
codes (String.◌∷◌ c s) = code c ∷ codes s

-- Equality of byte strings, std::string::operator==.
unfoldable pub bytes_eq : Bytes → Bytes → Bool
bytes_eq [] [] = true
bytes_eq [] (b ∷ bs) = false
bytes_eq (a ∷ as') [] = false
bytes_eq (a ∷ as') (b ∷ bs) = a == b && bytes_eq as' bs

-- Whether a byte occurs.
unfoldable pub has_byte : ℕ → Bytes → Bool
has_byte c [] = false
has_byte c (d ∷ ds) = d == c || has_byte c ds

pub has_byte-append :
    (c : ℕ) (xs ys : Bytes) → has_byte c (xs ++ ys) ≡ (has_byte c xs || has_byte c ys)
unfolding has_byte
has_byte-append c [] ys = refl
has_byte-append c (x ∷ xs) ys = ground (arith, has_byte-append c xs ys)

-- std::find: the offset of the first occurrence, the length if there is none.
unfoldable pub find_byte : ℕ → Bytes → ℕ
find_byte c [] = 0
find_byte c (d ∷ ds) = if d == c then 0 else suc (find_byte c ds)

-- A text without the byte, before the byte.
pub find_byte-append :
    (c : ℕ) (xs ys : Bytes) → has_byte c xs ≡ false → find_byte c (xs ++ c ∷ ys) ≡ length xs
unfolding has_byte find_byte
find_byte-append c [] ys h = ground arith
find_byte-append c (x ∷ xs) ys h = ground (arith, find_byte-append c xs ys)

pub find_byte_absent : (c : ℕ) (xs : Bytes) → has_byte c xs ≡ false → find_byte c xs ≡ length xs
unfolding has_byte find_byte
find_byte_absent c [] h = refl
find_byte_absent c (x ∷ xs) h = ground (arith, find_byte_absent c xs)

pub find_byte-le : (c : ℕ) (xs : Bytes) → find_byte c xs ≤ length xs
unfolding find_byte
find_byte-le c [] = omega arith
find_byte-le c (x ∷ xs) = ground (arith, find_byte-le c xs)

pub find_byte-split :
    (c : ℕ) (xs : Bytes)
    → (find_byte c xs == length xs) ≡ false
    → xs ≡ take (find_byte c xs) xs ++ c ∷ drop (suc (find_byte c xs)) xs
unfolding find_byte
find_byte-split c [] h = cc
find_byte-split c (x ∷ xs) h = ground (arith, find_byte-split c xs)

-- std::copy and memcpy of `bytes` to the offset `i`.
abbrev pub copy_to : ℕ → Bytes → Bytes → Bytes
copy_to i bytes storage = take i storage ++ (bytes ++ drop (i + length bytes) storage)

pub length-copy_to :
    (i : ℕ) (bytes s : Bytes) → i + length bytes ≤ length s → length (copy_to i bytes s) ≡ length s
length-copy_to i bytes s h = omega (
  arith,
  length-append (take i s) (bytes ++ drop (i + length bytes) s),
  length-append bytes (drop (i + length bytes) s),
  length-take i s,
  length-drop (i + length bytes) s,
)

-- What stands before the end of a copy: the bytes before it, and the copy.
pub take-copy_to :
    (i : ℕ) (bytes s : Bytes)
    → i ≤ length s
    → take (i + length bytes) (copy_to i bytes s) ≡ take i s ++ bytes
take-copy_to i bytes s h =
    let e : i ≡ length (take i s) = omega (arith, length-take i s) in
    subst (λ k. take (k + length bytes) (copy_to i bytes s) ≡ take i s ++ bytes) (sym e)
      (take-append_ge (length bytes) (take i s) (bytes ++ drop (i + length bytes) s)
        ∙ ap (λ l. take i s ++ l) (take-append bytes (drop (i + length bytes) s)))
