-- ===== src/Zrpc/Stub/Template.antt =====
-- `replaceAll` of LALI/zrpc/stub/StubGenerator.h, and templates that are filled by calls of it.
use lali_rpc_frame.Base.{
  Bytes, codes, leb, ◌==◌, if◌then◌else◌, length, take, drop, ℕ, zero, suc, ◌+◌, ◌-◌, Bool, true,
  false, ◌&&◌, Option, none, some, List, [], ◌∷◌, ◌++◌, map,
}
use Prim.Native.String.{String}

unfoldable pub starts_with : Bytes → Bytes → Bool
starts_with [] str = true
starts_with (c ∷ cs) [] = false
starts_with (c ∷ cs) (d ∷ ds) = c == d && starts_with cs ds

-- std::string::find: the offset of the first occurrence.
unfoldable pub find_text : Bytes → Bytes → Option ℕ
find_text from [] = if starts_with from [] then some 0 else none
find_text from (d ∷ ds) =
    let later = find_text from ds in
    if starts_with from (d ∷ ds) then some 0 else elim later [ none ↦ none | some k ↦ some (suc k) ]

-- std::string::replace of `n` bytes at the offset `i`.
abbrev pub replace_at : ℕ → ℕ → Bytes → Bytes → Bytes
replace_at i n to str = take i str ++ (to ++ drop (i + n) str)

-- `while (true)`, on fuel; `none` where the fuel runs out.
unfoldable pub replace_all : ℕ → Bytes → Bytes → Bytes → Option Bytes
replace_all zero str from to = none
replace_all (suc fuel) str from to = elim (find_text from str) [
  | none ↦ some str
  | some i ↦ replace_all fuel (replace_at i (length from) to str) from to
]

-- The lines of a raw string.
abbrev pub lines : List String → Bytes
lines [] = []
lines (s ∷ []) = codes s
lines (s ∷ t ∷ rest) = codes s ++ 10 ∷ lines (t ∷ rest)

infixl 5 ◌>>=◌
abbrev pub ◌>>=◌ : {A B : Type 0} → Option A → (A → Option B) → Option B
none >>= f = none
some a >>= f = f a

-- A template and the replacements made in it, in order. The fuel exceeds the number of places.
unfoldable pub fill : Bytes → List (Bytes × Bytes) → Option Bytes
fill str [] = some str
fill str ((from, to) ∷ rest) = do
  filled ← replace_all (suc (length str)) str from to
  fill filled rest

-- The concatenation of what a loop appends.
unfoldable pub append_each : {A : Type 0} → (A → Option Bytes) → List A → Option Bytes
append_each f [] = some []
append_each f (a ∷ others) = do one ← f a; rest ← append_each f others; some (one ++ rest)

abbrev upper : ℕ → ℕ
upper c = if leb 97 c && leb c 122 then c - 32 else c

-- `toupper` of each byte.
abbrev pub to_upper : Bytes → Bytes
to_upper bytes = map upper bytes
