-- ===== src/Net/Buffer/Search.antt =====
-- The search for a line end, `findCRLF` of LALI/net/Buffer.h.
use lali_rpc_frame.Base.{
  has_byte, Bytes, ◌==◌, length, take, drop, ℕ, zero, suc, ◌≤◌, ◌≡◌, refl, ap, Bool, true, false,
  ◌&&◌, none, some, [], ◌∷◌, ◌++◌, arith,
}
use lali_rpc_frame.Net.Buffer.{search_crlf}

abbrev pub crlf : Bytes
crlf = 13 ∷ 10 ∷ []

abbrev is_crlf : ℕ → ℕ → Bool
is_crlf c d = c == 13 && d == 10

search-here : (c d : ℕ) (rest : Bytes) → is_crlf c d ≡ true → search_crlf (c ∷ d ∷ rest) ≡ some 0
unfolding search_crlf
search-here c d rest h = rw h

search-later :
    (c d : ℕ) (rest : Bytes)
    → is_crlf c d ≡ false
    → search_crlf (c ∷ d ∷ rest)
      ≡ elim (search_crlf (d ∷ rest)) [ none ↦ none | some k ↦ some (suc k) ]
unfolding search_crlf
search-later c d rest h = rw h

search_later_parts :
    (c d : ℕ) (rest : Bytes) (k : ℕ)
    → search_crlf (c ∷ d ∷ rest) ≡ some (suc k)
    → (is_crlf c d ≡ false) × (search_crlf (d ∷ rest) ≡ some k)
unfolding search_crlf
search_later_parts c d rest k h = ground arith

-- A hit at `k` is a line end that stands whole within the bytes, and what precedes it, its first
-- byte included, holds none.
pub search_crlf_sound :
    (bytes : Bytes) (k : ℕ)
    → search_crlf bytes ≡ some k
    → (bytes ≡ take k bytes ++ (crlf ++ drop (suc (suc k)) bytes))
      × (suc (suc k) ≤ length bytes)
      × (search_crlf (take (suc k) bytes) ≡ none)
search_crlf_sound [] k h = unfold search_crlf in cc
search_crlf_sound (c ∷ []) k h = unfold search_crlf in cc
search_crlf_sound (c ∷ d ∷ rest) zero h = unfold search_crlf in ground arith
search_crlf_sound (c ∷ d ∷ rest) (suc k) h =
    let (miss, found) = search_later_parts c d rest k h in
    let (split, room, before) = search_crlf_sound (d ∷ rest) k found in
    (ap (λ l. c ∷ l) split, omega arith, rw (search-later c d (take k rest) miss) (rw before))

-- A line without a carriage return ends at the first line end behind it.
pub search_crlf-line :
    (line rest : Bytes)
    → has_byte 13 line ≡ false
    → search_crlf (line ++ (crlf ++ rest)) ≡ some (length line)
unfolding search_crlf has_byte
search_crlf-line [] rest h = refl
search_crlf-line (c ∷ []) rest h = ground arith
search_crlf-line (c ∷ d ∷ line) rest h = ground (arith, search_crlf-line (d ∷ line) rest)
