-- ===== src/Zrpc/Header.antt =====
-- The frame of a message, "length\r\nbody", which LALI/zrpc/server/BaseServer.cpp and
-- LALI/zrpc/client/RpcClient.cpp write and read alike.
use lali_rpc_frame.Base.{
  Bytes, if◌then◌else◌, length, length-append, take, drop-append_ge, take-append_ge, ℕ, zero, suc,
  ◌+◌, ◌/◌, ◌%◌, ◌^◌, ◌<◌, ◌≡◌, inl, ◌&&◌, Option, none, some, [], ◌∷◌, ◌++◌, arith,
}
use lali_rpc_frame.Base.Int.{pos, pos_part, ltb_ℤ}
use lali_rpc_frame.Base.Decimal.{to_decimal, decimal_loop, has_byte-to_decimal}
use lali_rpc_frame.Net.Buffer.{Buffer, IsValid, readable, find_crlf, search_crlf, retrieve}
use lali_rpc_frame.Net.Buffer.Content.{retrieve-readable}
use lali_rpc_frame.Net.Buffer.Search.{crlf, search_crlf-line}
use lali_rpc_frame.Zrpc.Json.{Json, ReadsLength, type_int32, type_eq, type_eq_refl}

-- The number that a header line holds: `none` where it is no positive int32.
unfoldable pub header_length : Json → Bytes → Option ℕ
header_length j line = elim (j.parse line) [
  | none ↦ none
  | some v ↦
      if type_eq (j.get_type v) type_int32 && ltb_ℤ (pos 0) (j.get_int32 v)
      then some (pos_part (j.get_int32 v))
      else none
]

-- The text that `sendResponse` and `sendRequest` send for a written value.
unfoldable pub frame : Bytes → Bytes
frame body = to_decimal (length body + 2) ++ (crlf ++ (body ++ crlf))

pub header_length-frame :
    (j : Json) (n : ℕ)
    → ReadsLength j
    → 0 < n
    → n < 2 ^ 31
    → header_length j (to_decimal n ++ crlf) ≡ some n
unfolding header_length
header_length-frame j n reads p h =
    let (v, parsed, typed, valued) = reads n h in
    rw (parsed, header_length) (rw typed (rw (type_eq_refl type_int32) (rw valued (ground arith))))

length-to_decimal_pos : (n : ℕ) → 0 < length (to_decimal n)
unfolding to_decimal decimal_loop
length-to_decimal_pos n =
    ground (arith, length-append (decimal_loop n (n / 10)) ((48 + n % 10) ∷ []))

-- A buffer that begins with a frame's header.
pub record AtFrame (b : Buffer) (n : ℕ) (payload : Bytes) : Type 0 where
  pub position : ℕ
  pub found : find_crlf b ≡ some position
  pub positive : 0 < position
  pub header : take (position + 2) (readable b) ≡ to_decimal n ++ crlf
  pub content : readable (retrieve (position + 2) b) ≡ payload
  pub valid : IsValid (retrieve (position + 2) b)
  pub size : length (readable b) ≡ position + 2 + length payload

pub at_frame :
    (b : Buffer) (n : ℕ) (payload : Bytes)
    → IsValid b
    → readable b ≡ to_decimal n ++ (crlf ++ payload)
    → AtFrame b n payload
unfolding find_crlf
at_frame b n payload v e =
    let digits = to_decimal n in
    record {
      position = length digits;
      found = rw e (search_crlf-line digits payload (has_byte-to_decimal 13 n (inl (omega arith))));
      positive = length-to_decimal_pos n;
      header = rw e (take-append_ge 2 digits (crlf ++ payload));
      content =
          rw (retrieve-readable (length digits + 2) b v).0
            (rw e (drop-append_ge 2 digits (crlf ++ payload)));
      valid = (retrieve-readable (length digits + 2) b v).1;
      size = rw e (omega (arith, length-append digits (crlf ++ payload)));
    }

search_crlf-step :
    (c d : ℕ) (rest more : Bytes) (k : ℕ)
    → (search_crlf (d ∷ rest) ≡ some k → search_crlf ((d ∷ rest) ++ more) ≡ some k)
    → search_crlf (c ∷ d ∷ rest) ≡ some (suc k)
    → search_crlf (c ∷ d ∷ (rest ++ more)) ≡ some (suc k)
unfolding search_crlf
search_crlf-step c d rest more k later h = ground arith

-- More bytes behind the first line end do not change the first line.
pub search_crlf-append :
    (bytes more : Bytes) (k : ℕ) → search_crlf bytes ≡ some k → search_crlf (bytes ++ more) ≡ some k
search_crlf-append [] more k h = unfold search_crlf in cc
search_crlf-append (c ∷ []) more k h = unfold search_crlf in cc
search_crlf-append (c ∷ d ∷ rest) more zero h = unfold search_crlf in ground arith
search_crlf-append (c ∷ d ∷ rest) more (suc k) h =
    search_crlf-step c d rest more k (search_crlf-append (d ∷ rest) more k) h
