-- ===== src/Net/Http/Request.antt =====
-- LALI/net/HttpRequst.h. A time is a number of microseconds.
use lali_rpc_frame.Base.{
  bytes_eq, Bytes, codes, leb, ◌==◌, if◌then◌else◌, take, drop, ℕ, suc, Bool, true, false, ◌&&◌,
  ◌||◌, none, some, List, [], ◌∷◌,
}
use mathlib.Core.List.{reverse}
use lali_rpc_frame.Base.Dict.{assign, lookup}

pub data Method : Type 0 where
  get post head put delete invalid : Method

pub data Version : Type 0 where
  http_10 http_11 unknown : Version

pub record HttpRequest : Type 0 where
  pub method : Method
  pub version : Version
  pub path : Bytes
  pub query : Bytes
  pub receive_time : ℕ
  pub headers : List (Bytes × Bytes)

abbrev pub new_request : HttpRequest
new_request = record {
  method = invalid;
  version = unknown;
  path = [];
  query = [];
  receive_time = 0;
  headers = [];
}

-- The comparisons of `setMethod`, in their order.
unfoldable pub method_of : Bytes → Method
method_of text =
    if bytes_eq text (codes "GET")
    then get
    else if bytes_eq text (codes "POST")
    then post
    else if bytes_eq text (codes "HEAD")
    then head
    else if bytes_eq text (codes "PUT")
    then put
    else if bytes_eq text (codes "DELETE")
    then delete
    else invalid

unfoldable pub is_valid_method : Method → Bool
is_valid_method invalid = false
is_valid_method _ = true

unfoldable pub set_method : Bytes → HttpRequest → Bool × HttpRequest
unfolding method_of is_valid_method
set_method text r = (is_valid_method (method_of text), record r { method = method_of text })

-- `methodToString` builds this text, but has no return statement.
unfoldable pub method_text : Method → Bytes
method_text get = codes "GET"
method_text post = codes "POST"
method_text put = codes "PUT"
method_text head = codes "HEAD"
method_text delete = codes "DELETE"
method_text invalid = codes "Invalid"

-- isspace of the C locale.
unfoldable pub is_space : ℕ → Bool
is_space c = c == 32 || (leb 9 c && leb c 13)

unfoldable pub drop_spaces : Bytes → Bytes
unfolding is_space
drop_spaces [] = []
drop_spaces (c ∷ cs) = let rest = drop_spaces cs in if is_space c then rest else c ∷ cs

-- Spaces are taken off the end one by one.
unfoldable pub drop_last_spaces : Bytes → Bytes
unfolding drop_spaces
drop_last_spaces value = reverse (drop_spaces (reverse value))

-- The line holds a colon at the offset `colon`.
unfoldable pub add_header : Bytes → ℕ → HttpRequest → HttpRequest
add_header line colon r = record r {
  headers =
      assign (take colon line) (drop_last_spaces (drop_spaces (drop (suc colon) line))) r.headers;
}

-- A missing header is the empty string.
unfoldable pub get_header : Bytes → HttpRequest → Bytes
get_header name r = elim (lookup name r.headers) [ none ↦ [] | some value ↦ value ]
