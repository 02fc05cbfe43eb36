-- ===== src/Net/Http/Respond.antt =====
-- LALI/net/HttpRespond.h and HttpRespond.cpp: the response and its text.
use lali_rpc_frame.Base.{Bytes, codes, if◌then◌else◌, length, take, ℕ, Bool, List, [], ◌∷◌, ◌++◌}
use lali_rpc_frame.Base.Dict.{assign}
use lali_rpc_frame.Base.Decimal.{to_decimal}
use lali_rpc_frame.Net.Buffer.{Buffer, append}

pub record HttpRespond : Type 0 where
  pub headers : List (Bytes × Bytes)
  pub status : ℕ
  pub status_message : Bytes
  pub body : Bytes
  pub close_connection : Bool

-- The constructor's `rUnknown` stands behind `r400BadRequest = 400` in its enumeration.
abbrev pub unknown_status : ℕ
unknown_status = 401

abbrev pub new_respond : Bool → HttpRespond
new_respond close = record {
  headers = [];
  status = unknown_status;
  status_message = [];
  body = [];
  close_connection = close;
}

unfoldable pub add_header : Bytes → Bytes → HttpRespond → HttpRespond
add_header name value r = record r { headers = assign name value r.headers }

-- What snprintf leaves in the 32 bytes of `buf`, the last of which ends the text.
abbrev pub in_buf : Bytes → Bytes
in_buf text = take 31 text

abbrev pub append_header : Buffer → Bytes × Bytes → Buffer
append_header b (name, value) =
    append (codes "\r\n") (append value (append (codes ": ") (append name b)))

abbrev pub append_headers : Buffer → List (Bytes × Bytes) → Buffer
append_headers b [] = b
append_headers b (h ∷ hs) = append_headers (append_header b h) hs

unfoldable pub append_to_buffer : HttpRespond → Buffer → Buffer
append_to_buffer r output =
    let status_line =
      append (in_buf (codes "HTTP/1.1 " ++ (to_decimal r.status ++ codes " "))) output in
    let message = append (codes "\r\n") (append r.status_message status_line) in
    let connection =
      if r.close_connection
      then append (codes "Connection: close\r\n") message
      else append (codes "Connection: Keep-Alive\r\n") (
          append (in_buf (codes "Content-Length: " ++ (to_decimal (length r.body) ++ codes "\r\n")))
            message) in
    append r.body (append (codes "\r\n") (append_headers connection r.headers))
