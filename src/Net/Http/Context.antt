-- ===== src/Net/Http/Context.antt =====
-- LALI/net/HttpContext.h and HttpContext.cpp: the parser of requests. Pointers into a line are
-- offsets from its start. The loop takes fuel: `none` means that it has not ended within it.
use lali_rpc_frame.Base.{
  find_byte, bytes_eq, Bytes, codes, ◌==◌, if◌then◌else◌, length, get_or, take, drop, slice, ℕ,
  zero, suc, ◌+◌, Bool, true, false, not, ◌&&◌, Option, none, some,
}
use lali_rpc_frame.Net.Buffer.{Buffer, readable, find_crlf, retrieve_until}
use lali_rpc_frame.Net.Http.Request.{
  HttpRequest, http_10, http_11, new_request, set_method, add_header,
}

pub data Part : Type 0 where
  request_line headers body end : Part

pub record HttpContext : Type 0 where
  pub request : HttpRequest
  pub part : Part

abbrev pub new_context : HttpContext
new_context = record { request = new_request; part = request_line }

unfoldable pub is_end : Part → Bool
is_end end = true
is_end _ = false

unfoldable pub parse_all : HttpContext → Bool
unfolding is_end
parse_all c = is_end c.part

unfoldable pub reset : HttpContext → HttpContext
reset c = record { request = new_request; part = request_line }

-- The last eight bytes of the line.
unfoldable pub set_version : Bytes → HttpRequest → Bool × HttpRequest
set_version text r =
    if length text == 8 && bytes_eq (take 7 text) (codes "HTTP/1.")
    then (if get_or text 7 0 == b'1'
        then (true, record r { version = http_11 })
        else if get_or text 7 0 == b'0'
        then (true, record r { version = http_10 })
        else (false, r))
    else (false, r)

-- The path, and behind a question mark, which it keeps, the query. The question mark is looked for
-- from the start of the line.
unfoldable pub set_target : Bytes → ℕ → ℕ → HttpRequest → HttpRequest
set_target line begin space r =
    let question = find_byte b'?' (take space line) in
    if question == space
    then record r { path = slice begin space line }
    else record r { path = slice begin question line; query = slice question space line }

-- `partOnRequestLine`: the line without its line end.
unfoldable pub part_on_request_line : Bytes → HttpRequest → Bool × HttpRequest
unfolding set_version set_target
part_on_request_line line r =
    let space = find_byte 32 line in
    let (known, r₁) = set_method (take space line) r in
    let begin = suc space in
    let second = begin + find_byte 32 (drop begin line) in
    if space == length line
    then (false, r)
    else if not known
    then (false, r₁)
    else if second == length line
    then (false, r₁)
    else set_version (drop (suc second) line) (set_target line begin second r₁)

-- What one round of the loop does: whether the loop goes on, `right`, the context and the buffer.
pub record Round : Type 0 where
  pub again : Bool
  pub right : Bool
  pub context : HttpContext
  pub buffer : Buffer

unfoldable pub request_line_round : ℕ → Bool → HttpContext → Buffer → Round
request_line_round time right c b = elim (find_crlf b) [
  | none ↦ record { again = false; right = right; context = c; buffer = b }
  | some crlf ↦
      let (good, r) = part_on_request_line (take crlf (readable b)) c.request in
      if good
      then record {
        again = true;
        right = true;
        context = record { request = record r { receive_time = time }; part = headers };
        buffer = retrieve_until (crlf + 2) b;
      }
      else record { again = false; right = false; context = record c { request = r }; buffer = b }
]

unfoldable pub headers_round : Bool → HttpContext → Buffer → Round
headers_round right c b = elim (find_crlf b) [
  | none ↦ record { again = false; right = right; context = c; buffer = b }
  | some crlf ↦
      let line = take crlf (readable b) in
      let colon = find_byte b':' line in
      let rest = retrieve_until (crlf + 2) b in
      if colon == crlf
      then record { again = false; right = right; context = record c { part = end }; buffer = rest }
      else record {
        again = true;
        right = right;
        context = record c { request = add_header line colon c.request };
        buffer = rest;
      }
]

-- At `body`, and at `end` too, a round does nothing and the loop goes on.
unfoldable pub round : ℕ → Part → Bool → HttpContext → Buffer → Round
round time request_line right c b = request_line_round time right c b
round time headers right c b = headers_round right c b
round time body right c b = record { again = true; right = right; context = c; buffer = b }
round time end right c b = record { again = true; right = right; context = c; buffer = b }

unfoldable pub parse_loop :
    ℕ → ℕ → Bool → HttpContext → Buffer → Option (Bool × HttpContext × Buffer)
parse_loop zero time right c b = none
parse_loop (suc fuel) time right c b =
    let r = round time c.part right c b in
    let more = parse_loop fuel time r.right r.context r.buffer in
    if r.again then more else some (r.right, r.context, r.buffer)

-- `parseRequst`.
unfoldable pub parse_request : ℕ → ℕ → HttpContext → Buffer → Option (Bool × HttpContext × Buffer)
unfolding parse_loop
parse_request fuel time c b = parse_loop fuel time true c b
