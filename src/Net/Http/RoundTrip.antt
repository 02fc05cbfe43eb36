-- ===== src/Net/Http/RoundTrip.antt =====
-- A whole printed request, parsed by LALI/net/HttpContext.cpp and answered by HttpServer.cpp.
use lali_rpc_frame.Base.{
  Bytes, length, ℕ, zero, suc, ◌+◌, ◌<◌, ◌≡◌, refl, ap, ◌∙◌, subst, true, Option, none, some, [],
  ◌++◌, append_assoc, arith,
}
use lali_rpc_frame.Net.Buffer.{search_crlf, Buffer, IsValid, readable, find_crlf, retrieve}
use lali_rpc_frame.Net.Buffer.Search.{crlf}
use lali_rpc_frame.Net.Http.Request.{HttpRequest, Method, Version, new_request}
use lali_rpc_frame.Net.Http.Context.{
  HttpContext, headers, headers_round, new_context, request_line_round, round, parse_loop,
  parse_request, parse_all,
}
use lali_rpc_frame.Net.Http.Fields.{
  AtLine, at_line, Fields, AllFields, print_fields, assign_all, Parsed, parse_loop-fields,
}
use lali_rpc_frame.Net.Http.RequestLine.{
  IsKnownMethod, IsKnownVersion, IsTarget, set_query, request_line_text, part_on-text,
  request_line_text-no_cr,
}
use lali_rpc_frame.Net.Http.Server.{HttpCallback, on_request, on_message}

-- What a client sends.
pub record Message : Type 0 where
  pub method : Method
  pub path : Bytes
  pub query : Option Bytes
  pub version : Version
  pub fields : Fields

abbrev pub print : Message → Bytes
print m =
    request_line_text m.method m.path m.query m.version ++ (crlf ++ (print_fields m.fields ++ crlf))

pub record IsMessage (m : Message) : Type 0 where
  pub known_method : IsKnownMethod m.method
  pub target : IsTarget m.path m.query
  pub known_version : IsKnownVersion m.version
  pub all_fields : AllFields m.fields

-- The request that the message stands for.
abbrev pub request_of : ℕ → Message → HttpRequest
request_of time m = record (set_query m.query (record new_request { method = m.method })) {
  path = m.path;
  version = m.version;
  receive_time = time;
  headers = assign_all m.fields [];
}

-- The context behind the request line.
abbrev line_context : ℕ → Message → HttpContext
line_context time m = record {
  request = record (set_query m.query (record new_request { method = m.method })) {
    path = m.path;
    version = m.version;
    receive_time = time;
  };
  part = headers;
}

line_round :
    (time : ℕ) (b : Buffer) (m : Message) (rest : Bytes)
    → IsMessage m
    → AtLine b (request_line_text m.method m.path m.query m.version) rest
    → request_line_round time true new_context b ≡ record {
      again = true;
      right = true;
      context = line_context time m;
      buffer = retrieve (length (request_line_text m.method m.path m.query m.version) + 2) b;
    }
unfolding request_line_round
line_round time b m rest ok at =
    rw (at.found, request_line_round)
      (rw at.taken (
        rw (
          part_on-text m.method m.path m.query m.version new_request ok.known_method ok.target
            ok.known_version)))

print_parts :
    (first fields rest : Bytes)
    → (first ++ (crlf ++ (fields ++ crlf))) ++ rest ≡ first ++ (crlf ++ (fields ++ (crlf ++ rest)))
print_parts first fields rest =
    append_assoc first (crlf ++ (fields ++ crlf)) rest
    ∙ ap (λ l. first ++ (crlf ++ l)) (append_assoc fields crlf rest)

set_query-headers : (q : Option Bytes) (r : HttpRequest) → (set_query q r).headers ≡ r.headers
set_query-headers none r = refl
set_query-headers (some q) r = refl

-- A well-formed printed request at the front of a valid buffer, with more fuel than it has header
-- fields and one, is parsed to the request that it stands for, and what follows it stays in the buffer.
pub parse_request-print :
    (fuel time : ℕ) (m : Message) (b : Buffer) (rest : Bytes)
    → IsMessage m
    → IsValid b
    → readable b ≡ print m ++ rest
    → length m.fields + 1 < fuel
    → Parsed (parse_request fuel time new_context b) true (request_of time m) rest
unfolding parse_request parse_loop round
parse_request-print zero time m b rest ok v e h = absurd (omega arith)
parse_request-print (suc fuel) time m b rest ok v e h =
    let first = request_line_text m.method m.path m.query m.version in
    let after = print_fields m.fields ++ (crlf ++ rest) in
    let at =
      at_line b first after v (e ∙ print_parts first (print_fields m.fields) rest)
        (request_line_text-no_cr m.method m.path m.query m.version ok.target) in
    rw (line_round time b m after ok at) (
      subst
        (λ hs.
          Parsed (parse_loop fuel time true (line_context time m) (retrieve (length first + 2) b))
            true (record (line_context time m).request { headers = assign_all m.fields hs }) rest)
        (set_query-headers m.query (record new_request { method = m.method }))
        (parse_loop-fields m.fields fuel time true (line_context time m).request
          (retrieve (length first + 2) b) rest at.valid ok.all_fields at.left (omega arith)))

-- A valid buffer that begins with a well-formed printed request, with more fuel than the request has
-- header fields and one, makes the server answer it as its callback says, and what follows the request
-- is left in the buffer.
pub on_message-print :
    (fuel : ℕ) (callback : HttpCallback) (now : ℕ) (m : Message) (b : Buffer) (rest : Bytes)
    → IsMessage m
    → IsValid b
    → readable b ≡ print m ++ rest
    → length m.fields + 1 < fuel
    → (after : Buffer) × (on_message fuel callback now b
        ≡ some (on_request callback (request_of now m), after))
      × (readable after ≡ rest)
unfolding on_message parse_all
on_message-print fuel callback now m b rest ok v e h =
    let parsed = parse_request-print fuel now m b rest ok v e h in
    (parsed.final, rw (parsed.reached, on_message), parsed.left_over)

parse_request-cut :
    (fuel now : ℕ) (m : Message) (b : Buffer)
    → IsMessage m
    → 1 < fuel
    → AtLine b (request_line_text m.method m.path m.query m.version) []
    → parse_request fuel now new_context b
      ≡ some (
        true,
        line_context now m,
        retrieve (length (request_line_text m.method m.path m.query m.version) + 2) b,
      )
unfolding parse_request parse_loop round headers_round
parse_request-cut zero now m b ok h at = absurd (omega arith)
parse_request-cut (suc zero) now m b ok h at = absurd (omega arith)
parse_request-cut (suc (suc fuel)) now m b ok h at =
    let first = request_line_text m.method m.path m.query m.version in
    let empty : find_crlf (retrieve (length first + 2) b) ≡ none =
      unfold find_crlf in rw at.left (unfold search_crlf in refl) in
    rw (line_round now b m [] ok at) (rw (empty, headers_round))

-- A valid buffer that holds the request line of a well-formed request and nothing behind it is
-- consumed, with two rounds of fuel or more: the server answers nothing and no byte is left.
pub on_message-cut :
    (fuel : ℕ) (callback : HttpCallback) (now : ℕ) (m : Message) (b : Buffer)
    → IsMessage m
    → IsValid b
    → readable b ≡ request_line_text m.method m.path m.query m.version ++ (crlf ++ [])
    → 1 < fuel
    → (after : Buffer) × (on_message fuel callback now b ≡ some ([], after)) × (readable after ≡ [])
unfolding on_message parse_all
on_message-cut fuel callback now m b ok v e h =
    let first = request_line_text m.method m.path m.query m.version in
    let at =
      at_line b first [] v e
        (request_line_text-no_cr m.method m.path m.query m.version ok.target) in
    (
      retrieve (length first + 2) b,
      rw (parse_request-cut fuel now m b ok h at, on_message),
      at.left,
    )
