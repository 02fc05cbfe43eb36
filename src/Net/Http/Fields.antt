-- ===== src/Net/Http/Fields.antt =====
-- Printed header fields, and how the headers part of LALI/net/HttpContext.cpp reads them.
use lali_rpc_frame.Base.{
  drop-append_suc, has_byte, has_byte-append, find_byte, find_byte-append, Bytes, ◌==◌, length,
  length-append, take, take-append, drop-append_ge, ℕ, zero, suc, ◌+◌, ◌<◌, ◌≡◌, refl, ◌∙◌, Bool,
  true, false, Option, some, List, [], ◌∷◌, ◌++◌, append_assoc, arith,
}
use lali_rpc_frame.Base.Dict.{assign}
use lali_rpc_frame.Net.Buffer.{Buffer, IsValid, readable, find_crlf, retrieve}
use lali_rpc_frame.Net.Buffer.Content.{retrieve-readable}
use lali_rpc_frame.Net.Buffer.Search.{crlf, search_crlf-line}
use lali_rpc_frame.Net.Http.Request.{HttpRequest, drop_spaces, drop_last_spaces, add_header}
use lali_rpc_frame.Net.Http.Context.{HttpContext, headers, end, headers_round, round, parse_loop}

-- A buffer that begins with a line.
pub record AtLine (b : Buffer) (line rest : Bytes) : Type 0 where
  pub found : find_crlf b ≡ some (length line)
  pub taken : take (length line) (readable b) ≡ line
  pub left : readable (retrieve (length line + 2) b) ≡ rest
  pub valid : IsValid (retrieve (length line + 2) b)

pub at_line :
    (b : Buffer) (line rest : Bytes)
    → IsValid b
    → readable b ≡ line ++ (crlf ++ rest)
    → has_byte 13 line ≡ false
    → AtLine b line rest
at_line b line rest v e h =
    let (content, valid) = retrieve-readable (length line + 2) b v in
    record {
      found = unfold find_crlf in rw e (search_crlf-line line rest h);
      taken = rw e (take-append line (crlf ++ rest));
      left = content ∙ rw e (drop-append_ge 2 line (crlf ++ rest));
      valid = valid;
    }

-- A header whose value the parser's trimming leaves as it is, and whose name ends at its colon.
pub record IsField (name value : Bytes) : Type 0 where
  pub no_colon : has_byte b':' name ≡ false
  pub name_line : has_byte 13 name ≡ false
  pub value_line : has_byte 13 value ≡ false
  pub front : drop_spaces value ≡ value
  pub back : drop_last_spaces value ≡ value

abbrev pub field_line : Bytes → Bytes → Bytes
field_line name value = name ++ b':' ∷ 32 ∷ value

tail_line : (value : Bytes) → has_byte 13 value ≡ false → has_byte 13 (b':' ∷ 32 ∷ value) ≡ false
unfolding has_byte
tail_line value h = h

field_line-no_cr :
    (name value : Bytes) → IsField name value → has_byte 13 (field_line name value) ≡ false
field_line-no_cr name value f =
    rw (has_byte-append 13 name (b':' ∷ 32 ∷ value)) (rw f.name_line (tail_line value f.value_line))

trimmed : (value : Bytes) → drop_spaces value ≡ value → drop_spaces (32 ∷ value) ≡ value
unfolding drop_spaces
trimmed value h = h

add-field :
    (name value : Bytes) (r : HttpRequest)
    → IsField name value
    → add_header (field_line name value) (length name) r
      ≡ record r { headers = assign name value r.headers }
unfolding add_header
add-field name value r f =
    rw (take-append name (b':' ∷ 32 ∷ value))
      (rw (drop-append_suc name (32 ∷ value) b':') (rw (trimmed value f.front) (rw f.back)))

not-at_end : (name value : Bytes) → (length name == length (field_line name value)) ≡ false
not-at_end name value = ground (arith, length-append name (b':' ∷ 32 ∷ value))

headers_round-field :
    (right : Bool) (c : HttpContext) (b : Buffer) (name value rest : Bytes)
    → IsField name value
    → AtLine b (field_line name value) rest
    → headers_round right c b ≡ record {
      again = true;
      right = right;
      context = record c {
        request = record c.request { headers = assign name value c.request.headers };
      };
      buffer = retrieve (length (field_line name value) + 2) b;
    }
unfolding headers_round
headers_round-field right c b name value rest f at =
    rw (at.found, headers_round)
      (rw at.taken (
        rw (find_byte-append b':' name (32 ∷ value) f.no_colon)
          (rw (not-at_end name value) (rw (add-field name value c.request f)))))

headers_round-blank :
    (right : Bool) (c : HttpContext) (b : Buffer) (rest : Bytes)
    → AtLine b [] rest
    → headers_round right c b ≡ record {
      again = false;
      right = right;
      context = record c { part = end };
      buffer = retrieve 2 b;
    }
unfolding headers_round find_byte
headers_round-blank right c b rest at = rw (at.found, headers_round) refl

abbrev pub Fields : Type 0
Fields = List (Bytes × Bytes)

abbrev pub AllFields : Fields → Type 0
AllFields [] = Unit {0}
AllFields ((name, value) ∷ fs) = IsField name value × AllFields fs

abbrev pub print_fields : Fields → Bytes
print_fields [] = []
print_fields ((name, value) ∷ fs) = field_line name value ++ (crlf ++ print_fields fs)

-- Fields go into the map one by one, so a later one replaces an earlier one of its name.
abbrev pub assign_all : Fields → Fields → Fields
assign_all [] m = m
assign_all ((name, value) ∷ fs) m = assign_all fs (assign name value m)

-- A run of the parser that has read a whole request.
pub record Parsed (result : Option (Bool × HttpContext × Buffer)) (right : Bool)
    (request : HttpRequest) (rest : Bytes) : Type 0 where
  pub final : Buffer
  pub reached : result ≡ some (right, record { request = request; part = end }, final)
  pub left_over : readable final ≡ rest
  pub kept : IsValid final

print_fields-first :
    (name value : Bytes) (fs : Fields) (rest : Bytes)
    → print_fields ((name, value) ∷ fs) ++ (crlf ++ rest)
      ≡ field_line name value ++ (crlf ++ (print_fields fs ++ (crlf ++ rest)))
print_fields-first name value fs rest =
    append_assoc (field_line name value) (crlf ++ print_fields fs) (crlf ++ rest)

pub parse_loop-fields :
    (fs : Fields) (fuel time : ℕ) (right : Bool) (r : HttpRequest) (b : Buffer) (rest : Bytes)
    → IsValid b
    → AllFields fs
    → readable b ≡ print_fields fs ++ (crlf ++ rest)
    → length fs < fuel
    → Parsed
        (parse_loop fuel time right (record { request = r; part = headers }) b)
        right
        (record r { headers = assign_all fs r.headers })
        rest
unfolding parse_loop round
parse_loop-fields fs zero time right r b rest v ok e h = absurd (omega arith)
parse_loop-fields [] (suc fuel) time right r b rest v ok e h =
    let at = at_line b [] rest v e (unfold has_byte in refl) in
    rw (headers_round-blank right (record { request = r; part = headers }) b rest at)
      (record { final = retrieve 2 b; reached = refl; left_over = at.left; kept = at.valid })
parse_loop-fields ((name, value) ∷ fs) (suc fuel) time right r b rest v ok e h =
    let after = print_fields fs ++ (crlf ++ rest) in
    let at =
      at_line b (field_line name value) after v (e ∙ print_fields-first name value fs rest)
        (field_line-no_cr name value ok.0) in
    rw
      (headers_round-field right (record { request = r; part = headers }) b name value after ok.0
        at)
      (parse_loop-fields fs fuel time right (record r { headers = assign name value r.headers })
        (retrieve (length (field_line name value) + 2) b) rest at.valid ok.1 at.left (omega arith))
