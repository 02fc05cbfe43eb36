-- ===== src/Net/Http/Tests.antt =====
-- The HTTP theorems at concrete requests, and runs.
use lali_rpc_frame.Base.{
  has_byte, find_byte, bytes_eq, Bytes, codes, length, replicate, ◌+◌, ◌≡◌, refl, true, some, [],
  ◌∷◌, ◌++◌, arith,
}
use lali_rpc_frame.Base.Dict.{lookup}
use lali_rpc_frame.Base.Decimal.{to_decimal}
use lali_rpc_frame.Net.Buffer.{search_crlf, find_crlf, Buffer, IsValid, readable}
use lali_rpc_frame.Net.Http.Request.{
  get_header, set_method, method_text, drop_spaces, drop_last_spaces, get, http_11, new_request,
}
use lali_rpc_frame.Net.Http.Context.{
  parse_all, round, request_line_round, new_context, parse_request, part_on_request_line,
}
use lali_rpc_frame.Net.Http.Progress.{Ends, parse_request-Ends}
use lali_rpc_frame.Net.Http.Fields.{IsField}
use lali_rpc_frame.Net.Http.RequestLine.{IsTarget, request_line_text}
use lali_rpc_frame.Net.Http.RoundTrip.{
  Message, IsMessage, print, request_of, on_message-print, on_message-cut,
}
use lali_rpc_frame.Net.Http.Respond.{HttpRespond, new_respond}
use lali_rpc_frame.Net.Http.Server.{
  default_callback, on_request, on_message, sends, shuts_down, wants_close,
}
use lali_rpc_frame.Net.Http.Answer.{respond_text, on_request-text}

-- GET /a?b HTTP/1.1, with one header field.
abbrev sample : Message
sample = record {
  method = get;
  path = codes "/a";
  query = some (codes "b");
  version = http_11;
  fields = (codes "Host", codes "x y") ∷ [];
}

sample-IsTarget : IsTarget (codes "/a") (some (codes "b"))
unfolding has_byte
sample-IsTarget = record { no_mark = refl; no_space = refl; no_cr = refl }

sample-IsField : IsField (codes "Host") (codes "x y")
unfolding has_byte drop_spaces drop_last_spaces
sample-IsField = record {
  no_colon = refl;
  name_line = refl;
  value_line = refl;
  front = refl;
  back = refl;
}

sample-IsMessage : IsMessage sample
sample-IsMessage = record {
  known_method = tt;
  target = sample-IsTarget;
  known_version = tt;
  all_fields = (sample-IsField, tt);
}

-- A buffer that holds a text behind the prepended space.
abbrev holding : Bytes → Buffer
holding text = record {
  storage = replicate 8 0 ++ text;
  reader_index = 8;
  writer_index = 8 + length text;
}

abbrev sample_buffer : Buffer
sample_buffer = holding (print sample ++ codes "rest")

sample_buffer-IsValid : IsValid sample_buffer
unfolding method_text
sample_buffer-IsValid = record { ordered = omega arith; inside = omega arith; based = omega arith }

sample_buffer-readable : readable sample_buffer ≡ print sample ++ codes "rest"
unfolding readable method_text
sample_buffer-readable = refl

parse_request-Ends_example : Ends (parse_request 60 7 new_context sample_buffer)
unfolding method_text
parse_request-Ends_example =
    parse_request-Ends 60 7 new_context sample_buffer (rw sample_buffer-readable (omega arith))
      sample_buffer-IsValid tt

on_message-print_example :
    (after : Buffer) × (on_message 3 default_callback 7 sample_buffer
      ≡ some (on_request default_callback (request_of 7 sample), after))
    × (readable after ≡ codes "rest")
on_message-print_example =
    on_message-print 3 default_callback 7 sample sample_buffer (codes "rest") sample-IsMessage
      sample_buffer-IsValid sample_buffer-readable (omega arith)

abbrev cut_buffer : Buffer
cut_buffer = holding (request_line_text get (codes "/a") (some (codes "b")) http_11 ++ codes "\r\n")

cut_buffer-IsValid : IsValid cut_buffer
unfolding method_text
cut_buffer-IsValid = record { ordered = omega arith; inside = omega arith; based = omega arith }

on_message-cut_example :
    (after : Buffer) × (on_message 2 default_callback 7 cut_buffer ≡ some ([], after))
    × (readable after ≡ [])
on_message-cut_example =
    on_message-cut 2 default_callback 7 sample cut_buffer sample-IsMessage cut_buffer-IsValid
      (unfold readable method_text in refl) (omega arith)

abbrev not_found : HttpRespond
not_found = record (new_respond true) { status = 404; status_message = codes "NotFound" }

respond_text_run :
    respond_text not_found ≡ codes "HTTP/1.1 404 NotFound\r\nConnection: close\r\n\r\n"
unfolding to_decimal
respond_text_run = refl

on_request-text_example :
    on_request default_callback new_request ≡ sends (respond_text not_found) ∷ shuts_down ∷ []
unfolding default_callback wants_close get_header lookup bytes_eq
on_request-text_example = on_request-text default_callback new_request (omega arith) (omega arith)

-- A method that the server does not know is refused, and the connection is shut down.
bad_method_run :
    on_message 5 default_callback 7 (holding (codes "BREW / HTTP/1.1\r\n\r\n"))
    ≡ some (
      sends (codes " 400 Bad Request ") ∷ shuts_down ∷ [],
      holding (codes "BREW / HTTP/1.1\r\n\r\n"),
    )
unfolding on_message parse_request round request_line_round part_on_request_line set_method bytes_eq
    find_byte readable find_crlf search_crlf parse_all
bad_method_run = refl
