-- ===== src/Net/Http/Server.antt =====
-- LALI/net/HttpServer.cpp: what one message on a connection makes the server do. The callback that
-- answers a request is the user's, so it is an argument; the time is the clock's.
use lali_rpc_frame.Base.{
  bytes_eq, Bytes, codes, if◌then◌else◌, ℕ, Bool, true, false, not, ◌&&◌, ◌||◌, Option, none, some,
  List, [], ◌∷◌, ◌++◌,
}
use lali_rpc_frame.Net.Buffer.{Buffer, new_buffer, retrieve_as_string}
use lali_rpc_frame.Net.Http.Request.{HttpRequest, http_10, Version, get_header}
use lali_rpc_frame.Net.Http.Context.{new_context, parse_request, parse_all}
use lali_rpc_frame.Net.Http.Respond.{HttpRespond, new_respond, append_to_buffer}

-- The calls that the server makes on the connection.
pub data Effect : Type 0 where
  sends : Bytes → Effect
  shuts_down : Effect

abbrev pub HttpCallback : Type 0
HttpCallback = HttpRequest → HttpRespond → HttpRespond

unfoldable pub default_callback : HttpCallback
default_callback request respond = record respond {
  status = 404;
  status_message = codes "NotFound";
  close_connection = true;
}

unfoldable pub is_http_10 : Version → Bool
is_http_10 http_10 = true
is_http_10 _ = false

-- Whether the server closes the connection behind its answer.
unfoldable pub wants_close : HttpRequest → Bool
unfolding is_http_10
wants_close request =
    let connection = get_header (codes "Connection") request in
    bytes_eq connection (codes "close")
    || (is_http_10 request.version && not (bytes_eq connection (codes "Keep-Alive")))

unfoldable pub on_request : HttpCallback → HttpRequest → List Effect
unfolding wants_close
on_request callback request =
    let respond = callback request (new_respond (wants_close request)) in
    let (message, left) = retrieve_as_string (append_to_buffer respond new_buffer) in
    if respond.close_connection then sends message ∷ shuts_down ∷ [] else sends message ∷ []

unfoldable pub bad_request : List Effect
bad_request = sends (codes " 400 Bad Request ") ∷ shuts_down ∷ []

-- A new context parses each message, and is dropped behind it.
unfoldable pub on_message : ℕ → HttpCallback → ℕ → Buffer → Option (List Effect × Buffer)
unfolding bad_request
on_message fuel callback now data_buffer = elim (parse_request fuel now new_context data_buffer) [
  | none ↦ none
  | some (right, context, rest) ↦
      let refused = if right then [] else bad_request in
      let answered = if parse_all context then on_request callback context.request else [] in
      some (refused ++ answered, rest)
]
