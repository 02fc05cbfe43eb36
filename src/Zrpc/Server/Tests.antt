-- ===== src/Zrpc/Server/Tests.antt =====
-- The server theorems at a small JSON library and one service, "Math" with the procedure "zero".
use lali_rpc_frame.Base.{
  has_byte, bytes_eq, Bytes, codes, length, ℕ, ◌+◌, ◌≡◌, refl, ◌⊎◌, some, List, [], ◌∷◌, ◌++◌,
  arith,
}
use lali_rpc_frame.Base.Dict.{lookup, bytes_lt}
use lali_rpc_frame.Base.Decimal.{to_decimal, decimal_loop, read_decimal}
use lali_rpc_frame.Net.Buffer.{Buffer, IsValid, readable, find_crlf, search_crlf}
use lali_rpc_frame.Zrpc.Json.{type_object, type_eq}
use lali_rpc_frame.Zrpc.Thrown.{exception, throw, ok, ◌>>=◌, refuse, All}
use lali_rpc_frame.Zrpc.Procedure.{
  Procedure, RpcService, Event, invokes, to_connection, validate_generic,
}
use lali_rpc_frame.Zrpc.Header.{header_length}
use lali_rpc_frame.Zrpc.Sample.{
  answer, Document, object, word, call, sample, parse_sample, sample-ReadsLength,
}
use lali_rpc_frame.Zrpc.Server.{
  handle_request, handle_single_request, handle_value, is_member, validate_request,
  validate_members, find_value, is_notify, method_of, has_params,
}
use lali_rpc_frame.Zrpc.Server.Notify.{handle_value-notify}
use lali_rpc_frame.Zrpc.Server.Sound.{IsCall, IsSound, handle_request-IsSound}
use lali_rpc_frame.Zrpc.Server.Invokes.{handle_single_request-invokes}
use lali_rpc_frame.Zrpc.Server.Frame.{Outcome, handle_message, receives, read_turn, take_message}
use lali_rpc_frame.Zrpc.Server.Delivery.{Handled, handle_message-frame, handle_message-ends}
use lali_rpc_frame.Zrpc.Json.{type_array}
use lali_rpc_frame.Zrpc.Server.Batch.{
  Batch, Step, copies, adds, releases, new_batch, copy, add_response, release, run, collected,
  IsOpen, IsAnswered, run-new_batch,
}
use lali_rpc_frame.Zrpc.Server.Stuck.{receives-refused}

abbrev zero_procedure : Procedure ℕ
zero_procedure = record { callback = 4; params = [] }

abbrev math : RpcService ℕ
math = record {
  procedure_return_list = (codes "zero", zero_procedure) ∷ [];
  procedure_notify_list = [];
}

abbrev services : List (Bytes × RpcService ℕ)
services = (codes "Math", math) ∷ []

unfoldable zero_call : IsCall sample services call 4
unfolding validate_request validate_members find_value is_member type_eq bytes_eq has_params ◌>>=◌
    refuse method_of lookup bytes_lt validate_generic
zero_call = record {
  service = math;
  procedure = zero_procedure;
  name = record { service_name = codes "Math"; method_name = codes "zero" };
  validated = refl;
  dotted = refl;
  served = refl;
  listed = refl;
  called = refl;
  matching = refl;
}

handle_request-IsSound_example :
    All (IsSound sample services) (handle_request sample services (codes "{")).events
handle_request-IsSound_example = handle_request-IsSound sample services (codes "{")

handle_single_request-invokes_example :
    handle_single_request sample services call to_connection
    ≡ record { events = invokes 4 call to_connection ∷ []; result = ok tt }
unfolding has_byte zero_call
handle_single_request-invokes_example =
    handle_single_request-invokes sample services call 4 to_connection zero_call refl refl (λ e. cc)

-- {"jsonrpc": "2.0", "method": "Math.zero"}
abbrev notice : Document
notice =
    object ((codes "jsonrpc", word (codes "2.0")) ∷ (codes "method", word (codes "Math.zero")) ∷ [])

handle_value-notify_example :
    handle_value sample services type_object notice ≡ throw (exception "missing at least one filed")
unfolding is_notify lookup bytes_eq bytes_lt
handle_value-notify_example = handle_value-notify sample services notice refl

abbrev holding : Bytes → Buffer
holding bytes = record {
  storage = 0 ∷ 0 ∷ 0 ∷ 0 ∷ 0 ∷ 0 ∷ 0 ∷ 0 ∷ bytes;
  reader_index = 8;
  writer_index = length bytes + 8;
}

abbrev framed : Buffer
framed = holding (codes "3\r\n{\r\n")

framed-IsValid : IsValid framed
framed-IsValid = record { ordered = omega arith; inside = omega arith; based = omega arith }

handle_message-frame_example :
    (o : Outcome (Event ℕ Document)) × (handle_message sample services 2 framed ≡ some o)
    × Handled sample services (codes "{\r\n") o
unfolding readable to_decimal decimal_loop
handle_message-frame_example =
    handle_message-frame sample services 0 framed 3 (codes "{\r\n") sample-ReadsLength
      framed-IsValid refl (omega arith) (omega arith) (omega arith)

handle_message-ends_example :
    (o : Outcome (Event ℕ Document)) × (handle_message sample services 2 framed ≡ some o)
handle_message-ends_example = handle_message-ends sample services 0 framed

abbrev bad_header : Buffer
bad_header = holding (codes "0\r\n")

bad_header-IsValid : IsValid bad_header
bad_header-IsValid = record { ordered = omega arith; inside = omega arith; based = omega arith }

receives-refused_example :
    (b' : Buffer) × (receives sample services (codes "3\r\n" ∷ codes "{\r\n" ∷ []) bad_header
      ≡ some ([], b'))
    × (readable b' ≡ readable bad_header ++ codes "3\r\n{\r\n")
unfolding read_turn take_message find_crlf search_crlf readable header_length type_eq parse_sample
    has_byte read_decimal
receives-refused_example =
    receives-refused sample services bad_header "invalid message length"
      (codes "3\r\n" ∷ codes "{\r\n" ∷ []) bad_header-IsValid refl

-- Two callbacks hold a copy; one answers behind the loop, the other not at all.
abbrev batch_steps : List (Step Document)
batch_steps = copies ∷ copies ∷ releases ∷ adds answer ∷ releases ∷ releases ∷ []

abbrev answered_batch : Batch Document
answered_batch = record {
  holders = 0;
  responses = sample.add_value (sample.new_value type_array) answer;
  answered = sample.add_value (sample.new_value type_array) answer ∷ [];
}

run-new_batch_example :
    IsOpen sample answered_batch
    ⊎ IsAnswered sample (collected sample batch_steps (sample.new_value type_array)) answered_batch
unfolding run new_batch copy add_response release
run-new_batch_example = run-new_batch sample batch_steps answered_batch refl
