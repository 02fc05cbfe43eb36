-- ===== src/Zrpc/Done/Tests.antt =====
-- A call and its result, at a small JSON library and one service.
use lali_rpc_frame.Base.{
  has_byte, bytes_eq, Bytes, codes, Bool-cases, length, ℕ, ◌+◌, ◌≡◌, refl, ap, inl, inr, false,
  Option, none, some, List, [], ◌∷◌, ◌++◌, arith,
}
use lali_rpc_frame.Base.Dict.{lookup, bytes_lt}
use lali_rpc_frame.Base.Decimal.{to_decimal, decimal_loop}
use lali_rpc_frame.Net.Buffer.{Buffer, readable}
use lali_rpc_frame.Zrpc.Json.{type_eq}
use lali_rpc_frame.Zrpc.Thrown.{◌>>=◌, refuse}
use lali_rpc_frame.Zrpc.Procedure.{
  Procedure, RpcService, Event, invokes, to_connection, validate_generic,
}
use lali_rpc_frame.Zrpc.Header.{frame}
use lali_rpc_frame.Zrpc.Server.{
  is_member, validate_request, validate_members, find_value, method_of, has_params,
}
use lali_rpc_frame.Zrpc.Server.Sound.{IsCall}
use lali_rpc_frame.Zrpc.Server.Frame.{Outcome, send_response, handle_message as serve_message}
use lali_rpc_frame.Zrpc.Sample.{
  Document, Leaf, word, leaf, object, number, call, answer, sample, sample-ReadsLength,
  parse_sample,
}
use lali_rpc_frame.Zrpc.Client.{Client, Reply, handle_message, send_call, send_request}
use lali_rpc_frame.Zrpc.Done.{with_version, with_id, done_response, done}
use lali_rpc_frame.Zrpc.Done.Library.{Builds, Rereads}
use lali_rpc_frame.Zrpc.Done.Answered.{answered}
use lali_rpc_frame.Zrpc.Done.Completes.{Arrives, call-completes}

-- The call gets the number 7 and the callback 3, its procedure is 4, and its result is 5.
abbrev client : Client ℕ
client = record { id = 7; callbacks = [] }

abbrev template : Document
template =
    object ((codes "jsonrpc", word (codes "2.0")) ∷ (codes "method", word (codes "Math.zero")) ∷ [])

abbrev holding : Bytes → Buffer
holding bytes = record {
  storage = 0 ∷ 0 ∷ 0 ∷ 0 ∷ 0 ∷ 0 ∷ 0 ∷ 0 ∷ bytes;
  reader_index = 8;
  writer_index = length bytes + 8;
}

abbrev zero_procedure : Procedure ℕ
zero_procedure = record { callback = 4; params = [] }

abbrev math : RpcService ℕ
math = record {
  procedure_return_list = (codes "zero", zero_procedure) ∷ [];
  procedure_notify_list = [];
}

abbrev services : List (Bytes × RpcService ℕ)
services = (codes "Math", math) ∷ []

unfoldable zero_call : IsCall sample services call 4
unfolding validate_request validate_members find_value is_member type_eq bytes_eq has_params ◌>>=◌
    refuse method_of lookup bytes_lt validate_generic
zero_call = record {
  service = math;
  procedure = zero_procedure;
  name = record { service_name = codes "Math"; method_name = codes "zero" };
  validated = refl;
  dotted = refl;
  served = refl;
  listed = refl;
  called = refl;
  matching = refl;
}

lookup-append_other :
    (k l : Bytes) (w : Leaf) (members : List (Bytes × Leaf))
    → bytes_eq l k ≡ false
    → lookup k (members ++ (l, w) ∷ []) ≡ lookup k members
unfolding lookup
lookup-append_other k l w [] h = rw h refl
lookup-append_other k l w ((i, v) ∷ members) h = elim (Bool-cases (bytes_eq i k)) [
  | inl same ↦ rw same refl
  | inr other ↦ rw other (lookup-append_other k l w members h)
]

abbrev found : Option Leaf → Option Document
found o = elim o [ none ↦ none | some v ↦ some (leaf v) ]

builds : Builds sample (leaf (number 7)) (leaf (number 5))
unfolding with_version with_id lookup bytes_eq
builds = record {
  object = record { type = refl; size = refl };
  text = record { type = refl; text = refl };
  version = record { found = refl; others = λ k h. rw h refl; type = refl; size = refl };
  number = record {
    found = refl;
    others = λ k h. ap found (
        lookup-append_other k (codes "id") (number 7) ((codes "jsonrpc", word (codes "2.0")) ∷ [])
          h);
    type = refl;
    size = refl;
  };
  outcome = record {
    found = refl;
    others = λ k h. ap found (
        lookup-append_other k (codes "result") (number 5)
          ((codes "jsonrpc", word (codes "2.0")) ∷ (codes "id", number 7) ∷ []) h);
    type = refl;
    size = refl;
  };
}

abbrev rereads : Rereads sample (leaf (number 7)) (leaf (number 5)) answer
unfolding with_version with_id done_response lookup bytes_eq has_byte parse_sample
rereads = record {
  parsed = refl;
  type = refl;
  size = refl;
  version = record { value = _; found = refl; same = (refl, refl) };
  number = record { value = _; found = refl; same = (refl, refl) };
  outcome = record { value = _; found = refl; same = (refl, refl) };
}

unfoldable arrives : Arrives sample ℕ services template 7 4
unfolding lookup bytes_eq bytes_lt has_byte parse_sample zero_call
arrives = record {
  request = call;
  id = leaf (number 7);
  parsed = refl;
  object = refl;
  asked = refl;
  int32 = refl;
  number = refl;
  called = zero_call;
  plain = refl;
  named = λ e. cc;
}

call-completes_example :
    (o : Outcome (Event ℕ Document)) × (r : Reply ℕ Document × Buffer) × (serve_message sample
        services 2
        (holding (codes "4\r\n{}\r\n"))
      ≡ some o)
    × (o.events ≡ invokes 4 arrives.request to_connection ∷ [])
    × (o.thrown ≡ none)
    × (readable o.buffer ≡ [])
    × (done sample arrives.request (leaf (number 5))
        ≡ some (done_response sample (leaf (number 7)) (leaf (number 5))))
    × (handle_message sample 2
          (holding (codes "6\r\n[{}]\r\n"))
          (send_call sample template 3 client).1
        ≡ some r)
    × (r.0 ≡ answered 3 (leaf (number 5)) 7 (send_call sample template 3 client).1)
    × (readable r.1 ≡ [])
unfolding readable send_response send_call send_request frame to_decimal decimal_loop lookup
    bytes_eq has_byte parse_sample with_version with_id done_response bytes_lt zero_call arrives
call-completes_example =
    call-completes sample ℕ services 0 0 (holding (codes "4\r\n{}\r\n"))
      (holding (codes "6\r\n[{}]\r\n")) template (leaf (number 5)) answer 3 4 client
      sample-ReadsLength arrives
      (record { ordered = omega arith; inside = omega arith; based = omega arith }) refl
      (omega arith) builds rereads
      (record { ordered = omega arith; inside = omega arith; based = omega arith }) refl
      (omega arith)
