-- ===== src/Zrpc/Client/Tests.antt =====
-- The client theorems at a small JSON library and a client with one waiting call.
use lali_rpc_frame.Base.{bytes_eq, codes, ℕ, ◌≡◌, refl, ◌≢◌, Bool, none, some, [], ◌∷◌, arith}
use lali_rpc_frame.Base.Dict.{lookup}
use lali_rpc_frame.Base.Decimal.{to_decimal, decimal_loop}
use lali_rpc_frame.Net.Buffer.{Buffer, IsValid, readable}
use lali_rpc_frame.Zrpc.Header.{frame}
use lali_rpc_frame.Zrpc.Server.Frame.{send_response}
use lali_rpc_frame.Zrpc.Client.Delivery.{Handled, handle_message-response}
use lali_rpc_frame.Zrpc.Json.{type_eq}
use lali_rpc_frame.Zrpc.Thrown.{◌>>=◌, refuse}
use lali_rpc_frame.Zrpc.Sample.{Document, object, answer, sample, sample-ReadsLength}
use lali_rpc_frame.Zrpc.Client.{
  Client, Reply, handle_message, answers, find_callback, send_call, find_value, is_result,
  require_error, validate_response, id_of, handle_single_response,
}
use lali_rpc_frame.Zrpc.Client.Calls.{IsFresh, send_call-IsFresh}
use lali_rpc_frame.Zrpc.Client.Answers.{handle_single_response-once}

-- The call 7 waits for the callback 3.
abbrev waiting : Client ℕ
waiting = record { id = 8; callbacks = (7, 3) ∷ [] }

waiting-IsFresh : IsFresh waiting
waiting-IsFresh = record { unused = λ n above. unfold find_callback in ground arith }

send_call-IsFresh_example :
    (find_callback 8 waiting.callbacks ≡ none)
    × (find_callback 8 (send_call sample (object []) 5 waiting).1.callbacks ≡ some 5)
    × ((n : ℕ)
        → n ≢ 8
        → find_callback n (send_call sample (object []) 5 waiting).1.callbacks
          ≡ find_callback n waiting.callbacks)
    × IsFresh (send_call sample (object []) 5 waiting).1
send_call-IsFresh_example = send_call-IsFresh sample (object []) 5 waiting waiting-IsFresh

handle_single_response-once_example :
    (value : Document) × (is_error : Bool) × ((handle_single_response sample answer waiting).events
      ≡ answers 3 value is_error ∷ [])
    × ((handle_single_response sample answer
          (handle_single_response sample answer waiting).client).events
        ≡ [])
    × ((m : ℕ)
        → m ≢ 7
        → find_callback m (handle_single_response sample answer waiting).client.callbacks
          ≡ find_callback m waiting.callbacks)
unfolding validate_response find_value type_eq bytes_eq lookup require_error is_result id_of
    find_callback refuse ◌>>=◌
handle_single_response-once_example =
    handle_single_response-once sample ℕ answer 7 3 waiting refl refl refl

abbrev received : Buffer
received = record {
  storage = 0 ∷ 0 ∷ 0 ∷ 0 ∷ 0 ∷ 0 ∷ 0 ∷ 0 ∷ codes "6\r\n[{}]\r\n";
  reader_index = 8;
  writer_index = 17;
}

received-IsValid : IsValid received
received-IsValid = record { ordered = omega arith; inside = omega arith; based = omega arith }

handle_message-response_example :
    (r : Reply ℕ Document × Buffer) × (handle_message sample 2 received waiting ≡ some r)
    × Handled sample (codes "[{}]\r\n") waiting r
unfolding readable send_response frame to_decimal decimal_loop lookup bytes_eq
handle_message-response_example =
    handle_message-response sample 0 received answer waiting sample-ReadsLength received-IsValid
      refl (omega arith)
