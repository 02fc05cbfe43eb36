-- ===== src/Zrpc/Done/Completes.antt =====
-- A call, from the client to the procedure and back (LALI/zrpc/client/RpcClient.cpp, server/Rpcserver.cpp,
-- server/BaseServer.cpp and util.h).
use lali_rpc_frame.Base.{
  has_byte, Bytes, codes, length, length-append, ℕ, suc, ◌+◌, ◌<◌, ◌≡◌, refl, ap, ◌∙◌, ◌≢◌, false,
  none, some, List, [], ◌∷◌, ◌++◌, arith,
}
use lali_rpc_frame.Base.Int.{pos}
use lali_rpc_frame.Net.Buffer.Search.{crlf}
use lali_rpc_frame.Net.Buffer.{Buffer, IsValid, readable}
use lali_rpc_frame.Zrpc.Json.{Json, ReadsLength, type_object, type_int32}
use lali_rpc_frame.Zrpc.Thrown.{ok}
use lali_rpc_frame.Zrpc.Header.{frame}
use lali_rpc_frame.Zrpc.Procedure.{RpcService, Event, invokes, to_connection}
use lali_rpc_frame.Zrpc.Server.{is_notify, handle_value, handle_request}
use lali_rpc_frame.Zrpc.Server.Sound.{IsCall}
use lali_rpc_frame.Zrpc.Server.Invokes.{handle_single_request-invokes}
use lali_rpc_frame.Zrpc.Server.Frame.{
  Outcome, send_response, handle_message as serve_message, max_message_len as max_request_len,
}
use lali_rpc_frame.Zrpc.Server.Delivery.{handle_message-frame, thrown_of}
use lali_rpc_frame.Zrpc.Client.{
  Client, Reply, find_callback, send_request, send_call, handle_message, max_message_len,
}
use lali_rpc_frame.Zrpc.Done.{done_response, done}
use lali_rpc_frame.Zrpc.Done.Library.{Builds, Rereads}
use lali_rpc_frame.Zrpc.Done.Answered.{answered, call-answered}

-- The request of a call with its number, as the server reads it: a call of a registered procedure with
-- that number, whose service name has no dot and whose method name is not empty.
abbrev pub numbered : (j : Json) → j.Value → ℕ → j.Value
numbered j call n = j.add_member call (codes "id") (j.of_int64 (pos n))

pub record Arrives (j : Json) (C : Type 0) (services : List (Bytes × RpcService C)) (call : j.Value)
    (n : ℕ) (c : C) : Type 0 where
  pub request : j.Value
  pub id : j.Value
  pub parsed : j.parse (j.write (numbered j call n) ++ crlf) ≡ some request
  pub object : j.get_type request ≡ type_object
  pub asked : j.find_member request (codes "id") ≡ some id
  pub int32 : j.get_type id ≡ type_int32
  pub number : j.get_int32 id ≡ pos n
  pub called : IsCall j services request c
  pub plain : has_byte b'.' called.name.service_name ≡ false
  pub named : called.name.method_name ≢ []

module _ (j : Json) (C : Type 0) (services : List (Bytes × RpcService C)) where
  handle_request-invokes :
      (call : j.Value) (n : ℕ) (c : C) (a : Arrives j C services call n c)
      → handle_request j services (j.write (numbered j call n) ++ crlf)
        ≡ record { events = invokes c a.request to_connection ∷ []; result = ok tt }
  unfolding handle_request handle_value
  handle_request-invokes call n c a =
      let asks : is_notify j a.request ≡ false = unfold is_notify in rw (a.asked, is_notify) refl in
      rw (a.parsed, handle_request)
        (rw a.object (
          rw asks (
            handle_single_request-invokes j services a.request c to_connection a.called a.object
              a.plain a.named)))

  waits-send_call :
      (call : j.Value) (cb : C) (client : Client C)
      → find_callback client.id (send_call j call cb client).1.callbacks ≡ some cb
  unfolding send_call find_callback
  waits-send_call call cb client = ground arith

  -- A call and its result. When the bytes that the client sends for a call are alone in the server's
  -- valid buffer and shorter than its limit, the server's loop ends within two rounds, invokes the
  -- registered procedure exactly once, throws nothing and leaves the buffer empty. The response that
  -- the procedure's callback then builds from its result, alone in the client's valid buffer and shorter
  -- than its limit, makes the client's loop end within two rounds and call exactly the callback that
  -- was given with the call, once, with the member "result" as it is read again. The JSON library is
  -- assumed to read the digits of lengths, to add members, and to read what was written.
  pub call-completes :
      (f g : ℕ) (requests responses : Buffer) (call result v : j.Value) (cb c : C)
      (client : Client C)
      → ReadsLength j
      → (a : Arrives j C services call client.id c) → IsValid requests
      → readable requests ≡ (send_call j call cb client).0
      → length (j.write (numbered j call client.id)) + 2 < max_request_len
      → Builds j a.id result
      → (back : Rereads j a.id result v) → IsValid responses
      → readable responses ≡ send_response j (done_response j a.id result)
      → length (j.write (done_response j a.id result)) + 2 < max_message_len
      → (o : Outcome (Event C j.Value)) × (r : Reply C j.Value × Buffer) × (serve_message j services
            (suc (suc f))
            requests
          ≡ some o)
        × (o.events ≡ invokes c a.request to_connection ∷ [])
        × (o.thrown ≡ none)
        × (readable o.buffer ≡ [])
        × (done j a.request result ≡ some (done_response j a.id result))
        × (handle_message j (suc (suc g)) responses (send_call j call cb client).1 ≡ some r)
        × (r.0 ≡ answered cb back.outcome.value client.id (send_call j call cb client).1)
        × (readable r.1 ≡ [])
  unfolding send_call send_request frame
  call-completes f g requests responses call result v cb c client reads a valid e small h back
        valid' e' small' =
      let body = j.write (numbered j call client.id) in
      let served = handle_request-invokes call client.id c a in
      let (o, ends, handled) =
        handle_message-frame j services f requests (length body + 2) (body ++ crlf) reads valid e
          (omega arith) small (omega (arith, length-append body crlf)) in
      let (r, built, found, finishes, same, emptied) =
        call-answered j C g responses a.request a.id result v client.id cb
          (send_call j call cb client).1 reads h back a.asked a.int32 a.number
          (waits-send_call call cb client) valid' e' small' in
      (
        o,
        r,
        ends,
        handled.same_events ∙ ap (λ m. m.events) served,
        handled.same_thrown ∙ ap (λ m. thrown_of j m.result) served,
        handled.emptied,
        built,
        finishes,
        same,
        emptied,
      )
