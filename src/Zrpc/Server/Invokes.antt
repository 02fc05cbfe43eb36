-- ===== src/Zrpc/Server/Invokes.antt =====
-- What a well-formed call makes the server do (LALI/zrpc/server/Rpcserver.cpp, RpcService.cpp,
-- Procedure.cpp).
use lali_rpc_frame.Base.{
  drop-append_suc, has_byte, find_byte-append, Bytes, ◌==◌, length, length-append, take-append, ◌≡◌,
  refl, ◌≢◌, true, false, some, List, [], ◌∷◌, ◌++◌, arith,
}
use lali_rpc_frame.Base.Dict.{lookup}
use lali_rpc_frame.Zrpc.Json.{Json, type_object}
use lali_rpc_frame.Zrpc.Thrown.{ok, Run, pure, refuse, ◌>>=◌, All, Emits}
use lali_rpc_frame.Zrpc.Procedure.{
  Procedure, RpcService, Event, invokes, Done, validate_generic, validate_params, invoke_return,
  call_procedure_return,
}
use lali_rpc_frame.Zrpc.Server.{
  MethodName, split_method, validate_request, find_service, handle_single_request,
}
use lali_rpc_frame.Zrpc.Server.Sound.{IsCall, validate_request-Emits}

shorter : (xs ys : Bytes) → (length xs == length (xs ++ b'.' ∷ ys)) ≡ false
shorter xs ys = ground (arith, length-append xs (b'.' ∷ ys))

not_empty : (xs : Bytes) → xs ≢ [] → (length xs == 0) ≡ false
not_empty [] h = absurd (h refl)
not_empty (x ∷ xs) h = ground arith

module _ (j : Json) {C : Type 0} (services : List (Bytes × RpcService C)) where
  open j use {Value, get_type, find_member, get_string}

  nothing : (es : List (Event C Value)) → All (λ _. ⊥) es → es ≡ []
  nothing [] h = refl
  nothing (e ∷ es) h = absurd h.0

  quiet :
      {A : Type 0} (m : Run (Event C Value) A) (a : A)
      → Emits (λ _. ⊥) m
      → m.result ≡ ok a
      → m ≡ pure a
  quiet m a h e = λ i. record { events = nothing m.events h.allowed i; result = e i }

  split_method-join :
      (name : MethodName)
      → has_byte b'.' name.service_name ≡ false
      → split_method {E = Event C Value} (name.service_name ++ b'.' ∷ name.method_name) ≡ pure name
  unfolding split_method ◌>>=◌ refuse
  split_method-join name plain =
      rw (find_byte-append b'.' name.service_name name.method_name plain) (
        rw (shorter name.service_name name.method_name) (
          rw (take-append name.service_name (b'.' ∷ name.method_name))
            (rw (drop-append_suc name.service_name name.method_name b'.'))))

  find_service-pure :
      (name : MethodName) (service : RpcService C)
      → lookup name.service_name services ≡ some service
      → name.method_name ≢ []
      → find_service j services {E = Event C Value} name ≡ pure service
  unfolding find_service ◌>>=◌ refuse
  find_service-pure name service served named =
      rw (served, find_service) (rw (not_empty name.method_name named))

  invoke-pure :
      (p : Procedure C) (request : Value) (done : Done)
      → get_type request ≡ type_object
      → validate_generic j request p.params ≡ true
      → invoke_return j p request done
        ≡ record { events = invokes p.callback request done ∷ []; result = ok tt }
  unfolding invoke_return validate_params ◌>>=◌ refuse
  invoke-pure p request done object matching = rw object (rw matching)

  -- A call of a registered procedure, with an object for its request, a service name without a dot and
  -- a method name that is not empty, is invoked, once, and nothing is thrown.
  pub handle_single_request-invokes :
      (request : Value) (c : C) (done : Done) (call : IsCall j services request c)
      → get_type request ≡ type_object
      → has_byte b'.' call.name.service_name ≡ false
      → call.name.method_name ≢ []
      → handle_single_request j services request done
        ≡ record { events = invokes c request done ∷ []; result = ok tt }
  unfolding handle_single_request call_procedure_return ◌>>=◌
  handle_single_request-invokes request c done call object plain named =
      rw
        (quiet (validate_request j request) tt (validate_request-Emits j services request)
          call.validated)
        (rw call.dotted (
          rw (split_method-join call.name plain) (
            rw (find_service-pure call.name call.service call.served named) (
              rw (call.listed, call_procedure_return)
                (rw (invoke-pure call.procedure request done object call.matching)
                  (rw call.called))))))
