-- ===== src/Zrpc/Server/Sound.antt =====
-- Which procedures a request can reach (LALI/zrpc/server/Rpcserver.cpp, RpcService.cpp,
-- Procedure.cpp).
use lali_rpc_frame.Base.{
  find_byte-split, Bytes, Bool-cases, Option-cases, ℕ, zero, suc, ◌≡◌, refl, inl, inr, Bool, true,
  false, not, some, List, ◌∷◌, ◌++◌, arith,
}
use lali_rpc_frame.Base.Dict.{lookup}
use lali_rpc_frame.Zrpc.Json.{Json, ValueType, type_object, type_array, type_eq}
use lali_rpc_frame.Zrpc.Thrown.{
  ok, refuse, emit, ◌>>=◌, ◌>>◌, All, Emits, Emits-bind, Emits-pure, Emits-throw, Emits-refuse,
  Emits-if, refuse-ok,
}
use lali_rpc_frame.Zrpc.Procedure.{
  Procedure, RpcService, Event, invokes, notifies, Done, to_connection, to_batch, validate_generic,
  validate_params, invoke_return, call_procedure_return,
}
use lali_rpc_frame.Zrpc.Server.{
  MethodName, split_method, is_notify, find_value, validate_members, validate_request, method_of,
  find_service, handle_single_request, handle_single_notify, handle_element, handle_elements,
  handle_batch_requests, handle_value, handle_request,
}
use lali_rpc_frame.Zrpc.Server.Notify.{handle_single_notify-refused}

unrefused : (b : Bool) → not b ≡ false → b ≡ true
unrefused b h = ground arith

module _ (j : Json) {C : Type 0} (services : List (Bytes × RpcService C)) where
  open j use {Value, get_type, get_size, element, find_member, get_string, parse}

  -- The request names a service and a procedure of it by "service.method", its members have passed
  -- the validation of requests and its parameters that of the procedure; `c` is the procedure's
  -- callback.
  pub record IsCall (request : Value) (c : C) : Type 0 where
    pub service : RpcService C
    pub procedure : Procedure C
    pub name : MethodName
    pub validated : (validate_request j {E = Event C Value} request).result ≡ ok tt
    pub dotted : method_of j request ≡ name.service_name ++ b'.' ∷ name.method_name
    pub served : lookup name.service_name services ≡ some service
    pub listed : lookup name.method_name service.procedure_return_list ≡ some procedure
    pub called : c ≡ procedure.callback
    pub matching : validate_generic j request procedure.params ≡ true

  -- An invocation is such a call, and there is no other event.
  abbrev pub IsSound : Event C Value → Type 0
  IsSound (invokes c request done) = IsCall request c
  IsSound (notifies c request) = ⊥

  module _ {P : Event C Value → Type 0} where
    find_value-Emits :
        (types : List ValueType) (r : Value) (key : Bytes) → Emits P (find_value j types r key)
    unfolding find_value
    find_value-Emits types r key = elim (Option-cases (find_member r key)) [
      | inl absent ↦ rw (absent, find_value) Emits-throw
      | inr (v, found) ↦ rw (found, find_value) (Emits-bind (Emits-refuse _ _) λ _ _. Emits-pure)
    ]

    pub validate_request-Emits : (r : Value) → Emits P (validate_request j r)
    unfolding validate_request validate_members
    validate_request-Emits r = Emits-bind (find_value-Emits _ r _) λ id _.
        Emits-bind (find_value-Emits _ r _) λ version _. Emits-bind (Emits-refuse _ _) λ _ _.
          Emits-bind (find_value-Emits _ r _)
            λ method _. Emits-bind (Emits-refuse _ _) λ _ _. Emits-refuse _ _

    split_method-Emits : (name : Bytes) → Emits P (split_method name)
    unfolding split_method
    split_method-Emits name = Emits-bind (Emits-refuse _ _) λ _ _. Emits-pure

    find_service-Emits : (name : MethodName) → Emits P (find_service j services name)
    unfolding find_service
    find_service-Emits name = elim (Option-cases (lookup name.service_name services)) [
      | inl absent ↦ rw (absent, find_service) Emits-throw
      | inr (service, found) ↦
          rw (found, find_service) (Emits-bind (Emits-refuse _ _) λ _ _. Emits-pure)
    ]

    -- The procedure's own validation, and then its callback.
    invoke-Emits :
        (t : ValueType) (p : Procedure C) (request : Value) (done : Done)
        → (validate_generic j request p.params ≡ true → P (invokes p.callback request done))
        → Emits P (validate_params j t request p.params >> emit (invokes p.callback request done))
    unfolding validate_params
    invoke-Emits type_object p request done h =
        Emits-bind (Emits-refuse _ _)
          λ _ e. record { allowed = (h (unrefused _ (refuse-ok _ _ _ e)), tt) }
    invoke-Emits type_array p request done h =
        Emits-bind (Emits-refuse _ _)
          λ _ e. record { allowed = (h (unrefused _ (refuse-ok _ _ _ e)), tt) }
    invoke-Emits _ p request done h = Emits-bind Emits-throw λ _ e. cc

  split_method-parts :
      (name : Bytes) (parts : MethodName)
      → (split_method {E = Event C Value} name).result ≡ ok parts
      → name ≡ parts.service_name ++ b'.' ∷ parts.method_name
  unfolding split_method ◌>>=◌ refuse
  split_method-parts name parts h = ground (arith, find_byte-split b'.' name)

  find_service-found :
      (name : MethodName) (service : RpcService C)
      → (find_service j services {E = Event C Value} name).result ≡ ok service
      → lookup name.service_name services ≡ some service
  unfolding find_service ◌>>=◌ refuse
  find_service-found name service h = ground arith

  handle_single_request-IsSound :
      (request : Value) (done : Done)
      → Emits IsSound (handle_single_request j services request done)
  unfolding handle_single_request call_procedure_return invoke_return
  handle_single_request-IsSound request done =
      Emits-bind (validate_request-Emits request) λ _ validated.
        Emits-bind (split_method-Emits (method_of j request)) λ name split.
          Emits-bind (find_service-Emits name) λ service found.
            elim (Option-cases (lookup name.method_name service.procedure_return_list)) [
              | inl absent ↦ rw (absent, call_procedure_return) Emits-throw
              | inr (p, listed) ↦
                  rw (listed, call_procedure_return)
                    (invoke-Emits (get_type request) p request done λ matching. record {
                      service = service;
                      procedure = p;
                      name = name;
                      validated = validated;
                      dotted = split_method-parts (method_of j request) name split;
                      served = find_service-found name service found;
                      listed = listed;
                      called = refl;
                      matching = matching;
                    })
            ]

  handle_single_notify-IsSound :
      (request : Value)
      → is_notify j request ≡ true
      → Emits IsSound (handle_single_notify j services request)
  handle_single_notify-IsSound request h =
      rw (handle_single_notify-refused j services request h) Emits-throw

  handle_element-IsSound : (request : Value) → Emits IsSound (handle_element j services request)
  unfolding handle_element
  handle_element-IsSound request = elim (Bool-cases (type_eq (get_type request) type_object)) [
    | inl object ↦
        rw (object, handle_element)
          (Emits-if {b = is_notify j request} (handle_single_notify-IsSound request)
            (λ _. handle_single_request-IsSound request to_batch))
    | inr other ↦ rw (other, handle_element) Emits-throw
  ]

  handle_elements-IsSound :
      (left i : ℕ) (requests : Value) → Emits IsSound (handle_elements j services left i requests)
  unfolding handle_elements
  handle_elements-IsSound zero i requests = Emits-pure
  handle_elements-IsSound (suc left) i requests =
      Emits-bind (handle_element-IsSound (element requests i))
        λ _ _. handle_elements-IsSound left (suc i) requests

  handle_value-IsSound :
      (type : ValueType) (request : Value) → Emits IsSound (handle_value j services type request)
  unfolding handle_value handle_batch_requests
  handle_value-IsSound type_object request =
      Emits-if (handle_single_notify-IsSound request)
        (λ _. handle_single_request-IsSound request to_connection)
  handle_value-IsSound type_array request =
      Emits-bind (Emits-refuse _ _) λ _ _. handle_elements-IsSound (get_size request) 0 request
  handle_value-IsSound _ request = Emits-throw

  -- Whatever bytes arrive, single or in a batch, and whether they end in an exception or not, the only
  -- events are invocations of callbacks of registered procedures, each for a request that names the
  -- procedure and has passed the validation of requests and of the procedure's parameters.
  pub handle_request-IsSound : (json : Bytes) → All IsSound (handle_request j services json).events
  unfolding handle_request
  handle_request-IsSound json = elim (Option-cases (parse json)) [
    | inl bad ↦ rw (bad, handle_request) tt
    | inr (request, good) ↦
        rw (good, handle_request) (handle_value-IsSound (get_type request) request).allowed
  ]
