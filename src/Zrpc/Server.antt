-- ===== src/Zrpc/Server.antt =====
-- LALI/zrpc/server/Rpcserver.h and Rpcserver.cpp: a request is validated, and its procedure invoked.
pub mod Notify
pub mod Sound
pub mod Invokes
pub mod Frame
pub mod Delivery
pub mod Stuck
pub mod Batch
mod Tests
use lali_rpc_frame.Base.{
  [], find_byte, bytes_eq, Bytes, codes, ◌==◌, if◌then◌else◌, length, take, drop, ℕ, zero, suc, ◌+◌,
  Bool, true, false, not, ◌||◌, none, some, List, ◌∷◌,
}
use Prim.Native.String.{String}
use lali_rpc_frame.Base.Dict.{lookup, assign}
use lali_rpc_frame.Zrpc.Json.{
  Json, ValueType, type_object, type_array, type_string, type_int32, type_int64, type_eq,
}
use lali_rpc_frame.Zrpc.Thrown.{
  Thrown, exception, Result, ok, throws, Run, pure, throw, refuse, bind, after, ◌>>=◌, ◌>>◌,
}
use lali_rpc_frame.Zrpc.Procedure.{
  RpcService, Event, Done, to_connection, to_batch, call_procedure_return, call_procedure_notify,
}

unfoldable pub is_member : ValueType → List ValueType → Bool
is_member type [] = false
is_member type (t ∷ ts) = type_eq type t || is_member type ts

-- `checkValueType<dst, rest...>`.
abbrev pub check_value_type : {E : Type 0} → List ValueType → ValueType → Run E (Unit {0})
check_value_type types type = refuse (not (is_member type types)) (exception "bad type ")

abbrev pub id_types : List ValueType
id_types = type_string ∷ type_int32 ∷ type_int64 ∷ []

-- The position of the dot splits "service.method".
pub record MethodName : Type 0 where
  pub service_name : Bytes
  pub method_name : Bytes

unfoldable pub split_method : {E : Type 0} → Bytes → Run E MethodName
split_method name =
    let pos = find_byte b'.' name in
    do
      refuse (pos == length name) (exception "missing service Name in method")
      pure (record { service_name = take pos name; method_name = drop (suc pos) name })

unfoldable pub add_service :
    {C : Type 0} → Bytes → RpcService C → List (Bytes × RpcService C) → List (Bytes × RpcService C)
add_service name service services = assign name service services

module _ (j : Json) where
  open j use {Value, get_type, get_size, element, find_member, get_string, parse}

  unfoldable pub has_params : Value → Bool
  has_params request = elim (find_member request (codes "params")) [ none ↦ false | some v ↦ true ]

  unfoldable pub is_notify : Value → Bool
  is_notify request = elim (find_member request (codes "id")) [ none ↦ true | some v ↦ false ]

  unfoldable pub find_value : {E : Type 0} → List ValueType → Value → Bytes → Run E Value
  find_value types request key = elim (find_member request key) [
    | none ↦ throw (exception "missing at least one filed")
    | some v ↦ do check_value_type types (get_type v); pure v
  ]

  abbrev pub member_count : ℕ → Value → ℕ
  member_count base request = base + (if has_params request then 1 else 0)

  -- The two validations differ in the number of members that they allow beside "params".
  unfoldable pub validate_members : {E : Type 0} → ℕ → Value → Run E (Unit {0})
  validate_members base request = do
    id ← find_value id_types request (codes "id")
    version ← find_value (type_string ∷ []) request (codes "jsonrpc")
    refuse (not (bytes_eq (get_string version) (codes "2.0")))
        (exception "jsonrpc version is unknown")
    method ← find_value (type_string ∷ []) request (codes "method")
    refuse (bytes_eq (get_string method) (codes "rpc.")) (exception "method name is internal used")
    refuse (not (get_size request == member_count base request)) (exception "unexpected field")

  unfoldable pub validate_request : {E : Type 0} → Value → Run E (Unit {0})
  validate_request request = validate_members 3 request

  unfoldable pub validate_notify : {E : Type 0} → Value → Run E (Unit {0})
  validate_notify request = validate_members 2 request

  -- `request["method"]`: a missing member is a failed assertion, or a null value without assertions,
  -- and the validation before it excludes that.
  unfoldable pub method_of : Value → Bytes
  method_of request = elim (find_member request (codes "method")) [
    | none ↦ []
    | some v ↦ get_string v
  ]

  module _ {C : Type 0} (services : List (Bytes × RpcService C)) where
    unfoldable pub find_service : {E : Type 0} → MethodName → Run E (RpcService C)
    find_service name = elim (lookup name.service_name services) [
      | none ↦ throw (exception "serviceName not found")
      | some service ↦ do
        refuse (length name.method_name == 0) (exception "missing method name in method")
        pure service
    ]

    unfoldable pub handle_single_request : Value → Done → Run (Event C Value) (Unit {0})
    handle_single_request request done = do
      validate_request request
      name ← split_method (method_of request)
      service ← find_service name
      call_procedure_return j service name.method_name request done

    unfoldable pub handle_single_notify : Value → Run (Event C Value) (Unit {0})
    handle_single_notify request = do
      validate_notify request
      name ← split_method (method_of request)
      service ← find_service name
      call_procedure_notify j service name.method_name request

    -- One request of a batch.
    unfoldable pub handle_element : Value → Run (Event C Value) (Unit {0})
    handle_element request =
        if type_eq (get_type request) type_object
        then (if is_notify request
            then handle_single_notify request
            else handle_single_request request to_batch)
        else throw (exception "request json is bad")

    -- The loop over a batch, from the index `i`, with the rounds that are left.
    unfoldable pub handle_elements : ℕ → ℕ → Value → Run (Event C Value) (Unit {0})
    handle_elements zero i requests = pure tt
    handle_elements (suc left) i requests =
        handle_element (element requests i) >> handle_elements left (suc i) requests

    unfoldable pub handle_batch_requests : Value → Run (Event C Value) (Unit {0})
    handle_batch_requests requests = do
      refuse (get_size requests == 0) (exception "batch request is empty")
      handle_elements (get_size requests) 0 requests

    unfoldable pub handle_value : ValueType → Value → Run (Event C Value) (Unit {0})
    handle_value type_object request =
        if is_notify request
        then handle_single_notify request
        else handle_single_request request to_connection
    handle_value type_array request = handle_batch_requests request
    handle_value _ request = throw (exception "request should be json object or array")

    unfoldable pub handle_request : Bytes → Run (Event C Value) (Unit {0})
    handle_request json = elim (parse json) [
      | none ↦ throw (exception "parse failed")
      | some request ↦ handle_value (get_type request) request
    ]
