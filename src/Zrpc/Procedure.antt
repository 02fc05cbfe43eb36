-- ===== src/Zrpc/Procedure.antt =====
-- LALI/zrpc/server/Procedure.h, Procedure.cpp, RpcService.h and RpcService.cpp: procedures with
-- their parameters, and services that hold them by name. A callback is the user's, an element of a
-- type `C`; invoking it is an event.
use lali_rpc_frame.Base.{
  Bytes, codes, ◌==◌, if◌then◌else◌, length, ℕ, suc, Bool, true, false, not, ◌&&◌, ◌||◌, none, some,
  List, [], ◌∷◌,
}
use lali_rpc_frame.Base.Dict.{lookup, assign}
use lali_rpc_frame.Zrpc.Json.{Json, ValueType, type_object, type_array, type_eq}
use lali_rpc_frame.Zrpc.Thrown.{text, Run, throw, emit, ◌>>◌, refuse}

pub record Param : Type 0 where
  pub param_name : Bytes
  pub param_type : ValueType

pub record Procedure (C : Type 0) : Type 0 where
  pub callback : C
  pub params : List Param

pub record RpcService (C : Type 0) : Type 0 where
  pub procedure_return_list : List (Bytes × Procedure C)
  pub procedure_notify_list : List (Bytes × Procedure C)

-- Where a response goes: to the connection, or to the batch's collection.
pub data Done : Type 0 where
  to_connection to_batch : Done

-- A callback that is invoked, with the request.
pub data Event (C V : Type 0) : Type 0 where
  invokes : C → V → Done → Event C V
  notifies : C → V → Event C V

-- The constructor's list of names and types.
unfoldable pub init_procedure : {C : Type 0} → C → List (Bytes × ValueType) → Procedure C
init_procedure callback [] = record { callback = callback; params = [] }
init_procedure callback ((name, type) ∷ rest) = record (init_procedure callback rest) {
  params = record { param_name = name; param_type = type } ∷ (init_procedure callback rest).params;
}

-- The assertion that the name is new holds wherever the program goes on.
unfoldable pub add_procedure_return :
    {C : Type 0} → Bytes → Procedure C → RpcService C → RpcService C
add_procedure_return name p s = record s {
  procedure_return_list = assign name p s.procedure_return_list;
}

unfoldable pub add_procedure_notify :
    {C : Type 0} → Bytes → Procedure C → RpcService C → RpcService C
add_procedure_notify name p s = record s {
  procedure_notify_list = assign name p s.procedure_notify_list;
}

module _ (j : Json) where
  open j use {Value, get_type, get_size, element, find_member}

  -- The loop over an array's elements, from the index `i`.
  unfoldable pub elements_match : Value → ℕ → List Param → Bool
  elements_match params i [] = true
  elements_match params i (p ∷ ps) =
      type_eq (get_type (element params i)) p.param_type && elements_match params (suc i) ps

  unfoldable pub members_match : Value → List Param → Bool
  members_match params [] = true
  members_match params (p ∷ ps) = elim (find_member params p.param_name) [
    | none ↦ false
    | some v ↦ type_eq (get_type v) p.param_type && members_match params ps
  ]

  unfoldable pub params_match : ValueType → Value → List Param → Bool
  params_match type_array params ps = elements_match params 0 ps
  params_match type_object params ps = members_match params ps
  params_match _ params ps = false

  unfoldable pub validate_generic : Value → List Param → Bool
  validate_generic request ps = elim (find_member request (codes "params")) [
    | none ↦ length ps == 0
    | some params ↦
        if get_size params == 0 || not (get_size params == length ps)
        then false
        else params_match (get_type params) params ps
  ]

  -- `validateRequest`, the same for both kinds of callback.
  unfoldable pub validate_params : {E : Type 0} → ValueType → Value → List Param → Run E (Unit {0})
  unfolding validate_generic
  validate_params type_object request ps =
      refuse (not (validate_generic request ps)) (text "params name or type mismatch")
  validate_params type_array request ps =
      refuse (not (validate_generic request ps)) (text "params name or type mismatch")
  validate_params _ request ps = throw (text "params type must be object or array")

  module _ {C : Type 0} where
    unfoldable pub invoke_return : Procedure C → Value → Done → Run (Event C Value) (Unit {0})
    invoke_return p request done = do
      validate_params (get_type request) request p.params
      emit (invokes p.callback request done)

    unfoldable pub invoke_notify : Procedure C → Value → Run (Event C Value) (Unit {0})
    invoke_notify p request = do
      validate_params (get_type request) request p.params
      emit (notifies p.callback request)

    unfoldable pub call_procedure_return :
        RpcService C → Bytes → Value → Done → Run (Event C Value) (Unit {0})
    call_procedure_return s name request done = elim (lookup name s.procedure_return_list) [
      | none ↦ throw (text "method not found")
      | some p ↦ invoke_return p request done
    ]

    unfoldable pub call_procedure_notify :
        RpcService C → Bytes → Value → Run (Event C Value) (Unit {0})
    call_procedure_notify s name request = elim (lookup name s.procedure_notify_list) [
      | none ↦ throw (text "method not found")
      | some p ↦ invoke_notify p request
    ]
