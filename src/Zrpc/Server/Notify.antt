-- ===== src/Zrpc/Server/Notify.antt =====
-- Notifications (LALI/zrpc/server/Rpcserver.cpp, `handleSingleNotify` and `validateNotify`).
use lali_rpc_frame.Base.{Bytes, codes, ◌≡◌, true, none, List, arith}
use lali_rpc_frame.Zrpc.Json.{Json, ValueType, type_object}
use lali_rpc_frame.Zrpc.Thrown.{exception, throw, ◌>>=◌}
use lali_rpc_frame.Zrpc.Procedure.{RpcService}
use lali_rpc_frame.Zrpc.Server.{
  is_notify, find_value, id_types, validate_members, validate_notify, handle_single_notify,
  handle_value,
}

module _ (j : Json) {C : Type 0} (services : List (Bytes × RpcService C)) where
  open j use {Value, find_member}

  no_id : (request : Value) → is_notify j request ≡ true → find_member request (codes "id") ≡ none
  unfolding is_notify
  no_id request h = ground arith

  find_value-absent :
      {E : Type 0} (types : List ValueType) (request : Value) (key : Bytes)
      → find_member request key ≡ none
      → find_value j {E = E} types request key ≡ throw (exception "missing at least one filed")
  unfolding find_value
  find_value-absent types request key h = rw (h, find_value)

  pub handle_single_notify-refused :
      (request : Value)
      → is_notify j request ≡ true
      → handle_single_notify j services request ≡ throw (exception "missing at least one filed")
  unfolding handle_single_notify validate_notify validate_members ◌>>=◌
  handle_single_notify-refused request h =
      rw (find_value-absent id_types request (codes "id") (no_id request h))

  -- A request without an "id" is a notification, and every notification is refused, whatever its
  -- method: its validation asks for the "id" whose absence made it one. No procedure is called.
  pub handle_value-notify :
      (request : Value)
      → is_notify j request ≡ true
      → handle_value j services type_object request ≡ throw (exception "missing at least one filed")
  unfolding handle_value
  handle_value-notify request h = rw h (handle_single_notify-refused request h)
