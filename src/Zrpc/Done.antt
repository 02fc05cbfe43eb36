-- ===== src/Zrpc/Done.antt =====
-- LALI/zrpc/util.h: the callback that a procedure of the user calls with its result. It builds the
-- response to the request and passes it on.
pub mod Library
pub mod Answered
pub mod Completes
mod Tests
use lali_rpc_frame.Base.{codes, Option, none, some}
use lali_rpc_frame.Zrpc.Json.{Json, type_object}

module _ (j : Json) where
  open j use {Value, find_member, new_value, of_string, add_member}

  unfoldable pub with_version : Value
  with_version = add_member (new_value type_object) (codes "jsonrpc") (of_string (codes "2.0"))

  unfoldable pub with_id : Value → Value
  with_id id = add_member with_version (codes "id") id

  unfoldable pub done_response : Value → Value → Value
  done_response id result = add_member (with_id id) (codes "result") result

  -- What the callback is given, for a request with a number.
  unfoldable pub done : Value → Value → Option Value
  done request result = elim (find_member request (codes "id")) [
    | none ↦ none
    | some id ↦ some (done_response id result)
  ]
