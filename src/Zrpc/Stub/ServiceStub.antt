-- ===== src/Zrpc/Stub/ServiceStub.antt =====
-- LALI/zrpc/stub/ServiceStub.cpp: the C++ text of a server stub. The text is `none` where a
-- replacement does not end.
use lali_rpc_frame.Base.{
  Bytes, codes, ltb, if◌then◌else◌, ℕ, suc, Option, some, List, [], ◌∷◌, ◌++◌,
}
use lali_rpc_frame.Base.Decimal.{to_decimal}
use lali_rpc_frame.Zrpc.Json.{
  Json, ValueType, type_bool, type_int32, type_int64, type_double, type_string, type_array,
  type_object,
}
use lali_rpc_frame.Zrpc.Stub.Template.{append_each, to_upper, ◌>>=◌}
use lali_rpc_frame.Zrpc.Stub.Generator.{RpcReturn, RpcNotify, ServiceInfo}
use lali_rpc_frame.Zrpc.Stub.ServiceTemplates.{
  services_stub_template, stub_procedure_bind_template, stub_procedure_define_template,
  stub_procedure_define_no_params, stub_notify_bind_template, stub_notify_define_template,
  stub_notify_define_no_params, args_define_template,
}

-- The switch of `getGenericParams`, the failed assertion left out.
abbrev json_type_name : ValueType → Bytes
json_type_name type_bool = codes "json::TYPE_BOOL"
json_type_name type_int32 = codes "json::TYPE_INT32"
json_type_name type_int64 = codes "json::TYPE_INT64"
json_type_name type_double = codes "json::TYPE_DOUBLE"
json_type_name type_string = codes "json::TYPE_STRING"
json_type_name type_object = codes "json::TYPE_OBJECT"
json_type_name type_array = codes "json::TYPE_ARRAY"
json_type_name _ = codes "bad type"

abbrev quoted : Bytes → Bytes
quoted name = codes "\"" ++ (name ++ codes "\"")

abbrev line_end : Bytes
line_end = 10 ∷ []

-- `append(define)` and `append("\n")`.
abbrev with_line_end : Option Bytes → Option Bytes
with_line_end text = do one ← text; some (one ++ line_end)

unfoldable pub get_stub_generic_name : Bytes → Bytes
get_stub_generic_name name = name ++ codes "Stub"

module _ (j : Json) where
  open j use {Value, get_type, get_size, get_object, get_string}

  unfoldable pub get_generic_params : List (Value × Value) → Bytes
  get_generic_params [] = []
  get_generic_params ((key, value) ∷ members) =
      codes ", \n"
      ++ (quoted (get_string key)
          ++ (codes ", " ++ (json_type_name (get_type value) ++ get_generic_params members)))

  unfoldable pub get_generic_args : List (Value × Value) → Bytes
  get_generic_args [] = []
  get_generic_args ((key, value) ∷ members) =
      get_string key ++ (codes ", " ++ get_generic_args members)

  -- The loop, from the parameter number `index`.
  unfoldable pub get_params_from_json_array : ℕ → List (Value × Value) → Option Bytes
  get_params_from_json_array index [] = some []
  get_params_from_json_array index ((key, value) ∷ members) = do
    line ← with_line_end (args_define_template (get_string key) (to_decimal index) (get_type value))
    rest ← get_params_from_json_array (suc index) members
    some (line ++ rest)

  unfoldable pub get_params_from_json_object : List (Value × Value) → Option Bytes
  get_params_from_json_object members =
      append_each
        (λ m.
          with_line_end
            (args_define_template (get_string m.0) (quoted (get_string m.0)) (get_type m.1)))
        members

  unfoldable pub get_macro_name : ServiceInfo Value → Bytes
  get_macro_name info = to_upper info.name ++ codes "SERVICESTUB"

  unfoldable pub get_user_class_name : ServiceInfo Value → Bytes
  get_user_class_name info = info.name ++ codes "Service"

  unfoldable pub get_stub_class_name : ServiceInfo Value → Bytes
  get_stub_class_name info = info.name ++ codes "ServiceStub"

  unfoldable pub get_stub_procedure_bindings : ServiceInfo Value → Option Bytes
  get_stub_procedure_bindings info =
      append_each
        (λ p. with_line_end (
          stub_procedure_bind_template p.name (get_stub_class_name info)
            (get_stub_generic_name p.name) (get_generic_params (get_object p.params))))
        info.rpc_return

  unfoldable pub procedure_with_params : RpcReturn Value → Option Bytes
  procedure_with_params r = do
    params_from_json_array ← get_params_from_json_array 0 (get_object r.params)
    params_from_json_object ← get_params_from_json_object (get_object r.params)
    stub_procedure_define_template params_from_json_array params_from_json_object
        (get_stub_generic_name r.name) r.name (get_generic_args (get_object r.params))

  unfoldable pub procedure_definition : RpcReturn Value → Option Bytes
  procedure_definition r =
      if ltb 0 (get_size r.params)
      then with_line_end (procedure_with_params r)
      else with_line_end (stub_procedure_define_no_params (get_stub_generic_name r.name) r.name)

  unfoldable pub get_stub_procedure_definitions : ServiceInfo Value → Option Bytes
  get_stub_procedure_definitions info = append_each procedure_definition info.rpc_return

  unfoldable pub get_stub_notify_bindings : ServiceInfo Value → Option Bytes
  get_stub_notify_bindings info =
      append_each
        (λ p. with_line_end (
          stub_notify_bind_template p.name (get_stub_class_name info) (get_stub_generic_name p.name)
            (get_generic_params (get_object p.params))))
        info.rpc_notify

  unfoldable pub notify_with_params : RpcNotify Value → Option Bytes
  notify_with_params r = do
    params_from_json_array ← get_params_from_json_array 0 (get_object r.params)
    params_from_json_object ← get_params_from_json_object (get_object r.params)
    stub_notify_define_template params_from_json_array params_from_json_object
        (get_stub_generic_name r.name) r.name (get_generic_args (get_object r.params))

  unfoldable pub notify_definition : RpcNotify Value → Option Bytes
  notify_definition r =
      if ltb 0 (get_size r.params)
      then with_line_end (notify_with_params r)
      else with_line_end (stub_notify_define_no_params (get_stub_generic_name r.name) r.name)

  unfoldable pub get_stub_notify_definitions : ServiceInfo Value → Option Bytes
  get_stub_notify_definitions info = append_each notify_definition info.rpc_notify

  unfoldable pub get_stub : ServiceInfo Value → Option Bytes
  get_stub info = do
    procedure_bindings ← get_stub_procedure_bindings info
    notify_bindings ← get_stub_notify_bindings info
    procedure_definitions ← get_stub_procedure_definitions info
    notify_definitions ← get_stub_notify_definitions info
    services_stub_template (get_macro_name info) (get_user_class_name info)
        (get_stub_class_name info) info.name (procedure_bindings ++ notify_bindings)
        (procedure_definitions ++ notify_definitions)
