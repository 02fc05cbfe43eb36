-- ===== src/Zrpc/Stub/ClientStub.antt =====
-- LALI/zrpc/stub/ClientStub.cpp: the C++ text of a client stub. The text is `none` where a
-- replacement does not end.
use lali_rpc_frame.Base.{
  Bytes, codes, if◌then◌else◌, Bool, true, false, ◌&&◌, Option, some, List, [], ◌∷◌, ◌++◌,
}
use lali_rpc_frame.Zrpc.Json.{
  Json, ValueType, type_bool, type_int32, type_int64, type_double, type_string, type_array,
  type_object,
}
use lali_rpc_frame.Zrpc.Stub.Template.{lines, fill, append_each, to_upper, ◌>>=◌}
use lali_rpc_frame.Zrpc.Stub.Generator.{RpcReturn, RpcNotify, ServiceInfo}

unfoldable pub client_stub_template : Bytes → Bytes → Bytes → Bytes → Option Bytes
client_stub_template macro_name stub_class_name procedure_definitions notify_definitions =
    fill
      (lines (
        "" ∷ "/*" ∷ " * This stub is generated by zrpc, DO NOT modify it!" ∷ " */" ∷ ""
        ∷ "#ifndef ZRPC_[macroName]_H" ∷ "#define ZRPC_[macroName]_H" ∷ ""
        ∷ "#include <jackson/Value.h>" ∷ "" ∷ "#include <zrpc/util.h>"
        ∷ "#include <zrpc/client/RpcClient.h>" ∷ "" ∷ "" ∷ "class [stubClassName]" ∷ "{" ∷ "public:"
        ∷ "    [stubClassName](EventLoop* loop, const AddressOps& serverAddress):"
        ∷ "            client_(loop, serverAddress)" ∷ "    {"
        ∷ "        client_.setConnectionCallback([this](const TcpConnectionPtr& conn){"
        ∷ "            if (conn->connected()) {" ∷ "                conn_ = conn;"
        ∷ "                cb_(conn_);" ∷ "            }" ∷ "            else {"
        ∷ "                assert(conn_ != nullptr);" ∷ "                cb_(conn_);"
        ∷ "            }" ∷ "        });" ∷ "    }" ∷ "" ∷ "    ~[stubClassName]() = default;" ∷ ""
        ∷ "    void start() { client_.start(); }" ∷ ""
        ∷ "    void setConnectionCallback(const ConnectionCallback& cb)" ∷ "    {"
        ∷ "        cb_ = cb;" ∷ "    }" ∷ "" ∷ "    [procedureDefinitions]"
        ∷ "    [notifyDefinitions]" ∷ "" ∷ "private:" ∷ "    TcpConnectionPtr conn_;"
        ∷ "    ConnectionCallback cb_;" ∷ "    RpcClient client_;" ∷ "};" ∷ ""
        ∷ "#endif //ZRPC_[macroName]_H" ∷ "" ∷ []))
      ((codes "[macroName]", macro_name)
        ∷ (codes "[stubClassName]", stub_class_name)
        ∷ (codes "[procedureDefinitions]", procedure_definitions)
        ∷ (codes "[notifyDefinitions]", notify_definitions)
        ∷ [])

unfoldable pub procedure_define_template : Bytes → Bytes → Bytes → Bytes → Option Bytes
procedure_define_template service_name procedure_name procedure_args param_members =
    fill
      (lines (
        "" ∷ "void [procedureName]([procedureArgs] const ResponseCallback& cb)" ∷ "{"
        ∷ "    json::Value params(json::TYPE_OBJECT);" ∷ "    [paramMembers]" ∷ ""
        ∷ "    json::Value call(json::TYPE_OBJECT);" ∷ "    call.addMember(\"jsonrpc\", \"2.0\");"
        ∷ "    call.addMember(\"method\", \"[serviceName].[procedureName]\");"
        ∷ "    call.addMember(\"params\", params);" ∷ "" ∷ "    assert(conn_ != nullptr);"
        ∷ "    client_.sendCall(conn_, call, cb);" ∷ "}" ∷ "" ∷ []))
      ((codes "[serviceName]", service_name)
        ∷ (codes "[procedureName]", procedure_name)
        ∷ (codes "[procedureArgs]", procedure_args)
        ∷ (codes "[paramMembers]", param_members)
        ∷ [])

unfoldable pub notify_define_template : Bytes → Bytes → Bytes → Bytes → Option Bytes
notify_define_template service_name notify_name notify_args param_members =
    fill
      (lines (
        "" ∷ "void [notifyName]([notifyArgs])" ∷ "{" ∷ "    json::Value params(json::TYPE_OBJECT);"
        ∷ "    [paramMembers]" ∷ "" ∷ "    json::Value notify(json::TYPE_OBJECT);"
        ∷ "    notify.addMember(\"jsonrpc\", \"2.0\");"
        ∷ "    notify.addMember(\"method\", \"Hello.Goodbye\");" ∷ ""
        ∷ "    assert(conn_ != nullptr);" ∷ "    client_.sendNotify(conn_, notify);" ∷ "}" ∷ ""
        ∷ []))
      ((codes "[serviceName]", service_name)
        ∷ (codes "[notifyName]", notify_name)
        ∷ (codes "[notifyArgs]", notify_args)
        ∷ (codes "[paramMembers]", param_members)
        ∷ [])

unfoldable pub param_member_template : Bytes → Option Bytes
param_member_template param_name =
    fill (lines ("" ∷ "params.addMember(\"[paramName]\", [paramName]);" ∷ "" ∷ []))
      ((codes "[paramName]", param_name) ∷ [])

-- The switch of `argTemplate`, the failed assertion left out.
abbrev arg_type_name : ValueType → Bytes
arg_type_name type_int32 = codes "int32_t"
arg_type_name type_int64 = codes "int64_t"
arg_type_name type_double = codes "double"
arg_type_name type_bool = codes "bool"
arg_type_name type_string = codes "std::string"
arg_type_name type_object = codes "json::Value"
arg_type_name type_array = codes "json::Value"
arg_type_name _ = codes "bad type"

unfoldable pub arg_template : Bytes → ValueType → Option Bytes
arg_template arg_name arg_type =
    fill (codes "[argType] [argName]")
      ((codes "[argType]", arg_type_name arg_type) ∷ (codes "[argName]", arg_name) ∷ [])

module _ (j : Json) where
  open j use {Value, get_type, get_object, get_string}

  -- The arguments behind the first one have a comma in front.
  unfoldable pub join_args : Bool → List (Value × Value) → Option Bytes
  join_args first [] = some []
  join_args first ((key, value) ∷ members) = do
    one ← arg_template (get_string key) (get_type value)
    rest ← join_args false members
    some ((if first then [] else codes ", ") ++ (one ++ rest))

  abbrev has_members : List (Value × Value) → Bool
  has_members [] = false
  has_members (m ∷ members) = true

  unfoldable pub get_generic_args : Value → Bool → Option Bytes
  get_generic_args params append_comma = do
    args ← join_args true (get_object params)
    some (if append_comma && has_members (get_object params) then args ++ codes "," else args)

  unfoldable pub get_generic_param_members : Value → Option Bytes
  get_generic_param_members params =
      append_each (λ p. param_member_template (get_string p.0)) (get_object params)

  unfoldable pub get_macro_name : ServiceInfo Value → Bytes
  get_macro_name info = to_upper info.name ++ codes "CLIENTSTUB"

  unfoldable pub get_stub_class_name : ServiceInfo Value → Bytes
  get_stub_class_name info = info.name ++ codes "ClientStub"

  unfoldable pub procedure_definition : Bytes → RpcReturn Value → Option Bytes
  procedure_definition service_name r = do
    procedure_args ← get_generic_args r.params true
    param_members ← get_generic_param_members r.params
    procedure_define_template service_name r.name procedure_args param_members

  unfoldable pub get_procedure_definitions : ServiceInfo Value → Option Bytes
  get_procedure_definitions info = append_each (procedure_definition info.name) info.rpc_return

  unfoldable pub notify_definition : Bytes → RpcNotify Value → Option Bytes
  notify_definition service_name r = do
    notify_args ← get_generic_args r.params false
    param_members ← get_generic_param_members r.params
    notify_define_template service_name r.name notify_args param_members

  unfoldable pub get_notify_definitions : ServiceInfo Value → Option Bytes
  get_notify_definitions info = append_each (notify_definition info.name) info.rpc_notify

  unfoldable pub get_stub : ServiceInfo Value → Option Bytes
  get_stub info = do
    procedure_definitions ← get_procedure_definitions info
    notify_definitions ← get_notify_definitions info
    client_stub_template (get_macro_name info) (get_stub_class_name info) procedure_definitions
        notify_definitions
