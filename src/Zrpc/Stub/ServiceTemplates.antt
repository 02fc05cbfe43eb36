-- ===== src/Zrpc/Stub/ServiceTemplates.antt =====
-- LALI/zrpc/stub/ServiceStub.cpp: the templates of a server stub.
use lali_rpc_frame.Base.{Bytes, codes, Option, [], ◌∷◌}
use lali_rpc_frame.Zrpc.Json.{
  ValueType, type_bool, type_int32, type_int64, type_double, type_string, type_array, type_object,
}
use lali_rpc_frame.Zrpc.Stub.Template.{lines, fill}

unfoldable pub services_stub_template : Bytes → Bytes → Bytes → Bytes → Bytes → Bytes → Option Bytes
services_stub_template macro_name user_class_name stub_class_name service_name
      stub_procedure_bindings stub_procedure_definitions =
    fill
      (lines (
        "" ∷ "/*" ∷ " * This stub is generated by zrpc, DO NOT modify it!" ∷ " */"
        ∷ "#ifndef ZRPC_[macroName]_H" ∷ "#define ZRPC_[macroName]_H" ∷ ""
        ∷ "#include <jackson/Value.h>" ∷ "" ∷ "#include <zrpc/util.h>"
        ∷ "#include <zrpc/server/Rpcserver.h>" ∷ "#include <zrpc/server/RpcService.h>" ∷ ""
        ∷ "class [userClassName];" ∷ "" ∷ "template <typename S>" ∷ "class [stubClassName]" ∷ "{"
        ∷ "protected:" ∷ "    explicit" ∷ "    [stubClassName](RpcServer& server)" ∷ "    {"
        ∷ "        static_assert(std::is_same_v<S, [userClassName]>,"
        ∷ "                      \"derived class name should be '[userClassName]'\");" ∷ ""
        ∷ "        auto service = new RpcService;" ∷ "" ∷ "        [stubProcedureBindings]" ∷ ""
        ∷ "        server.addService(\"[serviceName]\", service);" ∷ "    }" ∷ ""
        ∷ "    ~[stubClassName]() = default;" ∷ "" ∷ "private:" ∷ "    [stubProcedureDefinitions]"
        ∷ "" ∷ "private:" ∷ "    S& convert()" ∷ "    {" ∷ "        return static_cast<S&>(*this);"
        ∷ "    }" ∷ "};" ∷ "" ∷ "#endif //ZRPC_[macroName]_H" ∷ "" ∷ []))
      ((codes "[macroName]", macro_name)
        ∷ (codes "[userClassName]", user_class_name)
        ∷ (codes "[stubClassName]", stub_class_name)
        ∷ (codes "[serviceName]", service_name)
        ∷ (codes "[stubProcedureBindings]", stub_procedure_bindings)
        ∷ (codes "[stubProcedureDefinitions]", stub_procedure_definitions)
        ∷ [])

unfoldable pub stub_procedure_bind_template : Bytes → Bytes → Bytes → Bytes → Option Bytes
stub_procedure_bind_template procedure_name stub_class_name stub_procedure_name procedure_params =
    fill
      (lines (
        "" ∷ "service->addProcedureReturn(\"[procedureName]\", new ProcedureReturn("
        ∷ "        std::bind(&[stubClassName]::[stubProcedureName], this, _1, _2)"
        ∷ "        [procedureParams]" ∷ "));" ∷ "" ∷ []))
      ((codes "[procedureName]", procedure_name)
        ∷ (codes "[stubClassName]", stub_class_name)
        ∷ (codes "[stubProcedureName]", stub_procedure_name)
        ∷ (codes "[procedureParams]", procedure_params)
        ∷ [])

unfoldable pub stub_procedure_define_template : Bytes → Bytes → Bytes → Bytes → Bytes → Option Bytes
stub_procedure_define_template params_from_json_array params_from_json_object stub_procedure_name
      procedure_name procedure_args =
    fill
      (lines (
        "void [stubProcedureName](json::Value& request, const RpcDoneCallback& done)" ∷ "{"
        ∷ "    auto& params = request[\"params\"];" ∷ "" ∷ "    if (params.isArray()) {"
        ∷ "        [paramsFromJsonArray]"
        ∷ "        convert().[procedureName]([procedureArgs] UserDoneCallback(request, done));"
        ∷ "    }" ∷ "    else {" ∷ "        [paramsFromJsonObject]"
        ∷ "        convert().[procedureName]([procedureArgs] UserDoneCallback(request, done));"
        ∷ "    }" ∷ "}" ∷ []))
      ((codes "[paramsFromJsonArray]", params_from_json_array)
        ∷ (codes "[paramsFromJsonObject]", params_from_json_object)
        ∷ (codes "[stubProcedureName]", stub_procedure_name)
        ∷ (codes "[procedureName]", procedure_name)
        ∷ (codes "[procedureArgs]", procedure_args)
        ∷ [])

-- The overload for a procedure without parameters.
unfoldable pub stub_procedure_define_no_params : Bytes → Bytes → Option Bytes
stub_procedure_define_no_params stub_procedure_name procedure_name =
    fill
      (lines (
        "" ∷ "void [stubProcedureName](json::Value& request, const RpcDoneCallback& done)" ∷ "{"
        ∷ "    convert().[procedureName](UserDoneCallback(request, done));" ∷ "}" ∷ "" ∷ []))
      ((codes "[stubProcedureName]", stub_procedure_name)
        ∷ (codes "[procedureName]", procedure_name)
        ∷ [])

unfoldable pub stub_notify_bind_template : Bytes → Bytes → Bytes → Bytes → Option Bytes
stub_notify_bind_template notify_name stub_class_name stub_notify_name notify_params =
    fill
      (lines (
        "" ∷ "service->addProcedureNotify(\"[notifyName]\", new ProcedureNotify("
        ∷ "        std::bind(&[stubClassName]::[stubNotifyName], this, _1)"
        ∷ "        [notifyParams]" ∷ "));" ∷ "" ∷ []))
      ((codes "[notifyName]", notify_name)
        ∷ (codes "[stubClassName]", stub_class_name)
        ∷ (codes "[stubNotifyName]", stub_notify_name)
        ∷ (codes "[notifyParams]", notify_params)
        ∷ [])

unfoldable pub stub_notify_define_template : Bytes → Bytes → Bytes → Bytes → Bytes → Option Bytes
stub_notify_define_template params_from_json_array params_from_json_object stub_notify_name
      notify_name notify_args =
    fill
      (lines (
        "" ∷ "void [stubNotifyName](json::Value& request)" ∷ "{"
        ∷ "    auto& params = request[\"params\"];" ∷ "" ∷ "    if (params.isArray()) {"
        ∷ "        [paramsFromJsonArray]" ∷ "        convert().[NotifyName]([notifyArgs]);"
        ∷ "    }" ∷ "    else {" ∷ "        [paramsFromJsonObject]"
        ∷ "        convert().[NotifyName]([notifyArgs]);" ∷ "    }" ∷ "}" ∷ "" ∷ []))
      ((codes "[notifyName]", notify_name)
        ∷ (codes "[stubNotifyName]", stub_notify_name)
        ∷ (codes "[notifyArgs]", notify_args)
        ∷ (codes "[paramsFromJsonArray]", params_from_json_array)
        ∷ (codes "[paramsFromJsonObject]", params_from_json_object)
        ∷ [])

-- The overload for a notification without parameters.
unfoldable pub stub_notify_define_no_params : Bytes → Bytes → Option Bytes
stub_notify_define_no_params stub_notify_name notify_name =
    fill
      (lines (
        "" ∷ "void [stubNotifyName](json::Value& request)" ∷ "{" ∷ "    convert().[notifyName]();"
        ∷ "}" ∷ "" ∷ []))
      ((codes "[stubNotifyName]", stub_notify_name) ∷ (codes "[notifyName]", notify_name) ∷ [])

-- The switch of `argsDefineTemplate`, the failed assertion left out.
abbrev accessor : ValueType → Bytes
accessor type_bool = codes ".getBool()"
accessor type_int32 = codes ".getInt32()"
accessor type_int64 = codes ".getInt64()"
accessor type_double = codes ".getDouble()"
accessor type_string = codes ".getString()"
accessor type_object = []
accessor type_array = []
accessor _ = codes "bad type"

unfoldable pub args_define_template : Bytes → Bytes → ValueType → Option Bytes
args_define_template arg index type =
    fill (codes "auto [arg] = params[[index]][method];")
      ((codes "[arg]", arg) ∷ (codes "[index]", index) ∷ (codes "[method]", accessor type) ∷ [])
