-- ===== src/Zrpc/Stub/Tests.antt =====
-- Replacement at concrete texts, and what the generators make of small services.
use lali_rpc_frame.Base.{
  has_byte, bytes_eq, Bytes, codes, if◌then◌else◌, ℕ, ◌≡◌, refl, Option, none, some, [], ◌∷◌, arith,
}
use lali_rpc_frame.Base.Int.{pos}
use lali_rpc_frame.Zrpc.Json.{Json, ValueType, type_string, type_array, type_object, type_eq}
use lali_rpc_frame.Zrpc.Stub.Generator.{
  ◌>>=◌, expect, ServiceInfo, member_or, add_rpc, parse_rpc, parse_rpcs, parse_proto,
}
use lali_rpc_frame.Zrpc.Stub.Counts.{rpc_count, parse_proto-count}
use lali_rpc_frame.Zrpc.Stub.Template.{starts_with, find_text, replace_all}
use lali_rpc_frame.Zrpc.Stub.Replace.{count, replace_all-ends, replace_all-loops}

replace_all-ends_example :
    (r : Bytes) × (replace_all 3 (codes "f([a], [a])") (codes "[a]") (codes "xy") ≡ some r)
    × (find_text (codes "[a]") r ≡ none)
unfolding has_byte count
replace_all-ends_example =
    replace_all-ends 3 (codes "f([a], [a])") (codes "xy") b'[' (codes "a]") refl (omega arith)

replace_all-loops_example : replace_all 9 (codes "f([a])") (codes "[a]") (codes "x[a]") ≡ none
unfolding find_text starts_with
replace_all-loops_example =
    replace_all-loops 9 (codes "f([a])") (codes "[a]") (codes "x[a]") 2 1 refl refl

-- The values of {"name": "Math", "rpc": [{"name": "Math"}]}, and an empty object.
data Node : Type 0 where
  description title rpc_array rpc nothing : Node

abbrev type_of : Node → ValueType
type_of title = type_string
type_of rpc_array = type_array
type_of _ = type_object

abbrev member_of : Node → Bytes → Option Node
member_of description key =
    if bytes_eq key (codes "name")
    then some title
    else if bytes_eq key (codes "rpc")
    then some rpc_array
    else none
member_of rpc key = if bytes_eq key (codes "name") then some title else none
member_of _ key = none

abbrev size_of : Node → ℕ
size_of description = 2
size_of rpc_array = 1
size_of _ = 0

abbrev nodes : Json
nodes = record {
  Value = Node;
  get_type = type_of;
  get_size = size_of;
  element = λ v i. rpc;
  find_member = member_of;
  get_object = λ v. [];
  get_string = λ v. codes "Math";
  get_int32 = λ v. pos 0;
  new_value = λ t. nothing;
  of_string = λ s. title;
  of_int64 = λ n. nothing;
  add_member = λ v key w. v;
  add_value = λ v w. v;
  parse = λ bytes. none;
  write = λ v. [];
}

abbrev math : ServiceInfo Node
math = record {
  name = codes "Math";
  rpc_return = [];
  rpc_notify = record { name = codes "Math"; params = nothing } ∷ [];
}

parse_proto-count_example :
    (rpcs : Node) × (member_of description (codes "rpc") ≡ some rpcs)
    × (rpc_count nodes math ≡ size_of rpcs)
unfolding parse_proto parse_rpcs parse_rpc expect member_or add_rpc bytes_eq type_eq ◌>>=◌
parse_proto-count_example = parse_proto-count nodes description math refl
