-- ===== src/Zrpc/Stub/Generator.antt =====
-- LALI/zrpc/stub/StubGenerator.h and StubGenerator.cpp: a service description is read and checked.
use lali_rpc_frame.Base.{
  bytes_eq, Bytes, codes, ◌==◌, ℕ, zero, suc, Bool, true, false, not, ◌||◌, Option, none, some,
  List, [], ◌∷◌, ◌++◌,
}
use Prim.Native.String.{String}
use lali_rpc_frame.Zrpc.Json.{
  Json, ValueType, type_null, type_object, type_array, type_string, type_eq,
}

-- What `throw errMsg` leaves with, or a value.
pub data Checked (A : Type 0) : Type 0 where
  good : A → Checked A
  bad : String → Checked A

infixl 5 ◌>>=◌ ◌>>◌
-- Shut, so that a rule for it fits a `do` block.
unfoldable pub ◌>>=◌ : {A B : Type 0} → Checked A → (A → Checked B) → Checked B
good a >>= f = f a
bad message >>= f = bad message

abbrev pub ◌>>◌ : {B : Type 0} → Checked (Unit {0}) → Checked B → Checked B
m >> k = m >>= λ _. k

unfoldable pub expect : Bool → String → Checked (Unit {0})
expect true message = good tt
expect false message = bad message

pub record RpcReturn (V : Type 0) : Type 0 where
  pub name : Bytes
  pub params : V
  pub returns : V

pub record RpcNotify (V : Type 0) : Type 0 where
  pub name : Bytes
  pub params : V

pub record ServiceInfo (V : Type 0) : Type 0 where
  pub name : Bytes
  pub rpc_return : List (RpcReturn V)
  pub rpc_notify : List (RpcNotify V)

abbrev pub add_return : {V : Type 0} → RpcReturn V → ServiceInfo V → ServiceInfo V
add_return r info = record info { rpc_return = info.rpc_return ++ r ∷ [] }

abbrev pub add_notify : {V : Type 0} → RpcNotify V → ServiceInfo V → ServiceInfo V
add_notify r info = record info { rpc_notify = info.rpc_notify ++ r ∷ [] }

-- Membership in the set of keys, std::unordered_set<std::string_view>.
unfoldable pub is_in : Bytes → List Bytes → Bool
is_in key [] = false
is_in key (k ∷ keys) = bytes_eq key k || is_in key keys

module _ (j : Json) where
  open j use {Value, get_type, get_size, get_object, element, find_member, get_string, new_value}

  -- `getObject` of a value that is no object is a failed assertion. The switch looks at the type of the key, not at that of the value.
  unfoldable pub validate_keys : List Bytes → List (Value × Value) → Checked (Unit {0})
  validate_keys keys [] = good tt
  validate_keys keys ((key, value) ∷ members) = do
    expect (not (is_in (get_string key) keys)) "duplicate param name"
    expect (not (type_eq (get_type key) type_null)) "bad param type"
    validate_keys (get_string key ∷ keys) members

  unfoldable pub validate_params : Value → Checked (Unit {0})
  validate_params params = validate_keys [] (get_object params)

  abbrev returns_by_type : ValueType → Value → Checked (Unit {0})
  returns_by_type type_null returns = bad "bad returns type"
  returns_by_type type_array returns = bad "bad returns type"
  returns_by_type type_object returns = validate_params returns
  returns_by_type _ returns = good tt

  unfoldable pub validate_returns : Value → Checked (Unit {0})
  validate_returns returns = returns_by_type (get_type returns) returns

  abbrev validate_if : (Value → Checked (Unit {0})) → Option Value → Checked (Unit {0})
  validate_if check none = good tt
  validate_if check (some v) = check v

  -- `*it` of a member that must be there.
  unfoldable pub member_or : String → Option Value → Checked Value
  member_or message none = bad message
  member_or message (some v) = good v

  abbrev or_object : Option Value → Value
  or_object none = new_value type_object
  or_object (some v) = v

  -- With "returns" it is a procedure, and a notification without.
  unfoldable pub add_rpc : Bytes → Value → Option Value → ServiceInfo Value → ServiceInfo Value
  add_rpc name params (some returns) info =
      add_return (record { name = name; params = params; returns = returns }) info
  add_rpc name params none info = add_notify (record { name = name; params = params }) info

  unfoldable pub parse_rpc : Value → ServiceInfo Value → Checked (ServiceInfo Value)
  parse_rpc rpc info = do
    expect (type_eq (get_type rpc) type_object) "rpc definition must be object"
    name ← member_or "missing name in rpc definition" (find_member rpc (codes "name"))
    expect (type_eq (get_type name) type_string) "rpc name must be string"
    validate_if validate_params (find_member rpc (codes "params"))
    validate_if validate_returns (find_member rpc (codes "returns"))
    good (
        add_rpc (get_string name) (or_object (find_member rpc (codes "params")))
          (find_member rpc (codes "returns")) info)

  -- The loop over the "rpc" array, from the index `i`.
  unfoldable pub parse_rpcs : ℕ → ℕ → Value → ServiceInfo Value → Checked (ServiceInfo Value)
  parse_rpcs zero i rpcs info = good info
  parse_rpcs (suc left) i rpcs info = do
    parsed ← parse_rpc (element rpcs i) info
    parse_rpcs left (suc i) rpcs parsed

  unfoldable pub parse_proto : Value → Checked (ServiceInfo Value)
  parse_proto proto = do
    expect (type_eq (get_type proto) type_object) "expect object"
    expect (get_size proto == 2) "expect 'name' and 'rpc' fields in object"
    name ← member_or "missing service name" (find_member proto (codes "name"))
    expect (type_eq (get_type name) type_string) "service name must be string"
    rpcs ← member_or "missing service rpc definition" (find_member proto (codes "rpc"))
    expect (type_eq (get_type rpcs) type_array) "rpc field must be array"
    parse_rpcs (get_size rpcs) 0 rpcs
        (record { name = get_string name; rpc_return = []; rpc_notify = [] })
