-- ===== src/Zrpc/Done/Library.antt =====
-- What LALI/zrpc/util.h relies on in the JSON library, and the members of the response that it builds.
use lali_rpc_frame.Base.{bytes_eq, Bytes, codes, suc, ◌≡◌, refl, ap, ◌∙◌, false, some, ◌++◌}
use lali_rpc_frame.Net.Buffer.Search.{crlf}
use lali_rpc_frame.Zrpc.Json.{Json, ValueType, type_object, type_string, type_int32}
use lali_rpc_frame.Zrpc.Done.{with_version, with_id, done_response}

-- What the JSON library documents of an object, of a text, of the addition of a member that is not
-- there, and of reading what was written: texts, int32 numbers and the names of members come back.
pub record MakesObject (j : Json) : Type 0 where
  pub type : j.get_type (j.new_value type_object) ≡ type_object
  pub size : j.get_size (j.new_value type_object) ≡ 0

pub record MakesText (j : Json) (s : Bytes) : Type 0 where
  pub type : j.get_type (j.of_string s) ≡ type_string
  pub text : j.get_string (j.of_string s) ≡ s

pub record AddsMember (j : Json) (v : j.Value) (k : Bytes) (w : j.Value) : Type 0 where
  pub found : j.find_member (j.add_member v k w) k ≡ some w
  pub others :
      (k' : Bytes)
      → bytes_eq k k' ≡ false
      → j.find_member (j.add_member v k w) k' ≡ j.find_member v k'
  pub type : j.get_type (j.add_member v k w) ≡ j.get_type v
  pub size : j.get_size (j.add_member v k w) ≡ suc (j.get_size v)

-- A member that is read again: a text and an int32 come back as they were.
abbrev pub IsSame : (j : Json) → ValueType → j.Value → j.Value → Type 0
IsSame j type_string w w' = (j.get_type w' ≡ type_string) × (j.get_string w' ≡ j.get_string w)
IsSame j type_int32 w w' = (j.get_type w' ≡ type_int32) × (j.get_int32 w' ≡ j.get_int32 w)
IsSame j _ w w' = Unit

pub record RereadsMember (j : Json) (v' : j.Value) (k : Bytes) (w : j.Value) : Type 0 where
  pub value : j.Value
  pub found : j.find_member v' k ≡ some value
  pub same : IsSame j (j.get_type w) w value

pub record Rereads (j : Json) (id result v' : j.Value) : Type 0 where
  pub parsed : j.parse (j.write (done_response j id result) ++ crlf) ≡ some v'
  pub type : j.get_type v' ≡ j.get_type (done_response j id result)
  pub size : j.get_size v' ≡ j.get_size (done_response j id result)
  pub version : RereadsMember j v' (codes "jsonrpc") (j.of_string (codes "2.0"))
  pub number : RereadsMember j v' (codes "id") id
  pub outcome : RereadsMember j v' (codes "result") result

-- What the library documents of the three members of a response.
pub record Builds (j : Json) (id result : j.Value) : Type 0 where
  pub object : MakesObject j
  pub text : MakesText j (codes "2.0")
  pub version : AddsMember j (j.new_value type_object) (codes "jsonrpc") (j.of_string (codes "2.0"))
  pub number : AddsMember j (with_version j) (codes "id") id
  pub outcome : AddsMember j (with_id j id) (codes "result") result

module _ (j : Json) (id result : j.Value) (h : Builds j id result) where
  pub built_type : j.get_type (done_response j id result) ≡ type_object
  unfolding done_response with_id with_version
  built_type = h.outcome.type ∙ h.number.type ∙ h.version.type ∙ h.object.type

  pub built_size : j.get_size (done_response j id result) ≡ 3
  unfolding done_response with_id with_version
  built_size =
      h.outcome.size ∙ ap suc (h.number.size ∙ ap suc (h.version.size ∙ ap suc h.object.size))

  pub built_result : j.find_member (done_response j id result) (codes "result") ≡ some result
  unfolding done_response
  built_result = h.outcome.found

  pub built_id : j.find_member (done_response j id result) (codes "id") ≡ some id
  unfolding done_response with_id bytes_eq
  built_id = h.outcome.others (codes "id") refl ∙ h.number.found

  pub built_version :
      j.find_member (done_response j id result) (codes "jsonrpc") ≡ some (j.of_string (codes "2.0"))
  unfolding done_response with_id with_version bytes_eq
  built_version =
      h.outcome.others (codes "jsonrpc") refl
      ∙ h.number.others (codes "jsonrpc") refl
      ∙ h.version.found
