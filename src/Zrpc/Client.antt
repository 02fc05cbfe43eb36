-- ===== src/Zrpc/Client.antt =====
-- LALI/zrpc/client/RpcClient.h and RpcClient.cpp: calls are sent with fresh numbers, and the
-- callback of a call is kept under its number until the response arrives.
pub mod Calls
pub mod Answers
pub mod Delivery
mod Tests
use lali_rpc_frame.Base.{
  [], bytes_eq, Bytes, codes, ltb, leb, ◌==◌, if◌then◌else◌, take, ℕ, zero, suc, ◌+◌, Bool, true,
  false, not, Option, none, some, List, ◌∷◌, ◌++◌,
}
use Prim.Native.String.{String}
use lali_rpc_frame.Base.Int.{ℤ, pos, negsuc}
use lali_rpc_frame.Net.Buffer.{
  Buffer, readable, readable_bytes, find_crlf, retrieve, retrieve_as_string,
}
use lali_rpc_frame.Zrpc.Json.{
  Json, ValueType, type_object, type_array, type_string, type_int32, type_eq,
}
use lali_rpc_frame.Zrpc.Thrown.{
  Thrown, exception, Result, ok, throws, Run, pure, throw, refuse, emit, bind, after, ◌>>=◌, ◌>>◌,
}
use lali_rpc_frame.Zrpc.Header.{header_length, frame}

-- kMaxMessageLen.
abbrev pub max_message_len : ℕ
max_message_len = 65536

-- A callback is the user's, an element of a type `C`. `callbacks` is the map, the newest entry first.
pub record Client (C : Type 0) : Type 0 where
  pub id : ℕ
  pub callbacks : List (ℕ × C)

-- A callback that is called, with the value and whether it is an error.
pub data Answer (C V : Type 0) : Type 0 where
  answers : C → V → Bool → Answer C V

-- What a message has done in the end: `thrown` is what leaves the function.
pub record Reply (C V : Type 0) : Type 0 where
  pub events : List (Answer C V)
  pub client : Client C
  pub thrown : Option Thrown

-- What one round of the loop finds: it waits for more bytes, throws with a buffer, or takes a response.
pub data ClientTurn : Type 0 where
  waits : ClientTurn
  refuses : Thrown → Buffer → ClientTurn
  takes : Bytes → Buffer → ClientTurn

unfoldable pub find_callback : {C : Type 0} → ℕ → List (ℕ × C) → Option C
find_callback id [] = none
find_callback id ((k, c) ∷ rest) =
    let later = find_callback id rest in if k == id then some c else later

-- std::unordered_map::erase, and what an assignment replaces.
unfoldable pub erase_callback : {C : Type 0} → ℕ → List (ℕ × C) → List (ℕ × C)
erase_callback id [] = []
erase_callback id ((k, c) ∷ rest) =
    let later = erase_callback id rest in if k == id then later else (k, c) ∷ later

module _ (j : Json) where
  open j use {Value, get_type, get_size, element, find_member, get_string, get_int32, parse, write}

  unfoldable pub send_request : Value → Bytes
  send_request request = frame (write request)

  -- The bytes that are sent, and the client afterwards. The number is an int64 that does not wrap here.
  unfoldable pub send_call : {C : Type 0} → Value → C → Client C → Bytes × Client C
  send_call call cb client = (
    send_request (j.add_member call (codes "id") (j.of_int64 (pos client.id))),
    record {
      id = suc client.id;
      callbacks = (client.id, cb) ∷ erase_callback client.id client.callbacks;
    },
  )

  unfoldable pub send_notify : Value → Bytes
  send_notify notify = send_request notify

  unfoldable pub find_value : {E : Type 0} → Value → Bytes → ValueType → Run E Value
  find_value value key type = elim (find_member value key) [
    | none ↦ throw (exception "missing at least one field")
    | some v ↦ do
      refuse (not (type_eq (get_type v) type)) (exception "bad type of at least one field")
      pure v
  ]

  unfoldable pub is_result : Value → Bool
  is_result response = elim (find_member response (codes "result")) [ none ↦ false | some v ↦ true ]

  unfoldable pub require_error : {E : Type 0} → Value → Run E (Unit {0})
  require_error response =
      if is_result response
      then pure tt
      else find_value response (codes "error") type_object >>= λ e. pure tt

  unfoldable pub validate_response : {E : Type 0} → Value → Run E (Unit {0})
  validate_response response = do
    refuse (not (get_size response == 3)) (exception "response should have 3 field")
    id ← find_value response (codes "id") type_int32
    version ← find_value response (codes "jsonrpc") type_string
    refuse (not (bytes_eq (get_string version) (codes "2.0")))
        (exception "unkonwn json rpc version")
    require_error response

  -- A number that is negative is never that of a call.
  unfoldable pub id_of : Value → Option ℕ
  id_of response = elim (find_member response (codes "id")) [
    | none ↦ none
    | some v ↦ elim (get_int32 v) [ pos n ↦ some n | negsuc n ↦ none ]
  ]

  unfoldable pub answer_of : {C : Type 0} → Value → C → List (Answer C Value)
  answer_of response cb = elim (find_member response (codes "result")) [
    | some result ↦ answers cb result false ∷ []
    | none ↦ elim (find_member response (codes "error")) [
      | some error ↦ answers cb error true ∷ []
      | none ↦ []
    ]
  ]

  -- The callback of the response's number is called and then erased.
  unfoldable pub deliver :
      {C : Type 0} → Value → Option ℕ → Client C → List (Answer C Value) × Client C
  deliver response none client = ([], client)
  deliver response (some id) client = elim (find_callback id client.callbacks) [
    | none ↦ ([], client)
    | some cb ↦
        (answer_of response cb, record client { callbacks = erase_callback id client.callbacks })
  ]

  unfoldable pub handle_single_response : {C : Type 0} → Value → Client C → Reply C Value
  handle_single_response {C} response client =
      elim (validate_response {E = Answer C Value} response).result [
        | throws t ↦ record { events = []; client = client; thrown = some t }
        | ok u ↦ record {
          events = (deliver response (id_of response) client).0;
          client = (deliver response (id_of response) client).1;
          thrown = none;
        }
      ]

  -- A step that has thrown ends the loop that it stands in.
  abbrev pub before : {C : Type 0} → Reply C Value → Reply C Value → Reply C Value
  before first rest = elim first.thrown [
    | some t ↦ first
    | none ↦ record rest { events = first.events ++ rest.events }
  ]

  -- The loop over an array, from the index `i`, with the rounds that are left.
  unfoldable pub handle_responses : {C : Type 0} → ℕ → ℕ → Value → Client C → Reply C Value
  handle_responses zero i response client = record { events = []; client = client; thrown = none }
  handle_responses (suc left) i response client =
      before (handle_single_response (element response i) client) (
        handle_responses left (suc i) response
          (handle_single_response (element response i) client).client)

  abbrev handle_value : {C : Type 0} → ValueType → Value → Client C → Reply C Value
  handle_value type_object response client = handle_single_response response client
  handle_value type_array response client =
      if get_size response == 0
      then record {
        events = [];
        client = client;
        thrown = some (exception "batcj response is empty");
      }
      else handle_responses (get_size response) 0 response client
  handle_value _ response client = record {
    events = [];
    client = client;
    thrown = some (exception "response should be json object or array");
  }

  unfoldable pub handle_response : {C : Type 0} → Bytes → Client C → Reply C Value
  handle_response json client = elim (parse json) [
    | none ↦ record {
      events = [];
      client = client;
      thrown = some (exception "response parse error");
    }
    | some response ↦ handle_value (get_type response) response client
  ]

  -- The body of a message of `n` bytes, behind a header of `header_len` bytes.
  unfoldable pub take_body : ℕ → ℕ → Buffer → ClientTurn
  take_body header_len n b =
      if leb max_message_len n
      then refuses (exception "message is too long") b
      else if ltb (readable_bytes b) (header_len + n)
      then waits
      else takes (retrieve_as_string (retrieve header_len b)).0
          (retrieve_as_string (retrieve header_len b)).1

  -- A header that holds no length is removed from the buffer.
  unfoldable pub read_turn : Buffer → ClientTurn
  read_turn b = elim (find_crlf b) [
    | none ↦ waits
    | some position ↦ elim (header_length j (take (position + 2) (readable b))) [
      | none ↦ refuses (exception "invalid message length") (retrieve (position + 2) b)
      | some n ↦ take_body (position + 2) n b
    ]
  ]

  abbrev pub and_then :
      {C : Type 0}
      → Reply C Value
      → Buffer
      → Option (Reply C Value × Buffer)
      → Option (Reply C Value × Buffer)
  and_then first b rest = elim first.thrown [
    | some t ↦ some (first, b)
    | none ↦ elim rest [ none ↦ none | some (reply, b') ↦ some (before first reply, b') ]
  ]

  -- `while (1)`, on fuel.
  unfoldable pub handle_message :
      {C : Type 0} → ℕ → Buffer → Client C → Option (Reply C Value × Buffer)
  handle_message zero b client = none
  handle_message (suc fuel) b client = elim (read_turn b) [
    | waits ↦ some (record { events = []; client = client; thrown = none }, b)
    | refuses t b' ↦ some (record { events = []; client = client; thrown = some t }, b')
    | takes json b' ↦
        and_then (handle_response json client) b'
          (handle_message fuel b' (handle_response json client).client)
  ]

  -- The handler of `Exception`: every throw in reach is one.
  unfoldable pub on_message : {C : Type 0} → ℕ → Buffer → Client C → Option (Reply C Value × Buffer)
  on_message fuel b client = elim (handle_message fuel b client) [
    | none ↦ none
    | some (reply, b') ↦ some (record reply { thrown = none }, b')
  ]
