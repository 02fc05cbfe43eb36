-- ===== src/Zrpc/Server/Frame.antt =====
-- LALI/zrpc/server/BaseServer.cpp: the loop that takes messages from a connection's buffer.
use lali_rpc_frame.Base.{
  Bytes, ltb, leb, ◌==◌, if◌then◌else◌, take, ℕ, zero, suc, ◌+◌, Bool, true, false, Option, none,
  some, List, [], ◌∷◌, ◌++◌,
}
use lali_rpc_frame.Net.Buffer.{
  append, Buffer, readable, readable_bytes, find_crlf, retrieve, retrieve_as_string,
}
use lali_rpc_frame.Zrpc.Json.{Json}
use lali_rpc_frame.Zrpc.Thrown.{Thrown, exception, text, ok, throws, Run}
use lali_rpc_frame.Zrpc.Procedure.{RpcService, Event}
use lali_rpc_frame.Zrpc.Header.{header_length, frame}
use lali_rpc_frame.Zrpc.Server.{handle_request}

-- kMaxMessageLen.
abbrev pub max_message_len : ℕ
max_message_len = 104857600

-- What one round of the loop finds: the loop is left with a buffer, something is thrown with the
-- buffer as it was, or a request is taken.
pub data Turn : Type 0 where
  stops : Buffer → Turn
  refuses : Thrown → Turn
  takes : Bytes → Buffer → Turn

-- What a message has done in the end: `thrown` is what leaves the function.
pub record Outcome (E : Type 0) : Type 0 where
  pub events : List E
  pub buffer : Buffer
  pub thrown : Option Thrown

unfoldable pub send_response : (j : Json) → j.Value → Bytes
send_response j response = frame (j.write response)

module _ (j : Json) where
  -- The body of a message of `n` bytes, behind a header of `header_len` bytes.
  unfoldable pub take_body : ℕ → ℕ → Buffer → Turn
  take_body header_len n b =
      if leb max_message_len n
      then refuses (text "message is too long")
      else if ltb (readable_bytes b) (header_len + n)
      then stops b
      else takes (retrieve_as_string (retrieve header_len b)).0
          (retrieve_as_string (retrieve header_len b)).1

  unfoldable pub take_message : ℕ → Buffer → Turn
  take_message header_len b = elim (header_length j (take header_len (readable b))) [
    | none ↦ refuses (text "invalid message length")
    | some n ↦ take_body header_len n b
  ]

  unfoldable pub read_turn : Buffer → Turn
  read_turn b = elim (find_crlf b) [
    | none ↦ stops b
    | some position ↦ if position == 0 then stops (retrieve 2 b) else take_message (position + 2) b
  ]

  module _ {C : Type 0} (services : List (Bytes × RpcService C)) where
    -- The calls that a request has made stand before those of the rounds after it.
    abbrev pub continue_with :
        Run (Event C j.Value) (Unit {0})
        → Buffer
        → Option (Outcome (Event C j.Value))
        → Option (Outcome (Event C j.Value))
    continue_with m b rest = elim m.result [
      | throws t ↦ some (record { events = m.events; buffer = b; thrown = some t })
      | ok u ↦ elim rest [
        | none ↦ none
        | some o ↦ some (record o { events = m.events ++ o.events })
      ]
    ]

    -- `while (true)`, on fuel.
    unfoldable pub handle_message : ℕ → Buffer → Option (Outcome (Event C j.Value))
    handle_message zero b = none
    handle_message (suc fuel) b = elim (read_turn b) [
      | stops b' ↦ some (record { events = []; buffer = b'; thrown = none })
      | refuses t ↦ some (record { events = []; buffer = b; thrown = some t })
      | takes json b' ↦ continue_with (handle_request j services json) b' (handle_message fuel b')
    ]

    -- The handler of `const char*`: an `Exception` goes on to the caller.
    abbrev pub uncaught : Option Thrown → Option Thrown
    uncaught none = none
    uncaught (some (text message)) = none
    uncaught (some (exception what)) = some (exception what)

    abbrev pub has_thrown : Option Thrown → Bool
    has_thrown none = false
    has_thrown (some t) = true

    unfoldable pub on_message : ℕ → Buffer → Option (Outcome (Event C j.Value))
    on_message fuel b = elim (handle_message fuel b) [
      | none ↦ none
      | some o ↦ some (record o { thrown = uncaught o.thrown })
    ]

    -- Packets that arrive on a connection: each is appended to the buffer and reported, with the calls
    -- that they make. An exception that leaves `on_message` ends the program.
    unfoldable pub receives : List Bytes → Buffer → Option (List (Event C j.Value) × Buffer)
    receives [] b = some ([], b)
    receives (packet ∷ packets) b = elim (on_message 2 (append packet b)) [
      | none ↦ none
      | some o ↦ if has_thrown o.thrown then none else elim (receives packets o.buffer) [
        | none ↦ none
        | some (events, b') ↦ some (o.events ++ events, b')
      ]
    ]
