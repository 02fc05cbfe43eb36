-- ===== src/Net/TcpConnection.antt =====
-- LALI/net/TcpConnection.h and TcpConnection.cpp: a connection in its loop's thread, with the two
-- flags of its channel (LALI/net/Channel.h). What write(2) and readv(2) give are arguments. The
-- user's callbacks and the calls on the socket and the loop are events.
pub mod Stream
pub mod Pending
mod Tests
use lali_rpc_frame.Base.{
  [], Bytes, ltb, ◌==◌, if◌then◌else◌, length, take, drop, ℕ, zero, suc, ◌+◌, ◌-◌, Bool, true,
  false, not, ◌&&◌, ◌||◌, Option, none, some, List, ◌∷◌, ◌++◌,
}
use lali_rpc_frame.Net.Buffer.{
  Buffer, ReadResult, readable, readable_bytes, retrieve, append, read_fd,
}

pub data State : Type 0 where
  connecting connected disconnecting disconnected : State

pub record Connection : Type 0 where
  pub state : State
  pub reading : Bool
  pub writing : Bool
  pub input : Buffer
  pub output : Buffer
  pub has_write_complete : Bool
  pub has_high_water : Bool
  pub high_water_mark : ℕ

pub data WriteResult : Type 0 where
  wrote : ℕ → WriteResult
  write_failed : WriteResult

-- `sends` is what the system has accepted.
pub data Event : Type 0 where
  sends : Bytes → Event
  shuts_down_write reports_connection reports_close queues_write_complete removes_channel : Event
  reports_message queues_high_water : ℕ → Event

unfoldable pub is_connected : State → Bool
is_connected connected = true
is_connected _ = false

unfoldable pub is_disconnecting : State → Bool
is_disconnecting disconnecting = true
is_disconnecting _ = false

unfoldable pub connect_established : Connection → List Event × Connection
connect_established c = (reports_connection ∷ [], record c { state = connected; reading = true })

-- `disableAll` computes the new flags and drops them.
abbrev pub disable_all : Connection → Connection
disable_all c = c

unfoldable pub connect_destroyed : Connection → List Event × Connection
connect_destroyed c =
    (reports_connection ∷ removes_channel ∷ [], disable_all (record c { state = disconnected }))

-- `none` is the failed assertion.
unfoldable pub handle_close : Connection → Option (List Event × Connection)
handle_close c =
    if is_connected c.state || is_disconnecting c.state
    then some (reports_close ∷ [], disable_all c)
    else none

-- No error is handled: `handleError` only asks for it.
abbrev pub after_read : Option ℕ → Connection → Option (List Event × Connection)
after_read none c = some ([], c)
after_read (some zero) c = handle_close c
after_read (some (suc n)) c = some (reports_message (suc n) ∷ [], c)

unfoldable pub handle_read : ReadResult → Connection → Option (List Event × Connection)
handle_read r c = after_read (read_fd r c.input).0 (record c { input = (read_fd r c.input).1 })

-- The write to the socket is tried only where nothing waits.
unfoldable pub writes_at_once : Connection → Bool
writes_at_once c = not c.writing && (readable_bytes c.output == 0)

-- What the first write gives: `n`, and the events.
unfoldable pub first_write : Bytes → WriteResult → Bool → Bool → ℕ × List Event
first_write message (wrote n) true complete = (
  n,
  sends (take n message)
      ∷ (if length message - n == 0 && complete then queues_write_complete ∷ [] else []),
)
first_write message _ _ complete = (0, [])

unfoldable pub high_water_events : ℕ → Connection → List Event
high_water_events remaining c =
    let old_len = readable_bytes c.output in
    if ltb c.high_water_mark (old_len + remaining)
      && (ltb old_len c.high_water_mark && c.has_high_water)
    then queues_high_water (old_len + remaining) ∷ []
    else []

-- `append` and `enableWriting`.
unfoldable pub buffer_rest : ℕ → Bytes → Connection → Connection
buffer_rest n message c = record c { output = append (drop n message) c.output; writing = true }

-- The first of the two blocks behind the write, with its events.
unfoldable pub buffer_remaining : ℕ → Bytes → Connection → List Event × Connection
buffer_remaining n message c =
    if ltb 0 (length message - n)
    then (high_water_events (length message - n) c, buffer_rest n message c)
    else ([], c)

-- The second one.
unfoldable pub buffer_unwritten : ℕ → Bytes → Connection → Connection
buffer_unwritten n message c = if ltb n (length message) then buffer_rest n message c else c

unfoldable pub send_in_loop : Bytes → WriteResult → Connection → List Event × Connection
send_in_loop message result c =
    let first = first_write message result (writes_at_once c) c.has_write_complete in
    let block = buffer_remaining first.0 message c in
    (first.1 ++ block.0, buffer_unwritten first.0 message block.1)

unfoldable pub send : Bytes → WriteResult → Connection → List Event × Connection
send message result c = if is_connected c.state then send_in_loop message result c else ([], c)

unfoldable pub shutdown_in_loop : Connection → List Event
shutdown_in_loop c = if c.writing then [] else shuts_down_write ∷ []

-- What follows a write of `n` bytes of the output.
unfoldable pub after_write : Bytes → Connection → List Event × Connection
after_write accepted c =
    if readable_bytes c.output == 0
    then (
      sends accepted
          ∷ (if is_disconnecting c.state
              then shutdown_in_loop (record c { writing = false })
              else []),
      record c { writing = false },
    )
    else (sends accepted ∷ [], c)

abbrev pub write_output : WriteResult → Connection → List Event × Connection
write_output write_failed c = ([], c)
write_output (wrote zero) c = ([], c)
write_output (wrote (suc n)) c =
    after_write (take (suc n) (readable c.output)) (record c { output = retrieve (suc n) c.output })

unfoldable pub handle_write : WriteResult → Connection → List Event × Connection
handle_write result c = if c.writing then write_output result c else ([], c)

unfoldable pub shutdown : Connection → List Event × Connection
shutdown c =
    if is_connected c.state
    then (shutdown_in_loop c, record c { state = disconnecting })
    else ([], c)
