-- ===== src/Net/Connector.antt =====
-- LALI/net/Connector.cpp: connecting to a server, with retries. A socket is a number that the system
-- gives, and an error of a socket is an argument. `none` stands for a null channel that is followed and
-- for the assertion that there is no channel. What goes out is recorded: the sockets that are closed,
-- the timers for `startInLoop` in milliseconds, and the sockets given to the callback.
pub mod Retry
pub mod Bounds
mod Tests
use lali_rpc_frame.Base.{
  [], if◌then◌else◌, ℕ, ◌+◌, ◌-◌, ◌*◌, min, Bool, true, false, Option, none, some, List, ◌∷◌, ◌++◌,
}

pub record Connector : Type 0 where
  pub connects : Bool
  pub channel : Option ℕ
  pub retry_delay_ms : ℕ
  pub resets : ℕ
  pub closed : List ℕ
  pub timers : List ℕ
  pub connections : List ℕ

abbrev pub init_retry_delay_ms : ℕ
init_retry_delay_ms = 500

abbrev pub max_retry_delay_ms : ℕ
max_retry_delay_ms = 30 * 1000

unfoldable pub new_connector : Connector
new_connector = record {
  connects = false;
  channel = none;
  retry_delay_ms = init_retry_delay_ms;
  resets = 0;
  closed = [];
  timers = [];
  connections = [];
}

unfoldable pub connecting_at : Option ℕ → ℕ → Connector → Option Connector
connecting_at none sockfd c = some (record c { channel = some sockfd })
connecting_at (some old) sockfd c = none

-- `connect` and `connecting`, with the new socket; the result of connect(2) is not looked at.
unfoldable pub connect : ℕ → Connector → Option Connector
connect sockfd c = connecting_at c.channel sockfd c

unfoldable pub start_in_loop : ℕ → Connector → Option Connector
start_in_loop sockfd c = if c.connects then connect sockfd c else some c

unfoldable pub start : ℕ → Connector → Option Connector
start sockfd c = start_in_loop sockfd (record c { connects = true })

unfoldable pub restart : ℕ → Connector → Option Connector
restart sockfd c =
    start_in_loop sockfd (record c { retry_delay_ms = init_retry_delay_ms; connects = true })

unfoldable pub retry : ℕ → Connector → Connector
retry sockfd c =
    if c.connects
    then record c {
      closed = c.closed ++ sockfd ∷ [];
      timers = c.timers ++ c.retry_delay_ms ∷ [];
      retry_delay_ms = min (c.retry_delay_ms * 2) max_retry_delay_ms;
    }
    else record c { closed = c.closed ++ sockfd ∷ [] }

-- The channel leaves the poller; it is destroyed later, by `resetChannel`, which is queued.
unfoldable pub remove_and_reset_channel : Connector → Connector
remove_and_reset_channel c = record c { resets = c.resets + 1 }

unfoldable pub reset_channel : Connector → Connector
reset_channel c = record c { channel = none; resets = c.resets - 1 }

unfoldable pub stop_at : Option ℕ → Connector → Option Connector
stop_at none c = none
stop_at (some sockfd) c = some (retry sockfd (remove_and_reset_channel c))

unfoldable pub stop_in_loop : Connector → Option Connector
stop_in_loop c = stop_at c.channel c

unfoldable pub written : Bool → ℕ → Connector → Connector
written error sockfd c =
    if error
    then retry sockfd c
    else if c.connects
    then record c { connections = c.connections ++ sockfd ∷ [] }
    else record c { closed = c.closed ++ sockfd ∷ [] }

unfoldable pub handle_write_at : Option ℕ → Bool → Connector → Option Connector
handle_write_at none error c = none
handle_write_at (some sockfd) error c = some (written error sockfd (remove_and_reset_channel c))

unfoldable pub handle_write : Bool → Connector → Option Connector
handle_write error c = handle_write_at c.channel error c

-- What the loop calls; a reset only where one is queued.
pub data Op : Type 0 where
  starts : ℕ → Op
  fires : ℕ → Op
  restarts : ℕ → Op
  stops : Op
  writes : Bool → Op
  resets_channel : Op

unfoldable pub apply : Op → Connector → Option Connector
apply (starts sockfd) c = start sockfd c
apply (fires sockfd) c = start_in_loop sockfd c
apply (restarts sockfd) c = restart sockfd c
apply stops c = stop_in_loop c
apply (writes error) c = handle_write error c
apply resets_channel c = some (reset_channel c)

unfoldable pub run_from : List Op → Option Connector → Option Connector
run_from ops none = none
run_from [] (some c) = some c
run_from (op ∷ ops) (some c) = run_from ops (apply op c)

abbrev pub run : List Op → Connector → Option Connector
run ops c = run_from ops (some c)
