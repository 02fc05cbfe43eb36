-- ===== src/Net/TcpClient.antt =====
-- LALI/net/TcpClient.cpp: a client over the connector. The socket of each attempt and the text of the
-- peer's address are arguments; `none` stands for what `none` stands for in the connector.
-- `established` and `destroyed` record the connections that were set up, and those whose
-- connectDestroyed was queued.
pub mod Reconnect
mod Tests
use lali_rpc_frame.Base.{
  [], Bytes, if◌then◌else◌, ℕ, ◌+◌, Bool, true, false, not, ◌&&◌, Option, none, some, List, ◌∷◌,
  ◌++◌, take,
}
use lali_rpc_frame.Base.Decimal.{to_decimal}
use lali_rpc_frame.Net.Connector.{
  Connector, new_connector, start, restart, stop_in_loop, handle_write, reset_channel,
}

pub record Connection : Type 0 where
  pub name : Bytes
  pub fd : ℕ

pub record TcpClient : Type 0 where
  pub name : Bytes
  pub retry : Bool
  pub connects : Bool
  pub next_conn_id : ℕ
  pub connector : Connector
  pub connection : Option Connection
  pub established : List Connection
  pub destroyed : List Connection
  pub shutdowns : List Connection

unfoldable pub new_client : Bytes → TcpClient
new_client name = record {
  name = name;
  retry = false;
  connects = true;
  next_conn_id = 1;
  connector = new_connector;
  connection = none;
  established = [];
  destroyed = [];
  shutdowns = [];
}

unfoldable pub enable_retry : TcpClient → TcpClient
enable_retry c = record c { retry = true }

unfoldable pub with_connector : Option Connector → TcpClient → Option TcpClient
with_connector none c = none
with_connector (some connector) c = some (record c { connector = connector })

unfoldable pub connect : ℕ → TcpClient → Option TcpClient
connect sockfd c = with_connector (start sockfd c.connector) (record c { connects = true })

abbrev shut_down : Option Connection → List Connection
shut_down none = []
shut_down (some conn) = conn ∷ []

unfoldable pub disconnect : TcpClient → TcpClient
disconnect c = record c { connects = false; shutdowns = c.shutdowns ++ shut_down c.connection }

-- `stop`, and the call of the connector's stopInLoop that it queues.
unfoldable pub stop : TcpClient → TcpClient
stop c = record c { connects = false }

unfoldable pub stop_connector : TcpClient → Option TcpClient
stop_connector c = with_connector (stop_in_loop c.connector) c

-- `snprintf` into 32 bytes: the text behind the name of the client is cut off behind its first 31 bytes.
unfoldable pub conn_name : Bytes → Bytes → ℕ → Bytes
conn_name name peer id = name ++ take 31 (b':' ∷ (peer ++ b'#' ∷ to_decimal id))

unfoldable pub new_connection : Bytes → ℕ → TcpClient → TcpClient
new_connection peer sockfd c =
    let conn : Connection = record { name = conn_name c.name peer c.next_conn_id; fd = sockfd } in
    record c {
      next_conn_id = c.next_conn_id + 1;
      connection = some conn;
      established = c.established ++ conn ∷ [];
    }

unfoldable pub remove_connection : ℕ → Connection → TcpClient → Option TcpClient
remove_connection sockfd conn c =
    let removed = record c { connection = none; destroyed = c.destroyed ++ conn ∷ [] } in
    if c.retry && c.connects
    then with_connector (restart sockfd c.connector) removed
    else some removed

-- The socket of an attempt is ready: the connector calls `newConnection` where there is no error and it
-- still connects.
unfoldable pub ready_at : Option ℕ → Bytes → Bool → TcpClient → Option TcpClient
ready_at none peer error c = none
ready_at (some sockfd) peer error c =
    with_connector (handle_write error c.connector)
      (if not error && c.connector.connects then new_connection peer sockfd c else c)

unfoldable pub ready : Bytes → Bool → TcpClient → Option TcpClient
ready peer error c = ready_at c.connector.channel peer error c

unfoldable pub reset : TcpClient → TcpClient
reset c = record c { connector = reset_channel c.connector }
