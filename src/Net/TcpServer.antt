-- ===== src/Net/TcpServer.antt =====
-- LALI/net/TcpServer.cpp: the connections of a server, by name, over the pool of loops and the acceptor.
-- A loop is an element of a type `L`. `established` and `destroyed` record, in order, the connections
-- whose connectEstablished was passed to their loop, and whose connectDestroyed was queued in it.
pub mod Names
pub mod Fresh
mod Tests
use lali_rpc_frame.Base.{
  [], Bytes, if◌then◌else◌, ℕ, ◌+◌, Bool, true, false, Option, none, some, List, ◌∷◌, ◌++◌,
}
use lali_rpc_frame.Base.Dict.{assign, erase}
use lali_rpc_frame.Base.Decimal.{to_decimal}
use lali_rpc_frame.Net.LoopPool.{LoopPool, get_next_loop}
use lali_rpc_frame.Net.Acceptor.{Acceptor, new_acceptor, Accepted, listen, handle_read}

pub record Connection (L : Type 0) : Type 0 where
  pub name : Bytes
  pub fd : ℕ
  pub io_loop : L

-- `conn_id` is an int, and no server makes 2 ^ 31 connections.
pub record TcpServer (L : Type 0) : Type 0 where
  pub name : Bytes
  pub started : Bool
  pub acceptor : Acceptor
  pub conn_id : ℕ
  pub thread_pool : LoopPool L
  pub connection : List (Bytes × Connection L)
  pub established : List (Connection L)
  pub destroyed : List (Connection L)

unfoldable pub conn_name : Bytes → ℕ → Bytes
conn_name name id = name ++ b'#' ∷ to_decimal id

module _ {L : Type 0} where
  unfoldable pub new_server : Bytes → LoopPool L → TcpServer L
  new_server name pool = record {
    name = name;
    started = false;
    acceptor = record new_acceptor { has_callback = true };
    conn_id = 1;
    thread_pool = pool;
    connection = [];
    established = [];
    destroyed = [];
  }

  -- The threads of the pool are started elsewhere.
  unfoldable pub start : TcpServer L → TcpServer L
  start s = record s {
    started = true;
    acceptor = if s.acceptor.listenning then s.acceptor else listen s.acceptor;
  }

  unfoldable pub next_connection : ℕ → TcpServer L → Connection L
  next_connection socketfd s = record {
    name = conn_name s.name s.conn_id;
    fd = socketfd;
    io_loop = (get_next_loop s.thread_pool).0;
  }

  unfoldable pub new_connection : ℕ → TcpServer L → TcpServer L
  new_connection socketfd s = record s {
    conn_id = s.conn_id + 1;
    thread_pool = (get_next_loop s.thread_pool).1;
    connection = assign (conn_name s.name s.conn_id) (next_connection socketfd s) s.connection;
    established = s.established ++ next_connection socketfd s ∷ [];
  }

  unfoldable pub destroy_connection_in_loop : Connection L → TcpServer L → TcpServer L
  destroy_connection_in_loop conn s = record s {
    connection = erase conn.name s.connection;
    destroyed = s.destroyed ++ conn ∷ [];
  }

  -- The callback that the constructor gives to the acceptor.
  unfoldable pub accepted : Option ℕ → TcpServer L → TcpServer L
  accepted none s = s
  accepted (some socketfd) s = new_connection socketfd s

  unfoldable pub accept_read : Accepted → TcpServer L → TcpServer L
  accept_read result s =
      accepted (handle_read result s.acceptor).0
        (record s { acceptor = (handle_read result s.acceptor).1 })

pub data Op (L : Type 0) : Type 0 where
  starts : Op L
  reads : Accepted → Op L
  destroys : Connection L → Op L

module _ {L : Type 0} where
  unfoldable pub apply : Op L → TcpServer L → TcpServer L
  apply starts s = start s
  apply (reads result) s = accept_read result s
  apply (destroys conn) s = destroy_connection_in_loop conn s

  unfoldable pub run : List (Op L) → TcpServer L → TcpServer L
  run [] s = s
  run (op ∷ ops) s = run ops (apply op s)
