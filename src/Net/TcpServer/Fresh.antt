-- ===== src/Net/TcpServer/Fresh.antt =====
-- Every connection of a server has a name of its own (LALI/net/TcpServer.cpp).
use lali_rpc_frame.Base.{
  bytes_eq, Bytes, if◌then◌else◌, ℕ, ◌+◌, ◌≡◌, refl, Option, none, some, List, [], ◌∷◌, arith,
}
use lali_rpc_frame.Base.Dict.{lookup, lookup-assign}
use lali_rpc_frame.Net.LoopPool.{LoopPool}
use lali_rpc_frame.Net.Acceptor.{handle_read}
use lali_rpc_frame.Net.TcpServer.{
  TcpServer, new_server, start, conn_name, next_connection, new_connection,
  destroy_connection_in_loop, accepted, accept_read, Op, starts, reads, destroys, apply, run,
}
use lali_rpc_frame.Net.TcpServer.Names.{
  AllOld, AllOld-later, AllOld-assign, AllOld-erase, lookup_new, erase-assign_new,
}

module _ {L : Type 0} where
  abbrev IsNumbered : TcpServer L → Type 0
  IsNumbered s = AllOld s.name s.conn_id s.connection

  new_connection-IsNumbered :
      (socketfd : ℕ) (s : TcpServer L) → IsNumbered s → IsNumbered (new_connection socketfd s)
  unfolding new_connection
  new_connection-IsNumbered socketfd s v =
      AllOld-assign s.name (s.conn_id + 1) (conn_name s.name s.conn_id) (next_connection socketfd s)
        s.connection (record { id = s.conn_id; below = omega arith; named = refl })
        (AllOld-later s.name s.conn_id (s.conn_id + 1) s.connection (omega arith) v)

  accepted-IsNumbered : (o : Option ℕ) (s : TcpServer L) → IsNumbered s → IsNumbered (accepted o s)
  unfolding accepted
  accepted-IsNumbered none s v = v
  accepted-IsNumbered (some socketfd) s v = new_connection-IsNumbered socketfd s v

  apply-IsNumbered : (op : Op L) (s : TcpServer L) → IsNumbered s → IsNumbered (apply op s)
  unfolding apply start accept_read destroy_connection_in_loop
  apply-IsNumbered starts s v = v
  apply-IsNumbered (reads result) s v =
      accepted-IsNumbered (handle_read result s.acceptor).0
        (record s { acceptor = (handle_read result s.acceptor).1 }) v
  apply-IsNumbered (destroys conn) s v = AllOld-erase s.name s.conn_id conn.name s.connection v

  run-IsNumbered : (ops : List (Op L)) (s : TcpServer L) → IsNumbered s → IsNumbered (run ops s)
  unfolding run
  run-IsNumbered [] s v = v
  run-IsNumbered (op ∷ ops) s v = run-IsNumbered ops (apply op s) (apply-IsNumbered op s v)

-- After any run of a new server, the name of the next connection is not in the map; the map then finds
-- the new connection by its name and every other name as before; and the destruction of the new
-- connection gives the map back as it was.
pub new_connection-fresh :
    {L : Type 0}
    → (name : Bytes) (pool : LoopPool L) (ops : List (Op L)) (socketfd : ℕ) (n : Bytes)
    → let s = run ops (new_server name pool) in
      (lookup (conn_name s.name s.conn_id) s.connection ≡ none)
      × (lookup n (new_connection socketfd s).connection ≡ (
          if bytes_eq (conn_name s.name s.conn_id) n
          then some (next_connection socketfd s)
          else lookup n s.connection))
      × ((destroy_connection_in_loop
            (next_connection socketfd s)
            (new_connection socketfd s)).connection
          ≡ s.connection)
unfolding new_connection destroy_connection_in_loop next_connection new_server
new_connection-fresh name pool ops socketfd n =
    let s = run ops (new_server name pool) in
    let v = run-IsNumbered ops (new_server name pool) tt in
    (
      lookup_new s.name s.conn_id s.connection v,
      lookup-assign (conn_name s.name s.conn_id) n (next_connection socketfd s) s.connection,
      erase-assign_new s.name s.conn_id (next_connection socketfd s) s.connection v,
    )
