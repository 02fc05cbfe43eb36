-- ===== src/Net/TcpServer/Tests.antt =====
-- The theorem on a server's connections at a concrete run.
use lali_rpc_frame.Base.{bytes_eq, codes, if◌then◌else◌, ℕ, ◌≡◌, none, some, List, [], ◌∷◌}
use lali_rpc_frame.Base.Dict.{lookup}
use lali_rpc_frame.Net.LoopPool.{LoopPool}
use lali_rpc_frame.Net.Acceptor.{accepts, out_of_descriptors}
use lali_rpc_frame.Net.TcpServer.{
  TcpServer, new_server, conn_name, next_connection, new_connection, destroy_connection_in_loop, Op,
  starts, reads, destroys, run,
}
use lali_rpc_frame.Net.TcpServer.Fresh.{new_connection-fresh}

abbrev pool : LoopPool ℕ
pool = record { base_loop = 0; loops = 1 ∷ 2 ∷ []; next = 0 }

-- Two connections, of which the first is destroyed, and an accept without a free descriptor.
abbrev ops : List (Op ℕ)
ops =
    starts
    ∷ reads (accepts 7)
    ∷ reads (accepts 8)
    ∷ reads out_of_descriptors
    ∷ destroys (record { name = codes "host#1"; fd = 7; io_loop = 1 })
    ∷ []

abbrev served : TcpServer ℕ
served = run ops (new_server (codes "host") pool)

new_connection-fresh_example :
    (lookup (conn_name served.name served.conn_id) served.connection ≡ none)
    × (lookup (codes "host#2") (new_connection 9 served).connection ≡ (
        if bytes_eq (conn_name served.name served.conn_id) (codes "host#2")
        then some (next_connection 9 served)
        else lookup (codes "host#2") served.connection))
    × ((destroy_connection_in_loop (next_connection 9 served) (new_connection 9 served)).connection
        ≡ served.connection)
new_connection-fresh_example = new_connection-fresh (codes "host") pool ops 9 (codes "host#2")
