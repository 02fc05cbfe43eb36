-- ===== src/Net/TcpClient/Tests.antt =====
-- The theorem on a client that connects again, at a concrete client.
use lali_rpc_frame.Base.{codes, ◌≡◌, some, [], ◌∷◌}
use lali_rpc_frame.Net.TcpClient.{Connection, conn_name}
use lali_rpc_frame.Net.TcpClient.Reconnect.{up, lose_all, lose_all-up}

abbrev first : Connection
first = record { name = codes "rpc:host#1"; fd = 3 }

lose_all-up_example :
    lose_all
      (codes "host")
      (4 ∷ 5 ∷ [])
      first
      (up (codes "rpc") 2 500 [] [] (3 ∷ []) (first ∷ []) [] first)
    ≡ some (
        up
          (codes "rpc")
          4
          500
          []
          []
          (3 ∷ 4 ∷ 5 ∷ [])
          (first
            ∷ record { name = conn_name (codes "rpc") (codes "host") 2; fd = 4 }
            ∷ record { name = conn_name (codes "rpc") (codes "host") 3; fd = 5 }
            ∷ [])
          (first ∷ record { name = conn_name (codes "rpc") (codes "host") 2; fd = 4 } ∷ [])
          (record { name = conn_name (codes "rpc") (codes "host") 3; fd = 5 }))
lose_all-up_example =
    lose_all-up (codes "rpc") (codes "host") (4 ∷ 5 ∷ []) 2 [] [] (3 ∷ []) (first ∷ []) [] first
