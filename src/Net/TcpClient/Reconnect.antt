-- ===== src/Net/TcpClient/Reconnect.antt =====
-- A client that connects again whenever its connection is lost (LALI/net/TcpClient.cpp and
-- Connector.cpp).
use lali_rpc_frame.Base.{
  Bytes, length, ℕ, suc, ◌+◌, ◌≡◌, refl, sym, ap, ◌∙◌, true, false, Option, none, some, List, [],
  ◌∷◌, ◌++◌, append_assoc, append-nil, arith,
}
use lali_rpc_frame.Net.Connector.{
  restart, start_in_loop, connecting_at, connect as open_channel, handle_write, handle_write_at,
  written, remove_and_reset_channel, reset_channel, init_retry_delay_ms,
}
use lali_rpc_frame.Net.TcpClient.{
  Connection, TcpClient, with_connector, conn_name, new_connection, remove_connection, ready_at,
  ready, reset,
}

-- A client that retries, with a connection and an idle connector; `connections` are the sockets that the
-- connector has handed over.
abbrev pub up :
    Bytes
    → ℕ
    → ℕ
    → List ℕ
    → List ℕ
    → List ℕ
    → List Connection
    → List Connection
    → Connection
    → TcpClient
up name id delay closed timers connections established destroyed conn = record {
  name = name;
  retry = true;
  connects = true;
  next_conn_id = id;
  connector = record {
    connects = true;
    channel = none;
    retry_delay_ms = delay;
    resets = 0;
    closed = closed;
    timers = timers;
    connections = connections;
  };
  connection = some conn;
  established = established;
  destroyed = destroyed;
  shutdowns = [];
}

abbrev on_client : (TcpClient → Option TcpClient) → Option TcpClient → Option TcpClient
on_client f none = none
on_client f (some c) = f c

-- The connection is lost, the new socket gets ready, and the channel goes.
abbrev pub lose : Bytes → ℕ → Connection → TcpClient → Option TcpClient
lose peer sockfd conn c =
    on_client (λ d. some (reset d)) (on_client (ready peer false) (remove_connection sockfd conn c))

-- The same for each socket in turn, from a connection on.
abbrev pub current : Connection → Option Connection → Connection
current conn none = conn
current conn (some later) = later

unfoldable pub lose_all : Bytes → List ℕ → Connection → TcpClient → Option TcpClient
lose_all peer [] conn c = some c
lose_all peer (sockfd ∷ sockets) conn c = elim (lose peer sockfd conn c) [
  | none ↦ none
  | some d ↦ lose_all peer sockets (current conn d.connection) d
]

-- The connections of the sockets, numbered from `id` on.
abbrev pub made : Bytes → Bytes → ℕ → List ℕ → List Connection
made name peer id [] = []
made name peer id (sockfd ∷ sockets) =
    record { name = conn_name name peer id; fd = sockfd } ∷ made name peer (id + 1) sockets

abbrev pub last_of : Connection → List Connection → Connection
last_of conn [] = conn
last_of conn (later ∷ more) = last_of later more

abbrev pub but_last : Connection → List Connection → List Connection
but_last conn [] = []
but_last conn (later ∷ more) = conn ∷ but_last later more

up_same :
    (name : Bytes) (id id' : ℕ) (closed timers connections connections' : List ℕ)
    (established established' destroyed destroyed' : List Connection) (conn : Connection)
    → id ≡ id'
    → connections ≡ connections'
    → established ≡ established'
    → destroyed ≡ destroyed'
    → up name id init_retry_delay_ms closed timers connections established destroyed conn
      ≡ up name id' init_retry_delay_ms closed timers connections' established' destroyed' conn
up_same name id id' closed timers connections connections' established established' destroyed
      destroyed' conn h k l m =
    ap (λ x. up name x init_retry_delay_ms closed timers connections established destroyed conn) h
    ∙ ap (λ x. up name id' init_retry_delay_ms closed timers x established destroyed conn) k
    ∙ ap (λ x. up name id' init_retry_delay_ms closed timers connections' x destroyed conn) l
    ∙ ap (λ x. up name id' init_retry_delay_ms closed timers connections' established' x conn) m

lose-up :
    (name peer : Bytes) (id delay : ℕ) (closed timers connections : List ℕ)
    (established destroyed : List Connection) (conn : Connection) (sockfd : ℕ)
    → lose peer sockfd conn (up name id delay closed timers connections established destroyed conn)
      ≡ some (
          up name
            (id + 1)
            init_retry_delay_ms
            closed
            timers
            (connections ++ sockfd ∷ [])
            (established ++ record { name = conn_name name peer id; fd = sockfd } ∷ [])
            (destroyed ++ conn ∷ [])
            (record { name = conn_name name peer id; fd = sockfd }))
unfolding remove_connection with_connector restart start_in_loop ready ready_at reset new_connection
    handle_write handle_write_at written remove_and_reset_channel reset_channel connecting_at
    open_channel
lose-up name peer id delay closed timers connections established destroyed conn sockfd = refl

-- A client that retries and loses its connection again and again, each time with a new socket that gets
-- ready without an error, always has a connection again: one for each socket, in order, whose names are
-- made of the next numbers, as far as the 31 bytes behind the name of the client hold them; each lost
-- connection is destroyed once, in order; and no timer is set.
pub lose_all-up :
    (name peer : Bytes) (sockets : List ℕ) (id : ℕ) (closed timers connections : List ℕ)
    (established destroyed : List Connection) (conn : Connection)
    → lose_all peer sockets conn
        (up name id init_retry_delay_ms closed timers connections established destroyed conn)
      ≡ some (
          up name
            (id + length sockets)
            init_retry_delay_ms
            closed
            timers
            (connections ++ sockets)
            (established ++ made name peer id sockets)
            (destroyed ++ but_last conn (made name peer id sockets))
            (last_of conn (made name peer id sockets)))
unfolding lose_all
lose_all-up name peer [] id closed timers connections established destroyed conn = ap some (
    up_same name id (id + 0) closed timers connections (connections ++ []) established
      (established ++ []) destroyed (destroyed ++ []) conn (omega arith)
      (sym (append-nil connections)) (sym (append-nil established)) (sym (append-nil destroyed)))
lose_all-up name peer (sockfd ∷ sockets) id closed timers connections established destroyed conn =
    let new : Connection = record { name = conn_name name peer id; fd = sockfd } in
    let later = made name peer (id + 1) sockets in
    ap (λ o. elim o [ none ↦ none | some d ↦ lose_all peer sockets (current conn d.connection) d ])
      (lose-up name peer id init_retry_delay_ms closed timers connections established destroyed conn
        sockfd)
    ∙ lose_all-up name peer sockets (id + 1) closed timers (connections ++ sockfd ∷ [])
        (established ++ new ∷ []) (destroyed ++ conn ∷ []) new
    ∙ ap some (
        up_same name (id + 1 + length sockets) (id + suc (length sockets)) closed timers
          ((connections ++ sockfd ∷ []) ++ sockets) (connections ++ sockfd ∷ sockets)
          ((established ++ new ∷ []) ++ later) (established ++ new ∷ later)
          ((destroyed ++ conn ∷ []) ++ but_last new later) (destroyed ++ conn ∷ but_last new later)
          (last_of new later) (omega arith) (append_assoc connections (sockfd ∷ []) sockets)
          (append_assoc established (new ∷ []) later)
          (append_assoc destroyed (conn ∷ []) (but_last new later)))
