-- ===== src/Net/Acceptor.antt =====
-- LALI/net/Acceptor.cpp: the listening socket. The result of accept(2) is an argument; `dropped` counts
-- the connections that were taken by means of the spare descriptor and closed at once.
use lali_rpc_frame.Base.{
  if◌then◌else◌, ℕ, ◌+◌, Bool, true, false, Option, none, some, List, [], ◌∷◌, ◌++◌,
}

pub record Acceptor : Type 0 where
  pub listenning : Bool
  pub has_callback : Bool
  pub closed : List ℕ
  pub dropped : ℕ

abbrev pub new_acceptor : Acceptor
new_acceptor = record { listenning = false; has_callback = false; closed = []; dropped = 0 }

-- `out_of_descriptors` is the error EMFILE.
pub data Accepted : Type 0 where
  accepts : ℕ → Accepted
  out_of_descriptors : Accepted
  fails : Accepted

unfoldable pub listen : Acceptor → Acceptor
listen a = record a { listenning = true }

-- With the socket that is passed to the callback, if any.
unfoldable pub handle_read : Accepted → Acceptor → Option ℕ × Acceptor
handle_read (accepts connfd) a =
    if a.has_callback
    then (some connfd, a)
    else (none, record a { closed = a.closed ++ connfd ∷ [] })
handle_read out_of_descriptors a = (none, record a { dropped = a.dropped + 1 })
handle_read fails a = (none, a)
