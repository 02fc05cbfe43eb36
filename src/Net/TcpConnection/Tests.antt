-- ===== src/Net/TcpConnection/Tests.antt =====
-- The connection theorems at a connection with two waiting bytes, and at an idle one.
use lali_rpc_frame.Base.{
  Bytes, length, drop, ◌+◌, ◌≡◌, refl, Bool, true, false, [], ◌∷◌, ◌++◌, arith,
}
use lali_rpc_frame.Net.Buffer.{Buffer, IsValid, readable}
use lali_rpc_frame.Net.TcpConnection.{connected, Connection, wrote, send_in_loop, handle_write}
use lali_rpc_frame.Net.TcpConnection.Stream.{
  sent, written_at_once, send_in_loop-stream, handle_write-stream,
}
use lali_rpc_frame.Net.TcpConnection.Pending.{IsDrained, sending, step, step-IsDrained}

abbrev holding : Bytes → Buffer
holding bytes = record {
  storage = 0 ∷ 0 ∷ 0 ∷ 0 ∷ 0 ∷ 0 ∷ 0 ∷ 0 ∷ bytes;
  reader_index = 8;
  writer_index = length bytes + 8;
}

abbrev connection : Bool → Bytes → Connection
connection writing waiting = record {
  state = connected;
  reading = true;
  writing = writing;
  input = holding [];
  output = holding waiting;
  has_write_complete = true;
  has_high_water = false;
  high_water_mark = 67108864;
}

abbrev idle : Connection
idle = connection false []

abbrev busy : Connection
busy = connection true (1 ∷ 2 ∷ [])

idle-IsValid : IsValid idle.output
idle-IsValid = record { ordered = omega arith; inside = omega arith; based = omega arith }

busy-IsValid : IsValid busy.output
busy-IsValid = record { ordered = omega arith; inside = omega arith; based = omega arith }

-- The socket takes one of three bytes, and the other two are buffered twice.
send_in_loop-stream_example :
    (sent (send_in_loop (5 ∷ 6 ∷ 7 ∷ []) (wrote 1) idle).0
        ++ readable (send_in_loop (5 ∷ 6 ∷ 7 ∷ []) (wrote 1) idle).1.output
      ≡ readable idle.output
        ++ ((5 ∷ 6 ∷ 7 ∷ [])
            ++ drop (written_at_once (5 ∷ 6 ∷ 7 ∷ []) (wrote 1) idle) (5 ∷ 6 ∷ 7 ∷ [])))
    × IsValid (send_in_loop (5 ∷ 6 ∷ 7 ∷ []) (wrote 1) idle).1.output
send_in_loop-stream_example =
    send_in_loop-stream (5 ∷ 6 ∷ 7 ∷ []) (wrote 1) idle idle-IsValid (omega arith)

handle_write-stream_example :
    (sent (handle_write (wrote 1) busy).0 ++ readable (handle_write (wrote 1) busy).1.output
      ≡ readable busy.output)
    × IsValid (handle_write (wrote 1) busy).1.output
handle_write-stream_example = handle_write-stream (wrote 1) busy busy-IsValid (omega arith)

idle-IsDrained : IsDrained idle
unfolding readable
idle-IsDrained = record { drained = λ e. refl }

step-IsDrained_example : IsDrained (step (sending (5 ∷ 6 ∷ 7 ∷ []) (wrote 1)) idle).1
step-IsDrained_example = step-IsDrained (sending (5 ∷ 6 ∷ 7 ∷ []) (wrote 1)) idle idle-IsDrained
