-- ===== src/Net/TcpConnection/Pending.antt =====
-- Waiting bytes are always asked to be written (LALI/net/TcpConnection.cpp).
use lali_rpc_frame.Base.{
  Bytes, ltb, ◌==◌, if◌then◌else◌, Bool-cases, length, take, ℕ, zero, suc, ◌≡◌, refl, inl, inr,
  Bool, true, false, List, [], arith,
}
use lali_rpc_frame.Net.Buffer.{readable, readable_bytes, retrieve}
use lali_rpc_frame.Net.TcpConnection.{
  Connection, WriteResult, wrote, write_failed, Event, is_connected, first_write, writes_at_once,
  buffer_rest, buffer_remaining, buffer_unwritten, send_in_loop, send, after_write, write_output,
  handle_write, shutdown,
}
use lali_rpc_frame.Net.TcpConnection.Stream.{empty_output}

-- While the channel does not ask for writing, nothing waits in the output.
pub record IsDrained (c : Connection) : Type 0 where
  pub drained : c.writing ≡ false → readable c.output ≡ []

-- What can happen to an established connection, besides its end.
pub data Op : Type 0 where
  sending : Bytes → WriteResult → Op
  writable : WriteResult → Op
  shutting : Op

unfoldable pub step : Op → Connection → List Event × Connection
step (sending message result) c = send message result c
step (writable result) c = handle_write result c
step shutting c = shutdown c

rest-IsDrained :
    (n : ℕ) (message : Bytes) (c : Connection)
    → IsDrained c
    → IsDrained (buffer_unwritten n message (buffer_remaining n message c).1)
unfolding buffer_unwritten buffer_remaining buffer_rest
rest-IsDrained n message c d = elim (Bool-cases (ltb n (length message))) [
  | inl more ↦ rw (more, buffer_unwritten) (record { drained = λ e. cc })
  | inr all ↦
      let same : buffer_remaining n message c ≡ ([], c) = ground arith in
      rw (all, buffer_unwritten) (rw same d)
]

after_write-IsDrained :
    (accepted : Bytes) (c : Connection) → c.writing ≡ true → IsDrained (after_write accepted c).1
unfolding after_write
after_write-IsDrained accepted c on = elim (Bool-cases (readable_bytes c.output == 0)) [
  | inl done ↦ rw (done, after_write) (record { drained = λ e. empty_output c.output done })
  | inr more ↦ rw (more, after_write) (record { drained = λ e. cc })
]

write_output-IsDrained :
    (result : WriteResult) (c : Connection)
    → c.writing ≡ true
    → IsDrained c
    → IsDrained (write_output result c).1
write_output-IsDrained write_failed c on d = d
write_output-IsDrained (wrote zero) c on d = d
write_output-IsDrained (wrote (suc n)) c on d =
    after_write-IsDrained (take (suc n) (readable c.output))
      (record c { output = retrieve (suc n) c.output }) on

if-IsDrained :
    (b : Bool) (x y : List Event × Connection)
    → (b ≡ true → IsDrained x.1)
    → (b ≡ false → IsDrained y.1)
    → IsDrained (if b then x else y).1
if-IsDrained true x y h k = h refl
if-IsDrained false x y h k = k refl

-- Sending, writing and shutting down keep it so that nothing waits in the output of a connection that
-- does not ask for writing.
pub step-IsDrained : (op : Op) (c : Connection) → IsDrained c → IsDrained (step op c).1
unfolding step send send_in_loop handle_write shutdown
step-IsDrained (sending message result) c d =
    if-IsDrained (is_connected c.state) (send_in_loop message result c) ([], c)
      (λ e.
        rest-IsDrained (first_write message result (writes_at_once c) c.has_write_complete).0
          message c d)
      (λ e. d)
step-IsDrained (writable result) c d =
    if-IsDrained c.writing (write_output result c) ([], c)
      (λ on. write_output-IsDrained result c on d) (λ e. d)
step-IsDrained shutting c d =
    if-IsDrained (is_connected c.state) _ ([], c) (λ e. record { drained = d.drained }) (λ e. d)
