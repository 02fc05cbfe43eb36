-- ===== src/Net/TcpConnection/Stream.antt =====
-- The bytes that a connection sends (LALI/net/TcpConnection.cpp, `sendInLoop` and `handleWrite`).
use lali_rpc_frame.Base.{
  Bytes, ltb, ◌==◌, if◌then◌else◌, ltb-eq-false, Bool-cases, length, take, drop, take-append-drop,
  drop-length, ℕ, zero, suc, ◌-◌, ◌≤◌, ◌≡◌, refl, sym, ap, ◌∙◌, subst, ◌⊎◌, inl, inr, Bool, true,
  false, ◌&&◌, List, [], ◌∷◌, ◌++◌, append_assoc, append-nil, arith,
}
use lali_rpc_frame.Net.Buffer.{Buffer, IsValid, readable, readable_bytes, retrieve, append}
use lali_rpc_frame.Net.Buffer.Content.{append-readable, retrieve-readable}
use lali_rpc_frame.Net.TcpConnection.{
  Connection, WriteResult, wrote, write_failed, Event, sends, queues_write_complete, writes_at_once,
  first_write, high_water_events, buffer_rest, buffer_remaining, buffer_unwritten, send_in_loop,
  write_output, is_disconnecting, shutdown_in_loop, after_write, handle_write,
}

-- The bytes that the system has accepted.
abbrev pub sent : List Event → Bytes
sent [] = []
sent (sends bytes ∷ es) = bytes ++ sent es
sent (_ ∷ es) = sent es

sent-append : (es fs : List Event) → sent (es ++ fs) ≡ sent es ++ sent fs
sent-append [] fs = refl
sent-append (sends bytes ∷ es) fs =
    ap (λ l. bytes ++ l) (sent-append es fs) ∙ sym (append_assoc bytes (sent es) (sent fs))
sent-append (_ ∷ es) fs = sent-append es fs

-- write(2) accepts no more than it is given.
abbrev pub Within : WriteResult → ℕ → Type 0
Within (wrote n) len = n ≤ len
Within write_failed len = Unit

high_water-sent : (remaining : ℕ) (c : Connection) → sent (high_water_events remaining c) ≡ []
unfolding high_water_events
high_water-sent remaining c = ground arith

remaining-more :
    (n : ℕ) (message : Bytes) (c : Connection)
    → ltb n (length message) ≡ true
    → buffer_remaining n message c
      ≡ (high_water_events (length message - n) c, buffer_rest n message c)
unfolding buffer_remaining
remaining-more n message c h = ground arith

remaining-none :
    (n : ℕ) (message : Bytes) (c : Connection)
    → ltb n (length message) ≡ false
    → buffer_remaining n message c ≡ ([], c)
unfolding buffer_remaining
remaining-none n message c h = ground arith

-- A buffer that holds what `b` holds and `bytes` behind it.
record Extends (b : Buffer) (bytes : Bytes) (b' : Buffer) : Type 0 where
  holds : readable b' ≡ readable b ++ bytes
  valid : IsValid b'

twice :
    (bytes : Bytes) (b : Buffer)
    → IsValid b
    → Extends b (bytes ++ bytes) (append bytes (append bytes b))
twice bytes b v =
    let (once, valid) = append-readable bytes b v in
    let (again, still) = append-readable bytes (append bytes b) valid in
    record {
      holds = again ∙ (ap (λ l. l ++ bytes) once ∙ append_assoc (readable b) bytes bytes);
      valid = still;
    }

-- What is buffered twice: the part of the message that was not written.
record Buffered (n : ℕ) (message : Bytes) (c : Connection) : Type 0 where
  silent : sent (buffer_remaining n message c).0 ≡ []
  extends :
      Extends c.output
        (drop n message ++ drop n message)
        (buffer_unwritten n message (buffer_remaining n message c).1).output

buffered :
    (n : ℕ) (message : Bytes) (c : Connection)
    → IsValid c.output
    → n ≤ length message
    → Buffered n message c
unfolding buffer_unwritten buffer_rest
buffered n message c v h = elim (Bool-cases (ltb n (length message))) [
  | inl more ↦ record {
    silent = rw (remaining-more n message c more) (high_water-sent (length message - n) c);
    extends =
        rw (remaining-more n message c more)
          (rw (more, buffer_unwritten) (twice (drop n message) c.output v));
  }
  | inr all ↦
      let none_left : drop n message ≡ [] =
        drop-length n message (ltb-eq-false n (length message) all) in
      record {
        silent = rw (remaining-none n message c all) refl;
        extends = rw (remaining-none n message c all) (
            rw (all, buffer_unwritten)
              (rw none_left (record { holds = sym (append-nil (readable c.output)); valid = v })));
      }
]

completion-sent : (b : Bool) → sent (if b then queues_write_complete ∷ [] else []) ≡ []
completion-sent true = refl
completion-sent false = refl

-- What the first write accepts is the first bytes of the message, and nothing where bytes wait.
first_write-sent :
    (message : Bytes) (result : WriteResult) (direct complete : Bool)
    → Within result (length message)
    → ((first_write message result direct complete).0 ≤ length message)
      × (sent (first_write message result direct complete).1
          ≡ take (first_write message result direct complete).0 message)
unfolding first_write
first_write-sent message (wrote n) true complete h = (
  h,
  ap (λ l. take n message ++ l) (completion-sent (length message - n == 0 && complete))
      ∙ append-nil (take n message),
)
first_write-sent message (wrote n) false complete h = (omega arith, refl)
first_write-sent message write_failed true complete h = (omega arith, refl)
first_write-sent message write_failed false complete h = (omega arith, refl)

-- How many bytes `sendInLoop` writes to the socket itself.
abbrev pub written_at_once : Bytes → WriteResult → Connection → ℕ
written_at_once message result c =
    (first_write message result (writes_at_once c) c.has_write_complete).0

no_first_write :
    (message : Bytes) (result : WriteResult) (complete : Bool)
    → (first_write message result false complete).0 ≡ 0
unfolding first_write
no_first_write message (wrote n) complete = refl
no_first_write message write_failed complete = refl

pub empty_output : (b : Buffer) → (readable_bytes b == 0) ≡ true → readable b ≡ []
unfolding readable
empty_output b h =
    let e : readable_bytes b ≡ 0 = ground arith in
    ap (λ k. take k (drop b.reader_index b.storage)) e

nothing_waits : (c : Connection) → writes_at_once c ≡ true → readable c.output ≡ []
unfolding writes_at_once
nothing_waits c h = empty_output c.output (ground arith)

joins :
    (n : ℕ) (message waiting : Bytes)
    → (n ≡ 0) ⊎ (waiting ≡ [])
    → take n message ++ (waiting ++ (drop n message ++ drop n message))
      ≡ waiting ++ (message ++ drop n message)
joins n message waiting (inl e) = rw e refl
joins n message waiting (inr e) = rw e (
    sym (append_assoc (take n message) (drop n message) (drop n message))
    ∙ ap (λ l. l ++ drop n message) (take-append-drop n message))

-- Bytes wait or are written at once, never both.
only_one :
    (message : Bytes) (result : WriteResult) (c : Connection)
    → IsValid c.output
    → (written_at_once message result c ≡ 0) ⊎ (readable c.output ≡ [])
only_one message result c v = elim (Bool-cases (writes_at_once c)) [
  | inl free ↦ inr (nothing_waits c free)
  | inr busy ↦ inl (rw (busy, written_at_once) (no_first_write message result c.has_write_complete))
]

-- What `sendInLoop` gives to the socket and to the output, together, is the bytes that waited, the
-- message, and once more the part of the message that the socket did not take at once. The output must
-- be valid, and the system takes no more than it is given; then the output stays valid.
pub send_in_loop-stream :
    (message : Bytes) (result : WriteResult) (c : Connection)
    → IsValid c.output
    → Within result (length message)
    → (sent (send_in_loop message result c).0 ++ readable (send_in_loop message result c).1.output
        ≡ readable c.output ++ (message ++ drop (written_at_once message result c) message))
      × IsValid (send_in_loop message result c).1.output
unfolding send_in_loop
send_in_loop-stream message result c v h =
    let n = written_at_once message result c in
    let (bounded, accepted) =
      first_write-sent message result (writes_at_once c) c.has_write_complete h in
    let rest = buffered n message c v bounded in
    (
      rw
          (sent-append (first_write message result (writes_at_once c) c.has_write_complete).1
            (buffer_remaining n message c).0)
          (rw accepted (
            rw rest.silent (
              rw (append-nil (take n message)) (
                rw rest.extends.holds
                  (joins n message (readable c.output) (only_one message result c v)))))),
      rest.extends.valid,
    )

closing-sent : (c : Connection) (b : Bool) → sent (if b then shutdown_in_loop c else []) ≡ []
unfolding shutdown_in_loop
closing-sent c b = ground arith

after_write-sent :
    (accepted : Bytes) (c : Connection)
    → (sent (after_write accepted c).0 ≡ accepted) × ((after_write accepted c).1.output ≡ c.output)
unfolding after_write
after_write-sent accepted c = elim (Bool-cases (readable_bytes c.output == 0)) [
  | inl done ↦ (
    rw (done, after_write)
        (ap (λ l. accepted ++ l)
            (closing-sent (record c { writing = false }) (is_disconnecting c.state))
          ∙ append-nil accepted),
    rw (done, after_write) refl,
  )
  | inr more ↦ (rw (more, after_write) (append-nil accepted), rw (more, after_write) refl)
]

-- The bytes of a reply to the system's write, and what waits behind them.
record Flushes (c : Connection) (r : List Event × Connection) : Type 0 where
  stream : sent r.0 ++ readable r.1.output ≡ readable c.output
  valid : IsValid r.1.output

write_output-Flushes :
    (result : WriteResult) (c : Connection)
    → IsValid c.output
    → Within result (readable_bytes c.output)
    → Flushes c (write_output result c)
write_output-Flushes write_failed c v h = record { stream = refl; valid = v }
write_output-Flushes (wrote zero) c v h = record { stream = refl; valid = v }
write_output-Flushes (wrote (suc n)) c v h =
    let (accepted, kept) =
      after_write-sent (take (suc n) (readable c.output))
        (record c { output = retrieve (suc n) c.output }) in
    let (left, valid) = retrieve-readable (suc n) c.output v in
    record {
      stream = rw accepted (rw kept (rw left (take-append-drop (suc n) (readable c.output))));
      valid = subst (λ b. IsValid b) (sym kept) valid;
    }

handle_write-Flushes :
    (b : Bool) (result : WriteResult) (c : Connection)
    → IsValid c.output
    → Within result (readable_bytes c.output)
    → Flushes c (if b then write_output result c else ([], c))
handle_write-Flushes true result c v h = write_output-Flushes result c v h
handle_write-Flushes false result c v h = record { stream = refl; valid = v }

-- What `handleWrite` gives to the socket is taken off the front of the output, and the rest stays. The
-- output must be valid, and the system takes no more than it is given; then the output stays valid.
pub handle_write-stream :
    (result : WriteResult) (c : Connection)
    → IsValid c.output
    → Within result (readable_bytes c.output)
    → (sent (handle_write result c).0 ++ readable (handle_write result c).1.output
        ≡ readable c.output)
      × IsValid (handle_write result c).1.output
unfolding handle_write
handle_write-stream result c v h =
    let done = handle_write-Flushes c.writing result c v h in (done.stream, done.valid)
