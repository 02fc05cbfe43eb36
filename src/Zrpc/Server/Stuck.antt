-- ===== src/Zrpc/Server/Stuck.antt =====
-- A connection whose buffer begins with a refused header (LALI/zrpc/server/BaseServer.cpp,
-- `handleMessage` and `onMessage`).
use lali_rpc_frame.Base.{
  Bytes, ◌==◌, Bool-cases, Option-cases, take, take-append_le, ℕ, ◌+◌, ◌≡◌, refl, sym, ap, ◌∙◌, inl,
  inr, none, some, List, [], ◌∷◌, ◌++◌, append_assoc, append-nil, arith,
}
use Prim.Native.String.{String}
use lali_rpc_frame.Net.Buffer.{Buffer, IsValid, readable, find_crlf, append}
use lali_rpc_frame.Net.Buffer.Content.{append-readable}
use lali_rpc_frame.Net.Buffer.Search.{search_crlf_sound}
use lali_rpc_frame.Zrpc.Json.{Json}
use lali_rpc_frame.Zrpc.Thrown.{Thrown, text}
use lali_rpc_frame.Zrpc.Procedure.{RpcService}
use lali_rpc_frame.Zrpc.Header.{header_length, search_crlf-append}
use lali_rpc_frame.Zrpc.Server.Frame.{
  refuses, take_body, take_message, read_turn, handle_message, on_message, receives,
}
use lali_rpc_frame.Zrpc.Server.Delivery.{read_turn-at, take_message-at}

abbrev pub joined : List Bytes → Bytes
joined [] = []
joined (b ∷ bs) = b ++ joined bs

module _ (j : Json) where
  -- A refusal by the body's length does not look at the buffer.
  take_body-refuses :
      (header_len n : ℕ) (b b' : Buffer) (t : Thrown)
      → take_body j header_len n b ≡ refuses t
      → take_body j header_len n b' ≡ refuses t
  unfolding take_body
  take_body-refuses header_len n b b' t h = ground arith

  take_message-refuses :
      (header_len : ℕ) (b b' : Buffer) (t : Thrown)
      → take header_len (readable b') ≡ take header_len (readable b)
      → take_message j header_len b ≡ refuses t
      → take_message j header_len b' ≡ refuses t
  unfolding take_message
  take_message-refuses header_len b b' t e h =
      elim (Option-cases (header_length j (take header_len (readable b)))) [
        | inl bad ↦ rw (e, take_message) (rw bad (ground arith))
        | inr (n, good) ↦
            take_message-at j header_len n b' (rw e good)
            ∙ take_body-refuses header_len n b b' t
                (sym (take_message-at j header_len n b good) ∙ h)
      ]

  read_turn-append :
      (b : Buffer) (more : Bytes) (t : Thrown)
      → IsValid b
      → read_turn j b ≡ refuses t
      → read_turn j (append more b) ≡ refuses t
  unfolding read_turn find_crlf
  read_turn-append b more t v h = elim (Option-cases (find_crlf b)) [
    | inl absent ↦ absurd (ground arith)
    | inr (position, found) ↦ elim (Bool-cases (position == 0)) [
      | inl first ↦ absurd (ground arith)
      | inr later ↦
          let (grown, valid) = append-readable more b v in
          let (split, room, before) = search_crlf_sound (readable b) position found in
          let found' : find_crlf (append more b) ≡ some position =
            rw grown (search_crlf-append (readable b) more position found) in
          read_turn-at j (append more b) position found' later
          ∙ take_message-refuses (position + 2) b (append more b) t
              (rw grown (take-append_le (position + 2) (readable b) more (omega (arith, room))))
              (sym (read_turn-at j b position found later) ∙ h)
    ]
  ]

  module _ {C : Type 0} (services : List (Bytes × RpcService C)) where
    on_message-refused :
        (b : Buffer) (message : String)
        → read_turn j b ≡ refuses (text message)
        → on_message j services 2 b ≡ some (record { events = []; buffer = b; thrown = none })
    unfolding on_message handle_message
    on_message-refused b message h = rw (h, on_message, handle_message) refl

    -- A connection whose valid buffer begins with a header that is refused never serves a request
    -- again: whatever packets arrive, none of them makes a call, and all their bytes stay in the
    -- buffer behind the refused header.
    pub receives-refused :
        (b : Buffer) (message : String) (packets : List Bytes)
        → IsValid b
        → read_turn j b ≡ refuses (text message)
        → (b' : Buffer) × (receives j services packets b ≡ some ([], b'))
          × (readable b' ≡ readable b ++ joined packets)
    unfolding receives
    receives-refused b message [] v h = (b, refl, sym (append-nil (readable b)))
    receives-refused b message (packet ∷ packets) v h =
        let (grown, valid) = append-readable packet b v in
        let refused = read_turn-append b packet (text message) v h in
        let (b', run, kept) = receives-refused (append packet b) message packets valid refused in
        (
          b',
          rw (on_message-refused (append packet b) message refused, receives) (rw run refl),
          kept
              ∙ (ap (λ l. l ++ joined packets) grown
                  ∙ append_assoc (readable b) packet (joined packets)),
        )
