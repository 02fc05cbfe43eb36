-- ===== src/Zrpc/Client/Delivery.antt =====
-- The client's message loop on what the server sends (LALI/zrpc/client/RpcClient.cpp,
-- `handleMessage`).
use lali_rpc_frame.Base.{
  Bytes, length, length-append, take, ℕ, suc, ◌+◌, ◌≤◌, ◌<◌, ◌≡◌, refl, sym, ap, ◌∙◌, Option, none,
  some, [], ◌++◌, append-nil, arith,
}
use lali_rpc_frame.Net.Buffer.{
  Buffer, IsValid, readable, readable_bytes, find_crlf, search_crlf, retrieve, retrieve_all,
  retrieve_as_string,
}
use lali_rpc_frame.Net.Buffer.Content.{length-readable}
use lali_rpc_frame.Net.Buffer.Search.{crlf}
use lali_rpc_frame.Base.Decimal.{to_decimal}
use lali_rpc_frame.Zrpc.Json.{Json, ReadsLength}
use lali_rpc_frame.Zrpc.Thrown.{Thrown}
use lali_rpc_frame.Zrpc.Header.{header_length, header_length-frame, frame, at_frame}
use lali_rpc_frame.Zrpc.Server.Frame.{send_response}
use lali_rpc_frame.Zrpc.Server.Delivery.{readable-retrieve_all}
use lali_rpc_frame.Zrpc.Client.{
  max_message_len, Client, waits, takes, Reply, take_body, read_turn, handle_response, and_then,
  before, handle_message,
}

module _ (j : Json) where
  read_turn-empty : (b : Buffer) → readable b ≡ [] → read_turn j b ≡ waits
  unfolding read_turn find_crlf search_crlf
  read_turn-empty b e = rw (e, read_turn) refl

  take_body-takes :
      (header_len n : ℕ) (b : Buffer)
      → n < max_message_len
      → header_len + n ≤ readable_bytes b
      → take_body j header_len n b
        ≡ takes (readable (retrieve header_len b)) (retrieve_all (retrieve header_len b))
  unfolding take_body retrieve_as_string
  take_body-takes header_len n b small full = ground arith

  read_turn-at :
      (b : Buffer) (position n : ℕ)
      → find_crlf b ≡ some position
      → header_length j (take (position + 2) (readable b)) ≡ some n
      → read_turn j b ≡ take_body j (position + 2) n b
  unfolding read_turn
  read_turn-at b position n found good = rw (found, read_turn) (rw (good, read_turn) refl)

  read_turn-takes :
      (b : Buffer) (n : ℕ) (payload : Bytes)
      → ReadsLength j
      → IsValid b
      → readable b ≡ to_decimal n ++ (crlf ++ payload)
      → 0 < n
      → n < max_message_len
      → n ≤ length payload
      → (b' : Buffer) × (read_turn j b ≡ takes payload b') × (readable b' ≡ [])
  read_turn-takes b n payload reads v e positive small whole =
      let at = at_frame b n payload v e in
      let numbered = header_length-frame j n reads positive (omega (arith, small)) in
      let full : at.position + 2 + n ≤ readable_bytes b =
        omega (arith, at.size, length-readable b v, whole) in
      let taken = take_body-takes (at.position + 2) n b small full in
      (
        retrieve_all (retrieve (at.position + 2) b),
        read_turn-at b at.position n at.found (rw at.header numbered)
            ∙ (taken ∙ ap (λ p. takes p (retrieve_all (retrieve (at.position + 2) b))) at.content),
        readable-retrieve_all _,
      )

  module _ {C : Type 0} where
    -- The loop has done what `handleResponse` does with the text `json`, and the buffer is empty.
    pub record Handled (json : Bytes) (client : Client C) (r : Reply C j.Value × Buffer)
        : Type 0 where
      pub same : r.0 ≡ handle_response j json client
      pub emptied : readable r.1 ≡ []

    handle_message-empty :
        (f : ℕ) (b : Buffer) (client : Client C)
        → readable b ≡ []
        → handle_message j (suc f) b client
          ≡ some (record { events = []; client = client; thrown = none }, b)
    unfolding handle_message
    handle_message-empty f b client e = rw (read_turn-empty b e, handle_message) refl

    -- The loop ends with `first` where no round follows that does anything.
    and_then-last :
        (first : Reply C j.Value) (b : Buffer) (t : Option Thrown)
        → first.thrown ≡ t
        → (reply : Reply C j.Value) × (and_then j first b
              (some (record { events = []; client = first.client; thrown = none }, b))
            ≡ some (reply, b))
          × (reply ≡ first)
    and_then-last first b (some t) h =
        let same : first
            ≡ record { events = first.events; client = first.client; thrown = some t } =
          λ i. record { events = first.events; client = first.client; thrown = h i } in
        (
          record { events = first.events; client = first.client; thrown = some t },
          rw (h, and_then) (ap (λ r. some (r, b)) same),
          sym same,
        )
    and_then-last first b none h = (
      record { events = first.events ++ []; client = first.client; thrown = none },
      rw (h, and_then) (rw (h, before) refl),
      λ i. record { events = append-nil first.events i; client = first.client; thrown = sym h i },
    )

    -- A response that the server sends, alone in a valid buffer and shorter than the client's limit, is
    -- handled in two rounds of the loop: what the client does, its state and what it throws are those of
    -- `handleResponse` on the written value and a line end, and the buffer is empty afterwards. The JSON
    -- library is assumed to read the digits of the length.
    pub handle_message-response :
        (f : ℕ) (b : Buffer) (response : j.Value) (client : Client C)
        → ReadsLength j
        → IsValid b
        → readable b ≡ send_response j response
        → length (j.write response) + 2 < max_message_len
        → (r : Reply C j.Value × Buffer) × (handle_message j (suc (suc f)) b client ≡ some r)
          × Handled (j.write response ++ crlf) client r
    unfolding send_response frame handle_message
    handle_message-response f b response client reads v e small =
        let body = j.write response in
        let (b', taken, empty) =
          read_turn-takes b (length body + 2) (body ++ crlf) reads v e (omega arith) small
            (omega (arith, length-append body crlf)) in
        let first = handle_response j (body ++ crlf) client in
        let (reply, ends, same) = and_then-last first b' first.thrown refl in
        (
          (reply, b'),
          rw (taken, handle_message) (rw (handle_message-empty f b' first.client empty) ends),
          record { same = same; emptied = empty },
        )
