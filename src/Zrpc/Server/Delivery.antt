-- ===== src/Zrpc/Server/Delivery.antt =====
-- What a connection's loop makes of a message (LALI/zrpc/server/BaseServer.cpp, `handleMessage`).
use lali_rpc_frame.Base.{
  Bytes, ◌==◌, Bool-cases, Option-cases, length, take, ℕ, suc, ◌+◌, ◌≤◌, ◌<◌, ◌≡◌, refl, sym, ap,
  ◌∙◌, inl, inr, false, Option, none, some, List, [], ◌++◌, append-nil, arith,
}
use lali_rpc_frame.Net.Buffer.{
  Buffer, IsValid, readable, readable_bytes, find_crlf, search_crlf, retrieve, retrieve_all,
  retrieve_as_string,
}
use lali_rpc_frame.Net.Buffer.Content.{length-readable}
use lali_rpc_frame.Net.Buffer.Search.{crlf}
use lali_rpc_frame.Base.Decimal.{to_decimal}
use lali_rpc_frame.Zrpc.Json.{Json, ReadsLength}
use lali_rpc_frame.Zrpc.Header.{header_length, header_length-frame, at_frame}
use lali_rpc_frame.Zrpc.Thrown.{Thrown, Result, ok, throws, Run}
use lali_rpc_frame.Zrpc.Procedure.{RpcService, Event}
use lali_rpc_frame.Zrpc.Server.{handle_request}
use lali_rpc_frame.Zrpc.Server.Frame.{
  max_message_len, Turn, stops, refuses, takes, Outcome, take_body, take_message, read_turn,
  continue_with, handle_message,
}

pub readable-retrieve_all : (b : Buffer) → readable (retrieve_all b) ≡ []
unfolding readable retrieve_all
readable-retrieve_all b = refl

module _ (j : Json) where
  -- Behind a request that was taken nothing is left.
  read_turn-empty : (b : Buffer) → readable b ≡ [] → read_turn j b ≡ stops b
  unfolding read_turn find_crlf search_crlf
  read_turn-empty b e = rw (e, read_turn) refl

  pub read_turn-at :
      (b : Buffer) (position : ℕ)
      → find_crlf b ≡ some position
      → (position == 0) ≡ false
      → read_turn j b ≡ take_message j (position + 2) b
  unfolding read_turn
  read_turn-at b position found later = rw (found, read_turn) (rw later refl)

  pub take_message-at :
      (header_len n : ℕ) (b : Buffer)
      → header_length j (take header_len (readable b)) ≡ some n
      → take_message j header_len b ≡ take_body j header_len n b
  unfolding take_message
  take_message-at header_len n b good = rw (good, take_message) refl

  take_body-takes :
      (header_len n : ℕ) (b : Buffer)
      → n < max_message_len
      → header_len + n ≤ readable_bytes b
      → take_body j header_len n b
        ≡ takes (readable (retrieve header_len b)) (retrieve_all (retrieve header_len b))
  unfolding take_body retrieve_as_string
  take_body-takes header_len n b small full = ground arith

  take_body-leaves :
      (header_len n : ℕ) (b b' : Buffer) (json : Bytes)
      → take_body j header_len n b ≡ takes json b'
      → readable b' ≡ []
  unfolding take_body retrieve_as_string
  take_body-leaves header_len n b b' json h =
      ground (arith, readable-retrieve_all (retrieve header_len b))

  read_turn-leaves :
      (b b' : Buffer) (json : Bytes) → read_turn j b ≡ takes json b' → readable b' ≡ []
  unfolding read_turn take_message
  read_turn-leaves b b' json h = elim (Option-cases (find_crlf b)) [
    | inl absent ↦ absurd (ground arith)
    | inr (position, found) ↦ elim (Bool-cases (position == 0)) [
      | inl first ↦ absurd (ground arith)
      | inr later ↦ elim (Option-cases (header_length j (take (position + 2) (readable b)))) [
        | inl bad ↦ absurd (ground arith)
        | inr (n, good) ↦ take_body-leaves (position + 2) n b b' json (
            sym (read_turn-at b position found later ∙ take_message-at (position + 2) n b good) ∙ h)
      ]
    ]
  ]

  -- A whole message is taken, with whatever stands behind it.
  read_turn-takes :
      (b : Buffer) (n : ℕ) (payload : Bytes)
      → ReadsLength j
      → IsValid b
      → readable b ≡ to_decimal n ++ (crlf ++ payload)
      → 0 < n
      → n < max_message_len
      → n ≤ length payload
      → (b' : Buffer) × (read_turn j b ≡ takes payload b') × (readable b' ≡ [])
  unfolding read_turn take_message
  read_turn-takes b n payload reads v e positive small whole =
      let at = at_frame b n payload v e in
      let numbered = header_length-frame j n reads positive (omega (arith, small)) in
      let full : at.position + 2 + n ≤ readable_bytes b =
        omega (arith, at.size, length-readable b v, whole) in
      let taken = take_body-takes (at.position + 2) n b small full in
      (
        retrieve_all (retrieve (at.position + 2) b),
        read_turn-at b at.position at.found (ground (arith, at.positive))
            ∙ (take_message-at (at.position + 2) n b (rw at.header numbered)
                ∙ (taken
                    ∙ ap (λ p. takes p (retrieve_all (retrieve (at.position + 2) b))) at.content)),
        readable-retrieve_all _,
      )

  abbrev pub thrown_of : {A : Type 0} → Result A → Option Thrown
  thrown_of (ok a) = none
  thrown_of (throws t) = some t

  module _ {C : Type 0} (services : List (Bytes × RpcService C)) where
    -- The buffer is empty, and the calls and the exception are those of the request `json`.
    pub record Handled (json : Bytes) (o : Outcome (Event C j.Value)) : Type 0 where
      pub same_events : o.events ≡ (handle_request j services json).events
      pub same_thrown : o.thrown ≡ thrown_of (handle_request j services json).result
      pub emptied : readable o.buffer ≡ []

    handle_message-empty :
        (f : ℕ) (b : Buffer)
        → readable b ≡ []
        → handle_message j services (suc f) b
          ≡ some (record { events = []; buffer = b; thrown = none })
    unfolding handle_message
    handle_message-empty f b e = rw (read_turn-empty b e, handle_message) refl

    continue_with-Handled :
        (json : Bytes) (b : Buffer)
        → readable b ≡ []
        → (o : Outcome (Event C j.Value)) × (continue_with j services
              (handle_request j services json)
              b
              (some (record { events = []; buffer = b; thrown = none }))
            ≡ some o)
          × Handled json o
    continue_with-Handled json b e = go (handle_request j services json).result refl
      where
        m : Run (Event C j.Value) (Unit {0})
        m = handle_request j services json

        go :
            (r : Result (Unit {0}))
            → m.result ≡ r
            → (o : Outcome (Event C j.Value)) × (continue_with j services m b
                  (some (record { events = []; buffer = b; thrown = none }))
                ≡ some o)
              × Handled json o
        go (ok u) h = (
          record { events = m.events ++ []; buffer = b; thrown = none },
          rw (h, continue_with) refl,
          record {
            same_events = append-nil m.events;
            same_thrown = sym (ap thrown_of h);
            emptied = e;
          },
        )
        go (throws t) h = (
          record { events = m.events; buffer = b; thrown = some t },
          rw (h, continue_with) refl,
          record { same_events = refl; same_thrown = sym (ap thrown_of h); emptied = e },
        )

    handle_message-taken :
        (f : ℕ) (b b' : Buffer) (json : Bytes)
        → read_turn j b ≡ takes json b'
        → readable b' ≡ []
        → (o : Outcome (Event C j.Value)) × (handle_message j services (suc (suc f)) b ≡ some o)
          × Handled json o
    unfolding handle_message
    handle_message-taken f b b' json h e =
        let (o, ends, handled) = continue_with-Handled json b' e in
        (o, rw (h, handle_message) (rw (handle_message-empty f b' e) ends), handled)

    -- A valid buffer that begins with a whole message, that is with the decimal digits of a positive number
    -- below the limit, a line end, and at least that many bytes, is handled in two rounds of the loop:
    -- the request gets everything behind the line end, the calls and the exception are those of that
    -- request, and the buffer is empty afterwards. The JSON library is assumed to read the digits.
    pub handle_message-frame :
        (f : ℕ) (b : Buffer) (n : ℕ) (payload : Bytes)
        → ReadsLength j
        → IsValid b
        → readable b ≡ to_decimal n ++ (crlf ++ payload)
        → 0 < n
        → n < max_message_len
        → n ≤ length payload
        → (o : Outcome (Event C j.Value)) × (handle_message j services (suc (suc f)) b ≡ some o)
          × Handled payload o
    handle_message-frame f b n payload reads v e positive small whole =
        let (b', taken, empty) = read_turn-takes b n payload reads v e positive small whole in
        handle_message-taken f b b' payload taken empty

    -- The loop ends on every buffer: with two rounds of fuel or more it gives an outcome.
    pub handle_message-ends :
        (f : ℕ) (b : Buffer)
        → (o : Outcome (Event C j.Value)) × (handle_message j services (suc (suc f)) b ≡ some o)
    handle_message-ends f b = go (read_turn j b) refl
      where
        go :
            (t : Turn)
            → read_turn j b ≡ t
            → (o : Outcome (Event C j.Value)) × (handle_message j services (suc (suc f)) b ≡ some o)
        go (stops b') h = (
          record { events = []; buffer = b'; thrown = none },
          unfold handle_message in rw (h, handle_message) refl,
        )
        go (refuses t) h = (
          record { events = []; buffer = b; thrown = some t },
          unfold handle_message in rw (h, handle_message) refl,
        )
        go (takes json b') h =
            let (o, ends, handled) =
              handle_message-taken f b b' json h (read_turn-leaves b b' json h) in
            (o, ends)
