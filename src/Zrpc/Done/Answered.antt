-- ===== src/Zrpc/Done/Answered.antt =====
-- A call from its result to the callback of the client (LALI/zrpc/util.h, `UserDoneCallback`,
-- LALI/zrpc/server/BaseServer.cpp, `sendResponse`, and LALI/zrpc/client/RpcClient.cpp).
use lali_rpc_frame.Base.{
  bytes_eq, Bytes, codes, length, ℕ, suc, ◌+◌, ◌<◌, ◌≡◌, refl, ap, ◌∙◌, subst, true, false, none,
  some, [], ◌∷◌, ◌++◌,
}
use lali_rpc_frame.Base.Int.{pos}
use lali_rpc_frame.Net.Buffer.Search.{crlf}
use lali_rpc_frame.Zrpc.Json.{
  Json, ReadsLength, ValueType, type_object, type_string, type_int32, type_eq_refl,
}
use lali_rpc_frame.Net.Buffer.{Buffer, IsValid, readable}
use lali_rpc_frame.Zrpc.Server.Frame.{send_response}
use lali_rpc_frame.Zrpc.Client.Delivery.{handle_message-response}
use lali_rpc_frame.Zrpc.Done.Library.{IsSame, Builds, Rereads, built_type, built_size}
use lali_rpc_frame.Zrpc.Thrown.{ok, refuse, pure, ◌>>=◌}
use lali_rpc_frame.Zrpc.Done.{done_response, done}
use lali_rpc_frame.Zrpc.Client.{
  max_message_len, Client, Reply, Answer, answers, find_callback, erase_callback, find_value,
  is_result, require_error, validate_response, id_of, answer_of, handle_single_response,
  handle_response, handle_message,
}
use lali_rpc_frame.Zrpc.Client.Answers.{replied}

module _ (j : Json) where
  find_value-ok :
      (E : Type 0) (v : j.Value) (k : Bytes) (w : j.Value) (t : ValueType)
      → j.find_member v k ≡ some w
      → j.get_type w ≡ t
      → find_value j {E = E} v k t ≡ pure w
  unfolding find_value refuse ◌>>=◌
  find_value-ok E v k w t h e = rw (h, find_value) (rw (e, refuse) (rw (type_eq_refl t) refl))

  required_ok :
      (E : Type 0) (v result : j.Value)
      → j.find_member v (codes "result") ≡ some result
      → require_error j {E = E} v ≡ pure tt
  unfolding require_error
  required_ok E v result r =
      let there : is_result j v ≡ true = unfold is_result in rw (r, is_result) refl in
      rw (there, require_error) refl

  -- A response of the version, with a number and a result.
  valid_result :
      (E : Type 0) (v id version result : j.Value)
      → j.get_size v ≡ 3
      → j.find_member v (codes "id") ≡ some id
      → j.get_type id ≡ type_int32
      → j.find_member v (codes "jsonrpc") ≡ some version
      → j.get_type version ≡ type_string
      → j.get_string version ≡ codes "2.0"
      → j.find_member v (codes "result") ≡ some result
      → (validate_response j {E = E} v).result ≡ ok tt
  unfolding validate_response refuse ◌>>=◌ bytes_eq
  valid_result E v id version result size i ti s ts text r =
      rw (size, validate_response)
        (rw (find_value-ok E v (codes "id") id type_int32 i ti) (
          rw (find_value-ok E v (codes "jsonrpc") version type_string s ts)
            (rw text (rw (required_ok E v result r) refl))))

-- The callback gets the result, and its call is forgotten.
abbrev pub answered : {C V : Type 0} → C → V → ℕ → Client C → Reply C V
answered cb value n client = record {
  events = answers cb value false ∷ [];
  client = record client { callbacks = erase_callback n client.callbacks };
  thrown = none;
}

module _ (j : Json) (C : Type 0) where
  handle_single_response-answered :
      (v id version result : j.Value) (n : ℕ) (cb : C) (client : Client C)
      → j.get_size v ≡ 3
      → j.find_member v (codes "id") ≡ some id
      → j.get_type id ≡ type_int32
      → j.get_int32 id ≡ pos n
      → j.find_member v (codes "jsonrpc") ≡ some version
      → j.get_type version ≡ type_string
      → j.get_string version ≡ codes "2.0"
      → j.find_member v (codes "result") ≡ some result
      → find_callback n client.callbacks ≡ some cb
      → handle_single_response j v client ≡ answered cb result n client
  handle_single_response-answered v id version result n cb client size i ti number s ts text r
        waiting =
      let valid = valid_result j (Answer C j.Value) v id version result size i ti s ts text r in
      let numbered : id_of j v ≡ some n = unfold id_of in rw (i, id_of) (rw number refl) in
      let answer : answer_of j v cb ≡ answers cb result false ∷ [] =
        unfold answer_of in rw (r, answer_of) refl in
      replied j C v n cb client valid numbered waiting
      ∙ ap
          (λ es. record {
            events = es;
            client = record client { callbacks = erase_callback n client.callbacks };
            thrown = none;
          })
          answer

  handle_response-object :
      (json : Bytes) (v : j.Value) (client : Client C)
      → j.parse json ≡ some v
      → j.get_type v ≡ type_object
      → handle_response j json client ≡ handle_single_response j v client
  unfolding handle_response
  handle_response-object json v client p t = rw (p, handle_response) (rw t refl)

module _ (j : Json) (C : Type 0) where
  -- What the client does with the response, read again.
  handle_response-answered :
      (id result v : j.Value) (n : ℕ) (cb : C) (client : Client C)
      → Builds j id result
      → j.get_type id ≡ type_int32
      → j.get_int32 id ≡ pos n
      → (back : Rereads j id result v) → find_callback n client.callbacks ≡ some cb
      → handle_response j (j.write (done_response j id result) ++ crlf) client
        ≡ answered cb back.outcome.value n client
  handle_response-answered id result v n cb client h ti number back waiting =
      let i = subst (λ t. IsSame j t id back.number.value) ti back.number.same in
      let s =
        subst (λ t. IsSame j t (j.of_string (codes "2.0")) back.version.value) h.text.type
          back.version.same in
      handle_response-object j C (j.write (done_response j id result) ++ crlf) v client back.parsed
        (back.type ∙ built_type j id result h)
      ∙ handle_single_response-answered j C v back.number.value back.version.value
          back.outcome.value n cb client (back.size ∙ built_size j id result h) back.number.found
          i.0 (i.1 ∙ number) back.version.found s.0 (s.1 ∙ h.text.text) back.outcome.found waiting

  -- When a procedure of the server gives its result for a request with the number of a waiting call,
  -- the callback builds a response; when the bytes that the server sends for it are alone in the
  -- client's valid buffer and shorter than its limit, the client's loop ends within two rounds, calls
  -- the callback of that call exactly once, with the member "result" of the response as it is read
  -- again, forgets the call, throws nothing, and leaves the buffer empty. The JSON library is assumed
  -- to add members, to read what it writes, and to read the digits of a length.
  pub call-answered :
      (f : ℕ) (b : Buffer) (request id result v : j.Value) (n : ℕ) (cb : C) (client : Client C)
      → ReadsLength j
      → Builds j id result
      → (back : Rereads j id result v) → j.find_member request (codes "id") ≡ some id
      → j.get_type id ≡ type_int32
      → j.get_int32 id ≡ pos n
      → find_callback n client.callbacks ≡ some cb
      → IsValid b
      → readable b ≡ send_response j (done_response j id result)
      → length (j.write (done_response j id result)) + 2 < max_message_len
      → (r : Reply C j.Value × Buffer) × (done j request result ≡ some (done_response j id result))
        × (j.find_member v (codes "result") ≡ some back.outcome.value)
        × (handle_message j (suc (suc f)) b client ≡ some r)
        × (r.0 ≡ answered cb back.outcome.value n client)
        × (readable r.1 ≡ [])
  unfolding done
  call-answered f b request id result v n cb client reads h back asked ti number waiting valid e
        small =
      let (r, ends, handled) =
        handle_message-response j f b (done_response j id result) client reads valid e small in
      let same = handle_response-answered id result v n cb client h ti number back waiting in
      (r, rw (asked, done) refl, back.outcome.found, ends, handled.same ∙ same, handled.emptied)
