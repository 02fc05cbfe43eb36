-- ===== src/Zrpc/Client/Answers.antt =====
-- What a response makes the client do (LALI/zrpc/client/RpcClient.cpp, `handleSingleResponse`).
use lali_rpc_frame.Base.{
  codes, Option-cases, ℕ, ◌≡◌, refl, ◌≢◌, inl, inr, Bool, true, false, none, some, [], ◌∷◌,
}
use lali_rpc_frame.Zrpc.Json.{Json}
use lali_rpc_frame.Zrpc.Thrown.{exception, ok, throws, ◌>>=◌, bind-ok}
use lali_rpc_frame.Zrpc.Client.{
  Client, Answer, answers, find_callback, erase_callback, find_value, is_result, require_error,
  validate_response, id_of, answer_of, deliver, handle_single_response,
}
use lali_rpc_frame.Zrpc.Client.Calls.{find-erase_self, find-erase_other}

module _ (j : Json) (C : Type 0) where
  open j use {Value, find_member}

  -- A response that has passed the validation has something to answer with.
  record IsAnswer (response : Value) (cb : C) : Type 0 where
    value : Value
    is_error : Bool
    only : answer_of j response cb ≡ answers cb value is_error ∷ []

  error_there :
      (response : Value)
      → find_member response (codes "result") ≡ none
      → find_member response (codes "error") ≡ none
      → (require_error j {E = Answer C Value} response).result ≢ ok tt
  unfolding require_error is_result find_value ◌>>=◌
  error_there response absent missing h =
      let thrown : (require_error j {E = Answer C Value} response).result
          ≡ throws (exception "missing at least one field") =
        rw (absent, is_result) (rw (missing, find_value) refl) in
      cc

  required :
      (response : Value)
      → (validate_response j {E = Answer C Value} response).result ≡ ok tt
      → (require_error j {E = Answer C Value} response).result ≡ ok tt
  unfolding validate_response
  required response h =
      let (u, sized, h1) = bind-ok _ _ _ h in
      let (id, numbered, h2) = bind-ok _ _ _ h1 in
      let (version, versioned, h3) = bind-ok _ _ _ h2 in let (u, known, h4) = bind-ok _ _ _ h3 in h4

  is_answer :
      (response : Value) (cb : C)
      → (validate_response j {E = Answer C Value} response).result ≡ ok tt
      → IsAnswer response cb
  unfolding answer_of
  is_answer response cb h = elim (Option-cases (find_member response (codes "result"))) [
    | inl absent ↦ elim (Option-cases (find_member response (codes "error"))) [
      | inl missing ↦ absurd (error_there response absent missing (required response h))
      | inr (e, there) ↦ record {
        value = e;
        is_error = true;
        only = rw (absent, answer_of) (rw there refl);
      }
    ]
    | inr (r, found) ↦ record { value = r; is_error = false; only = rw (found, answer_of) refl }
  ]

  pub replied :
      (response : Value) (n : ℕ) (cb : C) (client : Client C)
      → (validate_response j {E = Answer C Value} response).result ≡ ok tt
      → id_of j response ≡ some n
      → find_callback n client.callbacks ≡ some cb
      → handle_single_response j response client ≡ record {
        events = answer_of j response cb;
        client = record client { callbacks = erase_callback n client.callbacks };
        thrown = none;
      }
  unfolding handle_single_response deliver
  replied response n cb client valid numbered waiting =
      rw (valid, handle_single_response) (rw numbered (rw (waiting, deliver) refl))

  unasked :
      (response : Value) (n : ℕ) (client : Client C)
      → (validate_response j {E = Answer C Value} response).result ≡ ok tt
      → id_of j response ≡ some n
      → find_callback n client.callbacks ≡ none
      → (handle_single_response j response client).events ≡ []
  unfolding handle_single_response deliver
  unasked response n client valid numbered waiting =
      rw (valid, handle_single_response) (rw numbered (rw (waiting, deliver) refl))

  -- A valid response to a call that waits calls the callback of that call, once, and removes it: the
  -- same response again calls nothing. The other calls wait as before.
  pub handle_single_response-once :
      (response : Value) (n : ℕ) (cb : C) (client : Client C)
      → (validate_response j {E = Answer C Value} response).result ≡ ok tt
      → id_of j response ≡ some n
      → find_callback n client.callbacks ≡ some cb
      → (value : Value) × (is_error : Bool) × ((handle_single_response j response client).events
          ≡ answers cb value is_error ∷ [])
        × ((handle_single_response j response
              (handle_single_response j response client).client).events
            ≡ [])
        × ((m : ℕ)
            → m ≢ n
            → find_callback m (handle_single_response j response client).client.callbacks
              ≡ find_callback m client.callbacks)
  handle_single_response-once response n cb client valid numbered waiting =
      let answer = is_answer response cb valid in
      (
        answer.value,
        answer.is_error,
        rw (replied response n cb client valid numbered waiting) answer.only,
        rw (replied response n cb client valid numbered waiting) (
            unasked response n (record client { callbacks = erase_callback n client.callbacks })
              valid numbered (find-erase_self n client.callbacks)),
        λ m other.
            rw (replied response n cb client valid numbered waiting)
              (find-erase_other m n client.callbacks other),
      )
