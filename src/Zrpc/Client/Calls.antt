-- ===== src/Zrpc/Client/Calls.antt =====
-- The numbers of calls (LALI/zrpc/client/RpcClient.cpp, `sendCall`).
use lali_rpc_frame.Base.{ℕ, ◌≤◌, ◌≡◌, refl, ◌≢◌, none, some, List, [], ◌∷◌, arith}
use lali_rpc_frame.Zrpc.Json.{Json}
use lali_rpc_frame.Zrpc.Client.{Client, find_callback, erase_callback, send_call}

-- Every waiting call has a number below the next one.
pub record IsFresh {C : Type 0} (client : Client C) : Type 0 where
  pub unused : (n : ℕ) → client.id ≤ n → find_callback n client.callbacks ≡ none

module _ {C : Type 0} where
  pub find-erase_self : (n : ℕ) (cs : List (ℕ × C)) → find_callback n (erase_callback n cs) ≡ none
  unfolding find_callback erase_callback
  find-erase_self n [] = refl
  find-erase_self n ((k, c) ∷ rest) = ground (arith, find-erase_self n rest)

  pub find-erase_other :
      (n m : ℕ) (cs : List (ℕ × C))
      → n ≢ m
      → find_callback n (erase_callback m cs) ≡ find_callback n cs
  unfolding find_callback erase_callback
  find-erase_other n m [] h = refl
  find-erase_other n m ((k, c) ∷ rest) h = ground (arith, find-erase_other n m rest h)

  -- A call gets a number that no waiting call has, its callback waits under that number, all other
  -- callbacks wait as before, and the numbers from the next one on stay unused.
  pub send_call-IsFresh :
      (j : Json) (call : j.Value) (cb : C) (client : Client C)
      → IsFresh client
      → (find_callback client.id client.callbacks ≡ none)
        × (find_callback client.id (send_call j call cb client).1.callbacks ≡ some cb)
        × ((n : ℕ)
            → n ≢ client.id
            → find_callback n (send_call j call cb client).1.callbacks
              ≡ find_callback n client.callbacks)
        × IsFresh (send_call j call cb client).1
  unfolding send_call find_callback
  send_call-IsFresh j call cb client fresh = (
    fresh.unused client.id (omega arith),
    ground arith,
    (λ n other. ground (arith, find-erase_other n client.id client.callbacks other)),
    record {
      unused =
          λ n above. ground (arith, find-erase_other n client.id client.callbacks, fresh.unused n);
    },
  )
