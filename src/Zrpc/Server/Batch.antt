-- ===== src/Zrpc/Server/Batch.antt =====
-- LALI/zrpc/server/Rpcserver.cpp, `ThreadSafeBatchResponse`: the responses of a batch. `holders` counts
-- the copies of `data_`, the loop's own one included; the destructor of the last one answers. The mutex
-- makes the steps of different threads follow one another.
use lali_rpc_frame.Base.{
  ◌==◌, if◌then◌else◌, Bool-cases, ℕ, suc, ◌-◌, ◌<◌, ◌≡◌, refl, sym, ap, subst, ◌⊎◌, inl, inr, true,
  false, Option, none, some, List, [], ◌∷◌, ◌++◌, arith,
}
use lali_rpc_frame.Zrpc.Json.{Json, type_array}

pub record Batch (V : Type 0) : Type 0 where
  pub holders : ℕ
  pub responses : V
  pub answered : List V

-- What a thread does with a copy that it holds.
pub data Step (V : Type 0) : Type 0 where
  copies releases : Step V
  adds : V → Step V

module _ (j : Json) where
  open j use {Value, new_value, add_value}

  unfoldable pub new_batch : Batch Value
  new_batch = record { holders = 1; responses = new_value type_array; answered = [] }

  unfoldable pub add_response : Value → Batch Value → Batch Value
  add_response response b = record b { responses = add_value b.responses response }

  unfoldable pub copy : Batch Value → Batch Value
  copy b = record b { holders = suc b.holders }

  -- `~ThreadSafeData` calls `done`.
  unfoldable pub release : Batch Value → Batch Value
  release b =
      if b.holders == 1
      then record b { holders = 0; answered = b.answered ++ b.responses ∷ [] }
      else record b { holders = b.holders - 1 }

  abbrev pub step : Step Value → Batch Value → Batch Value
  step copies b = copy b
  step releases b = release b
  step (adds response) b = add_response response b

  -- Steps of any threads, in the order in which they happen: without a holder there is none.
  unfoldable pub run : List (Step Value) → Batch Value → Option (Batch Value)
  run [] b = some b
  run (s ∷ steps) b = let rest = run steps (step s b) in if b.holders == 0 then none else rest

  -- The array of the responses that the steps add.
  abbrev pub collected : List (Step Value) → Value → Value
  collected [] responses = responses
  collected (adds response ∷ steps) responses = collected steps (add_value responses response)
  collected (_ ∷ steps) responses = collected steps responses

  pub record IsOpen (b : Batch Value) : Type 0 where
    pub held : 0 < b.holders
    pub unanswered : b.answered ≡ []

  pub record IsAnswered (responses : Value) (b : Batch Value) : Type 0 where
    pub released : b.holders ≡ 0
    pub once : b.answered ≡ responses ∷ []

  run-step :
      (s : Step Value) (steps : List (Step Value)) (b b' : Batch Value)
      → 0 < b.holders
      → run (s ∷ steps) b ≡ some b'
      → run steps (step s b) ≡ some b'
  unfolding run
  run-step s steps b b' held h = ground arith

  run-end :
      (steps : List (Step Value)) (b b' : Batch Value)
      → b.holders ≡ 0
      → run steps b ≡ some b'
      → (steps ≡ []) × (b ≡ b')
  unfolding run
  run-end [] b b' none_left h = (refl, cc)
  run-end (s ∷ steps) b b' none_left h = absurd (ground arith)

  release-last :
      (b : Batch Value)
      → (b.holders == 1) ≡ true
      → release b ≡ record b { holders = 0; answered = b.answered ++ b.responses ∷ [] }
  unfolding release
  release-last b h =
      ap
        (λ x.
          if x
          then record b { holders = 0; answered = b.answered ++ b.responses ∷ [] }
          else record b { holders = b.holders - 1 })
        h

  release-more :
      (b : Batch Value)
      → (b.holders == 1) ≡ false
      → release b ≡ record b { holders = b.holders - 1 }
  unfolding release
  release-more b h =
      ap
        (λ x.
          if x
          then record b { holders = 0; answered = b.answered ++ b.responses ∷ [] }
          else record b { holders = b.holders - 1 })
        h

  -- The last copy is gone: the batch has been answered, and no step follows.
  last-answers :
      (steps : List (Step Value)) (b b' : Batch Value)
      → b.answered ≡ []
      → run steps (record b { holders = 0; answered = b.answered ++ b.responses ∷ [] }) ≡ some b'
      → IsAnswered (collected steps b.responses) b'
  last-answers steps b b' none_yet h =
      let (over, same) =
        run-end steps (record b { holders = 0; answered = b.answered ++ b.responses ∷ [] }) b' refl
          h in
      subst (λ s. IsAnswered (collected s b.responses) b') (sym over)
        (subst (λ x. IsAnswered b.responses x) same
          (record { released = refl; once = ap (λ l. l ++ b.responses ∷ []) none_yet }))

  run-answers :
      (steps : List (Step Value)) (b b' : Batch Value)
      → IsOpen b
      → run steps b ≡ some b'
      → IsOpen b' ⊎ IsAnswered (collected steps b.responses) b'
  unfolding copy add_response run
  run-answers [] b b' open_b h = let same : b ≡ b' = cc in inl (subst (λ x. IsOpen x) same open_b)
  run-answers (copies ∷ steps) b b' open_b h =
      run-answers steps (copy b) b' (record { held = omega arith; unanswered = open_b.unanswered })
        (run-step copies steps b b' open_b.held h)
  run-answers (adds response ∷ steps) b b' open_b h =
      run-answers steps (add_response response b) b'
        (record { held = open_b.held; unanswered = open_b.unanswered })
        (run-step (adds response) steps b b' open_b.held h)
  run-answers (releases ∷ steps) b b' open_b h = elim (Bool-cases (b.holders == 1)) [
    | inl last ↦ inr (
        last-answers steps b b' open_b.unanswered (
          subst (λ x. run steps x ≡ some b') (release-last b last)
            (run-step releases steps b b' open_b.held h)))
    | inr more ↦
        run-answers steps (record b { holders = b.holders - 1 }) b'
          (record { held = ground (arith, open_b.held); unanswered = open_b.unanswered })
          (subst (λ x. run steps x ≡ some b') (release-more b more)
            (run-step releases steps b b' open_b.held h))
  ]

  -- Whatever the threads do with a new batch, in any order, its callback has been called once, with all
  -- responses that were added, in order, exactly if no copy is left, and not at all before.
  pub run-new_batch :
      (steps : List (Step Value)) (b : Batch Value)
      → run steps new_batch ≡ some b
      → IsOpen b ⊎ IsAnswered (collected steps (new_value type_array)) b
  unfolding new_batch
  run-new_batch steps b h =
      run-answers steps new_batch b (record { held = omega arith; unanswered = refl }) h
