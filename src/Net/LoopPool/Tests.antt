-- ===== src/Net/LoopPool/Tests.antt =====
-- Three loops.
use lali_rpc_frame.Base.{ℕ, ◌≡◌, [], ◌∷◌}
use lali_rpc_frame.Net.LoopPool.{choose}
use lali_rpc_frame.Net.LoopPool.RoundRobin.{at, choose-loops}

choose-loops_example :
    choose {L = ℕ} 3 (at 9 (4 ∷ 5 ∷ 6 ∷ []) 0) ≡ (4 ∷ 5 ∷ 6 ∷ [], at 9 (4 ∷ 5 ∷ 6 ∷ []) 0)
choose-loops_example = choose-loops 9 4 (5 ∷ 6 ∷ [])
