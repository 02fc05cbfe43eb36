-- ===== src/Net/LoopPool.antt =====
-- LALI/net/EventLoopThreadPool.cpp: the choice of a loop for a new connection. A loop is an element of a
-- type `L`.
pub mod RoundRobin
mod Tests
use lali_rpc_frame.Base.{[], leb, if◌then◌else◌, length, get_or, ℕ, zero, suc, List, ◌∷◌}

pub record LoopPool (L : Type 0) : Type 0 where
  pub base_loop : L
  pub loops : List L
  pub next : ℕ

module _ {L : Type 0} where
  -- `next_++`, and back to the start behind the last loop.
  unfoldable pub advance : LoopPool L → LoopPool L
  advance p = record p { next = if leb (length p.loops) (suc p.next) then 0 else suc p.next }

  abbrev choice : List L → LoopPool L → L × LoopPool L
  choice [] p = (p.base_loop, p)
  choice (l ∷ ls) p = (get_or (l ∷ ls) p.next p.base_loop, advance p)

  unfoldable pub get_next_loop : LoopPool L → L × LoopPool L
  get_next_loop p = choice p.loops p

  -- The loops of `k` connections, one after the other.
  unfoldable pub choose : ℕ → LoopPool L → List L × LoopPool L
  choose zero p = ([], p)
  choose (suc k) p =
      let rest = choose k (get_next_loop p).1 in ((get_next_loop p).0 ∷ rest.0, rest.1)
