-- ===== src/Net/EventLoop/Runs.antt =====
-- Runs of the event loop together with any other threads (LALI/net/EventLoop.cpp).
use lali_rpc_frame.Base.{
  ℕ, ◌+◌, ◌<◌, ◌≡◌, refl, ap, ◌∙◌, ◌⊎◌, inl, inr, List, [], ◌++◌, append_assoc, arith,
}
use lali_rpc_frame.Net.EventLoop.{polling, EventLoop, looping}
use lali_rpc_frame.Net.EventLoop.Steps.{Runs, done, step, all_functors}
use lali_rpc_frame.Net.EventLoop.Alert.{IsAlert, Keeps, at_phase, nothing, step-Keeps}

module _ {F : Type 0} (Start : Type 0) where
  runs-Keeps :
      (s t : EventLoop F) (queued : List F)
      → Runs s queued t
      → IsAlert Start s
      → Keeps Start s queued t
  runs-Keeps _ _ _ (done s) v = record { alert = v; same = nothing Start s }
  runs-Keeps _ _ _ (step s t u queued more first run) v =
      let one = step-Keeps Start s t queued first v in
      let rest = runs-Keeps t u more run one.alert in
      record {
        alert = rest.alert;
        same = rest.same ∙ ap (λ l. l ++ more) one.same ∙ append_assoc (all_functors s) queued more;
      }

-- Nothing is pending when the loop first polls, or a wake-up has been made.
abbrev pub IsStart : {F : Type 0} → List F → ℕ → Type 0
IsStart pending wakeups = (pending ≡ []) ⊎ (0 < wakeups)

looping-IsAlert :
    {F : Type 0}
    → (pending : List F) (wakeups : ℕ) → IsAlert (IsStart pending wakeups) (looping pending wakeups)
unfolding looping
looping-IsAlert pending wakeups = record {
  flag = refl;
  awake = (refl, λ start. elim start [ inl none ↦ inl none | inr some ↦ inr (omega arith) ]);
}

-- Where nothing is pending or a wake-up has been made when the loop first polls, then, however the loop
-- and other threads are interleaved: while the loop polls and a functor is pending, the descriptor is
-- readable or some thread is about to make it so.
pub runs-wakeup :
    {F : Type 0}
    → (pending : List F) (wakeups : ℕ) (queued : List F) (t : EventLoop F)
    → (pending ≡ []) ⊎ (0 < wakeups)
    → Runs (looping pending wakeups) queued t
    → t.phase ≡ polling
    → (t.pending_functors ≡ []) ⊎ (0 < t.wakeups + t.waking)
runs-wakeup pending wakeups queued t h run p =
    let Start = IsStart pending wakeups in
    let kept =
      runs-Keeps Start (looping pending wakeups) t queued run (looping-IsAlert pending wakeups) in
    (at_phase Start t polling p kept.alert).1 h

-- However the loop and other threads are interleaved from the first poll on, the functors called, the
-- ones taken to be called and the pending ones are together, in this order, the functors that were
-- pending at the start and those queued since, in the order of their pushes, so none is lost, called
-- twice or overtaken.
pub runs-order :
    {F : Type 0}
    → (pending : List F) (wakeups : ℕ) (queued : List F) (t : EventLoop F)
    → Runs (looping pending wakeups) queued t
    → t.called ++ (t.functors ++ t.pending_functors) ≡ pending ++ queued
unfolding looping
runs-order pending wakeups queued t run =
    (runs-Keeps (IsStart pending wakeups) (looping pending wakeups) t queued run
      (looping-IsAlert pending wakeups)).same
