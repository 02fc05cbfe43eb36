-- ===== src/Net/EventLoop/Steps.antt =====
-- The steps of the event loop and of other threads (LALI/net/EventLoop.cpp).
use lali_rpc_frame.Base.{◌+◌, ◌-◌, ◌<◌, ◌≡◌, true, false, List, [], ◌∷◌, ◌++◌}
use lali_rpc_frame.Net.EventLoop.{
  polling, handling, calling, EventLoop, handle_read, push_functor, wake_loop, queue_in_loop,
  swap_functors, call_functor, poll_returns, quit,
}

-- A step, with the functors that it queues. Another thread pushes first and wakes the loop later; a call
-- from the loop's own thread, out of an event handler or a functor, is one step, since the steps of
-- others commute with its second half.
pub data Step {F : Type 0} : EventLoop F → List F → EventLoop F → Type 0 where
  pushes :
      (cb : F) (s : EventLoop F)
      → Step s (cb ∷ []) (record (push_functor cb s) { waking = s.waking + 1 })
  wakes :
      (s : EventLoop F)
      → 0 < s.waking
      → Step s [] (record (wake_loop false s) { waking = s.waking - 1 })
  quits : (s : EventLoop F) → Step s [] (quit s)
  returns : (s : EventLoop F) → s.phase ≡ polling → Step s [] (poll_returns s)
  reads : (s : EventLoop F) → s.phase ≡ handling → Step s [] (handle_read s)
  handles :
      (cb : F) (s : EventLoop F) → s.phase ≡ handling → Step s (cb ∷ []) (queue_in_loop true cb s)
  swaps : (s : EventLoop F) → s.phase ≡ handling → Step s [] (swap_functors s)
  nests :
      (cb : F) (s : EventLoop F) → s.phase ≡ calling → Step s (cb ∷ []) (queue_in_loop true cb s)
  calls : (s : EventLoop F) → s.phase ≡ calling → Step s [] (call_functor s)

pub data Runs {F : Type 0} : EventLoop F → List F → EventLoop F → Type 0 where
  done : (s : EventLoop F) → Runs s [] s
  step :
      (s t u : EventLoop F) (queued more : List F)
      → Step s queued t
      → Runs t more u
      → Runs s (queued ++ more) u

-- What is there of the functors, the called ones first.
abbrev pub all_functors : {F : Type 0} → EventLoop F → List F
all_functors s = s.called ++ (s.functors ++ s.pending_functors)
