-- ===== src/Net/EventLoop/Tests.antt =====
-- The event loop theorems at a concrete run.
use lali_rpc_frame.Base.{ℕ, ◌+◌, ◌<◌, ◌≡◌, refl, ◌⊎◌, inl, true, false, [], ◌∷◌, ◌++◌, arith}
use lali_rpc_frame.Net.EventLoop.{
  EventLoop, looping, push_functor, wake_loop, queue_in_loop, weakup, poll_returns, handle_read,
  swap_functors, call_functor, call_first,
}
use lali_rpc_frame.Net.EventLoop.Steps.{
  Runs, done, step, pushes, wakes, returns, reads, swaps, nests, calls,
}
use lali_rpc_frame.Net.EventLoop.Runs.{runs-wakeup, runs-order}

-- A thread queues 1 and wakes the loop, which calls it; meanwhile the functor queues 2.
abbrev queued : EventLoop ℕ
queued = record (push_functor 1 (looping [] 0)) { waking = 1 }

abbrev woken : EventLoop ℕ
woken = record (wake_loop false queued) { waking = 0 }

abbrev taken : EventLoop ℕ
taken = swap_functors (handle_read (poll_returns woken))

abbrev again : EventLoop ℕ
again = call_functor (queue_in_loop true 2 (call_functor taken))

run : Runs (looping [] 0) (1 ∷ 2 ∷ []) again
unfolding looping push_functor wake_loop poll_returns handle_read swap_functors call_functor
    call_first queue_in_loop weakup
run = step _ _ again _ _ (pushes 1 (looping [] 0)) (
    step _ _ again _ _ (wakes queued (omega arith)) (
      step _ _ again _ _ (returns woken refl) (
        step _ _ again _ _ (reads (poll_returns woken) refl) (
          step _ _ again _ _ (swaps (handle_read (poll_returns woken)) refl) (
            step _ _ again _ _ (calls taken refl) (
              step _ _ again _ _ (nests 2 (call_functor taken) refl) (
                step _ _ again _ _ (calls (queue_in_loop true 2 (call_functor taken)) refl)
                  (done again))))))))

runs-wakeup_example : (again.pending_functors ≡ []) ⊎ (0 < again.wakeups + again.waking)
unfolding looping push_functor wake_loop poll_returns handle_read swap_functors call_functor
    call_first queue_in_loop weakup
runs-wakeup_example = runs-wakeup [] 0 (1 ∷ 2 ∷ []) again (inl refl) run refl

runs-order_example : again.called ++ (again.functors ++ again.pending_functors) ≡ 1 ∷ 2 ∷ []
runs-order_example = runs-order [] 0 (1 ∷ 2 ∷ []) again run
