-- ===== src/Net/EventLoop.antt =====
-- LALI/net/EventLoop.cpp: the functors that wait for the loop, and the wake-ups of its thread. A functor
-- is a value of any type; `called` holds those that were called, in order, and `wakeups` is the counter
-- of the event descriptor. `waking` counts the other threads between their push and their wake-up.
pub mod Steps
pub mod Alert
pub mod Runs
mod Tests
use lali_rpc_frame.Base.{[], if◌then◌else◌, ℕ, ◌+◌, Bool, true, false, not, ◌||◌, List, ◌∷◌, ◌++◌}

-- What the thread of the loop does: it waits in `poll`, handles events, calls functors, or has left.
pub data Phase : Type 0 where
  polling : Phase
  handling : Phase
  calling : Phase
  stopped : Phase

pub record EventLoop (F : Type 0) : Type 0 where
  pub pending_functors : List F
  pub functors : List F
  pub call_pending_functor : Bool
  pub quits : Bool
  pub phase : Phase
  pub wakeups : ℕ
  pub waking : ℕ
  pub called : List F

-- The state in which `loop` polls for the first time: the flag is cleared there.
unfoldable pub looping : {F : Type 0} → List F → ℕ → EventLoop F
looping pending wakeups = record {
  pending_functors = pending;
  functors = [];
  call_pending_functor = false;
  quits = false;
  phase = polling;
  wakeups = wakeups;
  waking = 0;
  called = [];
}

unfoldable pub weakup : {F : Type 0} → EventLoop F → EventLoop F
weakup s = record s { wakeups = s.wakeups + 1 }

-- A read of the event descriptor takes its whole counter.
unfoldable pub handle_read : {F : Type 0} → EventLoop F → EventLoop F
handle_read s = record s { wakeups = 0 }

-- `queueInLoop`: the critical section, and what follows it.
unfoldable pub push_functor : {F : Type 0} → F → EventLoop F → EventLoop F
push_functor cb s = record s { pending_functors = s.pending_functors ++ cb ∷ [] }

unfoldable pub wake_loop : {F : Type 0} → Bool → EventLoop F → EventLoop F
wake_loop in_loop s = if not in_loop || s.call_pending_functor then weakup s else s

unfoldable pub queue_in_loop : {F : Type 0} → Bool → F → EventLoop F → EventLoop F
queue_in_loop in_loop cb s = wake_loop in_loop (push_functor cb s)

-- `runInLoop`, with the functors that it calls at once.
unfoldable pub run_in_loop : {F : Type 0} → Bool → F → EventLoop F → List F × EventLoop F
run_in_loop in_loop cb s = if in_loop then (cb ∷ [], s) else ([], queue_in_loop in_loop cb s)

-- `doPendingFunctor`: up to the swap, one call, and the end.
unfoldable pub swap_functors : {F : Type 0} → EventLoop F → EventLoop F
swap_functors s = record s {
  call_pending_functor = true;
  functors = s.pending_functors;
  pending_functors = [];
  phase = calling;
}

unfoldable pub call_first : {F : Type 0} → List F → EventLoop F → EventLoop F
call_first [] s = record s {
  call_pending_functor = false;
  phase = if s.quits then stopped else polling;
}
call_first (f ∷ fs) s = record s { called = s.called ++ f ∷ []; functors = fs }

unfoldable pub call_functor : {F : Type 0} → EventLoop F → EventLoop F
call_functor s = call_first s.functors s

-- The return of `poll`, and `quit`.
unfoldable pub poll_returns : {F : Type 0} → EventLoop F → EventLoop F
poll_returns s = record s { phase = handling }

unfoldable pub quit : {F : Type 0} → EventLoop F → EventLoop F
quit s = record s { quits = true }
