-- ===== src/Net/EventLoop/Alert.antt =====
-- What every step of the event loop keeps (LALI/net/EventLoop.cpp).
use lali_rpc_frame.Base.{
  if◌then◌else◌, ℕ, ◌+◌, ◌-◌, ◌<◌, ◌≡◌, refl, sym, ap, ◌∙◌, subst, ◌⊎◌, inl, inr, Bool, true, false,
  List, [], ◌∷◌, ◌++◌, append_assoc, append-nil, arith,
}
use lali_rpc_frame.Net.EventLoop.{
  Phase, polling, handling, calling, stopped, EventLoop, weakup, handle_read, push_functor,
  wake_loop, queue_in_loop, swap_functors, call_first, call_functor, poll_returns, quit,
}
use lali_rpc_frame.Net.EventLoop.Steps.{
  Step, pushes, wakes, quits, returns, reads, handles, swaps, nests, calls, all_functors,
}

-- While the loop handles events, what is pending will be taken; while it calls functors or polls, a
-- pending functor has a wake-up, where `Start` is what this needs of the start. The functors taken are
-- called before the loop polls again.
abbrev pub HasWakeup : {F : Type 0} → Type 0 → ℕ → ℕ → List F → Type 0
HasWakeup Start wakeups waking pending = Start → (pending ≡ []) ⊎ (0 < wakeups + waking)

abbrev pub IsAwake : {F : Type 0} → Type 0 → ℕ → ℕ → List F → List F → Phase → Type 0
IsAwake Start wakeups waking functors pending polling =
    (functors ≡ []) × HasWakeup Start wakeups waking pending
IsAwake Start wakeups waking functors pending handling = functors ≡ []
IsAwake Start wakeups waking functors pending calling = HasWakeup Start wakeups waking pending
IsAwake Start wakeups waking functors pending stopped = functors ≡ []

abbrev pub is_calling : Phase → Bool
is_calling polling = false
is_calling handling = false
is_calling calling = true
is_calling stopped = false

pub record IsAlert {F : Type 0} (Start : Type 0) (s : EventLoop F) : Type 0 where
  pub flag : s.call_pending_functor ≡ is_calling s.phase
  pub awake : IsAwake Start s.wakeups s.waking s.functors s.pending_functors s.phase

-- What a step keeps: the alertness, and the functors with those that it queues behind them.
pub record Keeps {F : Type 0} (Start : Type 0) (s : EventLoop F) (queued : List F) (t : EventLoop F)
    : Type 0 where
  pub alert : IsAlert Start t
  pub same : all_functors t ≡ all_functors s ++ queued

module _ {F : Type 0} (Start : Type 0) where
  pub at_phase :
      (s : EventLoop F) (phase : Phase)
      → s.phase ≡ phase
      → IsAlert Start s
      → IsAwake Start s.wakeups s.waking s.functors s.pending_functors phase
  at_phase s phase e v =
      subst (λ p. IsAwake Start s.wakeups s.waking s.functors s.pending_functors p) e v.awake

  push-IsAwake :
      (wakeups waking : ℕ) (functors pending : List F) (cb : F) (phase : Phase)
      → IsAwake Start wakeups waking functors pending phase
      → IsAwake Start wakeups (waking + 1) functors (pending ++ cb ∷ []) phase
  push-IsAwake wakeups waking functors pending cb polling h = (h.0, λ w. inr (omega arith))
  push-IsAwake wakeups waking functors pending cb handling h = h
  push-IsAwake wakeups waking functors pending cb calling h = λ w. inr (omega arith)
  push-IsAwake wakeups waking functors pending cb stopped h = h

  wake-IsAwake :
      (wakeups waking : ℕ) (functors pending : List F) (phase : Phase)
      → IsAwake Start wakeups waking functors pending phase
      → IsAwake Start (wakeups + 1) (waking - 1) functors pending phase
  wake-IsAwake wakeups waking functors pending polling h = (h.0, λ w. inr (omega arith))
  wake-IsAwake wakeups waking functors pending handling h = h
  wake-IsAwake wakeups waking functors pending calling h = λ w. inr (omega arith)
  wake-IsAwake wakeups waking functors pending stopped h = h

  push_functors :
      (s : EventLoop F) (cb : F) → all_functors (push_functor cb s) ≡ all_functors s ++ cb ∷ []
  unfolding push_functor
  push_functors s cb =
      ap (λ l. s.called ++ l) (sym (append_assoc s.functors s.pending_functors (cb ∷ [])))
      ∙ sym (append_assoc s.called (s.functors ++ s.pending_functors) (cb ∷ []))

  pub nothing : (s : EventLoop F) → all_functors s ≡ all_functors s ++ []
  nothing s = sym (append-nil (all_functors s))

  call_all :
      (s : EventLoop F) (f : F) (fs : List F)
      → s.functors ≡ f ∷ fs
      → all_functors (call_first (f ∷ fs) s) ≡ all_functors s
  unfolding call_first
  call_all s f fs e =
      append_assoc s.called (f ∷ []) (fs ++ s.pending_functors)
      ∙ ap (λ l. s.called ++ (l ++ s.pending_functors)) (sym e)

  end-IsAlert :
      (s : EventLoop F) (quits : Bool)
      → s.functors ≡ []
      → HasWakeup Start s.wakeups s.waking s.pending_functors
      → IsAlert Start
          (record s { call_pending_functor = false; phase = if quits then stopped else polling })
  end-IsAlert s true e h = record { flag = refl; awake = e }
  end-IsAlert s false e h = record { flag = refl; awake = (e, h) }

  call-Keeps :
      (s : EventLoop F) (functors : List F)
      → s.functors ≡ functors
      → HasWakeup Start s.wakeups s.waking s.pending_functors
      → s.phase ≡ calling
      → IsAlert Start s
      → Keeps Start s [] (call_first functors s)
  unfolding call_first
  call-Keeps s [] e h p v = record { alert = end-IsAlert s s.quits e h; same = nothing s }
  call-Keeps s (f ∷ fs) e h p v = record {
    alert = record {
      flag = v.flag;
      awake = subst (λ q. IsAwake Start s.wakeups s.waking fs s.pending_functors q) (sym p) h;
    };
    same = call_all s f fs e ∙ nothing s;
  }

  -- A call of `queueInLoop` on the thread of the loop.
  handle_queue :
      (s : EventLoop F) (cb : F)
      → s.call_pending_functor ≡ false
      → queue_in_loop true cb s ≡ push_functor cb s
  unfolding queue_in_loop wake_loop push_functor
  handle_queue s cb e = ap (λ c. if c then weakup (push_functor cb s) else push_functor cb s) e

  nest_queue :
      (s : EventLoop F) (cb : F)
      → s.call_pending_functor ≡ true
      → queue_in_loop true cb s ≡ weakup (push_functor cb s)
  unfolding queue_in_loop wake_loop push_functor
  nest_queue s cb e = ap (λ c. if c then weakup (push_functor cb s) else push_functor cb s) e

  pub step-Keeps :
      (s t : EventLoop F) (queued : List F)
      → Step s queued t
      → IsAlert Start s
      → Keeps Start s queued t
  unfolding push_functor wake_loop weakup quit poll_returns handle_read swap_functors call_functor
  step-Keeps _ _ _ (pushes cb s) v = record {
    alert = record {
      flag = v.flag;
      awake = push-IsAwake s.wakeups s.waking s.functors s.pending_functors cb s.phase v.awake;
    };
    same = push_functors s cb;
  }
  step-Keeps _ _ _ (wakes s h) v = record {
    alert = record {
      flag = v.flag;
      awake = wake-IsAwake s.wakeups s.waking s.functors s.pending_functors s.phase v.awake;
    };
    same = nothing s;
  }
  step-Keeps _ _ _ (quits s) v = record {
    alert = record { flag = v.flag; awake = v.awake };
    same = nothing s;
  }
  step-Keeps _ _ _ (returns s p) v = record {
    alert = record { flag = v.flag ∙ ap is_calling p; awake = (at_phase s polling p v).0 };
    same = nothing s;
  }
  step-Keeps _ _ _ (reads s p) v = record {
    alert = record {
      flag = v.flag;
      awake =
          subst (λ q. IsAwake Start 0 s.waking s.functors s.pending_functors q) (sym p)
            (at_phase s handling p v);
    };
    same = nothing s;
  }
  step-Keeps _ _ _ (handles cb s p) v =
      subst (λ t. Keeps Start s (cb ∷ []) t) (sym (handle_queue s cb (v.flag ∙ ap is_calling p)))
        (record {
          alert = record {
            flag = v.flag;
            awake =
                subst
                  (λ q.
                    IsAwake Start s.wakeups s.waking s.functors (s.pending_functors ++ cb ∷ []) q)
                  (sym p) (at_phase s handling p v);
          };
          same = push_functors s cb;
        })
  step-Keeps _ _ _ (swaps s p) v = record {
    alert = record { flag = refl; awake = λ w. inl refl };
    same =
        ap (λ l. s.called ++ l)
          (append-nil s.pending_functors
            ∙ ap (λ l. l ++ s.pending_functors) (sym (at_phase s handling p v)))
        ∙ nothing s;
  }
  step-Keeps _ _ _ (nests cb s p) v =
      subst (λ t. Keeps Start s (cb ∷ []) t) (sym (nest_queue s cb (v.flag ∙ ap is_calling p)))
        (record {
          alert = record {
            flag = v.flag;
            awake =
                subst
                  (λ q.
                    IsAwake Start (s.wakeups + 1) s.waking s.functors
                      (s.pending_functors ++ cb ∷ []) q)
                  (sym p) (λ w. inr (omega arith));
          };
          same = push_functors s cb;
        })
  step-Keeps _ _ _ (calls s p) v = call-Keeps s s.functors refl (at_phase s calling p v) p v
