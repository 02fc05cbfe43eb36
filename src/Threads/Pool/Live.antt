-- ===== src/Threads/Pool/Live.antt =====
-- Runs of the pool of threads (LALI/base/ThreadPool.cpp), in any order of its threads.
use lali_rpc_frame.Base.{
  ◌==◌, if◌then◌else◌, ℕ, zero, suc, ◌+◌, ◌≤◌, ◌<◌, ◌≡◌, refl, sym, ap, ◌∙◌, subst, ◌⊎◌, inl, inr,
  Bool, true, false, List, [], ◌∷◌, ◌++◌, append_assoc, append-nil, arith,
}
use lali_rpc_frame.Threads.Pool.{
  ThreadPool, start, weakup, run, stop, run_inqueue, take_nothing, take_from, take_task, finish,
}

-- A step, with the tasks that it submits; `wakes` is a wake-up of the wait without a cause.
pub data Step {T : Type 0} : ThreadPool T → List T → ThreadPool T → Type 0 where
  submits : (task : T) (s : ThreadPool T) → Step s (task ∷ []) (run task s).1
  stops : (s : ThreadPool T) → Step s [] (stop s)
  heads :
      (s : ThreadPool T)
      → s.sleeping + s.testing + s.busy + s.left < s.threads
      → Step s [] (run_inqueue s)
  takes : (s : ThreadPool T) → 0 < s.testing → Step s [] (take_task s).1
  wakes : (s : ThreadPool T) → Step s [] (weakup s.sleeping s)
  finishes : (s : ThreadPool T) → 0 < s.busy → Step s [] (finish s)

pub data Runs {T : Type 0} : ThreadPool T → List T → ThreadPool T → Type 0 where
  done : (s : ThreadPool T) → Runs s [] s
  step :
      (s t u : ThreadPool T) (tasks more : List T)
      → Step s tasks t
      → Runs t more u
      → Runs s (tasks ++ more) u

-- The threads are counted; while tasks wait some thread does not sleep; behind a stop none sleeps; and
-- the started and the waiting tasks are `tasks`.
pub record IsLive {T : Type 0} (tasks : List T) (s : ThreadPool T) : Type 0 where
  pub some_thread : 0 < s.threads
  pub counted : s.sleeping + s.testing + s.busy + s.left ≤ s.threads
  pub served : (s.queue ≡ []) ⊎ (s.sleeping < s.threads)
  pub stopped : (s.running ≡ true) ⊎ (s.sleeping ≡ 0)
  pub order : s.started ++ s.queue ≡ tasks

module _ {T : Type 0} where
  weakup-IsLive :
      (tasks : List T) (s : ThreadPool T) (n : ℕ)
      → s.sleeping ≡ n
      → 0 < s.threads
      → s.sleeping + s.testing + s.busy + s.left ≤ s.threads
      → (s.running ≡ true) ⊎ (s.sleeping ≡ 0)
      → s.started ++ s.queue ≡ tasks
      → IsLive tasks (weakup n s)
  weakup-IsLive tasks s zero e p c d o = record {
    some_thread = p;
    counted = c;
    served = inr (omega arith);
    stopped = d;
    order = o;
  }
  weakup-IsLive tasks s (suc n) e p c d o = record {
    some_thread = p;
    counted = omega arith;
    served = inr (omega arith);
    stopped = awake d;
    order = o;
  }
    where
      awake : (s.running ≡ true) ⊎ (s.sleeping ≡ 0) → (s.running ≡ true) ⊎ (n ≡ 0)
      awake (inl on) = inl on
      awake (inr off) = inr (omega arith)

  run-IsLive :
      (tasks : List T) (task : T) (s : ThreadPool T)
      → IsLive tasks s
      → IsLive (tasks ++ task ∷ []) (run task s).1
  unfolding run
  run-IsLive tasks task s v =
      let some' : (s.threads == 0) ≡ false = ground (arith, v.some_thread) in
      rw some' (
        weakup-IsLive (tasks ++ task ∷ []) (record s { queue = s.queue ++ task ∷ [] }) s.sleeping
          refl v.some_thread v.counted v.stopped
          (sym (append_assoc s.started s.queue (task ∷ [])) ∙ ap (λ l. l ++ task ∷ []) v.order))

  run_inqueue-IsLive :
      (tasks : List T) (s : ThreadPool T)
      → s.sleeping + s.testing + s.busy + s.left < s.threads
      → IsLive tasks s
      → IsLive tasks (run_inqueue s)
  unfolding run_inqueue
  run_inqueue-IsLive tasks s h v = headed s.running
    where
      headed :
          (b : Bool)
          → IsLive tasks
              (if b then record s { testing = s.testing + 1 } else record s { left = s.left + 1 })
      headed true = record {
        some_thread = v.some_thread;
        counted = omega (arith, h);
        served = v.served;
        stopped = v.stopped;
        order = v.order;
      }
      headed false = record {
        some_thread = v.some_thread;
        counted = omega (arith, h);
        served = v.served;
        stopped = v.stopped;
        order = v.order;
      }

  take_from-IsLive :
      (tasks : List T) (s : ThreadPool T) (queue : List T)
      → s.queue ≡ queue
      → 0 < s.testing
      → IsLive tasks s
      → IsLive tasks (take_from queue s).1
  unfolding take_from
  take_from-IsLive tasks s [] e h v = tested s.running refl
    where
      tested : (b : Bool) → s.running ≡ b → IsLive tasks (take_nothing b s).1
      tested true r = record {
        some_thread = v.some_thread;
        counted = omega (arith, h, v.counted);
        served = inl e;
        stopped = inl r;
        order = v.order;
      }
      tested false r = record {
        some_thread = v.some_thread;
        counted = omega (arith, h, v.counted);
        served = v.served;
        stopped = v.stopped;
        order = v.order;
      }
  take_from-IsLive tasks s (task ∷ queue) e h v = record {
    some_thread = v.some_thread;
    counted = omega (arith, h, v.counted);
    served = still v.served;
    stopped = v.stopped;
    order = append_assoc s.started (task ∷ []) queue ∙ ap (λ l. s.started ++ l) (sym e) ∙ v.order;
  }
    where
      still : (s.queue ≡ []) ⊎ (s.sleeping < s.threads) → (queue ≡ []) ⊎ (s.sleeping < s.threads)
      still (inl empty) = cc
      still (inr awake) = inr awake

  step-IsLive :
      (tasks more : List T) (s t : ThreadPool T)
      → Step s more t
      → IsLive tasks s
      → IsLive (tasks ++ more) t
  unfolding stop finish take_task
  step-IsLive tasks _ _ _ (submits task s) v = run-IsLive tasks task s v
  step-IsLive tasks _ _ _ (stops s) v = record {
    some_thread = v.some_thread;
    counted = omega (arith, v.counted);
    served = inr v.some_thread;
    stopped = inr refl;
    order = v.order ∙ sym (append-nil tasks);
  }
  step-IsLive tasks _ _ _ (heads s h) v =
      subst (λ l. IsLive l (run_inqueue s)) (sym (append-nil tasks))
        (run_inqueue-IsLive tasks s h v)
  step-IsLive tasks _ _ _ (takes s h) v =
      subst (λ l. IsLive l (take_from s.queue s).1) (sym (append-nil tasks))
        (take_from-IsLive tasks s s.queue refl h v)
  step-IsLive tasks _ _ _ (wakes s) v =
      subst (λ l. IsLive l (weakup s.sleeping s)) (sym (append-nil tasks))
        (weakup-IsLive tasks s s.sleeping refl v.some_thread v.counted v.stopped v.order)
  step-IsLive tasks _ _ _ (finishes s h) v = record {
    some_thread = v.some_thread;
    counted = omega (arith, v.counted);
    served = v.served;
    stopped = v.stopped;
    order = v.order ∙ sym (append-nil tasks);
  }

  runs-IsLive :
      (tasks more : List T) (s t : ThreadPool T)
      → Runs s more t
      → IsLive tasks s
      → IsLive (tasks ++ more) t
  runs-IsLive tasks _ _ _ (done s) v = subst (λ l. IsLive l s) (sym (append-nil tasks)) v
  runs-IsLive tasks _ _ _ (step s t u first more one rest) v =
      subst (λ l. IsLive l u) (append_assoc tasks first more)
        (runs-IsLive (tasks ++ first) more t u rest (step-IsLive tasks first s t one v))

-- However the threads of a started pool of at least one thread are interleaved with submissions, the
-- stop and wake-ups without a cause: while a task waits some thread does not sleep; behind a stop no
-- thread sleeps, so that all can be joined; and the tasks are started once each, in the order of their
-- submissions, the waiting ones being the last.
pub runs-start :
    {T : Type 0}
    → (threads : ℕ) (tasks : List T) (t : ThreadPool T) → 0 < threads
    → Runs (start threads) tasks t
    → IsLive tasks t
unfolding start
runs-start threads tasks t positive run = runs-IsLive [] tasks (start threads) t run (record {
  some_thread = positive;
  counted = omega arith;
  served = inl refl;
  stopped = inl refl;
  order = refl;
})
