-- ===== src/Threads/Pool/Tests.antt =====
-- The theorem on the pool of threads at a concrete run.
use lali_rpc_frame.Base.{ℕ, [], ◌∷◌, arith}
use lali_rpc_frame.Threads.Pool.{ThreadPool, start, run, stop, run_inqueue, take_from, take_task}
use lali_rpc_frame.Threads.Pool.Live.{
  Runs, done, step, submits, stops, heads, takes, IsLive, runs-start,
}

-- One thread: it sleeps, is woken by a task, and starts it; another task waits when the pool is stopped.
abbrev asleep : ThreadPool ℕ
asleep = (take_task (run_inqueue (start 1))).1

abbrev busy : ThreadPool ℕ
busy = (take_task (run 5 asleep).1).1

abbrev stopped : ThreadPool ℕ
stopped = stop (run 6 busy).1

runs : Runs (start 1) (5 ∷ 6 ∷ []) stopped
unfolding start run stop run_inqueue take_from take_task
runs = step _ _ stopped [] _ (heads (start 1) (omega arith)) (
    step _ _ stopped [] _ (takes (run_inqueue (start 1)) (omega arith)) (
      step _ _ stopped _ _ (submits 5 asleep) (
        step _ _ stopped [] _ (takes (run 5 asleep).1 (omega arith)) (
          step _ _ stopped _ _ (submits 6 busy)
            (step _ _ stopped [] [] (stops (run 6 busy).1) (done stopped))))))

runs-start_example : IsLive (5 ∷ 6 ∷ []) stopped
runs-start_example = runs-start 1 (5 ∷ 6 ∷ []) stopped (omega arith) runs
