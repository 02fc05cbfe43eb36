-- ===== src/Threads/Pool.antt =====
-- LALI/base/ThreadPool.cpp: tasks in a queue, and the threads that take them. A task is an element of a
-- type `T`. The threads are counted by what they do: `sleeping` in the wait of `take`, `testing` in the
-- loop around that wait, `busy` with a task, `left` behind the loop of `runInqueue`; the others stand
-- at the head of that loop. `started` holds the tasks that were taken, in order.
pub mod Live
mod Tests
use lali_rpc_frame.Base.{
  [], ◌==◌, if◌then◌else◌, ℕ, zero, suc, ◌+◌, ◌-◌, Bool, true, false, Option, none, some, List, ◌∷◌,
  ◌++◌,
}

pub record ThreadPool (T : Type 0) : Type 0 where
  pub threads : ℕ
  pub running : Bool
  pub queue : List T
  pub sleeping : ℕ
  pub testing : ℕ
  pub busy : ℕ
  pub left : ℕ
  pub started : List T

module _ {T : Type 0} where
  unfoldable pub start : ℕ → ThreadPool T
  start threads = record {
    threads = threads;
    running = true;
    queue = [];
    sleeping = 0;
    testing = 0;
    busy = 0;
    left = 0;
    started = [];
  }

  -- `weakup` of the condition: one sleeping thread, if there is one, tests again.
  abbrev pub weakup : ℕ → ThreadPool T → ThreadPool T
  weakup zero s = s
  weakup (suc sleeping) s = record s { sleeping = sleeping; testing = s.testing + 1 }

  -- With the tasks that are called at once.
  unfoldable pub run : T → ThreadPool T → List T × ThreadPool T
  run task s =
      if s.threads == 0
      then (task ∷ [], s)
      else ([], weakup s.sleeping (record s { queue = s.queue ++ task ∷ [] }))

  unfoldable pub stop : ThreadPool T → ThreadPool T
  stop s = record s { running = false; sleeping = 0; testing = s.testing + s.sleeping }

  -- A thread at the head of its loop enters `take` or leaves.
  unfoldable pub run_inqueue : ThreadPool T → ThreadPool T
  run_inqueue s =
      if s.running then record s { testing = s.testing + 1 } else record s { left = s.left + 1 }

  -- A thread that finds no task sleeps, or returns behind a stop.
  abbrev pub take_nothing : Bool → ThreadPool T → Option T × ThreadPool T
  take_nothing true s = (none, record s { testing = s.testing - 1; sleeping = s.sleeping + 1 })
  take_nothing false s = (none, record s { testing = s.testing - 1 })

  -- A testing thread sleeps, gets no task, or gets the first one.
  unfoldable pub take_from : List T → ThreadPool T → Option T × ThreadPool T
  take_from [] s = take_nothing s.running s
  take_from (task ∷ tasks) s = (
    some task,
    record s {
      testing = s.testing - 1;
      busy = s.busy + 1;
      queue = tasks;
      started = s.started ++ task ∷ [];
    },
  )

  unfoldable pub take_task : ThreadPool T → Option T × ThreadPool T
  take_task s = take_from s.queue s

  unfoldable pub finish : ThreadPool T → ThreadPool T
  finish s = record s { busy = s.busy - 1 }
