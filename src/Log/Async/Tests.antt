-- ===== src/Log/Async/Tests.antt =====
-- The theorems on the asynchronous log at a concrete run.
use lali_rpc_frame.Base.{◌++◌, false, ◌≡◌, refl, ◌≢◌, true, none, some, [], ◌∷◌, arith}
use lali_rpc_frame.Log.Stream.{FixedBuffer, append, avail, new_buffer, reset, contents}
use lali_rpc_frame.Log.Async.{
  Async, testing, waiting, writing, started, log, stop, enter, back, append_current, next_or_new,
  back_at, exchange, exchange_current, filled, left_over, write, with_buffers, refill_both, refill,
  pop_back, written, all_contents,
}
use lali_rpc_frame.Log.Async.Ready.{held, entry}
use lali_rpc_frame.Log.Async.Safe.{
  Runs, done, step, logs, stops, backs, runs-started, logged-started,
}

-- Buffers of four bytes, two messages of three, and a round of the back end behind them, with the stop
-- between its test of `running_` and its exchange.
abbrev empty : FixedBuffer
empty = record { storage = 0 ∷ 0 ∷ 0 ∷ 0 ∷ []; cur = 0 }

abbrev first_full : FixedBuffer
first_full = record { storage = 1 ∷ 2 ∷ 3 ∷ 0 ∷ []; cur = 3 }

abbrev second_full : FixedBuffer
second_full = record { storage = 4 ∷ 5 ∷ 6 ∷ 0 ∷ []; cur = 3 }

abbrev after_first : Async
after_first = record {
  current = some first_full;
  next = some empty;
  buffers = [];
  running = true;
  phase = testing;
  new_buffer1 = some empty;
  new_buffer2 = some empty;
  to_write = [];
  output = [];
}

abbrev after_second : Async
after_second = record after_first {
  current = some second_full;
  next = none;
  buffers = first_full ∷ [];
}

abbrev entered : Async
entered = record after_second { phase = waiting }

abbrev stopped : Async
stopped = stop entered

abbrev exchanged : Async
exchanged = record after_second {
  running = false;
  current = some empty;
  next = some empty;
  buffers = [];
  phase = writing;
  new_buffer1 = none;
  new_buffer2 = none;
  to_write = first_full ∷ second_full ∷ [];
}

abbrev after_write : Async
after_write = record exchanged {
  phase = testing;
  new_buffer1 = some (record second_full { cur = 0 });
  new_buffer2 = some (record first_full { cur = 0 });
  to_write = [];
  output = 1 ∷ 2 ∷ 3 ∷ 4 ∷ 5 ∷ 6 ∷ [];
}

logs_first : log 4 (1 ∷ 2 ∷ 3 ∷ []) (started 4) ≡ some after_first
unfolding log started append_current avail append new_buffer
logs_first = refl

logs_second : log 4 (4 ∷ 5 ∷ 6 ∷ []) after_first ≡ some after_second
unfolding log append_current next_or_new avail append
logs_second = refl

enters : back [] after_second ≡ some entered
unfolding back back_at enter
enters = refl

exchanges : back [] stopped ≡ some exchanged
unfolding back back_at stop exchange exchange_current filled left_over
exchanges = refl

writes : back [] exchanged ≡ some after_write
unfolding back back_at write with_buffers refill_both refill pop_back written all_contents reset
    contents
writes = refl

abbrev run : Runs 4 [] (started 4) ((1 ∷ 2 ∷ 3 ∷ []) ∷ (4 ∷ 5 ∷ 6 ∷ []) ∷ []) after_write
run = step (started 4) after_first after_write _ _ (logs _ _ _ logs_first) (
    step after_first after_second after_write _ _ (logs _ _ _ logs_second) (
      step after_second entered after_write [] _ (backs _ _ enters) (
        step entered stopped after_write [] _ (stops entered) (
          step stopped exchanged after_write [] _ (backs _ _ exchanges)
            (step exchanged after_write after_write [] [] (backs _ _ writes) (done after_write))))))

runs-started_example : (log 4 (7 ∷ []) after_write ≢ none) × (back [] after_write ≢ none)
runs-started_example = runs-started 4 [] after_write _ (7 ∷ []) (omega arith) run

logged-started_example :
    after_write.output
      ++ (all_contents after_write.to_write
          ++ (all_contents after_write.buffers ++ held after_write.current))
    ≡ 1 ∷ 2 ∷ 3 ∷ 4 ∷ 5 ∷ 6 ∷ []
unfolding entry started stop
logged-started_example =
    logged-started 4 [] after_write _ (omega arith) run
      (refl, (refl, (refl, (refl, (refl, (refl, tt))))))
