-- ===== src/Net/Connector/Tests.antt =====
-- The connector theorems at concrete runs.
use lali_rpc_frame.Base.{◌≡◌, refl, true, none, some, [], ◌∷◌}
use lali_rpc_frame.Net.Connector.{
  Connector, new_connector, starts, writes, stops, resets_channel, run, run_from, apply, start,
  start_in_loop, connect, connecting_at, retry, remove_and_reset_channel, stop_in_loop, stop_at,
}
use lali_rpc_frame.Net.Connector.Retry.{attempts, attempts-run, built}
use lali_rpc_frame.Net.Connector.Bounds.{IsBounded, run-IsBounded}

attempts-run_example :
    run (starts 3 ∷ writes true ∷ resets_channel ∷ attempts (4 ∷ 5 ∷ [])) new_connector
    ≡ some (built 4000 (3 ∷ 4 ∷ 5 ∷ []) (500 ∷ 1000 ∷ 2000 ∷ []) 0 new_connector)
attempts-run_example = attempts-run 3 (4 ∷ 5 ∷ [])

-- A connector that is stopped while it connects closes the socket and sets a timer for a retry.
abbrev stopped : Connector
stopped = record {
  connects = true;
  channel = some 3;
  retry_delay_ms = 1000;
  resets = 1;
  closed = 3 ∷ [];
  timers = 500 ∷ [];
  connections = [];
}

stops_retry : run (starts 3 ∷ stops ∷ []) new_connector ≡ some stopped
unfolding run_from new_connector apply start start_in_loop connect connecting_at stop_in_loop
    stop_at retry remove_and_reset_channel
stops_retry = refl

run-IsBounded_example : IsBounded stopped
run-IsBounded_example = run-IsBounded (starts 3 ∷ stops ∷ []) stopped stops_retry

-- Without a channel, the stop follows a null pointer.
stops_idle : run (stops ∷ []) new_connector ≡ none
unfolding run_from new_connector apply stop_in_loop stop_at
stops_idle = refl
