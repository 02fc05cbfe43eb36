-- ===== src/Net/Connector/Bounds.antt =====
-- The bounds of the delays (LALI/net/Connector.cpp).
use lali_rpc_frame.Base.{
  if◌then◌else◌, ℕ, ◌*◌, ◌≤◌, min, ◌≡◌, subst, Bool, true, false, Option, none, some, List, [], ◌∷◌,
  ◌++◌, arith,
}
use lali_rpc_frame.Net.Connector.{
  Connector, init_retry_delay_ms, max_retry_delay_ms, new_connector, connecting_at, connect,
  start_in_loop, start, restart, retry, remove_and_reset_channel, reset_channel, stop_at,
  stop_in_loop, written, handle_write_at, handle_write, Op, starts, fires, restarts, stops, writes,
  resets_channel, apply, run_from, run,
}

abbrev pub IsDelay : ℕ → Type 0
IsDelay d = (init_retry_delay_ms ≤ d) × (d ≤ max_retry_delay_ms)

abbrev pub AreDelays : List ℕ → Type 0
AreDelays [] = Unit
AreDelays (d ∷ ds) = IsDelay d × AreDelays ds

-- The delay of the next retry and those of all timers so far are between 500 ms and 30 s.
pub record IsBounded (c : Connector) : Type 0 where
  pub delay : IsDelay c.retry_delay_ms
  pub timed : AreDelays c.timers

AreDelays-append : (ds : List ℕ) (d : ℕ) → AreDelays ds → IsDelay d → AreDelays (ds ++ d ∷ [])
AreDelays-append [] d h k = (k, tt)
AreDelays-append (e ∷ ds) d h k = (h.0, AreDelays-append ds d h.1 k)

-- What an operation makes of a bounded connector, where it has a result.
abbrev IsBoundedIf : Option Connector → Type 0
IsBoundedIf none = Unit
IsBoundedIf (some c) = IsBounded c

retry-IsBounded : (sockfd : ℕ) (c : Connector) → IsBounded c → IsBounded (retry sockfd c)
unfolding retry
retry-IsBounded sockfd c v = retried c.connects
  where
    retried :
        (b : Bool)
        → IsBounded (
            if b
            then record c {
              closed = c.closed ++ sockfd ∷ [];
              timers = c.timers ++ c.retry_delay_ms ∷ [];
              retry_delay_ms = min (c.retry_delay_ms * 2) max_retry_delay_ms;
            }
            else record c { closed = c.closed ++ sockfd ∷ [] })
    retried true = record {
      delay = (omega (arith, v.delay.0), omega arith);
      timed = AreDelays-append c.timers c.retry_delay_ms v.timed v.delay;
    }
    retried false = record { delay = v.delay; timed = v.timed }

start_in_loop-IsBounded :
    (sockfd : ℕ) (c : Connector) → IsBounded c → IsBoundedIf (start_in_loop sockfd c)
unfolding start_in_loop connect connecting_at
start_in_loop-IsBounded sockfd c v = started c.connects c.channel
  where
    started :
        (b : Bool) (o : Option ℕ) → IsBoundedIf (if b then connecting_at o sockfd c else some c)
    started true none = record { delay = v.delay; timed = v.timed }
    started true (some old) = tt
    started false o = v

written-IsBounded :
    (error : Bool) (sockfd : ℕ) (c : Connector) → IsBounded c → IsBounded (written error sockfd c)
unfolding written
written-IsBounded true sockfd c v = retry-IsBounded sockfd c v
written-IsBounded false sockfd c v = handed c.connects
  where
    handed :
        (b : Bool)
        → IsBounded (
            if b
            then record c { connections = c.connections ++ sockfd ∷ [] }
            else record c { closed = c.closed ++ sockfd ∷ [] })
    handed true = record { delay = v.delay; timed = v.timed }
    handed false = record { delay = v.delay; timed = v.timed }

apply-IsBounded : (op : Op) (c : Connector) → IsBounded c → IsBoundedIf (apply op c)
unfolding apply start restart stop_in_loop stop_at handle_write handle_write_at reset_channel
    remove_and_reset_channel
apply-IsBounded (starts sockfd) c v =
    start_in_loop-IsBounded sockfd (record c { connects = true })
      (record { delay = v.delay; timed = v.timed })
apply-IsBounded (fires sockfd) c v = start_in_loop-IsBounded sockfd c v
apply-IsBounded (restarts sockfd) c v =
    start_in_loop-IsBounded sockfd
      (record c { retry_delay_ms = init_retry_delay_ms; connects = true })
      (record { delay = (omega arith, omega arith); timed = v.timed })
apply-IsBounded stops c v = stopped c.channel
  where
    stopped : (o : Option ℕ) → IsBoundedIf (stop_at o c)
    stopped none = tt
    stopped (some sockfd) =
        retry-IsBounded sockfd (remove_and_reset_channel c)
          (record { delay = v.delay; timed = v.timed })
apply-IsBounded (writes error) c v = handled c.channel
  where
    handled : (o : Option ℕ) → IsBoundedIf (handle_write_at o error c)
    handled none = tt
    handled (some sockfd) =
        written-IsBounded error sockfd (remove_and_reset_channel c)
          (record { delay = v.delay; timed = v.timed })
apply-IsBounded resets_channel c v = record { delay = v.delay; timed = v.timed }

run_from-IsBounded :
    (ops : List Op) (o : Option Connector) → IsBoundedIf o → IsBoundedIf (run_from ops o)
unfolding run_from
run_from-IsBounded [] none v = tt
run_from-IsBounded (op ∷ ops) none v = tt
run_from-IsBounded [] (some c) v = v
run_from-IsBounded (op ∷ ops) (some c) v =
    run_from-IsBounded ops (apply op c) (apply-IsBounded op c v)

-- Whatever is called on a new connector, in any order, as long as no null channel is followed and no
-- second channel made: every delay is between 500 ms and 30 s.
pub run-IsBounded : (ops : List Op) (c : Connector) → run ops new_connector ≡ some c → IsBounded c
unfolding new_connector
run-IsBounded ops c h = subst IsBoundedIf h (
    run_from-IsBounded ops (some new_connector)
      (record { delay = (omega arith, omega arith); timed = tt }))
