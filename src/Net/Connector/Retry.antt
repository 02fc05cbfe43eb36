-- ===== src/Net/Connector/Retry.antt =====
-- The retries of the connector (LALI/net/Connector.cpp).
use lali_rpc_frame.Base.{
  length, ℕ, zero, suc, ◌+◌, ◌-◌, ◌*◌, min, ◌≡◌, refl, sym, ap, ◌∙◌, true, none, some, List, [],
  ◌∷◌, ◌++◌, append_assoc, append-nil, arith,
}
use lali_rpc_frame.Net.Connector.{
  Connector, init_retry_delay_ms, max_retry_delay_ms, new_connector, connecting_at, connect,
  start_in_loop, start, retry, remove_and_reset_channel, reset_channel, written, handle_write_at,
  handle_write, Op, starts, fires, writes, resets_channel, apply, run_from, run,
}

-- Attempts that fail: the timer fires with a new socket, the socket has an error, the channel goes.
abbrev pub attempts : List ℕ → List Op
attempts [] = []
attempts (sockfd ∷ sockets) = fires sockfd ∷ (writes true ∷ (resets_channel ∷ attempts sockets))

-- The delays of the first attempts.
abbrev pub power : ℕ → ℕ
power zero = 1
power (suc k) = 2 * power k

abbrev pub delays : ℕ → ℕ → List ℕ
delays k zero = []
delays k (suc n) = min (init_retry_delay_ms * power k) max_retry_delay_ms ∷ delays (suc k) n

-- A connector without a channel, behind some attempts.
abbrev pub built : ℕ → List ℕ → List ℕ → ℕ → Connector → Connector
built delay closed timers resets c = record c {
  connects = true;
  channel = none;
  retry_delay_ms = delay;
  closed = closed;
  timers = timers;
  resets = resets;
}

abbrev pub delay_after : ℕ → ℕ
delay_after k = min (init_retry_delay_ms * power k) max_retry_delay_ms

built_same :
    (delay delay' : ℕ) (closed closed' timers timers' : List ℕ) (resets resets' : ℕ) (c : Connector)
    → delay ≡ delay'
    → closed ≡ closed'
    → timers ≡ timers'
    → resets ≡ resets'
    → built delay closed timers resets c ≡ built delay' closed' timers' resets' c
built_same delay delay' closed closed' timers timers' resets resets' c d e f g =
    ap (λ x. built x closed timers resets c) d
    ∙ ap (λ x. built delay' x timers resets c) e
    ∙ ap (λ x. built delay' closed' x resets c) f
    ∙ ap (λ x. built delay' closed' timers' x c) g

double : (k : ℕ) → min (delay_after k * 2) max_retry_delay_ms ≡ delay_after (suc k)
double k = omega arith

-- One attempt.
attempt-built :
    (sockfd : ℕ) (k : ℕ) (closed timers : List ℕ) (resets : ℕ) (c : Connector) (rest : List Op)
    → run
        (fires sockfd ∷ (writes true ∷ (resets_channel ∷ rest)))
        (built (delay_after k) closed timers resets c)
      ≡ run rest (
          built
            (delay_after (suc k))
            (closed ++ sockfd ∷ [])
            (timers ++ delay_after k ∷ [])
            resets
            c)
unfolding run_from apply start_in_loop connect connecting_at handle_write handle_write_at written
    retry remove_and_reset_channel reset_channel
attempt-built sockfd k closed timers resets c rest =
    ap (λ d. run_from rest (some d))
      (built_same (min (delay_after k * 2) max_retry_delay_ms) (delay_after (suc k))
        (closed ++ sockfd ∷ []) (closed ++ sockfd ∷ []) (timers ++ delay_after k ∷ [])
        (timers ++ delay_after k ∷ []) (resets + 1 - 1) resets c (double k) refl refl (omega arith))

attempts-built :
    (sockets : List ℕ) (k : ℕ) (closed timers : List ℕ) (resets : ℕ) (c : Connector)
    → run (attempts sockets) (built (delay_after k) closed timers resets c)
      ≡ some (
          built
            (delay_after (k + length sockets))
            (closed ++ sockets)
            (timers ++ delays k (length sockets))
            resets
            c)
unfolding run_from
attempts-built [] k closed timers resets c = ap some (
    built_same (delay_after k) (delay_after (k + 0)) closed (closed ++ []) timers (timers ++ [])
      resets resets c (ap delay_after (omega arith)) (sym (append-nil closed))
      (sym (append-nil timers)) refl)
attempts-built (sockfd ∷ sockets) k closed timers resets c =
    let next : suc k + length sockets ≡ k + suc (length sockets) = omega arith in
    attempt-built sockfd k closed timers resets c (attempts sockets)
    ∙ attempts-built sockets (suc k) (closed ++ sockfd ∷ []) (timers ++ delay_after k ∷ []) resets c
    ∙ ap some (
        built_same (delay_after (suc k + length sockets)) (delay_after (k + suc (length sockets)))
          ((closed ++ sockfd ∷ []) ++ sockets) (closed ++ sockfd ∷ sockets)
          ((timers ++ delay_after k ∷ []) ++ delays (suc k) (length sockets))
          (timers ++ delay_after k ∷ delays (suc k) (length sockets)) resets resets c
          (ap delay_after next) (append_assoc closed (sockfd ∷ []) sockets)
          (append_assoc timers (delay_after k ∷ []) (delays (suc k) (length sockets))) refl)

-- A started connector whose first attempts all fail closes each socket once, in order, and waits 500 ms
-- before the next attempt, then twice as long each time, up to 30 s.
pub attempts-run :
    (first : ℕ) (sockets : List ℕ)
    → run (starts first ∷ (writes true ∷ (resets_channel ∷ attempts sockets))) new_connector
      ≡ some (
          built
            (delay_after (1 + length sockets))
            (first ∷ sockets)
            (delays 0 (suc (length sockets)))
            0
            new_connector)
unfolding run_from apply start start_in_loop new_connector
attempts-run first sockets =
    attempt-built first 0 [] [] 0 new_connector (attempts sockets)
    ∙ attempts-built sockets 1 (first ∷ []) (500 ∷ []) 0 new_connector
