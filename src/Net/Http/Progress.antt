-- ===== src/Net/Http/Progress.antt =====
-- The parsing loop of LALI/net/HttpContext.cpp: when it ends, and when it does not.
use lali_rpc_frame.Base.{
  find_byte, ◌==◌, Bool-cases, Option-cases, length, take, length-drop, ℕ, zero, suc, ◌+◌, ◌<◌, ◌≡◌,
  refl, ap, inl, inr, Bool, true, false, Option, none, some, arith,
}
use lali_rpc_frame.Net.Buffer.{Buffer, IsValid, readable, find_crlf, retrieve}
use lali_rpc_frame.Net.Buffer.Content.{retrieve-readable}
use lali_rpc_frame.Net.Buffer.Search.{search_crlf_sound}
use lali_rpc_frame.Net.Http.Context.{
  HttpContext, Part, request_line, headers, body, end, Round, request_line_round, headers_round,
  round, parse_loop, parse_request, part_on_request_line,
}

-- The parts at which a round reads a line.
abbrev pub IsReading : Part → Type 0
IsReading request_line = Unit {0}
IsReading headers = Unit {0}
IsReading body = ⊥
IsReading end = ⊥

-- The parts at which the loop can end.
abbrev pub IsStop : Part → Type 0
IsStop body = ⊥
IsStop _ = Unit {0}

pub line_taken :
    (b : Buffer) (k : ℕ)
    → IsValid b
    → find_crlf b ≡ some k
    → (length (readable (retrieve (k + 2) b)) < length (readable b)) × IsValid (retrieve (k + 2) b)
unfolding find_crlf
line_taken b k v e =
    let (split, room, before) = search_crlf_sound (readable b) k e in
    let (content, valid) = retrieve-readable (k + 2) b v in
    (omega (arith, ap length content, length-drop (k + 2) (readable b)), valid)

-- A round that the loop goes on after has read a line.
record Advances (b : Buffer) (r : Round) : Type 0 where
  valid : IsValid r.buffer
  shorter : r.again ≡ true → length (readable r.buffer) < length (readable b)
  reading : r.again ≡ true → IsReading r.context.part
  stopped : r.again ≡ false → IsStop r.context.part

stays :
    (b : Buffer) (right : Bool) (c : HttpContext)
    → IsValid b
    → c.part ≡ request_line
    → Advances b (record { again = false; right = right; context = c; buffer = b })
stays b right c v e = record {
  valid = v;
  shorter = λ h. cc;
  reading = λ h. cc;
  stopped = λ _. rw e tt;
}

request_line_round-Advances :
    (time : ℕ) (right : Bool) (c : HttpContext) (b : Buffer)
    → IsValid b
    → c.part ≡ request_line
    → Advances b (request_line_round time right c b)
unfolding request_line_round
request_line_round-Advances time right c b v e = elim (Option-cases (find_crlf b)) [
  | inl absent ↦ rw (absent, request_line_round) (stays b right c v e)
  | inr (k, found) ↦
      let taken = line_taken b k v found in
      let parsed = part_on_request_line (take k (readable b)) c.request in
      elim (Bool-cases parsed.0) [
        | inl good ↦
            rw (found, request_line_round)
              (rw good (record {
                valid = taken.1;
                shorter = λ _. taken.0;
                reading = λ _. tt;
                stopped = λ h. cc;
              }))
        | inr bad ↦
            rw (found, request_line_round)
              (rw bad (record {
                valid = v;
                shorter = λ h. cc;
                reading = λ h. cc;
                stopped = λ _. rw e tt;
              }))
      ]
]

headers_round-Advances :
    (right : Bool) (c : HttpContext) (b : Buffer)
    → IsValid b
    → c.part ≡ headers
    → Advances b (headers_round right c b)
unfolding headers_round
headers_round-Advances right c b v e = elim (Option-cases (find_crlf b)) [
  | inl absent ↦
      rw (absent, headers_round)
        (record { valid = v; shorter = λ h. cc; reading = λ h. cc; stopped = λ _. rw e tt })
  | inr (k, found) ↦
      let taken = line_taken b k v found in
      elim (Bool-cases (find_byte b':' (take k (readable b)) == k)) [
        | inl blank ↦
            rw (found, headers_round)
              (rw blank (record {
                valid = taken.1;
                shorter = λ h. cc;
                reading = λ h. cc;
                stopped = λ _. tt;
              }))
        | inr field ↦
            rw (found, headers_round)
              (rw field (record {
                valid = taken.1;
                shorter = λ _. taken.0;
                reading = λ _. rw e tt;
                stopped = λ h. cc;
              }))
      ]
]

round-Advances :
    (time : ℕ) (p : Part) (right : Bool) (c : HttpContext) (b : Buffer)
    → IsValid b
    → c.part ≡ p
    → IsReading p
    → Advances b (round time p right c b)
unfolding round
round-Advances time request_line right c b v e h = request_line_round-Advances time right c b v e
round-Advances time headers right c b v e h = headers_round-Advances right c b v e
round-Advances time body right c b v e h = absurd h
round-Advances time end right c b v e h = absurd h

-- How a run of the parser ends.
pub record Ends (result : Option (Bool × HttpContext × Buffer)) : Type 0 where
  pub outcome : Bool × HttpContext × Buffer
  pub reached : result ≡ some outcome
  pub stop : IsStop outcome.1.part
  pub valid : IsValid outcome.2

parse_loop-Ends :
    (fuel time : ℕ) (right : Bool) (c : HttpContext) (b : Buffer)
    → length (readable b) < fuel
    → IsValid b
    → IsReading c.part
    → Ends (parse_loop fuel time right c b)
unfolding parse_loop
parse_loop-Ends zero time right c b h v reading = absurd (omega arith)
parse_loop-Ends (suc fuel) time right c b h v reading =
    let r = round time c.part right c b in
    let adv = round-Advances time c.part right c b v refl reading in
    elim (Bool-cases r.again) [
      | inl more ↦ rw more (
          parse_loop-Ends fuel time r.right r.context r.buffer (omega (arith, adv.shorter more))
            adv.valid (adv.reading more))
      | inr done ↦ rw done (record {
        outcome = (r.right, r.context, r.buffer);
        reached = refl;
        stop = adv.stopped done;
        valid = adv.valid;
      })
    ]

-- Parsing ends where the context is still reading a request line or headers, the buffer is valid
-- and the fuel is more than its readable bytes; it then never stands at the body part, and the
-- buffer is still valid.
pub parse_request-Ends :
    (fuel time : ℕ) (c : HttpContext) (b : Buffer)
    → length (readable b) < fuel
    → IsValid b
    → IsReading c.part
    → Ends (parse_request fuel time c b)
unfolding parse_request
parse_request-Ends fuel time c b h v reading = parse_loop-Ends fuel time true c b h v reading

parse_loop_stuck :
    (p : Part) (fuel time : ℕ) (right : Bool) (c : HttpContext) (b : Buffer)
    → c.part ≡ p
    → ¬ IsReading p
    → parse_loop fuel time right c b ≡ none
unfolding parse_loop round
parse_loop_stuck p zero time right c b e h = refl
parse_loop_stuck request_line (suc fuel) time right c b e h = absurd (h tt)
parse_loop_stuck headers (suc fuel) time right c b e h = absurd (h tt)
parse_loop_stuck body (suc fuel) time right c b e h =
    let idle = ap (λ p. round time p right c b) e in
    rw idle (parse_loop_stuck body fuel time right c b e h)
parse_loop_stuck end (suc fuel) time right c b e h =
    let idle = ap (λ p. round time p right c b) e in
    rw idle (parse_loop_stuck end fuel time right c b e h)

-- On a context that has reached its end the loop never ends: no fuel suffices, whatever the buffer.
pub parse_request-finished :
    (fuel time : ℕ) (c : HttpContext) (b : Buffer)
    → c.part ≡ end
    → parse_request fuel time c b ≡ none
unfolding parse_request
parse_request-finished fuel time c b e = parse_loop_stuck end fuel time true c b e (λ h. h)
