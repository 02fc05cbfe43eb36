-- ===== src/Log/Async.antt =====
-- LALI/base/AsyncLogging.cpp: the front end and the back end of the asynchronous log. A null pointer
-- is `none`, and an operation that follows one, or takes from an empty vector, gives no state. `output`
-- is what the back end gave to the log file; the size of the buffers is an argument.
pub mod Ready
pub mod Rounds
mod Safe
mod Tests
use lali_rpc_frame.Base.{
  Bytes, ltb, if◌then◌else◌, length, take, ℕ, Bool, true, false, Option, none, some, List, [], ◌∷◌,
  ◌++◌,
}
use lali_rpc_frame.Log.Stream.{FixedBuffer, avail, append, reset, contents, new_buffer}

-- Where the loop of the back end stands: at its test of `running_`; behind the test, which found it
-- true, and before the exchange of the buffers, the time of the timed wait included; behind the
-- exchange; or at the end of the loop.
pub data Phase : Type 0 where
  testing : Phase
  waiting : Phase
  writing : Phase
  ended : Phase

pub record Async : Type 0 where
  pub current : Option FixedBuffer
  pub next : Option FixedBuffer
  pub buffers : List FixedBuffer
  pub running : Bool
  pub phase : Phase
  pub new_buffer1 : Option FixedBuffer
  pub new_buffer2 : Option FixedBuffer
  pub to_write : List FixedBuffer
  pub output : Bytes

-- The constructor, `start`, and the back end up to its loop.
unfoldable pub started : ℕ → Async
started size = record {
  current = some (new_buffer size);
  next = some (new_buffer size);
  buffers = [];
  running = true;
  phase = testing;
  new_buffer1 = some (new_buffer size);
  new_buffer2 = some (new_buffer size);
  to_write = [];
  output = [];
}

unfoldable pub next_or_new : ℕ → Option FixedBuffer → FixedBuffer
next_or_new size (some b) = b
next_or_new size none = new_buffer size

unfoldable pub append_current : ℕ → Bytes → Option FixedBuffer → Async → Option Async
append_current size msg none s = none
append_current size msg (some b) s =
    if ltb (length msg) (avail b)
    then some (record s { current = some (append msg b) })
    else some (record s {
      buffers = s.buffers ++ b ∷ [];
      current = some (append msg (next_or_new size s.next));
      next = none;
    })

-- `AsyncLogging::append`.
unfoldable pub log : ℕ → Bytes → Async → Option Async
log size msg s = append_current size msg s.current s

unfoldable pub stop : Async → Async
stop s = record s { running = false }

-- The critical section of the back end: the filled buffers become those to write.
unfoldable pub filled : Option FixedBuffer → Option FixedBuffer → Option FixedBuffer
filled (some b) spare = some b
filled none spare = spare

unfoldable pub left_over : Option FixedBuffer → Option FixedBuffer → Option FixedBuffer
left_over (some b) spare = spare
left_over none spare = none

unfoldable pub exchange_current : Option FixedBuffer → Async → Option Async
exchange_current none s = none
exchange_current (some b) s = some (record s {
  to_write = s.buffers ++ b ∷ [];
  buffers = s.to_write;
  current = s.new_buffer1;
  new_buffer1 = none;
  next = filled s.next s.new_buffer2;
  new_buffer2 = left_over s.next s.new_buffer2;
  phase = writing;
})

unfoldable pub exchange : Async → Option Async
exchange s = exchange_current s.current s

-- With more than 25 buffers to write, all but two are dropped, and a notice is written first.
abbrev pub is_overloaded : List FixedBuffer → Bool
is_overloaded buffers = ltb 25 (length buffers)

unfoldable pub all_contents : List FixedBuffer → Bytes
all_contents [] = []
all_contents (b ∷ bs) = contents b ++ all_contents bs

abbrev pub kept : List FixedBuffer → List FixedBuffer
kept buffers = if is_overloaded buffers then take 2 buffers else buffers

unfoldable pub written : Bytes → List FixedBuffer → Bytes
written notice buffers =
    (if is_overloaded buffers then notice else []) ++ all_contents (kept buffers)

-- `back` and `pop_back`.
unfoldable pub pop_back : List FixedBuffer → Option (FixedBuffer × List FixedBuffer)
pop_back [] = none
pop_back (b ∷ []) = some (b, [])
pop_back (b ∷ (c ∷ cs)) =
    let rest = pop_back (c ∷ cs) in
    elim rest [ none ↦ none | some popped ↦ some (popped.0, b ∷ popped.1) ]

-- A buffer that was given away is taken back from the written ones.
unfoldable pub refill :
    Option FixedBuffer → List FixedBuffer → Option (FixedBuffer × List FixedBuffer)
refill (some b) rest = some (b, rest)
refill none rest = elim (pop_back rest) [
  | none ↦ none
  | some popped ↦ some (reset popped.0, popped.1)
]

unfoldable pub refill_both :
    Option FixedBuffer → Option FixedBuffer → List FixedBuffer → Option (FixedBuffer × FixedBuffer)
refill_both new1 new2 rest = elim (refill new1 rest) [
  | none ↦ none
  | some first ↦ elim (refill new2 first.1) [ none ↦ none | some second ↦ some (first.0, second.0) ]
]

abbrev pub resized : List FixedBuffer → List FixedBuffer
resized buffers = if ltb 2 (length buffers) then take 2 buffers else buffers

unfoldable pub with_buffers : Option (FixedBuffer × FixedBuffer) → Async → Option Async
with_buffers none s = none
with_buffers (some pair) s = some (record s {
  new_buffer1 = some pair.0;
  new_buffer2 = some pair.1;
  to_write = [];
  phase = testing;
})

-- The rest of a round of the back end.
unfoldable pub write : Bytes → Async → Option Async
write notice s =
    with_buffers (refill_both s.new_buffer1 s.new_buffer2 (resized (kept s.to_write)))
      (record s { output = s.output ++ written notice s.to_write })

-- The test of `running_` at the head of the loop.
unfoldable pub enter : Async → Async
enter s = record s { phase = waiting }

unfoldable pub finish : Async → Async
finish s = record s { phase = ended }

unfoldable pub back_at : Phase → Bool → Bytes → Async → Option Async
back_at testing true notice s = some (enter s)
back_at testing false notice s = some (finish s)
back_at waiting running notice s = exchange s
back_at writing running notice s = write notice s
back_at ended running notice s = some s

-- `AsyncLogging::threadFunc`, in steps between which the other threads may run: the test of `running_`,
-- the exchange of the buffers, whether the loop still runs or not, and the writing. The wait for a
-- filled buffer, which stands before the exchange, has a time limit, so an exchange may follow the
-- test at any time.
unfoldable pub back : Bytes → Async → Option Async
back notice s = back_at s.phase s.running notice s
