-- ===== src/Log/Async/Rounds.antt =====
-- Two steps of the back end (LALI/base/AsyncLogging.cpp, `threadFunc`): the exchange of the buffers, and
-- the writing of them.
use lali_rpc_frame.Base.{
  Bytes, ltb, Bool-cases, length, take, length-take, ℕ, ◌≤◌, ◌<◌, ◌≡◌, refl, ap, ◌∙◌, subst, inl,
  inr, Bool, false, Option, none, some, List, [], ◌∷◌, ◌++◌, append_assoc, append-nil, arith,
}
use lali_rpc_frame.Log.Stream.{FixedBuffer, reset}
use lali_rpc_frame.Log.Async.{
  Phase, testing, waiting, writing, ended, Async, exchange, write, filled, left_over,
  exchange_current, all_contents, is_overloaded, kept, written, pop_back, refill, refill_both,
  resized, with_buffers,
}
use lali_rpc_frame.Log.Async.Ready.{
  IsOpen, IsFresh, IsThere, AreOpen, HasSpare, InPhase, IsReady, held, logged, AreOpen-append,
  all_contents-append, contents_fresh,
}

reset-IsFresh : (size : ℕ) (b : FixedBuffer) → IsOpen size b → IsFresh size (reset b)
unfolding reset
reset-IsFresh size b o = record { sized = o.sized; empty = refl }

-- The spare buffers behind the exchange.
left_over-InPhase :
    (size : ℕ) (next new2 : Option FixedBuffer) (bs : List FixedBuffer) (b : FixedBuffer)
    → HasSpare size next bs
    → IsThere (IsFresh size) new2
    → AreOpen size (bs ++ b ∷ [])
    → InPhase size writing none (left_over next new2) (bs ++ b ∷ [])
unfolding left_over
left_over-InPhase size next none bs b h k o = elim k [ ]
left_over-InPhase size (some n) (some c) [] b h k o = (k, o)
left_over-InPhase size (some n) (some c) (x ∷ xs) b h k o = (k, o)
left_over-InPhase size none (some c) [] b h k o = elim h [ ]
left_over-InPhase size none (some c) (x ∷ []) b h k o = o
left_over-InPhase size none (some c) (x ∷ (y ∷ ys)) b h k o = o

filled-HasSpare :
    (size : ℕ) (next new2 : Option FixedBuffer) (bs : List FixedBuffer)
    → HasSpare size next bs
    → IsThere (IsFresh size) new2
    → HasSpare size (filled next new2) []
unfolding filled
filled-HasSpare size next none bs h k = elim k [ ]
filled-HasSpare size (some n) (some c) bs h k = h
filled-HasSpare size none (some c) bs h k = k

-- The exchange goes on, ready, and neither adds nor loses a byte.
pub record Exchanges (size : ℕ) (s : Async) : Type 0 where
  pub after : Async
  pub result : exchange s ≡ some after
  pub ready : IsReady size after
  pub same : logged after ≡ logged s

abbrev fields :
    Option FixedBuffer
    → Option FixedBuffer
    → List FixedBuffer
    → Bool
    → Phase
    → Option FixedBuffer
    → Option FixedBuffer
    → List FixedBuffer
    → Bytes
    → Async
fields current next buffers running phase new1 new2 to_write output = record {
  current = current;
  next = next;
  buffers = buffers;
  running = running;
  phase = phase;
  new_buffer1 = new1;
  new_buffer2 = new2;
  to_write = to_write;
  output = output;
}

exchange_fields :
    (size : ℕ) (current next : Option FixedBuffer) (buffers : List FixedBuffer) (running : Bool)
    (phase : Phase) (new1 new2 : Option FixedBuffer) (to_write : List FixedBuffer) (output : Bytes)
    → 0 < size
    → phase ≡ waiting
    → IsReady size (fields current next buffers running phase new1 new2 to_write output)
    → Exchanges size (fields current next buffers running phase new1 new2 to_write output)
unfolding exchange exchange_current logged all_contents
exchange_fields size (some b) next bs r waiting (some f) new2 [] out positive e v = record {
  after =
      fields (some f) (filled next new2) [] r writing none (left_over next new2) (bs ++ b ∷ []) out;
  result = refl;
  ready = record {
    opened = record { sized = v.phased.0.sized; inside = omega (arith, v.phased.0.empty) };
    spare = filled-HasSpare size next new2 bs v.spare v.phased.1;
    filled_open = tt;
    phased =
        left_over-InPhase size next new2 bs b v.spare v.phased.1
          (AreOpen-append size bs b v.filled_open v.opened);
  };
  same =
      ap (λ l. out ++ (all_contents (bs ++ b ∷ []) ++ l)) (contents_fresh size f v.phased.0)
      ∙ ap (λ l. out ++ l) (append-nil (all_contents (bs ++ b ∷ [])) ∙ all_contents-append bs b);
}
exchange_fields size none next bs r phase new1 new2 to_write out positive e v = elim v.opened [ ]
exchange_fields size (some b) next bs r waiting none new2 [] out positive e v = elim v.phased.0 [ ]
exchange_fields size (some b) next bs r waiting new1 new2 (x ∷ xs) out positive e v =
    elim v.phased [ ]
exchange_fields size (some b) next bs r testing new1 new2 to_write out positive e v = cc
exchange_fields size (some b) next bs r writing new1 new2 to_write out positive e v = cc
exchange_fields size (some b) next bs r ended new1 new2 to_write out positive e v = cc

pub exchange-IsReady :
    (size : ℕ) (s : Async) → 0 < size → s.phase ≡ waiting → IsReady size s → Exchanges size s
exchange-IsReady size s positive e v =
    exchange_fields size s.current s.next s.buffers s.running s.phase s.new_buffer1 s.new_buffer2
      s.to_write s.output positive e v

-- Of the buffers to write, the first two are left for the refill.
resized_kept : (bs : List FixedBuffer) → resized (kept bs) ≡ take 2 bs
resized_kept bs = elim (Bool-cases (is_overloaded bs)) [
  | inl many ↦ rw many (resized_short (take 2 bs) (omega (arith, length-take 2 bs)))
  | inr few ↦ rw few (elim (Bool-cases (ltb 2 (length bs))) [
    | inl more ↦ rw more refl
    | inr short ↦ rw short (take_short bs short)
  ])
]
  where
    resized_short : (l : List FixedBuffer) → length l ≤ 2 → resized l ≡ l
    resized_short l h = ground (arith, h)

    take_short : (l : List FixedBuffer) → ltb 2 (length l) ≡ false → l ≡ take 2 l
    take_short [] h = refl
    take_short (x ∷ []) h = refl
    take_short (x ∷ (y ∷ [])) h = refl
    take_short (x ∷ (y ∷ (z ∷ zs))) h = ground arith

record Refills (size : ℕ) (new1 new2 : Option FixedBuffer) (rest : List FixedBuffer) : Type 0 where
  pair : FixedBuffer × FixedBuffer
  result : refill_both new1 new2 rest ≡ some pair
  first : IsFresh size pair.0
  second : IsFresh size pair.1

refill_both-IsFresh :
    (size : ℕ) (new1 new2 : Option FixedBuffer) (bs : List FixedBuffer)
    → InPhase size writing new1 new2 bs
    → Refills size new1 new2 (take 2 bs)
unfolding refill_both refill pop_back
refill_both-IsFresh size (some f) new2 bs h = elim h [ ]
refill_both-IsFresh size none new2 [] h = elim h [ ]
refill_both-IsFresh size none none (x ∷ []) h = elim h [ ]
refill_both-IsFresh size none (some c) (x ∷ []) h = record {
  pair = (reset x, c);
  result = refl;
  first = reset-IsFresh size x h.1.0;
  second = h.0;
}
refill_both-IsFresh size none (some c) (x ∷ (y ∷ ys)) h = record {
  pair = (reset y, c);
  result = refl;
  first = reset-IsFresh size y h.1.1.0;
  second = h.0;
}
refill_both-IsFresh size none none (x ∷ (y ∷ ys)) h = record {
  pair = (reset y, reset x);
  result = refl;
  first = reset-IsFresh size y h.1.0;
  second = reset-IsFresh size x h.0;
}

-- The writing goes on, ready; what was to be written is in the output now, as far as it was kept.
pub record Writes (size : ℕ) (notice : Bytes) (s : Async) : Type 0 where
  pub after : Async
  pub result : write notice s ≡ some after
  pub ready : IsReady size after
  pub taken :
      logged after
      ≡ s.output ++ (written notice s.to_write ++ (all_contents s.buffers ++ held s.current))

pub write-IsReady :
    (size : ℕ) (notice : Bytes) (s : Async)
    → s.phase ≡ writing
    → IsReady size s
    → Writes size notice s
unfolding write with_buffers logged all_contents
write-IsReady size notice s e v =
    let r =
      refill_both-IsFresh size s.new_buffer1 s.new_buffer2 s.to_write
        (subst (λ p. InPhase size p s.new_buffer1 s.new_buffer2 s.to_write) e v.phased) in
    let out = s.output ++ written notice s.to_write in
    record {
      after = record s {
        output = out;
        new_buffer1 = some r.pair.0;
        new_buffer2 = some r.pair.1;
        to_write = [];
        phase = testing;
      };
      result =
          ap (λ o. with_buffers o (record s { output = out }))
            (ap (λ l. refill_both s.new_buffer1 s.new_buffer2 l) (resized_kept s.to_write)
              ∙ r.result);
      ready = record {
        opened = v.opened;
        spare = v.spare;
        filled_open = v.filled_open;
        phased = (r.first, r.second);
      };
      taken =
          append_assoc s.output (written notice s.to_write)
            (all_contents s.buffers ++ held s.current);
    }

-- At most 25 buffers are written whole.
pub written_few :
    (notice : Bytes) (bs : List FixedBuffer)
    → is_overloaded bs ≡ false
    → written notice bs ≡ all_contents bs
unfolding written
written_few notice bs h = rw h refl
