-- ===== src/Log/Async/Safe.antt =====
-- Runs of the asynchronous log, in any order of its threads (LALI/base/AsyncLogging.cpp).
use lali_rpc_frame.Base.{
  Bytes, length-replicate, ℕ, ◌<◌, ◌≡◌, refl, sym, ap, ◌∙◌, subst, ◌≢◌, Bool, true, false, Option,
  none, some, List, [], ◌∷◌, ◌++◌, append_assoc, append-nil,
}
use lali_rpc_frame.Log.Stream.{FixedBuffer, new_buffer, contents}
use lali_rpc_frame.Log.Async.{
  Phase, testing, waiting, writing, ended, Async, started, log, stop, enter, finish, back, back_at,
  is_overloaded, all_contents,
}
use lali_rpc_frame.Log.Async.Ready.{IsReady, InPhase, logged, held, entry, log-IsReady}
use lali_rpc_frame.Log.Async.Rounds.{exchange-IsReady, write-IsReady, written_few}

-- What the threads do, with the messages that a step takes: a message from any thread, the stop, and
-- a step of the back end: its test of `running_`, the exchange, or the writing.
pub data Step (size : ℕ) (notice : Bytes) : Async → List Bytes → Async → Type 0 where
  logs : (msg : Bytes) (s t : Async) → log size msg s ≡ some t → Step size notice s (msg ∷ []) t
  stops : (s : Async) → Step size notice s [] (stop s)
  backs : (s t : Async) → back notice s ≡ some t → Step size notice s [] t

pub data Runs (size : ℕ) (notice : Bytes) : Async → List Bytes → Async → Type 0 where
  done : (s : Async) → Runs size notice s [] s
  step :
      (s t u : Async) (msgs more : List Bytes)
      → Step size notice s msgs t
      → Runs size notice t more u
      → Runs size notice s (msgs ++ more) u

-- The back end never has more than 25 buffers to write.
abbrev pub IsPaced :
    {size : ℕ} {notice : Bytes} {s t : Async} {msgs : List Bytes}
    → Runs size notice s msgs t
    → Type 0
IsPaced (done s) = Unit
IsPaced (step s t u msgs more first run) = (is_overloaded s.to_write ≡ false) × IsPaced run

abbrev pub entries : ℕ → List Bytes → Bytes
entries size [] = []
entries size (msg ∷ msgs) = entry size msg ++ entries size msgs

entries-append :
    (size : ℕ) (xs ys : List Bytes) → entries size (xs ++ ys) ≡ entries size xs ++ entries size ys
entries-append size [] ys = refl
entries-append size (x ∷ xs) ys =
    ap (λ l. entry size x ++ l) (entries-append size xs ys)
    ∙ sym (append_assoc (entry size x) (entries size xs) (entries size ys))

some-injective : (a b : Async) → some a ≡ some b → a ≡ b
some-injective a b h = cc

-- What a step of the back end does to a ready log.
record Turns (size : ℕ) (notice : Bytes) (s : Async) : Type 0 where
  after : Async
  result : back notice s ≡ some after
  ready : IsReady size after
  same : is_overloaded s.to_write ≡ false → logged after ≡ logged s

ended-InPhase :
    (size : ℕ) (new1 new2 : Option FixedBuffer) (bs : List FixedBuffer)
    → InPhase size testing new1 new2 bs
    → InPhase size ended new1 new2 bs
ended-InPhase size new1 new2 [] h = tt
ended-InPhase size new1 new2 (b ∷ bs) h = h

waiting-InPhase :
    (size : ℕ) (new1 new2 : Option FixedBuffer) (bs : List FixedBuffer)
    → InPhase size testing new1 new2 bs
    → InPhase size waiting new1 new2 bs
waiting-InPhase size new1 new2 [] h = h
waiting-InPhase size new1 new2 (b ∷ bs) h = h

turn :
    (size : ℕ) (notice : Bytes) (s : Async) (phase : Phase) (running : Bool)
    → 0 < size
    → s.phase ≡ phase
    → s.running ≡ running
    → IsReady size s
    → Turns size notice s
unfolding back back_at enter finish logged
turn size notice s testing true positive p r v = record {
  after = enter s;
  result = ap (λ q. back_at q s.running notice s) p ∙ ap (λ q. back_at testing q notice s) r;
  ready = record {
    opened = v.opened;
    spare = v.spare;
    filled_open = v.filled_open;
    phased =
        waiting-InPhase size s.new_buffer1 s.new_buffer2 s.to_write
          (subst (λ q. InPhase size q s.new_buffer1 s.new_buffer2 s.to_write) p v.phased);
  };
  same = λ few. refl;
}
turn size notice s testing false positive p r v = record {
  after = finish s;
  result = ap (λ q. back_at q s.running notice s) p ∙ ap (λ q. back_at testing q notice s) r;
  ready = record {
    opened = v.opened;
    spare = v.spare;
    filled_open = v.filled_open;
    phased =
        ended-InPhase size s.new_buffer1 s.new_buffer2 s.to_write
          (subst (λ q. InPhase size q s.new_buffer1 s.new_buffer2 s.to_write) p v.phased);
  };
  same = λ few. refl;
}
turn size notice s waiting running positive p r v =
    let e = exchange-IsReady size s positive p v in
    record {
      after = e.after;
      result = ap (λ q. back_at q s.running notice s) p ∙ e.result;
      ready = e.ready;
      same = λ few. e.same;
    }
turn size notice s writing running positive p r v =
    let w = write-IsReady size notice s p v in
    record {
      after = w.after;
      result = ap (λ q. back_at q s.running notice s) p ∙ w.result;
      ready = w.ready;
      same = λ few.
          w.taken
          ∙ ap (λ l. s.output ++ (l ++ (all_contents s.buffers ++ held s.current)))
              (written_few notice s.to_write few);
    }
turn size notice s ended running positive p r v = record {
  after = s;
  result = ap (λ q. back_at q s.running notice s) p;
  ready = v;
  same = λ few. refl;
}

-- What any step does to a ready log.
record Keeps (size : ℕ) (msgs : List Bytes) (s t : Async) : Type 0 where
  ready : IsReady size t
  taken : is_overloaded s.to_write ≡ false → logged t ≡ logged s ++ entries size msgs

step-Keeps :
    (size : ℕ) (notice : Bytes) (s t : Async) (msgs : List Bytes)
    → 0 < size
    → Step size notice s msgs t
    → IsReady size s
    → Keeps size msgs s t
unfolding logged stop
step-Keeps size notice _ _ _ positive (logs msg s t e) v =
    let l = log-IsReady size msg s positive v in
    let same : l.after ≡ t = some-injective l.after t (sym l.result ∙ e) in
    record {
      ready = subst (λ u. IsReady size u) same l.ready;
      taken = λ few.
          ap logged (sym same)
          ∙ l.taken
          ∙ ap (λ m. logged s ++ m) (sym (append-nil (entry size msg)));
    }
step-Keeps size notice _ _ _ positive (stops s) v = record {
  ready = record {
    opened = v.opened;
    spare = v.spare;
    filled_open = v.filled_open;
    phased = v.phased;
  };
  taken = λ few. sym (append-nil (logged s));
}
step-Keeps size notice _ _ _ positive (backs s t e) v =
    let b = turn size notice s s.phase s.running positive refl refl v in
    let same : b.after ≡ t = some-injective b.after t (sym b.result ∙ e) in
    record {
      ready = subst (λ u. IsReady size u) same b.ready;
      taken = λ few. ap logged (sym same) ∙ b.same few ∙ sym (append-nil (logged s));
    }

runs-IsReady :
    (size : ℕ) (notice : Bytes) (s t : Async) (msgs : List Bytes)
    → 0 < size
    → Runs size notice s msgs t
    → IsReady size s
    → IsReady size t
runs-IsReady size notice _ _ _ positive (done s) v = v
runs-IsReady size notice _ _ _ positive (step s u t first more one run) v =
    runs-IsReady size notice u t more positive run
      (step-Keeps size notice s u first positive one v).ready

started-IsReady : (size : ℕ) → 0 < size → IsReady size (started size)
unfolding started new_buffer
started-IsReady size positive =
    let same = length-replicate size 0 in
    record {
      opened = record { sized = same; inside = positive };
      spare = record { sized = same; empty = refl };
      filled_open = tt;
      phased = (record { sized = same; empty = refl }, record { sized = same; empty = refl });
    }

-- However messages, the stop and the back end are interleaved from the start on, no null buffer is
-- followed and no buffer is taken from an empty vector: the next message and the next step of the
-- back end both have a result.
pub runs-started :
    (size : ℕ) (notice : Bytes) (t : Async) (msgs : List Bytes) (msg : Bytes)
    → 0 < size
    → Runs size notice (started size) msgs t
    → (log size msg t ≢ none) × (back notice t ≢ none)
runs-started size notice t msgs msg positive run =
    let v =
      runs-IsReady size notice (started size) t msgs positive run (started-IsReady size positive) in
    let l = log-IsReady size msg t positive v in
    let b = turn size notice t t.phase t.running positive refl refl v in
    ((λ h. absurd_state l.after (sym l.result ∙ h)), (λ h. absurd_state b.after (sym b.result ∙ h)))
  where
    absurd_state : (u : Async) → some u ≢ none
    absurd_state u h = cc

runs_taken :
    (size : ℕ) (notice : Bytes) (s t : Async) (msgs : List Bytes)
    → 0 < size
    → (run : Runs size notice s msgs t) → IsPaced run
    → IsReady size s
    → logged t ≡ logged s ++ entries size msgs
runs_taken size notice _ _ _ positive (done s) paced v = sym (append-nil (logged s))
runs_taken size notice _ _ _ positive (step s u t first more one run) paced v =
    let k = step-Keeps size notice s u first positive one v in
    runs_taken size notice u t more positive run paced.1 k.ready
    ∙ ap (λ l. l ++ entries size more) (k.taken paced.0)
    ∙ append_assoc (logged s) (entries size first) (entries size more)
    ∙ ap (λ l. logged s ++ l) (sym (entries-append size first more))

logged_nothing : (size : ℕ) → logged (started size) ≡ []
unfolding logged started all_contents contents new_buffer
logged_nothing size = refl

-- However messages, the stop and the steps of the back end are interleaved from the start on, as long as
-- the back end never has more than 25 buffers to write: the output, followed by what waits to be
-- written, by what the filled buffers hold and by what the current buffer holds, is exactly every
-- message that a buffer can hold, in the order in which they came. What the buffers hold is not said
-- to be written later: where the back end has ended, it stays in them.
pub logged-started :
    (size : ℕ) (notice : Bytes) (t : Async) (msgs : List Bytes)
    → 0 < size
    → (run : Runs size notice (started size) msgs t) → IsPaced run
    → t.output ++ (all_contents t.to_write ++ (all_contents t.buffers ++ held t.current))
      ≡ entries size msgs
unfolding logged
logged-started size notice t msgs positive run paced =
    runs_taken size notice (started size) t msgs positive run paced (started-IsReady size positive)
    ∙ ap (λ l. l ++ entries size msgs) (logged_nothing size)
