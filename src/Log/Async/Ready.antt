-- ===== src/Log/Async/Ready.antt =====
-- The buffers of the asynchronous log (LALI/base/AsyncLogging.cpp): which are there, of which size, and
-- what all of them hold.
use lali_rpc_frame.Base.{
  Bytes, ltb, if◌then◌else◌, ltb→lt, lt→ltb, Bool-cases, length, length-replicate, ℕ, ◌-◌, ◌<◌, ◌≡◌,
  refl, sym, ap, ◌∙◌, inl, inr, true, Option, none, some, List, [], ◌∷◌, ◌++◌, append_assoc,
  append-nil, arith,
}
use lali_rpc_frame.Log.Stream.{FixedBuffer, avail, append, contents, new_buffer}
use lali_rpc_frame.Log.Stream.Fit.{append-Extends, append-full}
use lali_rpc_frame.Log.Async.{
  Phase, testing, waiting, writing, ended, Async, next_or_new, log, append_current, all_contents,
}

-- A buffer of the size with a free byte, and one that is empty.
pub record IsOpen (size : ℕ) (b : FixedBuffer) : Type 0 where
  pub sized : length b.storage ≡ size
  pub inside : b.cur < size

pub record IsFresh (size : ℕ) (b : FixedBuffer) : Type 0 where
  pub sized : length b.storage ≡ size
  pub empty : b.cur ≡ 0

abbrev pub IsThere : (FixedBuffer → Type 0) → Option FixedBuffer → Type 0
IsThere P none = ⊥
IsThere P (some b) = P b

abbrev pub AreOpen : ℕ → List FixedBuffer → Type 0
AreOpen size [] = Unit
AreOpen size (b ∷ bs) = IsOpen size b × AreOpen size bs

-- The next buffer is given away only when a filled one has been put aside.
abbrev pub HasSpare : ℕ → Option FixedBuffer → List FixedBuffer → Type 0
HasSpare size (some b) buffers = IsFresh size b
HasSpare size none [] = ⊥
HasSpare size none (b ∷ bs) = Unit

-- The two buffers of the back end: both there before the critical section; behind it, each that was
-- given away has a written buffer in its place.
abbrev pub InPhase : ℕ → Phase → Option FixedBuffer → Option FixedBuffer → List FixedBuffer → Type 0
InPhase size testing new1 new2 [] = IsThere (IsFresh size) new1 × IsThere (IsFresh size) new2
InPhase size testing new1 new2 (b ∷ bs) = ⊥
InPhase size waiting new1 new2 [] = IsThere (IsFresh size) new1 × IsThere (IsFresh size) new2
InPhase size waiting new1 new2 (b ∷ bs) = ⊥
InPhase size writing none new2 [] = ⊥
InPhase size writing none (some c) (b ∷ bs) = IsFresh size c × AreOpen size (b ∷ bs)
InPhase size writing none none (b ∷ []) = ⊥
InPhase size writing none none (b ∷ (c ∷ bs)) = AreOpen size (b ∷ (c ∷ bs))
InPhase size writing (some b) new2 to_write = ⊥
InPhase size ended new1 new2 [] = Unit
InPhase size ended new1 new2 (b ∷ bs) = ⊥

pub record IsReady (size : ℕ) (s : Async) : Type 0 where
  pub opened : IsThere (IsOpen size) s.current
  pub spare : HasSpare size s.next s.buffers
  pub filled_open : AreOpen size s.buffers
  pub phased : InPhase size s.phase s.new_buffer1 s.new_buffer2 s.to_write

-- What the log has taken: written, to be written, put aside, and in the current buffer.
abbrev pub held : Option FixedBuffer → Bytes
held none = []
held (some b) = contents b

unfoldable pub logged : Async → Bytes
logged s = s.output ++ (all_contents s.to_write ++ (all_contents s.buffers ++ held s.current))

-- What a message adds: nothing where no buffer can hold it.
unfoldable pub entry : ℕ → Bytes → Bytes
entry size msg = if ltb (length msg) size then msg else []

pub AreOpen-append :
    (size : ℕ) (bs : List FixedBuffer) (b : FixedBuffer)
    → AreOpen size bs
    → IsOpen size b
    → AreOpen size (bs ++ b ∷ [])
AreOpen-append size [] b h k = (k, tt)
AreOpen-append size (c ∷ bs) b h k = (h.0, AreOpen-append size bs b h.1 k)

pub all_contents-append :
    (bs : List FixedBuffer) (b : FixedBuffer)
    → all_contents (bs ++ b ∷ []) ≡ all_contents bs ++ contents b
unfolding all_contents
all_contents-append [] b = append-nil (contents b)
all_contents-append (c ∷ bs) b =
    ap (λ l. contents c ++ l) (all_contents-append bs b)
    ∙ sym (append_assoc (contents c) (all_contents bs) (contents b))

HasSpare-append :
    (size : ℕ) (bs : List FixedBuffer) (b : FixedBuffer) → HasSpare size none (bs ++ b ∷ [])
HasSpare-append size [] b = tt
HasSpare-append size (c ∷ bs) b = tt

-- The buffer that follows a full one: it is empty, and of the size.
pub next_or_new-IsFresh :
    (size : ℕ) (next : Option FixedBuffer) (buffers : List FixedBuffer)
    → HasSpare size next buffers
    → IsFresh size (next_or_new size next)
unfolding next_or_new new_buffer
next_or_new-IsFresh size (some b) buffers h = h
next_or_new-IsFresh size none buffers h = record { sized = length-replicate size 0; empty = refl }

pub contents_fresh : (size : ℕ) (b : FixedBuffer) → IsFresh size b → contents b ≡ []
unfolding contents
contents_fresh size b h = rw h.empty refl

-- A message in an open buffer, and in an empty one.
append-IsOpen :
    (size : ℕ) (msg : Bytes) (b : FixedBuffer)
    → IsOpen size b
    → ltb (length msg) (avail b) ≡ true
    → IsOpen size (append msg b) × (contents (append msg b) ≡ contents b ++ msg)
append-IsOpen size msg b v h =
    let e = append-Extends msg b (record { free = omega (arith, v.sized, v.inside) }) h in
    (
      record { sized = e.size ∙ v.sized; inside = omega (arith, e.size, v.sized, e.inside.free) },
      e.holds,
    )

avail_fresh : (size : ℕ) (b : FixedBuffer) → IsFresh size b → avail b ≡ size
unfolding avail
avail_fresh size b v = omega (arith, v.sized, v.empty)

append_fresh :
    (size : ℕ) (msg : Bytes) (b : FixedBuffer)
    → 0 < size
    → IsFresh size b
    → IsOpen size (append msg b) × (contents (append msg b) ≡ entry size msg)
unfolding entry
append_fresh size msg b positive v =
    let opened : IsOpen size b = record { sized = v.sized; inside = omega (arith, v.empty) } in
    let room = avail_fresh size b v in
    elim (Bool-cases (ltb (length msg) size)) [
      | inl short ↦
          let e = append-IsOpen size msg b opened (rw room short) in
          rw short (e.0, e.1 ∙ ap (λ l. l ++ msg) (contents_fresh size b v))
      | inr long ↦ rw (long, append-full msg b (rw room long)) (opened, contents_fresh size b v)
    ]

-- A message: the log goes on, ready, and has taken the message unless no buffer can hold it.
pub record Logs (size : ℕ) (msg : Bytes) (s : Async) : Type 0 where
  pub after : Async
  pub result : log size msg s ≡ some after
  pub ready : IsReady size after
  pub taken : logged after ≡ logged s ++ entry size msg

regroup : (out x y z m : Bytes) → out ++ (x ++ (y ++ (z ++ m))) ≡ (out ++ (x ++ (y ++ z))) ++ m
regroup out x y z m = simp append_assoc

regroup_full : (out x y z m : Bytes) → out ++ (x ++ ((y ++ z) ++ m)) ≡ (out ++ (x ++ (y ++ z))) ++ m
regroup_full out x y z m = simp append_assoc

entry_short :
    (size : ℕ) (msg : Bytes) (b : FixedBuffer)
    → IsOpen size b
    → ltb (length msg) (avail b) ≡ true
    → entry size msg ≡ msg
unfolding entry avail
entry_short size msg b o h =
    let short : length msg < length b.storage - b.cur = ltb→lt (length msg) (avail b) h in
    rw (lt→ltb (length msg) size (omega (arith, o.sized))) refl

log_current :
    (size : ℕ) (msg : Bytes) (cur : Option FixedBuffer) (s : Async)
    → s.current ≡ cur
    → 0 < size
    → IsThere (IsOpen size) cur
    → IsReady size s
    → Logs size msg s
unfolding append_current log logged entry
log_current size msg none s e positive o v = elim o [ ]
log_current size msg (some b) s e positive o v = elim (Bool-cases (ltb (length msg) (avail b))) [
  | inl room ↦
      let added = append-IsOpen size msg b o room in
      record {
        after = record s { current = some (append msg b) };
        result = ap (λ c. append_current size msg c s) e ∙ rw room refl;
        ready = record {
          opened = added.0;
          spare = v.spare;
          filled_open = v.filled_open;
          phased = v.phased;
        };
        taken =
            ap (λ l. s.output ++ (all_contents s.to_write ++ (all_contents s.buffers ++ l))) added.1
            ∙ regroup s.output (all_contents s.to_write) (all_contents s.buffers) (contents b) msg
            ∙ ap
                (λ c.
                  (s.output ++ (all_contents s.to_write ++ (all_contents s.buffers ++ held c)))
                  ++ msg)
                (sym e)
            ∙ ap (λ l. logged s ++ l) (sym (entry_short size msg b o room));
      }
  | inr full ↦
      let added =
        append_fresh size msg (next_or_new size s.next) positive
          (next_or_new-IsFresh size s.next s.buffers v.spare) in
      record {
        after = record s {
          buffers = s.buffers ++ b ∷ [];
          current = some (append msg (next_or_new size s.next));
          next = none;
        };
        result = ap (λ c. append_current size msg c s) e ∙ rw full refl;
        ready = record {
          opened = added.0;
          spare = HasSpare-append size s.buffers b;
          filled_open = AreOpen-append size s.buffers b v.filled_open o;
          phased = v.phased;
        };
        taken =
            ap
              (λ l.
                s.output
                ++ (all_contents s.to_write
                    ++ (l ++ contents (append msg (next_or_new size s.next)))))
              (all_contents-append s.buffers b)
            ∙ ap
                (λ l.
                  s.output
                  ++ (all_contents s.to_write ++ ((all_contents s.buffers ++ contents b) ++ l)))
                added.1
            ∙ regroup_full s.output (all_contents s.to_write) (all_contents s.buffers) (contents b)
                (entry size msg)
            ∙ ap
                (λ c.
                  (s.output ++ (all_contents s.to_write ++ (all_contents s.buffers ++ held c)))
                  ++ entry size msg)
                (sym e);
      }
]

pub log-IsReady : (size : ℕ) (msg : Bytes) (s : Async) → 0 < size → IsReady size s → Logs size msg s
log-IsReady size msg s positive v = log_current size msg s.current s refl positive v.opened v
