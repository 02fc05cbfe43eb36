-- ===== src/Net/Buffer/Queue.antt =====
-- A buffer seen from outside: a queue of bytes. Runs of `append`, `retrieve`, `retrieveAsString`
-- and `readFd` (LALI/net/Buffer.h, Buffer.cpp) against that queue, and `shrink`.
use lali_rpc_frame.Base.{
  length-copy_to, Bytes, leb, leb-eq-false, leb→le, Bool-cases, length, take, drop, replicate,
  take-append-drop, length-take, length-replicate, drop-replicate, drop-drop, ℕ, ◌+◌, ◌-◌, ◌≤◌, ◌<◌,
  ◌≡◌, refl, sym, ap, ◌∙◌, subst, inl, inr, List, [], ◌∷◌, ◌++◌, append_assoc, append-nil, arith,
}
use lali_rpc_frame.Net.Buffer.{
  Buffer, IsValid, new_buffer, readable, readable_bytes, writable_bytes, retrieve,
  retrieve_as_string, append, shrink, read_fd, ReadResult, received, failed, write_at_end,
  cheap_prepend, copy_to,
}
use lali_rpc_frame.Net.Buffer.Content.{
  append-readable, retrieve-readable, retrieve_as_string-readable, write_at_end-readable,
  length-readable, drop-copy_to,
}

pub new_buffer-IsValid : (readable new_buffer ≡ []) × IsValid new_buffer
unfolding new_buffer readable
new_buffer-IsValid =
    (refl, record { ordered = omega arith; inside = omega arith; based = omega arith })

-- The bytes that a read adds.
abbrev pub delivered : ReadResult → Bytes
delivered (failed errno) = []
delivered (received bytes) = bytes

whole_length :
    (n : ℕ) (chunk : Bytes) (b : Buffer)
    → IsValid b
    → n ≡ writable_bytes b
    → length chunk ≡ n
    → b.writer_index + length chunk ≡ length (copy_to b.writer_index chunk b.storage)
whole_length n chunk b v e h =
    omega (arith, length-copy_to b.writer_index chunk b.storage (omega (arith, v.inside)), v.inside)

joined :
    (n : ℕ) (bytes front : Bytes) {whole : Bytes}
    → whole ≡ front ++ take n bytes
    → whole ++ drop n bytes ≡ front ++ bytes
joined n bytes front e = rw e (
    append_assoc front (take n bytes) (drop n bytes)
    ∙ ap (λ l. front ++ l) (take-append-drop n bytes))

filled :
    (bytes : Bytes) (b : Buffer)
    → IsValid b
    → writable_bytes b < length bytes
    → let full = write_at_end (take (writable_bytes b) bytes) b in
      let whole = record full { writer_index = length full.storage } in
      (readable whole ≡ readable b ++ take (writable_bytes b) bytes) × IsValid whole
filled bytes b v h =
    let chunk = take (writable_bytes b) bytes in
    let (content, valid) =
      write_at_end-readable chunk b v (omega (arith, length-take (writable_bytes b) bytes)) in
    subst
      (λ n.
        let whole = record (write_at_end chunk b) { writer_index = n } in
        (readable whole ≡ readable b ++ chunk) × IsValid whole)
      (whole_length (writable_bytes b) chunk b v refl
        (omega (arith, length-take (writable_bytes b) bytes)))
      (content, valid)

-- One read adds what the system delivers, beyond the writable space too, and nothing on an error,
-- and it keeps the buffer valid.
pub read_fd-readable :
    (r : ReadResult) (b : Buffer)
    → IsValid b
    → (readable (read_fd r b).1 ≡ readable b ++ delivered r) × IsValid (read_fd r b).1
unfolding read_fd
read_fd-readable (failed errno) b v = (sym (append-nil (readable b)), v)
read_fd-readable (received bytes) b v = elim (Bool-cases (leb (length bytes) (writable_bytes b))) [
  | inl fits ↦ rw fits (write_at_end-readable bytes b v (leb→le _ _ fits))
  | inr over ↦ rw over (
      let (content, valid) = filled bytes b v (leb-eq-false _ _ over) in
      let (added, kept) = append-readable (drop (writable_bytes b) bytes) _ valid in
      (added ∙ joined (writable_bytes b) bytes (readable b) content, kept))
]

-- The calls on a buffer, and what each does to a queue of bytes.
pub data Op : Type 0 where
  appends : Bytes → Op
  retrieves : ℕ → Op
  takes_all : Op
  reads : ReadResult → Op

unfoldable pub step : Op → Buffer → Buffer
step (appends bytes) b = append bytes b
step (retrieves n) b = retrieve n b
step takes_all b = (retrieve_as_string b).1
step (reads r) b = (read_fd r b).1

unfoldable pub run : List Op → Buffer → Buffer
run [] b = b
run (op ∷ ops) b = run ops (step op b)

unfoldable pub queue_step : Op → Bytes → Bytes
queue_step (appends bytes) q = q ++ bytes
queue_step (retrieves n) q = drop n q
queue_step takes_all q = []
queue_step (reads r) q = q ++ delivered r

unfoldable pub queue_run : List Op → Bytes → Bytes
queue_run [] q = q
queue_run (op ∷ ops) q = queue_run ops (queue_step op q)

step-refines :
    (op : Op) (b : Buffer)
    → IsValid b
    → (readable (step op b) ≡ queue_step op (readable b)) × IsValid (step op b)
unfolding step queue_step
step-refines (appends bytes) b v = append-readable bytes b v
step-refines (retrieves n) b v = retrieve-readable n b v
step-refines takes_all b v = let taken = retrieve_as_string-readable b v in (taken.1, taken.2)
step-refines (reads r) b v = read_fd-readable r b v

-- Over any run of `append`, `retrieve`, `retrieveAsString` and `readFd` a valid buffer stays valid and holds what the byte queue holds.
pub run-refines :
    (ops : List Op) (b : Buffer)
    → IsValid b
    → (readable (run ops b) ≡ queue_run ops (readable b)) × IsValid (run ops b)
unfolding run queue_run
run-refines [] b v = (refl, v)
run-refines (op ∷ ops) b v =
    let (content, valid) = step-refines op b v in
    let (later, kept) = run-refines ops (step op b) valid in
    (later ∙ ap (queue_run ops) content, kept)

shrunk :
    (k n reserve : ℕ) (content : Bytes)
    → length content ≡ n
    → drop
        (cheap_prepend + k)
        (copy_to cheap_prepend content (replicate (cheap_prepend + n + reserve) 0))
      ≡ drop k (content ++ replicate reserve 0)
shrunk k n reserve content e =
    let zeros = replicate (cheap_prepend + n + reserve) 0 in
    let size = length-replicate {0} {A = ℕ} (cheap_prepend + n + reserve) 0 in
    sym (drop-drop k cheap_prepend (copy_to cheap_prepend content zeros))
    ∙ ap (drop k) (
        drop-copy_to cheap_prepend content zeros (omega (arith, size))
        ∙ rw e (ap (λ l. content ++ l) (drop-replicate (cheap_prepend + n) reserve 0)))

-- `shrink` on a valid buffer whose read index is `k` past its start, with at least `k` bytes reserved:
-- the buffer stays valid and has as many readable bytes as before, but the first `k` of them, or all
-- where there are fewer, are lost, and zero bytes take their place at the end.
pub shrink-readable :
    (reserve k : ℕ) (b : Buffer)
    → IsValid b
    → b.reader_index ≡ cheap_prepend + k
    → k ≤ reserve
    → (readable (shrink reserve b)
        ≡ take (readable_bytes b) (drop k (readable b ++ replicate reserve 0)))
      × IsValid (shrink reserve b)
unfolding shrink
shrink-readable reserve k b v e room =
    let zeros = replicate (cheap_prepend + readable_bytes b + reserve) 0 in
    let copied = copy_to cheap_prepend (readable b) zeros in
    let held : length (readable b) ≡ b.writer_index - b.reader_index = length-readable b v in
    let size : length zeros ≡ cheap_prepend + (b.writer_index - b.reader_index) + reserve =
      length-replicate {0} {A = ℕ} (cheap_prepend + readable_bytes b + reserve) 0 in
    let whole : length copied ≡ length zeros =
      length-copy_to cheap_prepend (readable b) zeros (omega (arith, held, size)) in
    (
      window_of copied
          ∙ ap (take (readable_bytes b)) (
              ap (λ r. drop r copied) e
              ∙ shrunk k (readable_bytes b) reserve (readable b) (length-readable b v)),
      record {
        ordered = v.ordered;
        inside = omega (arith, whole, size, e, room, v.ordered);
        based = omega (arith, whole, size);
      },
    )
  where
    window_of :
        (s : Bytes)
        → readable (record b { storage = s }) ≡ take (readable_bytes b) (drop b.reader_index s)
    window_of s = unfold readable in refl
