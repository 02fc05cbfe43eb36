-- ===== src/Net/Buffer/Content.antt =====
-- What the operations of LALI/net/Buffer.h do to the readable bytes.
use lali_rpc_frame.Base.{
  length-copy_to, Bytes, ltb, ltb→lt, ltb-eq-false, Bool-cases, length, length-append, take, drop,
  replicate, length-take, length-drop, length-replicate, take-append, drop-append, drop-drop,
  drop-take, take-take, take-length, drop-length, take-append_le, drop-append_le, take-append_ge, ℕ,
  ◌+◌, ◌-◌, ◌≤◌, ◌<◌, ◌≡◌, refl, sym, ap, ◌∙◌, subst, inl, inr, [], ◌++◌, arith,
}
use lali_rpc_frame.Net.Buffer.{
  Buffer, IsValid, readable, readable_bytes, writable_bytes, copy_to, resize, cheap_prepend,
  retrieve, retrieve_as_string, ensure_writable_bytes, append, prepend, write_at_end, has_written,
}

-- A window of `n` bytes behind the first `r`, as the list between them.
window : (r n : ℕ) (s : Bytes) → r + n ≤ length s → length (take n (drop r s)) ≡ n
window r n s h = omega (arith, length-take n (drop r s), length-drop r s)

pub length-readable : (b : Buffer) → IsValid b → length (readable b) ≡ readable_bytes b
unfolding readable
length-readable b v =
    window b.reader_index (readable_bytes b) b.storage (omega (arith, v.ordered, v.inside))

-- A copy at `w` follows what stands between `r` and `w`.
read_copy :
    (r w : ℕ) (bytes s : Bytes)
    → r ≤ w
    → w ≤ length s
    → take (w + length bytes - r) (drop r (copy_to w bytes s)) ≡ take (w - r) (drop r s) ++ bytes
read_copy r w bytes s h k =
    rw
      (drop-append_le r (take w s) (bytes ++ drop (w + length bytes) s)
        (omega (arith, length-take w s)))
      (rw (drop-take r w s) (
        rw counted (
          rw (take-append_ge (length bytes) old (bytes ++ drop (w + length bytes) s))
            (ap (λ l. old ++ l) (take-append bytes (drop (w + length bytes) s))))))
  where
    old : Bytes
    old = take (w - r) (drop r s)

    counted : w + length bytes - r ≡ length old + length bytes
    counted = omega (arith, window r (w - r) s (omega arith))

-- A copy at `w` does not change what stands before it.
read_before :
    (r w : ℕ) (bytes s : Bytes)
    → r ≤ w
    → w ≤ length s
    → take (w - r) (drop r (copy_to w bytes s)) ≡ take (w - r) (drop r s)
read_before r w bytes s h k =
    rw
      (drop-append_le r (take w s) (bytes ++ drop (w + length bytes) s)
        (omega (arith, length-take w s)))
      (rw (drop-take r w s) (
        rw
          (take-append_le (w - r) (take (w - r) (drop r s)) (bytes ++ drop (w + length bytes) s)
            (omega (arith, window r (w - r) s (omega arith))))
          (take-take (w - r) (w - r) (drop r s) (omega arith))))

pub drop-copy_to :
    (i : ℕ) (bytes s : Bytes)
    → i ≤ length s
    → drop i (copy_to i bytes s) ≡ bytes ++ drop (i + length bytes) s
drop-copy_to i bytes s h =
    let rest = bytes ++ drop (i + length bytes) s in
    let e : i ≡ length (take i s) = omega (arith, length-take i s) in
    subst (λ k. drop k (take i s ++ rest) ≡ rest) (sym e) (drop-append (take i s) rest)

-- What a copy at `i` leaves from there up to `w`.
read_front :
    (i w : ℕ) (bytes s : Bytes) (r : ℕ)
    → r ≡ i + length bytes
    → r ≤ w
    → w ≤ length s
    → take (w - i) (drop i (copy_to i bytes s)) ≡ bytes ++ take (w - r) (drop r s)
read_front i w bytes s r e h k =
    rw skipped (rw counted (rw (take-append_ge (w - r) bytes (drop (i + length bytes) s)) (rw e)))
  where
    counted : w - i ≡ length bytes + (w - r)
    counted = omega arith

    skipped : drop i (copy_to i bytes s) ≡ bytes ++ drop (i + length bytes) s
    skipped = drop-copy_to i bytes s (omega arith)

resize-grows : (n : ℕ) (s : Bytes) → length s ≤ n → resize n s ≡ s ++ replicate (n - length s) 0
resize-grows n s h = rw (take-length n s h)

read_prefix :
    (r n : ℕ) (s z : Bytes) → r + n ≤ length s → take n (drop r (s ++ z)) ≡ take n (drop r s)
read_prefix r n s z h =
    rw (drop-append_le r s z (omega arith))
      (take-append_le n (drop r s) z (omega (arith, length-drop r s)))

-- What `ensureWritableBytes` promises.
record Roomy (n : ℕ) (b c : Buffer) : Type 0 where
  same : readable c ≡ readable b
  valid : IsValid c
  room : n ≤ writable_bytes c

grown-Roomy :
    (n : ℕ) (b : Buffer)
    → IsValid b
    → writable_bytes b < n
    → Roomy n b (record b { storage = resize (b.writer_index + n) b.storage })
unfolding readable
grown-Roomy n b v h =
    let grown = b.storage ++ replicate (b.writer_index + n - length b.storage) 0 in
    let size : length grown ≡ b.writer_index + n = omega (
      arith,
      length-append b.storage (replicate (b.writer_index + n - length b.storage) 0),
      length-replicate {0} {A = ℕ} (b.writer_index + n - length b.storage) 0,
      v.inside,
    ) in
    rw (resize-grows (b.writer_index + n) b.storage (omega (arith, v.inside))) (record {
      same =
          read_prefix b.reader_index (readable_bytes b) b.storage _
            (omega (arith, v.ordered, v.inside));
      valid = record {
        ordered = v.ordered;
        inside = omega (arith, size);
        based = omega (arith, size, v.based, v.inside);
      };
      room = omega (arith, size);
    })

-- The bytes that a copy to offset 8 leaves there.
read_base :
    (n : ℕ) (bytes s : Bytes)
    → n ≡ length bytes
    → cheap_prepend ≤ length s
    → take (cheap_prepend + n - cheap_prepend) (drop cheap_prepend (copy_to cheap_prepend bytes s))
      ≡ bytes
read_base n bytes s e h = rw e (read_copy cheap_prepend cheap_prepend bytes s (omega arith) h)

moved-Roomy :
    (n : ℕ) (b : Buffer)
    → IsValid b
    → n + cheap_prepend ≤ writable_bytes b + b.reader_index
    → Roomy n b (record {
      storage = copy_to cheap_prepend (readable b) b.storage;
      reader_index = cheap_prepend;
      writer_index = cheap_prepend + readable_bytes b;
    })
moved-Roomy n b v h =
    let count = length-readable b v in
    let size =
      length-copy_to cheap_prepend (readable b) b.storage
        (omega (arith, count, v.ordered, v.inside)) in
    record {
      same =
          unfold readable in
          read_base (readable_bytes b) (readable b) b.storage (sym count) v.based;
      valid = record {
        ordered = omega arith;
        inside = omega (arith, size, v.ordered, v.inside);
        based = omega (arith, size, v.based);
      };
      room = omega (arith, size, v.ordered, v.inside);
    }

ensure-Roomy : (n : ℕ) (b : Buffer) → IsValid b → Roomy n b (ensure_writable_bytes n b)
unfolding ensure_writable_bytes
ensure-Roomy n b v = elim (Bool-cases (ltb (writable_bytes b) n)) [
  | inr enough ↦ rw enough (record { same = refl; valid = v; room = ground arith })
  | inl short ↦
      rw short (elim (Bool-cases (ltb (writable_bytes b + b.reader_index) (n + cheap_prepend))) [
        | inl tight ↦ rw tight (grown-Roomy n b v (ltb→lt _ _ short))
        | inr loose ↦ rw loose (moved-Roomy n b v (ground arith))
      ])
]

-- A write into the writable part.
pub write_at_end-readable :
    (bytes : Bytes) (b : Buffer)
    → IsValid b
    → length bytes ≤ writable_bytes b
    → (readable (has_written (length bytes) (write_at_end bytes b)) ≡ readable b ++ bytes)
      × IsValid (has_written (length bytes) (write_at_end bytes b))
write_at_end-readable bytes b v h =
    let size = length-copy_to b.writer_index bytes b.storage (omega (arith, v.inside)) in
    (
      unfold readable in read_copy b.reader_index b.writer_index bytes b.storage v.ordered v.inside,
      record {
        ordered = omega (arith, v.ordered);
        inside = omega (arith, size, v.inside);
        based = omega (arith, size, v.based);
      },
    )

-- Appending to a valid buffer adds the bytes behind the readable ones, whether the vector has room for them, is
-- compacted or is grown, and keeps the buffer valid.
pub append-readable :
    (bytes : Bytes) (b : Buffer)
    → IsValid b
    → (readable (append bytes b) ≡ readable b ++ bytes) × IsValid (append bytes b)
unfolding append
append-readable bytes b v =
    let room = ensure-Roomy (length bytes) b v in
    let written =
      write_at_end-readable bytes (ensure_writable_bytes (length bytes) b) room.valid room.room in
    (written.0 ∙ ap (λ l. l ++ bytes) room.same, written.1)

-- Retrieving `n` bytes of a valid buffer drops them from the front, all of them where there are fewer, and keeps the
-- buffer valid.
pub retrieve-readable :
    (n : ℕ) (b : Buffer)
    → IsValid b
    → (readable (retrieve n b) ≡ drop n (readable b)) × IsValid (retrieve n b)
unfolding retrieve
retrieve-readable n b v = elim (Bool-cases (ltb n (readable_bytes b))) [
  | inl left ↦ rw left (
    unfold readable in
        rw (drop-take n (readable_bytes b) (drop b.reader_index b.storage)) (
          rw (drop-drop n b.reader_index b.storage)
            (ap (λ k. take k (drop (b.reader_index + n) b.storage)) (omega arith))),
    record { ordered = ground arith; inside = v.inside; based = v.based },
  )
  | inr all ↦ rw all (
    rw
        (drop-length n (readable b)
          (omega (arith, length-readable b v, ltb-eq-false n (readable_bytes b) all)))
        (unfold readable in refl),
    record { ordered = omega arith; inside = v.based; based = v.based },
  )
]

-- Taking everything as a string gives the readable bytes and leaves none.
pub retrieve_as_string-readable :
    (b : Buffer)
    → IsValid b
    → ((retrieve_as_string b).0 ≡ readable b)
      × (readable (retrieve_as_string b).1 ≡ [])
      × IsValid (retrieve_as_string b).1
unfolding retrieve_as_string readable
retrieve_as_string-readable b v =
    (refl, refl, record { ordered = omega arith; inside = v.based; based = v.based })

-- Prepending to a valid buffer puts the bytes in front of the readable ones and keeps it valid, where
-- the space in front suffices.
pub prepend-readable :
    (bytes : Bytes) (b : Buffer)
    → IsValid b
    → length bytes ≤ b.reader_index
    → (readable (prepend bytes b) ≡ bytes ++ readable b) × IsValid (prepend bytes b)
unfolding prepend
prepend-readable bytes b v h =
    let start = b.reader_index - length bytes in
    let size = length-copy_to start bytes b.storage (omega (arith, v.ordered, v.inside)) in
    (
      unfold readable in
          read_front start b.writer_index bytes b.storage b.reader_index (omega arith) v.ordered
            v.inside,
      record {
        ordered = omega (arith, v.ordered);
        inside = omega (arith, size, v.inside);
        based = omega (arith, size, v.based);
      },
    )
