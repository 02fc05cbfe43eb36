-- ===== src/Net/Buffer/Tests.antt =====
-- The buffer theorems at concrete buffers.
use lali_rpc_frame.Base.{◌≡◌, refl, List, [], ◌∷◌, arith}
use lali_rpc_frame.Net.Buffer.{
  Buffer, IsValid, readable, shrink, append, retrieve, read_fd, received,
}
use lali_rpc_frame.Net.Buffer.Queue.{
  Op, step, appends, retrieves, reads, run, queue_run, run-refines, shrink-readable,
}

-- Twelve bytes, of which two are readable behind two that were consumed.
abbrev small : Buffer
small = record {
  storage = 0 ∷ 0 ∷ 0 ∷ 0 ∷ 0 ∷ 0 ∷ 0 ∷ 0 ∷ 1 ∷ 2 ∷ 3 ∷ 4 ∷ [];
  reader_index = 10;
  writer_index = 12;
}

small-IsValid : IsValid small
small-IsValid = record { ordered = omega arith; inside = omega arith; based = omega arith }

abbrev calls : List Op
calls = appends (5 ∷ []) ∷ retrieves 2 ∷ reads (received (6 ∷ 7 ∷ [])) ∷ []

run-refines_example :
    (readable (run calls small) ≡ queue_run calls (3 ∷ 4 ∷ [])) × IsValid (run calls small)
unfolding readable
run-refines_example = run-refines calls small small-IsValid

run-calls : readable (run calls small) ≡ 5 ∷ 6 ∷ 7 ∷ []
unfolding readable run append read_fd retrieve step
run-calls = refl

shrink-readable_example : (readable (shrink 2 small) ≡ 0 ∷ 0 ∷ []) × IsValid (shrink 2 small)
unfolding readable
shrink-readable_example = shrink-readable 2 2 small small-IsValid refl (omega arith)
