-- ===== src/Log/File/Tests.antt =====
-- The theorem on log files at a concrete run.
use lali_rpc_frame.Base.{codes, List, [], ◌∷◌, arith}
use lali_rpc_frame.Log.File.{new_log_file}
use lali_rpc_frame.Log.File.Roll.{Entry, Leaves, append_all-new}

-- Files of more than three bytes roll; the second message is written in two parts.
abbrev entries : List Entry
entries =
    record { now = 10; first = 4; results = []; msg = codes "abcd" }
    ∷ record { now = 10; first = 1; results = 2 ∷ []; msg = codes "efg" }
    ∷ record { now = 20; first = 2; results = []; msg = codes "hi" }
    ∷ []

append_all-new_example : Leaves entries (new_log_file 3 3 1024 5) (codes "abcdefghi")
append_all-new_example =
    append_all-new 3 3 1024 5 entries (omega arith) (tt, ((omega arith, tt), (tt, tt)))
