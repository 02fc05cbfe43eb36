-- ===== src/Log/File.antt =====
-- LALI/base/LogFile.cpp and FileUtil.cpp: a log that rolls over to new files. The time is an argument,
-- in seconds; a file is known by the time in its name. `files` holds the newest file first, so `file_`
-- is its head, and an empty list is the null pointer. The results of fwrite are arguments.
pub mod Roll
mod Tests
use lali_rpc_frame.Base.{
  [], Bytes, ltb, leb, ◌==◌, if◌then◌else◌, length, take, drop, ℕ, ◌+◌, ◌*◌, ◌/◌, Option, none,
  some, List, ◌∷◌, ◌++◌,
}

pub record AppendFile : Type 0 where
  pub opened : ℕ
  pub content : Bytes
  pub written_data : ℕ

-- The settings stand in front; `flushes` counts the calls of fflush.
pub record LogFile : Type 0 where
  pub flush_interval : ℕ
  pub check_line : ℕ
  pub roll_size : ℕ
  pub count : ℕ
  pub last_flush_time : ℕ
  pub last_roll_time : ℕ
  pub start_of_period : ℕ
  pub files : List AppendFile
  pub flushes : ℕ

abbrev pub day_seconds : ℕ
day_seconds = 60 * 60 * 24

-- What the loop of `AppendFile::append` writes: each result of fwrite takes a part, a result of zero
-- ends the loop. Behind the given results fwrite takes everything.
unfoldable pub write_rest : List ℕ → Bytes → Bytes
write_rest results [] = []
write_rest [] (c ∷ cs) = c ∷ cs
write_rest (x ∷ results) (c ∷ cs) =
    let rest = write_rest results (drop x (c ∷ cs)) in
    if x == 0 then [] else take x (c ∷ cs) ++ rest

-- The first result, those of the loop, and the bytes that the file takes.
unfoldable pub write_all : ℕ → List ℕ → Bytes → Bytes
write_all n results msg = take n msg ++ write_rest results (drop n msg)

unfoldable pub append_file : ℕ → List ℕ → Bytes → AppendFile → AppendFile
append_file n results msg file = record file {
  content = file.content ++ write_all n results msg;
  written_data = file.written_data + length msg;
}

unfoldable pub roll_file : ℕ → LogFile → LogFile
roll_file now s =
    if ltb s.last_roll_time now
    then record s {
      last_roll_time = now;
      last_flush_time = now;
      start_of_period = now / day_seconds * day_seconds;
      files = record { opened = now; content = []; written_data = 0 } ∷ s.files;
    }
    else s

unfoldable pub new_log_file : ℕ → ℕ → ℕ → ℕ → LogFile
new_log_file roll_size flush_interval check_line now = roll_file now (record {
  flush_interval = flush_interval;
  check_line = check_line;
  roll_size = roll_size;
  count = 0;
  last_flush_time = 0;
  last_roll_time = 0;
  start_of_period = 0;
  files = [];
  flushes = 0;
})

unfoldable pub flush_file : LogFile → LogFile
flush_file s = record s { flushes = s.flushes + 1 }

-- Every `check_line` messages: a new day rolls, a long time flushes.
unfoldable pub check_time : ℕ → LogFile → LogFile
check_time now s =
    if ltb s.start_of_period (now / day_seconds * day_seconds)
    then roll_file now s
    else if leb (s.last_flush_time + s.flush_interval) now
    then flush_file (record s { last_flush_time = now })
    else s

unfoldable pub check_count : ℕ → LogFile → LogFile
check_count now s = if leb s.check_line s.count then check_time now (record s { count = 0 }) else s

unfoldable pub append_to : List AppendFile → ℕ → ℕ → List ℕ → Bytes → LogFile → Option LogFile
append_to [] now n results msg s = none
append_to (file ∷ older) now n results msg s =
    let written = record s { files = append_file n results msg file ∷ older } in
    some (
      if ltb s.roll_size (append_file n results msg file).written_data
      then roll_file now written
      else check_count now (record written { count = s.count + 1 }))

-- `append_unlocked`, which `append` calls with its lock held, if it has one.
unfoldable pub append : ℕ → ℕ → List ℕ → Bytes → LogFile → Option LogFile
append now n results msg s = append_to s.files now n results msg s
