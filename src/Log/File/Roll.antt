-- ===== src/Log/File/Roll.antt =====
-- No message is lost when a log file rolls (LALI/base/LogFile.cpp).
use lali_rpc_frame.Base.{
  Bytes, ltb, leb, ◌==◌, ltb→lt, lt→ltb, Bool-cases, take, drop, take-append-drop, ℕ, ◌+◌, ◌*◌, ◌/◌,
  ◌≤◌, ◌<◌, ◌≡◌, refl, sym, ap, ◌∙◌, ◌≢◌, inl, inr, false, Option, none, some, List, [], ◌∷◌, ◌++◌,
  append_assoc, append-nil, arith,
}
use lali_rpc_frame.Log.File.{
  AppendFile, LogFile, day_seconds, write_rest, write_all, append_file, roll_file, new_log_file,
  flush_file, check_time, check_count, append_to, append,
}

-- A call of `append`: the time, the results of fwrite, and the message.
pub record Entry : Type 0 where
  pub now : ℕ
  pub first : ℕ
  pub results : List ℕ
  pub msg : Bytes

unfoldable pub append_all : List Entry → LogFile → Option LogFile
append_all [] s = some s
append_all (e ∷ es) s = elim (append e.now e.first e.results e.msg s) [
  | none ↦ none
  | some t ↦ append_all es t
]

-- The files together, the oldest first.
abbrev pub all_content : List AppendFile → Bytes
all_content [] = []
all_content (file ∷ older) = all_content older ++ file.content

abbrev pub messages : List Entry → Bytes
messages [] = []
messages (e ∷ es) = e.msg ++ messages es

-- fwrite takes some byte each time that it is called again.
abbrev pub ArePositive : List ℕ → Type 0
ArePositive [] = Unit
ArePositive (x ∷ xs) = (0 < x) × ArePositive xs

abbrev pub NeverFails : List Entry → Type 0
NeverFails [] = Unit
NeverFails (e ∷ es) = ArePositive e.results × NeverFails es

-- Each file was opened later than the one before it.
abbrev pub AreOrdered : List AppendFile → Type 0
AreOrdered [] = Unit
AreOrdered (file ∷ []) = Unit
AreOrdered (file ∷ (older ∷ files)) = (older.opened < file.opened) × AreOrdered (older ∷ files)

abbrev IsNewest : ℕ → List AppendFile → Type 0
IsNewest last [] = Unit
IsNewest last (file ∷ older) = file.opened ≤ last

-- The files of a log: there is one, they are in order, and they hold the text.
record Holds (last : ℕ) (files : List AppendFile) (text : Bytes) : Type 0 where
  there : files ≢ []
  ordered : AreOrdered files
  newest : IsNewest last files
  whole : all_content files ≡ text

abbrev LogHolds : LogFile → Bytes → Type 0
LogHolds s text = Holds s.last_roll_time s.files text

write_rest_whole :
    (results : List ℕ) (msg : Bytes) → ArePositive results → write_rest results msg ≡ msg
unfolding write_rest
write_rest_whole [] [] h = refl
write_rest_whole (x ∷ results) [] h = refl
write_rest_whole [] (c ∷ cs) h = refl
write_rest_whole (x ∷ results) (c ∷ cs) h =
    let later : (x == 0) ≡ false = ground (arith, h.0) in
    rw later (
      ap (λ l. take x (c ∷ cs) ++ l) (write_rest_whole results (drop x (c ∷ cs)) h.1)
      ∙ take-append-drop x (c ∷ cs))

write_all_whole :
    (n : ℕ) (results : List ℕ) (msg : Bytes) → ArePositive results → write_all n results msg ≡ msg
unfolding write_all
write_all_whole n results msg h =
    ap (λ l. take n msg ++ l) (write_rest_whole results (drop n msg) h) ∙ take-append-drop n msg

AreOrdered-new :
    (now last : ℕ) (files : List AppendFile) (file : AppendFile)
    → file.opened ≡ now
    → last < now
    → IsNewest last files
    → AreOrdered files
    → AreOrdered (file ∷ files)
AreOrdered-new now last [] file e h k o = tt
AreOrdered-new now last (older ∷ files) file e h k o = (omega (arith, e, h, k), o)

roll_file-LogHolds :
    (now : ℕ) (s : LogFile) (text : Bytes) → LogHolds s text → LogHolds (roll_file now s) text
unfolding roll_file
roll_file-LogHolds now s text v = elim (Bool-cases (ltb s.last_roll_time now)) [
  | inl late ↦
      let later : s.last_roll_time < now = ltb→lt s.last_roll_time now late in
      rw late (record {
        there = λ e. cc;
        ordered =
            AreOrdered-new now s.last_roll_time s.files
              (record { opened = now; content = []; written_data = 0 }) refl later v.newest
              v.ordered;
        newest = omega arith;
        whole = append-nil (all_content s.files) ∙ v.whole;
      })
  | inr early ↦ rw early v
]

check_time-LogHolds :
    (now : ℕ) (s : LogFile) (text : Bytes) → LogHolds s text → LogHolds (check_time now s) text
unfolding check_time flush_file
check_time-LogHolds now s text v =
    elim (Bool-cases (ltb s.start_of_period (now / day_seconds * day_seconds))) [
      | inl day ↦ rw day (roll_file-LogHolds now s text v)
      | inr same ↦ rw same (elim (Bool-cases (leb (s.last_flush_time + s.flush_interval) now)) [
        | inl long ↦ rw long v
        | inr short ↦ rw short v
      ])
    ]

check_count-LogHolds :
    (now : ℕ) (s : LogFile) (text : Bytes) → LogHolds s text → LogHolds (check_count now s) text
unfolding check_count
check_count-LogHolds now s text v = elim (Bool-cases (leb s.check_line s.count)) [
  | inl many ↦ rw many (check_time-LogHolds now (record s { count = 0 }) text v)
  | inr few ↦ rw few v
]

-- The result of an append.
record Appends (e : Entry) (s : LogFile) (text : Bytes) : Type 0 where
  after : LogFile
  result : append e.now e.first e.results e.msg s ≡ some after
  holds : LogHolds after (text ++ e.msg)

AreOrdered-same :
    (file file' : AppendFile) (files : List AppendFile)
    → file'.opened ≡ file.opened
    → AreOrdered (file ∷ files)
    → AreOrdered (file' ∷ files)
AreOrdered-same file file' [] e h = tt
AreOrdered-same file file' (older ∷ files) e h = (omega (arith, e, h.0), h.1)

written-Holds :
    (e : Entry) (last : ℕ) (file : AppendFile) (older : List AppendFile) (text : Bytes)
    → ArePositive e.results
    → Holds last (file ∷ older) text
    → Holds last (append_file e.first e.results e.msg file ∷ older) (text ++ e.msg)
unfolding append_file
written-Holds e last file older text p v = record {
  there = λ q. cc;
  ordered = AreOrdered-same file (append_file e.first e.results e.msg file) older refl v.ordered;
  newest = v.newest;
  whole =
      ap (λ l. all_content older ++ (file.content ++ l)) (write_all_whole e.first e.results e.msg p)
      ∙ sym (append_assoc (all_content older) file.content e.msg)
      ∙ ap (λ l. l ++ e.msg) v.whole;
}

append_to-Appends :
    (files : List AppendFile) (e : Entry) (s : LogFile) (text : Bytes)
    → s.files ≡ files
    → ArePositive e.results
    → Holds s.last_roll_time files text
    → Appends e s text
unfolding append append_to
append_to-Appends [] e s text h p v = elim (v.there refl) [ ]
append_to-Appends (file ∷ older) e s text h p v =
    let f = append_file e.first e.results e.msg file in
    let w = record s { files = f ∷ older } in
    let held = written-Holds e s.last_roll_time file older text p v in
    elim (Bool-cases (ltb s.roll_size f.written_data)) [
      | inl big ↦ record {
        after = roll_file e.now w;
        result = ap (λ l. append_to l e.now e.first e.results e.msg s) h ∙ rw big refl;
        holds = roll_file-LogHolds e.now w (text ++ e.msg) held;
      }
      | inr small ↦ record {
        after = check_count e.now (record w { count = s.count + 1 });
        result = ap (λ l. append_to l e.now e.first e.results e.msg s) h ∙ rw small refl;
        holds = check_count-LogHolds e.now (record w { count = s.count + 1 }) (text ++ e.msg) held;
      }
    ]

-- The log that a run of appends leaves: no null file was followed, the files hold the text, and no two
-- files were opened at the same time.
pub record Leaves (es : List Entry) (s : LogFile) (text : Bytes) : Type 0 where
  pub after : LogFile
  pub result : append_all es s ≡ some after
  pub whole : all_content after.files ≡ text
  pub ordered : AreOrdered after.files

append_all-Leaves :
    (es : List Entry) (s : LogFile) (text : Bytes)
    → NeverFails es
    → LogHolds s text
    → Leaves es s (text ++ messages es)
unfolding append_all
append_all-Leaves [] s text p v = record {
  after = s;
  result = refl;
  whole = v.whole ∙ sym (append-nil text);
  ordered = v.ordered;
}
append_all-Leaves (e ∷ es) s text p v =
    let one = append_to-Appends s.files e s text refl p.0 v in
    let rest = append_all-Leaves es one.after (text ++ e.msg) p.1 one.holds in
    record {
      after = rest.after;
      result = ap (λ o. elim o [ none ↦ none | some t ↦ append_all es t ]) one.result ∙ rest.result;
      whole = rest.whole ∙ append_assoc text e.msg (messages es);
      ordered = rest.ordered;
    }

-- Any run of appends to a new log file, however it rolls and whatever the clock says, as long as fwrite
-- takes some byte each time that it is called again for the rest of a message: every append has a
-- result, the files, from the oldest on, hold together exactly the messages in order, and each file was
-- opened later than the one before it.
pub append_all-new :
    (roll_size flush_interval check_line now : ℕ) (es : List Entry)
    → 0 < now
    → NeverFails es
    → Leaves es (new_log_file roll_size flush_interval check_line now) (messages es)
unfolding new_log_file roll_file
append_all-new roll_size flush_interval check_line now es positive p =
    append_all-Leaves es (new_log_file roll_size flush_interval check_line now) [] p (
      rw (lt→ltb 0 now positive)
        (record { there = λ e. cc; ordered = tt; newest = omega arith; whole = refl }))
