-- ===== src/TestRunner.antt =====
-- src/bialet_wren.c: the runner of the test files. The entries of the directory, the texts of the
-- files and the interpreter are parameters; `strdup` succeeds.
pub mod Counts
pub mod Selected
use bialet.Modules.{extension}
use bialet.Prelude.{
  ◌&&◌, ◌-◌, drop, str_eq, leb, length, ◌||◌, Option, take, codes, not, ltb, ◌++◌, Bytes, ℕ, List,
  Bool, if◌then◌else◌, none, some, true, false, [], ◌∷◌, suc,
}

abbrev pub max_test_files : ℕ
max_test_files = 100

abbrev pub test_init_file : Bytes
test_init_file = codes "_init.wren"

unfoldable pub is_test_file : Bytes → Bool
is_test_file name =
    if ltb (length name) 6
    then false
    else str_eq (drop (length name - 5) name) extension && not (str_eq name test_init_file)

-- What `readdir` gives.
pub record Entry : Type 0 where
  pub name : Bytes
  pub is_directory : Bool

-- `testFiles` and `capped`.
abbrev pub Files : Type 0
Files = List Bytes × ℕ

-- It passes both tests; a directory named like a test is none.
unfoldable pub is_runnable : Entry → Bool
is_runnable e = is_test_file e.name && not e.is_directory

abbrev pub admit_entry : Entry → Files → Files
admit_entry e (files, capped) =
    if not (is_runnable e)
    then (files, capped)
    else if leb max_test_files (length files)
    then (files, suc capped)
    else (files ++ (e.name ∷ []), capped)

unfoldable pub collect : List Entry → Files → Files
collect [] fs = fs
collect (e ∷ entries) fs = collect entries (admit_entry e fs)

-- What the interpreter calls while it runs a test: the callback of an error with its message, that of
-- a frame of the stack trace with its line, and `bialet_test_mark_skip`.
pub data TestEvent : Type 0 where
  compile_error runtime_error : Option Bytes → TestEvent
  stack_trace : ℕ → TestEvent
  mark_skip : TestEvent

-- The static variables of the capture.
pub record Capture : Type 0 where
  pub skip_requested : Bool
  pub fail_line : ℕ
  pub fail_msg : Bytes

abbrev pub test_capture_begin : Capture
test_capture_begin = record { skip_requested = false; fail_line = 0; fail_msg = [] }

-- `snprintf` into a message of 256 bytes.
abbrev pub clipped : Bytes → Bytes
clipped msg = take 255 msg

abbrev pub set_message : Option Bytes → Capture → Capture
set_message none c = c
set_message (some msg) c = record c { fail_msg = clipped msg }

-- `bialet_wren_error` while a test is captured, and `bialet_test_mark_skip`.
abbrev pub capture_event : TestEvent → Capture → Capture
capture_event (compile_error msg) c = set_message msg c
capture_event (runtime_error msg) c = set_message msg c
capture_event (stack_trace line) c = record c { fail_line = line }
capture_event mark_skip c = record c { skip_requested = true }

unfoldable pub capture_events : List TestEvent → Capture → Capture
capture_events [] c = c
capture_events (e ∷ events) c = capture_events events (capture_event e c)

-- What the interpreter does with the code of a test behind the initial file, if there is one.
pub record TestRun : Type 0 where
  pub events : List TestEvent
  pub succeeds : Bool

-- The files and the interpreter, on a state that each test leaves to the next: the files, and what
-- is in the database.
pub record Machine (S : Type 0) : Type 0 where
  pub read : S → Bytes → Option Bytes
  pub interpret : S → Bytes → TestRun × S

pub data TestResult : Type 0 where
  pass skip : TestResult
  fail : ℕ → Bytes → TestResult

abbrev pub fail_text : Bytes → Bytes
fail_text [] = codes "Test failed"
fail_text (c ∷ msg) = c ∷ msg

abbrev pub test_result : TestRun → TestResult
test_result r =
    let c = capture_events r.events test_capture_begin in
    if c.skip_requested
    then skip
    else if not r.succeeds
    then fail c.fail_line (clipped (fail_text (clipped c.fail_msg)))
    else pass

unfoldable pub run_test_file : {S : Type 0} → Machine S → Bytes → S → TestResult × S
unfolding capture_events
run_test_file m path s = elim (m.read s path) [
  | none ↦ (fail 0 (clipped (codes "Cannot read test file: " ++ take 232 path)), s)
  | some code ↦ (test_result (m.interpret s code).0, (m.interpret s code).1)
]

-- `TestFailure`.
pub record TestFailure : Type 0 where
  pub name : Bytes
  pub line : ℕ
  pub msg : Bytes

pub record Tally : Type 0 where
  pub passed : ℕ
  pub skipped : ℕ
  pub failures : List TestFailure

abbrev pub count : Bytes → TestResult → Tally → Tally
count name pass t = record t { passed = suc t.passed }
count name skip t = record t { skipped = suc t.skipped }
count name (fail line msg) t = record t {
  failures = t.failures ++ (record { name = take 255 name; line = line; msg = clipped msg } ∷ []);
}

abbrev pub test_path : Bytes → Bytes → Bytes
test_path tests_path name = take 511 (tests_path ++ (codes "/" ++ name))

unfoldable pub run_files : {S : Type 0} → Machine S → Bytes → List Bytes → S → Tally → Tally
unfolding run_test_file
run_files m tests_path [] s t = t
run_files m tests_path (name ∷ files) s t =
    let (result, later) = run_test_file m (test_path tests_path name) s in
    run_files m tests_path files later (count name result t)

abbrev pub no_tests : Tally
no_tests = record { passed = 0; skipped = 0; failures = [] }

-- What is printed and returned; `none` for the entries where the directory cannot be opened.
pub record Report : Type 0 where
  pub tally : Tally
  pub capped : ℕ
  pub code : ℕ

abbrev pub exit_code : Tally → ℕ
exit_code t = if ltb 0 (length t.failures) then 1 else 0

unfoldable pub bialet_run_tests :
    {S : Type 0} → Machine S → S → Bytes → Option (List Entry) → Report
bialet_run_tests m s test_dir none = record { tally = no_tests; capped = 0; code = 1 }
bialet_run_tests m s test_dir (some entries) =
    let (files, capped) = collect entries ([], 0) in
    let tests_path = take 255 (test_dir ++ codes "/_tests") in
    let tally = run_files m tests_path files s no_tests in
    record { tally = tally; capped = capped; code = exit_code tally }
