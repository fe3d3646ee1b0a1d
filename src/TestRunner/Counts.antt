-- ===== src/TestRunner/Counts.antt =====
-- What the runner counts.
use mathlib.Core.List.{cons-ne-nil}
use bialet.TestRunner.{
  admit_entry, no_tests, clipped, count, run_test_file, Capture, test_path, exit_code, Report,
  Machine, TestRun, TestEvent, capture_events, compile_error, runtime_error, stack_trace, mark_skip,
  test_result, test_capture_begin, fail_text, TestFailure, bialet_run_tests, TestResult, Tally,
  run_files, is_runnable, max_test_files, Files, Entry, collect, pass, skip, fail,
}
use bialet.TestRunner.Selected.{
  Selected, nothing, test, other, is_runnable-IsTest, IsTest-is_runnable,
}
use bialet.Prelude.{
  Option-cases, length-take, codes, ◌↔◌, ◌⊎◌, Option, append_assoc, length-append, ◌<◌, take_append,
  leb, ◌∙◌, Bool-cases, ◌-◌, ap, ◌+◌, arith, take_all, ◌++◌, sym, take, append-nil, ◌≡◌, ◌≤◌, ℕ,
  length, if◌then◌else◌, Bool, true, false, ◌||◌, none, Bytes, List, some, [], ◌∷◌, suc, refl, inl,
  inr,
}

-- The names that pass the tests of the code, in the order of the entries.
unfoldable pub test_names : List Entry → List Bytes
test_names [] = []
test_names (e ∷ entries) =
    let rest = test_names entries in if is_runnable e then e.name ∷ rest else rest

take_full : (xs ys : List Bytes) → length xs ≤ 100 → 100 ≤ length xs → take 100 (xs ++ ys) ≡ xs
take_full xs ys h l =
    let full : 100 ≡ length xs = omega arith in ap (λ n. take n (xs ++ ys)) full ∙ take_append xs ys

abbrev Collected : List Bytes → ℕ → List Bytes → Files → Type 0
Collected files capped names after =
    (after.0 ≡ take 100 (files ++ names)) × (after.1 ≡ capped + (length files + length names - 100))

collect-Collected :
    (entries : List Entry) (files : List Bytes) (capped : ℕ)
    → length files ≤ 100
    → Collected files capped (test_names entries) (collect entries (files, capped))
unfolding collect test_names
collect-Collected [] files capped h =
    (rw (append-nil files) (sym (take_all 100 files h)), omega arith)
collect-Collected (e ∷ entries) files capped h = elim (Bool-cases (is_runnable e)) [
  | inr t ↦
      let step : admit_entry e (files, capped) ≡ (files, capped) = rw (t, admit_entry) refl in
      rw (step, t, collect) (collect-Collected entries files capped h)
  | inl t ↦ elim (Bool-cases (leb max_test_files (length files))) [
    | inl full ↦
        let (f, c) = collect-Collected entries files (suc capped) h in
        let many : 100 ≤ length files = ground arith in
        let names = test_names entries in
        let step : admit_entry e (files, capped) ≡ (files, suc capped) =
          rw (t, full, admit_entry) refl in
        rw (step, t, collect)
          (
            f ∙ (take_full files names h many ∙ sym (take_full files (e.name ∷ names) h many)),
            omega (arith, c),
          )
    | inr free ↦
        let room : length files < 100 = ground arith in
        let names = test_names entries in
        let (f, c) =
          collect-Collected entries (files ++ (e.name ∷ [])) capped
            (omega (arith, length-append files (e.name ∷ []))) in
        let step : admit_entry e (files, capped) ≡ (files ++ (e.name ∷ []), capped) =
          rw (t, free, admit_entry) refl in
        rw (step, t, collect)
          (
            f ∙ ap (take 100) (append_assoc files (e.name ∷ []) names),
            omega (arith, c, length-append files (e.name ∷ [])),
          )
  ]
]

-- What comes of each file in turn: nothing where it cannot be read, or the run of the interpreter.
unfoldable pub outcomes :
    {S : Type 0} → Machine S → Bytes → List Bytes → S → List (Bytes × Option TestRun)
outcomes m tests_path [] s = []
outcomes m tests_path (name ∷ names) s = elim (m.read s (test_path tests_path name)) [
  | none ↦ (name, none) ∷ outcomes m tests_path names s
  | some code ↦
      (name, some (m.interpret s code).0) ∷ outcomes m tests_path names (m.interpret s code).1
]

-- A run is skipped where the test asks for it, passes where it succeeds without that, and else it
-- fails, as does a file that cannot be read.
unfoldable pub skips : List TestEvent → Bool
skips [] = false
skips (mark_skip ∷ events) = true
skips (_ ∷ events) = skips events

-- The last message and the last line that were reported.
unfoldable pub last_message : Bytes → List TestEvent → Bytes
last_message msg [] = msg
last_message msg (compile_error (some m) ∷ events) = last_message m events
last_message msg (runtime_error (some m) ∷ events) = last_message m events
last_message msg (_ ∷ events) = last_message msg events

unfoldable pub last_line : ℕ → List TestEvent → ℕ
last_line line [] = line
last_line line (stack_trace n ∷ events) = last_line n events
last_line line (_ ∷ events) = last_line line events

pub data Verdict : Type 0 where
  passes is_skipped fails : Verdict

abbrev pub verdict : Option TestRun → Verdict
verdict none = fails
verdict (some r) = if skips r.events then is_skipped else if r.succeeds then passes else fails

abbrev pub message_of : Bytes → Bytes
message_of [] = codes "Test failed"
message_of (c ∷ msg) = take 255 (c ∷ msg)

abbrev pub failure_of : Bytes → Bytes → Option TestRun → TestFailure
failure_of tests_path name none = record {
  name = take 255 name;
  line = 0;
  msg = take 255 (codes "Cannot read test file: " ++ take 232 (test_path tests_path name));
}
failure_of tests_path name (some r) = record {
  name = take 255 name;
  line = last_line 0 r.events;
  msg = message_of (last_message [] r.events);
}

-- How many passed and were skipped, and the failures.
unfoldable pub tally_of : Bytes → List (Bytes × Option TestRun) → Tally
tally_of tests_path [] = record { passed = 0; skipped = 0; failures = [] }
tally_of tests_path ((name, r) ∷ more) =
    let t = tally_of tests_path more in
    elim (verdict r) [
      | passes ↦ record t { passed = t.passed + 1 }
      | is_skipped ↦ record t { skipped = t.skipped + 1 }
      | fails ↦ record t { failures = failure_of tests_path name r ∷ t.failures }
    ]

skips-capture :
    (events : List TestEvent) (c : Capture)
    → (capture_events events c).skip_requested ≡ (c.skip_requested || skips events)
unfolding capture_events skips
skips-capture [] c = ground arith
skips-capture (compile_error none ∷ events) c = skips-capture events c
skips-capture (compile_error (some m) ∷ events) c = skips-capture events _
skips-capture (runtime_error none ∷ events) c = skips-capture events c
skips-capture (runtime_error (some m) ∷ events) c = skips-capture events _
skips-capture (stack_trace n ∷ events) c = skips-capture events _
skips-capture (mark_skip ∷ events) c = skips-capture events _ ∙ ground arith

last_line-capture :
    (events : List TestEvent) (c : Capture)
    → (capture_events events c).fail_line ≡ last_line c.fail_line events
unfolding capture_events last_line
last_line-capture [] c = refl
last_line-capture (compile_error none ∷ events) c = last_line-capture events c
last_line-capture (compile_error (some m) ∷ events) c = last_line-capture events _
last_line-capture (runtime_error none ∷ events) c = last_line-capture events c
last_line-capture (runtime_error (some m) ∷ events) c = last_line-capture events _
last_line-capture (stack_trace n ∷ events) c = last_line-capture events _
last_line-capture (mark_skip ∷ events) c = last_line-capture events _

last_message-capture :
    (events : List TestEvent) (c : Capture) (msg : Bytes)
    → c.fail_msg ≡ clipped msg
    → (capture_events events c).fail_msg ≡ clipped (last_message msg events)
unfolding capture_events last_message
last_message-capture [] c msg h = h
last_message-capture (compile_error none ∷ events) c msg h = last_message-capture events c msg h
last_message-capture (compile_error (some m) ∷ events) c msg h =
    last_message-capture events _ m refl
last_message-capture (runtime_error none ∷ events) c msg h = last_message-capture events c msg h
last_message-capture (runtime_error (some m) ∷ events) c msg h =
    last_message-capture events _ m refl
last_message-capture (stack_trace n ∷ events) c msg h = last_message-capture events _ msg h
last_message-capture (mark_skip ∷ events) c msg h = last_message-capture events _ msg h

clipped-clipped : (msg : Bytes) → clipped (clipped msg) ≡ clipped msg
clipped-clipped msg = take_all 255 (clipped msg) (omega (arith, length-take 255 msg))

fail_text-message_of : (msg : Bytes) → clipped (fail_text (clipped (clipped msg))) ≡ message_of msg
fail_text-message_of [] = refl
fail_text-message_of (c ∷ msg) = clipped-clipped (clipped (c ∷ msg)) ∙ clipped-clipped (c ∷ msg)

-- What the code makes of a run, against its verdict.
abbrev Agrees : Bytes → Bytes → Option TestRun → TestResult → Type 0
Agrees tests_path name r result =
    ((result ≡ pass) × (verdict r ≡ passes))
    ⊎ (((result ≡ skip) × (verdict r ≡ is_skipped))
        ⊎ ((line : ℕ) × (msg : Bytes) × (result ≡ fail line msg)
            × (verdict r ≡ fails)
            × (record { name = take 255 name; line = line; msg = clipped msg }
                ≡ failure_of tests_path name r)))

test_result-Agrees :
    (tests_path name : Bytes) (r : TestRun) → Agrees tests_path name (some r) (test_result r)
test_result-Agrees tests_path name r =
    let asked = skips-capture r.events test_capture_begin in
    let line = last_line-capture r.events test_capture_begin in
    let msg = last_message-capture r.events test_capture_begin [] refl in
    elim (Bool-cases (skips r.events)) [
      | inl e ↦ inr (inl (rw (asked, e) refl, rw e refl))
      | inr e ↦ elim (Bool-cases r.succeeds) [
        | inl g ↦ inl (rw (asked, e, g) refl, rw (e, g) refl)
        | inr g ↦ inr (
            inr (
              last_line 0 r.events,
              clipped (fail_text (clipped (clipped (last_message [] r.events)))),
              rw (asked, e, g, line, msg) refl,
              rw (e, g) refl,
              ap (λ t. record { name = take 255 name; line = last_line 0 r.events; msg = t })
                  (clipped-clipped _ ∙ fail_text-message_of (last_message [] r.events)),
            ))
      ]
    ]

-- The counts behind those of a tally.
abbrev pub IsSum : Tally → Tally → Tally → Type 0
IsSum t more sum =
    (sum.passed ≡ t.passed + more.passed)
    × (sum.skipped ≡ t.skipped + more.skipped)
    × (sum.failures ≡ t.failures ++ more.failures)

module _ {S : Type 0} (m : Machine S) (tests_path : Bytes) where
  result_of :
      (name : Bytes) (s : S)
      → (r : Option TestRun) × (later : S) × ((names : List Bytes)
          → outcomes m tests_path (name ∷ names) s ≡ (name, r) ∷ outcomes m tests_path names later)
        × ((run_test_file m (test_path tests_path name) s).1 ≡ later)
        × Agrees tests_path name r (run_test_file m (test_path tests_path name) s).0
  unfolding outcomes run_test_file
  result_of name s =
      let unread = codes "Cannot read test file: " ++ take 232 (test_path tests_path name) in
      elim (Option-cases (m.read s (test_path tests_path name))) [
        | inl e ↦ (
          none,
          s,
          λ names. rw (e, outcomes) refl,
          rw (e, run_test_file) refl,
          rw (e, run_test_file)
              (inr (
                inr (
                  0,
                  clipped unread,
                  refl,
                  refl,
                  ap (λ t. record { name = take 255 name; line = 0; msg = t })
                      (clipped-clipped unread),
                ))),
        )
        | inr (code, e) ↦ (
          some (m.interpret s code).0,
          (m.interpret s code).1,
          λ names. rw (e, outcomes) refl,
          rw (e, run_test_file) refl,
          rw (e, run_test_file) (test_result-Agrees tests_path name (m.interpret s code).0),
        )
      ]

  run_files-IsSum :
      (names : List Bytes) (s : S) (t : Tally)
      → IsSum t
          (tally_of tests_path (outcomes m tests_path names s))
          (run_files m tests_path names s t)
  unfolding run_files outcomes tally_of
  run_files-IsSum [] s t = (omega arith, omega arith, sym (append-nil t.failures))
  run_files-IsSum (name ∷ names) s t =
      let (r, later, split, after, agrees) = result_of name s in
      elim agrees [
        | inl (e, v) ↦
            let (p, k, f) = run_files-IsSum names later (count name pass t) in
            rw (split names, e, after, v, run_files, tally_of) (omega (arith, p), k, f)
        | inr (inl (e, v)) ↦
            let (p, k, f) = run_files-IsSum names later (count name skip t) in
            rw (split names, e, after, v, run_files, tally_of) (p, omega (arith, k), f)
        | inr (inr (line, msg, e, v, same)) ↦
            let (p, k, f) = run_files-IsSum names later (count name (fail line msg) t) in
            rw (split names, e, after, v, run_files, tally_of, ← same)
              (p, k, f ∙ append_assoc t.failures _ _)
      ]

test_names-Selected : (entries : List Entry) → Selected entries (test_names entries)
unfolding test_names
test_names-Selected [] = nothing
test_names-Selected (e ∷ entries) = elim (Bool-cases (is_runnable e)) [
  | inl r ↦ rw r (test (is_runnable-IsTest e r) (test_names-Selected entries))
  | inr r ↦
      rw r (other (λ is. absurd (cc (IsTest-is_runnable e is, r))) (test_names-Selected entries))
]

-- What a run of the tests of a directory reports: the names of the tests, and what comes of them.
pub record Reported {S : Type 0} (m : Machine S) (s : S) (tests_path : Bytes) (entries : List Entry)
    (r : Report) : Type 0 where
  pub names : List Bytes
  pub selected : Selected entries names
  pub passed :
      r.tally.passed ≡ (tally_of tests_path (outcomes m tests_path (take 100 names) s)).passed
  pub skipped :
      r.tally.skipped ≡ (tally_of tests_path (outcomes m tests_path (take 100 names) s)).skipped
  pub failed :
      r.tally.failures ≡ (tally_of tests_path (outcomes m tests_path (take 100 names) s)).failures
  pub capped : r.capped ≡ length names - 100
  pub code : (r.code ≡ 0) ↔ (r.tally.failures ≡ [])

exit_code_iff : (t : Tally) → (exit_code t ≡ 0) ↔ (t.failures ≡ [])
exit_code_iff t = by_failures t.failures
  where
    by_failures : (fs : List TestFailure) → (exit_code (record t { failures = fs }) ≡ 0) ↔ (fs ≡ [])
    by_failures [] = (λ e. refl, λ e. refl)
    by_failures (f ∷ fs) = (λ e. absurd (ground arith), λ e. absurd (cons-ne-nil f fs e))

-- For any directory, any files and any interpreter, whose state each test leaves to the next: of the
-- entries that are test files, in their order, the first hundred are run. One passes where the run
-- succeeds and asks for no skip, is skipped where it asks for that, and fails else and where it cannot
-- be read, with the last message and the last line that were reported for it. The counts and the
-- failures are those of these files, the ones behind them are counted as not run, and the exit code
-- is 0 exactly where none failed.
pub bialet_run_tests-Reported :
    {S : Type 0} (m : Machine S) (s : S) (test_dir : Bytes) (entries : List Entry)
    → Reported m s
        (take 255 (test_dir ++ codes "/_tests"))
        entries
        (bialet_run_tests m s test_dir (some entries))
unfolding bialet_run_tests tally_of
bialet_run_tests-Reported m s test_dir entries =
    let path = take 255 (test_dir ++ codes "/_tests") in
    let (files, capped) = collect-Collected entries [] 0 (omega arith) in
    let ran = (collect entries ([], 0)).0 in
    let (p, k, f) = run_files-IsSum m path ran s no_tests in
    record {
      names = test_names entries;
      selected = test_names-Selected entries;
      passed =
          p ∙ (omega arith ∙ ap (λ names. (tally_of path (outcomes m path names s)).passed) files);
      skipped =
          k ∙ (omega arith ∙ ap (λ names. (tally_of path (outcomes m path names s)).skipped) files);
      failed = f ∙ ap (λ names. (tally_of path (outcomes m path names s)).failures) files;
      capped = capped ∙ omega arith;
      code = exit_code_iff (run_files m path ran s no_tests);
    }
