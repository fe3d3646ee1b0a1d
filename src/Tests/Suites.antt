-- ===== src/Tests/Suites.antt =====
-- A directory of tests.
use bialet.TestRunner.Counts.{bialet_run_tests-Reported, Reported}
use bialet.TestRunner.{
  Machine, runtime_error, stack_trace, capture_events, run_files, collect, bialet_run_tests,
  is_test_file, run_test_file, Entry, is_runnable,
}
use bialet.Prelude.{
  ℕ, ltb, suc, ◌≡◌, str_eq, ◌++◌, codes, take, List, Bytes, some, true, false, refl, [], ◌∷◌,
}

abbrev file_named : Bytes → Entry
file_named name = record { name = name; is_directory = false }

abbrev listing : List Entry
listing =
    file_named (codes "_init.wren")
    ∷ (file_named (codes "a.wren")
        ∷ (record { name = codes "old.wren"; is_directory = true }
            ∷ (file_named (codes "b.wren") ∷ (file_named (codes "notes.txt") ∷ []))))

-- The database counts the tests; the first one fails, and the second succeeds because of it.
abbrev counting : Machine ℕ
counting = record {
  read = λ n path. some path;
  interpret = λ n code. (
    record {
      events = runtime_error (some (codes "expected 200")) ∷ (stack_trace 7 ∷ (stack_trace 3 ∷ []));
      succeeds = ltb 0 n;
    },
    suc n,
  );
}

bialet_run_tests-Reported_example :
    Reported counting 0
      (take 255 (codes "/srv" ++ codes "/_tests"))
      listing
      (bialet_run_tests counting 0 (codes "/srv") (some listing))
bialet_run_tests-Reported_example = bialet_run_tests-Reported counting 0 (codes "/srv") listing

one_fails : bialet_run_tests counting 0 (codes "/srv") (some listing) ≡ record {
  tally = record {
    passed = 1;
    skipped = 0;
    failures = record { name = codes "a.wren"; line = 3; msg = codes "expected 200" } ∷ [];
  };
  capped = 0;
  code = 1;
}
unfolding bialet_run_tests collect is_runnable is_test_file str_eq run_files run_test_file
    capture_events
one_fails = refl
