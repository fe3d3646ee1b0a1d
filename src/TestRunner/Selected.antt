-- ===== src/TestRunner/Selected.antt =====
-- The entries of a directory that are test files.
use bialet.Modules.{extension}
use bialet.TestRunner.{Entry, is_test_file, is_runnable, test_init_file}
use bialet.Prelude.{
  ◌+◌, str_eq, str_eq_iff, take-append-drop, drop_append, length-append, length-take, Bool-cases,
  ltb, ◌≡◌, ◌≢◌, ◌<◌, ◌-◌, ◌∙◌, ◌++◌, ap, sym, arith, refl, codes, length, take, drop, Bytes, List,
  true, false, [], ◌∷◌, inl, inr,
}

-- A name with the extension behind something else, not that of the initial file, and no directory.
abbrev pub IsTest : Entry → Type 0
IsTest e =
    (stem : Bytes) × (0 < length stem)
    × (e.name ≡ stem ++ codes ".wren")
    × (e.name ≢ codes "_init.wren")
    × (e.is_directory ≡ false)

-- The names of the test files, in the order of the entries.
pub data Selected : List Entry → List Bytes → Type 0 where
  nothing : Selected [] []
  test :
      {e : Entry} {entries : List Entry} {names : List Bytes}
      → IsTest e
      → Selected entries names
      → Selected (e ∷ entries) (e.name ∷ names)
  other :
      {e : Entry} {entries : List Entry} {names : List Bytes}
      → ¬ IsTest e
      → Selected entries names
      → Selected (e ∷ entries) names

pub is_runnable-IsTest : (e : Entry) → is_runnable e ≡ true → IsTest e
unfolding is_runnable is_test_file
is_runnable-IsTest e h =
    let n = length e.name - 5 in
    let ends : str_eq (drop n e.name) extension ≡ true = ground arith in
    let named : str_eq e.name test_init_file ≡ false = ground arith in
    (
      take n e.name,
      ground (arith, length-take n e.name),
      sym (take-append-drop n e.name) ∙ ap (λ t. take n e.name ++ t) ((str_eq_iff _ _).0 ends),
      λ same. cc ((str_eq_iff e.name test_init_file).1 same, named),
      ground arith,
    )

pub IsTest-is_runnable : (e : Entry) → IsTest e → is_runnable e ≡ true
unfolding is_runnable is_test_file
IsTest-is_runnable e (stem, some_stem, name, other_name, file) =
    let size : length e.name ≡ length stem + 5 = ap length name ∙ length-append stem extension in
    let behind : drop (length e.name - 5) e.name ≡ extension =
      let cut : length e.name - 5 ≡ length stem = omega (arith, size) in
      rw cut (ap (drop (length stem)) name ∙ drop_append stem extension) in
    let ends : str_eq (drop (length e.name - 5) e.name) extension ≡ true =
      (str_eq_iff _ _).1 behind in
    let named : str_eq e.name test_init_file ≡ false =
      elim (Bool-cases (str_eq e.name test_init_file)) [
        | inl s ↦ absurd (other_name ((str_eq_iff e.name test_init_file).0 s))
        | inr s ↦ s
      ] in
    let long : ltb (length e.name) 6 ≡ false = ground (arith, size) in
    rw (long, ends, named, file) refl
