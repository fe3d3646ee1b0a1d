-- ===== src/Queries/Exhausted.antt =====
-- The rows behind an allocation that failed.
use bialet.Queries.Collected.{inside, between, rows_loop-between}
use bialet.Queries.Reading.{read_rows, Works}
use mathlib.Core.Path.{subst}
use bialet.Queries.Steps.{columns_loop-failed, columns_loop-fail, columns_loop-skip}
use bialet.Queries.Fitting.{fetch_column-FetchFits}
use bialet.Queries.Execute.{
  start, is_blank_query, Sqlite, run_statement, query_execute, next_row, failing, Collect,
  columns_loop, rows_loop,
}
use bialet.Queries.{
  max_columns, bind_parameters, Statement, Bound, fail, Report, fetch_column, Query, Cell, Row,
  add_result, RowAnswer, unknown_column,
}
use bialet.Prelude.{
  take, some, false, Option-cases, append_assoc, ◌∙◌, ap, append-nil, sym, ◌++◌, ◌≡◌, map, ℕ, All,
  Bytes, Option, List, true, [], ◌∷◌, suc, refl, inl, inr,
}

-- One empty result for each row.
abbrev pub empty_results : List RowAnswer → List (List Row)
empty_results rows = map (λ r. []) rows

abbrev pub AllGrow : List RowAnswer → Type 0
AllGrow = All (λ r. r.grows ≡ true)

-- The loop over the columns of such a row adds nothing.
columns_loop-nothing :
    (names : List (Option Bytes)) (i : ℕ) (cell : ℕ → Cell) (s : Collect)
    → let after = columns_loop names i cell (failing s) in
      (after.query ≡ s.query) × (after.alloc_error ≡ true)
unfolding columns_loop
columns_loop-nothing [] i cell s = (refl, refl)
columns_loop-nothing (name ∷ names) i cell s = elim (fetch_column-FetchFits name (cell i).column) [
  | inl e ↦ rw (columns_loop-skip name names i cell (failing s) e) (
      columns_loop-nothing names (suc i) cell
        (record s { reports = s.reports ++ (unknown_column ∷ []) }))
  | inr (inl e) ↦ rw (columns_loop-fail name names i cell (failing s) e) (refl, refl)
  | inr (inr (type, value, size, e, fit)) ↦
      rw (columns_loop-failed name names i cell s type value size e) (refl, refl)
]

rows_loop-nothing :
    (columns : List (Option Bytes)) (rows : List RowAnswer) (s : Collect)
    → AllGrow rows
    → s.alloc_error ≡ true
    → (rows_loop columns rows s).0.query.results ≡ s.query.results ++ empty_results rows
unfolding rows_loop add_result
rows_loop-nothing columns [] s grow a = sym (append-nil s.query.results)
rows_loop-nothing columns (r ∷ rows) s (g, grow) a =
    let q = record s.query { results = s.query.results ++ ([] ∷ []) } in
    let failed : s ≡ failing s = ap (λ b. record s { alloc_error = b }) a in
    let after = columns_loop columns 0 r.cell (record s { query = q }) in
    let (same, still) =
      subst
        (λ b.
          let after = columns_loop columns 0 r.cell (record s { query = q; alloc_error = b }) in
          (after.query ≡ q) × (after.alloc_error ≡ true))
        (sym a) (columns_loop-nothing columns 0 r.cell (record s { query = q })) in
    rw (g, rows_loop, add_result)
      (rows_loop-nothing columns rows (next_row after) grow still
        ∙ (ap (λ q. q.results ++ empty_results rows) same
            ∙ append_assoc s.query.results ([] ∷ []) (empty_results rows)))

rows_loop-append :
    (columns : List (Option Bytes)) (good rest : List RowAnswer) (s after : Collect)
    → rows_loop columns good s ≡ (after, true)
    → rows_loop columns (good ++ rest) s ≡ rows_loop columns rest after
unfolding rows_loop
rows_loop-append columns [] rest s after h = ap (λ p. rows_loop columns rest p.0) h
rows_loop-append columns (r ∷ good) rest s after h =
    elim (Option-cases (add_result r.grows s.query)) [
      | inl e ↦ let stopped : false ≡ true = ap (λ p. p.1) (rw (e, rows_loop) at h) in absurd cc
      | inr (q, e) ↦
          rw (e, rows_loop) (rows_loop-append columns good rest _ after (rw (e, rows_loop) at h))
    ]

-- The text of the first column is NULL.
abbrev pub Unreadable : RowAnswer → Type 0
Unreadable r = (r.grows ≡ true) × (fetch_column (r.cell 0).column ≡ fail)

rows_loop-Unreadable :
    (q : Query) (name : Option Bytes) (names : List (Option Bytes)) (bad : RowAnswer)
    (rest : List RowAnswer) (done : List (List Row)) (reports : List Report)
    → Unreadable bad
    → AllGrow rest
    → (rows_loop (name ∷ names) (bad ∷ rest) (between q done reports)).0.query.results
      ≡ done ++ empty_results (bad ∷ rest)
unfolding rows_loop add_result
rows_loop-Unreadable q name names bad rest done reports (g, f) grow =
    let s = inside q done [] reports in
    rw (g, rows_loop, add_result)
      (rw (columns_loop-fail name names 0 bad.cell s f) (
        rows_loop-nothing (name ∷ names) rest (next_row (failing s)) grow refl
        ∙ append_assoc done ([] ∷ []) (empty_results rest)))

-- A query whose rows are good ones, then one whose first text cannot be allocated, and others
-- behind it: the memory that fails does not end the loop, and that row and every row behind it, for
-- whose results there is memory, are in the results with no columns.
pub query_execute-empty_results :
    (prepare : Sqlite) (q : Query) (statement : List Bound → Statement) (ps : List Bound)
    (name : Option Bytes) (names : List (Option Bytes)) (good : List RowAnswer) (bad : RowAnswer)
    (rest : List RowAnswer)
    → q.results ≡ []
    → is_blank_query q.query_string ≡ false
    → prepare q.query_string ≡ some statement
    → bind_parameters q.parameters ≡ some ps
    → (statement ps).names ≡ name ∷ names
    → (statement ps).rows ≡ good ++ (bad ∷ rest)
    → All Works good
    → Unreadable bad
    → AllGrow rest
    → (query_execute prepare q).0.results
      ≡ read_rows (take max_columns (name ∷ names)) good ++ empty_results (bad ∷ rest)
unfolding query_execute run_statement
query_execute-empty_results prepare q statement ps name names good bad rest fresh full prepared
      binds columns rows works unreadable grow =
    let first = take max_columns (name ∷ names) in
    let started = ap (λ r. start (record q { results = r })) fresh in
    let read = rows_loop-between q first good [] [] works in
    rw (full, prepared, binds, query_execute)
      (rw
        (columns, rows, started, rows_loop-append first good (bad ∷ rest) (between q [] []) _ read)
        (rows_loop-Unreadable q name (take 99 names) bad rest (read_rows first good) _ unreadable
          grow))
