-- ===== src/Queries/Collected.antt =====
-- Queries whose allocations succeed.
use bialet.Queries.Reading.{
  fetch_column-Fetched, unknown_columns, all_unknown, read_row, read_rows, is_readable,
  append_at-last, Works,
}
use bialet.Queries.Steps.{columns_loop-added, columns_loop-skip}
use bialet.Queries.Execute.{
  start, report_if, is_blank_query, Sqlite, run_statement, query_execute, next_row, rows_loop,
  columns_loop, Collect,
}
use bialet.Queries.{
  sql_error, sqlite_int_to_string, max_columns, bind_parameters, Statement, Bound, add_result,
  new_row, add_result_row, Cell, QueryType, Report, Row, RowAnswer, Query, unknown_column,
}
use bialet.Prelude.{
  not, All, ◌∙◌, append_assoc, sym, length-append, ltb, append-nil, ap, arith, ◌++◌, take, ℕ,
  length, ◌≡◌, Bytes, List, Option, some, true, false, [], ◌∷◌, suc, refl, inl, inr,
}

module _ (q : Query) where
  abbrev pub between : List (List Row) → List Report → Collect
  between done reports = record {
    query = record q { results = done };
    row_count = length done;
    alloc_error = false;
    reports = reports;
  }

  -- In the last of the results.
  abbrev pub inside : List (List Row) → List Row → List Report → Collect
  inside done rows reports = record {
    query = record q { results = done ++ (rows ∷ []) };
    row_count = length done;
    alloc_error = false;
    reports = reports;
  }

  add_result_row-inside :
      (done : List (List Row)) (rows : List Row) (name value : Option Bytes) (size : ℕ)
      (type : QueryType)
      → add_result_row true
          (record q { results = done ++ (rows ∷ []) })
          (length done)
          name
          value
          size
          type
        ≡ some (record q { results = done ++ ((rows ++ (new_row name value size type ∷ [])) ∷ []) })
  unfolding add_result_row
  add_result_row-inside done rows name value size type =
      let fits : ltb (length done) (length (done ++ (rows ∷ []))) ≡ true =
        ground (arith, length-append done (rows ∷ [])) in
      rw (fits, append_at-last done rows (new_row name value size type)) refl

  columns_loop-inside :
      (names : List (Option Bytes)) (i : ℕ) (cell : ℕ → Cell) (done : List (List Row))
      (rows : List Row) (reports : List Report)
      → ((i : ℕ) → ((cell i).grows ≡ true) × (is_readable (cell i).column ≡ true))
      → columns_loop names i cell (inside done rows reports)
        ≡ inside done (rows ++ read_row names i cell) (reports ++ unknown_columns names i cell)
  unfolding columns_loop
  columns_loop-inside [] i cell done rows reports works =
      rw (append-nil rows, append-nil reports) refl
  columns_loop-inside (name ∷ names) i cell done rows reports works =
      let (grows, readable) = works i in
      let s = inside done rows reports in
      elim (fetch_column-Fetched name (cell i).column readable) [
        | inl (e, row, unknown) ↦
            rw (columns_loop-skip name names i cell s e, row, unknown)
              (rw
                (sym
                  (append_assoc reports (unknown_column ∷ []) (unknown_columns names (suc i) cell)))
                (columns_loop-inside names (suc i) cell done rows _ works))
        | inr (type, value, size, e, row, unknown) ↦
            let new = new_row name value size type in
            let added =
              ap (λ g. add_result_row g s.query (length done) name value size type) grows
              ∙ add_result_row-inside done rows name value size type in
            rw (columns_loop-added name names i cell s type value size e _ added, row, unknown)
              (rw (sym (append_assoc rows (new ∷ []) (read_row names (suc i) cell)))
                (columns_loop-inside names (suc i) cell done _ reports works))
      ]

  next_row-inside :
      (done : List (List Row)) (rows : List Row) (reports : List Report)
      → next_row (inside done rows reports) ≡ between (done ++ (rows ∷ [])) reports
  next_row-inside done rows reports =
      let counted : suc (length done) ≡ length (done ++ (rows ∷ [])) =
        omega (arith, length-append done (rows ∷ [])) in
      ap (λ n. record (inside done rows reports) { row_count = n }) counted

  pub rows_loop-between :
      (columns : List (Option Bytes)) (rows : List RowAnswer) (done : List (List Row))
      (reports : List Report)
      → All Works rows
      → rows_loop columns rows (between done reports)
        ≡ (between (done ++ read_rows columns rows) (reports ++ all_unknown columns rows), true)
  unfolding rows_loop add_result
  rows_loop-between columns [] done reports works = rw (append-nil done, append-nil reports) refl
  rows_loop-between columns (r ∷ rows) done reports ((grows, cells), works) =
      let row = read_row columns 0 r.cell in
      let unknown = unknown_columns columns 0 r.cell in
      let step = columns_loop-inside columns 0 r.cell done [] reports cells in
      rw (grows, rows_loop, add_result)
        (rw
          (
            step,
            next_row-inside done row (reports ++ unknown),
            rows_loop-between columns rows (done ++ (row ∷ [])) (reports ++ unknown) works,
          )
          (rw
            (
              append_assoc done (row ∷ []) (read_rows columns rows),
              append_assoc reports unknown (all_unknown columns rows),
            )
            refl))

-- A query with no results yet whose text is not blank, that is prepared and whose parameters are
-- bound: where every allocation succeeds, its results are the rows of the statement in their order,
-- each with its first 100 columns. A text ends at its NUL, a blob has its bytes, and a column of an
-- unknown type is left out and reported; so is a statement that ends in an error.
pub query_execute-Works :
    (prepare : Sqlite) (q : Query) (statement : List Bound → Statement) (ps : List Bound)
    → q.results ≡ []
    → is_blank_query q.query_string ≡ false
    → prepare q.query_string ≡ some statement
    → bind_parameters q.parameters ≡ some ps
    → All Works (statement ps).rows
    → let t = statement ps in
      let columns = take max_columns t.names in
      query_execute prepare q ≡ (
        record q {
          results = read_rows columns t.rows;
          last_insert_id = some (sqlite_int_to_string t.is_negative t.last_insert_rowid);
        },
        report_if (not t.completes) sql_error (all_unknown columns t.rows),
      )
unfolding query_execute run_statement
query_execute-Works prepare q statement ps fresh full prepared binds works =
    let t = statement ps in
    let columns = take max_columns t.names in
    let started = ap (λ r. start (record q { results = r })) fresh in
    rw (full, prepared, binds, query_execute)
      (rw (started, rows_loop-between q columns t.rows [] [] works) refl)
