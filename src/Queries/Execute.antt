-- ===== src/Queries/Execute.antt =====
-- `query_execute`.
use bialet.Utils.Trim.{is_space}
use bialet.Queries.{
  add_result_row, add_result, fetch_column, bind_parameters, Cell, max_columns, Bound, RowAnswer,
  Report, sqlite_int_to_string, Statement, Query, skip, fail, fetch, query_error, unknown_parameter,
  unknown_column, out_of_memory, sql_error,
}
use bialet.Prelude.{
  not, ◌++◌, Option, ◌&&◌, if◌then◌else◌, ℕ, take, List, Bytes, Bool, none, some, true, false, [],
  ◌∷◌, suc,
}

-- The query, `rowCount`, `alloc_error` and the messages.
pub record Collect : Type 0 where
  pub query : Query
  pub row_count : ℕ
  pub alloc_error : Bool
  pub reports : List Report

abbrev pub failing : Collect → Collect
failing s = record s { alloc_error = true }

-- The loop over the columns, from index `i` on.
unfoldable pub columns_loop : List (Option Bytes) → ℕ → (ℕ → Cell) → Collect → Collect
columns_loop [] i cell s = s
columns_loop (name ∷ names) i cell s = elim (fetch_column (cell i).column) [
  | skip ↦
      columns_loop names (suc i) cell (record s { reports = s.reports ++ (unknown_column ∷ []) })
  | fail ↦ failing s
  | fetch type value size ↦
      if s.alloc_error
      then s
      else elim (add_result_row (cell i).grows s.query s.row_count name value size type) [
        | none ↦ failing s
        | some q ↦ columns_loop names (suc i) cell (record s { query = q })
      ]
]

abbrev pub next_row : Collect → Collect
next_row s = record s { row_count = suc s.row_count }

-- The loop over the rows, and whether it ends with a code other than SQLITE_ROW.
unfoldable pub rows_loop : List (Option Bytes) → List RowAnswer → Collect → Collect × Bool
rows_loop columns [] s = (s, true)
rows_loop columns (r ∷ rows) s = elim (add_result r.grows s.query) [
  | none ↦ (failing s, false)
  | some q ↦
      rows_loop columns rows (next_row (columns_loop columns 0 r.cell (record s { query = q })))
]

abbrev pub report_if : Bool → Report → List Report → List Report
report_if b report reports = if b then reports ++ (report ∷ []) else reports

abbrev pub start : Query → Collect
start q = record { query = q; row_count = 0; alloc_error = false; reports = [] }

-- The query afterwards and the messages.
abbrev pub Executed : Type 0
Executed = Query × List Report

abbrev pub finish : Statement → Collect × Bool → Executed
finish t (s, ended) = (
  record s.query { last_insert_id = some (sqlite_int_to_string t.is_negative t.last_insert_rowid) },
  report_if (not (ended && t.completes)) sql_error
      (report_if s.alloc_error out_of_memory s.reports),
)

unfoldable pub run_statement : Statement → Query → Executed
run_statement t q = finish t (rows_loop (take max_columns t.names) t.rows (start q))

-- `isEmpty`.
unfoldable pub is_blank_query : Bytes → Bool
is_blank_query [] = true
is_blank_query (c ∷ s) = is_space c && is_blank_query s

-- `sqlite3_prepare_v2`, and the statement for the bound parameters.
abbrev pub Sqlite : Type 0
Sqlite = Bytes → Option (List Bound → Statement)

unfoldable pub query_execute : Sqlite → Query → Executed
query_execute prepare q =
    if is_blank_query q.query_string then (q, []) else elim (prepare q.query_string) [
      | none ↦ (q, query_error ∷ [])
      | some statement ↦ elim (bind_parameters q.parameters) [
        | none ↦ (q, unknown_parameter ∷ [])
        | some parameters ↦ run_statement (statement parameters) q
      ]
    ]
