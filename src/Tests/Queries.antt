-- ===== src/Tests/Queries.antt =====
-- Queries and their rows.
use bialet.Queries.Exhausted.{query_execute-empty_results}
use bialet.Prelude.Decimal.{dec_loop, decimal}
use bialet.Queries.Collected.{query_execute-Works}
use bialet.Queries.Reading.{read_rows, is_readable, read_row, Works}
use bialet.Queries.Execute.{
  columns_loop, rows_loop, run_statement, Sqlite, query_execute, is_blank_query,
}
use bialet.Queries.{
  add_result_row, add_result, Cell, Row, Statement, sqlite_int_to_string, RowAnswer,
  bind_parameters, Query, string, number, null, bind_text, text_column, null_blob, blob,
  integer_column, null_column,
}
use bialet.Prelude.{
  ◌++◌, if◌then◌else◌, ◌≡◌, codes, ℕ, Bytes, c_string, str_eq, List, none, some, true, false, [],
  ◌∷◌, suc, zero, refl,
}

abbrev cell_of : Bytes → ℕ → Cell
cell_of name zero = record { column = integer_column (some (codes "7")); grows = true }
cell_of name (suc zero) = record { column = text_column (some name); grows = true }
cell_of name (suc (suc i)) = record { column = null_column; grows = true }

-- A row with an id and a name, whose NUL ends it.
abbrev good_row : RowAnswer
good_row = record { grows = true; cell = cell_of (codes "ann" ++ (0 ∷ codes "x")) }

abbrev bad_row : RowAnswer
bad_row = record { grows = true; cell = λ i. record { column = text_column none; grows = true } }

abbrev users : List RowAnswer → Statement
users rows = record {
  names = some (codes "id") ∷ (some (codes "name") ∷ (some (codes "email") ∷ []));
  rows = rows;
  completes = true;
  is_negative = false;
  last_insert_rowid = 12;
}

abbrev table : List RowAnswer → Sqlite
table rows sql = if str_eq sql (codes "SELECT") then some (λ ps. users rows) else none

abbrev select : Query
select = record {
  results = [];
  parameters = record { value = some (codes "a"); type = string } ∷ [];
  query_string = codes "SELECT";
  last_insert_id = none;
}

select-bound : bind_parameters select.parameters ≡ some (bind_text (some (codes "a")) ∷ [])
unfolding bind_parameters
select-bound = refl

select-full : is_blank_query select.query_string ≡ false
unfolding is_blank_query
select-full = refl

table-prepared : (rows : List RowAnswer) → table rows select.query_string ≡ some (λ ps. users rows)
unfolding str_eq
table-prepared rows = refl

good_row-Works : Works good_row
good_row-Works = (refl, cells)
  where
    cells :
        (i : ℕ) → ((good_row.cell i).grows ≡ true) × (is_readable (good_row.cell i).column ≡ true)
    cells zero = (refl, refl)
    cells (suc zero) = (refl, refl)
    cells (suc (suc i)) = (refl, refl)

abbrev user_row : List Row
user_row =
    record { name = codes "id"; value = codes "7"; size = 1; type = number }
    ∷ (record { name = codes "name"; value = codes "ann"; size = 3; type = string }
        ∷ (record { name = codes "email"; value = []; size = 1; type = null } ∷ []))

read_good_row : read_row (users []).names 0 good_row.cell ≡ user_row
unfolding c_string
read_good_row = refl

decimal-id : sqlite_int_to_string false 12 ≡ codes "12"
unfolding sqlite_int_to_string decimal dec_loop
decimal-id = refl

query_execute-Works_example : query_execute (table (good_row ∷ [])) select ≡ (
  record select {
    results = read_rows (users []).names (good_row ∷ []);
    last_insert_id = some (sqlite_int_to_string false 12);
  },
  [],
)
query_execute-Works_example =
    query_execute-Works (table (good_row ∷ [])) select (λ ps. users (good_row ∷ []))
      (bind_text (some (codes "a")) ∷ []) refl select-full (table-prepared (good_row ∷ []))
      select-bound (good_row-Works, tt)

query_execute-empty_results_test :
    (query_execute (table (good_row ∷ (bad_row ∷ (good_row ∷ [])))) select).0.results
    ≡ read_rows (users []).names (good_row ∷ []) ++ ([] ∷ ([] ∷ []))
query_execute-empty_results_test =
    query_execute-empty_results (table (good_row ∷ (bad_row ∷ (good_row ∷ [])))) select
      (λ ps. users (good_row ∷ (bad_row ∷ (good_row ∷ [])))) (bind_text (some (codes "a")) ∷ [])
      (some (codes "id")) (some (codes "name") ∷ (some (codes "email") ∷ [])) (good_row ∷ [])
      bad_row (good_row ∷ []) refl select-full (table-prepared _) select-bound refl refl
      (good_row-Works, tt) (refl, refl) (refl, tt)

-- A blob of three bytes that SQLite has no memory for: the size is not that of the empty text.
abbrev lost_row : RowAnswer
lost_row = record { grows = true; cell = λ i. record { column = null_blob 3; grows = true } }

lost_blob :
    (query_execute
      (λ sql. some (λ ps. record (users (lost_row ∷ [])) { names = some (codes "f") ∷ [] }))
      select).0.results
    ≡ (record { name = codes "f"; value = []; size = 3; type = blob } ∷ []) ∷ []
unfolding query_execute run_statement rows_loop columns_loop add_result add_result_row
    bind_parameters is_blank_query
lost_blob = refl
