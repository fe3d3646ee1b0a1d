-- ===== src/Queries.antt =====
-- src/bialet_wren.c: the queries of a script. What SQLite answers is a parameter, and so is what the
-- allocations of the results give.
pub mod Execute
pub mod Steps
pub mod Reading
pub mod Collected
pub mod Fitting
pub mod Exhausted
use bialet.Prelude.Decimal.{decimal}
use bialet.Server.Response.{strlen}
use bialet.Utils.Trim.{is_space}
use bialet.Prelude.{
  ltb, ◌&&◌, ◌||◌, not, length, take, if◌then◌else◌, ◌==◌, Bytes, Bool, Option, ℕ, List, none, some,
  true, false, [], ◌∷◌, ◌++◌, suc, zero, ◌>>=◌,
}

abbrev pub max_columns : ℕ
max_columns = 100

-- `BialetQueryType`.
pub data QueryType : Type 0 where
  null number string blob boolean : QueryType

-- A value is `none` where the pointer is NULL.
pub record Parameter : Type 0 where
  pub value : Option Bytes
  pub type : QueryType

pub record Row : Type 0 where
  pub name : Bytes
  pub value : Bytes
  pub size : ℕ
  pub type : QueryType

-- `BialetQuery`; the counts are the lengths.
pub record Query : Type 0 where
  pub results : List (List Row)
  pub parameters : List Parameter
  pub query_string : Bytes
  pub last_insert_id : Option Bytes

abbrev pub create_bialet_query : Query
create_bialet_query = record {
  results = [];
  parameters = [];
  query_string = [];
  last_insert_id = none;
}

-- `grows`: whether `realloc` succeeds; `none` is -1.
unfoldable pub add_result : Bool → Query → Option Query
add_result grows q = if grows then some (record q { results = q.results ++ ([] ∷ []) }) else none

-- A row behind those of the result with this index.
abbrev pub append_at : ℕ → Row → List (List Row) → List (List Row)
append_at i row [] = []
append_at zero row (rows ∷ results) = (rows ++ (row ∷ [])) ∷ results
append_at (suc i) row (rows ∷ results) = rows ∷ append_at i row results

abbrev pub or_empty_text : Option Bytes → Bytes
or_empty_text none = []
or_empty_text (some s) = s

-- `memcpy` of `size` bytes, or a copy of `""`.
abbrev pub row_value : Option Bytes → ℕ → Bytes
row_value none size = []
row_value (some v) size = take size v

abbrev pub new_row : Option Bytes → Option Bytes → ℕ → QueryType → Row
new_row name value size type = record {
  name = or_empty_text name;
  value = row_value value size;
  size = size;
  type = type;
}

unfoldable pub add_result_row :
    Bool → Query → ℕ → Option Bytes → Option Bytes → ℕ → QueryType → Option Query
add_result_row grows q i name value size type =
    if ltb i (length q.results)
    then if grows
      then some (record q { results = append_at i (new_row name value size type) q.results })
      else none
    else none

-- `grows` and `copies`: whether `realloc` and `strdup` succeed.
unfoldable pub add_parameter : Bool → Bool → Query → Option Bytes → QueryType → Option Query
add_parameter copies grows q none type =
    if grows
    then some
        (record q { parameters = q.parameters ++ (record { value = none; type = type } ∷ []) })
    else none
add_parameter copies grows q (some value) type =
    if copies && grows
    then some (record q {
      parameters = q.parameters ++ (record { value = some value; type = type } ∷ []);
    })
    else none

-- The calls that bind the parameters, with what `atof` or `atoi` reads.
pub data Bound : Type 0 where
  bind_text bind_double bind_int : Option Bytes → Bound
  bind_null : Bound

abbrev pub bound : Parameter → Option Bound
bound p = elim p.type [
  | string ↦ some (bind_text p.value)
  | number ↦ some (bind_double p.value)
  | boolean ↦ some (bind_int p.value)
  | null ↦ some bind_null
  | blob ↦ none
]

-- `none` at the first parameter of another type.
unfoldable pub bind_parameters : List Parameter → Option (List Bound)
bind_parameters [] = some []
bind_parameters (p ∷ parameters) = do
  b ← bound p
  rest ← bind_parameters parameters
  some (b ∷ rest)

-- The type of a column and its bytes. A text is `none` where `sqlite3_column_text` gives NULL. A blob
-- has its bytes, and `sqlite3_column_bytes` gives their number; where `sqlite3_column_blob` gives
-- NULL, for an empty blob or without memory, that number stands alone.
pub data Column : Type 0 where
  integer_column float_column text_column : Option Bytes → Column
  blob_column : Bytes → Column
  null_blob : ℕ → Column
  null_column other_column : Column

-- A column of a row, and whether the row can be added.
pub record Cell : Type 0 where
  pub column : Column
  pub grows : Bool

-- An answer SQLITE_ROW: its cells by their index, and whether the result can be added.
pub record RowAnswer : Type 0 where
  pub grows : Bool
  pub cell : ℕ → Cell

-- A statement whose parameters are bound: the names of its columns, its rows, and whether
-- SQLITE_DONE or SQLITE_OK follows them. The number of the last row is a sign and a magnitude.
pub record Statement : Type 0 where
  pub names : List (Option Bytes)
  pub rows : List RowAnswer
  pub completes : Bool
  pub is_negative : Bool
  pub last_insert_rowid : ℕ

-- The calls of `message`.
pub data Report : Type 0 where
  query_error unknown_parameter unknown_column out_of_memory sql_error : Report

-- `sqlite_int_to_string`.
unfoldable pub sqlite_int_to_string : Bool → ℕ → Bytes
sqlite_int_to_string is_negative n = if is_negative then b'-' ∷ decimal n else decimal n

-- `type`, `value` and `size` for a column.
pub data Fetch : Type 0 where
  skip fail : Fetch
  fetch : QueryType → Option Bytes → ℕ → Fetch

abbrev pub fetch_text : QueryType → Option Bytes → Fetch
fetch_text type none = fail
fetch_text type (some v) = fetch type (some v) (strlen v)

abbrev pub fetch_column : Column → Fetch
fetch_column (integer_column v) = fetch_text number v
fetch_column (float_column v) = fetch_text number v
fetch_column (text_column v) = fetch_text string v
fetch_column (blob_column v) = fetch blob (some v) (length v)
fetch_column (null_blob n) = fetch blob none n
fetch_column null_column = fetch null none 1
fetch_column other_column = skip
