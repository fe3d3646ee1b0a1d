-- ===== src/Queries/Reading.antt =====
-- What the rows of a statement hold.
use bialet.Queries.Execute.{}
use bialet.Server.Response.{strlen}
use bialet.Queries.{
  new_row, fetch_column, Cell, append_at, or_empty_text, QueryType, Report, Row, RowAnswer, Column,
  skip, fetch, unknown_column, null, number, string, blob, integer_column, float_column,
  text_column, blob_column, null_blob, null_column, other_column,
}
use bialet.Prelude.{
  ◌⊎◌, take_all, ap, ◌==◌, Bool-cases, arith, ◌++◌, take, ℕ, map, length, ◌≡◌, Bool, Bytes, List,
  Option, c_string, none, some, true, false, [], ◌∷◌, suc, refl, inl, inr,
}

-- The bytes of a column, how many of them count, and the type; nothing for a column of an unknown
-- type.
abbrev pub text_row : Option Bytes → QueryType → Bytes → List Row
text_row name type text =
    record { name = or_empty_text name; value = text; size = length text; type = type } ∷ []

abbrev pub column_row : Option Bytes → Column → List Row
column_row name (integer_column v) = text_row name number (c_string (or_empty_text v))
column_row name (float_column v) = text_row name number (c_string (or_empty_text v))
column_row name (text_column v) = text_row name string (c_string (or_empty_text v))
column_row name (blob_column v) = text_row name blob v
column_row name (null_blob n) = text_row name blob []
column_row name null_column =
    record { name = or_empty_text name; value = []; size = 1; type = null } ∷ []
column_row name other_column = []

abbrev pub read_row : List (Option Bytes) → ℕ → (ℕ → Cell) → List Row
read_row [] i cell = []
read_row (name ∷ names) i cell = column_row name (cell i).column ++ read_row names (suc i) cell

abbrev pub unknown_of : Column → List Report
unknown_of other_column = unknown_column ∷ []
unknown_of _ = []

abbrev pub unknown_columns : List (Option Bytes) → ℕ → (ℕ → Cell) → List Report
unknown_columns [] i cell = []
unknown_columns (name ∷ names) i cell =
    unknown_of (cell i).column ++ unknown_columns names (suc i) cell

abbrev pub read_rows : List (Option Bytes) → List RowAnswer → List (List Row)
read_rows columns rows = map (λ r. read_row columns 0 r.cell) rows

abbrev pub all_unknown : List (Option Bytes) → List RowAnswer → List Report
all_unknown columns [] = []
all_unknown columns (r ∷ rows) = unknown_columns columns 0 r.cell ++ all_unknown columns rows

abbrev pub is_readable : Column → Bool
is_readable (integer_column none) = false
is_readable (float_column none) = false
is_readable (text_column none) = false
is_readable (null_blob n) = n == 0
is_readable _ = true

-- Every allocation for the row succeeds, those of SQLite for its texts and blobs among them.
abbrev pub Works : RowAnswer → Type 0
Works r =
    (r.grows ≡ true)
    × ((i : ℕ) → ((r.cell i).grows ≡ true) × (is_readable (r.cell i).column ≡ true))

length-c_string : (s : Bytes) → length (c_string s) ≡ strlen s
unfolding c_string strlen
length-c_string [] = refl
length-c_string (c ∷ s) = ground (arith, length-c_string s)

take-strlen : (s : Bytes) → take (strlen s) s ≡ c_string s
unfolding c_string strlen
take-strlen [] = refl
take-strlen (c ∷ s) = elim (Bool-cases (c == 0)) [
  | inl e ↦ rw e refl
  | inr e ↦ rw e (ap (◌∷◌ c) (take-strlen s))
]

-- What the code fetches from a column, against what the row holds.
abbrev pub Fetched : Option Bytes → Column → Type 0
Fetched name c =
    ((fetch_column c ≡ skip) × (column_row name c ≡ []) × (unknown_of c ≡ unknown_column ∷ []))
    ⊎ ((type : QueryType) × (value : Option Bytes) × (size : ℕ) × (fetch_column c
          ≡ fetch type value size)
        × (column_row name c ≡ new_row name value size type ∷ [])
        × (unknown_of c ≡ []))

text-Fetched :
    (name : Option Bytes) (type : QueryType) (v : Bytes)
    → text_row name type (c_string v) ≡ new_row name (some v) (strlen v) type ∷ []
text-Fetched name type v = rw (take-strlen v, length-c_string v) refl

pub fetch_column-Fetched :
    (name : Option Bytes) (c : Column) → is_readable c ≡ true → Fetched name c
fetch_column-Fetched name (integer_column none) h = absurd cc
fetch_column-Fetched name (float_column none) h = absurd cc
fetch_column-Fetched name (text_column none) h = absurd cc
fetch_column-Fetched name (integer_column (some v)) h =
    inr (number, some v, strlen v, refl, text-Fetched name number v, refl)
fetch_column-Fetched name (float_column (some v)) h =
    inr (number, some v, strlen v, refl, text-Fetched name number v, refl)
fetch_column-Fetched name (text_column (some v)) h =
    inr (string, some v, strlen v, refl, text-Fetched name string v, refl)
fetch_column-Fetched name (blob_column v) h =
    inr (blob, some v, length v, refl, rw (take_all (length v) v (omega arith)) refl, refl)
fetch_column-Fetched name (null_blob n) h =
    let none_lost : n ≡ 0 = ground arith in inr (blob, none, n, refl, rw none_lost refl, refl)
fetch_column-Fetched name null_column h = inr (null, none, 1, refl, refl, refl)
fetch_column-Fetched name other_column h = inl (refl, refl, refl)

pub append_at-last :
    (done : List (List Row)) (rows : List Row) (row : Row)
    → append_at (length done) row (done ++ (rows ∷ [])) ≡ done ++ ((rows ++ (row ∷ [])) ∷ [])
append_at-last [] rows row = refl
append_at-last (d ∷ done) rows row = ap (◌∷◌ d) (append_at-last done rows row)
