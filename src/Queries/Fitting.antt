-- ===== src/Queries/Fitting.antt =====
-- The results of a query whatever its allocations give.
use bialet.Server.Response.{strlen}
use bialet.Queries.Execute.{Collect, columns_loop}
use bialet.Queries.{
  fetch_column, fetch_text, new_row, Query, Cell, Column, Fetch, QueryType, Row, skip, fail, fetch,
  null, number, string, blob, integer_column, float_column, text_column, blob_column, null_blob,
  null_column, other_column,
}
use bialet.Prelude.{
  take, length-take, ◌++◌, length, arith, ◌⊎◌, ◌≡◌, ◌≤◌, All, Bytes, List, ℕ, Bool, Option, none,
  some, [], ◌∷◌, refl, inl, inr,
}

-- The size is that of the bytes, but 1, with the NUL, for a NULL of the table, and that of the blob
-- for one that SQLite had no memory for, whose bytes are missing.
abbrev pub RowFits : Row → Type 0
RowFits row =
    (row.size ≡ length row.value)
    ⊎ (((row.type ≡ null) × (row.value ≡ []) × (row.size ≡ 1))
        ⊎ ((row.type ≡ blob) × (row.value ≡ [])))

abbrev pub ResultFits : ℕ → List Row → Type 0
ResultFits most rows = All RowFits rows × (length rows ≤ most)

strlen-length : (s : Bytes) → strlen s ≤ length s
unfolding strlen
strlen-length [] = omega arith
strlen-length (c ∷ s) = ground (arith, strlen-length s)

text_fits : (v : Bytes) → strlen v ≡ length (take (strlen v) v)
text_fits v = omega (arith, length-take (strlen v) v, strlen-length v)

abbrev pub FetchFits : Option Bytes → Fetch → Type 0
FetchFits name f =
    (f ≡ skip)
    ⊎ ((f ≡ fail)
        ⊎ ((type : QueryType) × (value : Option Bytes) × (size : ℕ) × (f ≡ fetch type value size)
            × RowFits (new_row name value size type)))

fetch_text-FetchFits :
    (name : Option Bytes) (type : QueryType) (v : Option Bytes) → FetchFits name (fetch_text type v)
fetch_text-FetchFits name type none = inr (inl refl)
fetch_text-FetchFits name type (some v) =
    inr (inr (type, some v, strlen v, refl, inl (text_fits v)))

pub fetch_column-FetchFits : (name : Option Bytes) (c : Column) → FetchFits name (fetch_column c)
fetch_column-FetchFits name (integer_column v) = fetch_text-FetchFits name number v
fetch_column-FetchFits name (float_column v) = fetch_text-FetchFits name number v
fetch_column-FetchFits name (text_column v) = fetch_text-FetchFits name string v
fetch_column-FetchFits name (blob_column v) =
    inr (inr (blob, some v, length v, refl, inl (omega (arith, length-take (length v) v))))
fetch_column-FetchFits name null_column =
    inr (inr (null, none, 1, refl, inr (inl (refl, refl, refl))))
fetch_column-FetchFits name (null_blob n) = inr (inr (blob, none, n, refl, inr (inr (refl, refl))))
fetch_column-FetchFits name other_column = inl refl

-- The last result is being filled; it has at most `most` rows so far.
pub record Filling (done : List (List Row)) (most : ℕ) (q : Query) (row_count : ℕ) : Type 0 where
  pub rows : List Row
  pub is : q.results ≡ done ++ (rows ∷ [])
  pub counted : row_count ≡ length done
  pub fits : ResultFits most rows

abbrev pub After :
    Bool → List (Option Bytes) → ℕ → (ℕ → Cell) → Collect → List (List Row) → ℕ → Type 0
After b names i cell s done most =
    let after = columns_loop names i cell (record s { alloc_error = b }) in
    Filling done most after.query after.row_count

abbrev pub Between : ℕ → Query → ℕ → Type 0
Between most q row_count = All (ResultFits most) q.results × (row_count ≡ length q.results)
