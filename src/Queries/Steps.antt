-- ===== src/Queries/Steps.antt =====
-- One round of the loop over the columns.
use bialet.Queries.Execute.{failing, columns_loop, Collect}
use bialet.Queries.{
  Query, add_result_row, fetch_column, QueryType, Cell, skip, fail, fetch, unknown_column,
}
use bialet.Prelude.{◌++◌, ◌≡◌, ℕ, List, Bytes, Option, none, some, false, [], ◌∷◌, suc, refl}

-- With every allocation so far.
abbrev pub working : Collect → Collect
working s = record s { alloc_error = false }

module _ (name : Option Bytes) (names : List (Option Bytes)) (i : ℕ) (cell : ℕ → Cell)
    (s : Collect) where
  pub columns_loop-skip :
      fetch_column (cell i).column ≡ skip
      → columns_loop (name ∷ names) i cell s
        ≡ columns_loop names
            (suc i)
            cell
            (record s { reports = s.reports ++ (unknown_column ∷ []) })
  unfolding columns_loop
  columns_loop-skip e = rw (e, columns_loop) refl

  pub columns_loop-fail :
      fetch_column (cell i).column ≡ fail → columns_loop (name ∷ names) i cell s ≡ failing s
  unfolding columns_loop
  columns_loop-fail e = rw (e, columns_loop) refl

  module _ (type : QueryType) (value : Option Bytes) (size : ℕ)
      (e : fetch_column (cell i).column ≡ fetch type value size) where
    pub columns_loop-failed : columns_loop (name ∷ names) i cell (failing s) ≡ failing s
    unfolding columns_loop
    columns_loop-failed = rw (e, columns_loop) refl

    pub columns_loop-refused :
        add_result_row (cell i).grows s.query s.row_count name value size type ≡ none
        → columns_loop (name ∷ names) i cell (working s) ≡ failing s
    unfolding columns_loop
    columns_loop-refused r = rw (e, columns_loop) (rw r refl)

    pub columns_loop-added :
        (q : Query)
        → add_result_row (cell i).grows s.query s.row_count name value size type ≡ some q
        → columns_loop (name ∷ names) i cell (working s)
          ≡ columns_loop names (suc i) cell (working (record s { query = q }))
    unfolding columns_loop
    columns_loop-added q r = rw (e, columns_loop) (rw r refl)
