-- ===== src/Uploads/Save.antt =====
-- The state of `save_uploaded_files` and its loop over the parts.
use bialet.Prelude.Decimal.{decimal}
use bialet.Uploads.{next_cursor, read_part, form_boundary, stop, part, Upload}
use bialet.Prelude.{
  leb, ltb, if◌then◌else◌, ◌+◌, Bool, length, ◌∷◌, ℕ, List, ◌++◌, Bytes, Option, zero, suc, none,
  some, true, false, [],
}

abbrev pub max_url_len : ℕ
max_url_len = 1024

abbrev pub max_upload_files : ℕ
max_upload_files = 100

-- What SQLite answers to an insertion: it cannot be prepared, the step fails, or the new row's id.
pub data Inserted : Type 0 where
  not_prepared not_stepped : Inserted
  row : ℕ → Inserted

-- `filesIds`, `firstFile` and `uploadedFiles`. `sent` has no counterpart in the source: it records
-- the insertions and their answers.
pub record Uploads : Type 0 where
  pub files_ids : Bytes
  pub first_file : Bool
  pub uploaded_files : ℕ
  pub sent : List (Upload × Inserted)

abbrev pub no_uploads : Uploads
no_uploads = record { files_ids = []; first_file = true; uploaded_files = 0; sent = [] }

-- The answer may depend on all insertions before.
abbrev pub Database : Type 0
Database = List (Upload × Inserted) → Upload → Inserted

-- An id is appended where the text keeps to its buffer.
unfoldable pub add_id : Uploads → Bytes → Uploads
add_id s id_str =
    let with_comma = if s.first_file then id_str else b',' ∷ id_str in
    if ltb (length s.files_ids + length with_comma) max_url_len
    then record s { files_ids = s.files_ids ++ with_comma; first_file = false }
    else s

-- The effect of an answer.
unfoldable pub answered : Uploads → Inserted → Uploads
unfolding add_id decimal
answered s not_prepared = s
answered s not_stepped = record s { uploaded_files = s.uploaded_files + 1 }
answered s (row id) =
    let t = add_id s (decimal id) in record t { uploaded_files = t.uploaded_files + 1 }

unfoldable pub save : Database → Uploads → Upload → Uploads
unfolding answered
save insert s u =
    let r = insert s.sent u in answered (record s { sent = s.sent ++ ((u, r) ∷ []) }) r

-- The rest of a round for a part; `none` for the `break` at the limit of files.
unfoldable pub admit : ℕ → Database → Uploads → Option Upload → Option Uploads
unfolding save
admit max insert s none = some s
admit max insert s (some u) =
    if ltb max (length u.file)
    then some s
    else if leb max_upload_files s.uploaded_files
    then none
    else some (save insert s u)

-- `while(cursor != NULL)`; `none` where the fuel is not enough.
unfoldable pub upload_loop : ℕ → ℕ → Database → Bytes → Uploads → Option Bytes → Option Uploads
upload_loop fuel max insert boundary s none = some s
upload_loop zero max insert boundary s (some cursor) = none
upload_loop (suc fuel) max insert boundary s (some cursor) = elim (read_part boundary cursor) [
  | stop ↦ some s
  | part u next ↦ elim (admit max insert s u) [
    | none ↦ some s
    | some t ↦ upload_loop fuel max insert boundary t next
  ]
]

pub data Result : Type 0 where
  returned_0 exhausted : Result
  returned_1 : Uploads → Result

abbrev pub result_of : Option Uploads → Result
result_of none = exhausted
result_of (some s) = returned_1 s

unfoldable pub scan_body : ℕ → Database → Option (Bytes × Bytes) → Result
unfolding upload_loop
scan_body max insert none = returned_0
scan_body max insert (some (boundary, body)) =
    result_of
      (upload_loop (suc (length body)) max insert boundary no_uploads (next_cursor boundary body))

-- The purge of old rows in front of `return 1`, at most one in a minute, is left out.
unfoldable pub save_uploaded_files : ℕ → Database → Bytes → Result
unfolding form_boundary scan_body
save_uploaded_files max insert message = scan_body max insert (form_boundary message)
