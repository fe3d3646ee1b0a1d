-- ===== src/Uploads/Limits.antt =====
-- The scan of any message: it ends, and keeps to the limits.
use bialet.Uploads.Shrinks.{next_cursor-Shrinks, read_part-Shrinks, Shrinks}
use mathlib.Core.Path.{subst}
use bialet.Prelude.Decimal.{decimal}
use bialet.Uploads.Save.{
  result_of, no_uploads, upload_loop, max_upload_files, save, max_url_len, scan_body, Uploads,
  save_uploaded_files, admit, Database, add_id, Inserted, answered, row, not_prepared, not_stepped,
  returned_0, returned_1,
}
use bialet.Uploads.{next_cursor, form_boundary, read_part, PartStep, Upload, stop, part}
use bialet.Prelude.{
  zero, ap, ◌⊎◌, length-append, ◌∙◌, ltb→lt, if◌then◌else◌, leb, ltb, some_inj, All-append, refl,
  none, some, suc, none, All, ◌≡◌, Option-cases, arith, suc, Bool-cases, ◌+◌, ◌∷◌, some, ◌++◌, ◌<◌,
  ◌≤◌, Option, length, List, Bytes, ℕ, [], inl, inr,
}

-- The rows that were inserted.
abbrev pub rows : List (Upload × Inserted) → ℕ
rows [] = 0
rows ((u, row id) ∷ more) = suc (rows more)
rows ((u, r) ∷ more) = rows more

abbrev is_row : Inserted → ℕ
is_row (row id) = 1
is_row r = 0

rows-append :
    (a : List (Upload × Inserted)) (u : Upload) (r : Inserted)
    → rows (a ++ ((u, r) ∷ [])) ≡ rows a + is_row r
rows-append [] u (row id) = omega arith
rows-append [] u not_prepared = omega arith
rows-append [] u not_stepped = omega arith
rows-append ((v, row id) ∷ a) u r = omega (arith, rows-append a u r)
rows-append ((v, not_prepared) ∷ a) u r = rows-append a u r
rows-append ((v, not_stepped) ∷ a) u r = rows-append a u r

abbrev pub Small : ℕ → Upload × Inserted → Type 0
Small max (u, r) = length u.file ≤ max

-- What holds between two rounds.
pub record Limited (max : ℕ) (s : Uploads) : Type 0 where
  pub ids_fit : length s.files_ids < max_url_len
  pub few : s.uploaded_files ≤ max_upload_files
  pub all_counted : rows s.sent ≤ s.uploaded_files
  pub small : All (Small max) s.sent

-- Appending an id changes only the text of the ids and the flag.
record Keeps (s t : Uploads) : Type 0 where
  ids : length t.files_ids < max_url_len
  count : t.uploaded_files ≡ s.uploaded_files
  sent_is : t.sent ≡ s.sent

add_id-Keeps :
    (s : Uploads) (id_str : Bytes) → length s.files_ids < max_url_len → Keeps s (add_id s id_str)
unfolding add_id
add_id-Keeps s id_str h =
    let with_comma = if s.first_file then id_str else b',' ∷ id_str in
    elim (Bool-cases (ltb (length s.files_ids + length with_comma) max_url_len)) [
      | inl e ↦
          let fits = ltb→lt _ _ e in
          rw e record {
            ids = omega (arith, length-append s.files_ids with_comma, fits);
            count = refl;
            sent_is = refl;
          }
      | inr e ↦ rw e record { ids = h; count = refl; sent_is = refl }
    ]

answered-Limited :
    (max : ℕ) (s : Uploads) (u : Upload) (r : Inserted)
    → Limited max s
    → s.uploaded_files < max_upload_files
    → length u.file ≤ max
    → Limited max (answered (record s { sent = s.sent ++ ((u, r) ∷ []) }) r)
unfolding answered
answered-Limited max s u not_prepared l h f = record {
  ids_fit = l.ids_fit;
  few = l.few;
  all_counted = omega (arith, rows-append s.sent u not_prepared, l.all_counted);
  small = All-append (Small max) s.sent ((u, not_prepared) ∷ []) l.small (f, tt);
}
answered-Limited max s u not_stepped l h f = record {
  ids_fit = l.ids_fit;
  few = omega (arith, h);
  all_counted = omega (arith, rows-append s.sent u not_stepped, l.all_counted);
  small = All-append (Small max) s.sent ((u, not_stepped) ∷ []) l.small (f, tt);
}
answered-Limited max s u (row id) l h f =
    let sent = s.sent ++ ((u, row id) ∷ []) in
    let k = add_id-Keeps (record s { sent = sent }) (decimal id) l.ids_fit in
    record {
      ids_fit = k.ids;
      few = omega (arith, h, k.count);
      all_counted =
          rw k.sent_is (omega (arith, rows-append s.sent u (row id), l.all_counted, k.count));
      small = rw k.sent_is (All-append (Small max) s.sent ((u, row id) ∷ []) l.small (f, tt));
    }

admit-Limited :
    (max : ℕ) (insert : Database) (s t : Uploads) (o : Option Upload)
    → Limited max s
    → admit max insert s o ≡ some t
    → Limited max t
unfolding admit save
admit-Limited max insert s t none l e = subst (Limited max) (some_inj e) l
admit-Limited max insert s t (some u) l e = elim (Bool-cases (ltb max (length u.file))) [
  | inl b ↦ subst (Limited max) (some_inj (rw b at e)) l
  | inr b ↦ elim (Bool-cases (leb max_upload_files s.uploaded_files)) [
    | inl c ↦ absurd (ground arith)
    | inr c ↦
        let saved : save insert s u ≡ t = some_inj (rw (b, c) at e) in
        subst (Limited max) saved
          (answered-Limited max s u (insert s.sent u) l (ground arith) (ground arith))
  ]
]

module _ (max : ℕ) (insert : Database) (boundary : Bytes) where
  -- A loop with fuel for every byte of the rest ends within the limits.
  Ends : Option Uploads → Type 0
  Ends r = (t : Uploads) × (r ≡ some t) × Limited max t

  Loops : ℕ → Type 0
  Loops fuel =
      (s : Uploads) (cursor : Option Bytes)
      → Shrinks fuel (part none cursor)
      → Limited max s
      → Ends (upload_loop fuel max insert boundary s cursor)

  -- A round, given that the rest of the loop ends.
  round-Ends :
      (fuel : ℕ) (s : Uploads) (cursor : Bytes) (step : PartStep)
      → Loops fuel
      → read_part boundary cursor ≡ step
      → Shrinks fuel step
      → Limited max s
      → Ends (upload_loop (suc fuel) max insert boundary s (some cursor))
  unfolding Ends upload_loop Loops Shrinks
  round-Ends fuel s cursor stop rec e h l = (s, rw (e, upload_loop) refl, l)
  round-Ends fuel s cursor (part u next) rec e h l = elim (Option-cases (admit max insert s u)) [
    | inl a ↦ (s, rw (e, a, upload_loop) refl, l)
    | inr (t, a) ↦
        let (r, f, g) = rec t next (same_cursor next h) (admit-Limited max insert s t u l a) in
        let round : upload_loop (suc fuel) max insert boundary s (some cursor)
            ≡ upload_loop fuel max insert boundary t next =
          rw (e, a, upload_loop) refl in
        (r, round ∙ f, g)
  ]
    where
      same_cursor :
          (next : Option Bytes) → Shrinks fuel (part u next) → Shrinks fuel (part none next)
      same_cursor none h = h
      same_cursor (some c) h = h

  Shrinks-mono : (m n : ℕ) (step : PartStep) → m ≤ n → Shrinks m step → Shrinks n step
  unfolding Shrinks
  Shrinks-mono m n stop h s = tt
  Shrinks-mono m n (part u none) h s = tt
  Shrinks-mono m n (part u (some c)) h s = omega (arith, h, s)

  upload_loop-Ends : (fuel : ℕ) → Loops fuel
  unfolding Loops Ends upload_loop Shrinks
  upload_loop-Ends fuel s none h l = (s, refl, l)
  upload_loop-Ends zero s (some c) h l = absurd (omega (arith, h))
  upload_loop-Ends (suc fuel) s (some c) h l =
      round-Ends fuel s c (read_part boundary c) (upload_loop-Ends fuel) refl
        (Shrinks-mono (length c) fuel (read_part boundary c) (omega (arith, h))
          (read_part-Shrinks boundary c))
        l

-- For every message the call returns: 0, or 1 with less than 1024 bytes of ids, at most 100 parts
-- counted, no more rows inserted than counted, and no file above the limit handed over.
pub save_uploaded_files-Limited :
    (max : ℕ) (insert : Database) (message : Bytes)
    → (save_uploaded_files max insert message ≡ returned_0)
      ⊎ ((s : Uploads) × (save_uploaded_files max insert message ≡ returned_1 s) × Limited max s)
unfolding save_uploaded_files scan_body Loops Ends
save_uploaded_files-Limited max insert message = elim (Option-cases (form_boundary message)) [
  | inl e ↦ inl (rw e refl)
  | inr ((boundary, body), e) ↦
      let first = next_cursor-Shrinks boundary body none (suc (length body)) (omega arith) in
      let start : Limited max no_uploads = record {
        ids_fit = omega arith;
        few = omega arith;
        all_counted = omega arith;
        small = tt;
      } in
      let (s, f, l) =
        upload_loop-Ends max insert boundary (suc (length body)) no_uploads
          (next_cursor boundary body) first start in
      inr (s, rw e (ap result_of f), l)
]
