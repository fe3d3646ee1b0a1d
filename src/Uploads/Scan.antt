-- ===== src/Uploads/Scan.antt =====
-- The scan of a well-formed body against the list of its parts.
use bialet.Uploads.{form_boundary, upload_of, blank_line, crlf}
use bialet.Uploads.Parts.{
  read_part-part, next_cursor-encoded, read_part-end, read_part-end, IsPart, Part, encoded,
}
use bialet.Uploads.Save.{
  result_of, no_uploads, admit, scan_body, save_uploaded_files, upload_loop, Uploads, Database,
  returned_1,
}
use bialet.Prelude.{
  refl, zero, Option-cases, ap, ◌++◌, ◌++◌, suc, none, length-append, some, arith, All, ◌<◌, ◌≤◌,
  ◌≡◌, ◌∷◌, length, List, Bytes, ℕ, [], inl, inr,
}

-- The specification: the parts are visited in order up to the limit of files.
unfoldable pub visit_all : ℕ → Database → Uploads → List Part → Uploads
visit_all max insert s [] = s
visit_all max insert s (p ∷ more) = elim (admit max insert s (upload_of p.head p.content)) [
  | none ↦ s
  | some t ↦ visit_all max insert t more
]

parts_fit :
    (boundary tail : Bytes) (parts : List Part)
    → length parts ≤ length (encoded boundary tail parts)
unfolding encoded
parts_fit boundary tail [] = omega arith
parts_fit boundary tail (p ∷ more) =
    let rest = encoded boundary tail more in
    let e₁ =
      length-append boundary (crlf ++ (p.head ++ (blank_line ++ (p.content ++ (crlf ++ rest))))) in
    let e₂ = length-append p.head (blank_line ++ (p.content ++ (crlf ++ rest))) in
    omega (arith, e₁, e₂, length-append p.content (crlf ++ rest), parts_fit boundary tail more)

module _ (max : ℕ) (insert : Database) (boundary tail : Bytes) where
  upload_loop-visit_all :
      (parts : List Part) (fuel : ℕ) (s : Uploads)
      → length parts < fuel
      → All (IsPart boundary) parts
      → upload_loop fuel max insert boundary s (some (encoded boundary tail parts))
        ≡ some (visit_all max insert s parts)
  unfolding upload_loop visit_all
  upload_loop-visit_all parts zero s h g = absurd (omega arith)
  upload_loop-visit_all [] (suc fuel) s h g = rw (read_part-end boundary tail, upload_loop) refl
  upload_loop-visit_all (p ∷ more) (suc fuel) s h (g, gs) =
      rw (read_part-part boundary tail p more g, upload_loop)
        (elim (Option-cases (admit max insert s (upload_of p.head p.content))) [
          | inl e ↦ rw (e, visit_all) refl
          | inr (t, e) ↦ rw (e, visit_all) (upload_loop-visit_all more fuel t (omega (arith, h)) gs)
        ])

  -- A message whose header block announces the boundary, with a body of parts in this boundary:
  -- the call returns 1, and has handed over the files of the parts in order, each with the bytes of
  -- its part, up to the limits.
  pub save_uploaded_files-visit_all :
      (message : Bytes) (parts : List Part)
      → form_boundary message ≡ some (boundary, encoded boundary tail parts)
      → All (IsPart boundary) parts
      → save_uploaded_files max insert message ≡ returned_1 (visit_all max insert no_uploads parts)
  unfolding save_uploaded_files scan_body
  save_uploaded_files-visit_all message parts e g =
      rw (e, next_cursor-encoded boundary tail parts)
        (ap result_of (
          upload_loop-visit_all parts (suc (length (encoded boundary tail parts))) no_uploads
            (omega (arith, parts_fit boundary tail parts)) g))
