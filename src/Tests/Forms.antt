-- ===== src/Tests/Forms.antt =====
-- A multipart message with a field and a file, and part headers in another order.
use bialet.Prelude.Decimal.{dec_loop, decimal}
use bialet.Server.ContentLength.{skip_blanks}
use bialet.Uploads.Limits.{save_uploaded_files-Limited, Limited}
use bialet.Server.FindHeader.{ci_eq}
use bialet.Prelude.Search.{find}
use bialet.Uploads.{copy_until, mem_find_ci, content_type_value, upload_of, form_boundary}
use bialet.Uploads.Scan.{save_uploaded_files-visit_all, visit_all}
use bialet.Uploads.Parts.{IsPart, Part, encoded}
use bialet.Uploads.Save.{
  add_id, Uploads, answered, returned_0, no_uploads, save, admit, save_uploaded_files, Database,
  row, returned_1,
}
use bialet.Prelude.{
  refl, ◌⊎◌, All, length, suc, ◌++◌, starts_with, ◌≡◌, ◌∷◌, codes, List, Bytes, [], some,
}

abbrev boundary : Bytes
boundary = codes "xYz"

abbrev field : Part
field = record { head = codes "Content-Disposition: form-data; name=\"a\""; content = codes "1" }

abbrev picture : Part
picture = record {
  head =
      codes
        "Content-Disposition: form-data; name=\"f\"; filename=\"p.png\"\r\nContent-Type: image/png";
  content = 137 ∷ (0 ∷ (13 ∷ (10 ∷ (45 ∷ (45 ∷ (0 ∷ []))))));
}

abbrev form : List Part
form = field ∷ (picture ∷ [])

abbrev post_head : Bytes
post_head =
    codes "POST /u HTTP/1.1\r\nContent-Type: multipart/form-data; boundary=xYz\r\nHost: h\r\n\r\n"

abbrev counting : Database
counting sent u = row (suc (length sent))

post : Bytes
unfolding encoded
post = post_head ++ encoded boundary [] form

form_boundary-post : form_boundary post ≡ some (boundary, encoded boundary [] form)
unfolding post encoded form_boundary find starts_with content_type_value mem_find_ci ci_eq
    copy_until skip_blanks
form_boundary-post = refl

form-All : All (IsPart boundary) form
unfolding find starts_with
form-All = (
  record { head_ends = refl; content_ends = refl },
  (record { head_ends = refl; content_ends = refl }, tt),
)

save_uploaded_files-visit_all_example :
    save_uploaded_files 1000 counting post ≡ returned_1 (visit_all 1000 counting no_uploads form)
save_uploaded_files-visit_all_example =
    save_uploaded_files-visit_all 1000 counting boundary [] post form form_boundary-post form-All

visit_all-form :
    (visit_all 1000 counting no_uploads form).sent
    ≡ (
      record {
        field_name = codes "f";
        filename = codes "p.png";
        content_type = codes "image/png";
        file = picture.content;
      },
      row 1,
    )
      ∷ []
unfolding visit_all admit save answered add_id upload_of content_type_value mem_find_ci ci_eq
    copy_until skip_blanks decimal dec_loop
visit_all-form = refl

save_uploaded_files-Limited_example :
    (save_uploaded_files 1000 counting post ≡ returned_0)
    ⊎ ((s : Uploads) × (save_uploaded_files 1000 counting post ≡ returned_1 s) × Limited 1000 s)
save_uploaded_files-Limited_example = save_uploaded_files-Limited 1000 counting post

-- With the file name in front, the field's name is found inside `filename="`.
upload_of-reordered :
    upload_of (codes "Content-Disposition: form-data; filename=\"p.png\"; name=\"f\"") []
    ≡ some record {
      field_name = codes "p.png";
      filename = codes "p.png";
      content_type = codes "application/octet-stream";
      file = [];
    }
unfolding upload_of content_type_value mem_find_ci ci_eq copy_until
upload_of-reordered = refl

-- A boundary in quotation marks keeps them.
form_boundary-quoted :
    form_boundary (codes "POST\r\nContent-Type: multipart/form-data; boundary=\"b\"\r\n\r\n--b--")
    ≡ some (codes "\"b\"", codes "--b--")
unfolding form_boundary find starts_with content_type_value mem_find_ci ci_eq copy_until skip_blanks
form_boundary-quoted = refl
