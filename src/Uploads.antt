-- ===== src/Uploads.antt =====
-- src/bialet_wren.c: `save_uploaded_files`, the files in a multipart/form-data body. A pointer into
-- the message is the text from there on. What SQLite answers to an insertion is a parameter.
pub mod Parts
pub mod Save
pub mod Scan
pub mod Shrinks
pub mod Limits
use bialet.Prelude.Decimal.{decimal}
use bialet.Server.ContentLength.{skip_blanks}
use mathlib.Core.Option
use bialet.Server.FindHeader.{ci_eq}
use bialet.Prelude.Search.{find}
use bialet.Prelude.{
  false, leb, ltb, true, List, zero, ◌||◌, peek, ◌==◌, ◌+◌, length, suc, take, [], none, Bool, some,
  ◌++◌, if◌then◌else◌, codes, drop, ◌∷◌, Bytes, Option, starts_with, ℕ, ◌>>=◌,
}

abbrev pub crlf : Bytes
crlf = 13 ∷ 10 ∷ []

abbrev pub blank_line : Bytes
blank_line = 13 ∷ 10 ∷ 13 ∷ 10 ∷ []

-- `mem_find_ci(s, len, needle, …) - s`.
unfoldable pub mem_find_ci : Bytes → Bytes → Option ℕ
unfolding ci_eq
mem_find_ci needle [] = none
mem_find_ci needle (c ∷ s) =
    let rest = mem_find_ci needle s in if ci_eq needle (c ∷ s) then some 0 else Option.map suc rest

abbrev pub is_delim : Bytes → ℕ → Bool
is_delim [] c = c == 0
is_delim (d ∷ delims) c = d == c || is_delim delims c

-- The bytes that `copy_until` writes in front of the NUL, `room` at most; `strchr` also finds a NUL.
unfoldable pub copy_until : ℕ → Bytes → Bytes → Bytes
copy_until zero delims src = []
copy_until (suc room) delims [] = []
copy_until (suc room) delims (c ∷ src) =
    let more = copy_until room delims src in if is_delim delims c then [] else c ∷ more

-- The value behind a name that is found, up to a delimiter, in a buffer of 256 bytes.
abbrev pub value_of : Bytes → Bytes → Bytes → Option Bytes
value_of name delims s = do
  k ← mem_find_ci name s
  some (copy_until 255 delims (drop (k + length name) s))

abbrev pub line_delims : Bytes
line_delims = 13 ∷ 10 ∷ b';' ∷ []

-- The value of the Content-Type field, in a header block.
unfoldable pub content_type_value : Bytes → Option Bytes
unfolding mem_find_ci skip_blanks
content_type_value head = do
  k ← mem_find_ci (codes "Content-Type:") head
  some (skip_blanks (drop (k + 13) head))

abbrev pub non_empty : Bytes → Option Bytes
non_empty [] = none
non_empty (c ∷ s) = some (c ∷ s)

-- The boundary and the body, or `none` where the function returns 0. The two buffers of the
-- delimiters hold every boundary of 255 bytes.
unfoldable pub form_boundary : Bytes → Option (Bytes × Bytes)
unfolding find content_type_value ci_eq mem_find_ci copy_until
form_boundary message = do
  head_len ← find blank_line message
  value ← content_type_value (take head_len message)
  form ← if ci_eq (codes "multipart/form-data") value then some value else none
  text ← value_of (codes "boundary=") line_delims form
  boundary ← non_empty text
  body ← non_empty (drop (head_len + 4) message)
  some (boundary, body)

abbrev pub start_boundary : Bytes → Bytes
start_boundary boundary = codes "--" ++ boundary

abbrev pub delimiter : Bytes → Bytes
delimiter boundary = crlf ++ start_boundary boundary

-- What is bound in the insertion.
pub record Upload : Type 0 where
  pub field_name : Bytes
  pub filename : Bytes
  pub content_type : Bytes
  pub file : Bytes

-- The upload of a part by its header block; `none` for a part that is skipped.
abbrev pub value_or : Option Bytes → Bytes → Bytes
value_or none d = d
value_or (some v) d = v

unfoldable pub upload_of : Bytes → Bytes → Option Upload
unfolding mem_find_ci copy_until content_type_value
upload_of head file = do
  cd ← mem_find_ci (codes "Content-Disposition:") head
  name ← value_of (codes "filename=\"") (b'"' ∷ []) (drop cd head)
  filename ← non_empty name
  some record {
    field_name = value_or (value_of (codes "name=\"") (b'"' ∷ []) (drop cd head)) [];
    filename = filename;
    content_type =
        value_or (Option.map (copy_until 255 line_delims) (content_type_value head))
          (codes "application/octet-stream");
    file = file;
  }

-- `cursor` behind a part: the next opening delimiter.
abbrev pub next_cursor : Bytes → Bytes → Option Bytes
next_cursor boundary resume = do k ← find (start_boundary boundary) resume; some (drop k resume)

-- The round's way out: `break`, or the part's upload, if any, and the new `cursor`.
pub data PartStep : Type 0 where
  stop : PartStep
  part : Option Upload → Option Bytes → PartStep

-- A part by its header block and what follows it.
pub part_at : Bytes → Bytes → Bytes → Option ℕ → PartStep
part_at boundary head behind none = part (upload_of head behind) none
part_at boundary head behind (some k) =
    part (upload_of head (take k behind)) (next_cursor boundary (drop (k + 2) behind))

pub part_from : Bytes → Bytes → Option ℕ → PartStep
unfolding find part_at
part_from boundary text none = stop
part_from boundary text (some k) =
    let behind = drop (k + 4) text in
    part_at boundary (take k text) behind (find (delimiter boundary) behind)

abbrev pub skip_byte : ℕ → Bytes → Bytes
skip_byte c s = if peek s == c then drop 1 s else s

-- A round at an opening delimiter.
unfoldable pub read_part : Bytes → Bytes → PartStep
unfolding starts_with find part_from
read_part boundary cursor =
    let behind = drop (length (start_boundary boundary)) cursor in
    let text = skip_byte 10 (skip_byte 13 behind) in
    if starts_with (codes "--") behind
    then stop
    else if length text == 0
    then stop
    else part_from boundary text (find blank_line text)
