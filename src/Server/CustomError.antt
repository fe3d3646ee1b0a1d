-- ===== src/Server/CustomError.antt =====
-- src/server.c: `custom_error`, the page for an error status.
use bialet.Prelude.{
  ℕ, ◌-◌, Bool, true, false, Option, none, some, [], ◌++◌, ◌>>=◌, ◌==◌, if◌then◌else◌, Bytes, codes,
  length, take,
}
use bialet.Prelude.Decimal.{decimal}
use bialet.Server.Pages.{
  html_headers, not_found_page, forbidden_page, payload_too_large_page, too_many_requests_page,
  error_page,
}
use bialet.Server.Response.{Response, strlen}
use bialet.Server.Root.{resolve_within_root}
use bialet.Utils.Path.{path_size, realpath_n, open_file_no_follow}
use bialet.World.{World, FileKind, regular, directory}

-- The fields of `struct BialetConfig` that the server reads.
pub record Config : Type 0 where
  pub root_dir : Bytes
  pub full_root_dir : Bytes
  pub max_post_size : ℕ

-- `snprintf(path, PATH_SIZE, …)`.
abbrev pub printed : Bytes → Bytes
printed = take (path_size - 1)

unfoldable pub resolve : World → Config → Bytes → Option Bytes
resolve w cfg path = resolve_within_root cfg.full_root_dir (realpath_n w path path_size)

abbrev pub is_regular : Option FileKind → Bool
is_regular (some regular) = true
is_regular _ = false

abbrev pub is_directory : Option FileKind → Bool
is_directory (some directory) = true
is_directory _ = false

abbrev pub exists : Option FileKind → Bool
exists none = false
exists (some kind) = true

-- A body with no length gets its `strlen`.
abbrev pub with_length : Option Bytes → Response → Response
with_length none r = r
with_length (some b) r = if r.length_field == 0 then record r { length_field = strlen b } else r

abbrev pub with_header : Option Bytes → Response → Response
with_header none r = record r { header = some html_headers; header_owned = false }
with_header (some h) r = r

abbrev pub checked : Bool → Bytes → Option Bytes
checked true p = some p
checked false p = none

-- What the interpreter answers counts if it sets a status.
unfoldable pub wren_answer : Response → Option Response
wren_answer r =
    let answer = with_length r.body r in
    if answer.status == 0 then none else some (with_header answer.header answer)

unfoldable pub run_page : World → Bytes → Option Response
run_page w file = do
  source ← open_file_no_follow w file
  wren_answer (w.bialet_run file source none)

unfoldable pub run_resolved : World → Bytes → Option Response
run_resolved w resolved = do file ← checked (is_regular (w.stat resolved)) resolved; run_page w file

abbrev pub error_page_path : Config → ℕ → Bytes → Bytes
error_page_path cfg status suffix =
    printed (cfg.root_dir ++ (codes "/" ++ (decimal status ++ suffix)))

-- The answer of `{status}.wren`, if the file is there and sets a status.
unfoldable pub wren_error : World → Config → ℕ → Option Response
wren_error w cfg status = do
  resolved ← resolve w cfg (error_page_path cfg status (codes ".wren"))
  run_resolved w resolved

abbrev pub html_response : ℕ → Bytes → Response
html_response status content = record {
  status = status;
  header = some html_headers;
  body = some content;
  length_field = length content;
  body_owned = true;
  header_owned = false;
}

unfoldable pub read_page : World → ℕ → Bytes → Option Response
read_page w status file = do
  content ← open_file_no_follow w file
  some (html_response status content)

unfoldable pub read_resolved : World → ℕ → Bytes → Option Response
read_resolved w status resolved = do
  file ← checked (exists (w.stat resolved)) resolved
  read_page w status file

-- The content of `{status}.html`, if the file is there.
unfoldable pub html_error : World → Config → ℕ → Option Response
html_error w cfg status = do
  resolved ← resolve w cfg (error_page_path cfg status (codes ".html"))
  read_resolved w status resolved

unfoldable pub static_page : ℕ → Bytes
static_page status =
    if status == 404
    then not_found_page
    else if status == 403
    then forbidden_page
    else if status == 413
    then payload_too_large_page
    else if status == 429
    then too_many_requests_page
    else if status == 500
    then error_page
    else []

unfoldable pub static_error : ℕ → Response
static_error status = record {
  status = status;
  header = some html_headers;
  body = some (static_page status);
  length_field = length (static_page status);
  body_owned = false;
  header_owned = false;
}

abbrev pub or_else {ℓ} : {A : Type ℓ} → Option A → A → A
or_else none d = d
or_else (some a) d = a

-- `recursing` is `custom_error_recursing`. The response that the caller hands over is released
-- and overwritten, so the answer does not depend on it.
unfoldable pub custom_error : World → Config → Bool → ℕ → Response
custom_error w cfg recursing status =
    let from_wren = if recursing then none else wren_error w cfg status in
    or_else from_wren (or_else (html_error w cfg status) (static_error status))
