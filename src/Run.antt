-- ===== src/Run.antt =====
-- src/bialet_wren.c: `bialet_run`, one run of a script. What the interpreter answers to the calls of
-- the run is a parameter, and so is the row of a stored file.
pub mod Failures
use bialet.Server.Pages.{html_headers}
use bialet.World.{HttpMessage}
use bialet.Server.Response.{Response, strlen}
use bialet.ShowErrors.{ShowErrors, show_errors_clear, show_errors_page}
use bialet.Uploads.Save.{returned_1, Database, Result, save_uploaded_files}
use bialet.Prelude.{
  drop, peek, ◌&&◌, ◌||◌, not, length, if◌then◌else◌, ◌==◌, Bytes, Bool, Option, ℕ, none, some,
  true, false, [], ◌>>=◌,
}

-- `http_ok` and `http_error`.
abbrev pub http_ok : ℕ
http_ok = 200

abbrev pub http_error : ℕ
http_error = 500

abbrev pub bialet_file_char : ℕ
bialet_file_char = 26

-- Slot 0 behind the script: a string, an `HtmlNode` with what its `toString` gives, or a value of
-- another kind.
pub data Value : Type 0 where
  string_value : Bytes → Value
  html_node : Option Bytes → Value
  other_value : Value

-- A method of `Response`: the call fails, the slot has the wrong type, or the value.
pub data Answer {ℓ} (A : Type ℓ) : Type ℓ where
  failed wrong_type : Answer A
  answer : A → Answer A

-- The query for a stored file: not prepared, no row, or the bytes of the blob.
pub data StoredFile : Type 0 where
  not_prepared no_row : StoredFile
  found : Bytes → StoredFile

-- What the interpreter does in one run. A number of a status is what the cast to `int` makes of it.
pub record Script : Type 0 where
  -- `Request.init` on the message, the routes and the ids of the files: whether it succeeds.
  pub init_request : Bytes → Bytes → Bytes → Bool
  -- Whether the code succeeds, and the value it leaves.
  pub interpret : Bool
  pub value : Value
  pub out : Answer Bytes
  pub status : Answer ℕ
  pub headers : Answer Bytes
  -- `useErrorFallback()`; `false` where it fails or gives no Boolean.
  pub use_error_fallback : Bool
  -- The static variables of show_errors.c at the end, from those behind the clearing.
  pub reported : ShowErrors → ShowErrors

abbrev pub ok_response : Response
ok_response = record {
  status = http_ok;
  header = none;
  body = none;
  length_field = 0;
  body_owned = false;
  header_owned = false;
}

-- `filesIds` behind the call.
abbrev pub files_ids_of : Result → Bytes
files_ids_of (returned_1 s) = s.files_ids
files_ids_of _ = []

-- `error` in front of the user's code.
unfoldable pub init_error : ℕ → Database → Script → Option HttpMessage → Bool
init_error max insert script none = false
init_error max insert script (some hm) = not (
    script.init_request hm.message hm.routes
      (files_ids_of (save_uploaded_files max insert hm.message)))

abbrev pub with_body : Bytes → Response → Response
with_body body r = record r { body = some body; body_owned = true }

abbrev pub value_body : Value → Response → Response
value_body (string_value s) r = with_body s r
value_body (html_node (some s)) r = with_body s r
value_body _ r = r

-- The response and `error`.
abbrev pub Outcome : Type 0
Outcome = Response × Bool

abbrev pub file_body : StoredFile → Response → Outcome
file_body (found content) r =
    (record (with_body content r) { length_field = length content }, false)
file_body _ r = (r, true)

abbrev pub out_body : (Bytes → StoredFile) → Answer Bytes → Response → Outcome
out_body stored (answer body) r =
    if not (peek body == bialet_file_char)
    then (with_body body r, false)
    else file_body (stored (drop 1 body)) r
out_body stored _ r = (r, true)

-- `r.body == NULL || strlen(r.body) == 0`.
abbrev pub lacks_body : Option Bytes → Bool
lacks_body none = true
lacks_body (some b) = strlen b == 0

unfoldable pub take_body : (Bytes → StoredFile) → Script → Outcome
take_body stored script =
    let r = value_body script.value ok_response in
    if lacks_body r.body then out_body stored script.out r else (r, false)

-- The call sets `error` anew.
abbrev pub take_status : Answer ℕ → Outcome → Outcome
take_status (answer n) (r, error) = (record r { status = n }, false)
take_status _ (r, error) = (r, true)

abbrev pub take_headers : Option HttpMessage → Answer Bytes → Outcome → Outcome
take_headers none _ o = o
take_headers (some hm) (answer h) (r, error) =
    (record r { header = some h; header_owned = true }, false)
take_headers (some hm) _ (r, error) = (r, true)

abbrev pub has_error_page : ℕ → Bool
has_error_page n = n == 403 || n == 404 || n == 413 || n == 429 || n == 500

-- `custom_error` is a parameter here: the page for a status.
abbrev pub fall_back : (ℕ → Response) → Bool → Outcome → Outcome
fall_back custom asked (r, error) =
    if asked && has_error_page r.status then (custom r.status, error) else (r, error)

-- What follows code that succeeded.
unfoldable pub take_response :
    (ℕ → Response) → (Bytes → StoredFile) → Script → Option HttpMessage → Outcome
take_response custom stored script hm =
    fall_back custom script.use_error_fallback
      (take_headers hm script.headers (take_status script.status (take_body stored script)))

abbrev pub page_response : Bytes → Response
page_response page = record {
  status = http_error;
  header = some html_headers;
  body = some page;
  length_field = strlen page;
  body_owned = true;
  header_owned = false;
}

-- The answer of a run that failed.
unfoldable pub failure : (ℕ → Response) → ShowErrors → Option HttpMessage → Response
failure custom errors none = custom http_error
failure custom errors (some hm) =
    if errors.enabled
    then elim (show_errors_page errors) [
      | none ↦ custom http_error
      | some page ↦ page_response page
    ]
    else custom http_error

abbrev pub settle : (ℕ → Response) → ShowErrors → Option HttpMessage → Outcome → Response
settle custom errors hm (r, error) = if error then failure custom errors hm else r

abbrev pub without_header : Option HttpMessage → Response → Response
without_header none r = record r { header = none; header_owned = false }
without_header (some hm) r = r

unfoldable pub bialet_run :
    (ℕ → Response)
    → ℕ
    → Database
    → (Bytes → StoredFile)
    → ShowErrors
    → Script
    → Option HttpMessage
    → Response
bialet_run custom max insert stored errors script hm =
    let at_end = script.reported (show_errors_clear errors) in
    let runs = not (init_error max insert script hm) && script.interpret in
    without_header hm (
      settle custom at_end hm
        (if runs then take_response custom stored script hm else (ok_response, true)))
