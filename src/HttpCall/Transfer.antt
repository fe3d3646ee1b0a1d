-- ===== src/HttpCall/Transfer.antt =====
-- src/http_call.c: the client's build with libcurl: `write_callback`, `header_callback` and
-- `http_call_perform`. What libcurl does is a parameter.
pub mod Complete
use bialet.HttpCall.Request.{HttpRequest, or_text}
use bialet.Prelude.{
  c_string, ltb, not, length, take, codes, ◌++◌, ◌+◌, ◌*◌, ◌%◌, ◌^◌, ◌==◌, if◌then◌else◌, ◌∷◌, Bool,
  true, false, Option, Bytes, List, ℕ, [], none, some,
}

abbrev pub max_http_response_size : ℕ
max_http_response_size = 50 * 1024 * 1024

-- `struct memory`.
pub record Memory : Type 0 where
  pub response : Option Bytes
  pub size : ℕ
  pub max_size : ℕ

-- `realloc` has memory if `grows`. What it returns, and the chunk behind the call.
unfoldable pub write_callback : Bool → Bytes → ℕ → ℕ → Memory → ℕ × Memory
write_callback grows buffer size nmemb mem =
    let realsize = size * nmemb % 2 ^ 64 in
    let total = (mem.size + realsize) % 2 ^ 64 in
    if ltb mem.max_size total then (0, mem) else if not grows then (0, mem) else (
      realsize,
      record mem {
        response = some (take mem.size (or_text mem.response []) ++ take realsize buffer);
        size = total;
      },
    )

unfoldable pub header_callback : Bool → Bytes → ℕ → ℕ → Memory → ℕ × Memory
header_callback grows buffer size nitems mem =
    let realsize = nitems * size % 2 ^ 64 in
    let total = (mem.size + realsize) % 2 ^ 64 in
    if ltb mem.max_size total then (0, mem) else if not grows then (0, mem) else (
      realsize,
      record mem {
        response = some (take mem.size (or_text mem.response []) ++ take realsize buffer);
        size = total;
      },
    )

-- The options that the request decides, and those that are always the same, less the ones whose
-- value is a constant of libcurl: HTTP/2 over TLS, basic authentication, and IPv4.
pub record Options : Type 0 where
  pub url : Bytes
  pub custom_request : Bytes
  pub http_header : List Bytes
  pub user_pwd : Option Bytes
  pub post_fields : Option Bytes
  pub timeout_ms : ℕ
  pub connect_timeout_ms : ℕ
  pub protocols : Bytes
  pub redir_protocols : Bytes
  pub ssl_verify_peer : ℕ
  pub ssl_verify_host : ℕ
  pub accept_encoding : Bytes
  pub follow_location : ℕ
  pub autoreferer : ℕ
  pub max_redirs : ℕ
  pub max_file_size : ℕ

pub flush : Bytes → List Bytes → List Bytes
flush [] lines = lines
flush (c ∷ line) lines = (c ∷ line) ∷ lines

-- The tokens of `strtok_r(header_string, "\n", &saveptr)`, the one that is begun first.
unfoldable pub tokens : Bytes → Bytes → List Bytes
unfolding flush
tokens begun [] = flush begun []
tokens begun (c ∷ s) = elim (c == b'\n') [
  | true ↦ flush begun (tokens [] s)
  | false ↦ tokens (begun ++ (c ∷ [])) s
]

abbrev pub unless_empty : Bytes → Option Bytes
unless_empty [] = none
unless_empty (c ∷ s) = some (c ∷ s)

-- A number that is not positive is 0.
abbrev pub or_milliseconds : ℕ → ℕ → ℕ
or_milliseconds t default = if ltb 0 t then t else default

unfoldable pub options : Bytes → HttpRequest → ℕ → ℕ → Options
unfolding tokens
options url request timeout connect_timeout = record {
  url = url;
  custom_request = or_text request.method (codes "GET");
  http_header = tokens [] (or_text request.raw_headers []);
  user_pwd = request.basic_auth;
  post_fields = unless_empty (or_text request.post_data []);
  timeout_ms = or_milliseconds timeout 20000;
  connect_timeout_ms = or_milliseconds connect_timeout 2000;
  protocols = codes "http,https";
  redir_protocols = codes "http,https";
  ssl_verify_peer = 1;
  ssl_verify_host = 2;
  accept_encoding = [];
  follow_location = 1;
  autoreferer = 1;
  max_redirs = 10;
  max_file_size = max_http_response_size;
}

-- A call that libcurl makes: whether memory is found for it, and its bytes. Their size is always 1.
pub data CurlCall : Type 0 where
  body_call : Bool → Bytes → CurlCall
  header_call : Bool → Bytes → CurlCall

pub record Chunks : Type 0 where
  pub chunk : Memory
  pub header_chunk : Memory

abbrev pub curl_call : CurlCall → Chunks → ℕ × Chunks
curl_call (body_call grows buffer) chunks =
    let (taken, mem) = write_callback grows buffer 1 (length buffer) chunks.chunk in
    (taken, record chunks { chunk = mem })
curl_call (header_call grows buffer) chunks =
    let (taken, mem) = header_callback grows buffer 1 (length buffer) chunks.header_chunk in
    (taken, record chunks { header_chunk = mem })

unfoldable pub curl_calls : List CurlCall → Chunks → Chunks
curl_calls [] chunks = chunks
curl_calls (c ∷ cs) chunks = curl_calls cs (curl_call c chunks).1

-- A transfer of libcurl: its calls, its `CURLcode` and the status of the response.
pub record Transfer : Type 0 where
  pub made : List CurlCall
  pub code : ℕ
  pub http_code : ℕ

-- `curl_easy_init`, `strdup`, `curl_easy_perform` and `curl_easy_strerror`.
pub record Curl : Type 0 where
  pub init : Bool
  pub has_memory : Bool
  pub perform : Options → Transfer
  pub strerror : ℕ → Bytes

-- `struct HttpResponse`.
pub record HttpResult : Type 0 where
  pub status : ℕ
  pub error : ℕ
  pub headers : Option Bytes
  pub body : Option Bytes
  pub error_message : Option Bytes

abbrev pub empty_chunk : Memory
empty_chunk = record { response = none; size = 0; max_size = max_http_response_size }

abbrev pub empty_chunks : Chunks
empty_chunks = record { chunk = empty_chunk; header_chunk = empty_chunk }

-- `string_safe_copy` of the chunk, or of the empty text.
abbrev pub copied : Memory → Bytes
copied mem = c_string (or_text mem.response [])

abbrev pub curl_failed : Bytes → HttpResult → HttpResult
curl_failed text response = record response { error = 1; error_message = some text }

unfoldable pub http_call_perform : Curl → Bytes → HttpRequest → ℕ → ℕ → HttpResult → HttpResult
unfolding options curl_calls write_callback header_callback c_string
http_call_perform curl url request timeout connect_timeout response =
    if not curl.init
    then curl_failed (codes "Failed to init curl") response
    else if not curl.has_memory
    then curl_failed (codes "Out of memory building headers") response
    else let transfer = curl.perform (options url request timeout connect_timeout) in
      let chunks = curl_calls transfer.made empty_chunks in
      let filled = record response {
        body = some (copied chunks.chunk);
        headers = some (copied chunks.header_chunk);
        status = transfer.http_code;
      } in
      if transfer.code == 0 then filled else curl_failed (curl.strerror transfer.code) filled
