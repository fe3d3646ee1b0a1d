-- ===== src/Server/Response.antt =====
-- src/server.c and src/bialet.h: the response record, `get_http_status_description`,
-- `get_content_type`, `free_response_owned` and the bytes that `write_response` sends.
use bialet.Prelude.{
  List, take, suc, ℕ, Bool, true, false, ◌||◌, Option, none, some, [], ◌∷◌, ◌++◌, ◌==◌,
  if◌then◌else◌, Bytes, codes, str_eq,
}
use bialet.Prelude.Decimal.{decimal}
use bialet.Server.Pages.{html_headers}

-- `struct BialetResponse`; a null pointer is `none`. The body is a buffer of any bytes.
pub record Response : Type 0 where
  pub status : ℕ
  pub header : Option Bytes
  pub body : Option Bytes
  pub length_field : ℕ
  pub body_owned : Bool
  pub header_owned : Bool

-- `struct BialetResponse response = {0}`.
abbrev pub empty_response : Response
empty_response = record {
  status = 0;
  header = none;
  body = none;
  length_field = 0;
  body_owned = false;
  header_owned = false;
}

-- The cases of the `switch`, and its default.
abbrev pub status_table : List (ℕ × Bytes)
status_table =
    (100, codes "Continue")
    ∷ (101, codes "Switching Protocols")
    ∷ (200, codes "OK")
    ∷ (201, codes "Created")
    ∷ (202, codes "Accepted")
    ∷ (203, codes "Non-Authoritative Information")
    ∷ (204, codes "No Content")
    ∷ (205, codes "Reset Content")
    ∷ (206, codes "Partial Content")
    ∷ (300, codes "Multiple Choices")
    ∷ (301, codes "Moved Permanently")
    ∷ (302, codes "Found")
    ∷ (303, codes "See Other")
    ∷ (304, codes "Not Modified")
    ∷ (307, codes "Temporary Redirect")
    ∷ (308, codes "Permanent Redirect")
    ∷ (400, codes "Bad Request")
    ∷ (401, codes "Unauthorized")
    ∷ (403, codes "Forbidden")
    ∷ (404, codes "Not Found")
    ∷ (413, codes "Payload Too Large")
    ∷ (429, codes "Too Many Requests")
    ∷ (405, codes "Method Not Allowed")
    ∷ (406, codes "Not Acceptable")
    ∷ (407, codes "Proxy Authentication Required")
    ∷ (408, codes "Request Timeout")
    ∷ (409, codes "Conflict")
    ∷ (410, codes "Gone")
    ∷ (500, codes "Internal Server Error")
    ∷ (501, codes "Not Implemented")
    ∷ (502, codes "Bad Gateway")
    ∷ (503, codes "Service Unavailable")
    ∷ (504, codes "Gateway Timeout")
    ∷ (505, codes "HTTP Version Not Supported")
    ∷ []

unfoldable pub describe : List (ℕ × Bytes) → ℕ → Bytes
describe [] status = codes "Unknown Status"
describe ((code, text) ∷ table) status = if status == code then text else describe table status

unfoldable pub get_http_status_description : ℕ → Bytes
unfolding describe
get_http_status_description status = describe status_table status

abbrev pub octet_stream : Bytes
octet_stream = codes "Content-Type: application/octet-stream\r\n"

-- `strrchr(path, '.')`: the text from the last dot on.
pub last_dot : Option Bytes → Bytes → Option Bytes
last_dot found [] = found
last_dot found (c ∷ path) = last_dot (if c == b'.' then some (c ∷ path) else found) path

unfoldable pub content_type_of : Bytes → Bytes
content_type_of ext =
    if str_eq ext (codes ".html") || str_eq ext (codes ".htm")
    then html_headers
    else if str_eq ext (codes ".css")
    then codes "Content-Type: text/css\r\n"
    else if str_eq ext (codes ".js")
    then codes "Content-Type: application/javascript\r\n"
    else if str_eq ext (codes ".json")
    then codes "Content-Type: application/json\r\n"
    else if str_eq ext (codes ".jpg") || str_eq ext (codes ".jpeg")
    then codes "Content-Type: image/jpeg\r\n"
    else if str_eq ext (codes ".png")
    then codes "Content-Type: image/png\r\n"
    else if str_eq ext (codes ".gif")
    then codes "Content-Type: image/gif\r\n"
    else if str_eq ext (codes ".svg")
    then codes "Content-Type: image/svg+xml\r\n"
    else if str_eq ext (codes ".txt")
    then codes "Content-Type: text/plain\r\n"
    else if str_eq ext (codes ".xml")
    then codes "Content-Type: application/xml\r\n"
    else if str_eq ext (codes ".pdf")
    then codes "Content-Type: application/pdf\r\n"
    else octet_stream

pub extension_type : Option Bytes → Bytes
extension_type none = octet_stream
extension_type (some ext) = content_type_of ext

unfoldable pub get_content_type : Bytes → Bytes
unfolding last_dot extension_type content_type_of
get_content_type path = extension_type (last_dot none path)

pub free_response_owned : Response → Response
free_response_owned r = record r {
  header = if r.header_owned then none else r.header;
  body = if r.body_owned then none else r.body;
  body_owned = false;
  header_owned = false;
}

-- `strlen` of an owned body, which ends at its first NUL.
unfoldable pub strlen : Bytes → ℕ
strlen [] = 0
strlen (c ∷ s) = let n = strlen s in if c == 0 then 0 else suc n

abbrev pub or_empty : Option Bytes → Bytes
or_empty none = []
or_empty (some b) = b

-- The length that is announced and sent: the field, or for an owned body with no length its
-- `strlen`.
abbrev pub owned_length : Bool → Option Bytes → ℕ
owned_length true (some b) = strlen b
owned_length _ _ = 0

unfoldable pub body_len : Response → ℕ
unfolding strlen
body_len r = if r.length_field == 0 then owned_length r.body_owned r.body else r.length_field

unfoldable pub response_head : Response → Bytes
response_head r =
    codes "HTTP/1.1 "
    ++ (decimal r.status
        ++ (codes " "
            ++ (get_http_status_description r.status
                ++ (codes "\r\n"
                    ++ (or_empty r.header
                        ++ (codes "Content-Length: "
                            ++ (decimal (body_len r) ++ codes "\r\n\r\n")))))))

-- What goes out on the socket of a response whose status is set: the head, then `body_len` bytes.
unfoldable pub write_response : Response → Bytes
write_response r = response_head r ++ take (body_len r) (or_empty r.body)
