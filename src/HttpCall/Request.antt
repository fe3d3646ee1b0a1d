-- ===== src/HttpCall/Request.antt =====
-- src/http_call.c: `parse_url`, `base64_encode` and `build_request`, of the client's build for
-- Windows. Allocations succeed.
use bialet.Prelude.Decimal.{decimal}
use bialet.Prelude.Search.{find}
use bialet.Prelude.{
  take, str_eq, not, leb, ◌%◌, ◌&&◌, ◌||◌, drop, ltb, ◌==◌, starts_with, ◌^◌, length, ◌-◌, Bool,
  ◌+◌, codes, ◌++◌, ◌*◌, if◌then◌else◌, ◌/◌, Bytes, Option, ℕ, none, some, true, false, [], ◌∷◌,
  suc, zero, ◌>>=◌,
}

-- `struct ParsedUrl`.
pub record ParsedUrl : Type 0 where
  pub host : Bytes
  pub port : Bytes
  pub path : Bytes
  pub is_https : Bool

-- Whether it is https, the port of the scheme, and the rest.
unfoldable pub scheme : Bytes → Option (Bool × Bytes × Bytes)
scheme url =
    if starts_with (codes "https://") url
    then some (true, codes "443", drop 8 url)
    else if starts_with (codes "http://") url
    then some (false, codes "80", drop 7 url)
    else none

-- A colon counts in front of the first slash only.
abbrev pub port_colon : Option ℕ → Option ℕ → Option ℕ
port_colon none slash = none
port_colon (some c) none = some c
port_colon (some c) (some s) = if ltb c s then some c else none

abbrev pub text_length : Option ℕ → ℕ → Bytes → ℕ
text_length (some s) from p = s - from
text_length none from p = length p - from

-- The text behind the colon, of one byte to seven.
abbrev pub port_text : Bytes → Option ℕ → Option ℕ → Bytes → Option Bytes
port_text default none slash p = some default
port_text default (some c) slash p =
    let plen = text_length slash (c + 1) p in
    if plen == 0 || leb 8 plen then none else some (take plen (drop (c + 1) p))

abbrev pub host_end : Option ℕ → Option ℕ → Option ℕ
host_end none slash = slash
host_end (some c) slash = some c

abbrev pub path_text : Option ℕ → Bytes → Bytes
path_text none p = codes "/"
path_text (some s) p = drop s p

abbrev pub sized : ParsedUrl → Option ParsedUrl
sized u =
    if length u.host == 0 || leb 256 (length u.host)
    then none
    else if leb 1024 (length u.path)
    then none
    else some u

-- `none` is -1.
unfoldable pub parse_url : Bytes → Option ParsedUrl
parse_url url = do
  (is_https, default, p) ← scheme url
  let slash = find (b'/' ∷ []) p
  let colon = port_colon (find (b':' ∷ []) p) slash
  port ← port_text default colon slash p
  sized (record {
    host = take (text_length (host_end colon slash) 0 p) p;
    port = port;
    path = path_text slash p;
    is_https = is_https;
  })

abbrev pub table : Bytes
table = codes "ABCDEFGHIJKLMNOPQRSTUVWXYZabcdefghijklmnopqrstuvwxyz0123456789+/"

unfoldable pub char_at : Bytes → ℕ → ℕ
char_at [] i = 0
char_at (c ∷ s) zero = c
char_at (c ∷ s) (suc i) = char_at s i

-- `table[(v >> 6 * k) & 63]`.
abbrev pub sextet : ℕ → ℕ → ℕ
sextet v k = char_at table (v / 64 ^ k % 64)

-- Bytes do not overlap in `v`, so that `|` adds them.
unfoldable pub base64_encode : Bytes → Bytes
base64_encode [] = []
base64_encode (a ∷ []) = let v = a * 2 ^ 16 in sextet v 3 ∷ (sextet v 2 ∷ (b'=' ∷ (b'=' ∷ [])))
base64_encode (a ∷ (b ∷ [])) =
    let v = a * 2 ^ 16 + b * 2 ^ 8 in sextet v 3 ∷ (sextet v 2 ∷ (sextet v 1 ∷ (b'=' ∷ [])))
base64_encode (a ∷ (b ∷ (c ∷ s))) =
    let v = a * 2 ^ 16 + b * 2 ^ 8 + c in
    sextet v 3 ∷ (sextet v 2 ∷ (sextet v 1 ∷ (sextet v 0 ∷ base64_encode s)))

-- The fields of `struct HttpRequest` that `build_request` reads.
pub record HttpRequest : Type 0 where
  pub raw_headers : Option Bytes
  pub method : Option Bytes
  pub post_data : Option Bytes
  pub basic_auth : Option Bytes

abbrev pub or_text : Option Bytes → Bytes → Bytes
or_text none default = default
or_text (some s) default = s

abbrev pub crlf : Bytes
crlf = 13 ∷ (10 ∷ [])

unfoldable pub needs_crlf : Bytes → Bool
needs_crlf raw =
    ltb 0 (length raw) && not (leb 2 (length raw) && str_eq (drop (length raw - 2) raw) crlf)

abbrev pub auth_header : Option Bytes → Bytes
auth_header none = []
auth_header (some []) = []
auth_header (some (c ∷ auth)) = codes "Authorization: Basic " ++ (base64_encode (c ∷ auth) ++ crlf)

abbrev pub closing : Bytes → Bytes
closing raw = if needs_crlf raw then crlf else []

unfoldable pub build_head : ParsedUrl → HttpRequest → Bytes
build_head url request =
    let raw = or_text request.raw_headers [] in
    or_text request.method (codes "GET")
    ++ (codes " "
        ++ (url.path
            ++ (codes " HTTP/1.1\r\nHost: "
                ++ (url.host
                    ++ (codes "\r\nConnection: close\r\n"
                        ++ (auth_header request.basic_auth
                            ++ (raw
                                ++ (closing raw
                                    ++ (codes "Content-Length: "
                                        ++ (decimal (length (or_text request.post_data []))
                                            ++ codes "\r\n\r\n"))))))))))

unfoldable pub build_request : ParsedUrl → HttpRequest → Bytes
build_request url request = build_head url request ++ or_text request.post_data []
