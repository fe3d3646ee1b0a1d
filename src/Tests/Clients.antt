-- ===== src/Tests/Clients.antt =====
-- Requests and URLs of the client.
use bialet.HttpCall.Transfer.{}
use bialet.HttpCall.Exchange.{}
use bialet.HttpCall.GivenHeaders.{LinesOf}
use bialet.Uploads.{crlf}
use bialet.Server.Framing.{PlainLine}
use mathlib.Core.List.{cons-ne-nil}
use bialet.Prelude.Decimal.{dec_loop, decimal}
use bialet.HttpCall.Sends.{receive-build_request}
use bialet.Server.Request.{parse_request}
use bialet.Server.Reader.Stream.{Flows, arrived}
use bialet.Server.FindHeader.{ci_eq}
use bialet.Prelude.Search.{find}
use bialet.HttpCall.Request.{
  needs_crlf, build_request, HttpRequest, build_head, scheme, char_at, parse_url, ParsedUrl,
  base64_encode,
}
use bialet.HttpCall.Base64.{base64_decode, base64_decode-encode}
use bialet.Server.Reader.{room_size, receive, Socket, request}
use bialet.HttpCall.Urls.{parse_url-print_url, print_url}
use bialet.Prelude.{
  ◌≢◌, inr, Bytes, ◌≤◌, take-append-drop, length, ◌∙◌, append-nil, ◌++◌, drop, str_eq, ap, All,
  take, starts_with, arith, ◌≡◌, codes, some, true, false, refl, [], ◌∷◌,
}

abbrev with_port : ParsedUrl
with_port = record {
  host = codes "api.test";
  port = codes "8080";
  path = codes "/v1?a=1:2";
  is_https = true;
}

parse_url-print_url_example : parse_url (print_url with_port) ≡ some with_port
parse_url-print_url_example = parse_url-print_url with_port (record {
  host_ok = (omega arith, omega arith);
  host_size = (omega arith, omega arith);
  port_ok = omega arith;
  port_size = (omega arith, omega arith);
  path_ok = (codes "v1?a=1:2", refl);
  path_size = omega arith;
})

-- A query directly behind the host becomes part of the host.
parse_url_query :
    parse_url (codes "http://api.test?a=1")
    ≡ some (record {
      host = codes "api.test?a=1";
      port = codes "80";
      path = codes "/";
      is_https = false;
    })
unfolding parse_url scheme find starts_with
parse_url_query = refl

base64_decode-encode_example : base64_decode (base64_encode (codes "user:pass")) ≡ codes "user:pass"
base64_decode-encode_example = base64_decode-encode (codes "user:pass") (omega arith)

base64_user : base64_encode (codes "user:pass") ≡ codes "dXNlcjpwYXNz"
unfolding base64_encode char_at
base64_user = refl

-- Headers whose last line lacks its CR LF.
abbrev post_request : HttpRequest
post_request = record {
  raw_headers = some (codes "X: 1");
  method = some (codes "POST");
  post_data = some (codes "hi");
  basic_auth = some (codes "u:p");
}

abbrev wire : Socket
wire =
    take 30 (build_request with_port post_request)
    ∷ (drop 30 (build_request with_port post_request) ∷ [])

wire-arrived : arrived wire ≡ build_request with_port post_request
wire-arrived =
    ap (λ t. take 30 (build_request with_port post_request) ++ t)
      (append-nil (drop 30 (build_request with_port post_request)))
    ∙ take-append-drop 30 (build_request with_port post_request)

wire-Flows : Flows wire
unfolding build_request build_head needs_crlf base64_encode char_at
wire-Flows = (cons-ne-nil _ _, (cons-ne-nil _ _, tt))

post-open : (t : Bytes) → codes "X: 1" ≢ t ++ crlf
post-open [] e = cc
post-open (a ∷ []) e = cc
post-open (a ∷ (b ∷ [])) e = cc
post-open (a ∷ (b ∷ (c ∷ []))) e = cc
post-open (a ∷ (b ∷ (c ∷ (d ∷ t)))) e = absurd (append-crlf t (ap (drop 4) e))
  where
    append-crlf : (t : Bytes) → [] ≢ t ++ crlf
    append-crlf [] e = cc
    append-crlf (c ∷ t) e = cc

post-given : LinesOf (codes "X: 1") (codes "X: 1" ∷ [])
post-given = inr (refl, cons-ne-nil _ _, post-open)

header-PlainLine : All PlainLine (codes "X: 1" ∷ [])
unfolding ci_eq
header-PlainLine = ((omega arith, cons-ne-nil _ _, refl), tt)

post_head-fits : length (build_head with_port post_request) ≤ room_size
unfolding build_head needs_crlf base64_encode char_at str_eq decimal dec_loop
post_head-fits = omega arith

receive-build_request_example :
    (receive 100 wire ≡ request (build_request with_port post_request))
    × (parse_request (build_request with_port post_request) ≡ record {
      message = build_request with_port post_request;
      method = codes "POST";
      uri = codes "/v1?a=1:2";
      routes = [];
    })
receive-build_request_example =
    receive-build_request with_port post_request (codes "X: 1" ∷ []) post-given 100 wire
      (omega arith, cons-ne-nil _ _) (omega arith, cons-ne-nil _ _) (omega arith) header-PlainLine
      (omega arith) post_head-fits (omega arith) (omega arith) wire-Flows wire-arrived

-- Headers that are joined by a line feed, as those of the framework are, go out as they are.
bare_line_feed :
    find
      (codes "A: 1\nB: 2\r\n")
      (build_request with_port (record post_request { raw_headers = some (codes "A: 1\nB: 2") }))
    ≡ some 87
unfolding find starts_with build_request build_head needs_crlf base64_encode char_at decimal
    dec_loop str_eq
bare_line_feed = refl
