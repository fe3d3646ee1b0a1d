-- ===== src/HttpCall/Sends.antt =====
-- The server reads what the client sends.
use bialet.HttpCall.GivenHeaders.{closing-LinesOf, LinesOf}
use bialet.Server.ContentLength.Exact.{parse_content_length-Field}
use bialet.Server.Request.{parse_request}
use bialet.Server.Reader.Stream.{arrived, Flows}
use bialet.Server.ContentLength.{accepted, size_max}
use bialet.Server.Reader.Whole.{receive_whole, request_head}
use bialet.Server.Reader.{request, receive, room_size, buffer_size, Socket, announced}
use bialet.Server.Request.RequestLine.{parse_request-line, request_line-NoCr, IsToken, request_line}
use bialet.Server.FindHeader.Lines.{header_lookup, header_lines, NoCr}
use bialet.Server.FindHeader.{content_length_name, ci_eq}
use bialet.Server.Framing.{
  header_lookup-content_length, sent_value-Field, sent_value, content_length_line-FullLine,
  FullLine, lines_text-header_lines, block, content_length_line, lines_text, PlainLine,
}
use bialet.HttpCall.Request.{
  closing, build_request, or_text, build_head, HttpRequest, ParsedUrl, table, sextet, auth_header,
  base64_encode, char_at,
}
use bialet.Prelude.{
  All-map, ◌≤◌, ◌<◌, length, ◌%◌, ◌^◌, ◌∙◌, append_assoc, ◌/◌, sym, ap, All-append, ◌≡◌, ◌≢◌, arith,
  All, codes, ◌++◌, List, Option, Bytes, ℕ, none, some, [], ◌∷◌, suc, zero, refl,
}

char_at-NoCr : (s : Bytes) (i : ℕ) → NoCr s → char_at s i ≢ 13
unfolding char_at
char_at-NoCr [] i h = omega arith
char_at-NoCr (c ∷ s) zero (hc, h) = hc
char_at-NoCr (c ∷ s) (suc i) (hc, h) = char_at-NoCr s i h

sextet-NoCr : (v k : ℕ) → sextet v k ≢ 13
sextet-NoCr v k = char_at-NoCr table (v / 64 ^ k % 64) (omega arith)

base64_encode-NoCr : (s : Bytes) → NoCr (base64_encode s)
unfolding base64_encode
base64_encode-NoCr [] = tt
base64_encode-NoCr (a ∷ []) = (sextet-NoCr _ 3, (sextet-NoCr _ 2, omega arith))
base64_encode-NoCr (a ∷ (b ∷ [])) =
    (sextet-NoCr _ 3, (sextet-NoCr _ 2, (sextet-NoCr _ 1, omega arith)))
base64_encode-NoCr (a ∷ (b ∷ (c ∷ s))) =
    (sextet-NoCr _ 3, (sextet-NoCr _ 2, (sextet-NoCr _ 1, (sextet-NoCr _ 0, base64_encode-NoCr s))))

-- The lines of the request, but for the Content-Length.
abbrev pub host_line : Bytes → Bytes
host_line host = codes "Host: " ++ host

abbrev pub auth_line : Bytes → Bytes
auth_line auth = codes "Authorization: Basic " ++ base64_encode auth

abbrev pub auth_lines : Option Bytes → List Bytes
auth_lines none = []
auth_lines (some []) = []
auth_lines (some (c ∷ auth)) = auth_line (c ∷ auth) ∷ []

auth_header-lines : (auth : Option Bytes) → auth_header auth ≡ lines_text (auth_lines auth)
auth_header-lines none = refl
auth_header-lines (some []) = refl
auth_header-lines (some (c ∷ auth)) =
    sym (append_assoc (codes "Authorization: Basic ") (base64_encode (c ∷ auth)) (13 ∷ (10 ∷ [])))

auth_lines-PlainLine : (auth : Option Bytes) → All PlainLine (auth_lines auth)
unfolding ci_eq
auth_lines-PlainLine none = tt
auth_lines-PlainLine (some []) = tt
auth_lines-PlainLine (some (c ∷ auth)) = (
  (
    All-append _ (codes "Authorization: Basic ") _ (omega arith) (base64_encode-NoCr (c ∷ auth)),
    λ e. cc,
    ground arith,
  ),
  tt,
)

host_line-PlainLine : (host : Bytes) → NoCr host → PlainLine (host_line host)
unfolding ci_eq
host_line-PlainLine host h =
    (All-append _ (codes "Host: ") _ (omega arith) h, λ e. cc, ground arith)

connection_line-PlainLine : PlainLine (codes "Connection: close")
unfolding ci_eq
connection_line-PlainLine = (omega arith, λ e. cc, refl)

lines_text-append : (a b : List Bytes) → lines_text (a ++ b) ≡ lines_text a ++ lines_text b
lines_text-append [] b = refl
lines_text-append (l ∷ a) b =
    ap (λ t. l ++ (13 ∷ (10 ∷ t))) (lines_text-append a b)
    ∙ sym (append_assoc l (13 ∷ (10 ∷ lines_text a)) (lines_text b))

abbrev pub method_of : HttpRequest → Bytes
method_of r = or_text r.method (codes "GET")

abbrev pub body_of : HttpRequest → Bytes
body_of r = or_text r.post_data []

module _ (url : ParsedUrl) (r : HttpRequest) (hls : List Bytes)
    (given : LinesOf (or_text r.raw_headers []) hls) where
  abbrev cl : Bytes
  cl = content_length_line (length (body_of r))

  abbrev own_lines : List Bytes
  own_lines = host_line url.host ∷ (codes "Connection: close" ∷ (auth_lines r.basic_auth ++ hls))

  abbrev line : Bytes
  line = request_line (method_of r) url.path (codes "HTTP/1.1")

  given_lines :
      let raw = or_text r.raw_headers [] in
      auth_header r.basic_auth ++ (raw ++ (closing raw ++ (cl ++ codes "\r\n\r\n")))
      ≡ header_lines ((auth_lines r.basic_auth ++ hls) ++ (cl ∷ []))
  given_lines =
      let raw = or_text r.raw_headers [] in
      let end = cl ++ codes "\r\n\r\n" in
      ap (λ t. auth_header r.basic_auth ++ t)
        (sym (append_assoc raw (closing raw) end)
          ∙ ap (λ t. t ++ end) (closing-LinesOf raw hls given))
      ∙ (ap (λ t. t ++ (lines_text hls ++ end)) (auth_header-lines r.basic_auth)
          ∙ (sym (append_assoc (lines_text (auth_lines r.basic_auth)) (lines_text hls) end)
              ∙ (ap (λ t. t ++ end) (sym (lines_text-append (auth_lines r.basic_auth) hls))
                  ∙ lines_text-header_lines (auth_lines r.basic_auth ++ hls) cl)))

  build_head-lines : build_head url r ≡ request_head line (own_lines ++ (cl ∷ []))
  unfolding build_head block content_length_line
  build_head-lines =
      let rest = block (own_lines ++ (cl ∷ [])) in
      ap
        (λ t.
          method_of r
          ++ (32
              ∷ (url.path
                  ++ (codes " HTTP/1.1\r\nHost: "
                      ++ (url.host ++ (codes "\r\nConnection: close\r\n" ++ t))))))
        given_lines
      ∙ sym (
          append_assoc (method_of r) (32 ∷ (url.path ++ codes " HTTP/1.1")) rest
          ∙ ap (λ t. method_of r ++ (32 ∷ t)) (append_assoc url.path (codes " HTTP/1.1") rest))

  build_request-line :
      build_request url r
      ≡ line ++ (13 ∷ (10 ∷ (header_lines (own_lines ++ (cl ∷ [])) ++ body_of r)))
  unfolding build_request block
  build_request-line =
      ap (λ t. t ++ body_of r) build_head-lines
      ∙ append_assoc line (block (own_lines ++ (cl ∷ []))) (body_of r)

  -- A request of the client whose method and path are tokens, whose host holds no CR and whose
  -- headers are lines without a Content-Length of their own, the last with or without its CR LF, is
  -- received by the server as it was sent, however the network cuts it, if its head fits the buffer
  -- and its body the limit; the server reads its method and its path.
  pub receive-build_request :
      (max : ℕ) (socket : Socket)
      → IsToken (method_of r)
      → IsToken url.path
      → NoCr url.host
      → All PlainLine hls
      → length line < buffer_size
      → length (build_head url r) ≤ room_size
      → length (body_of r) ≤ max
      → max ≤ size_max
      → Flows socket
      → arrived socket ≡ build_request url r
      → (receive max socket ≡ request (build_request url r))
        × (parse_request (build_request url r) ≡ record {
          message = build_request url r;
          method = method_of r;
          uri = url.path;
          routes = [];
        })
  unfolding build_request announced
  receive-build_request max socket hm hp hh hls_plain short fits small limit flows e =
      let n = length (body_of r) in
      let plain : All PlainLine own_lines = (
        host_line-PlainLine url.host hh,
        (
          connection_line-PlainLine,
          All-append PlainLine (auth_lines r.basic_auth) hls (auth_lines-PlainLine r.basic_auth)
              hls_plain,
        ),
      ) in
      let full : All FullLine (own_lines ++ (cl ∷ [])) =
        All-append FullLine own_lines (cl ∷ [])
          (All-map PlainLine FullLine own_lines (λ l q. (q.0, q.1)) plain)
          (content_length_line-FullLine n, tt) in
      let found : header_lookup content_length_name (own_lines ++ (cl ∷ [])) ≡ some (sent_value n) =
        header_lookup-content_length own_lines n
          (All-map PlainLine _ own_lines (λ l q. q.2) plain) in
      let said : announced max (header_lookup content_length_name (own_lines ++ (cl ∷ [])))
          ≡ accepted n =
        ap (announced max) found
        ∙ (parse_content_length-Field _ n max (sent_value-Field n (omega arith)) ∙ ground arith) in
      let no_cr = request_line-NoCr (method_of r) url.path (codes "HTTP/1.1") hm hp (omega arith) in
      let head = build_head-lines in
      (
        rw head (
            receive_whole line (own_lines ++ (cl ∷ [])) (body_of r) max socket no_cr full
              (rw head at fits) said flows (rw head at e)),
        rw build_request-line (
            parse_request-line (method_of r) url.path (codes "HTTP/1.1")
              (header_lines (own_lines ++ (cl ∷ [])) ++ body_of r) hm hp (omega arith) (omega arith)
              short),
      )
