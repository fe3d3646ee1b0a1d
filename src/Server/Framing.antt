-- ===== src/Server/Framing.antt =====
-- src/server.c: the responses of `write_response`, read by the header functions of the same file.
use bialet.Server.ContentLength.Exact.{parse_content_length-Field}
use bialet.Server.ContentLength.{accepted, parse_content_length, Field, size_max}
use bialet.Server.FindHeader.{content_length_name}
use bialet.Prelude.Decimal.{value-decimal, decimal-ne-nil, IsDigits, decimal-IsDigits, decimal}
use bialet.Prelude.{
  length-take, drop_append, drop, All-map, take, sym, true, ◌≤◌, ap, ◌∙◌, All-append, append_assoc,
  starts_with, List, [], ◌∷◌, ◌++◌, ℕ, ◌+◌, ◌≡◌, ◌≢◌, refl, All, Bytes, codes, length,
  length-append, arith, some, false,
}
use bialet.Prelude.Search.{find-append, find}
use bialet.Server.Response.{
  write_response, body_len, status_table, or_empty, describe, get_http_status_description, Response,
  response_head,
}
use bialet.Server.FindHeader.{ci_eq, find_header, line_matches}
use bialet.Server.FindHeader.Lines.{find_header-header_lines, header_lookup, NoCr, header_lines}
use bialet.Server.HeaderBlock.{header_block_len-find, header_block_len, terminator}

-- Header lines, each with its CR LF, as a handler gives them.
abbrev pub lines_text : List Bytes → Bytes
lines_text [] = []
lines_text (l ∷ ls) = l ++ (13 ∷ (10 ∷ lines_text ls))

-- Header lines that a response may carry: no CR inside, none empty, none a Content-Length.
abbrev pub PlainLine : Bytes → Type 0
PlainLine l = NoCr l × (l ≢ []) × (line_matches content_length_name (length l) l ≡ false)

abbrev pub FullLine : Bytes → Type 0
FullLine l = NoCr l × (l ≢ [])

pub find_skip :
    (l s : Bytes) (k : ℕ)
    → NoCr l
    → find terminator s ≡ some k
    → find terminator (l ++ s) ≡ some (length l + k)
unfolding find starts_with
find_skip [] s k h e = ground arith
find_skip (c ∷ l) s k (hc, h) e = ground (arith, find_skip l s k h e)

unfoldable pub block : List Bytes → Bytes
block ls = 13 ∷ (10 ∷ header_lines ls)

pub find-block :
    (ls : List Bytes)
    → All FullLine ls
    → (k : ℕ) × (find terminator (block ls) ≡ some k) × (k + 4 ≡ length (block ls))
unfolding find starts_with block
find-block [] h = (0, refl, omega arith)
find-block ([] ∷ ls) (hl, h) = absurd (hl.1 refl)
find-block ((c ∷ l) ∷ ls) (((hc, hl), ne), h) =
    let (k, e, q) = find-block ls h in
    let skip = find_skip (c ∷ l) (block ls) k (hc, hl) e in
    (2 + (length (c ∷ l) + k), ground arith, omega (arith, length-append (c ∷ l) (block ls)))

status_line : Response → Bytes
status_line r =
    codes "HTTP/1.1 " ++ (decimal r.status ++ (codes " " ++ get_http_status_description r.status))

unfoldable pub content_length_line : ℕ → Bytes
content_length_line n = codes "Content-Length: " ++ decimal n

pub lines_text-header_lines :
    (hls : List Bytes) (l : Bytes)
    → lines_text hls ++ (l ++ codes "\r\n\r\n") ≡ header_lines (hls ++ (l ∷ []))
lines_text-header_lines [] l = refl
lines_text-header_lines (h ∷ hls) l =
    append_assoc h (13 ∷ (10 ∷ lines_text hls)) (l ++ codes "\r\n\r\n")
    ∙ ap (λ t. h ++ (13 ∷ (10 ∷ t))) (lines_text-header_lines hls l)

response_head-block :
    (r : Response) (hls : List Bytes)
    → or_empty r.header ≡ lines_text hls
    → response_head r ≡ status_line r ++ block (hls ++ (content_length_line (body_len r) ∷ []))
unfolding response_head status_line block content_length_line
response_head-block r hls e = rw (e, ← lines_text-header_lines) (simp append_assoc)

pub digit-NoCr : (s : Bytes) → IsDigits s → NoCr s
digit-NoCr [] h = tt
digit-NoCr (c ∷ s) (hc, h) = (ground arith, digit-NoCr s h)

describe-NoCr :
    (table : List (ℕ × Bytes)) (n : ℕ) → All (λ p. NoCr p.1) table → NoCr (describe table n)
unfolding describe
describe-NoCr [] n h = omega arith
describe-NoCr ((code, text) ∷ table) n (hp, h) = ground (arith, describe-NoCr table n h)

status_line-NoCr : (r : Response) → NoCr (status_line r)
unfolding status_line get_http_status_description
status_line-NoCr r = All-append _ (codes "HTTP/1.1 ") _ (omega arith) (
    All-append _ (decimal r.status) _ (digit-NoCr _ (decimal-IsDigits r.status)) (
      All-append _ (codes " ") _ (omega arith) (describe-NoCr status_table r.status (omega arith))))

pub content_length_line-FullLine : (n : ℕ) → FullLine (content_length_line n)
unfolding content_length_line
content_length_line-FullLine n = (
  All-append _ (codes "Content-Length: ") _ (omega arith) (digit-NoCr _ (decimal-IsDigits n)),
  λ e. cc,
)

content_length_line_matches :
    (n : ℕ)
    → line_matches content_length_name (length (content_length_line n)) (content_length_line n)
      ≡ true
unfolding content_length_line ci_eq
content_length_line_matches n = ground arith

header_lookup-skip :
    (name : Bytes) (hls : List Bytes) (l : Bytes)
    → All (λ h. line_matches name (length h) h ≡ false) hls
    → header_lookup name (hls ++ (l ∷ [])) ≡ header_lookup name (l ∷ [])
header_lookup-skip name [] l p = refl
header_lookup-skip name (h ∷ hls) l (ph, p) = rw ph (header_lookup-skip name hls l p)

-- The value of the header, as `parse_content_length` gets it.
abbrev pub sent_value : ℕ → Bytes
sent_value n = codes " " ++ (decimal n ++ codes "\r\n\r\n")

pub header_lookup-content_length :
    (hls : List Bytes) (n : ℕ)
    → All (λ h. line_matches content_length_name (length h) h ≡ false) hls
    → header_lookup content_length_name (hls ++ (content_length_line n ∷ [])) ≡ some (sent_value n)
unfolding content_length_line
header_lookup-content_length hls n h =
    header_lookup-skip content_length_name hls (content_length_line n) h
    ∙ rw (content_length_line_matches n) refl

find_content_length :
    (hls : List Bytes) (n : ℕ) (request : Bytes)
    → NoCr request
    → All PlainLine hls
    → find_header (request ++ block (hls ++ (content_length_line n ∷ []))) content_length_name
      ≡ some (sent_value n)
unfolding block content_length_line
find_content_length hls n request hr p =
    let cl = content_length_line n in
    let plain =
      All-append _ hls (cl ∷ []) (All-map _ NoCr hls (λ l q. q.0) p)
        ((content_length_line-FullLine n).0, tt) in
    find_header-header_lines request (hls ++ (cl ∷ [])) content_length_name hr plain
    ∙ header_lookup-content_length hls n (All-map _ _ hls (λ l q. q.2) p)

pub sent_value-Field : (n : ℕ) → n ≤ size_max → Field (sent_value n) n
sent_value-Field n h = record {
  before = codes " ";
  number = decimal n;
  after = [];
  rest = codes "\r\n\r\n";
  shape = refl;
  blank_before = (refl, tt);
  is_number = decimal-IsDigits n;
  number_ne_nil = decimal-ne-nil n;
  blank_after = tt;
  line_end = refl;
  value_is = sym (value-decimal n (omega arith));
}

pub find-response_head :
    (r : Response) (hls : List Bytes)
    → or_empty r.header ≡ lines_text hls
    → All PlainLine hls
    → (k : ℕ) × (find terminator (response_head r) ≡ some k) × (k + 4 ≡ length (response_head r))
find-response_head r hls e p =
    let cl = content_length_line (body_len r) in
    let full =
      All-append _ hls (cl ∷ []) (All-map _ FullLine hls (λ l q. (q.0, q.1)) p)
        (content_length_line-FullLine (body_len r), tt) in
    let (k, found, size) = find-block (hls ++ (cl ∷ [])) full in
    let head = response_head-block r hls e in
    (
      length (status_line r) + k,
      rw head (find_skip (status_line r) _ k (status_line-NoCr r) found),
      rw head (omega (arith, length-append (status_line r) (block (hls ++ (cl ∷ []))))),
    )

-- What goes out is framed: for a response whose header lines hold no CR, are not empty and are no
-- Content-Length, the server's own header scan finds the end of the header block exactly where
-- the body begins, its own search and parser read the announced length back, and what follows the
-- head is just that many bytes, the first ones of the body, given that the body has them.
pub write_response_framed :
    (r : Response) (hls : List Bytes) (max : ℕ)
    → or_empty r.header ≡ lines_text hls
    → All PlainLine hls
    → body_len r ≤ max
    → max ≤ size_max
    → body_len r ≤ length (or_empty r.body)
    → (header_block_len (write_response r) ≡ length (response_head r))
      × (drop (length (response_head r)) (write_response r) ≡ take (body_len r) (or_empty r.body))
      × (length (drop (length (response_head r)) (write_response r)) ≡ body_len r)
      × ((v : Bytes) × (find_header (response_head r) content_length_name ≡ some v)
          × (parse_content_length v max ≡ accepted (body_len r)))
unfolding write_response
write_response_framed r hls max e p small fits has =
    let (k, found, size) = find-response_head r hls e p in
    let body = take (body_len r) (or_empty r.body) in
    let behind : drop (length (response_head r)) (response_head r ++ body) ≡ body =
      drop_append (response_head r) body in
    (
      header_block_len-find _ ∙ rw (find-append _ _ (response_head r) body k found) size,
      behind,
      ap length behind ∙ omega (arith, length-take (body_len r) (or_empty r.body), has),
      (
        sent_value (body_len r),
        rw (response_head-block r hls e)
            (find_content_length hls (body_len r) (status_line r) (status_line-NoCr r) p),
        parse_content_length-Field _ (body_len r) max (sent_value-Field (body_len r) (omega arith))
            ∙ ground arith,
      ),
    )
