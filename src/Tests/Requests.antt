-- ===== src/Tests/Requests.antt =====
-- src/server.c: requests and responses.
use bialet.HttpCall.Reads.{parse_http_response-write_response}
use bialet.HttpCall.{parse_http_response}
use bialet.Prelude.Decimal.{dec_loop, decimal}
use bialet.Server.FindHeader.Lines.{find_header-header_lines, header_lines, header_lookup}
use mathlib.Core.List.{cons-ne-nil}
use bialet.Prelude.Search.{find}
use bialet.Server.ContentLength.Exact.{
  parse_content_length-Field, parse_content_length_sound, classify,
}
use bialet.Server.Reader.TooLarge.{receive_too_large}
use bialet.Server.Reader.Whole.{receive_whole, request_head}
use bialet.Server.Framing.{write_response_framed, PlainLine, FullLine, block}
use bialet.Server.FindHeader.Sound.{find_header_sound, HeaderLine}
use bialet.Server.Reader.Stream.{arrived, Flows}
use bialet.Server.Request.RequestLine.{parse_request-line, request_line, IsToken}
use bialet.Server.Request.{parse_request}
use bialet.Server.ContentLength.{accepted, malformed, size_max, parse_content_length, Field}
use bialet.Server.Response.{
  or_empty, get_http_status_description, response_head, body_len, write_response, Response,
}
use bialet.Server.Reader.{
  too_large, recv, drain_request_body, room_size, request, read_head, Socket, receive, announced,
}
use bialet.Server.FindHeader.{content_length_name, find_header, ci_eq}
use bialet.Server.HeaderBlock.{
  header_block_len-EndsAt, header_block_len-append, EndsAt, header_block_len,
}
use bialet.Prelude.{
  drop, ◌-◌, take, starts_with, All, ◌≤◌, ◌≡◌, refl, false, some, List, [], ◌∷◌, ◌++◌, arith, Bytes,
  codes, length,
}

abbrev get_line : Bytes
get_line = request_line (codes "POST") (codes "/a") (codes "HTTP/1.1")

abbrev lines : List Bytes
lines = codes "Host: x" ∷ codes "content-length:  3" ∷ []

abbrev segments : Socket
segments =
    codes "POST /a HTTP/1.1\r\nHo"
    ∷ codes "st: x\r\ncontent-length:  3\r\n\r"
    ∷ codes "\na"
    ∷ codes "bc"
    ∷ []

full_lines : All FullLine lines
full_lines = ((omega arith, cons-ne-nil _ _), ((omega arith, cons-ne-nil _ _), tt))

flows : Flows segments
flows = (cons-ne-nil _ _, (cons-ne-nil _ _, (cons-ne-nil _ _, (cons-ne-nil _ _, tt))))

three_bytes : announced 10 (header_lookup content_length_name lines) ≡ accepted 3
unfolding announced parse_content_length ci_eq
three_bytes = refl

arrived_whole : arrived segments ≡ request_head get_line lines ++ codes "abc"
unfolding block
arrived_whole = refl

head_fits : length (request_head get_line lines) ≤ room_size
unfolding block
head_fits = omega arith

receive_whole_example : receive 10 segments ≡ request (request_head get_line lines ++ codes "abc")
receive_whole_example =
    receive_whole get_line lines (codes "abc") 10 segments (omega arith) full_lines head_fits
      three_bytes flows arrived_whole

abbrev sent : Bytes
sent = request_head get_line lines ++ codes "abc"

request_as_sent :
    request_head get_line lines ≡ codes "POST /a HTTP/1.1\r\nHost: x\r\ncontent-length:  3\r\n\r\n"
unfolding block
request_as_sent = refl

too_long : receive 2 segments ≡ too_large []
unfolding receive read_head header_block_len find starts_with parse_content_length find_header ci_eq
    drain_request_body recv
too_long = refl

header_block_len-EndsAt_test : EndsAt (codes "a\r\n\r\nb") (header_block_len (codes "a\r\n\r\nb"))
header_block_len-EndsAt_test = header_block_len-EndsAt (codes "a\r\n\r\nb")

five : header_block_len (codes "a\r\n\r\nb") ≡ 5
unfolding header_block_len find starts_with
five = refl

header_block_len-append_test :
    header_block_len (codes "a\r\n\r\nb" ++ codes "c") ≡ header_block_len (codes "a\r\n\r\nb")
header_block_len-append_test =
    header_block_len-append (codes "a\r\n\r\nb") (codes "c") (omega (arith, five))

abbrev smuggled : Bytes
smuggled = codes "GET /?Content-Length:9 HTTP/1.1\r\n Content-Length:8\r\nContent-Length: 7\r\n\r\n"

seven : find_header smuggled content_length_name ≡ some (codes " 7\r\n\r\n")
unfolding find_header
seven = refl

find_header_sound_test : HeaderLine smuggled content_length_name (codes " 7\r\n\r\n")
find_header_sound_test = find_header_sound smuggled content_length_name (codes " 7\r\n\r\n") seven

find_header-header_lines_example :
    find_header (get_line ++ (13 ∷ (10 ∷ header_lines lines))) content_length_name
    ≡ header_lookup content_length_name lines
find_header-header_lines_example =
    find_header-header_lines get_line lines content_length_name (omega arith) (omega arith)

abbrev field_12 : Field (codes " 12 \r\n") 12
field_12 = record {
  before = codes " ";
  number = codes "12";
  after = codes " ";
  rest = codes "\r\n";
  shape = refl;
  blank_before = (refl, tt);
  is_number = (refl, (refl, tt));
  number_ne_nil = cons-ne-nil _ _;
  blank_after = (refl, tt);
  line_end = refl;
  value_is = refl;
}

parse_content_length-Field_example : parse_content_length (codes " 12 \r\n") 100 ≡ classify 100 12
parse_content_length-Field_example = parse_content_length-Field (codes " 12 \r\n") 12 100 field_12

twelve : parse_content_length (codes " 12 \r\n") 100 ≡ accepted 12
unfolding parse_content_length
twelve = refl

junk : parse_content_length (codes "50000junk\r\n") 100 ≡ malformed
unfolding parse_content_length
junk = refl

parse_content_length_sound_test : Field (codes " 12 \r\n") 12 × (12 ≤ 100) × (12 ≤ size_max)
parse_content_length_sound_test = parse_content_length_sound (codes " 12 \r\n") 12 100 twelve

post-IsToken : IsToken (codes "POST")
post-IsToken = (omega arith, cons-ne-nil _ _)

path-IsToken : IsToken (codes "/a")
path-IsToken = (omega arith, cons-ne-nil _ _)

parse_request-line_test : parse_request (get_line ++ (13 ∷ (10 ∷ codes "\r\n"))) ≡ record {
  message = get_line ++ (13 ∷ (10 ∷ codes "\r\n"));
  method = codes "POST";
  uri = codes "/a";
  routes = [];
}
parse_request-line_test =
    parse_request-line (codes "POST") (codes "/a") (codes "HTTP/1.1") (codes "\r\n") post-IsToken
      path-IsToken (omega arith) (omega arith) (omega arith)

abbrev page : Response
page = record {
  status = 200;
  header = some (codes "Content-Type: text/plain\r\nX: y\r\n");
  body = some (codes "hello");
  length_field = 5;
  body_owned = false;
  header_owned = false;
}

abbrev page_lines : List Bytes
page_lines = codes "Content-Type: text/plain" ∷ codes "X: y" ∷ []

plain_lines : All PlainLine page_lines
unfolding ci_eq
plain_lines = ((omega arith, cons-ne-nil _ _, refl), ((omega arith, cons-ne-nil _ _, refl), tt))

page_len : body_len page ≤ 100
unfolding body_len
page_len = omega arith

page_whole : body_len page ≤ length (or_empty page.body)
unfolding body_len
page_whole = omega arith

write_response_framed_example :
    (header_block_len (write_response page) ≡ length (response_head page))
    × (drop (length (response_head page)) (write_response page)
        ≡ take (body_len page) (or_empty page.body))
    × (length (drop (length (response_head page)) (write_response page)) ≡ body_len page)
    × ((v : Bytes) × (find_header (response_head page) content_length_name ≡ some v)
        × (parse_content_length v 100 ≡ accepted (body_len page)))
write_response_framed_example =
    write_response_framed page page_lines 100 refl plain_lines page_len (omega arith) page_whole

page_bytes :
    write_response page
    ≡ codes "HTTP/1.1 200 OK\r\nContent-Type: text/plain\r\nX: y\r\nContent-Length: 5\r\n\r\nhello"
unfolding write_response response_head get_http_status_description body_len decimal dec_loop
page_bytes = refl

abbrev three : Bytes
three = codes "  3\r\n\r\n"

three_found : header_lookup content_length_name lines ≡ some three
unfolding ci_eq
three_found = refl

abbrev field_3 : Field three 3
field_3 = record {
  before = codes "  ";
  number = codes "3";
  after = [];
  rest = codes "\r\n\r\n";
  shape = refl;
  blank_before = (refl, (refl, tt));
  is_number = (refl, tt);
  number_ne_nil = cons-ne-nil _ _;
  blank_after = tt;
  line_end = refl;
  value_is = refl;
}

receive_too_large_example : (rest : Socket) × (receive 2 segments ≡ too_large rest)
receive_too_large_example =
    receive_too_large get_line lines three (codes "abc") 3 2 segments (omega arith) full_lines
      head_fits three_found field_3 (omega arith) flows arrived_whole

parse_http_response-write_response_example : parse_http_response (write_response page) ≡ record {
  status = page.status;
  headers = take (length (response_head page) - 2) (response_head page);
  body = take (body_len page) (or_empty page.body);
}
parse_http_response-write_response_example =
    parse_http_response-write_response page page_lines refl plain_lines (omega arith) (omega arith)
