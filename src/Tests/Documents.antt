-- ===== src/Tests/Documents.antt =====
-- src/json.c: texts that `Json.parse` reads.
use bialet.Json.Utf8.{Encodes, utf8_encode}
use bialet.Json.Text.{scan_string, parse_string}
use bialet.Json.Text.Bound.{parse_string-Decoded}
use bialet.Json.Utf8.{utf8_encode-Encodes}
use bialet.Json.Parser.Total.{KeepsDepth, json_parse_total}
use bialet.Json.Parser.{
  Answer, Strtod, json_parse, json, array, cons, nil, object, field, end, boolean, number, trailing,
}
use bialet.Prelude.{
  ◌+◌, ◌≤◌, ◌≡◌, refl, some, [], ◌∷◌, Bytes, length, drop, codes, starts_with, if◌then◌else◌,
}
use bialet.Prelude.{ℕ, true, false}

-- `"a\u20ac\n" ,`: an escaped euro sign and an escaped line feed in a string of 11 bytes.
abbrev literal : Bytes
literal = codes "\"a\\u20ac\\n\" ,"

abbrev decoded : Bytes
decoded = 97 ∷ 226 ∷ 130 ∷ 172 ∷ 10 ∷ []

parse_literal : parse_string literal ≡ some (decoded, codes " ,")
unfolding parse_string
parse_literal = refl

parse_string-Decoded_example :
    (len : ℕ) × (scan_string (drop 1 literal) ≡ some len)
    × (length decoded ≤ len)
    × (length literal ≡ length (codes " ,") + len + 2)
parse_string-Decoded_example = parse_string-Decoded literal decoded (codes " ,") parse_literal

utf8_encode-Encodes_test : Encodes 0x20AC (utf8_encode 0x20AC)
utf8_encode-Encodes_test = utf8_encode-Encodes 0x20AC

-- A `strtod` that knows one number.
abbrev one_number : Bytes → Strtod
one_number p =
    if starts_with (codes "1") p
    then record { count = 1; bits = 0x3FF0000000000000; erange = false }
    else record { count = 0; bits = 0; erange = false }

parse_document :
    json_parse one_number (codes "[1, {\"a\": true}]")
    ≡ some (
        json (
          array (
            cons
              (number 0x3FF0000000000000)
              (cons (object (field (codes "a") (boolean true) end)) nil))))
unfolding json_parse starts_with
parse_document = refl

parse_trailing : json_parse one_number (codes "null 1") ≡ some trailing
unfolding json_parse starts_with
parse_trailing = refl

json_parse_total_example :
    (a : Answer) × (json_parse one_number (codes "[1, {\"a\": true}]") ≡ some a) × KeepsDepth a
json_parse_total_example = json_parse_total one_number (codes "[1, {\"a\": true}]")
