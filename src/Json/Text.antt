-- ===== src/Json/Text.antt =====
-- src/json.c: `skip_ws`, `hex4` and `parse_string`. The document is a C string.
pub mod Bound
use bialet.Json.Utf8.{utf8_encode}
use mathlib.Core.Option
use bialet.Prelude.{
  ℕ, zero, suc, ◌+◌, ◌-◌, ◌*◌, Bool, ◌&&◌, ◌||◌, Option, none, some, [], ◌∷◌, ◌++◌, ◌>>=◌, ltb, leb,
  ◌==◌, if◌then◌else◌, Bytes, length,
}

abbrev pub is_ws : ℕ → Bool
is_ws c = c == b' ' || c == 9 || c == 10 || c == 13

unfoldable pub skip_ws : Bytes → Bytes
skip_ws [] = []
skip_ws (c ∷ p) = if is_ws c then skip_ws p else c ∷ p

abbrev pub hex_digit : ℕ → Option ℕ
hex_digit c =
    if leb b'0' c && leb c b'9'
    then some (c - b'0')
    else if leb b'a' c && leb c b'f'
    then some (c - b'a' + 10)
    else if leb b'A' c && leb c b'F'
    then some (c - b'A' + 10)
    else none

-- `n` rounds of the loop; `none` for -1. `v << 4 | d` joins disjoint bits.
unfoldable pub hex_loop : ℕ → ℕ → Bytes → Option (ℕ × Bytes)
hex_loop zero v s = some (v, s)
hex_loop (suc n) v [] = none
hex_loop (suc n) v (c ∷ s) = do d ← hex_digit c; hex_loop n (v * 16 + d) s

-- The value of four hexadecimal digits, and `s + 4`.
unfoldable pub hex4 : Bytes → Option (ℕ × Bytes)
unfolding hex_loop
hex4 = hex_loop 4 0

-- The scan that measures the token: the distance to the closing quote, `none` where there is none.
unfoldable pub scan_string : Bytes → Option ℕ
scan_string [] = none
scan_string (c ∷ []) = if c == b'"' then some 0 else none
scan_string (c ∷ (d ∷ s)) =
    let escape = Option.map (λ n. n + 2) (scan_string s) in
    let plain = Option.map suc (scan_string (d ∷ s)) in
    if c == b'"' then some 0 else if c == b'\\' then escape else plain

-- The one-letter escapes.
unfoldable pub simple_escape : ℕ → Option ℕ
simple_escape c =
    if c == b'"'
    then some b'"'
    else if c == b'\\'
    then some b'\\'
    else if c == b'/'
    then some b'/'
    else if c == b'b'
    then some 8
    else if c == b'f'
    then some 12
    else if c == b'n'
    then some 10
    else if c == b'r'
    then some 13
    else if c == b't'
    then some 9
    else none

unfoldable pub join_halves : ℕ → ℕ → Bytes → Option (ℕ × Bytes)
join_halves high low rest =
    if ltb low 0xDC00 || ltb 0xDFFF low
    then none
    else some (0x10000 + (high - 0xD800) * 1024 + (low - 0xDC00), rest)

-- The low half of a surrogate pair, behind `\u` and the high half.
unfoldable pub low_half : ℕ → Bytes → Option (ℕ × Bytes)
low_half high (c ∷ (d ∷ s)) =
    if c == b'\\' && d == b'u' then (do (low, rest) ← hex4 s; join_halves high low rest) else none
low_half high _ = none

-- A high half wants its low half, and a low half alone is refused.
unfoldable pub classify_unit : ℕ → Bytes → Option (ℕ × Bytes)
classify_unit cp rest =
    if leb 0xD800 cp && leb cp 0xDBFF
    then low_half cp rest
    else if leb 0xDC00 cp && leb cp 0xDFFF
    then none
    else some (cp, rest)

-- The code point behind `\u`.
unfoldable pub unicode_escape : Bytes → Option (ℕ × Bytes)
unfolding hex4 low_half join_halves classify_unit
unicode_escape s = do (cp, rest) ← hex4 s; classify_unit cp rest

-- What a backslash introduces: the bytes that go to the buffer, and what follows.
unfoldable pub escape : Bytes → Option (Bytes × Bytes)
unfolding simple_escape unicode_escape utf8_encode
escape [] = none
escape (c ∷ s) =
    if c == b'u'
    then (do (cp, rest) ← unicode_escape s; bytes ← utf8_encode cp; some (bytes, rest))
    else (do d ← simple_escape c; some (d ∷ [], s))

-- The decoding loop; each round takes a byte or more, so the length is fuel enough. The result is
-- the content of the buffer and what follows the closing quote.
unfoldable pub decode : ℕ → Bytes → Option (Bytes × Bytes)
unfolding escape
decode zero s = none
decode (suc fuel) [] = none
decode (suc fuel) (c ∷ s) =
    let escaped = (do
      (bytes, rest) ← escape s
      (more, end) ← decode fuel rest
      some (bytes ++ more, end)) in
    let copied = (do (more, end) ← decode fuel s; some (c ∷ more, end)) in
    if c == b'"' then some ([], s) else if c == b'\\' then escaped else copied

-- `parse_string` at a text that begins with a quote. An allocation that fails is not modelled.
unfoldable pub decode_scanned : Option ℕ → Bytes → Option (Bytes × Bytes)
decode_scanned none s = none
decode_scanned (some len) s = decode (suc (length s)) s

unfoldable pub parse_string : Bytes → Option (Bytes × Bytes)
unfolding scan_string decode decode_scanned
parse_string [] = none
parse_string (c ∷ s) = if c == b'"' then decode_scanned (scan_string s) s else none
