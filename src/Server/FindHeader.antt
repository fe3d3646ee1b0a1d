-- ===== src/Server/FindHeader.antt =====
-- src/server.c: `ci_ncmp` and `find_header`, the search for a header field in a header block.
pub mod Sound
pub mod Lines
use bialet.Prelude.{
  codes, ℕ, zero, suc, ◌+◌, ◌≡◌, Bool, true, false, ◌&&◌, Option, none, some, List, [], ◌∷◌, ◌>>=◌,
  ltb, leb, ◌==◌, if◌then◌else◌, Bytes, peek, length, drop,
}

-- `tolower` in the C locale.
abbrev pub tolower : ℕ → ℕ
tolower c = if leb b'A' c && leb c b'Z' then c + 32 else c

-- `ci_ncmp(p, name, strlen(name)) == 0`.
unfoldable pub ci_eq : Bytes → Bytes → Bool
ci_eq [] p = true
ci_eq (x ∷ name) [] = false
ci_eq (x ∷ name) (c ∷ p) = if tolower c == tolower x then ci_eq name p else false

abbrev pub is_crlf : ℕ → ℕ → Bool
is_crlf c d = c == 13 && d == 10

-- The first loop: `none` where `p + 1 >= end`, else what follows the request line.
pub skip_request_line : Bytes → Option Bytes
skip_request_line [] = none
skip_request_line (c ∷ []) = none
skip_request_line (c ∷ (d ∷ s)) = if is_crlf c d then some s else skip_request_line (d ∷ s)

-- `eol - p`: the loop stops at the last byte of the block where no CR LF is left.
pub line_len : Bytes → ℕ
line_len [] = 0
line_len (c ∷ []) = 0
line_len (c ∷ (d ∷ s)) = if is_crlf c d then 0 else suc (line_len (d ∷ s))

abbrev pub line_matches : Bytes → ℕ → Bytes → Bool
line_matches name len p =
    ltb (length name) len && peek (drop (length name) p) == b':' && ci_eq name p

-- The second loop, over the lines; the result is what follows the colon.
pub find_line : ℕ → Bytes → Bytes → Option Bytes
find_line zero name p = none
find_line (suc fuel) name [] = none
find_line (suc fuel) name (c ∷ s) =
    let p = c ∷ s in
    let len = line_len p in
    let rest = find_line fuel name (drop 2 (drop len p)) in
    if line_matches name len p
    then some (drop 1 (drop (length name) p))
    else if leb (length p) (len + 1)
    then none
    else rest

-- A round of the second loop takes two bytes or more, so the length of the block is fuel enough.
unfoldable pub find_header : Bytes → Bytes → Option Bytes
unfolding ci_eq skip_request_line line_len find_line
find_header hdr name = skip_request_line hdr >>= find_line (length hdr) name

-- The name is passed without its colon.
abbrev pub content_length_name : Bytes
content_length_name = codes "Content-Length"
