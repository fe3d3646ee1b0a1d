-- ===== src/Server/Request.antt =====
-- src/server.c: `parse_request`, the request line of a message that has arrived.
pub mod RequestLine
use bialet.Prelude.{
  c_string, ℕ, ◌-◌, Option, none, some, [], ◌∷◌, ◌==◌, if◌then◌else◌, Bytes, codes, take,
}
use bialet.Prelude.Search.{find}
use bialet.Server.Reader.{buffer_size}
use bialet.World.{HttpMessage}

abbrev pub crlf : Bytes
crlf = 13 ∷ 10 ∷ []

-- The bytes before CR LF, or all.
line_at : Option ℕ → Bytes → Bytes
line_at none text = text
line_at (some i) text = take i text

-- `first_line`, cut to the buffer.
unfoldable pub first_line : Bytes → Bytes
unfolding line_at
first_line request =
    let text = c_string request in take (buffer_size - 1) (line_at (find crlf text) text)

unfoldable pub skip_spaces : Bytes → Bytes
skip_spaces [] = []
skip_spaces (c ∷ s) = if c == b' ' then skip_spaces s else c ∷ s

-- The token, and what follows the space behind it.
unfoldable pub token : Bytes → Bytes × Bytes
token [] = ([], [])
token (c ∷ s) = let (t, rest) = token s in if c == b' ' then ([], s) else (c ∷ t, rest)

-- `strtok_r(s, " ", &saveptr)`: the token, `none` where only spaces are left, and `saveptr`.
unfoldable pub strtok : Bytes → Option Bytes × Bytes
unfolding skip_spaces token
strtok s = elim (skip_spaces s) [
  | [] ↦ (none, [])
  | c ∷ t ↦ (some (token (c ∷ t)).0, (token (c ∷ t)).1)
]

abbrev or_default : Option Bytes → Bytes → Bytes
or_default none d = d
or_default (some t) d = t

-- An allocation that fails is not modelled.
unfoldable pub parse_request : Bytes → HttpMessage
unfolding first_line strtok c_string
parse_request request =
    let (method, saved) = strtok (first_line request) in
    let (url, later) = strtok saved in
    record {
      message = request;
      method = or_default method (codes "GET");
      uri = or_default url (codes "/");
      routes = [];
    }
