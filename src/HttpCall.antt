-- ===== src/HttpCall.antt =====
-- src/http_call.c: `parse_http_response`, of the client's build for Windows.
pub mod Reads
pub mod Request
pub mod GivenHeaders
pub mod Base64
pub mod Sends
pub mod Urls
pub mod Transfer
pub mod Exchange
use bialet.Prelude.Decimal.{is_digit}
use bialet.Server.HeaderBlock.{terminator}
use bialet.Prelude.Search.{find}
use bialet.Prelude.{
  codes, ◌&&◌, zero, length, drop, ◌-◌, leb, ◌+◌, ◌*◌, if◌then◌else◌, ◌∷◌, suc, take, starts_with,
  Option, Bytes, ℕ, [], none, some, ◌>>=◌,
}

-- The fields of `struct HttpResponse` that it writes.
pub record HttpResponse : Type 0 where
  pub status : ℕ
  pub headers : Bytes
  pub body : Bytes

-- The digit loop, with the digits that are missing to three: `none` where it ends before.
unfoldable pub read_code : ℕ → ℕ → Bytes → Option ℕ
read_code zero code s = some code
read_code (suc missing) code [] = none
read_code (suc missing) code (c ∷ s) =
    let more = read_code missing (code * 10 + (c - b'0')) s in if is_digit c then more else none

abbrev pub or_zero : Option ℕ → ℕ
or_zero none = 0
or_zero (some n) = n

-- `res->status`.
unfoldable pub status_of : Bytes → ℕ
unfolding starts_with find read_code
status_of raw =
    let code = (do
      sp ← find (b' ' ∷ []) raw
      if leb (sp + 4) (length raw) then read_code 3 0 (drop (sp + 1) raw) else none) in
    if leb 12 (length raw) && starts_with (codes "HTTP/") raw then or_zero code else 0

pub halves : Bytes → ℕ → Option ℕ → HttpResponse
halves raw status none = record { status = status; headers = raw; body = [] }
halves raw status (some i) = record {
  status = status;
  headers = take (i + 2) raw;
  body = drop (i + 4) raw;
}

unfoldable pub parse_http_response : Bytes → HttpResponse
unfolding status_of find halves
parse_http_response raw = halves raw (status_of raw) (find terminator raw)
