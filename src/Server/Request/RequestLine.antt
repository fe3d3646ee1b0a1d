-- ===== src/Server/Request/RequestLine.antt =====
-- `parse_request` reads the method and the URI of a request line.
use bialet.Prelude.{
  All-append, take_all, All-map, starts_with, take_append, ℕ, ◌-◌, ◌<◌, ◌≡◌, ◌≢◌, refl, ◌∙◌, some,
  [], ◌∷◌, ◌++◌, arith, Bytes, length, All,
}
use bialet.Prelude.Search.{find}
use bialet.Server.FindHeader.Lines.{NoCr}
use bialet.Server.Reader.{buffer_size}
use bialet.Prelude.{c_string}
use bialet.Server.Request.{crlf, first_line, skip_spaces, token, strtok, parse_request}
use bialet.Server.Root.{NoNul}

c_string-append : (s t : Bytes) → NoNul s → c_string (s ++ t) ≡ s ++ c_string t
unfolding c_string
c_string-append [] t h = refl
c_string-append (c ∷ s) t (hc, h) = ground (arith, c_string-append s t h)

find-crlf : (s t : Bytes) → NoCr s → find crlf (s ++ (13 ∷ (10 ∷ t))) ≡ some (length s)
unfolding find starts_with
find-crlf [] t h = refl
find-crlf (c ∷ s) t (hc, h) = ground (arith, find-crlf s t h)

first_line-append :
    (line t : Bytes)
    → NoNul line
    → NoCr line
    → length line < buffer_size
    → first_line (line ++ (13 ∷ (10 ∷ t))) ≡ line
unfolding first_line
first_line-append line t hn hc fits =
    let text : c_string (line ++ (13 ∷ (10 ∷ t))) ≡ line ++ (13 ∷ (10 ∷ c_string t)) =
      c_string-append line (13 ∷ (10 ∷ t)) hn ∙ unfold c_string in refl in
    rw (text, find-crlf line (c_string t) hc, take_append line (13 ∷ (10 ∷ c_string t)))
      (take_all (buffer_size - 1) line (omega arith))

-- A word of a request line.
abbrev pub IsToken : Bytes → Type 0
IsToken s = All (λ c. (c ≢ b' ') × (c ≢ 0) × (c ≢ 13)) s × (s ≢ [])

token-append :
    (s t : Bytes) → All (λ c. (c ≢ b' ') × (c ≢ 0) × (c ≢ 13)) s → token (s ++ (b' ' ∷ t)) ≡ (s, t)
unfolding token
token-append [] t h = refl
token-append (c ∷ s) t (hc, h) = ground (arith, token-append s t h)

skip_spaces-word : (c : ℕ) (s : Bytes) → c ≢ b' ' → skip_spaces (c ∷ s) ≡ c ∷ s
unfolding skip_spaces
skip_spaces-word c s h = ground arith

-- The method, the URI and the version, with a space between them.
abbrev pub request_line : Bytes → Bytes → Bytes → Bytes
request_line method uri version = method ++ (b' ' ∷ (uri ++ (b' ' ∷ version)))

pub request_line-NoNul :
    (method uri version : Bytes)
    → IsToken method
    → IsToken uri
    → NoNul version
    → NoNul (request_line method uri version)
request_line-NoNul method uri version hm hu h =
    let word = λ (s : Bytes) (t : IsToken s). All-map _ (λ c. c ≢ 0) s (λ c q. q.1) t.0 in
    All-append _ method _ (word method hm)
      (omega arith, All-append _ uri _ (word uri hu) (omega arith, h))

pub request_line-NoCr :
    (method uri version : Bytes)
    → IsToken method
    → IsToken uri
    → NoCr version
    → NoCr (request_line method uri version)
request_line-NoCr method uri version hm hu h =
    let word = λ (s : Bytes) (t : IsToken s). All-map _ (λ c. c ≢ 13) s (λ c q. q.2) t.0 in
    All-append _ method _ (word method hm)
      (omega arith, All-append _ uri _ (word uri hu) (omega arith, h))

strtok-append : (s t : Bytes) → IsToken s → strtok (s ++ (b' ' ∷ t)) ≡ (some s, t)
unfolding strtok skip_spaces
strtok-append [] t (_, ne) = absurd (ne refl)
strtok-append (c ∷ s) t ((hc, h), ne) =
    rw (skip_spaces-word c (s ++ (b' ' ∷ t)) hc.0, strtok)
      (rw (token-append (c ∷ s) t (hc, h)) refl)

-- The method and the URI are the first two words of the request line, whatever follows the second
-- one and the line, if the words hold no space, NUL or CR, the rest of the line no NUL or CR, and
-- the line fits the buffer. The whole request is kept as the message, and the routes are empty.
pub parse_request-line :
    (method uri version rest : Bytes)
    → IsToken method
    → IsToken uri
    → NoNul version
    → NoCr version
    → length (request_line method uri version) < buffer_size
    → parse_request (request_line method uri version ++ (13 ∷ (10 ∷ rest))) ≡ record {
      message = request_line method uri version ++ (13 ∷ (10 ∷ rest));
      method = method;
      uri = uri;
      routes = [];
    }
unfolding parse_request
parse_request-line method uri version rest hm hu hn hc fits =
    let line = request_line method uri version in
    let whole =
      first_line-append line rest (request_line-NoNul method uri version hm hu hn)
        (request_line-NoCr method uri version hm hu hc) fits in
    rw (whole, strtok-append method (uri ++ (b' ' ∷ version)) hm, strtok-append uri version hu) refl
