-- ===== src/HttpCall/Urls.antt =====
-- URLs that are taken apart.
use bialet.Prelude.Search.{find}
use bialet.HttpCall.Request.{scheme, port_text, ParsedUrl, parse_url}
use bialet.Prelude.{
  take, drop_append, take_append, ltb, leb, ◌||◌, length-append, ◌∙◌, ◌==◌, append_assoc, ◌-◌, ap,
  sym, All-append, ◌+◌, arith, ◌≢◌, ◌++◌, codes, Bool, length, ◌≡◌, drop, if◌then◌else◌, ◌<◌, All,
  starts_with, ℕ, Bytes, some, true, false, [], ◌∷◌, suc, refl,
}

abbrev pub Without : ℕ → Bytes → Type 0
Without d = All (λ c. c ≢ d)

-- A URL that names its port.
abbrev pub print_url : ParsedUrl → Bytes
print_url u =
    (if u.is_https then codes "https://" else codes "http://")
    ++ (u.host ++ ((b':' ∷ u.port) ++ u.path))

-- The fields that it may have: none empty, each within its buffer with a NUL.
pub record IsUrl (u : ParsedUrl) : Type 0 where
  pub host_ok : Without b'/' u.host × Without b':' u.host
  pub host_size : (0 < length u.host) × (length u.host < 256)
  pub port_ok : Without b'/' u.port
  pub port_size : (0 < length u.port) × (length u.port < 8)
  pub path_ok : (rest : Bytes) × (u.path ≡ b'/' ∷ rest)
  pub path_size : length u.path < 1024

find-first : (d : ℕ) (s t : Bytes) → Without d s → find (d ∷ []) (s ++ (d ∷ t)) ≡ some (length s)
unfolding find starts_with
find-first d [] t h = ground arith
find-first d (c ∷ s) t (hc, h) = ground (arith, find-first d s t h)

scheme-print :
    (b : Bool) (s : Bytes)
    → scheme ((if b then codes "https://" else codes "http://") ++ s)
      ≡ some (b, (if b then codes "443" else codes "80"), s)
unfolding scheme starts_with
scheme-print true s = refl
scheme-print false s = refl

drop_behind : (s : Bytes) (d : ℕ) (t : Bytes) → drop (length s + 1) (s ++ (d ∷ t)) ≡ t
drop_behind s d t =
    let more : length s + 1 ≡ suc (length s) = omega arith in
    ap (λ n. drop n (s ++ (d ∷ t))) more ∙ go s
  where
    go : (s : Bytes) → drop (suc (length s)) (s ++ (d ∷ t)) ≡ t
    go [] = refl
    go (c ∷ s) = go s

port_text-port :
    (default host port path : Bytes)
    → 0 < length port
    → length port < 8
    → port_text default
        (some (length host))
        (some (length host + (1 + length port)))
        (host ++ ((b':' ∷ port) ++ path))
      ≡ some port
port_text-port default host port path some_port small =
    let size : length host + (1 + length port) - (length host + 1) ≡ length port = omega arith in
    let fits : (length port == 0 || leb 8 (length port)) ≡ false = ground arith in
    let behind : drop (length host + 1) (host ++ ((b':' ∷ port) ++ path)) ≡ port ++ path =
      drop_behind host b':' (port ++ path) in
    rw (size, fits, behind, take_append port path) refl

-- The host, the port and the path of a URL that names its port are found again, and the scheme
-- alone tells whether it is https: the host holds no slash and no colon, the port no slash, the
-- path begins with a slash, and each fits its buffer.
pub parse_url-print_url : (u : ParsedUrl) → IsUrl u → parse_url (print_url u) ≡ some u
unfolding parse_url
parse_url-print_url u h =
    let (rest, is_path) = h.path_ok in
    let p = u.host ++ ((b':' ∷ u.port) ++ u.path) in
    let front = u.host ++ (b':' ∷ u.port) in
    let no_slash : Without b'/' front =
      All-append _ u.host (b':' ∷ u.port) h.host_ok.0 (omega arith, h.port_ok) in
    let size : length front ≡ length u.host + (1 + length u.port) =
      omega (arith, length-append u.host (b':' ∷ u.port)) in
    let joined : p ≡ front ++ (b'/' ∷ rest) =
      sym (append_assoc u.host (b':' ∷ u.port) u.path) ∙ ap (λ t. front ++ t) is_path in
    let slash : find (b'/' ∷ []) p ≡ some (length u.host + (1 + length u.port)) =
      ap (find (b'/' ∷ [])) joined ∙ (find-first b'/' front rest no_slash ∙ ap some size) in
    let colon : find (b':' ∷ []) p ≡ some (length u.host) =
      find-first b':' u.host (u.port ++ u.path) h.host_ok.1 in
    let earlier : ltb (length u.host) (length u.host + (1 + length u.port)) ≡ true = ground arith in
    let default = if u.is_https then codes "443" else codes "80" in
    let port = port_text-port default u.host u.port u.path h.port_size.0 h.port_size.1 in
    let path : drop (length u.host + (1 + length u.port)) p ≡ u.path =
      ap (λ n. drop n p) (sym size)
      ∙ (ap (drop (length front)) joined ∙ (drop_append front (b'/' ∷ rest) ∙ sym is_path)) in
    let all_host : length u.host - 0 ≡ length u.host = omega arith in
    let host : take (length u.host - 0) p ≡ u.host =
      ap (λ n. take n p) all_host ∙ take_append u.host ((b':' ∷ u.port) ++ u.path) in
    let sizes : (length u.host == 0 || leb 256 (length u.host)) ≡ false =
      ground (arith, h.host_size.0, h.host_size.1) in
    let path_fits : leb 1024 (length u.path) ≡ false = ground (arith, h.path_size) in
    rw (scheme-print u.is_https p)
      (rw (slash, colon, earlier, port, host, path, sizes, path_fits) refl)
