-- ===== src/Markdown/Url.antt =====
-- src/markdown.c: `is_safe_url`.
pub mod Safe
use mathlib.Core.Option
use bialet.Prelude.{
  ℕ, ◌+◌, ◌-◌, Bool, true, false, ◌&&◌, ◌||◌, Option, none, some, List, [], ◌∷◌, ◌==◌, leb,
  if◌then◌else◌, Bytes, codes, length,
}

-- The bytes that end the search for a scheme.
abbrev pub ends_scheme : ℕ → Bool
ends_scheme c = c == b'/' || c == b'?' || c == b'#'

-- The first loop: the bytes before the colon, or `none` where there is no scheme.
pub scheme_of : Bytes → Option Bytes
scheme_of [] = none
scheme_of (c ∷ url) =
    let more = Option.map (◌∷◌ c) (scheme_of url) in
    if c == b':' then some [] else if ends_scheme c then none else more

abbrev pub lower_case : ℕ → ℕ
lower_case c = if leb b'A' c && leb c b'Z' then c - b'A' + b'a' else c

abbrev pub allowed : List Bytes
allowed = codes "http" ∷ codes "https" ∷ codes "mailto" ∷ codes "tel" ∷ codes "ftp" ∷ []

-- The inner loop, `k == len` at its end; both texts have the same length.
pub matches_scheme : Bytes → Bytes → Bool
matches_scheme [] scheme = true
matches_scheme (a ∷ name) [] = false
matches_scheme (a ∷ name) (c ∷ scheme) =
    if lower_case c == a then matches_scheme name scheme else false

pub is_allowed : List Bytes → Bytes → Bool
is_allowed [] scheme = false
is_allowed (name ∷ names) scheme =
    if length name == length scheme && matches_scheme name scheme
    then true
    else is_allowed names scheme

check_scheme : Option Bytes → Bool
check_scheme none = true
check_scheme (some scheme) = is_allowed allowed scheme

-- The text is the `n` bytes from `url` on.
unfoldable pub is_safe_url : Bytes → Bool
unfolding scheme_of matches_scheme is_allowed check_scheme
is_safe_url url = check_scheme (scheme_of url)
