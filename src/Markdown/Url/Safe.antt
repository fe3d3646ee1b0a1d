-- ===== src/Markdown/Url/Safe.antt =====
-- Which URLs `is_safe_url` lets through.
use mathlib.Core.Path.{subst}
use bialet.Markdown.Url.{
  ends_scheme, scheme_of, lower_case, allowed, matches_scheme, is_allowed, check_scheme,
  is_safe_url,
}
use bialet.Prelude.{
  ℕ, ◌≡◌, ◌≢◌, refl, ap, ◌⊎◌, inl, inr, ◌↔◌, true, false, ◌&&◌, none, some, List, [], ◌∷◌, ◌++◌,
  arith, ◌==◌, Bytes, Bool-cases, Option-cases, length, map, All, some_inj,
}

-- Neither a colon nor a byte that ends the search.
abbrev pub IsSchemeByte : ℕ → Type 0
IsSchemeByte c = (c ≢ b':') × (ends_scheme c ≡ false)

abbrev pub IsOneOf : Bytes → List Bytes → Type 0
IsOneOf s [] = ⊥
IsOneOf s (name ∷ names) = (s ≡ name) ⊎ IsOneOf s names

-- A reference with no scheme: it has no colon, or a slash, a question mark or a hash before it.
pub record IsRelative (url : Bytes) : Type 0 where
  pub before : Bytes
  pub rest : Bytes
  pub splits : url ≡ before ++ rest
  pub plain : All IsSchemeByte before
  pub ended : (rest ≡ []) ⊎ ((c : ℕ) × (s : Bytes) × (rest ≡ c ∷ s) × (ends_scheme c ≡ true))

-- A URL with a scheme of the list, in upper or lower case.
pub record HasAllowedScheme (url : Bytes) : Type 0 where
  pub scheme : Bytes
  pub rest : Bytes
  pub splits : url ≡ scheme ++ (b':' ∷ rest)
  pub plain : All IsSchemeByte scheme
  pub listed : IsOneOf (map lower_case scheme) allowed

abbrev pub IsSafe : Bytes → Type 0
IsSafe url = IsRelative url ⊎ HasAllowedScheme url

scheme_of-none : (url : Bytes) → scheme_of url ≡ none → IsRelative url
unfolding scheme_of
scheme_of-none [] h = record { before = []; rest = []; splits = refl; plain = tt; ended = inl refl }
scheme_of-none (c ∷ url) h = elim (Bool-cases (c == b':')) [
  | inl e ↦ absurd (cc (rw e at h))
  | inr e ↦ elim (Bool-cases (ends_scheme c)) [
    | inl e₁ ↦ record {
      before = [];
      rest = c ∷ url;
      splits = refl;
      plain = tt;
      ended = inr (c, url, refl, e₁);
    }
    | inr e₁ ↦ elim (Option-cases (scheme_of url)) [
      | inl n ↦
          let r = scheme_of-none url n in
          record {
            before = c ∷ r.before;
            rest = r.rest;
            splits = ap (◌∷◌ c) r.splits;
            plain = ((ground arith, e₁), r.plain);
            ended = r.ended;
          }
      | inr (s, n) ↦ absurd (cc (rw (e, e₁, n) at h))
    ]
  ]
]

-- The text before the first colon.
record Before (url scheme : Bytes) : Type 0 where
  rest : Bytes
  splits : url ≡ scheme ++ (b':' ∷ rest)
  plain : All IsSchemeByte scheme

scheme_of-some : (url scheme : Bytes) → scheme_of url ≡ some scheme → Before url scheme
unfolding scheme_of
scheme_of-some [] scheme h = absurd (cc)
scheme_of-some (c ∷ url) scheme h = elim (Bool-cases (c == b':')) [
  | inl e ↦
      subst (Before (c ∷ url)) (some_inj (rw e at h))
        (record { rest = url; splits = ground arith; plain = tt })
  | inr e ↦ elim (Bool-cases (ends_scheme c)) [
    | inl e₁ ↦ absurd (cc (rw (e, e₁) at h))
    | inr e₁ ↦ elim (Option-cases (scheme_of url)) [
      | inl n ↦ absurd (cc (rw (e, e₁, n) at h))
      | inr (s, n) ↦
          let r = scheme_of-some url s n in
          subst (Before (c ∷ url)) (some_inj (rw (e, e₁, n) at h)) (record {
            rest = r.rest;
            splits = ap (◌∷◌ c) r.splits;
            plain = ((ground arith, e₁), r.plain);
          })
    ]
  ]
]

none-scheme_of :
    (before rest : Bytes)
    → All IsSchemeByte before
    → (rest ≡ []) ⊎ ((c : ℕ) × (s : Bytes) × (rest ≡ c ∷ s) × (ends_scheme c ≡ true))
    → scheme_of (before ++ rest) ≡ none
unfolding scheme_of
none-scheme_of [] rest _ (inl e) = rw e refl
none-scheme_of [] rest _ (inr (c, s, e, h)) =
    let other : (c == b':') ≡ false = ground arith in rw (e, other, h) refl
none-scheme_of (c ∷ before) rest ((p, q), more) ended =
    let other : (c == b':') ≡ false = ground arith in
    rw (other, q, none-scheme_of before rest more ended) refl

some-scheme_of :
    (scheme rest : Bytes)
    → All IsSchemeByte scheme
    → scheme_of (scheme ++ (b':' ∷ rest)) ≡ some scheme
unfolding scheme_of
some-scheme_of [] rest _ = refl
some-scheme_of (c ∷ scheme) rest ((p, q), more) =
    let other : (c == b':') ≡ false = ground arith in
    rw (other, q, some-scheme_of scheme rest more) refl

matches_scheme_iff :
    (name scheme : Bytes)
    → ((length name == length scheme && matches_scheme name scheme) ≡ true)
      ↔ (map lower_case scheme ≡ name)
unfolding matches_scheme
matches_scheme_iff [] [] = ground arith
matches_scheme_iff [] (c ∷ scheme) = ground arith
matches_scheme_iff (a ∷ name) [] = ground arith
matches_scheme_iff (a ∷ name) (c ∷ scheme) = ground (arith, matches_scheme_iff name scheme)

is_allowed_iff :
    (names : List Bytes) (scheme : Bytes)
    → (is_allowed names scheme ≡ true) ↔ IsOneOf (map lower_case scheme) names
unfolding is_allowed
is_allowed_iff [] scheme = (λ h. cc, λ h. absurd h)
is_allowed_iff (name ∷ names) scheme =
    elim (Bool-cases (length name == length scheme && matches_scheme name scheme)) [
      | inl e ↦ (λ _. inl ((matches_scheme_iff name scheme).0 e), λ _. rw e refl)
      | inr e ↦ (
        λ h. inr ((is_allowed_iff names scheme).0 (rw e at h)),
        λ h. elim h [
          | inl q ↦ absurd (cc (e, (matches_scheme_iff name scheme).1 q))
          | inr q ↦ rw e ((is_allowed_iff names scheme).1 q)
        ],
      )
    ]

-- A URL is let through exactly when it is relative, or its scheme is http, https, mailto, tel or
-- ftp in any case; so javascript: and data: URLs are not.
pub is_safe_url_iff : (url : Bytes) → (is_safe_url url ≡ true) ↔ IsSafe url
unfolding is_safe_url
is_safe_url_iff url = (forth, back)
  where
    forth : check_scheme (scheme_of url) ≡ true → IsSafe url
    forth h = elim (Option-cases (scheme_of url)) [
      | inl n ↦ inl (scheme_of-none url n)
      | inr (s, n) ↦
          let r = scheme_of-some url s n in
          inr (record {
            scheme = s;
            rest = r.rest;
            splits = r.splits;
            plain = r.plain;
            listed = (is_allowed_iff allowed s).0 (rw n at h);
          })
    ]

    back : IsSafe url → check_scheme (scheme_of url) ≡ true
    back (inl r) = rw (r.splits, none-scheme_of r.before r.rest r.plain r.ended) refl
    back (inr r) =
        rw (r.splits, some-scheme_of r.scheme r.rest r.plain)
          ((is_allowed_iff allowed r.scheme).1 r.listed)
