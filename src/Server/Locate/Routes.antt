-- ===== src/Server/Locate/Routes.antt =====
-- The search for `_route.wren` through the ancestors of a URI.
use bialet.Prelude.{
  zero, refl, Bool-cases, suc, ℕ, ◌≤◌, Bool, ◌⊎◌, ◌<◌, ◌≡◌, inl, inr, true, false, Option, none,
  some, [], ◌∷◌, arith, Bytes, length, Option-cases,
}
use bialet.Server.CustomError.{Config, is_regular}
use bialet.Server.Locate.{find_route, before_last_slash, route_file}
use bialet.World.{World}

-- `url` is `uri` with some of its last components cut off.
pub data Ancestor (uri : Bytes) : Bytes → Type 0 where
  self : Ancestor uri uri
  up :
      {url parent : Bytes}
      → Ancestor uri url
      → before_last_slash url ≡ some parent
      → Ancestor uri parent

before_last_slash-shorter : (s t : Bytes) → before_last_slash s ≡ some t → length t < length s
unfolding before_last_slash
before_last_slash-shorter [] t h = cc
before_last_slash-shorter (c ∷ s) t h = elim (Option-cases (before_last_slash s)) [
  | inl e ↦ ground arith
  | inr (u, e) ↦ ground (arith, before_last_slash-shorter s u e)
]

-- An ancestor is the URI itself, or an ancestor of its parent.
Ancestor-cases :
    {uri url : Bytes}
    → Ancestor uri url
    → (url ≡ uri) ⊎ ((parent : Bytes) × (before_last_slash uri ≡ some parent) × Ancestor parent url)
Ancestor-cases self = inl refl
Ancestor-cases (up {url} {parent} a e) = elim (Ancestor-cases a) [
  | inl same ↦ inr (parent, rw (← same) e, self)
  | inr (top, q, b) ↦ inr (top, q, up b e)
]

Ancestor-parent :
    {uri parent url : Bytes}
    → before_last_slash uri ≡ some parent
    → Ancestor parent url
    → Ancestor uri url
Ancestor-parent e self = up self e
Ancestor-parent e (up a q) = up (Ancestor-parent e a) q

Ancestor-length : {uri url : Bytes} → Ancestor uri url → length url ≤ length uri
Ancestor-length self = omega arith
Ancestor-length (up {url} {parent} a e) =
    omega (arith, Ancestor-length a, before_last_slash-shorter url parent e)

-- `_route.wren` is a regular file at `url`, and no link.
abbrev pub is_route : World → Config → Bytes → Bool
is_route w cfg url = is_regular (w.lstat (route_file cfg url))

-- What the search from `uri` may answer: the nearest ancestor with a route file, or nothing
-- where no ancestor has one.
pub data Search (w : World) (cfg : Config) (uri : Bytes) : Option (Bytes × Bytes) → Type 0 where
  found :
      (url : Bytes)
      → Ancestor uri url
      → is_route w cfg url ≡ true
      → ((other : Bytes)
          → Ancestor uri other
          → length url < length other
          → is_route w cfg other ≡ false)
      → Search w cfg uri (some (route_file cfg url, url))
  nothing :
      ((other : Bytes) → Ancestor uri other → is_route w cfg other ≡ false) → Search w cfg uri none

-- Where the URI itself has no route file, the search goes on at its parent.
Search-parent :
    (w : World) (cfg : Config) {uri parent : Bytes} {r : Option (Bytes × Bytes)}
    → is_route w cfg uri ≡ false
    → before_last_slash uri ≡ some parent
    → Search w cfg parent r
    → Search w cfg uri r
Search-parent w cfg {uri} {parent} miss e (found url a h far) =
    found url (Ancestor-parent e a) h (λ other b longer. elim (Ancestor-cases b) [
      | inl same ↦ rw same miss
      | inr (top, q, c) ↦ let same : parent ≡ top = ground arith in far other (rw same c) longer
    ])
Search-parent w cfg {uri} {parent} miss e (nothing far) = nothing (λ other b.
    elim (Ancestor-cases b) [
      | inl same ↦ rw same miss
      | inr (top, q, c) ↦ let same : parent ≡ top = ground arith in far other (rw same c)
    ])

Search-top :
    (w : World) (cfg : Config) {uri : Bytes}
    → is_route w cfg uri ≡ false
    → before_last_slash uri ≡ none
    → Search w cfg uri none
Search-top w cfg miss e =
    nothing (λ other b. elim (Ancestor-cases b) [
      | inl same ↦ rw same miss
      | inr (top, q, c) ↦ absurd (cc)
    ])

-- With fuel above the length of the URI the search ends, and its answer is the nearest ancestor
-- of the URI, itself included, that has a regular `_route.wren`, or nothing where none has.
pub find_route-Search :
    (fuel : ℕ) (w : World) (cfg : Config) (uri : Bytes)
    → length uri < fuel
    → Search w cfg uri (find_route fuel w cfg uri)
unfolding find_route
find_route-Search zero w cfg uri h = absurd (omega arith)
find_route-Search (suc fuel) w cfg uri h = elim (Bool-cases (is_route w cfg uri)) [
  | inl hit ↦
      rw (hit, find_route)
        (found uri self hit (λ other a longer. absurd (omega (arith, Ancestor-length a))))
  | inr miss ↦ elim (Option-cases (before_last_slash uri)) [
    | inl top ↦ rw (miss, top, find_route) (Search-top w cfg miss top)
    | inr (parent, e) ↦
        rw (miss, e, find_route)
          (Search-parent w cfg miss e (
            find_route-Search fuel w cfg parent
              (omega (arith, before_last_slash-shorter uri parent e))))
  ]
]
