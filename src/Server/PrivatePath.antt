-- ===== src/Server/PrivatePath.antt =====
-- src/server.c: `has_forbidden_uri_component` and `path_basename`.
use mathlib.Core.List.{cons-ne-nil}
use bialet.Prelude.{
  All-append, append_assoc, All, append-nil, ℕ, ◌≡◌, refl, sym, ap, ◌∙◌, ◌⊎◌, inl, inr, ◌↔◌, Bool,
  true, false, not, ◌&&◌, ◌||◌, [], ◌∷◌, ◌++◌, arith, ◌==◌, if◌then◌else◌, Bool-cases, Bytes,
}

abbrev pub is_separator : ℕ → Bool
is_separator c = c == b'/' || c == b'\\'

abbrev pub is_hidden : ℕ → Bool
is_hidden c = c == b'_' || c == b'.'

-- The nested loops as one machine: the flag holds between components, where the outer loop skips
-- separators and looks at the first byte, and falls inside one, where the inner loop runs on.
scan_components : Bool → Bytes → Bool
scan_components start [] = false
scan_components start (c ∷ uri) =
    if start && not (is_separator c) && is_hidden c
    then true
    else scan_components (is_separator c) uri

unfoldable pub has_forbidden_uri_component : Bytes → Bool
unfolding scan_components
has_forbidden_uri_component uri = scan_components true uri

abbrev EndsWithSeparator : Bytes → Type 0
EndsWithSeparator [] = ⊥
EndsWithSeparator (c ∷ []) = is_separator c ≡ true
EndsWithSeparator (c ∷ (d ∷ s)) = EndsWithSeparator (d ∷ s)

abbrev pub AtBoundary : Bytes → Type 0
AtBoundary before = (before ≡ []) ⊎ EndsWithSeparator before

-- A path component that begins with `_` or `.`.
pub record HiddenComponent (uri : Bytes) : Type 0 where
  pub before : Bytes
  pub first : ℕ
  pub rest : Bytes
  pub splits : uri ≡ before ++ (first ∷ rest)
  pub boundary : AtBoundary before
  pub hidden : is_hidden first ≡ true

-- The same below a text whose end is a boundary exactly if the flag says so.
record Found (start : Bool) (uri : Bytes) : Type 0 where
  before : Bytes
  first : ℕ
  rest : Bytes
  splits : uri ≡ before ++ (first ∷ rest)
  boundary : ((before ≡ []) × (start ≡ true)) ⊎ EndsWithSeparator before
  hidden : is_hidden first ≡ true

EndsWithSeparator-cons :
    (c : ℕ) (s : Bytes) (start : Bool)
    → start ≡ is_separator c
    → ((s ≡ []) × (start ≡ true)) ⊎ EndsWithSeparator s
    → EndsWithSeparator (c ∷ s)
EndsWithSeparator-cons c [] start e (inl (_, h)) = sym e ∙ h
EndsWithSeparator-cons c [] start e (inr h) = absurd h
EndsWithSeparator-cons c (d ∷ s) start e (inl (q, _)) = absurd (cons-ne-nil d s q)
EndsWithSeparator-cons c (d ∷ s) start e (inr h) = h

scan_components-Found :
    (uri : Bytes) (start : Bool) → scan_components start uri ≡ true → Found start uri
unfolding scan_components
scan_components-Found [] start h = absurd (ground arith)
scan_components-Found (c ∷ uri) start h =
    elim (Bool-cases (start && not (is_separator c) && is_hidden c)) [
      | inl e ↦ record {
        before = [];
        first = c;
        rest = uri;
        splits = refl;
        boundary = inl (refl, ground arith);
        hidden = ground arith;
      }
      | inr e ↦
          let f = scan_components-Found uri (is_separator c) (rw e at h) in
          record {
            before = c ∷ f.before;
            first = f.first;
            rest = f.rest;
            splits = ap (◌∷◌ c) f.splits;
            boundary = inr (EndsWithSeparator-cons c f.before _ refl f.boundary);
            hidden = f.hidden;
          }
    ]

hidden_not_separator : (c : ℕ) → is_hidden c ≡ true → is_separator c ≡ false
hidden_not_separator c h = ground arith

-- Once the machine stands at a hidden first byte it answers 1, whatever it passed.
scan_components-append :
    (before : Bytes) (first : ℕ) (rest : Bytes) (start : Bool)
    → ((before ≡ []) × (start ≡ true)) ⊎ EndsWithSeparator before
    → is_hidden first ≡ true
    → scan_components start (before ++ (first ∷ rest)) ≡ true
unfolding scan_components
scan_components-append [] first rest start (inl (_, s)) h =
    ground (arith, hidden_not_separator first h)
scan_components-append [] first rest start (inr b) h = absurd b
scan_components-append (c ∷ []) first rest start (inl (q, _)) h = absurd (cons-ne-nil c [] q)
scan_components-append (c ∷ []) first rest start (inr b) h =
    ground (arith, scan_components-append [] first rest true (inl (refl, refl)) h)
scan_components-append (c ∷ (d ∷ s)) first rest start (inl (q, _)) h =
    absurd (cons-ne-nil c (d ∷ s) q)
scan_components-append (c ∷ (d ∷ s)) first rest start (inr b) h =
    ground (arith, scan_components-append (d ∷ s) first rest (is_separator c) (inr b) h)

-- The check answers 1 exactly when a component of the path, at its beginning or behind a `/` or
-- a `\`, begins with `_` or `.`.
pub has_forbidden_uri_component_iff :
    (uri : Bytes) → (has_forbidden_uri_component uri ≡ true) ↔ HiddenComponent uri
unfolding has_forbidden_uri_component
has_forbidden_uri_component_iff uri = (
  λ h.
      (let f = scan_components-Found uri true h in
        record {
          before = f.before;
          first = f.first;
          rest = f.rest;
          splits = f.splits;
          boundary = boundary_of f.boundary;
          hidden = f.hidden;
        }),
  λ c.
      rw c.splits
        (scan_components-append c.before c.first c.rest true (boundary_to c.boundary) c.hidden),
)
  where
    boundary_of :
        {b : Bytes} → ((b ≡ []) × (◌≡◌ {A = Bool} true true)) ⊎ EndsWithSeparator b → AtBoundary b
    boundary_of (inl (e, _)) = inl e
    boundary_of (inr h) = inr h

    boundary_to :
        {b : Bytes} → AtBoundary b → ((b ≡ []) × (◌≡◌ {A = Bool} true true)) ⊎ EndsWithSeparator b
    boundary_to (inl e) = inl (e, refl)
    boundary_to (inr h) = inr h

-- `last` is the part behind the last separator so far.
basename_from : Bytes → Bytes → Bytes
basename_from last [] = last
basename_from last (c ∷ path) = basename_from (if is_separator c then path else last) path

unfoldable pub path_basename : Bytes → Bytes
unfolding basename_from
path_basename path = basename_from path path

abbrev pub NoSeparator : Bytes → Type 0
NoSeparator = All (λ c. is_separator c ≡ false)

-- The final component: what follows the last separator, or the whole path.
pub record FinalComponent (path base : Bytes) : Type 0 where
  pub directory : Bytes
  pub splits : path ≡ directory ++ base
  pub boundary : AtBoundary directory
  pub plain : NoSeparator base

EndsWithSeparator-append :
    (a : Bytes) (c : ℕ) → is_separator c ≡ true → EndsWithSeparator (a ++ (c ∷ []))
EndsWithSeparator-append [] c h = h
EndsWithSeparator-append (x ∷ []) c h = h
EndsWithSeparator-append (x ∷ (y ∷ a)) c h = EndsWithSeparator-append (y ∷ a) c h

-- The loop's state: `dir` and `mid` have been passed, and `last` points behind `dir`.
basename_from-FinalComponent :
    (dir mid path : Bytes)
    → AtBoundary dir
    → NoSeparator mid
    → FinalComponent (dir ++ (mid ++ path)) (basename_from (mid ++ path) path)
unfolding basename_from
basename_from-FinalComponent dir mid [] b n = record {
  directory = dir;
  splits = refl;
  boundary = b;
  plain = rw append-nil n;
}
basename_from-FinalComponent dir mid (c ∷ path) b n = elim (Bool-cases (is_separator c)) [
  | inl e ↦ rw e (
      let f =
        basename_from-FinalComponent (dir ++ (mid ++ (c ∷ []))) [] path
          (inr (rw (← append_assoc) (EndsWithSeparator-append (dir ++ mid) c e))) tt in
      rw (append_assoc dir (mid ++ (c ∷ [])) path, append_assoc mid (c ∷ []) path) at f)
  | inr e ↦ rw e (
      let f =
        basename_from-FinalComponent dir (mid ++ (c ∷ [])) path b
          (All-append _ mid (c ∷ []) n (e, tt)) in
      rw (append_assoc mid (c ∷ []) path) at f)
]

-- The result is a suffix of the path that holds no separator, at the beginning of the path or
-- behind a separator.
pub path_basename-FinalComponent : (path : Bytes) → FinalComponent path (path_basename path)
unfolding path_basename
path_basename-FinalComponent path = basename_from-FinalComponent [] [] path (inl refl) tt
