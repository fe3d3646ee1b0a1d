-- ===== src/Server/Root.antt =====
-- src/server.c: `resolve_within_root`, the containment check on a resolved path. `realpath_n` is
-- the caller's: it hands over the resolved path, or nothing.
use mathlib.Core.Path.{subst}
use bialet.Prelude.{
  All, append-All, ℕ, ◌≡◌, ◌≢◌, refl, sym, ap, ◌∙◌, ◌⊎◌, inl, inr, ◌↔◌, Bool, true, ◌&&◌, ◌||◌,
  Option, none, some, [], ◌∷◌, ◌++◌, arith, ◌==◌, if◌then◌else◌, Bytes, peek, length, drop,
  drop_append, starts_with, starts_with_sound, starts_with-append, append-nil,
}
use bialet.Server.PrivatePath.{is_separator}

-- `strncmp(resolved, root, root_len) == 0` and the byte behind it ends a component.
unfoldable pub is_within_root : Bytes → Bytes → Bool
is_within_root root resolved =
    let next = peek (drop (length root) resolved) in
    starts_with root resolved && (is_separator next || next == 0)

unfoldable pub resolve_within_root : Bytes → Option Bytes → Option Bytes
resolve_within_root root none = none
resolve_within_root root (some resolved) =
    if is_within_root root resolved then some resolved else none

-- The root itself, or an entry below it.
abbrev pub Within : Bytes → Bytes → Type 0
Within root path =
    (path ≡ root)
    ⊎ ((c : ℕ) × (rest : Bytes) × (is_separator c ≡ true) × (path ≡ root ++ (c ∷ rest)))

-- A C string holds no NUL.
abbrev pub NoNul : Bytes → Type 0
NoNul = All (λ c. c ≢ 0)

Within-rest :
    (root rest path : Bytes)
    → path ≡ root ++ rest
    → NoNul path
    → (is_separator (peek rest) || peek rest == 0) ≡ true
    → Within root path
Within-rest root [] path e n h = inl (e ∙ append-nil root)
Within-rest root (c ∷ rest) path e n h =
    let whole = append-All _ root (c ∷ rest) (subst NoNul e n) in
    let nonzero : c ≢ 0 = whole.1.0 in inr (c, rest, ground arith, e)

is_within_root-below :
    (root : Bytes) (c : ℕ) (rest : Bytes)
    → is_separator c ≡ true
    → is_within_root root (root ++ (c ∷ rest)) ≡ true
unfolding is_within_root
is_within_root-below root c rest h =
    rw (starts_with-append root (c ∷ rest), drop_append root (c ∷ rest)) (ground arith)

is_within_root_self : (root : Bytes) → is_within_root root root ≡ true
unfolding is_within_root
is_within_root_self root =
    let whole = starts_with-append root [] in
    let behind = drop_append root [] in
    let e = append-nil root in
    rw
      (
        subst (λ s. starts_with root s ≡ true) e whole,
        subst (λ s. drop (length root) s ≡ []) e behind,
      )
      refl

-- The check passes exactly the root and what lies below it. A sibling whose name only begins
-- like the root, such as `/srv/app2` beside `/srv/app`, is refused.
pub is_within_root_iff :
    (root path : Bytes) → NoNul path → (is_within_root root path ≡ true) ↔ Within root path
unfolding is_within_root
is_within_root_iff root path n = (forward, backward)
  where
    forward : (is_within_root root path ≡ true) → Within root path
    forward h =
        let prefix : starts_with root path ≡ true = ground arith in
        let (rest, e) = starts_with_sound root path prefix in
        let behind : drop (length root) path ≡ rest =
          ap (drop (length root)) e ∙ drop_append root rest in
        let ends : (is_separator (peek rest) || peek rest == 0) ≡ true = ground arith in
        Within-rest root rest path e n ends

    backward : Within root path → is_within_root root path ≡ true
    backward (inl e) = subst (λ p. is_within_root root p ≡ true) (sym e) (is_within_root_self root)
    backward (inr (c, rest, sep, e)) =
        subst (λ p. is_within_root root p ≡ true) (sym e) (is_within_root-below root c rest sep)
