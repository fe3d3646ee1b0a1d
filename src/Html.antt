-- ===== src/Html.antt =====
-- Text inside HTML, as src/markdown.c and src/show_errors.c write it: what both escape to, and what
-- a browser reads back.
use bialet.Prelude.{
  ℕ, zero, suc, ◌*◌, ◌≤◌, ◌≡◌, ◌≢◌, refl, ap, ◌∙◌, Bool, false, inl, inr, [], ◌∷◌, ◌++◌, arith,
  ◌==◌, if◌then◌else◌, ◌||◌, Bytes, codes, starts_with, length, length-append, Bool-cases, All,
  All-append, ==_iff, append_assoc,
}

-- The five bytes that are escaped.
abbrev pub is_special : ℕ → Bool
is_special c = c == b'&' || c == b'<' || c == b'>' || c == b'"' || c == b'\''

abbrev pub entity : ℕ → Bytes
entity c =
    if c == b'&'
    then codes "&amp;"
    else if c == b'<'
    then codes "&lt;"
    else if c == b'>'
    then codes "&gt;"
    else if c == b'"'
    then codes "&quot;"
    else if c == b'\''
    then codes "&#39;"
    else c ∷ []

unfoldable pub escaped : Bytes → Bytes
escaped [] = []
escaped (c ∷ s) = entity c ++ escaped s

-- What a browser makes of the five entities; the number counts the bytes of an entity that are
-- still to be skipped.
unescape_from : ℕ → Bytes → Bytes
unescape_from skip [] = []
unescape_from (suc skip) (c ∷ s) = unescape_from skip s
unescape_from zero (c ∷ s) =
    let amp = b'&' ∷ unescape_from 4 s in
    let lt = b'<' ∷ unescape_from 3 s in
    let gt = b'>' ∷ unescape_from 3 s in
    let quot = b'"' ∷ unescape_from 5 s in
    let apos = b'\'' ∷ unescape_from 4 s in
    let plain = c ∷ unescape_from 0 s in
    if starts_with (codes "&amp;") (c ∷ s)
    then amp
    else if starts_with (codes "&lt;") (c ∷ s)
    then lt
    else if starts_with (codes "&gt;") (c ∷ s)
    then gt
    else if starts_with (codes "&quot;") (c ∷ s)
    then quot
    else if starts_with (codes "&#39;") (c ∷ s)
    then apos
    else plain

unfoldable pub unescape : Bytes → Bytes
unfolding unescape_from
unescape = unescape_from 0

-- A byte that cannot leave a text or a quoted attribute value.
abbrev pub IsInert : ℕ → Type 0
IsInert c = (c ≢ b'<') × (c ≢ b'>') × (c ≢ b'"') × (c ≢ b'\'')

unescape-plain : (c : ℕ) (s : Bytes) → (c == b'&') ≡ false → unescape (c ∷ s) ≡ c ∷ unescape s
unfolding unescape starts_with
unescape-plain c s e = rw e refl

unescape-entity : (c : ℕ) (s : Bytes) → unescape (entity c ++ s) ≡ c ∷ unescape s
unfolding unescape starts_with
unescape-entity c s = elim (Bool-cases (c == b'&')) [
  | inl e ↦ rw ((==_iff c _).0 e) refl
  | inr e₁ ↦ elim (Bool-cases (c == b'<')) [
    | inl e ↦ rw ((==_iff c _).0 e) refl
    | inr e₂ ↦ elim (Bool-cases (c == b'>')) [
      | inl e ↦ rw ((==_iff c _).0 e) refl
      | inr e₃ ↦ elim (Bool-cases (c == b'"')) [
        | inl e ↦ rw ((==_iff c _).0 e) refl
        | inr e₄ ↦ elim (Bool-cases (c == b'\'')) [
          | inl e ↦ rw ((==_iff c _).0 e) refl
          | inr e₅ ↦ rw (e₁, e₂, e₃, e₄, e₅) (unescape-plain c s e₁)
        ]
      ]
    ]
  ]
]

entity-IsInert : (c : ℕ) → All IsInert (entity c)
entity-IsInert c = ground arith

pub entity-length : (c : ℕ) → length (entity c) ≤ 6
entity-length c = ground arith

-- A browser that reads the five entities gets the text back.
pub unescape-escaped : (s : Bytes) → unescape (escaped s) ≡ s
unfolding escaped
unescape-escaped [] = unfold unescape in refl
unescape-escaped (c ∷ s) = unescape-entity c (escaped s) ∙ ap (◌∷◌ c) (unescape-escaped s)

pub escaped-IsInert : (s : Bytes) → All IsInert (escaped s)
unfolding escaped
escaped-IsInert [] = tt
escaped-IsInert (c ∷ s) =
    All-append IsInert (entity c) (escaped s) (entity-IsInert c) (escaped-IsInert s)

pub escaped-length : (s : Bytes) → length (escaped s) ≤ length s * 6
unfolding escaped
escaped-length [] = omega arith
escaped-length (c ∷ s) =
    omega (arith, length-append (entity c) (escaped s), entity-length c, escaped-length s)

pub escaped-append : (s t : Bytes) → escaped (s ++ t) ≡ escaped s ++ escaped t
unfolding escaped
escaped-append [] t = refl
escaped-append (c ∷ s) t = rw (escaped-append s t) (simp append_assoc)
