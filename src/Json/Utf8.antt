-- ===== src/Json/Utf8.antt =====
-- src/json.c: `utf8_encode`. The bit operations there join disjoint bits, so they are written as
-- sums, and the masks and shifts as remainders and quotients.
use bialet.Prelude.{
  arith, inl, Bool-cases, inr, false, ℕ, ◌+◌, ◌*◌, ◌/◌, ◌%◌, ◌≤◌, ◌<◌, ◌≡◌, Bool, ◌&&◌, Option,
  none, some, [], ◌∷◌, ltb, leb, if◌then◌else◌, Bytes, ◌⊎◌,
}

abbrev pub is_surrogate : ℕ → Bool
is_surrogate cp = leb 0xD800 cp && leb cp 0xDFFF

-- The bytes written, or `none` for -1.
unfoldable pub utf8_encode : ℕ → Option Bytes
utf8_encode cp =
    if ltb cp 0x80
    then some (cp ∷ [])
    else if ltb cp 0x800
    then some ((0xC0 + cp / 64) ∷ (0x80 + cp % 64) ∷ [])
    else if ltb cp 0x10000
    then if is_surrogate cp
      then none
      else some ((0xE0 + cp / 4096) ∷ (0x80 + cp / 64 % 64) ∷ (0x80 + cp % 64) ∷ [])
    else if ltb cp 0x110000
    then some (
        (0xF0 + cp / 262144)
        ∷ (0x80 + cp / 4096 % 64)
        ∷ (0x80 + cp / 64 % 64)
        ∷ (0x80 + cp % 64)
        ∷ [])
    else none

-- Unicode scalar values.
abbrev pub IsScalar : ℕ → Type 0
IsScalar cp = (cp < 0xD800) ⊎ ((0xDFFF < cp) × (cp < 0x110000))

-- The UTF-8 form of a scalar value, by the table of RFC 3629: the lead byte tells the length and
-- carries the high bits, each other byte carries six bits, and no shorter form exists.
pub data Utf8 (cp : ℕ) : Bytes → Type 0 where
  one : cp < 0x80 → Utf8 cp (cp ∷ [])
  two :
      (a b : ℕ)
      → 0x80 ≤ cp
      → a < 32
      → b < 64
      → cp ≡ a * 64 + b
      → Utf8 cp ((0xC0 + a) ∷ (0x80 + b) ∷ [])
  three :
      (a b c : ℕ)
      → 0x800 ≤ cp
      → a < 16
      → b < 64
      → c < 64
      → cp ≡ (a * 64 + b) * 64 + c
      → Utf8 cp ((0xE0 + a) ∷ (0x80 + b) ∷ (0x80 + c) ∷ [])
  four :
      (a b c d : ℕ)
      → 0x10000 ≤ cp
      → a < 8
      → b < 64
      → c < 64
      → d < 64
      → cp ≡ ((a * 64 + b) * 64 + c) * 64 + d
      → Utf8 cp ((0xF0 + a) ∷ (0x80 + b) ∷ (0x80 + c) ∷ (0x80 + d) ∷ [])

abbrev pub Encodes : ℕ → Option Bytes → Type 0
Encodes cp none = ¬ IsScalar cp
Encodes cp (some s) = IsScalar cp × Utf8 cp s

Encodes-three :
    (cp : ℕ)
    → 0x800 ≤ cp
    → cp < 0x10000
    → is_surrogate cp ≡ false
    → Encodes cp (some ((0xE0 + cp / 4096) ∷ (0x80 + cp / 64 % 64) ∷ (0x80 + cp % 64) ∷ []))
Encodes-three cp lo hi s = (
  ground arith,
  three (cp / 4096) (cp / 64 % 64) (cp % 64) lo (omega arith) (omega arith) (omega arith)
      (omega arith),
)

Encodes-four :
    (cp : ℕ)
    → 0x10000 ≤ cp
    → cp < 0x110000
    → Encodes cp (
        some (
          (0xF0 + cp / 262144)
          ∷ (0x80 + cp / 4096 % 64)
          ∷ (0x80 + cp / 64 % 64)
          ∷ (0x80 + cp % 64)
          ∷ []))
Encodes-four cp lo hi = (
  inr (omega arith, hi),
  four (cp / 262144) (cp / 4096 % 64) (cp / 64 % 64) (cp % 64) lo (omega arith) (omega arith)
      (omega arith) (omega arith) (omega arith),
)

-- A scalar value is written as its UTF-8 form, which is the only one, and any other number is
-- refused: a surrogate, and what lies above U+10FFFF.
pub utf8_encode-Encodes : (cp : ℕ) → Encodes cp (utf8_encode cp)
unfolding utf8_encode
utf8_encode-Encodes cp = elim (Bool-cases (ltb cp 0x80)) [
  | inl e ↦ rw e (inl (ground arith), one (ground arith))
  | inr e₁ ↦ elim (Bool-cases (ltb cp 0x800)) [
    | inl e ↦
        rw (e₁, e)
          (
            inl (ground arith),
            two (cp / 64) (cp % 64) (ground arith) (ground arith) (omega arith) (omega arith),
          )
    | inr e₂ ↦ elim (Bool-cases (ltb cp 0x10000)) [
      | inl e ↦ elim (Bool-cases (is_surrogate cp)) [
        | inl s ↦ rw (e₁, e₂, e, s) (λ h. ground arith)
        | inr s ↦ rw (e₁, e₂, e, s) (Encodes-three cp (ground arith) (ground arith) s)
      ]
      | inr e₃ ↦ elim (Bool-cases (ltb cp 0x110000)) [
        | inl e ↦ rw (e₁, e₂, e₃, e) (Encodes-four cp (ground arith) (ground arith))
        | inr e ↦ rw (e₁, e₂, e₃, e) (λ h. ground arith)
      ]
    ]
  ]
]
