-- ===== src/Json/Parser/Depth.antt =====
-- How a call of the parser ends: forward in the text, and within the depth limit.
use bialet.Json.Text.{is_ws, skip_ws, parse_string}
use bialet.Json.Text.Bound.{parse_string-Decoded}
use bialet.Json.Parser.{
  is_inf_or_nan, parse_scalar, parse_number, parse_word, Strtod, Value, Items, Fields, ParseResult,
  null, boolean, number, text, array, object, nil, cons, end, field, parsed, error, exhausted,
  then_parse, of_option, max_json_depth,
}
use bialet.Prelude.{
  length-drop, refl, ◌&&◌, ◌||◌, starts_with, ℕ, zero, suc, ◌+◌, ◌≤◌, ◌<◌, ◌≡◌, true, false, inl,
  inr, [], ◌∷◌, arith, leb, ◌==◌, if◌then◌else◌, Bytes, length, drop, peek, Bool-cases,
  Option-cases,
}

abbrev pub larger : ℕ → ℕ → ℕ
larger m n = if leb m n then n else m

-- How many lists and maps stand one in the other below a value.
unfoldable mutual
  pub nesting : Value → ℕ
  nesting null = 0
  nesting (boolean b) = 0
  nesting (number bits) = 0
  nesting (text s) = 0
  nesting (array xs) = items_nesting xs
  nesting (object fs) = fields_nesting fs

  pub items_nesting : Items → ℕ
  items_nesting nil = 0
  items_nesting (cons v vs) = larger (1 + nesting v) (items_nesting vs)

  pub fields_nesting : Fields → ℕ
  fields_nesting end = 0
  fields_nesting (field key v fs) = larger (1 + nesting v) (fields_nesting fs)

-- A result at a text of `n` bytes: it is no lack of fuel, and where something is parsed, what is
-- left is shorter and the depth of the call and the nesting of the result keep to the limit.
abbrev pub Ends {ℓ} : {A : Type ℓ} → (A → ℕ) → ℕ → ℕ → ParseResult A → Type 0
Ends nest depth n (parsed a rest) = (length rest < n) × (depth + nest a ≤ max_json_depth)
Ends nest depth n error = Unit
Ends nest depth n exhausted = ⊥

pub then_parse-Ends {ℓ κ} :
    {A : Type ℓ} {B : Type κ} (nest : A → ℕ) (nest' : B → ℕ) (d d' n n' : ℕ) (r : ParseResult A)
    (k : A → Bytes → ParseResult B)
    → Ends nest d n r
    → ((a : A) (rest : Bytes)
        → length rest < n
        → d + nest a ≤ max_json_depth
        → Ends nest' d' n' (k a rest))
    → Ends nest' d' n' (then_parse r k)
then_parse-Ends nest nest' d d' n n' (parsed a rest) k (short, deep) next = next a rest short deep
then_parse-Ends nest nest' d d' n n' error k e next = tt
then_parse-Ends nest nest' d d' n n' exhausted k e next = absurd e

pub skip_ws-length : (p : Bytes) → length (skip_ws p) ≤ length p
unfolding skip_ws
skip_ws-length [] = omega arith
skip_ws-length (c ∷ p) = elim (Bool-cases (is_ws c)) [
  | inl e ↦ rw e (omega (arith, skip_ws-length p))
  | inr e ↦ rw e (omega arith)
]

drop_shorter :
    (n : ℕ) (c : ℕ) (p : Bytes) → (n == 0) ≡ false → length (drop n (c ∷ p)) < length (c ∷ p)
drop_shorter zero c p e = absurd (ground arith)
drop_shorter (suc n) c p e = omega (arith, length-drop n p)

pub peeked_shorter : (c : ℕ) (s : Bytes) → (peek s == suc c) ≡ true → length (drop 1 s) < length s
peeked_shorter c [] e = absurd (ground arith)
peeked_shorter c (d ∷ s) e = omega arith

pub of_option-Ends : (s : Bytes) → Ends (λ t. 0) 0 (length s) (of_option (parse_string s))
of_option-Ends s = elim (Option-cases (parse_string s)) [
  | inl e ↦ rw e tt
  | inr ((out, rest), e) ↦
      let (len, _, _, size) = parse_string-Decoded s out rest e in
      rw e (omega (arith, size), omega arith)
]

pub Ends-later {ℓ} :
    {A : Type ℓ} (nest : A → ℕ) (d n m : ℕ) (r : ParseResult A)
    → n ≤ m
    → Ends nest d n r
    → Ends nest d m r
Ends-later nest d n m (parsed a rest) le (short, deep) = (omega (arith, short), deep)
Ends-later nest d n m error le e = tt
Ends-later nest d n m exhausted le e = e

parse_word-Ends :
    (c : ℕ) (word : Bytes) (v : Value) (d : ℕ) (x : ℕ) (p : Bytes)
    → nesting v ≡ 0
    → d ≤ max_json_depth
    → Ends nesting d (length (x ∷ p)) (parse_word (c ∷ word) v (x ∷ p))
unfolding parse_word
parse_word-Ends c word v d x p flat deep = elim (Bool-cases (starts_with (c ∷ word) (x ∷ p))) [
  | inl e ↦ rw e (omega (arith, length-drop (length word) p), omega (arith, flat))
  | inr e ↦ rw e tt
]

module _ (strtod : Bytes → Strtod) where
  parse_number-Ends :
      (d : ℕ) (c : ℕ) (p : Bytes)
      → d ≤ max_json_depth
      → Ends nesting d (length (c ∷ p)) (parse_number strtod (c ∷ p))
  unfolding parse_number nesting
  parse_number-Ends d c p deep =
      let r = strtod (c ∷ p) in
      elim (Bool-cases (r.count == 0)) [
        | inl e ↦ rw e tt
        | inr e ↦ elim (Bool-cases r.erange) [
          | inl e₁ ↦ rw (e, e₁) tt
          | inr e₁ ↦ elim (Bool-cases (is_inf_or_nan r.bits)) [
            | inl e₂ ↦ rw (e, e₁, e₂) tt
            | inr e₂ ↦ rw (e, e₁, e₂) (drop_shorter r.count c p e, omega arith)
          ]
        ]
      ]

  pub parse_scalar-Ends :
      (d : ℕ) (s : Bytes) → d ≤ max_json_depth → Ends nesting d (length s) (parse_scalar strtod s)
  unfolding parse_scalar nesting
  parse_scalar-Ends d [] deep = tt
  parse_scalar-Ends d (c ∷ p) deep = elim (Bool-cases (c == b'"')) [
    | inl e ↦ rw e (
        then_parse-Ends (λ t. 0) nesting 0 d (length (c ∷ p)) (length (c ∷ p))
          (of_option (parse_string (c ∷ p))) (λ t rest. parsed (text t) rest)
          (of_option-Ends (c ∷ p)) (λ t rest short _. (short, omega arith)))
    | inr e ↦ elim (Bool-cases (c == b't')) [
      | inl e₁ ↦ rw (e, e₁) (parse_word-Ends _ _ (boolean true) d c p refl deep)
      | inr e₁ ↦ elim (Bool-cases (c == b'f')) [
        | inl e₂ ↦ rw (e, e₁, e₂) (parse_word-Ends _ _ (boolean false) d c p refl deep)
        | inr e₂ ↦ elim (Bool-cases (c == b'n')) [
          | inl e₃ ↦ rw (e, e₁, e₂, e₃) (parse_word-Ends _ _ null d c p refl deep)
          | inr e₃ ↦ elim (Bool-cases (c == b'-' || (leb b'0' c && leb c b'9'))) [
            | inl e₄ ↦ rw (e, e₁, e₂, e₃, e₄) (parse_number-Ends d c p deep)
            | inr e₄ ↦ rw (e, e₁, e₂, e₃, e₄) tt
          ]
        ]
      ]
    ]
  ]
