-- ===== src/Json/Parser/Total.antt =====
-- The parser on every text: it ends, it moves forward, and it keeps to the depth limit.
use bialet.Json.Parser.Depth.{
  nesting, items_nesting, fields_nesting, Ends, then_parse-Ends, skip_ws-length, peeked_shorter,
  of_option-Ends, Ends-later, parse_scalar-Ends,
}
use bialet.Json.Text.{skip_ws, parse_string}
use bialet.Json.Parser.{
  finish_parse, json, Answer, json_parse, parse_items, parse_members, parse_array, parse_object,
  parse_value, Strtod, Value, ParseResult, parsed, invalid, trailing, empty_input, error, exhausted,
  of_option, max_json_depth,
}
use bialet.Prelude.{
  length-drop, some, ltb, ◌*◌, refl, ℕ, zero, suc, ◌+◌, ◌≤◌, ◌≡◌, inl, inr, [], ◌∷◌, arith, ◌==◌,
  Bytes, length, drop, peek, Bool-cases,
}

module _ (strtod : Bytes → Strtod) where
  -- The calls on one fuel end, on the texts for which the fuel is enough.
  record AllEnd (fuel : ℕ) : Type 0 where
    value :
        (d : ℕ) (p : Bytes)
        → 3 * length p + 1 ≤ fuel
        → Ends nesting d (length p) (parse_value strtod fuel d p)
    list :
        (d : ℕ) (s : Bytes)
        → d ≤ max_json_depth
        → 3 * length s + 3 ≤ fuel
        → Ends nesting d (length s) (parse_array strtod fuel d s)
    map :
        (d : ℕ) (s : Bytes)
        → d ≤ max_json_depth
        → 3 * length s + 3 ≤ fuel
        → Ends nesting d (length s) (parse_object strtod fuel d s)
    items :
        (d : ℕ) (s : Bytes)
        → 3 * length s + 2 ≤ fuel
        → Ends items_nesting d (length s) (parse_items strtod fuel d s)
    members :
        (d : ℕ) (s : Bytes)
        → 3 * length s + 2 ≤ fuel
        → Ends fields_nesting d (length s) (parse_members strtod fuel d s)

  value_step :
      (fuel d : ℕ) (p : Bytes)
      → AllEnd fuel
      → 3 * length p + 1 ≤ suc fuel
      → Ends nesting d (length p) (parse_value strtod (suc fuel) d p)
  unfolding parse_value
  value_step fuel d p ends enough =
      let s = skip_ws p in
      let short = skip_ws-length p in
      let later = λ (n : ℕ) (r : ParseResult Value). Ends-later nesting d n (length p) r in
      let inner = skip_ws-length (drop 1 s) in
      elim (Bool-cases (ltb max_json_depth d)) [
        | inl e ↦ rw e tt
        | inr e ↦ elim (Bool-cases (peek s == b'{')) [
          | inl e₁ ↦
              let smaller = peeked_shorter _ s e₁ in
              rw (e, e₁)
                (later _ _ (omega (arith, short, inner, smaller)) (
                  ends.map d (skip_ws (drop 1 s)) (ground arith)
                    (omega (arith, short, inner, smaller, enough))))
          | inr e₁ ↦ elim (Bool-cases (peek s == b'[')) [
            | inl e₂ ↦
                let smaller = peeked_shorter _ s e₂ in
                rw (e, e₁, e₂)
                  (later _ _ (omega (arith, short, inner, smaller)) (
                    ends.list d (skip_ws (drop 1 s)) (ground arith)
                      (omega (arith, short, inner, smaller, enough))))
            | inr e₂ ↦
                rw (e, e₁, e₂) (later _ _ short (parse_scalar-Ends strtod d s (ground arith)))
          ]
        ]
      ]

  list_step :
      (fuel d : ℕ) (s : Bytes)
      → AllEnd fuel
      → d ≤ max_json_depth
      → 3 * length s + 3 ≤ suc fuel
      → Ends nesting d (length s) (parse_array strtod (suc fuel) d s)
  unfolding parse_value nesting
  list_step fuel d s ends deep enough = elim (Bool-cases (peek s == b']')) [
    | inl e ↦ rw e (peeked_shorter _ s e, omega arith)
    | inr e ↦ rw e (
        then_parse-Ends items_nesting nesting d d (length s) (length s)
          (parse_items strtod fuel d s) _ (ends.items d s (omega (arith, enough)))
          (λ xs rest short fits. (short, fits)))
  ]

  map_step :
      (fuel d : ℕ) (s : Bytes)
      → AllEnd fuel
      → d ≤ max_json_depth
      → 3 * length s + 3 ≤ suc fuel
      → Ends nesting d (length s) (parse_object strtod (suc fuel) d s)
  unfolding parse_value nesting
  map_step fuel d s ends deep enough = elim (Bool-cases (peek s == b'}')) [
    | inl e ↦ rw e (peeked_shorter _ s e, omega arith)
    | inr e ↦ rw e (
        then_parse-Ends fields_nesting nesting d d (length s) (length s)
          (parse_members strtod fuel d s) _ (ends.members d s (omega (arith, enough)))
          (λ xs rest short fits. (short, fits)))
  ]

  items_step :
      (fuel d : ℕ) (s : Bytes)
      → AllEnd fuel
      → 3 * length s + 2 ≤ suc fuel
      → Ends items_nesting d (length s) (parse_items strtod (suc fuel) d s)
  unfolding parse_value items_nesting
  items_step fuel d s ends enough =
      then_parse-Ends nesting items_nesting (d + 1) d (length s) (length s)
        (parse_value strtod fuel (d + 1) s) _ (ends.value (d + 1) s (omega (arith, enough)))
        (λ v rest short fits.
          let s' = skip_ws rest in
          let behind = skip_ws-length rest in
          let inner = skip_ws-length (drop 1 s') in
          elim (Bool-cases (peek s' == b']')) [
            | inl e ↦ rw e (omega (arith, behind, short, length-drop 1 s'), ground arith)
            | inr e ↦ elim (Bool-cases (peek s' == b',')) [
              | inl e₁ ↦
                  let smaller = peeked_shorter _ s' e₁ in
                  rw (e, e₁)
                    (then_parse-Ends items_nesting items_nesting d d (length s) (length s)
                      (parse_items strtod fuel d (skip_ws (drop 1 s'))) _
                      (Ends-later items_nesting d _ (length s) _
                        (omega (arith, behind, short, inner, smaller))
                        (ends.items d (skip_ws (drop 1 s'))
                          (omega (arith, behind, short, inner, smaller, enough))))
                      (λ vs later short' fits'. (short', ground arith)))
              | inr e₁ ↦ rw (e, e₁) tt
            ]
          ])

  members_step :
      (fuel d : ℕ) (s : Bytes)
      → AllEnd fuel
      → 3 * length s + 2 ≤ suc fuel
      → Ends fields_nesting d (length s) (parse_members strtod (suc fuel) d s)
  unfolding parse_value fields_nesting
  members_step fuel d s ends enough =
      let start = skip_ws-length s in
      then_parse-Ends (λ t. 0) fields_nesting 0 d (length (skip_ws s)) (length s)
        (of_option (parse_string (skip_ws s))) _ (of_option-Ends (skip_ws s))
        (λ key behind after_key _.
          let colon = skip_ws behind in
          let gap = skip_ws-length behind in
          elim (Bool-cases (peek colon == b':')) [
            | inr e ↦ rw e tt
            | inl e ↦
                let after_colon = peeked_shorter _ colon e in
                rw e (
                  then_parse-Ends nesting fields_nesting (d + 1) d (length (drop 1 colon))
                    (length s) (parse_value strtod fuel (d + 1) (drop 1 colon)) _
                    (ends.value (d + 1) (drop 1 colon)
                      (omega (arith, start, after_key, gap, after_colon, enough)))
                    (λ v rest short fits.
                      let s' = skip_ws rest in
                      let after_value = skip_ws-length rest in
                      elim (Bool-cases (peek s' == b'}')) [
                        | inl e₁ ↦ rw e₁ (
                          omega (
                            arith,
                            start,
                            after_key,
                            gap,
                            after_colon,
                            after_value,
                            short,
                            length-drop 1 s',
                          ),
                          ground arith,
                        )
                        | inr e₁ ↦ elim (Bool-cases (peek s' == b',')) [
                          | inl e₂ ↦
                              let smaller = peeked_shorter _ s' e₂ in
                              rw (e₁, e₂)
                                (then_parse-Ends fields_nesting fields_nesting d d (length s)
                                  (length s) (parse_members strtod fuel d (drop 1 s')) _
                                  (Ends-later fields_nesting d _ (length s) _
                                    (omega (
                                      arith, start, after_key, gap, after_colon, after_value, short,
                                      smaller,
                                    ))
                                    (ends.members d (drop 1 s') (
                                      omega (
                                        arith, start, after_key, gap, after_colon, after_value,
                                        short, smaller, enough,
                                      ))))
                                  (λ fs later short' fits'. (short', ground arith)))
                          | inr e₂ ↦ rw (e₁, e₂) tt
                        ]
                      ]))
          ])

  all_end : (fuel : ℕ) → AllEnd fuel
  all_end zero = record {
    value = λ d p enough. absurd (omega (arith, enough));
    list = λ d s deep enough. absurd (omega (arith, enough));
    map = λ d s deep enough. absurd (omega (arith, enough));
    items = λ d s enough. absurd (omega (arith, enough));
    members = λ d s enough. absurd (omega (arith, enough));
  }
  all_end (suc fuel) =
      let ends = all_end fuel in
      record {
        value = λ d p. value_step fuel d p ends;
        list = λ d s. list_step fuel d s ends;
        map = λ d s. map_step fuel d s ends;
        items = λ d s. items_step fuel d s ends;
        members = λ d s. members_step fuel d s ends;
      }

-- The lists and maps of an accepted value keep to the depth limit.
abbrev pub KeepsDepth : Answer → Type 0
KeepsDepth (json v) = nesting v ≤ max_json_depth
KeepsDepth _ = Unit

finish_parse-Ends :
    (n : ℕ) (r : ParseResult Value)
    → Ends nesting 0 n r
    → (a : Answer) × (finish_parse r ≡ some a) × KeepsDepth a
finish_parse-Ends n exhausted e = absurd e
finish_parse-Ends n error e = (invalid, refl, tt)
finish_parse-Ends n (parsed v p) (short, deep) = elim (Bool-cases (length (skip_ws p) == 0)) [
  | inl e ↦ (json v, rw e refl, omega (arith, deep))
  | inr e ↦ (trailing, rw e refl, tt)
]

-- Whatever `strtod` answers, the parser ends on every text with a value or one of its errors, and
-- the lists and maps of a value stand at most 128 deep in one another.
pub json_parse_total :
    (strtod : Bytes → Strtod) (s : Bytes)
    → (a : Answer) × (json_parse strtod s ≡ some a) × KeepsDepth a
unfolding json_parse
json_parse_total strtod [] = (empty_input, refl, tt)
json_parse_total strtod (c ∷ p) =
    finish_parse-Ends (length (c ∷ p)) _
      ((all_end strtod (3 * length (c ∷ p) + 3)).value 0 (c ∷ p) (omega arith))
