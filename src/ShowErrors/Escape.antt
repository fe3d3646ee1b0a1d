-- ===== src/ShowErrors/Escape.antt =====
-- `html_escape` is the reference escaping, in the memory it first asks for.
use bialet.ShowErrors.{html_escape, html_escape_loop}
use bialet.Html.{entity-length, entity, escaped, is_special}
use bialet.Prelude.{
  refl, inr, append_assoc, ap, ◌∙◌, length-append, inl, Bool-cases, ltb, append-nil, ◌++◌, arith,
  ◌∷◌, ◌≤◌, [], ◌+◌, ◌*◌, false, length, ◌≡◌, Bytes, ℕ,
}

escape_step : (c : ℕ) → is_special c ≡ false → entity c ≡ c ∷ []
escape_step c h = ground arith

html_escape_loop-escaped :
    (src : Bytes) (room : ℕ) (out : Bytes)
    → length out + 6 * length src + 1 ≤ room
    → html_escape_loop src room out ≡ (room, out ++ escaped src)
unfolding html_escape_loop escaped
html_escape_loop-escaped [] room out h = rw (append-nil out) refl
html_escape_loop-escaped (c ∷ src) room out h =
    let fits : ltb room (length out + length (entity c) + 1) ≡ false =
      ground (arith, entity-length c) in
    elim (Bool-cases (is_special c)) [
      | inl e ↦
          rw (e, fits)
            (html_escape_loop-escaped src room (out ++ entity c)
                (omega (arith, length-append out (entity c), entity-length c))
              ∙ ap (λ t. (room, t)) (append_assoc out (entity c) (escaped src)))
      | inr e ↦
          rw (e, escape_step c e)
            (html_escape_loop-escaped src room (out ++ (c ∷ []))
                (omega (arith, length-append out (c ∷ [])))
              ∙ ap (λ t. (room, t)) (append_assoc out (c ∷ []) (escaped src)))
    ]

pub html_escape-escaped : (src : Bytes) → html_escape src ≡ (length src * 6 + 1, escaped src)
html_escape-escaped src = html_escape_loop-escaped src (length src * 6 + 1) [] (omega arith)
