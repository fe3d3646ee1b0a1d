-- ===== src/HttpCall/GivenHeaders.antt =====
-- Header lines that the caller of the client gives.
use bialet.Server.Framing.{lines_text}
use bialet.HttpCall.Request.{crlf, needs_crlf, closing}
use bialet.Prelude.{
  str_eq_refl, take-append-drop, drop_append, take, ltb, str_eq_iff, leb, drop, str_eq,
  append_assoc, length-append, Bool-cases, append-nil, sym, arith, ◌∙◌, ◌-◌, ◌⊎◌, length, ap, ◌≡◌,
  ◌++◌, ◌≢◌, Bytes, List, true, false, [], ◌∷◌, refl, inl, inr,
}

-- Header lines, the last with its CR LF or without.
abbrev pub LinesOf : Bytes → List Bytes → Type 0
LinesOf raw hls =
    (raw ≡ lines_text hls)
    ⊎ ((raw ++ crlf ≡ lines_text hls) × (raw ≢ []) × ((t : Bytes) → raw ≢ t ++ crlf))

needs_crlf-closed : (t : Bytes) → needs_crlf (t ++ crlf) ≡ false
unfolding needs_crlf
needs_crlf-closed t =
    let size : length (t ++ crlf) - 2 ≡ length t = omega (arith, length-append t crlf) in
    let long : leb 2 (length (t ++ crlf)) ≡ true = ground (arith, length-append t crlf) in
    let some_byte : ltb 0 (length (t ++ crlf)) ≡ true = ground (arith, length-append t crlf) in
    rw (size, long, some_byte, drop_append t crlf, str_eq_refl crlf) refl

needs_crlf-unclosed :
    (raw : Bytes) → raw ≢ [] → ((t : Bytes) → raw ≢ t ++ crlf) → needs_crlf raw ≡ true
unfolding needs_crlf
needs_crlf-unclosed [] ne unclosed = absurd (ne refl)
needs_crlf-unclosed (c ∷ s) ne unclosed =
    let raw = c ∷ s in
    let k = length raw - 2 in
    elim (Bool-cases (str_eq (drop k raw) crlf)) [
      | inr e ↦ ground arith
      | inl e ↦
          let tail = (str_eq_iff (drop k raw) crlf).0 e in
          absurd
            (unclosed (take k raw) (sym (take-append-drop k raw) ∙ ap (λ t. take k raw ++ t) tail))
    ]

lines_text-closed : (l : Bytes) (ls : List Bytes) → (t : Bytes) × (lines_text (l ∷ ls) ≡ t ++ crlf)
lines_text-closed l [] = (l, refl)
lines_text-closed l (m ∷ ls) =
    let (t, e) = lines_text-closed m ls in
    (
      l ++ (13 ∷ (10 ∷ t)),
      ap (λ x. l ++ (13 ∷ (10 ∷ x))) e ∙ sym (append_assoc l (13 ∷ (10 ∷ t)) crlf),
    )

lines_text-needs_crlf : (hls : List Bytes) → needs_crlf (lines_text hls) ≡ false
unfolding needs_crlf
lines_text-needs_crlf [] = refl
lines_text-needs_crlf (l ∷ ls) =
    let (t, e) = lines_text-closed l ls in ap needs_crlf e ∙ needs_crlf-closed t

pub closing-LinesOf :
    (raw : Bytes) (hls : List Bytes) → LinesOf raw hls → raw ++ closing raw ≡ lines_text hls
closing-LinesOf raw hls (inl e) =
    ap (λ t. t ++ closing t) e ∙ rw (lines_text-needs_crlf hls) (append-nil (lines_text hls))
closing-LinesOf raw hls (inr (e, ne, unclosed)) = rw (needs_crlf-unclosed raw ne unclosed) e
