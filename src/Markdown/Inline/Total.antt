-- ===== src/Markdown/Inline/Total.antt =====
-- `render_inline` on a line that does not end with an asterisk: it ends, and reads no byte behind the
-- line's NUL.
use mathlib.Core.Path.{subst}
use bialet.Markdown.Buffer.{MdBuf, Run, done, md_append, Extends-refl}
use bialet.Markdown.Escape.{escape_html_n}
use bialet.Markdown.Escape.Escaped.{Full}
use bialet.Markdown.Url.{is_safe_url}
use bialet.Markdown.Inline.{
  Target, target, url_of, paren_of, label_of, image, link, safe_link, target_round, inline_round,
  render_loop, render_inline,
}
use bialet.Markdown.Inline.Moves.{
  Total, Total->>=, Total-map, Grown, Grown-trans, md_append-Total, escape_html_n-Total, Line,
  Line-drop, Ahead, drop_line, c_string_line, Moves, drop-Ahead, plain_round-Moves,
  span_round-Moves, code_round-Moves,
}
use bialet.Prelude.Search.{find, find-length}
use bialet.Prelude.{
  ==_iff, some_inj, ℕ, zero, suc, ◌+◌, ◌<◌, ◌≡◌, refl, ap, true, false, ◌&&◌, inl, inr, Option,
  none, some, [], ◌∷◌, ◌++◌, arith, ◌==◌, if◌then◌else◌, Bytes, codes, starts_with, length, drop,
  length-append, Bool-cases, length-drop,
}

checked-Total :
    (url : Bytes) (b : MdBuf)
    → Full b
    → Total (Grown b) (if is_safe_url url then escape_html_n url b else done b)
checked-Total url b f = elim (Bool-cases (is_safe_url url)) [
  | inl e ↦ rw e (escape_html_n-Total url b f)
  | inr e ↦ rw e (Extends-refl b, f)
]

safe_link-Total : (t : Target) (b : MdBuf) → Full b → Total (Grown b) (safe_link t b)
unfolding safe_link
safe_link-Total t b f = Total->>= (Grown b) _ (md_append b _) _ (md_append-Total b _ f) (λ b₁ g₁.
    Total->>= (Grown b₁) _ (escape_html_n t.url b₁) _ (escape_html_n-Total t.url b₁ g₁.1) (λ b₂ g₂.
      Total->>= (Grown b₂) _ (md_append b₂ _) _ (md_append-Total b₂ _ g₂.1) (λ b₃ g₃.
        Total->>= (Grown b₃) _ (escape_html_n t.label b₃) _ (escape_html_n-Total t.label b₃ g₃.1)
          (λ b₄ g₄.
            Total-map (Grown b₄) (Grown b) (md_append b₄ _) (md_append-Total b₄ _ g₄.1) (λ b₅ g₅.
              Grown-trans b b₁ b₅ g₁ (
                Grown-trans b₁ b₂ b₅ g₂ (Grown-trans b₂ b₃ b₅ g₃ (Grown-trans b₃ b₄ b₅ g₄ g₅))))))))

label-Total :
    (t : Target) (b : MdBuf)
    → Full b
    → Total (Grown b) (if is_safe_url t.url then safe_link t b else escape_html_n t.label b)
label-Total t b f = elim (Bool-cases (is_safe_url t.url)) [
  | inl e ↦ rw e (safe_link-Total t b f)
  | inr e ↦ rw e (escape_html_n-Total t.label b f)
]

module _ (tail : Bytes) (n : ℕ) where
  -- The rest behind a target is in the line.
  url_of-Ahead :
      (label u : Bytes) (o : Option ℕ) (t : Target)
      → Line u
      → length u + suc (length tail) < n
      → find (b')' ∷ []) u ≡ o
      → url_of label (u ++ (0 ∷ tail)) o ≡ some t
      → Ahead tail n t.rest
  unfolding url_of
  url_of-Ahead label u none t l short e h = absurd (cc)
  url_of-Ahead label u (some k) t l short e h =
      let room = find-length _ _ u k e in
      subst (Ahead tail n) (ap (λ (t : Target). t.rest) (some_inj h))
        (drop-Ahead tail n (suc k) u l (omega (arith, room)) short)

  paren_of-Ahead :
      (label s : Bytes) (o : Option ℕ) (t : Target)
      → Line s
      → length s + suc (length tail) < n
      → find (b'(' ∷ []) s ≡ o
      → paren_of label (s ++ (0 ∷ tail)) o ≡ some t
      → Ahead tail n t.rest
  unfolding paren_of
  paren_of-Ahead label s none t l short e h = absurd (cc)
  paren_of-Ahead label s (some j) t l short e h =
      let room = find-length _ _ s j e in
      let u = drop (suc j) s in
      let l' = Line-drop (suc j) s l in
      let h' =
        rw (drop_line (suc j) s (0 ∷ tail) (omega (arith, room)), c_string_line u tail l'.no_nul) at
          h in
      url_of-Ahead label u (find (b')' ∷ []) u) t l' (omega (arith, length-drop (suc j) s, short))
        refl h'

  label_of-Ahead :
      (s : Bytes) (o : Option ℕ) (t : Target)
      → Line s
      → length s + suc (length tail) < n
      → find (b']' ∷ []) s ≡ o
      → label_of (s ++ (0 ∷ tail)) o ≡ some t
      → Ahead tail n t.rest
  unfolding label_of
  label_of-Ahead s none t l short e h = absurd (cc)
  label_of-Ahead s (some i) t l short e h =
      let room = find-length _ _ s i e in
      let u = drop i s in
      let l' = Line-drop i s l in
      let h' =
        rw (drop_line i s (0 ∷ tail) (omega (arith, room)), c_string_line u tail l'.no_nul) at h in
      paren_of-Ahead _ u (find (b'(' ∷ []) u) t l' (omega (arith, length-drop i s, short)) refl h'

  target-Ahead :
      (s : Bytes) (t : Target)
      → Line s
      → length s + suc (length tail) < n
      → target (s ++ (0 ∷ tail)) ≡ some t
      → Ahead tail n t.rest
  unfolding target
  target-Ahead s t l short h =
      label_of-Ahead s (find (b']' ∷ []) s) t l short refl (rw (c_string_line s tail l.no_nul) at h)

  image-Moves :
      (t : Target) (b : MdBuf) → Full b → Ahead tail n t.rest → Total (Moves tail n b) (image t b)
  unfolding image
  image-Moves t b f a = Total->>= (Grown b) _ (md_append b _) _ (md_append-Total b _ f) (λ b₁ g₁.
      Total->>= (Grown b₁) _ (escape_html_n t.label b₁) _ (escape_html_n-Total t.label b₁ g₁.1)
        (λ b₂ g₂. Total->>= (Grown b₂) _ (md_append b₂ _) _ (md_append-Total b₂ _ g₂.1) (λ b₃ g₃.
          Total->>= (Grown b₃) _ _ _ (checked-Total t.url b₃ g₃.1) (λ b₄ g₄.
            Total->>= (Grown b₄) _ (md_append b₄ _) _ (md_append-Total b₄ _ g₄.1) (λ b₅ g₅. (
              Grown-trans b b₁ b₅ g₁
                  (Grown-trans b₁ b₂ b₅ g₂ (Grown-trans b₂ b₃ b₅ g₃ (Grown-trans b₃ b₄ b₅ g₄ g₅))),
              a,
            ))))))

  link-Moves :
      (t : Target) (b : MdBuf) → Full b → Ahead tail n t.rest → Total (Moves tail n b) (link t b)
  unfolding link
  link-Moves t b f a = Total->>= (Grown b) _ _ _ (label-Total t b f) (λ b' g. (g, a))

  target_round-Moves :
      (render : Target → MdBuf → Run (MdBuf × Bytes)) (o : Option Target) (c : ℕ) (line : Bytes)
      (b : MdBuf)
      → ((t : Target) → Ahead tail n t.rest → Total (Moves tail n b) (render t b))
      → Full b
      → Line (c ∷ line)
      → length line + suc (length tail) < n
      → ((t : Target) → o ≡ some t → Ahead tail n t.rest)
      → Total (Moves tail n b) (target_round render o (c ∷ (line ++ (0 ∷ tail))) b)
  unfolding target_round
  target_round-Moves render none c line b r f l short ahead =
      plain_round-Moves tail n c line b f l short
  target_round-Moves render (some t) c line b r f l short ahead = r t (ahead t refl)

  -- Where the round is the one of an image, the text behind the two bytes is in the line.
  image-Ahead :
      (c : ℕ) (line : Bytes) (t : Target)
      → Line line
      → length line + suc (length tail) < n
      → starts_with (codes "[") (line ++ (0 ∷ tail)) ≡ true
      → target (drop 1 (line ++ (0 ∷ tail))) ≡ some t
      → Ahead tail n t.rest
  unfolding starts_with
  image-Ahead c [] t l short e h = absurd (ground arith)
  image-Ahead c (d ∷ line) t l short e h =
      target-Ahead line t (Line-drop 1 (d ∷ line) l) (omega arith) h

  other_round-Moves :
      (c : ℕ) (line : Bytes) (b : MdBuf)
      → Full b
      → Line (c ∷ line)
      → length line + suc (length tail) < n
      → (c == b'*') ≡ false
      → Total (Moves tail n b) (inline_round (c ∷ (line ++ (0 ∷ tail))) b)
  unfolding inline_round starts_with
  other_round-Moves c line b f l short e =
      let l' = Line-drop 1 (c ∷ line) l in
      elim (Bool-cases (c == b'`')) [
        | inl e₁ ↦ rw (e, e₁) (code_round-Moves tail n c line b f l short)
        | inr e₁ ↦ elim (Bool-cases (c == b'!' && starts_with (codes "[") (line ++ (0 ∷ tail)))) [
          | inl e₂ ↦
              rw (e, e₁, e₂)
                (target_round-Moves image _ c line b (λ t a. image-Moves t b f a) f l short
                  (λ t h. image-Ahead c line t l' short (ground arith) h))
          | inr e₂ ↦ elim (Bool-cases (c == b'[')) [
            | inl e₃ ↦
                rw (e, e₁, e₂, e₃)
                  (target_round-Moves link _ c line b (λ t a. link-Moves t b f a) f l short
                    (λ t h. target-Ahead line t l' short h))
            | inr e₃ ↦ rw (e, e₁, e₂, e₃) (plain_round-Moves tail n c line b f l short)
          ]
        ]
      ]

  star_round-Moves :
      (line : Bytes) (b : MdBuf)
      → Full b
      → Line (b'*' ∷ line)
      → length line + suc (length tail) < n
      → Total (Moves tail n b) (inline_round (b'*' ∷ (line ++ (0 ∷ tail))) b)
  unfolding inline_round starts_with
  star_round-Moves [] b f l short = absurd (l.last refl)
  star_round-Moves (d ∷ []) b f l short = elim (Bool-cases (d == b'*')) [
    | inl e ↦ absurd (l.last (ground arith))
    | inr e ↦ rw e (
        span_round-Moves tail n b'*' [] _ _ d [] b f (Line-drop 1 (b'*' ∷ (d ∷ [])) l)
          (omega arith))
  ]
  star_round-Moves (d ∷ (e ∷ line)) b f l short = elim (Bool-cases (d == b'*')) [
    | inl q ↦ rw ((==_iff d _).0 q) (
        span_round-Moves tail n b'*' (b'*' ∷ []) _ _ e line b f
          (Line-drop 2 (b'*' ∷ (d ∷ (e ∷ line))) l) (omega arith))
    | inr q ↦ rw q (
        span_round-Moves tail n b'*' [] _ _ d (e ∷ line) b f
          (Line-drop 1 (b'*' ∷ (d ∷ (e ∷ line))) l) (omega arith))
  ]

  inline_round-Moves :
      (c : ℕ) (line : Bytes) (b : MdBuf)
      → Full b
      → Line (c ∷ line)
      → length line + suc (length tail) < n
      → Total (Moves tail n b) (inline_round (c ∷ (line ++ (0 ∷ tail))) b)
  inline_round-Moves c line b f l short = elim (Bool-cases (c == b'*')) [
    | inr e ↦ other_round-Moves c line b f l short e
    | inl e ↦
        let star = (==_iff c _).0 e in
        rw star (star_round-Moves line b f (subst (λ c. Line (c ∷ line)) star l) short)
  ]

render_loop-Grown :
    (fuel : ℕ) (tail line : Bytes) (b : MdBuf)
    → Full b
    → Line line
    → length line + suc (length tail) < fuel
    → Total (Grown b) (render_loop fuel (line ++ (0 ∷ tail)) b)
unfolding render_loop
render_loop-Grown zero tail line b f l short = absurd (omega arith)
render_loop-Grown (suc fuel) tail [] b f l short = (Extends-refl b, f)
render_loop-Grown (suc fuel) tail (c ∷ line) b f l short =
    let some_byte : (c == 0) ≡ false = ground (arith, l.no_nul.0) in
    rw some_byte (
      Total->>= (Moves tail fuel b) (Grown b) _ _
        (inline_round-Moves tail fuel c line b f l (omega arith))
        (λ (b', rest) (g, a). rw (a.splits) (
          Total-map (Grown b') (Grown b) _
            (render_loop-Grown fuel tail a.line b' g.1 a.shape
              (omega (arith, a.shorter, ap length a.splits, length-append a.line (0 ∷ tail))))
            (λ c' h. Grown-trans b b' c' g h))))

-- On a line whose last byte is no asterisk, in front of its NUL and of any other bytes, and a buffer
-- of the full capacity: the rendering ends, in a result or because the buffer is full, reads no byte
-- behind the array, and keeps to the buffer's limit.
pub render_inline-Total :
    (line tail : Bytes) (b : MdBuf)
    → Line line
    → Full b
    → Total (Grown b) (render_inline (line ++ (0 ∷ tail)) b)
unfolding render_inline
render_inline-Total line tail b l f =
    render_loop-Grown (suc (length (line ++ (0 ∷ tail)))) tail line b f l
      (omega (arith, length-append line (0 ∷ tail)))
