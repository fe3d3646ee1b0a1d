-- ===== src/Markdown/Inline/Images.antt =====
-- What `render_inline` makes of an image and of a link.
use bialet.Html.{escaped}
use bialet.Markdown.Buffer.{MdBuf, Run, done, ◌>>=◌, md_append, >>=-cong, >>=_assoc, >>=-done}
use bialet.Markdown.Escape.{escape_html_n}
use bialet.Markdown.Escape.Escaped.{Full, md_append-append, md_append-Full, escape_html_n-escaped}
use bialet.Markdown.Url.{is_safe_url}
use bialet.Markdown.Inline.{
  target_round, safe_link, link, inline_round, strchr, Target, target, url_of, paren_of, label_of,
  image,
}
use bialet.Prelude.Search.{find}
use bialet.Prelude.{
  ℕ, suc, ◌≡◌, ◌≢◌, refl, sym, ap, ◌∙◌, true, false, inl, inr, some, [], ◌∷◌, ◌++◌, arith, ◌==◌,
  if◌then◌else◌, Bytes, codes, c_string, starts_with, length, drop, All, Bool-cases, take_append,
  drop_append,
}

-- A text in which the search for a byte finds nothing.
abbrev pub Lacks : ℕ → Bytes → Type 0
Lacks x = All (λ c. (c ≢ x) × (c ≢ 0))

strchr-append :
    (x : ℕ) (s rest : Bytes) → x ≢ 0 → Lacks x s → strchr (s ++ (x ∷ rest)) x ≡ some (length s)
unfolding c_string find starts_with
strchr-append x [] rest h _ =
    let other : (x == 0) ≡ false = ground arith in
    let same : (x == x) ≡ true = ground arith in rw (other, same) refl
strchr-append x (c ∷ s) rest h ((p, q), more) =
    let some_byte : (c == 0) ≡ false = ground arith in
    let other : (c == x) ≡ false = ground arith in
    rw (some_byte, other, strchr-append x s rest h more) refl

drop_past : (s : Bytes) (x : ℕ) (rest : Bytes) → drop (suc (length s)) (s ++ (x ∷ rest)) ≡ rest
drop_past [] x rest = refl
drop_past (c ∷ s) x rest = drop_past s x rest

abbrev pub bracketed : Bytes → Bytes → Bytes → Bytes
bracketed label url rest = label ++ (b']' ∷ (b'(' ∷ (url ++ (b')' ∷ rest))))

target-bracketed :
    (label url rest : Bytes)
    → Lacks b']' label
    → Lacks b')' url
    → target (bracketed label url rest) ≡ some (record { label = label; url = url; rest = rest })
unfolding target label_of paren_of url_of
target-bracketed label url rest hl hu =
    let behind = b'(' ∷ (url ++ (b')' ∷ rest)) in
    rw
      (
        strchr-append b']' label behind (λ h. absurd (omega (arith, h))) hl,
        take_append label (b']' ∷ behind),
        drop_append label (b']' ∷ behind),
        strchr-append b'(' (b']' ∷ []) (url ++ (b')' ∷ rest)) (λ h. absurd (omega (arith, h)))
            (omega arith),
        strchr-append b')' url rest (λ h. absurd (omega (arith, h))) hu,
        take_append url (b')' ∷ rest),
      )
      (ap (λ (r : Bytes). some (record { label = label; url = url; rest = r }))
        (drop_past url b')' rest))

-- An append in front of what amounts to another.
append_then {ℓ} :
    {A : Type ℓ} (b : MdBuf) (s t : Bytes) (k : MdBuf → Run A) (last : MdBuf → Run A)
    → Full b
    → ((b' : MdBuf) → Full b' → k b' ≡ (md_append b' t >>= last))
    → (md_append b s >>= k) ≡ (md_append b (s ++ t) >>= last)
append_then b s t k last f h =
    >>=-cong Full (md_append b s) k (λ b'. md_append b' t >>= last) (md_append-Full b s f) h
    ∙ sym (>>=_assoc (md_append b s) (λ b'. md_append b' t) last)
    ∙ ap (λ (r : Run MdBuf). r >>= last) (md_append-append b s t f)

escape_then {ℓ} :
    {A : Type ℓ} (b : MdBuf) (s t : Bytes) (k : MdBuf → Run A) (last : MdBuf → Run A)
    → Full b
    → ((b' : MdBuf) → Full b' → k b' ≡ (md_append b' t >>= last))
    → (escape_html_n s b >>= k) ≡ (md_append b (escaped s ++ t) >>= last)
escape_then b s t k last f h =
    rw (escape_html_n-escaped s b f) (append_then b (escaped s) t k last f h)

-- The markup of an image: both attribute values are escaped, and an unsafe URL is left out.
abbrev pub image_html : Bytes → Bytes → Bytes
image_html label url =
    codes "<img alt=\""
    ++ (escaped label
        ++ (codes "\" src=\"" ++ ((if is_safe_url url then escaped url else []) ++ codes "\">")))

-- The markup of a link; an unsafe URL leaves only the text.
abbrev pub link_html : Bytes → Bytes → Bytes
link_html label url =
    if is_safe_url url
    then codes "<a href=\"" ++ (escaped url ++ (codes "\">" ++ (escaped label ++ codes "</a>")))
    else escaped label

source_then {ℓ} :
    {A : Type ℓ} (b : MdBuf) (url t : Bytes) (k : MdBuf → Run A) (last : MdBuf → Run A)
    → Full b
    → ((b' : MdBuf) → Full b' → k b' ≡ (md_append b' t >>= last))
    → ((if is_safe_url url then escape_html_n url b else done b) >>= k)
      ≡ (md_append b ((if is_safe_url url then escaped url else []) ++ t) >>= last)
source_then b url t k last f h = elim (Bool-cases (is_safe_url url)) [
  | inl e ↦ rw e (escape_then b url t k last f h)
  | inr e ↦ rw e (h b f)
]

image-image_html :
    (t : Target) (b : MdBuf)
    → Full b
    → image t b ≡ (md_append b (image_html t.label t.url) >>= λ b'. done (b', t.rest))
unfolding image
image-image_html t b f = append_then b _ _ _ _ f λ b₁ f₁.
    escape_then b₁ _ _ _ _ f₁
      λ b₂ f₂. append_then b₂ _ _ _ _ f₂ λ b₃ f₃. source_then b₃ t.url _ _ _ f₃ λ b₄ f₄. refl

safe_link-link_html :
    (t : Target) (b : MdBuf)
    → Full b
    → safe_link t b
      ≡ md_append b (
          codes "<a href=\""
          ++ (escaped t.url ++ (codes "\">" ++ (escaped t.label ++ codes "</a>"))))
unfolding safe_link
safe_link-link_html t b f =
    (append_then b _ _ _ done f λ b₁ f₁. escape_then b₁ _ _ _ done f₁ λ b₂ f₂.
      append_then b₂ _ _ _ done f₂ λ b₃ f₃. escape_then b₃ _ _ _ done f₃ λ b₄ f₄. sym (>>=-done _))
    ∙ >>=-done _

link-link_html :
    (t : Target) (b : MdBuf)
    → Full b
    → link t b ≡ (md_append b (link_html t.label t.url) >>= λ b'. done (b', t.rest))
unfolding link
link-link_html t b f = elim (Bool-cases (is_safe_url t.url)) [
  | inl e ↦ rw (e, safe_link-link_html t b f) refl
  | inr e ↦ rw (e, escape_html_n-escaped t.label b f) refl
]

-- An image or a link whose parts hold no delimiter, in front of any text: the round writes the
-- markup in which the texts between brackets and parentheses are escaped and an unsafe URL is left
-- out, and goes on behind the closing parenthesis.
pub inline_round-html :
    (label url rest : Bytes) (b : MdBuf)
    → Lacks b']' label
    → Lacks b')' url
    → Full b
    → (inline_round (b'!' ∷ (b'[' ∷ bracketed label url rest)) b
        ≡ (md_append b (image_html label url) >>= λ b'. done (b', rest)))
      × (inline_round (b'[' ∷ bracketed label url rest) b
          ≡ (md_append b (link_html label url) >>= λ b'. done (b', rest)))
unfolding inline_round target_round starts_with
inline_round-html label url rest b hl hu f =
    let t : Target = record { label = label; url = url; rest = rest } in
    (
      rw (target-bracketed label url rest hl hu) (image-image_html t b f),
      rw (target-bracketed label url rest hl hu) (link-link_html t b f),
    )
