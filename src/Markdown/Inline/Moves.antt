-- ===== src/Markdown/Inline/Moves.antt =====
-- A round of `render_inline` on a line that does not end with an asterisk: it goes on in the line.
-- line's NUL.
use mathlib.Core.Path.{subst}
use bialet.Markdown.Buffer.{
  MdBuf, Run, done, failed, overrun, exhausted, ◌>>=◌, md_append, Extends, Extends-trans, Post,
  max_output, md_append-Extends,
}
use bialet.Markdown.Escape.{escape_html_n}
use bialet.Markdown.Escape.Escaped.{Full, md_append-appended, md_append-Full, escape_html_n-escaped}
use bialet.Html.{escaped}
use bialet.Markdown.Inline.{code_end, span_end, plain_round, span_round, code_round}
use bialet.Utils.Trim.Trimmed.{last_byte}
use bialet.Prelude.Search.{find, find-length}
use bialet.Prelude.{
  drop_append, leb, ◌⊎◌, ℕ, zero, suc, ◌+◌, ◌≤◌, ◌<◌, ◌≡◌, ◌≢◌, refl, false, inl, inr, Option, none,
  some, [], ◌∷◌, ◌++◌, arith, ◌==◌, Bytes, c_string, length, drop, length-append, All, Bool-cases,
  length-drop,
}

-- A property of the result, which is no fault of memory and no lack of fuel.
abbrev pub Total {ℓ} : {A : Type ℓ} → (A → Type 0) → Run A → Type 0
Total P (done a) = P a
Total P failed = Unit
Total P overrun = ⊥
Total P exhausted = ⊥

pub Total->>= {ℓ κ} :
    {A : Type ℓ} {B : Type κ} (P : A → Type 0) (Q : B → Type 0) (r : Run A) (f : A → Run B)
    → Total P r
    → ((a : A) → P a → Total Q (f a))
    → Total Q (r >>= f)
Total->>= P Q (done a) f p next = next a p
Total->>= P Q failed f p next = tt
Total->>= P Q overrun f p next = absurd p
Total->>= P Q exhausted f p next = absurd p

pub Total-map {ℓ} :
    {A : Type ℓ} (P Q : A → Type 0) (r : Run A) → Total P r → ((a : A) → P a → Q a) → Total Q r
Total-map P Q (done a) p f = f a p
Total-map P Q failed p f = tt
Total-map P Q overrun p f = p
Total-map P Q exhausted p f = p

-- A buffer that has grown from another, at its full capacity.
abbrev pub Grown : MdBuf → MdBuf → Type 0
Grown b b' = Extends b b' × Full b'

pub Grown-trans : (a b c : MdBuf) → Grown a b → Grown b c → Grown a c
Grown-trans a b c (p, _) (q, f) = (Extends-trans a b c p q, f)

-- An append is done or has failed.
md_append-cases :
    (b : MdBuf) (s : Bytes)
    → Full b
    → (md_append b s ≡ failed) ⊎ ((c : MdBuf) × (md_append b s ≡ done c))
md_append-cases b s f =
    rw (md_append-appended b s f)
      (elim (Bool-cases (leb (length b.bytes + length s + 1) max_output)) [
        | inl e ↦ inr (record b { bytes = b.bytes ++ s }, rw e refl)
        | inr e ↦ inl (rw e refl)
      ])

pub md_append-Total : (b : MdBuf) (s : Bytes) → Full b → Total (Grown b) (md_append b s)
md_append-Total b s f = elim (md_append-cases b s f) [
  | inl e ↦ rw e tt
  | inr (c, e) ↦
      let grown : Post (Extends b) (done c) = subst (Post (Extends b)) e (md_append-Extends b s) in
      let full : Post Full (done c) = subst (Post Full) e (md_append-Full b s f) in
      rw e (grown, full)
]

pub escape_html_n-Total : (s : Bytes) (b : MdBuf) → Full b → Total (Grown b) (escape_html_n s b)
escape_html_n-Total s b f = rw (escape_html_n-escaped s b f) (md_append-Total b (escaped s) f)

-- The line in front of its NUL and of what follows: it holds no NUL, and its last byte is no
-- asterisk.
pub record Line (line : Bytes) : Type 0 where
  pub no_nul : All (λ c. c ≢ 0) line
  pub last : last_byte line ≢ b'*'

-- Where a round has come to.
pub record Ahead (tail : Bytes) (n : ℕ) (src : Bytes) : Type 0 where
  pub line : Bytes
  pub splits : src ≡ line ++ (0 ∷ tail)
  pub shape : Line line
  pub shorter : length src < n

Line-tail : (c d : ℕ) (s : Bytes) → Line (c ∷ (d ∷ s)) → Line (d ∷ s)
Line-tail c d s l = record { no_nul = l.no_nul.1; last = l.last }

Line-nil : Line []
Line-nil = record { no_nul = tt; last = λ h. absurd (omega (arith, h)) }

pub Line-drop : (k : ℕ) (line : Bytes) → Line line → Line (drop k line)
Line-drop zero line l = l
Line-drop (suc k) [] l = l
Line-drop (suc k) (c ∷ []) l = Line-drop k [] Line-nil
Line-drop (suc k) (c ∷ (d ∷ s)) l = Line-drop k (d ∷ s) (Line-tail c d s l)

pub drop_line : (k : ℕ) (line t : Bytes) → k ≤ length line → drop k (line ++ t) ≡ drop k line ++ t
drop_line zero line t h = refl
drop_line (suc k) [] t h = absurd (omega arith)
drop_line (suc k) (c ∷ line) t h = drop_line k line t (omega arith)

pub c_string_line :
    (line tail : Bytes) → All (λ c. c ≢ 0) line → c_string (line ++ (0 ∷ tail)) ≡ line
unfolding c_string
c_string_line [] tail h = refl
c_string_line (c ∷ line) tail (h, hs) =
    let other : (c == 0) ≡ false = ground arith in rw (other, c_string_line line tail hs) refl

-- A round ends, in a buffer that has grown, further on in the same line.
abbrev pub Moves : Bytes → ℕ → MdBuf → MdBuf × Bytes → Type 0
Moves tail n b (b', src) = Grown b b' × Ahead tail n src

module _ (tail : Bytes) (n : ℕ) where
  pub plain_round-Moves :
      (c : ℕ) (line : Bytes) (b : MdBuf)
      → Full b
      → Line (c ∷ line)
      → length line + suc (length tail) < n
      → Total (Moves tail n b) (plain_round (c ∷ (line ++ (0 ∷ tail))) b)
  unfolding plain_round
  plain_round-Moves c line b f l short =
      Total->>= (Grown b) _ (md_append b (c ∷ [])) _ (md_append-Total b (c ∷ []) f) (λ b' g. (
        g,
        record {
          line = line;
          splits = refl;
          shape = Line-drop 1 (c ∷ line) l;
          shorter = omega (arith, length-append line (0 ∷ tail), short);
        },
      ))

  -- Behind `k` bytes of the line.
  pub drop-Ahead :
      (k : ℕ) (line : Bytes)
      → Line line
      → k ≤ length line
      → length line + suc (length tail) < n
      → Ahead tail n (drop k (line ++ (0 ∷ tail)))
  drop-Ahead k line l fits short = record {
    line = drop k line;
    splits = drop_line k line (0 ∷ tail) fits;
    shape = Line-drop k line l;
    shorter =
        omega (arith, length-drop k (line ++ (0 ∷ tail)), length-append line (0 ∷ tail), short);
  }

  pub Grown-Moves :
      (b c : MdBuf) (r : Run (MdBuf × Bytes))
      → Grown b c
      → Total (Moves tail n c) r
      → Total (Moves tail n b) r
  Grown-Moves b c r g h =
      Total-map (Moves tail n c) (Moves tail n b) r h
        (λ (d, src) (q, a). (Grown-trans b c d g q, a))

  span_end-Moves :
      (m : ℕ) (mark close_tag : Bytes) (c : ℕ) (line : Bytes) (b : MdBuf) (o : Option ℕ)
      → Full b
      → Line (c ∷ line)
      → length (c ∷ line) + suc (length tail) < n
      → find (m ∷ mark) (c ∷ line) ≡ o
      → Total (Moves tail n b) (span_end (m ∷ mark) close_tag (c ∷ (line ++ (0 ∷ tail))) o b)
  unfolding span_end
  span_end-Moves m mark close_tag c line b none f l short e =
      plain_round-Moves c line b f l (omega arith)
  span_end-Moves m mark close_tag c line b (some k) f l short e =
      let room = find-length m mark (c ∷ line) k e in
      Total->>= (Grown b) _ (md_append b _) _ (md_append-Total b _ f)
        (λ c' h. (h, drop-Ahead _ (c ∷ line) l room short))

  pub span_round-Moves :
      (m : ℕ) (mark open_tag close_tag : Bytes) (c : ℕ) (line : Bytes) (b : MdBuf)
      → Full b
      → Line (c ∷ line)
      → length (c ∷ line) + suc (length tail) < n
      → Total
          (Moves tail n b)
          (span_round (m ∷ mark) open_tag close_tag ((m ∷ mark) ++ (c ∷ (line ++ (0 ∷ tail)))) b)
  unfolding span_round
  span_round-Moves m mark open_tag close_tag c line b f l short =
      rw (drop_append (m ∷ mark) (c ∷ (line ++ (0 ∷ tail))), c_string_line (c ∷ line) tail l.no_nul)
        (Total->>= (Grown b) _ (md_append b open_tag) _ (md_append-Total b open_tag f) (λ b' g.
          Grown-Moves b b' _ g (span_end-Moves m mark close_tag c line b' _ g.1 l short refl)))

  code_end-Moves :
      (c : ℕ) (line : Bytes) (b : MdBuf) (o : Option ℕ)
      → Full b
      → Line (c ∷ line)
      → length line + suc (length tail) < n
      → find (b'`' ∷ []) line ≡ o
      → Total (Moves tail n b) (code_end (c ∷ (line ++ (0 ∷ tail))) o b)
  unfolding code_end
  code_end-Moves c line b none f l short e = plain_round-Moves c line b f l short
  code_end-Moves c line b (some k) f l short e =
      let room = find-length _ _ line k e in
      Total->>= (Grown b) _ (md_append b _) _ (md_append-Total b _ f) (λ b₁ g₁.
        Total->>= (Grown b₁) _ (escape_html_n _ b₁) _ (escape_html_n-Total _ b₁ g₁.1) (λ b₂ g₂.
          Total->>= (Grown b₂) _ (md_append b₂ _) _ (md_append-Total b₂ _ g₂.1) (λ b₃ g₃. (
            Grown-trans b b₁ b₃ g₁ (Grown-trans b₁ b₂ b₃ g₂ g₃),
            drop-Ahead (suc k) line (Line-drop 1 (c ∷ line) l) (omega (arith, room)) short,
          ))))

  pub code_round-Moves :
      (c : ℕ) (line : Bytes) (b : MdBuf)
      → Full b
      → Line (c ∷ line)
      → length line + suc (length tail) < n
      → Total (Moves tail n b) (code_round (c ∷ (line ++ (0 ∷ tail))) b)
  unfolding code_round
  code_round-Moves c line b f l short =
      rw (c_string_line line tail l.no_nul.1) (code_end-Moves c line b _ f l short refl)
