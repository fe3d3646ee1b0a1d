-- ===== src/Markdown/Inline.antt =====
-- src/markdown.c: `render_inline`. The text is the memory from `src` on, to the end of the array that
-- holds it: the line, its NUL, and what follows. A read behind that end is `overrun`.
pub mod Moves
pub mod Total
pub mod LoneStar
pub mod Images
use bialet.Markdown.Buffer.{MdBuf, Run, done, overrun, exhausted, ◌>>=◌, md_append}
use bialet.Markdown.Escape.{escape_html_n}
use bialet.Markdown.Url.{is_safe_url}
use bialet.Prelude.Search.{find}
use bialet.Prelude.{
  ℕ, zero, suc, ◌+◌, not, ◌&&◌, Option, none, some, [], ◌∷◌, ◌++◌, ◌==◌, if◌then◌else◌, Bytes,
  codes, c_string, starts_with, peek, length, take, drop,
}

-- `strchr(s, c) - s`, for a byte that is no NUL.
abbrev pub strchr : Bytes → ℕ → Option ℕ
strchr s c = find (c ∷ []) (c_string s)

-- The end of a round that found no construct: one byte is copied, also the NUL.
pub plain_round : Bytes → MdBuf → Run (MdBuf × Bytes)
plain_round [] b = overrun
plain_round (c ∷ src) b = md_append b (c ∷ []) >>= λ b'. done (b', src)

-- From the place where the closing mark stands, if it does.
pub span_end : Bytes → Bytes → Bytes → Option ℕ → MdBuf → Run (MdBuf × Bytes)
span_end mark close_tag s none b = plain_round s b
span_end mark close_tag s (some k) b =
    md_append b (take k s ++ close_tag) >>= λ b'. done (b', drop (k + length mark) s)

-- `**` and `*`: the opening tag is written before the closing mark is looked for. The text between
-- is not escaped.
pub span_round : Bytes → Bytes → Bytes → Bytes → MdBuf → Run (MdBuf × Bytes)
unfolding span_end
span_round mark open_tag close_tag src b =
    let s = drop (length mark) src in
    md_append b open_tag >>= span_end mark close_tag s (find mark (c_string s))

pub code_end : Bytes → Option ℕ → MdBuf → Run (MdBuf × Bytes)
code_end src none b = plain_round src b
code_end src (some k) b = do
  let s = drop 1 src
  b₁ ← md_append b (codes "<code>")
  b₂ ← escape_html_n (take k s) b₁
  b₃ ← md_append b₂ (codes "</code>")
  done (b₃, drop (suc k) s)

pub code_round : Bytes → MdBuf → Run (MdBuf × Bytes)
unfolding code_end
code_round src b = code_end src (strchr (drop 1 src) b'`') b

-- What stands between the brackets and between the parentheses behind them, and what follows.
pub record Target : Type 0 where
  pub label : Bytes
  pub url : Bytes
  pub rest : Bytes

url_of : Bytes → Bytes → Option ℕ → Option Target
url_of label u none = none
url_of label u (some k) = some (record { label = label; url = take k u; rest = drop (suc k) u })

paren_of : Bytes → Bytes → Option ℕ → Option Target
paren_of label t none = none
paren_of label t (some j) = let u = drop (suc j) t in url_of label u (strchr u b')')

label_of : Bytes → Option ℕ → Option Target
label_of s none = none
label_of s (some i) = let t = drop i s in paren_of (take i s) t (strchr t b'(')

-- The three searches, from the text behind the opening bracket on: for `]`, for `(` from there, and
-- for `)` from there. A `[` is no `]`, and a `(` no `)`, so it is the same to begin behind it.
unfoldable pub target : Bytes → Option Target
unfolding url_of paren_of label_of
target s = label_of s (strchr s b']')

pub image : Target → MdBuf → Run (MdBuf × Bytes)
image t b = do
  b₁ ← md_append b (codes "<img alt=\"")
  b₂ ← escape_html_n t.label b₁
  b₃ ← md_append b₂ (codes "\" src=\"")
  b₄ ← if is_safe_url t.url then escape_html_n t.url b₃ else done b₃
  b₅ ← md_append b₄ (codes "\">")
  done (b₅, t.rest)

safe_link : Target → MdBuf → Run MdBuf
safe_link t b = do
  b₁ ← md_append b (codes "<a href=\"")
  b₂ ← escape_html_n t.url b₁
  b₃ ← md_append b₂ (codes "\">")
  b₄ ← escape_html_n t.label b₃
  md_append b₄ (codes "</a>")

pub link : Target → MdBuf → Run (MdBuf × Bytes)
unfolding safe_link
link t b = do
  b' ← if is_safe_url t.url then safe_link t b else escape_html_n t.label b
  done (b', t.rest)

pub target_round :
    (Target → MdBuf → Run (MdBuf × Bytes)) → Option Target → Bytes → MdBuf → Run (MdBuf × Bytes)
target_round render none src b = plain_round src b
target_round render (some t) src b = render t b

-- A round at a byte that is no NUL: the buffer, and the new `src`.
pub inline_round : Bytes → MdBuf → Run (MdBuf × Bytes)
inline_round src b =
    if starts_with (codes "**") src
    then span_round (codes "**") (codes "<strong>") (codes "</strong>") src b
    else if peek src == b'*' && not (peek (drop 1 src) == b'*')
    then span_round (codes "*") (codes "<em>") (codes "</em>") src b
    else if peek src == b'`'
    then code_round src b
    else if starts_with (codes "![") src
    then target_round image (target (drop 2 src)) src b
    else if peek src == b'['
    then target_round link (target (drop 1 src)) src b
    else plain_round src b

-- `while(*src)`.
pub render_loop : ℕ → Bytes → MdBuf → Run MdBuf
render_loop zero src b = exhausted
render_loop (suc fuel) [] b = overrun
render_loop (suc fuel) (c ∷ s) b =
    let more = inline_round (c ∷ s) b >>= λ (b', rest). render_loop fuel rest b' in
    if c == 0 then done b else more

-- A round takes a byte or more, so the length of the memory is fuel enough.
unfoldable pub render_inline : Bytes → MdBuf → Run MdBuf
unfolding plain_round span_round code_round target image link target_round inline_round render_loop
render_inline src b = render_loop (suc (length src)) src b
