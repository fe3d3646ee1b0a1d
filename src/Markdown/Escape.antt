-- ===== src/Markdown/Escape.antt =====
-- src/markdown.c: `escape_html_n`.
pub mod Escaped
use bialet.Html.{is_special}
use bialet.Markdown.Buffer.{MdBuf, Run, done, exhausted, ◌>>=◌, md_append}
use bialet.Prelude.{
  ℕ, zero, suc, ◌+◌, [], ◌∷◌, ◌==◌, if◌then◌else◌, Bytes, codes, length, take, drop,
}

-- `plain - i` where the inner loop ends.
pub plain_len : Bytes → ℕ
plain_len [] = 0
plain_len (c ∷ s) = let more = suc (plain_len s) in if is_special c then 0 else more

-- The `switch`.
pub replacement : ℕ → Bytes
replacement c =
    if c == b'&'
    then codes "&amp;"
    else if c == b'<'
    then codes "&lt;"
    else if c == b'>'
    then codes "&gt;"
    else if c == b'"'
    then codes "&quot;"
    else codes "&#39;"

pub append_plain : Bytes → ℕ → MdBuf → Run MdBuf
append_plain src plain b = if plain == 0 then done b else md_append b (take plain src)

-- The outer loop on the bytes from `src[i]` on; a round takes one byte or more.
pub escape_loop : ℕ → Bytes → MdBuf → Run MdBuf
escape_loop zero src b = exhausted
escape_loop (suc fuel) [] b = done b
escape_loop (suc fuel) (c ∷ s) b =
    let src = c ∷ s in
    append_plain src (plain_len src) b >>= λ b'. elim (drop (plain_len src) src) [
      | [] ↦ done b'
      | d ∷ rest ↦ md_append b' (replacement d) >>= escape_loop fuel rest
    ]

-- The text is the `n` bytes from `src` on.
unfoldable pub escape_html_n : Bytes → MdBuf → Run MdBuf
unfolding plain_len replacement append_plain escape_loop
escape_html_n src b = escape_loop (suc (length src)) src b
