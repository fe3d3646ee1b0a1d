-- ===== src/Tests/Markdown.antt =====
-- src/markdown.c: documents, and the theorems at concrete texts.
use bialet.Html.{escaped}
use bialet.Markdown.Buffer.{Run, done, ◌>>=◌, overrun, md_append}
use bialet.Markdown.Escape.{escape_html_n}
use bialet.Markdown.Escape.Escaped.{Full, escape_html_n-escaped}
use bialet.Markdown.Url.{is_safe_url}
use bialet.Markdown.Url.Safe.{IsSafe, is_safe_url_iff}
use bialet.Markdown.Inline.{inline_round, render_inline}
use bialet.Markdown.Inline.Moves.{Total, Grown, Line}
use bialet.Markdown.Inline.Total.{render_inline-Total}
use bialet.Markdown.Inline.LoneStar.{render_inline-lone_star}
use bialet.Markdown.Inline.Images.{bracketed, image_html, link_html, inline_round-html}
use bialet.Markdown.Blocks.{empty_buffer, markdown_to_html}
use bialet.Prelude.{◌≡◌, refl, ◌↔◌, true, false, [], ◌∷◌, ◌++◌, arith, Bytes, codes}
use bialet.Prelude.Decimal.{dec_loop}

abbrev html_of : Bytes → Run Bytes
html_of markdown = markdown_to_html markdown >>= λ b. done b.bytes

heading_and_list :
    html_of (codes "# Hi\n- a\n- b <i>\n\nx `a<b`\n")
    ≡ done (
        codes
          "<h1>Hi</h1>\n<ul>\n<li>a</li>\n<li>b <i></li>\n</ul>\n<p>x <code>a&lt;b</code></p>\n")
unfolding markdown_to_html dec_loop
heading_and_list = refl

full : Full empty_buffer
full = (refl, omega arith)

escape_html_n-escaped_test :
    escape_html_n (codes "a<b & c") empty_buffer
    ≡ md_append empty_buffer (escaped (codes "a<b & c"))
escape_html_n-escaped_test = escape_html_n-escaped (codes "a<b & c") empty_buffer full

is_safe_url_iff_example :
    (is_safe_url (codes "JavaScript:x") ≡ true) ↔ IsSafe (codes "JavaScript:x")
is_safe_url_iff_example = is_safe_url_iff (codes "JavaScript:x")

script_is_unsafe : is_safe_url (codes "JavaScript:x") ≡ false
unfolding is_safe_url
script_is_unsafe = refl

emphasis : Line (codes "a *b* `c`")
emphasis = record { no_nul = omega arith; last = λ h. absurd (omega (arith, h)) }

render_inline-Total_example :
    Total
      (Grown empty_buffer)
      (render_inline (codes "a *b* `c`" ++ (0 ∷ codes "next")) empty_buffer)
render_inline-Total_example =
    render_inline-Total (codes "a *b* `c`") (codes "next") empty_buffer emphasis full

render_inline-lone_star_example :
    render_inline (codes "see" ++ (b'*' ∷ 0 ∷ [])) empty_buffer ≡ overrun
render_inline-lone_star_example =
    render_inline-lone_star (codes "see") empty_buffer (omega arith) refl (omega arith)

lone_star_document : markdown_to_html (codes "see*") ≡ overrun
unfolding markdown_to_html
lone_star_document = refl

-- Behind a line that is not the last one, the rendering runs into the next line, with the NUL in the
-- output.
lone_star_line : html_of (codes "a*\nb\n") ≡ done (codes "<p>a<em>" ++ (0 ∷ codes "b b</p>\n"))
unfolding markdown_to_html
lone_star_line = refl

inline_round-html_example :
    (inline_round (b'!' ∷ (b'[' ∷ bracketed (codes "a\"b") (codes "/c.png") (0 ∷ []))) empty_buffer
      ≡ (md_append empty_buffer (image_html (codes "a\"b") (codes "/c.png")) >>= λ b'.
          done (b', 0 ∷ [])))
    × (inline_round (b'[' ∷ bracketed (codes "a\"b") (codes "/c.png") (0 ∷ [])) empty_buffer ≡ (
        md_append empty_buffer (link_html (codes "a\"b") (codes "/c.png")) >>= λ b'.
        done (b', 0 ∷ [])))
inline_round-html_example =
    inline_round-html (codes "a\"b") (codes "/c.png") (0 ∷ []) empty_buffer (omega arith)
      (omega arith) full

list_around_quote :
    html_of (codes "- a\n> b\n")
    ≡ done (codes "<ul>\n<li>a</li>\n<blockquote>\nb<br>\n</ul>\n</blockquote>\n")
unfolding markdown_to_html
list_around_quote = refl
