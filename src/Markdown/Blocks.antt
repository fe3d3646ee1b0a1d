-- ===== src/Markdown/Blocks.antt =====
-- src/markdown.c: the blocks of `markdown_to_html`.
use bialet.Server.Request.{skip_spaces}
use bialet.Markdown.Buffer.{
  MdBuf, Run, done, exhausted, ◌>>=◌, md_append, max_output, Block, ul, ol, table, blockquote, pre,
  Tag, opened, closed,
}
use bialet.Markdown.Escape.{escape_html_n}
use bialet.Markdown.Inline.{render_inline}
use bialet.Markdown.Url.{is_safe_url}
use bialet.Prelude.Search.{find}
use bialet.Markdown.Lines.{
  lines_from, skip_metadata, is_ordered_list_item, skip_ordered_list_prefix, is_table_line,
  is_list_item, is_special, heading_level,
}
use bialet.Markdown.Table.{is_separator, table_row}
use bialet.Prelude.Decimal.{decimal}
use bialet.Prelude.{
  ℕ, zero, suc, ◌+◌, Bool, true, false, ◌&&◌, List, [], ◌∷◌, ◌++◌, ◌==◌, if◌then◌else◌, Bytes,
  codes, c_string, starts_with, str_eq, peek, drop, length,
}

pub record Flags : Type 0 where
  pub in_list : Bool
  pub in_olist : Bool
  pub in_blockquote : Bool
  pub in_codeblock : Bool
  pub in_table : Bool
  pub table_header_parsed : Bool

abbrev pub tag_text : Tag → Bytes
tag_text (opened ul) = codes "<ul>\n"
tag_text (opened ol) = codes "<ol>\n"
tag_text (opened table) = codes "<table>\n"
tag_text (opened blockquote) = codes "<blockquote>\n"
tag_text (opened pre) = codes "<pre><code>"
tag_text (closed ul) = codes "</ul>\n"
tag_text (closed ol) = codes "</ol>\n"
tag_text (closed table) = codes "</table>\n"
tag_text (closed blockquote) = codes "</blockquote>\n"
tag_text (closed pre) = codes "</code></pre>\n"

-- `md_append` of a block tag.
pub md_tag : Tag → MdBuf → Run MdBuf
md_tag t b = md_append b (tag_text t)

-- `if(!in_x) …` and `if(in_x) …`: the caller sets the flag.
pub open_unless : Bool → Block → MdBuf → Run MdBuf
open_unless already k b = if already then done b else md_tag (opened k) b

pub close_if : Bool → Block → MdBuf → Run MdBuf
close_if on k b = if on then md_tag (closed k) b else done b

-- The flags, the buffer and the lines left after a round.
abbrev pub Round : Type 0
Round = Flags × MdBuf × List Bytes

pub fence : Flags → MdBuf → Run (Flags × MdBuf)
fence f b =
    if f.in_codeblock
    then (do b' ← md_tag (closed pre) b; done (record f { in_codeblock = false }, b'))
    else (do b' ← md_tag (opened pre) b; done (record f { in_codeblock = true }, b'))

pub code_line : Bytes → MdBuf → Run MdBuf
code_line line b = do b' ← escape_html_n (c_string line) b; md_append b' (codes "\n")

-- Behind the marker and at most one space.
abbrev pub quoted : Bytes → Bytes
quoted line = if peek (drop 1 line) == b' ' then drop 2 line else drop 1 line

pub quote_line : Flags → Bytes → MdBuf → Run (Flags × MdBuf)
quote_line f line b = do
  b₁ ← open_unless f.in_blockquote blockquote b
  b₂ ← render_inline (quoted line) b₁
  b₃ ← md_append b₂ (codes "<br>\n")
  done (record f { in_blockquote = true }, b₃)

row_or_rule : Bool → Flags → Bool → Bytes → MdBuf → Run (Flags × MdBuf)
row_or_rule true f parsed line b =
    done (record f { in_table = true; table_header_parsed = parsed }, b)
row_or_rule false f parsed line b = do
  b' ← table_row parsed line b
  done (record f { in_table = true; table_header_parsed = true }, b')

-- The header counts as parsed no more where a table begins.
pub table_line : Flags → Bytes → MdBuf → Run (Flags × MdBuf)
unfolding row_or_rule
table_line f line b = do
  b₁ ← open_unless f.in_table table b
  let parsed = f.in_table && f.table_header_parsed
  row_or_rule (is_separator (c_string line)) f parsed line b₁

pub list_item : Bytes → MdBuf → Run MdBuf
list_item text b = do
  b₁ ← md_append b (codes "<li>")
  b₂ ← render_inline text b₁
  md_append b₂ (codes "</li>\n")

pub ordered_line : Flags → Bytes → MdBuf → Run (Flags × MdBuf)
ordered_line f line b = do
  b₁ ← close_if f.in_list ul b
  b₂ ← open_unless f.in_olist ol b₁
  b₃ ← list_item (skip_ordered_list_prefix line) b₂
  done (record f { in_list = false; in_olist = true }, b₃)

pub bullet_line : Flags → Bytes → MdBuf → Run (Flags × MdBuf)
bullet_line f line b = do
  b₁ ← close_if f.in_olist ol b
  b₂ ← open_unless f.in_list ul b₁
  b₃ ← list_item (drop 2 line) b₂
  done (record f { in_list = true; in_olist = false }, b₃)

pub heading : ℕ → Bytes → MdBuf → Run MdBuf
heading level line b = do
  b₁ ← md_append b (codes "<h" ++ (decimal level ++ codes ">"))
  b₂ ← render_inline (drop (level + 1) line) b₁
  md_append b₂ (codes "</h" ++ (decimal level ++ codes ">\n"))

-- The lines that go on with a paragraph.
pub paragraph_lines : List Bytes → MdBuf → Run (MdBuf × List Bytes)
paragraph_lines [] b = done (b, [])
paragraph_lines (l ∷ lines) b =
    let next = skip_spaces l in
    let more = (do
      b₁ ← md_append b (codes " ")
      b₂ ← render_inline next b₁
      paragraph_lines lines b₂) in
    if peek next == 0
    then done (b, l ∷ lines)
    else if is_special next
    then done (b, l ∷ lines)
    else more

pub paragraph : Bytes → List Bytes → MdBuf → Run (MdBuf × List Bytes)
paragraph line lines b = do
  b₁ ← md_append b (codes "<p>")
  b₂ ← render_inline line b₁
  (b₃, rest) ← paragraph_lines lines b₂
  b₄ ← md_append b₃ (codes "</p>\n")
  done (b₄, rest)

-- The rounds that take one line.
abbrev pub one_line : List Bytes → Run (Flags × MdBuf) → Run Round
one_line lines r = r >>= λ (f, b). done (f, b, lines)

-- Behind the test for a heading: a paragraph, or an empty line.
pub text_line : Flags → Bytes → List Bytes → MdBuf → Run Round
unfolding paragraph
text_line f line lines b =
    if peek line == 0
    then done (f, b, lines)
    else (paragraph line lines b >>= λ (b', rest). done (f, b', rest))

pub after_list : Flags → Bytes → List Bytes → MdBuf → Run Round
unfolding text_line heading
after_list f line lines b =
    let level = heading_level 6 line in
    if peek line == b'#' && peek (drop level line) == b' '
    then (heading level line b >>= λ b'. done (f, b', lines))
    else text_line f line lines b

pub after_olist : Flags → Bytes → List Bytes → MdBuf → Run Round
unfolding bullet_line after_list
after_olist f line lines b =
    if is_list_item line
    then one_line lines (bullet_line f line b)
    else (close_if f.in_list ul b >>= after_list (record f { in_list = false }) line lines)

pub after_table : Flags → Bytes → List Bytes → MdBuf → Run Round
unfolding ordered_line after_olist
after_table f line lines b =
    if is_ordered_list_item line
    then one_line lines (ordered_line f line b)
    else (close_if f.in_olist ol b >>= after_olist (record f { in_olist = false }) line lines)

pub after_quote : Flags → Bytes → List Bytes → MdBuf → Run Round
unfolding table_line after_table
after_quote f line lines b =
    if is_table_line line
    then one_line lines (table_line f line b)
    else (close_if f.in_table table b >>= after_table (record f { in_table = false }) line lines)

-- Behind the test for a fence; the Boolean is `in_codeblock`.
pub line_round : Bool → Flags → Bytes → List Bytes → MdBuf → Run Round
unfolding code_line quote_line after_quote
line_round true f line lines b = code_line line b >>= λ b'. done (f, b', lines)
line_round false f line lines b =
    if peek line == b'>'
    then one_line lines (quote_line f line b)
    else (close_if f.in_blockquote blockquote b
        >>= after_quote (record f { in_blockquote = false }) line lines)

-- A round of the main loop. The spaces before a line are skipped, but not in a code block.
pub block_round : Flags → Bytes → List Bytes → MdBuf → Run Round
unfolding fence line_round
block_round f l lines b =
    let line = if f.in_codeblock then l else skip_spaces l in
    if starts_with (codes "```") line
    then one_line lines (fence f b)
    else line_round f.in_codeblock f line lines b

-- `while(i < line_count)`; each round takes a line or more.
pub block_loop : ℕ → List Bytes → Flags → MdBuf → Run (Flags × MdBuf)
block_loop zero lines f b = exhausted
block_loop (suc fuel) [] f b = done (f, b)
block_loop (suc fuel) (l ∷ lines) f b =
    block_round f l lines b >>= λ (f', b', rest). block_loop fuel rest f' b'

-- What is still open at the end of the document.
pub close_all : Flags → MdBuf → Run MdBuf
close_all f b = do
  b₁ ← close_if f.in_list ul b
  b₂ ← close_if f.in_olist ol b₁
  b₃ ← close_if f.in_table table b₂
  b₄ ← close_if f.in_blockquote blockquote b₃
  close_if f.in_codeblock pre b₄

abbrev pub no_flags : Flags
no_flags = record {
  in_list = false;
  in_olist = false;
  in_blockquote = false;
  in_codeblock = false;
  in_table = false;
  table_header_parsed = false;
}

abbrev pub empty_buffer : MdBuf
empty_buffer = record { bytes = []; cap = max_output }

-- The flags and the buffer behind the main loop.
pub blocks : Bytes → Run (Flags × MdBuf)
unfolding skip_metadata lines_from block_loop
blocks markdown =
    let lines = skip_metadata (lines_from true markdown) in
    block_loop (suc (length lines)) lines no_flags empty_buffer

-- The HTML; the source returns a failed run as NULL.
unfoldable pub markdown_to_html : Bytes → Run MdBuf
unfolding blocks close_all md_tag open_unless close_if paragraph_lines block_round list_item
    md_append escape_html_n render_inline is_table_line is_ordered_list_item
    skip_ordered_list_prefix is_list_item is_special heading_level is_separator table_row
    is_safe_url decimal starts_with str_eq c_string find skip_spaces
markdown_to_html markdown = blocks markdown >>= λ (f, b). close_all f b
