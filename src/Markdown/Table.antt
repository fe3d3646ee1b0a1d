-- ===== src/Markdown/Table.antt =====
-- src/markdown.c: the cells of a table row. `row` is a copy of the line, which `strtok_r` and the
-- trimming of the cells write NULs into.
use bialet.Server.Request.{skip_spaces}
use bialet.Markdown.Buffer.{MdBuf, Run, done, exhausted, ◌>>=◌, md_append}
use bialet.Markdown.Inline.{render_inline}
use bialet.Prelude.{
  ℕ, zero, suc, ◌-◌, Bool, true, false, ◌||◌, Option, none, some, [], ◌∷◌, ◌++◌, ◌==◌,
  if◌then◌else◌, Bytes, codes, c_string, length,
}

-- `is_separator`, on the line's text.
unfoldable pub is_separator : Bytes → Bool
is_separator [] = true
is_separator (c ∷ line) =
    let more = is_separator line in if c == b'|' || c == b'-' || c == b' ' then more else false

unfoldable pub skip_bars : Bytes → Bytes
skip_bars [] = []
skip_bars (c ∷ row) = if c == b'|' then skip_bars row else c ∷ row

-- A token, and what follows the bar behind it, which is `none` at the end of the row.
unfoldable pub cell_token : Bytes → Bytes × Option Bytes
cell_token [] = ([], none)
cell_token (c ∷ row) =
    let (t, rest) = cell_token row in if c == b'|' then ([], some row) else (c ∷ t, rest)

-- The cell without the spaces at its end; the loop stops at the first byte.
unfoldable pub trim_cell : Bytes → Bytes
trim_cell [] = []
trim_cell (c ∷ cell) =
    let rest = trim_cell cell in
    elim rest [ [] ↦ if c == b' ' then [] else c ∷ [] | d ∷ t ↦ c ∷ (d ∷ t) ]

unfoldable pub zeros : ℕ → Bytes
zeros zero = []
zeros (suc n) = 0 ∷ zeros n

unfoldable pub behind_token : Option Bytes → Bytes
behind_token none = []
behind_token (some row) = row ++ (0 ∷ [])

-- The memory from the cell on: its text, a NUL for each space that was cut off, the NUL of the token,
-- and the row behind it.
unfoldable pub cell_memory : Bytes → Option Bytes → Bytes
unfolding trim_cell zeros behind_token
cell_memory token rest =
    let cell = skip_spaces token in
    let text = trim_cell cell in
    text ++ (zeros (length cell - length text) ++ (0 ∷ behind_token rest))

abbrev cell_tag : Bool → Bytes
cell_tag header_parsed = if header_parsed then codes "<td>" else codes "<th>"

abbrev cell_end_tag : Bool → Bytes
cell_end_tag header_parsed = if header_parsed then codes "</td>" else codes "</th>"

unfoldable pub render_cell : Bool → Bytes → MdBuf → Run MdBuf
render_cell header_parsed cell b = do
  b₁ ← md_append b (cell_tag header_parsed)
  b₂ ← render_inline cell b₁
  md_append b₂ (cell_end_tag header_parsed)

unfoldable pub rest_of : Option Bytes → Bytes
rest_of none = []
rest_of (some row) = row

-- `while(cell)`, on what is left of the row; a round takes a byte or more.
unfoldable pub cells_loop : ℕ → Bool → Bytes → MdBuf → Run MdBuf
unfolding skip_bars cell_token cell_memory rest_of
cells_loop zero header_parsed row b = exhausted
cells_loop (suc fuel) header_parsed row b =
    let (token, rest) = cell_token (skip_bars row) in
    let cell = cell_memory token rest in
    let more = render_cell header_parsed cell b >>= cells_loop fuel header_parsed (rest_of rest) in
    elim (skip_bars row) [ [] ↦ done b | c ∷ s ↦ more ]

unfoldable pub table_row : Bool → Bytes → MdBuf → Run MdBuf
unfolding cells_loop render_cell
table_row header_parsed line b = do
  b₁ ← md_append b (codes "<tr>")
  b₂ ← cells_loop (suc (length line)) header_parsed (c_string line) b₁
  md_append b₂ (codes "</tr>\n")
