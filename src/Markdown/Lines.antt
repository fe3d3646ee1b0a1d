-- ===== src/Markdown/Lines.antt =====
-- src/markdown.c: the lines of `markdown_to_html`, and the tests on the beginning of a line. A line is
-- the memory from its first byte to the end of the array: each line feed has become a NUL.
use bialet.Markdown.Inline.{strchr}
use bialet.Prelude.Decimal.{is_digit}
use bialet.Prelude.{
  ℕ, zero, suc, Bool, true, false, ◌&&◌, ◌||◌, Option, none, some, List, [], ◌∷◌, ◌++◌, ◌==◌,
  if◌then◌else◌, Bytes, codes, c_string, str_eq, starts_with, peek, drop, map,
}

-- The array behind the splitting loop.
unfoldable pub memory : Bytes → Bytes
memory text = map (λ c. if c == 10 then 0 else c) text ++ (0 ∷ [])

-- `lines`: a line begins at the beginning and behind each line feed, but not at the end of the text.
unfoldable pub lines_from : Bool → Bytes → List Bytes
unfolding memory
lines_from start [] = []
lines_from start (c ∷ text) =
    let more = lines_from (c == 10) text in if start then memory (c ∷ text) ∷ more else more

abbrev pub is_rule : Bytes → Bool
is_rule line = str_eq (c_string line) (codes "---")

-- Behind the first line of the metadata.
unfoldable pub after_metadata : List Bytes → List Bytes
after_metadata [] = []
after_metadata (l ∷ lines) = let more = after_metadata lines in if is_rule l then lines else more

unfoldable pub skip_metadata : List Bytes → List Bytes
unfolding after_metadata
skip_metadata [] = []
skip_metadata (l ∷ lines) = if is_rule l then after_metadata lines else l ∷ lines

unfoldable pub skip_digits : Bytes → Bytes
skip_digits [] = []
skip_digits (c ∷ line) = if is_digit c then skip_digits line else c ∷ line

unfoldable pub is_ordered_list_item : Bytes → Bool
unfolding skip_digits
is_ordered_list_item line =
    is_digit (peek line)
    && peek (skip_digits line) == b'.'
    && peek (drop 1 (skip_digits line)) == b' '

unfoldable pub skip_ordered_list_prefix : Bytes → Bytes
unfolding skip_digits
skip_ordered_list_prefix line = drop 2 (skip_digits line)

abbrev pub is_some {ℓ} : {A : Type ℓ} → Option A → Bool
is_some none = false
is_some (some a) = true

unfoldable pub is_table_line : Bytes → Bool
is_table_line line = peek line == b'|' && is_some (strchr (drop 1 line) b'|')

unfoldable pub is_list_item : Bytes → Bool
is_list_item line = starts_with (codes "- ") line || starts_with (codes "* ") line

-- `is_special`: the line ends a paragraph.
unfoldable pub is_special : Bytes → Bool
unfolding is_list_item is_table_line is_ordered_list_item
is_special line =
    peek line == b'#'
    || is_list_item line
    || starts_with (codes "```") line
    || peek line == b'>'
    || is_table_line line
    || is_ordered_list_item line

-- `while(line[level] == '#' && level < 6)`, from the rounds left.
unfoldable pub heading_level : ℕ → Bytes → ℕ
heading_level zero line = 0
heading_level (suc rounds) [] = 0
heading_level (suc rounds) (c ∷ line) =
    let more = suc (heading_level rounds line) in if c == b'#' then more else 0
