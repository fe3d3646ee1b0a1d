-- ===== src/Server/ContentLength.antt =====
-- src/server.c: `parse_content_length`, on the bytes behind the colon of the header.
pub mod Exact
use bialet.Prelude.Decimal.{digits_value, is_digit, IsDigits}
use bialet.Prelude.{
  ℕ, ◌+◌, ◌-◌, ◌*◌, ◌/◌, ◌%◌, ◌^◌, ◌≡◌, ◌≢◌, Bool, true, not, ◌&&◌, ◌||◌, Option, none, some, [],
  ◌∷◌, ◌++◌, ltb, leb, ◌==◌, if◌then◌else◌, Bytes, peek, All,
}

-- The return codes -1, 1 and 0; with 0 comes `*out`.
pub data Parsed : Type 0 where
  malformed : Parsed
  above_max : Parsed
  accepted : ℕ → Parsed

-- `SIZE_MAX` of a 64-bit `size_t`.
abbrev pub size_max : ℕ
size_max = 2 ^ 64 - 1

abbrev pub is_blank : ℕ → Bool
is_blank c = c == b' ' || c == b'\t'

-- `while(*v == ' ' || *v == '\t') v++;`
unfoldable pub skip_blanks : Bytes → Bytes
skip_blanks [] = []
skip_blanks (c ∷ v) = if is_blank c then skip_blanks v else c ∷ v

-- The digit loop: `none` for the overflow, else the number and the unread bytes.
pub digits : ℕ → Bytes → Option (ℕ × Bytes)
digits n [] = some (n, [])
digits n (c ∷ v) =
    let more = digits ((n * 10 + (c - b'0')) % 2 ^ 64) v in
    if not (is_digit c)
    then some (n, c ∷ v)
    else if ltb ((size_max - (c - b'0')) / 10) n
    then none
    else more

abbrev pub is_line_end : ℕ → Bool
is_line_end c = c == 13 || c == 10 || c == 0

-- The tests behind the digit loop.
pub finish : ℕ → Option (ℕ × Bytes) → Parsed
finish max none = malformed
finish max (some (n, rest)) =
    if not (is_line_end (peek (skip_blanks rest)))
    then malformed
    else if ltb max n
    then above_max
    else accepted n

unfoldable pub parse_content_length : Bytes → ℕ → Parsed
unfolding skip_blanks digits finish
parse_content_length v max =
    let w = skip_blanks v in if not (is_digit (peek w)) then malformed else finish max (digits 0 w)

abbrev pub IsBlanks : Bytes → Type 0
IsBlanks = All (λ c. is_blank c ≡ true)

-- A well-formed value: blanks, digits, blanks, and the end of the line.
pub record Field (v : Bytes) (n : ℕ) : Type 0 where
  pub before : Bytes
  pub number : Bytes
  pub after : Bytes
  pub rest : Bytes
  pub shape : v ≡ before ++ (number ++ (after ++ rest))
  pub blank_before : IsBlanks before
  pub is_number : IsDigits number
  pub number_ne_nil : number ≢ []
  pub blank_after : IsBlanks after
  pub line_end : is_line_end (peek rest) ≡ true
  pub value_is : n ≡ digits_value 0 number
