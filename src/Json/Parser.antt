-- ===== src/Json/Parser.antt =====
-- src/json.c: `parse_number`, `parse_array`, `parse_object`, `parse_value` and
-- `prim_json_parse_primitive`. Lists and maps are the sequences of what is written into them, in
-- order; the collector is not modelled.
pub mod Depth
pub mod Total
use bialet.Json.Text.{skip_ws, parse_string}
use bialet.Prelude.{
  ℕ, zero, suc, ◌+◌, ◌*◌, ◌/◌, ◌%◌, ◌^◌, Bool, true, false, ◌&&◌, ◌||◌, Option, none, some, [], ◌∷◌,
  ltb, leb, ◌==◌, if◌then◌else◌, Bytes, length, drop, codes, starts_with, peek,
}

-- What `strtod` answers: the bytes that it reads, the bit pattern of the double, and whether it
-- sets `errno` to ERANGE.
pub record Strtod : Type 0 where
  pub count : ℕ
  pub bits : ℕ
  pub erange : Bool

-- The values of the interpreter that the parser makes.
mutual
  pub data Value : Type 0 where
    null : Value
    boolean : Bool → Value
    number : ℕ → Value
    text : Bytes → Value
    array : Items → Value
    object : Fields → Value

  pub data Items : Type 0 where
    nil : Items
    cons : Value → Items → Items

  pub data Fields : Type 0 where
    end : Fields
    field : Bytes → Value → Fields → Fields

-- A value, `JSON_ERROR`, or no fuel left.
pub data ParseResult {ℓ} (A : Type ℓ) : Type ℓ where
  parsed : A → Bytes → ParseResult A
  error : ParseResult A
  exhausted : ParseResult A

abbrev pub then_parse {ℓ κ} :
    {A : Type ℓ} {B : Type κ} → ParseResult A → (A → Bytes → ParseResult B) → ParseResult B
then_parse (parsed a p) k = k a p
then_parse error k = error
then_parse exhausted k = exhausted

abbrev pub of_option {ℓ} : {A : Type ℓ} → Option (A × Bytes) → ParseResult A
of_option none = error
of_option (some (a, p)) = parsed a p

abbrev pub max_json_depth : ℕ
max_json_depth = 128

-- `isinf(num) || isnan(num)`: the exponent has all its bits set.
abbrev pub is_inf_or_nan : ℕ → Bool
is_inf_or_nan bits = bits / 2 ^ 52 % 2 ^ 11 == 2047

unfoldable pub parse_number : (Bytes → Strtod) → Bytes → ParseResult Value
parse_number strtod p =
    let r = strtod p in
    if r.count == 0
    then error
    else if r.erange
    then error
    else if is_inf_or_nan r.bits
    then error
    else parsed (number r.bits) (drop r.count p)

unfoldable pub parse_word : Bytes → Value → Bytes → ParseResult Value
parse_word word v p = if starts_with word p then parsed v (drop (length word) p) else error

-- The cases of the `switch` that make no recursive call, at a text behind the white space.
unfoldable pub parse_scalar : (Bytes → Strtod) → Bytes → ParseResult Value
unfolding parse_number parse_word
parse_scalar strtod [] = error
parse_scalar strtod (c ∷ p) =
    let s = c ∷ p in
    if c == b'"'
    then then_parse (of_option (parse_string s)) (λ t rest. parsed (text t) rest)
    else if c == b't'
    then parse_word (codes "true") (boolean true) s
    else if c == b'f'
    then parse_word (codes "false") (boolean false) s
    else if c == b'n'
    then parse_word (codes "null") null s
    else if c == b'-' || (leb b'0' c && leb c b'9')
    then parse_number strtod s
    else error

-- The functions call one another on a shorter fuel: `items` is the loop of `parse_array` and
-- `members` that of `parse_object`, both behind the opening bracket.
unfoldable mutual
  unfolding parse_string skip_ws parse_scalar

  pub parse_value : (Bytes → Strtod) → ℕ → ℕ → Bytes → ParseResult Value
  parse_value strtod zero depth p = exhausted
  parse_value strtod (suc fuel) depth p =
      let s = skip_ws p in
      let list = parse_array strtod fuel depth (skip_ws (drop 1 s)) in
      let map = parse_object strtod fuel depth (skip_ws (drop 1 s)) in
      if ltb max_json_depth depth
      then error
      else if peek s == b'{'
      then map
      else if peek s == b'['
      then list
      else parse_scalar strtod s

  -- Behind `[` and white space.
  pub parse_array : (Bytes → Strtod) → ℕ → ℕ → Bytes → ParseResult Value
  parse_array strtod zero depth s = exhausted
  parse_array strtod (suc fuel) depth s =
      let loop = then_parse (parse_items strtod fuel depth s) (λ xs rest. parsed (array xs) rest) in
      if peek s == b']' then parsed (array nil) (drop 1 s) else loop

  pub parse_object : (Bytes → Strtod) → ℕ → ℕ → Bytes → ParseResult Value
  parse_object strtod zero depth s = exhausted
  parse_object strtod (suc fuel) depth s =
      let loop =
        then_parse (parse_members strtod fuel depth s) (λ xs rest. parsed (object xs) rest) in
      if peek s == b'}' then parsed (object end) (drop 1 s) else loop

  -- `for(;;)` of `parse_array`.
  pub parse_items : (Bytes → Strtod) → ℕ → ℕ → Bytes → ParseResult Items
  parse_items strtod zero depth s = exhausted
  parse_items strtod (suc fuel) depth s =
      then_parse (parse_value strtod fuel (depth + 1) s) (λ v rest.
        let s' = skip_ws rest in
        let more =
          then_parse (parse_items strtod fuel depth (skip_ws (drop 1 s')))
            (λ vs later. parsed (cons v vs) later) in
        if peek s' == b']'
        then parsed (cons v nil) (drop 1 s')
        else if peek s' == b','
        then more
        else error)

  -- `for(;;)` of `parse_object`.
  pub parse_members : (Bytes → Strtod) → ℕ → ℕ → Bytes → ParseResult Fields
  parse_members strtod zero depth s = exhausted
  parse_members strtod (suc fuel) depth s =
      then_parse (of_option (parse_string (skip_ws s))) (λ key behind.
        let colon = skip_ws behind in
        let value = then_parse (parse_value strtod fuel (depth + 1) (drop 1 colon)) (λ v rest.
          let s' = skip_ws rest in
          let more =
            then_parse (parse_members strtod fuel depth (drop 1 s'))
              (λ fs later. parsed (field key v fs) later) in
          if peek s' == b'}'
          then parsed (field key v end) (drop 1 s')
          else if peek s' == b','
          then more
          else error) in
        if peek colon == b':' then value else error)

-- The messages of `RETURN_ERROR`.
pub data Answer : Type 0 where
  empty_input invalid trailing : Answer
  json : Value → Answer

abbrev pub finish_parse : ParseResult Value → Option Answer
finish_parse exhausted = none
finish_parse error = some invalid
finish_parse (parsed v p) = if length (skip_ws p) == 0 then some (json v) else some trailing

-- The call on a string argument; an argument that is no string is refused before. A value takes
-- three calls at most for each byte, so this fuel is enough, and `none` is never the answer.
unfoldable pub json_parse : (Bytes → Strtod) → Bytes → Option Answer
unfolding parse_value
json_parse strtod [] = some empty_input
json_parse strtod (c ∷ p) = finish_parse (parse_value strtod (3 * length (c ∷ p) + 3) 0 (c ∷ p))
