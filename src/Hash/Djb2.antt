-- ===== src/Hash/Djb2.antt =====
-- src/hash.c: `unsafe_hash`. `unsigned int` has 32 bits, and `char` is signed.
pub mod Hexadecimal
use bialet.Prelude.{
  ℕ, zero, suc, ◌+◌, ◌-◌, ◌*◌, ◌/◌, ◌%◌, ◌^◌, [], ◌∷◌, ◌++◌, ltb, if◌then◌else◌, Bytes,
}

-- A byte as `int`, converted to `unsigned int`: those from 128 on are negative.
abbrev pub char_value : ℕ → ℕ
char_value c = if ltb c 128 then c else c + 2 ^ 32 - 256

-- `while((c = *input++))`.
pub hash_from : ℕ → Bytes → ℕ
hash_from hash [] = hash
hash_from hash (c ∷ input) = hash_from ((hash * 33 + char_value c) % 2 ^ 32) input

-- The lower-case digit of a number below 16.
abbrev pub hex_char : ℕ → ℕ
hex_char n = if ltb n 10 then b'0' + n else b'a' + (n - 10)

-- The last `n` hexadecimal digits: `%08x` for eight digits of a number below 2 ^ 32.
unfoldable pub hex_digits : ℕ → ℕ → Bytes → Bytes
hex_digits zero v out = out
hex_digits (suc n) v out = hex_digits n (v / 16) (hex_char (v % 16) ∷ out)

abbrev pub hex8 : ℕ → Bytes
hex8 v = hex_digits 8 v []

unfoldable pub unsafe_hash : Bytes → Bytes
unfolding hash_from hex_digits
unsafe_hash input =
    let hash = hash_from 5381 input in
    hex8 hash
    ++ (hex8 (hash * 3 % 2 ^ 32) ++ (hex8 (hash * 5 % 2 ^ 32) ++ hex8 (hash * 7 % 2 ^ 32)))
