-- ===== src/Hash/Djb2/Hexadecimal.antt =====
-- The text of a digest.
use bialet.Hash.Djb2.{hash_from, [], hex_char, unsafe_hash, hex_digits, hex8}
use bialet.Prelude.{
  zero, length-append, ◌^◌, arith, ◌*◌, ◌∷◌, ◌%◌, true, ◌||◌, All-append, ◌+◌, ◌/◌, ◌&&◌, ◌≡◌, leb,
  length, suc, All, ◌++◌, Bytes, ◌<◌, Bool, ℕ,
}

abbrev pub is_hex : ℕ → Bool
is_hex c = (leb b'0' c && leb c b'9') || (leb b'a' c && leb c b'f')

abbrev pub IsHex : Bytes → Type 0
IsHex = All (λ c. is_hex c ≡ true)

hex_char-is_hex : (n : ℕ) → n < 16 → is_hex (hex_char n) ≡ true
hex_char-is_hex n h = ground arith

hex_digits-IsHex : (n v : ℕ) (out : Bytes) → IsHex out → IsHex (hex_digits n v out)
unfolding hex_digits
hex_digits-IsHex zero v out h = h
hex_digits-IsHex (suc n) v out h =
    hex_digits-IsHex n (v / 16) (hex_char (v % 16) ∷ out)
      (hex_char-is_hex (v % 16) (omega arith), h)

length-hex_digits : (n v : ℕ) (out : Bytes) → length (hex_digits n v out) ≡ n + length out
unfolding hex_digits
length-hex_digits zero v out = omega arith
length-hex_digits (suc n) v out =
    omega (arith, length-hex_digits n (v / 16) (hex_char (v % 16) ∷ out))

-- Four words of eight digits.
IsDigest : Bytes → Type 0
IsDigest s = (length s ≡ 32) × IsHex s

words : (a b c d : ℕ) → IsDigest (hex8 a ++ (hex8 b ++ (hex8 c ++ hex8 d)))
unfolding IsDigest
words a b c d =
    let hex : (v : ℕ) → IsHex (hex8 v) = λ v. hex_digits-IsHex 8 v [] tt in
    let join = All-append (λ c. is_hex c ≡ true) in
    (
      omega (
        arith,
        length-append (hex8 a) (hex8 b ++ (hex8 c ++ hex8 d)),
        length-append (hex8 b) (hex8 c ++ hex8 d),
        length-append (hex8 c) (hex8 d),
        length-hex_digits 8 a [],
        length-hex_digits 8 b [],
        length-hex_digits 8 c [],
        length-hex_digits 8 d [],
      ),
      join (hex8 a) _ (hex a) (join (hex8 b) _ (hex b) (join (hex8 c) _ (hex c) (hex d))),
    )

pub unsafe_hash-IsHex : (s : Bytes) → (length (unsafe_hash s) ≡ 32) × IsHex (unsafe_hash s)
unfolding unsafe_hash IsDigest
unsafe_hash-IsHex s =
    let hash = hash_from 5381 s in
    words hash (hash * 3 % 2 ^ 32) (hash * 5 % 2 ^ 32) (hash * 7 % 2 ^ 32)
