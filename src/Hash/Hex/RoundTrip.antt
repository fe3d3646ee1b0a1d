-- ===== src/Hash/Hex/RoundTrip.antt =====
-- Decoding what was encoded.
use bialet.Hash.Djb2.{hex_char}
use bialet.Hash.Hex.{hex_encode, hex_decode}
use bialet.Prelude.{
  ℕ, ◌+◌, ◌*◌, ◌/◌, ◌%◌, ◌<◌, ◌≡◌, ◌≢◌, refl, false, Option, some, [], ◌∷◌, ◌++◌, ◌==◌, arith,
  Bytes, length, All,
}

-- `sscanf` reads two lower-case hexadecimal digits.
abbrev pub ReadsHex : (ℕ → ℕ → Option ℕ) → Type 0
ReadsHex scan = (a b : ℕ) → a < 16 → b < 16 → scan (hex_char a) (hex_char b) ≡ some (a * 16 + b)

abbrev pub AreBytes : Bytes → Type 0
AreBytes = All (λ c. c < 256)

hex_char_full : (n : ℕ) → n < 16 → (hex_char n == 0) ≡ false
hex_char_full n h = ground arith

pub hex_char-ne-dollar : (n : ℕ) → n < 16 → hex_char n ≢ b'$'
hex_char-ne-dollar n h = ground arith

pub hex_decode-encode :
    (scan : ℕ → ℕ → Option ℕ) (s rest : Bytes)
    → ReadsHex scan
    → AreBytes s
    → hex_decode scan (hex_encode s ++ rest) (length s) ≡ some s
unfolding hex_encode hex_decode
hex_decode-encode scan [] rest r h = refl
hex_decode-encode scan (c ∷ s) rest r (small, h) =
    let byte : (c / 16 % 16 * 16 + c % 16) % 256 ≡ c = omega arith in
    rw
      (
        hex_char_full (c / 16 % 16) (omega arith),
        hex_char_full (c % 16) (omega arith),
        r (c / 16 % 16) (c % 16) (omega arith) (omega arith),
        hex_decode-encode scan s rest r h,
        byte,
      )
      refl

pub length-hex_encode : (s : Bytes) → length (hex_encode s) ≡ 2 * length s
unfolding hex_encode
length-hex_encode [] = omega arith
length-hex_encode (c ∷ s) = omega (arith, length-hex_encode s)

pub hex_encode-dollar : (s : Bytes) → All (λ c. c ≢ b'$') (hex_encode s)
unfolding hex_encode
hex_encode-dollar [] = tt
hex_encode-dollar (c ∷ s) = (
  hex_char-ne-dollar (c / 16 % 16) (omega arith),
  (hex_char-ne-dollar (c % 16) (omega arith), hex_encode-dollar s),
)
