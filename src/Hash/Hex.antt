-- ===== src/Hash/Hex.antt =====
-- src/hash.c: `hex_encode` and `hex_decode`. What `sscanf(pair, "%2x", …)` makes of two bytes is a
-- parameter: the value, or `none` where it does not return 1.
pub mod RoundTrip
use bialet.Hash.Djb2.{hex_char}
use bialet.Prelude.{
  ℕ, zero, suc, ◌+◌, ◌*◌, ◌/◌, ◌%◌, ◌||◌, Option, none, some, [], ◌∷◌, ◌>>=◌, ◌==◌, if◌then◌else◌,
  Bytes, peek, drop,
}

-- Each byte is below 256.
unfoldable pub hex_encode : Bytes → Bytes
hex_encode [] = []
hex_encode (c ∷ s) = hex_char (c / 16 % 16) ∷ (hex_char (c % 16) ∷ hex_encode s)

-- The bytes of `out`, or `none` where the call returns 0.
unfoldable pub hex_decode : (ℕ → ℕ → Option ℕ) → Bytes → ℕ → Option Bytes
hex_decode scan hex zero = some []
hex_decode scan hex (suc out_len) =
    let a = peek hex in
    let b = peek (drop 1 hex) in
    let rest = (do
      byte ← scan a b
      more ← hex_decode scan (drop 2 hex) out_len
      some (byte % 256 ∷ more)) in
    if a == 0 || b == 0 then none else rest
