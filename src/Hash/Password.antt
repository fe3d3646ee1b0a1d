-- ===== src/Hash/Password.antt =====
-- src/hash.c: `hash_password` and `verify_password`, in a build with OpenSSL and in one without.
-- OpenSSL's functions and `sscanf` are parameters.
pub mod Formats
pub mod Accepts
pub mod Djb2Accepts
use bialet.Utils.Strtol.{strtol}
use bialet.Prelude.Decimal.{is_digit, decimal}
use bialet.Hash.Compare.{ct_equal}
use bialet.Hash.Hex.{hex_encode, hex_decode}
use bialet.Prelude.Search.{find}
use bialet.Hash.Djb2.{unsafe_hash}
use bialet.Utils.Trim.{trim_start}
use bialet.Prelude.{
  ltb, suc, ◌&&◌, ◌||◌, ◌+◌, peek, none, ◌*◌, ◌==◌, [], ◌-◌, not, length, false, some, drop, ◌∷◌,
  ◌++◌, codes, if◌then◌else◌, take, Bool, starts_with, Bytes, Option, ℕ, ◌>>=◌,
}

-- What a build with OpenSSL calls; `none` where a call fails.
pub record Crypto : Type 0 where
  -- `pbkdf2_derive`: `PKCS5_PBKDF2_HMAC` on the password, the salt and the iterations.
  pub pbkdf2 : Bytes → Bytes → ℕ → Option Bytes
  -- The calls of `EVP_Digest…` on the bytes that the updates feed in.
  pub sha256 : Bytes → Option Bytes
  -- `CRYPTO_memcmp(a, b, n) == 0`.
  pub memcmp : Bytes → Bytes → Bool
  -- `sscanf(pair, "%2x", &byte)`.
  pub scan : ℕ → ℕ → Option ℕ

abbrev pub pbkdf2_prefix : Bytes
pbkdf2_prefix = codes "pbkdf2$"

abbrev pub pbkdf2_iterations : ℕ
pbkdf2_iterations = 600000

abbrev pub pbkdf2_salt_len : ℕ
pbkdf2_salt_len = 16

abbrev pub pbkdf2_hash_len : ℕ
pbkdf2_hash_len = 32

abbrev pub salt_length : ℕ
salt_length = 16

abbrev pub unsafe_hash_hex_len : ℕ
unsafe_hash_hex_len = 32

abbrev pub hash_and_salt_length : ℕ
hash_and_salt_length = 128

-- `snprintf(output, HASH_AND_SALT_LENGTH, …)`.
abbrev pub clipped : Bytes → Bytes
clipped s = take (hash_and_salt_length - 1) s

-- The text that `hash_password` leaves in `output`, given the salt that `RAND_bytes` or
-- `generate_salt` gives. Without OpenSSL the process exits where there is none.
unfoldable pub hash_password : Option Crypto → Option Bytes → Option Bytes → Option Bytes
unfolding hex_encode unsafe_hash decimal
hash_password build salt none = some []
hash_password none salt (some password) = do
  s ← salt
  some (clipped (unsafe_hash (password ++ s) ++ (b'$' ∷ s)))
hash_password (some c) none (some password) = some []
hash_password (some c) (some s) (some password) = elim (c.pbkdf2 password s pbkdf2_iterations) [
  | none ↦ some []
  | some hash ↦ some (
      clipped (
        pbkdf2_prefix
        ++ (decimal pbkdf2_iterations ++ (b'$' ∷ (hex_encode s ++ (b'$' ∷ hex_encode hash))))))
]

-- `legacy_sha256`.
abbrev pub legacy_sha256 : Crypto → Bytes → Bytes → Option Bytes
legacy_sha256 c password salt = do
  out ← c.sha256 (password ++ salt)
  if length out == 32 then some out else none

-- Where `strchr(s, '$')` finds a byte with `at` bytes before it: the text behind.
unfoldable pub split_at : Bytes → ℕ → Option Bytes
unfolding find
split_at s at = do sep ← find (b'$' ∷ []) s; if sep == at then some (drop (suc sep) s) else none

-- The salt, the stored digest and the number of iterations, from what `strtol` reads behind the
-- prefix on.
unfoldable pub fields_behind : Crypto → Bool → ℕ → Bytes → Option (Bytes × Bytes × ℕ)
unfolding split_at hex_decode
fields_behind c negative iterations end = do
  salt_hex ←
      if not (peek end == b'$') || (negative || (iterations == 0 || ltb 100000000 iterations))
      then none
      else some (drop 1 end)
  hash_hex ← split_at salt_hex (pbkdf2_salt_len * 2)
  checked ← if length hash_hex == pbkdf2_hash_len * 2 then some hash_hex else none
  salt ← hex_decode c.scan salt_hex pbkdf2_salt_len
  stored ← hex_decode c.scan checked pbkdf2_hash_len
  some (salt, stored, iterations)

unfoldable pub pbkdf2_fields : Crypto → Bytes → Option (Bytes × Bytes × ℕ)
unfolding strtol fields_behind
pbkdf2_fields c p =
    strtol p >>= λ (negative, iterations, end). fields_behind c negative iterations end

abbrev pub is_true : Option Bool → Bool
is_true none = false
is_true (some b) = b

unfoldable pub verify_pbkdf2 : Crypto → Bytes → Bytes → Bool
unfolding pbkdf2_fields
verify_pbkdf2 c password p = is_true (do
  (salt, stored, iterations) ← pbkdf2_fields c p
  computed ← c.pbkdf2 password salt iterations
  some (c.memcmp computed stored))

unfoldable pub verify_sha256 : Crypto → Bytes → Bytes → Bool
unfolding hex_decode
verify_sha256 c password hash_and_salt = is_true (do
  salt ← hex_decode c.scan (drop 65 hash_and_salt) 16
  stored ← hex_decode c.scan hash_and_salt 32
  computed ← legacy_sha256 c password salt
  some (c.memcmp computed stored))

-- `ct_equal`.
unfoldable pub equal_in : Option Crypto → Bytes → Bytes → Bool
unfolding ct_equal
equal_in none a b = ct_equal a b
equal_in (some c) a b = c.memcmp a b

-- The last block of `verify_password`.
unfoldable pub verify_djb2 : Option Crypto → Bytes → Bytes → Bool
unfolding split_at unsafe_hash equal_in
verify_djb2 build password hash_and_salt = is_true (do
  stored_salt ← split_at hash_and_salt unsafe_hash_hex_len
  some (
      length stored_salt == salt_length
      && equal_in build (unsafe_hash (password ++ stored_salt))
          (take unsafe_hash_hex_len hash_and_salt)))

unfoldable pub verify_password : Option Crypto → Option Bytes → Option Bytes → Bool
unfolding verify_pbkdf2 verify_sha256 verify_djb2 starts_with
verify_password build none _ = false
verify_password build (some password) none = false
verify_password none (some password) (some hash_and_salt) = verify_djb2 none password hash_and_salt
verify_password (some c) (some password) (some hash_and_salt) =
    if starts_with pbkdf2_prefix hash_and_salt
    then verify_pbkdf2 c password (drop 7 hash_and_salt)
    else if length hash_and_salt == 64 + 1 + 32 && peek (drop 64 hash_and_salt) == b'/'
    then verify_sha256 c password hash_and_salt
    else verify_djb2 (some c) password hash_and_salt
