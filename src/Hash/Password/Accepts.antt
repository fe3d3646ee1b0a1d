-- ===== src/Hash/Password/Accepts.antt =====
-- What `verify_password` accepts of what `hash_password` wrote.
use bialet.Hash.Hex.{hex_encode}
use bialet.Prelude.Decimal.{dec_loop, decimal}
use bialet.Hash.Password.Formats.{pbkdf2_fields-text, pbkdf2_text, pbkdf2_tail}
use bialet.Hash.Hex.RoundTrip.{length-hex_encode, ReadsHex, AreBytes}
use bialet.Hash.Password.{hash_password, verify_password, verify_pbkdf2, Crypto}
use bialet.Prelude.{
  some_inj, inl, inr, Option-cases, take_all, refl, ◌∷◌, ap, ◌++◌, codes, length-append, ◌↔◌,
  starts_with, true, arith, some, length, ◌≡◌, Bytes, ℕ,
}

-- What is relied on of OpenSSL and `sscanf`: the key has 32 bytes, the comparison is exact, and two
-- hexadecimal digits are read.
pub record Reliable (c : Crypto) : Type 0 where
  pub key_length :
      (p s : Bytes) (n : ℕ) (k : Bytes) → c.pbkdf2 p s n ≡ some k → AreBytes k × (length k ≡ 32)
  pub memcmp_iff : (a b : Bytes) → length a ≡ length b → (c.memcmp a b ≡ true) ↔ (a ≡ b)
  pub reads_hex : ReadsHex c.scan

length-pbkdf2_tail :
    (salt key : Bytes) → length salt ≡ 16 → length key ≡ 32 → length (pbkdf2_tail salt key) ≡ 97
length-pbkdf2_tail salt key hs hk = omega (
  arith,
  length-append (hex_encode salt) (b'$' ∷ hex_encode key),
  length-hex_encode salt,
  length-hex_encode key,
  hs,
  hk,
)

module _ (c : Crypto) (r : Reliable c) (p salt key : Bytes) (salt_bytes : AreBytes salt)
    (salt_length : length salt ≡ 16) (derived : c.pbkdf2 p salt 600000 ≡ some key) where
  hash_password-openssl : hash_password (some c) (some salt) (some p) ≡ some (pbkdf2_text salt key)
  unfolding hash_password decimal dec_loop
  hash_password-openssl =
      let (_, l) = r.key_length p salt 600000 key derived in
      rw (derived) (
        ap some (
          take_all 127 (pbkdf2_text salt key)
            (omega (arith, length-pbkdf2_tail salt key salt_length l))))

  verify_pbkdf2-text :
      (q : Bytes)
      → (verify_pbkdf2 c q (codes "600000$" ++ pbkdf2_tail salt key) ≡ true)
        ↔ (c.pbkdf2 q salt 600000 ≡ some key)
  unfolding verify_pbkdf2
  verify_pbkdf2-text q =
      let (b, l) = r.key_length p salt 600000 key derived in
      rw (pbkdf2_fields-text c salt key r.reads_hex salt_bytes salt_length b l)
        (elim (Option-cases (c.pbkdf2 q salt 600000)) [
          | inl n ↦ rw n (ground arith)
          | inr (k, e) ↦
              let (_, m) = r.key_length q salt 600000 k e in
              let (f, g) = r.memcmp_iff k key (omega (arith, l, m)) in
              rw e ((λ h. ap some (f h), λ h. g (some_inj h)))
        ])

  verify_password-openssl :
      (q : Bytes)
      → verify_password (some c) (some q) (some (pbkdf2_text salt key))
        ≡ verify_pbkdf2 c q (codes "600000$" ++ pbkdf2_tail salt key)
  unfolding verify_password starts_with
  verify_password-openssl q = refl

  -- With OpenSSL, what is written for a password is accepted for exactly the passwords from which
  -- the same key is derived, given a salt of 16 bytes and that the derivation succeeds.
  pub verify-hash_password :
      (q : Bytes)
      → (stored : Bytes) × (hash_password (some c) (some salt) (some p) ≡ some stored)
        × ((verify_password (some c) (some q) (some stored) ≡ true)
            ↔ (c.pbkdf2 q salt 600000 ≡ some key))
  verify-hash_password q = (
    pbkdf2_text salt key,
    hash_password-openssl,
    rw (verify_password-openssl q) (verify_pbkdf2-text q),
  )
