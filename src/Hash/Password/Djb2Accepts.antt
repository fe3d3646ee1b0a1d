-- ===== src/Hash/Password/Djb2Accepts.antt =====
-- What any build accepts of what one without OpenSSL wrote.
use mathlib.Core.Path.{subst}
use bialet.Hash.Djb2.{unsafe_hash}
use bialet.Hash.Compare.{ct_equal_iff}
use bialet.Hash.Password.Accepts.{Reliable}
use bialet.Hash.Password.Formats.{split_at-append, djb2_text}
use bialet.Hash.Salt.{generate_salt_lem, generate_salt}
use bialet.Hash.Djb2.Hexadecimal.{is_hex, unsafe_hash-IsHex, IsHex}
use bialet.Hash.Password.{
  hash_password, verify_djb2, salt_length, verify_password, pbkdf2_prefix, Crypto, equal_in,
}
use bialet.Prelude.{
  [], refl, take_append, ◌∷◌, length-append, take_all, take, ◌==◌, arith, ap, false, none, ◌↔◌,
  All-map, ◌≢◌, true, ◌++◌, All, some, ◌≡◌, length, ◌<◌, Bytes, starts_with, List, Option,
}

abbrev pub ReliableIn : Option Crypto → Type 0
ReliableIn none = Unit
ReliableIn (some c) = Reliable c

equal_in_iff :
    (build : Option Crypto) (a b : Bytes)
    → ReliableIn build
    → length a ≡ length b
    → (equal_in build a b ≡ true) ↔ (a ≡ b)
unfolding equal_in
equal_in_iff none a b r l = ct_equal_iff a b l
equal_in_iff (some c) a b r l = r.memcmp_iff a b l

hex-ne-dollar : (s : Bytes) → IsHex s → All (λ c. c ≢ b'$') s
hex-ne-dollar s h = All-map (λ c. is_hex c ≡ true) (λ c. c ≢ b'$') s (λ c e. ground arith) h

-- A text of hexadecimal digits does not begin as a text of the current format does.
hex-prefix :
    (s rest : Bytes) → 0 < length s → IsHex s → starts_with pbkdf2_prefix (s ++ rest) ≡ false
unfolding starts_with
hex-prefix [] rest n h = absurd (omega arith)
hex-prefix (c ∷ s) rest n (e, h) = let other : (c == b'p') ≡ false = ground arith in rw other refl

module _ (p salt : Bytes) (salt_length : length salt ≡ 16) where
  length-djb2_text : length (djb2_text p salt) ≡ 49
  length-djb2_text =
      let (l, _) = unsafe_hash-IsHex (p ++ salt) in
      omega (arith, length-append (unsafe_hash (p ++ salt)) (b'$' ∷ salt), l, salt_length)

  hash_password-djb2 : hash_password none (some salt) (some p) ≡ some (djb2_text p salt)
  unfolding hash_password
  hash_password-djb2 = ap some (take_all 127 (djb2_text p salt) (omega (arith, length-djb2_text)))

  verify_djb2-text :
      (build : Option Crypto) (q : Bytes)
      → ReliableIn build
      → (verify_djb2 build q (djb2_text p salt) ≡ true)
        ↔ (unsafe_hash (q ++ salt) ≡ unsafe_hash (p ++ salt))
  unfolding verify_djb2
  verify_djb2-text build q r =
      let hash = unsafe_hash (p ++ salt) in
      let (l, h) = unsafe_hash-IsHex (p ++ salt) in
      let (m, _) = unsafe_hash-IsHex (q ++ salt) in
      let long : (length salt == 16) ≡ true = ground arith in
      let front : take 32 (hash ++ (b'$' ∷ salt)) ≡ hash =
        subst (λ n. take n (hash ++ (b'$' ∷ salt)) ≡ hash) l (take_append hash (b'$' ∷ salt)) in
      rw (split_at-append hash salt 32 (hex-ne-dollar hash h) l, long, front)
        (equal_in_iff build (unsafe_hash (q ++ salt)) hash r (omega (arith, l, m)))

  verify_password-djb2 :
      (build : Option Crypto) (q : Bytes)
      → verify_password build (some q) (some (djb2_text p salt))
        ≡ verify_djb2 build q (djb2_text p salt)
  unfolding verify_password
  verify_password-djb2 none q = refl
  verify_password-djb2 (some c) q =
      let (l, h) = unsafe_hash-IsHex (p ++ salt) in
      let short : (length (djb2_text p salt) == 97) ≡ false = ground (arith, length-djb2_text) in
      rw (hex-prefix (unsafe_hash (p ++ salt)) (b'$' ∷ salt) (omega (arith, l)) h, short) refl

-- What a build without OpenSSL writes for a password, with a salt that `generate_salt` made, is
-- accepted on every build for exactly the passwords whose salted text has the same DJB2 digest.
pub verify-hash_password_djb2 :
    (reads : List (Option Bytes)) (salt p q : Bytes) (build : Option Crypto)
    → ReliableIn build
    → generate_salt reads salt_length ≡ some salt
    → (stored : Bytes) × (hash_password none (generate_salt reads salt_length) (some p)
        ≡ some stored)
      × ((verify_password build (some q) (some stored) ≡ true)
          ↔ (unsafe_hash (q ++ salt) ≡ unsafe_hash (p ++ salt)))
verify-hash_password_djb2 reads salt p q build r e =
    let (l, _) = generate_salt_lem reads salt_length salt e in
    (
      djb2_text p salt,
      rw e (hash_password-djb2 p salt l),
      rw (verify_password-djb2 p salt l build q) (verify_djb2-text p salt l build q r),
    )
