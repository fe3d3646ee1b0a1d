-- ===== src/Tests/Passwords.antt =====
-- Password hashes on concrete passwords, and the conditions of their theorems met.
use bialet.Hash.Password.Djb2Accepts.{verify-hash_password_djb2}
use bialet.Hash.Hex.RoundTrip.{AreBytes}
use bialet.Hash.Djb2.{unsafe_hash, hex_char}
use bialet.Hash.Compare.{ct_equal_iff, ct_equal}
use bialet.Hash.Password.{verify_password, hash_password, Crypto}
use bialet.Hash.Salt.{generate_salt_lem, IsAlnum, generate_salt}
use bialet.Hash.Password.Accepts.{verify-hash_password, Reliable}
use bialet.Prelude.{
  ◌++◌, ◌*◌, ◌>>=◌, none, ◌+◌, zero, ◌%◌, ◌↔◌, ap, ◌-◌, refl, arith, true, peek, drop, ◌&&◌, suc,
  ◌∷◌, ◌≡◌, leb, if◌then◌else◌, [], codes, some, some_inj, List, Bytes, Option, ◌<◌, length, ℕ,
}

-- A key of the bytes of the password, with zeros behind.
padded : Bytes → ℕ → Bytes
padded p zero = []
padded p (suc n) = (peek p % 256) ∷ padded (drop 1 p) n

padded-AreBytes : (p : Bytes) (n : ℕ) → AreBytes (padded p n) × (length (padded p n) ≡ n)
unfolding padded
padded-AreBytes p zero = (tt, refl)
padded-AreBytes p (suc n) =
    let (h, l) = padded-AreBytes (drop 1 p) n in ((omega arith, h), ap suc l)

abbrev hex_value : ℕ → Option ℕ
hex_value c =
    if leb b'0' c && leb c b'9'
    then some (c - b'0')
    else if leb b'a' c && leb c b'f'
    then some (c - b'a' + 10)
    else none

scan_pair : ℕ → ℕ → Option ℕ
scan_pair a b = do high ← hex_value a; low ← hex_value b; some (high * 16 + low)

abbrev toy_crypto : Crypto
toy_crypto = record {
  pbkdf2 = λ p s n. some (padded p 32);
  sha256 = λ s. some (padded s 32);
  memcmp = ct_equal;
  scan = scan_pair;
}

hex_value-hex_char : (a : ℕ) → a < 16 → hex_value (hex_char a) ≡ some a
hex_value-hex_char a h = ground arith

toy_crypto-Reliable : Reliable toy_crypto
unfolding scan_pair
toy_crypto-Reliable = record {
  key_length = λ p s n k e. rw (← some_inj e) (padded-AreBytes p 32);
  memcmp_iff = ct_equal_iff;
  reads_hex = λ a b ha hb. rw (hex_value-hex_char a ha, hex_value-hex_char b hb) refl;
}

abbrev sixteen : Bytes
sixteen = codes "0123456789abcdef"

verify-hash_password_example :
    (stored : Bytes) × (hash_password (some toy_crypto) (some sixteen) (some (codes "secret"))
      ≡ some stored)
    × ((verify_password (some toy_crypto) (some (codes "Secret")) (some stored) ≡ true)
        ↔ (toy_crypto.pbkdf2 (codes "Secret") sixteen 600000 ≡ some (padded (codes "secret") 32)))
verify-hash_password_example =
    verify-hash_password toy_crypto toy_crypto-Reliable (codes "secret") sixteen
      (padded (codes "secret") 32) (omega arith) refl refl (codes "Secret")

abbrev two_reads : List (Option Bytes)
two_reads = some (1 ∷ (62 ∷ (200 ∷ []))) ∷ (some [] ∷ (some (codes "0123456789abcdefghij") ∷ []))

abbrev alnum_salt : Bytes
alnum_salt = codes "BAOwxyz012345jkl"

generate_salt_two : generate_salt two_reads 16 ≡ some alnum_salt
unfolding generate_salt
generate_salt_two = refl

alnum_salt-IsAlnum : (length alnum_salt ≡ 16) × IsAlnum alnum_salt
alnum_salt-IsAlnum = generate_salt_lem two_reads 16 alnum_salt generate_salt_two

verify-hash_password_djb2_test :
    (stored : Bytes) × (hash_password none (generate_salt two_reads 16) (some (codes "secret"))
      ≡ some stored)
    × ((verify_password (some toy_crypto) (some (codes "Secret")) (some stored) ≡ true)
        ↔ (unsafe_hash (codes "Secret" ++ alnum_salt) ≡ unsafe_hash (codes "secret" ++ alnum_salt)))
verify-hash_password_djb2_test =
    verify-hash_password_djb2 two_reads alnum_salt (codes "secret") (codes "Secret")
      (some toy_crypto) toy_crypto-Reliable generate_salt_two

ct_equal_iff_test : (ct_equal (codes "abc") (codes "abd") ≡ true) ↔ (codes "abc" ≡ codes "abd")
ct_equal_iff_test = ct_equal_iff (codes "abc") (codes "abd") refl
