-- ===== src/Hash/Password/Formats.antt =====
-- The two texts that `hash_password` writes, and how `verify_password` takes them apart.
use bialet.Utils.Trim.{trim_start}
use bialet.Hash.Djb2.{unsafe_hash}
use bialet.Hash.Hex.RoundTrip.{
  length-hex_encode, hex_encode-dollar, hex_decode-encode, AreBytes, ReadsHex,
}
use bialet.Hash.Hex.{hex_decode, hex_encode}
use bialet.Prelude.Search.{find}
use bialet.Utils.Strtol.{read_digits, strtol}
use bialet.Hash.Password.{fields_behind, pbkdf2_fields, [], Crypto, split_at}
use bialet.Prelude.{
  ◌>>=◌, ◌∙◌, ap, true, arith, false, append-nil, refl, ◌==◌, some, ◌≡◌, length, ◌∷◌, suc, ◌≢◌,
  ◌++◌, starts_with, All, codes, drop, Bytes, ℕ,
}

abbrev pub pbkdf2_tail : Bytes → Bytes → Bytes
pbkdf2_tail salt key = hex_encode salt ++ (b'$' ∷ hex_encode key)

abbrev pub pbkdf2_text : Bytes → Bytes → Bytes
pbkdf2_text salt key = codes "pbkdf2$600000$" ++ pbkdf2_tail salt key

abbrev pub djb2_text : Bytes → Bytes → Bytes
djb2_text password salt = unsafe_hash (password ++ salt) ++ (b'$' ∷ salt)

find_dollar :
    (s rest : Bytes)
    → All (λ c. c ≢ b'$') s
    → find (b'$' ∷ []) (s ++ (b'$' ∷ rest)) ≡ some (length s)
unfolding find starts_with
find_dollar [] rest h = refl
find_dollar (c ∷ s) rest (p, h) =
    let other : (c == b'$') ≡ false = ground arith in rw (other, find_dollar s rest h) refl

drop_past : (s : Bytes) (x : ℕ) (rest : Bytes) → drop (suc (length s)) (s ++ (x ∷ rest)) ≡ rest
drop_past [] x rest = refl
drop_past (c ∷ s) x rest = drop_past s x rest

pub split_at-append :
    (s rest : Bytes) (n : ℕ)
    → All (λ c. c ≢ b'$') s
    → length s ≡ n
    → split_at (s ++ (b'$' ∷ rest)) n ≡ some rest
unfolding split_at
split_at-append s rest n h l =
    let same : (length s == n) ≡ true = ground arith in
    rw (find_dollar s rest h, same, drop_past s b'$' rest) refl

pub strtol_text :
    (rest : Bytes) → strtol (codes "600000$" ++ rest) ≡ some (false, 600000, b'$' ∷ rest)
unfolding strtol read_digits trim_start
strtol_text rest = refl

module _ (c : Crypto) (salt key : Bytes) (reads : ReadsHex c.scan) (salt_bytes : AreBytes salt)
    (salt_length : length salt ≡ 16) (key_bytes : AreBytes key) (key_length : length key ≡ 32) where
  decode_salt : hex_decode c.scan (pbkdf2_tail salt key) 16 ≡ some salt
  decode_salt =
      rw (← salt_length) (hex_decode-encode c.scan salt (b'$' ∷ hex_encode key) reads salt_bytes)

  decode_key : hex_decode c.scan (hex_encode key) 32 ≡ some key
  decode_key =
      rw (← key_length, ← append-nil (hex_encode key))
        (hex_decode-encode c.scan key [] reads key_bytes)

  fields_behind-text :
      fields_behind c false 600000 (b'$' ∷ pbkdf2_tail salt key) ≡ some (salt, key, 600000)
  unfolding fields_behind
  fields_behind-text =
      let cut =
        split_at-append (hex_encode salt) (hex_encode key) 32 (hex_encode-dollar salt)
          (omega (arith, length-hex_encode salt, salt_length)) in
      let long : (length (hex_encode key) == 64) ≡ true =
        ground (arith, length-hex_encode key, key_length) in
      rw (cut, long, decode_salt, decode_key) refl

  pub pbkdf2_fields-text :
      pbkdf2_fields c (codes "600000$" ++ pbkdf2_tail salt key) ≡ some (salt, key, 600000)
  unfolding pbkdf2_fields
  pbkdf2_fields-text =
      ap (λ r. r >>= λ (negative, iterations, end). fields_behind c negative iterations end)
        (strtol_text (pbkdf2_tail salt key))
      ∙ fields_behind-text
