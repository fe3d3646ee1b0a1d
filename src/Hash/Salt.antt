-- ===== src/Hash/Salt.antt =====
-- src/hash.c: `generate_salt` outside Windows, given what the reads of /dev/urandom answer.
use bialet.Prelude.{
  All-append, zero, length-take, ◌>>=◌, length-take, length-append, ◌++◌, take, >>=-eq-some, refl,
  none, suc, ◌-◌, ap, some_inj, [], ◌||◌, ◌+◌, ◌∷◌, ltb, some, ◌&&◌, arith, Option, if◌then◌else◌,
  All, length, map, leb, true, Bool, Bytes, List, ◌%◌, ◌≡◌, ℕ,
}

-- `alphabet[c % 62]`.
abbrev pub salt_char : ℕ → ℕ
salt_char c =
    let i = c % 62 in
    if ltb i 26 then b'A' + i else if ltb i 52 then b'a' + (i - 26) else b'0' + (i - 52)

-- The `length` characters of the salt. A read gives the bytes it put into the buffer, or `none`
-- for an error, where the process exits; no result also where the reads given are not enough.
unfoldable pub generate_salt : List (Option Bytes) → ℕ → Option Bytes
generate_salt reads zero = some []
generate_salt [] (suc n) = none
generate_salt (none ∷ reads) (suc n) = none
generate_salt (some buf ∷ reads) (suc n) = do
  more ← generate_salt reads (suc n - length buf)
  some (map salt_char (take (suc n) buf) ++ more)

abbrev pub is_alnum : ℕ → Bool
is_alnum c =
    (leb b'A' c && leb c b'Z') || ((leb b'a' c && leb c b'z') || (leb b'0' c && leb c b'9'))

abbrev pub IsAlnum : Bytes → Type 0
IsAlnum = All (λ c. is_alnum c ≡ true)

salt_char-IsAlnum : (c : ℕ) → is_alnum (salt_char c) ≡ true
salt_char-IsAlnum c = ground arith

map-IsAlnum : (s : Bytes) → IsAlnum (map salt_char s)
map-IsAlnum [] = tt
map-IsAlnum (c ∷ s) = (salt_char-IsAlnum c, map-IsAlnum s)

length-map : (s : Bytes) → length (map salt_char s) ≡ length s
length-map [] = refl
length-map (c ∷ s) = ap suc (length-map s)

-- However the bytes arrive, a salt has the length asked for and only letters and digits.
pub generate_salt_lem :
    (reads : List (Option Bytes)) (n : ℕ) (salt : Bytes)
    → generate_salt reads n ≡ some salt
    → (length salt ≡ n) × IsAlnum salt
unfolding generate_salt
generate_salt_lem reads zero salt e = rw (← some_inj e) (refl, tt)
generate_salt_lem [] (suc n) salt e = cc
generate_salt_lem (none ∷ reads) (suc n) salt e = cc
generate_salt_lem (some buf ∷ reads) (suc n) salt e =
    let (more, p, q) = >>=-eq-some (generate_salt reads (suc n - length buf)) _ e in
    let (l, a) = generate_salt_lem reads (suc n - length buf) more p in
    let front = map salt_char (take (suc n) buf) in
    let measure : length (front ++ more) ≡ suc n = omega (
      arith,
      length-append front more,
      length-map (take (suc n) buf),
      length-take (suc n) buf,
      l,
    ) in
    rw (← some_inj q)
      (measure, All-append (λ c. is_alnum c ≡ true) front more (map-IsAlnum (take (suc n) buf)) a)
