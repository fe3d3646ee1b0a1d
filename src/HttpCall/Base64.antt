-- ===== src/HttpCall/Base64.antt =====
-- Base64 as RFC 4648 reads it.
use bialet.HttpCall.Request.{base64_encode, sextet, table, char_at}
use bialet.Prelude.{
  ap, not, leb, ◌-◌, Bool-cases, arith, ◌+◌, ◌&&◌, ◌%◌, ◌<◌, ◌==◌, ◌^◌, if◌then◌else◌, ◌*◌, Bool,
  ◌/◌, ◌≡◌, All, Bytes, ℕ, true, false, [], ◌∷◌, suc, zero, refl, inl, inr,
}

-- The value of a character in table 1 of RFC 4648: the capital letters, the small ones, the digits,
-- and then + and /.
unfoldable pub value : ℕ → ℕ
value c =
    if leb b'a' c
    then c - b'a' + 26
    else if leb b'A' c
    then c - b'A'
    else if leb b'0' c
    then c - b'0' + 52
    else if c == b'+'
    then 62
    else if c == b'/'
    then 63
    else 64

abbrev pub group : ℕ → ℕ → ℕ → ℕ → ℕ
group w x y z = value w * 2 ^ 18 + value x * 2 ^ 12 + value y * 2 ^ 6 + value z

abbrev pub byte : ℕ → ℕ → ℕ
byte v k = v / 256 ^ k % 256

-- The reference: four characters give three bytes, less one for each `=` at their end, with which
-- the text ends.
unfoldable pub base64_decode : Bytes → Bytes
base64_decode (w ∷ (x ∷ (y ∷ (z ∷ s)))) =
    let rest = base64_decode s in
    if y == b'='
    then byte (group w x b'A' b'A') 2 ∷ []
    else if z == b'='
    then byte (group w x y b'A') 2 ∷ (byte (group w x y b'A') 1 ∷ [])
    else byte (group w x y z) 2 ∷ (byte (group w x y z) 1 ∷ (byte (group w x y z) 0 ∷ rest))
base64_decode _ = []

abbrev pub IsBytes : Bytes → Type 0
IsBytes = All (λ c. c < 256)

places : ℕ → Bool
places zero = true
places (suc n) = value (char_at table n) == n && (not (char_at table n == b'=') && places n)

places_sound :
    (n i : ℕ)
    → places n ≡ true
    → i < n
    → (value (char_at table i) ≡ i) × ((char_at table i == b'=') ≡ false)
unfolding places
places_sound zero i h lt = absurd (omega arith)
places_sound (suc n) i h lt = elim (Bool-cases (i == n)) [
  | inl e ↦ let same : i ≡ n = ground arith in rw same (ground arith, ground arith)
  | inr e ↦ places_sound n i (ground arith) (ground arith)
]

table_places : places 64 ≡ true
unfolding places value char_at
table_places = refl

value-sextet : (v k : ℕ) → value (sextet v k) ≡ v / 64 ^ k % 64
value-sextet v k = (places_sound 64 (v / 64 ^ k % 64) table_places (omega arith)).0

sextet-pad : (v k : ℕ) → (sextet v k == b'=') ≡ false
sextet-pad v k = (places_sound 64 (v / 64 ^ k % 64) table_places (omega arith)).1

value-A : value b'A' ≡ 0
unfolding value
value-A = refl

module _ (v : ℕ) (small : v < 2 ^ 24) where
  group-sextets : group (sextet v 3) (sextet v 2) (sextet v 1) (sextet v 0) ≡ v
  group-sextets =
      rw (value-sextet v 3, value-sextet v 2, value-sextet v 1, value-sextet v 0) (omega arith)

  group-two : v % 2 ^ 16 ≡ 0 → group (sextet v 3) (sextet v 2) b'A' b'A' ≡ v
  group-two h = rw (value-sextet v 3, value-sextet v 2, value-A) (omega arith)

  group-three : v % 2 ^ 8 ≡ 0 → group (sextet v 3) (sextet v 2) (sextet v 1) b'A' ≡ v
  group-three h = rw (value-sextet v 3, value-sextet v 2, value-sextet v 1, value-A) (omega arith)

-- What `base64_encode` makes of any bytes decodes to them again.
pub base64_decode-encode : (s : Bytes) → IsBytes s → base64_decode (base64_encode s) ≡ s
unfolding base64_decode base64_encode
base64_decode-encode [] h = refl
base64_decode-encode (a ∷ []) (ha, _) =
    let v = a * 2 ^ 16 in
    let first : byte v 2 ≡ a = omega arith in
    rw (group-two v (omega arith) (omega arith)) (ap (λ x. x ∷ []) first)
base64_decode-encode (a ∷ (b ∷ [])) (ha, (hb, _)) =
    let v = a * 2 ^ 16 + b * 2 ^ 8 in
    let first : byte v 2 ≡ a = omega arith in
    let second : byte v 1 ≡ b = omega arith in
    rw (sextet-pad v 1, group-three v (omega arith) (omega arith)) (rw (first, second) refl)
base64_decode-encode (a ∷ (b ∷ (c ∷ s))) (ha, (hb, (hc, hs))) =
    let v = a * 2 ^ 16 + b * 2 ^ 8 + c in
    let first : byte v 2 ≡ a = omega arith in
    let second : byte v 1 ≡ b = omega arith in
    let third : byte v 0 ≡ c = omega arith in
    rw (sextet-pad v 1, sextet-pad v 0, group-sextets v (omega arith), base64_decode-encode s hs)
      (rw (first, second, third) refl)
