-- ===== src/Json/Text/Bound.antt =====
-- The buffer of `parse_string`: what is decoded fits the space that the scan measured.
use bialet.Json.Utf8.{utf8_encode}
use mathlib.Core.Path.{subst}
use bialet.Json.Text.{
  parse_string, decode_scanned, simple_escape, decode, unicode_escape, join_halves, low_half,
  escape, classify_unit, hex4, hex_digit, hex_loop, scan_string,
}
use bialet.Prelude.{
  none, Option, drop, ◌>>=◌, inr, length-append, leb, inl, ◌&&◌, Bool-cases, ◌++◌, ◌≤◌, true, ℕ,
  zero, suc, ◌+◌, ◌*◌, ◌≡◌, refl, ap, ◌∙◌, false, some, [], ◌∷◌, arith, ◌==◌, Bytes, length,
  some_inj, >>=-eq-some,
}

-- The scan goes from `s` to `rest` over `k` bytes, and does not meet the closing quote.
record Passes (s rest : Bytes) (k : ℕ) : Type 0 where
  scans : (n : ℕ) → scan_string rest ≡ some n → scan_string s ≡ some (n + k)
  size : length s ≡ length rest + k

Passes-trans : (s t u : Bytes) (j k : ℕ) → Passes s t j → Passes t u k → Passes s u (j + k)
Passes-trans s t u j k p q = record {
  scans = λ n e. p.scans (n + k) (q.scans n e) ∙ ap some (omega arith);
  size = omega (arith, p.size, q.size);
}

Passes-plain : (c : ℕ) (s : Bytes) → (c == b'"') ≡ false → (c == b'\\') ≡ false → Passes (c ∷ s) s 1
unfolding scan_string
Passes-plain c [] q b = record { scans = λ n e. absurd (ground arith); size = omega arith }
Passes-plain c (d ∷ s) q b = record {
  scans = λ n e. rw (q, b, e) (ap some (omega arith));
  size = omega arith;
}

Passes-escape : (d : ℕ) (s : Bytes) → Passes (b'\\' ∷ (d ∷ s)) s 2
unfolding scan_string
Passes-escape d s = record { scans = λ n e. rw e refl; size = omega arith }

hex_digit_plain : (c d : ℕ) → hex_digit c ≡ some d → ((c == b'"') ≡ false) × ((c == b'\\') ≡ false)
hex_digit_plain c d h = ground arith

hex_loop-Passes :
    (n v : ℕ) (s : Bytes) (v' : ℕ) (rest : Bytes)
    → hex_loop n v s ≡ some (v', rest)
    → Passes s rest n
unfolding hex_loop
hex_loop-Passes zero v s v' rest h =
    let same : s ≡ rest = ap (λ (p : ℕ × Bytes). p.1) (some_inj h) in
    rw (← same) (record { scans = λ n e. e ∙ ap some (omega arith); size = omega arith })
hex_loop-Passes (suc n) v [] v' rest h = absurd (cc)
hex_loop-Passes (suc n) v (c ∷ s) v' rest h =
    let (d, digit, more) = >>=-eq-some (hex_digit c) (λ d. hex_loop n (v * 16 + d) s) h in
    let (q, b) = hex_digit_plain c d digit in
    subst (Passes (c ∷ s) rest) (omega arith) (
      Passes-trans (c ∷ s) s rest 1 n (Passes-plain c s q b)
        (hex_loop-Passes n (v * 16 + d) s v' rest more))

-- A unit of text that goes on to `rest`, over at least four bytes.
abbrev Unit4 : Bytes → Bytes → Type 0
Unit4 s rest = (k : ℕ) × Passes s rest k × (4 ≤ k)

hex4-Passes : (s : Bytes) (v : ℕ) (rest : Bytes) → hex4 s ≡ some (v, rest) → Passes s rest 4
unfolding hex4
hex4-Passes s v rest h = hex_loop-Passes 4 0 s v rest h

join_halves-rest :
    (high low : ℕ) (s : Bytes) (cp : ℕ) (rest : Bytes)
    → join_halves high low s ≡ some (cp, rest)
    → s ≡ rest
unfolding join_halves
join_halves-rest high low s cp rest h = ground arith

low_half-Unit4 :
    (high : ℕ) (s : Bytes) (cp : ℕ) (rest : Bytes)
    → low_half high s ≡ some (cp, rest)
    → Unit4 s rest
unfolding low_half
low_half-Unit4 high [] cp rest h = absurd (cc)
low_half-Unit4 high (c ∷ []) cp rest h = absurd (cc)
low_half-Unit4 high (c ∷ (d ∷ s)) cp rest h = elim (Bool-cases (c == b'\\' && d == b'u')) [
  | inr e ↦ absurd (cc (rw e at h))
  | inl e ↦
      let ((low, after), read, joined) =
        >>=-eq-some (hex4 s) (λ p. join_halves high p.0 p.1) (rw e at h) in
      let same = join_halves-rest high low after cp rest joined in
      let slash : c ≡ b'\\' = ground arith in
      let p =
        Passes-trans (b'\\' ∷ (d ∷ s)) s after 2 4 (Passes-escape d s)
          (hex4-Passes s low after read) in
      (6, rw slash (subst (λ r. Passes (b'\\' ∷ (d ∷ s)) r 6) same p), omega arith)
]

classify_unit-Passes :
    (unit : ℕ) (s : Bytes) (cp : ℕ) (rest : Bytes)
    → classify_unit unit s ≡ some (cp, rest)
    → (k : ℕ) × Passes s rest k
unfolding classify_unit
classify_unit-Passes unit s cp rest h = elim (Bool-cases (leb 0xD800 unit && leb unit 0xDBFF)) [
  | inl e ↦ let (k, p, _) = low_half-Unit4 unit s cp rest (rw e at h) in (k, p)
  | inr e ↦
      let same : s ≡ rest = ground arith in
      (0, rw same (record { scans = λ n q. q ∙ ap some (omega arith); size = omega arith }))
]

unicode_escape-Unit4 :
    (s : Bytes) (cp : ℕ) (rest : Bytes) → unicode_escape s ≡ some (cp, rest) → Unit4 s rest
unfolding unicode_escape
unicode_escape-Unit4 s cp rest h =
    let ((unit, after), read, more) = >>=-eq-some (hex4 s) (λ p. classify_unit p.0 p.1) h in
    let (k, p) = classify_unit-Passes unit after cp rest more in
    (4 + k, Passes-trans s after rest 4 k (hex4-Passes s unit after read) p, omega arith)

utf8_encode-length : (cp : ℕ) (b : Bytes) → utf8_encode cp ≡ some b → length b ≤ 4
unfolding utf8_encode
utf8_encode-length cp b h = ground arith

escape-Passes :
    (s bytes rest : Bytes)
    → escape s ≡ some (bytes, rest)
    → (k : ℕ) × Passes (b'\\' ∷ s) rest k × (length bytes ≤ k)
unfolding escape
escape-Passes [] bytes rest h = absurd (cc)
escape-Passes (c ∷ s) bytes rest h = elim (Bool-cases (c == b'u')) [
  | inl e ↦
      let ((cp, after), read, more) =
        >>=-eq-some (unicode_escape s) (λ p. utf8_encode p.0 >>= λ b. some (b, p.1)) (rw e at h) in
      let (b, made, out) = >>=-eq-some (utf8_encode cp) (λ b. some (b, after)) more in
      let (k, p, long) = unicode_escape-Unit4 s cp after read in
      let same : after ≡ rest = ap (λ (q : Bytes × Bytes). q.1) (some_inj out) in
      let same_bytes : b ≡ bytes = ap (λ (q : Bytes × Bytes). q.0) (some_inj out) in
      (
        2 + k,
        subst (λ r. Passes (b'\\' ∷ (c ∷ s)) r (2 + k)) same
            (Passes-trans (b'\\' ∷ (c ∷ s)) s after 2 k (Passes-escape c s) p),
        rw (← same_bytes) (omega (arith, utf8_encode-length cp b made)),
      )
  | inr e ↦
      let (d, _, out) = >>=-eq-some (simple_escape c) (λ d. some (d ∷ [], s)) (rw e at h) in
      let same : s ≡ rest = ap (λ (q : Bytes × Bytes). q.1) (some_inj out) in
      let same_bytes : d ∷ [] ≡ bytes = ap (λ (q : Bytes × Bytes). q.0) (some_inj out) in
      (
        2,
        subst (λ r. Passes (b'\\' ∷ (c ∷ s)) r 2) same (Passes-escape c s),
        rw (← same_bytes) (omega arith),
      )
]

-- The token that has been decoded: the scan measures it, what is written fits, and `rest` follows
-- the closing quote.
pub record Decoded (s out rest : Bytes) : Type 0 where
  pub len : ℕ
  pub measured : scan_string s ≡ some len
  pub fits : length out ≤ len
  pub consumed : length s ≡ length rest + len + 1

Decoded-quote : (c : ℕ) (s : Bytes) → (c == b'"') ≡ true → Decoded (c ∷ s) [] s
unfolding scan_string
Decoded-quote c [] e = record {
  len = 0;
  measured = rw e refl;
  fits = omega arith;
  consumed = omega arith;
}
Decoded-quote c (d ∷ s) e = record {
  len = 0;
  measured = rw e refl;
  fits = omega arith;
  consumed = omega arith;
}

Decoded-Passes :
    (s t bytes out rest : Bytes) (k : ℕ)
    → Passes s t k
    → length bytes ≤ k
    → Decoded t out rest
    → Decoded s (bytes ++ out) rest
Decoded-Passes s t bytes out rest k p b d = record {
  len = d.len + k;
  measured = p.scans d.len d.measured;
  fits = omega (arith, length-append bytes out, d.fits);
  consumed = omega (arith, p.size, d.consumed);
}

subst_pair : (P : Bytes → Bytes → Type 0) {p q : Bytes × Bytes} → p ≡ q → P p.0 p.1 → P q.0 q.1
subst_pair P e x = subst (λ (r : Bytes × Bytes). P r.0 r.1) e x

decode-Decoded :
    (fuel : ℕ) (s out rest : Bytes) → decode fuel s ≡ some (out, rest) → Decoded s out rest
unfolding decode
decode-Decoded zero s out rest h = absurd (cc)
decode-Decoded (suc fuel) [] out rest h = absurd (cc)
decode-Decoded (suc fuel) (c ∷ s) out rest h = elim (Bool-cases (c == b'"')) [
  | inl q ↦
      let same : ([], s) ≡ (out, rest) = some_inj (rw q at h) in
      subst_pair (Decoded (c ∷ s)) same (Decoded-quote c s q)
  | inr q ↦ elim (Bool-cases (c == b'\\')) [
    | inl b ↦
        let ((bytes, after), read, next) =
          >>=-eq-some (escape s) (λ p. decode fuel p.1 >>= λ r. some (p.0 ++ r.0, r.1))
            (rw (q, b) at h) in
        let ((more, last), decoded, made) =
          >>=-eq-some (decode fuel after) (λ r. some (bytes ++ r.0, r.1)) next in
        let (k, p, long) = escape-Passes s bytes after read in
        let slash : c ≡ b'\\' = ground arith in
        let result =
          Decoded-Passes (b'\\' ∷ s) after bytes more last k p long
            (decode-Decoded fuel after more last decoded) in
        rw slash (subst_pair (Decoded (b'\\' ∷ s)) (some_inj made) result)
    | inr b ↦
        let ((more, last), decoded, made) =
          >>=-eq-some (decode fuel s) (λ r. some (c ∷ r.0, r.1)) (rw (q, b) at h) in
        let result =
          Decoded-Passes (c ∷ s) s (c ∷ []) more last 1 (Passes-plain c s q b) (omega arith)
            (decode-Decoded fuel s more last decoded) in
        subst_pair (Decoded (c ∷ s)) (some_inj made) result
  ]
]

decode_scanned-Decoded :
    (len : Option ℕ) (s out rest : Bytes)
    → decode_scanned len s ≡ some (out, rest)
    → Decoded s out rest
unfolding decode_scanned
decode_scanned-Decoded none s out rest h = absurd (cc)
decode_scanned-Decoded (some len) s out rest h = decode-Decoded (suc (length s)) s out rest h

-- A string literal that parses is no longer decoded than the number of bytes that the scan before
-- it counted, which is what is allocated; and what is left begins behind the closing quote that
-- the scan found, after the quote, the counted bytes and the closing quote.
pub parse_string-Decoded :
    (s out rest : Bytes)
    → parse_string s ≡ some (out, rest)
    → (len : ℕ) × (scan_string (drop 1 s) ≡ some len)
      × (length out ≤ len)
      × (length s ≡ length rest + len + 2)
unfolding parse_string
parse_string-Decoded [] out rest h = absurd (cc)
parse_string-Decoded (c ∷ s) out rest h = elim (Bool-cases (c == b'"')) [
  | inr q ↦ absurd (cc (rw q at h))
  | inl q ↦
      let d = decode_scanned-Decoded (scan_string s) s out rest (rw q at h) in
      (d.len, d.measured, d.fits, omega (arith, d.consumed))
]
