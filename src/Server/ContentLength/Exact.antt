-- ===== src/Server/ContentLength/Exact.antt =====
-- What `parse_content_length` accepts, and the number it returns.
use mathlib.Core.List.{cons-ne-nil}
use bialet.Prelude.Decimal.{digits_value, is_digit, IsDigits}
use bialet.Prelude.{
  ℕ, ◌+◌, ◌-◌, ◌*◌, ◌≤◌, ◌≡◌, ◌≢◌, refl, ap, ◌∙◌, inl, inr, true, false, Option, none, some, [],
  ◌∷◌, ◌++◌, arith, ltb, if◌then◌else◌, Bool-cases, Bytes, peek,
}
use bialet.Server.ContentLength.{
  Parsed, malformed, above_max, accepted, size_max, is_blank, skip_blanks, digits, finish,
  is_line_end, parse_content_length, IsBlanks, Field,
}

-- The bytes that a run of `while(is_blank)` has passed.
record Skipped (v : Bytes) : Type 0 where
  blanks : Bytes
  splits : v ≡ blanks ++ skip_blanks v
  all_blank : IsBlanks blanks

skip_blanks-Skipped : (v : Bytes) → Skipped v
unfolding skip_blanks
skip_blanks-Skipped [] = record { blanks = []; splits = refl; all_blank = tt }
skip_blanks-Skipped (c ∷ v) = elim (Bool-cases (is_blank c)) [
  | inl e ↦
      let r = skip_blanks-Skipped v in
      record {
        blanks = c ∷ r.blanks;
        splits = rw e (ap (◌∷◌ c) r.splits);
        all_blank = (e, r.all_blank);
      }
  | inr e ↦ record { blanks = []; splits = rw e; all_blank = tt }
]

skip_blanks-append :
    (b w : Bytes) → IsBlanks b → is_blank (peek w) ≡ false → skip_blanks (b ++ w) ≡ w
unfolding skip_blanks
skip_blanks-append [] [] h e = refl
skip_blanks-append [] (c ∷ w) h e = rw e
skip_blanks-append (c ∷ b) w (hc, h) e = rw hc (skip_blanks-append b w h e)

-- What the digit loop has read when it stops without an overflow.
record Read (n : ℕ) (v : Bytes) (m : ℕ) (rest : Bytes) : Type 0 where
  number : Bytes
  splits : v ≡ number ++ rest
  is_number : IsDigits number
  value_is : m ≡ digits_value n number
  fits : m ≤ size_max
  stopped : is_digit (peek rest) ≡ false

digits-Read :
    (v : Bytes) (n m : ℕ) (rest : Bytes)
    → n ≤ size_max
    → digits n v ≡ some (m, rest)
    → Read n v m rest
unfolding digits
digits-Read [] n m rest fits h = record {
  number = [];
  splits = ground arith;
  is_number = tt;
  value_is = ground arith;
  fits = ground arith;
  stopped = ground arith;
}
digits-Read (c ∷ v) n m rest fits h = elim (Bool-cases (is_digit c)) [
  | inl e ↦
      let next : ℕ = 10 * n + (c - b'0') in
      let r = digits-Read v next m rest (ground arith) (ground arith) in
      record {
        number = c ∷ r.number;
        splits = ap (◌∷◌ c) r.splits;
        is_number = (e, r.is_number);
        value_is = r.value_is;
        fits = r.fits;
        stopped = r.stopped;
      }
  | inr e ↦ record {
    number = [];
    splits = ground arith;
    is_number = tt;
    value_is = ground arith;
    fits = ground arith;
    stopped = ground arith;
  }
]

-- Digits only make a number grow.
value_grows : (more : Bytes) (high : ℕ) → high ≤ digits_value high more
value_grows [] high = omega arith
value_grows (d ∷ more) high = omega (arith, value_grows more (10 * high + (d - b'0')))

-- The overflow test refuses nothing that fits, and everything that does not.
digits-append :
    (ds rest : Bytes) (n : ℕ)
    → IsDigits ds
    → is_digit (peek rest) ≡ false
    → n ≤ size_max
    → digits n (ds ++ rest)
      ≡ (if ltb size_max (digits_value n ds) then none else some (digits_value n ds, rest))
unfolding digits
digits-append [] [] n h e fits = ground arith
digits-append [] (c ∷ rest) n h e fits = ground arith
digits-append (d ∷ ds) rest n (hd, h) e fits =
    let next : ℕ = 10 * n + (d - b'0') in
    ground (arith, digits-append ds rest next h e, value_grows ds next)

digit_not_blank : (w : Bytes) → is_digit (peek w) ≡ true → is_blank (peek w) ≡ false
digit_not_blank [] h = cc
digit_not_blank (c ∷ w) h = ground arith

peek-IsDigits : (ds t : Bytes) → IsDigits ds → ds ≢ [] → is_digit (peek (ds ++ t)) ≡ true
peek-IsDigits [] t h ne = absurd (ne refl)
peek-IsDigits (d ∷ ds) t (hd, h) ne = hd

blank_not_digit :
    (a r : Bytes) → IsBlanks a → is_line_end (peek r) ≡ true → is_digit (peek (a ++ r)) ≡ false
blank_not_digit [] [] h e = refl
blank_not_digit [] (c ∷ r) h e = ground arith
blank_not_digit (c ∷ a) r (hc, h) e = ground arith

line_end_not_blank : (r : Bytes) → is_line_end (peek r) ≡ true → is_blank (peek r) ≡ false
line_end_not_blank [] e = refl
line_end_not_blank (c ∷ r) e = ground arith

-- The answer for a well-formed value `n`: a number that `size_t` cannot hold is malformed.
abbrev pub classify : ℕ → ℕ → Parsed
classify max n = if ltb size_max n then malformed else if ltb max n then above_max else accepted n

finish-classify :
    (max n : ℕ) (after rest : Bytes)
    → IsBlanks after
    → is_line_end (peek rest) ≡ true
    → finish max (if ltb size_max n then none else some (n, after ++ rest)) ≡ classify max n
unfolding finish
finish-classify max n after rest ha e = elim (Bool-cases (ltb size_max n)) [
  | inl big ↦ rw big
  | inr fits ↦ rw (fits, skip_blanks-append after rest ha (line_end_not_blank rest e), e)
]

finish_sound :
    (max n : ℕ) (o : Option (ℕ × Bytes))
    → finish max o ≡ accepted n
    → (rest : Bytes) × (o ≡ some (n, rest))
      × (is_line_end (peek (skip_blanks rest)) ≡ true)
      × (n ≤ max)
unfolding finish
finish_sound max n none h = absurd (ground arith)
finish_sound max n (some (m, rest)) h = (rest, ground arith, ground arith, ground arith)

digits-ne-nil :
    (number rest w : Bytes)
    → is_digit (peek w) ≡ true
    → is_digit (peek rest) ≡ false
    → w ≡ number ++ rest
    → number ≢ []
digits-ne-nil [] rest w h e q = ground arith
digits-ne-nil (c ∷ number) rest w h e q = cons-ne-nil c number

-- A well-formed value gets the answer that its true value asks for: no wrap-around, no truncation.
pub parse_content_length-Field :
    (v : Bytes) (n max : ℕ) → Field v n → parse_content_length v max ≡ classify max n
unfolding parse_content_length
parse_content_length-Field v n max f =
    let w = f.number ++ (f.after ++ f.rest) in
    let stop = blank_not_digit f.after f.rest f.blank_after f.line_end in
    let start = peek-IsDigits f.number (f.after ++ f.rest) f.is_number f.number_ne_nil in
    let skipped : skip_blanks v ≡ w =
      ap skip_blanks f.shape
      ∙ skip_blanks-append f.before w f.blank_before (digit_not_blank w start) in
    let read = digits-append f.number (f.after ++ f.rest) 0 f.is_number stop (omega arith) in
    rw (skipped, start, read, ← f.value_is)
      (finish-classify max n f.after f.rest f.blank_after f.line_end)

-- An accepted value is well formed, its number is the one returned, and it is within the limit.
pub parse_content_length_sound :
    (v : Bytes) (n max : ℕ)
    → parse_content_length v max ≡ accepted n
    → Field v n × (n ≤ max) × (n ≤ size_max)
unfolding parse_content_length
parse_content_length_sound v n max h = elim (Bool-cases (is_digit (peek (skip_blanks v)))) [
  | inr e ↦ absurd (ground arith)
  | inl start ↦
      let (rest, read, ended, small) =
        finish_sound max n (digits 0 (skip_blanks v)) (rw start at h) in
      let r = digits-Read (skip_blanks v) 0 n rest (omega arith) read in
      let b = skip_blanks-Skipped v in
      let a = skip_blanks-Skipped rest in
      (
        record {
          before = b.blanks;
          number = r.number;
          after = a.blanks;
          rest = skip_blanks rest;
          shape = b.splits ∙ ap (◌++◌ b.blanks) (r.splits ∙ ap (◌++◌ r.number) a.splits);
          blank_before = b.all_blank;
          is_number = r.is_number;
          number_ne_nil = digits-ne-nil r.number rest (skip_blanks v) start r.stopped r.splits;
          blank_after = a.all_blank;
          line_end = ended;
          value_is = r.value_is;
        },
        small,
        r.fits,
      )
]
