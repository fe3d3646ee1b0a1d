-- ===== src/Server/FindHeader/Sound.antt =====
-- A header that is found stands at the beginning of a line behind the request line.
use mathlib.Core.Path.{subst}
use bialet.Prelude.{
  inl, inr, ℕ, zero, suc, ◌+◌, ◌<◌, ◌≡◌, refl, sym, ap, ◌∙◌, true, some, [], ◌∷◌, ◌++◌, map, arith,
  Bool-cases, Bytes, peek, length, take, drop, leb, ◌==◌, append_assoc, >>=-eq-some,
}
use bialet.Server.FindHeader.{
  tolower, ci_eq, is_crlf, skip_request_line, line_len, line_matches, find_line, find_header,
}

-- `hdr` is a text, a CR LF, a field that spells `name` in either case, a colon, and `v`.
pub record HeaderLine (hdr name v : Bytes) : Type 0 where
  pub before : Bytes
  pub field : Bytes
  pub splits : hdr ≡ before ++ (13 ∷ (10 ∷ (field ++ (b':' ∷ v))))
  pub same_name : map tolower field ≡ map tolower name

HeaderLine-append : (a hdr name v : Bytes) → HeaderLine hdr name v → HeaderLine (a ++ hdr) name v
HeaderLine-append a hdr name v h = record {
  before = a ++ h.before;
  field = h.field;
  splits = ap (◌++◌ a) h.splits ∙ sym (append_assoc a h.before _);
  same_name = h.same_name;
}

ci_eq_sound :
    (name p : Bytes)
    → ci_eq name p ≡ true
    → (field : Bytes) × (p ≡ field ++ drop (length name) p) × (map tolower field ≡ map tolower name)
unfolding ci_eq
ci_eq_sound [] p h = ([], refl, refl)
ci_eq_sound (x ∷ name) [] h = absurd (ground arith)
ci_eq_sound (x ∷ name) (c ∷ p) h = elim (Bool-cases (tolower c == tolower x)) [
  | inl e ↦
      let (field, q, same) = ci_eq_sound name p (rw e at h) in
      (c ∷ field, ap (◌∷◌ c) q, ground arith)
  | inr e ↦ absurd (ground arith)
]

colon_cons : (p : Bytes) → peek p ≡ b':' → p ≡ b':' ∷ drop 1 p
colon_cons [] h = absurd (ground arith)
colon_cons (c ∷ p) h = ground arith

line_len_splits :
    (p : Bytes)
    → line_len p + 1 < length p
    → p ≡ take (line_len p) p ++ (13 ∷ (10 ∷ drop 2 (drop (line_len p) p)))
unfolding line_len
line_len_splits [] h = absurd (omega arith)
line_len_splits (c ∷ []) h = absurd (omega arith)
line_len_splits (c ∷ (d ∷ s)) h = elim (Bool-cases (is_crlf c d)) [
  | inl e ↦ ground arith
  | inr e ↦ rw e (ap (◌∷◌ c) (line_len_splits (d ∷ s) (ground arith)))
]

line_matches_sound :
    (name p : Bytes)
    → line_matches name (line_len p) p ≡ true
    → HeaderLine (13 ∷ (10 ∷ p)) name (drop 1 (drop (length name) p))
line_matches_sound name p h =
    let (field, q, same) = ci_eq_sound name p (ground arith) in
    let colon : peek (drop (length name) p) ≡ b':' = ground arith in
    record {
      before = [];
      field = field;
      splits =
          ap (λ t. 13 ∷ (10 ∷ t)) (q ∙ ap (◌++◌ field) (colon_cons (drop (length name) p) colon));
      same_name = same;
    }

find_line_sound :
    (fuel : ℕ) (name p v : Bytes)
    → find_line fuel name p ≡ some v
    → HeaderLine (13 ∷ (10 ∷ p)) name v
unfolding find_line
find_line_sound zero name p v h = cc
find_line_sound (suc fuel) name [] v h = cc
find_line_sound (suc fuel) name (c ∷ s) v h =
    let p = c ∷ s in
    let len = line_len p in
    elim (Bool-cases (line_matches name len p)) [
      | inl e ↦
          let here : drop 1 (drop (length name) p) ≡ v = ground arith in
          subst (HeaderLine (13 ∷ (10 ∷ p)) name) here (line_matches_sound name p e)
      | inr e ↦ elim (Bool-cases (leb (length p) (len + 1))) [
        | inl last ↦ absurd (ground arith)
        | inr more ↦
            let rest = drop 2 (drop len p) in
            let found : find_line fuel name rest ≡ some v = ground arith in
            let behind =
              HeaderLine-append (13 ∷ (10 ∷ take len p)) _ name v
                (find_line_sound fuel name rest v found) in
            let whole = line_len_splits p (ground arith) in
            subst (λ t. HeaderLine (13 ∷ (10 ∷ t)) name v) (sym whole) behind
      ]
    ]

skip_request_line_splits :
    (s rest : Bytes)
    → skip_request_line s ≡ some rest
    → (line : Bytes) × (s ≡ line ++ (13 ∷ (10 ∷ rest)))
unfolding skip_request_line
skip_request_line_splits [] rest h = cc
skip_request_line_splits (c ∷ []) rest h = cc
skip_request_line_splits (c ∷ (d ∷ s)) rest h = elim (Bool-cases (is_crlf c d)) [
  | inl e ↦ ([], ground arith)
  | inr e ↦
      let (line, q) = skip_request_line_splits (d ∷ s) rest (rw e at h) in (c ∷ line, ap (◌∷◌ c) q)
]

-- A value that is found follows, in the block, a CR LF, a field name that equals the wanted name
-- but for the case of its letters, and a colon. So text in the request line, text inside a line
-- and a field name behind white space are never taken for the header.
pub find_header_sound : (hdr name v : Bytes) → find_header hdr name ≡ some v → HeaderLine hdr name v
unfolding find_header
find_header_sound hdr name v h =
    let (p, skipped, found) = >>=-eq-some (skip_request_line hdr) (find_line (length hdr) name) h in
    let (line, whole) = skip_request_line_splits hdr p skipped in
    subst (λ t. HeaderLine t name v) (sym whole)
      (HeaderLine-append line _ name v (find_line_sound (length hdr) name p v found))
