-- ===== src/Server/FindHeader/Lines.antt =====
-- `find_header` on a block of lines finds the first line with the name.
use bialet.Prelude.{
  ap, inl, false, ◌+◌, inr, ◌∙◌, ltb, length-append, leb, true, Bool-cases, ℕ, zero, suc, ◌≤◌, ◌<◌,
  ◌≡◌, ◌≢◌, refl, Option, none, some, List, [], ◌∷◌, ◌++◌, arith, if◌then◌else◌, Bytes, All, length,
  drop,
}
use bialet.Server.FindHeader.{
  find_line, find_header, ci_eq, skip_request_line, line_len, line_matches,
}

abbrev pub NoCr : Bytes → Type 0
NoCr = All (λ c. c ≢ 13)

-- The lines of a header block behind the request line, and the blank line at its end.
abbrev pub header_lines : List Bytes → Bytes
header_lines [] = 13 ∷ (10 ∷ [])
header_lines (l ∷ ls) = l ++ (13 ∷ (10 ∷ header_lines ls))

-- The specification: the first line that is `name`, in either case, and a colon.
abbrev pub header_lookup : Bytes → List Bytes → Option Bytes
header_lookup name [] = none
header_lookup name (l ∷ ls) =
    if line_matches name (length l) l
    then some (drop 1 (drop (length name) l) ++ (13 ∷ (10 ∷ header_lines ls)))
    else header_lookup name ls

line_len-append : (l t : Bytes) → NoCr l → line_len (l ++ (13 ∷ (10 ∷ t))) ≡ length l
unfolding line_len
line_len-append [] t h = refl
line_len-append (c ∷ []) t (hc, h) = ground (arith, line_len-append [] t h)
line_len-append (c ∷ (d ∷ l)) t (hc, h) = ground (arith, line_len-append (d ∷ l) t h)

drop_line : (l t : Bytes) → drop 2 (drop (length l) (l ++ (13 ∷ (10 ∷ t)))) ≡ t
drop_line [] t = refl
drop_line (c ∷ l) t = drop_line l t

skip_request_line-append :
    (l t : Bytes) → NoCr l → skip_request_line (l ++ (13 ∷ (10 ∷ t))) ≡ some t
unfolding skip_request_line
skip_request_line-append [] t h = refl
skip_request_line-append (c ∷ []) t (hc, h) = ground (arith, skip_request_line-append [] t h)
skip_request_line-append (c ∷ (d ∷ l)) t (hc, h) =
    ground (arith, skip_request_line-append (d ∷ l) t h)

ci_eq-append : (name l t : Bytes) → length name ≤ length l → ci_eq name (l ++ t) ≡ ci_eq name l
unfolding ci_eq
ci_eq-append [] l t h = refl
ci_eq-append (x ∷ name) [] t h = absurd (omega arith)
ci_eq-append (x ∷ name) (c ∷ l) t h = rw (ci_eq-append name l t (omega arith))

drop_extend : (n : ℕ) (l t : Bytes) → n ≤ length l → drop n (l ++ t) ≡ drop n l ++ t
drop_extend zero l t h = refl
drop_extend (suc n) [] t h = absurd (omega arith)
drop_extend (suc n) (c ∷ l) t h = drop_extend n l t (omega arith)

drop-ne-nil : (n : ℕ) (l : Bytes) → n < length l → (c : ℕ) × (r : Bytes) × (drop n l ≡ c ∷ r)
drop-ne-nil n [] h = absurd (omega arith)
drop-ne-nil zero (c ∷ l) h = (c, l, refl)
drop-ne-nil (suc n) (c ∷ l) h = drop-ne-nil n l (omega arith)

line_matches-append :
    (name l t : Bytes) → line_matches name (length l) (l ++ t) ≡ line_matches name (length l) l
line_matches-append name l t = elim (Bool-cases (ltb (length name) (length l))) [
  | inr short ↦ rw short
  | inl long ↦
      let bound : length name < length l = ground arith in
      let (c, r, e) = drop-ne-nil (length name) l bound in
      rw (drop_extend (length name) l t (omega arith), ci_eq-append name l t (omega arith), e)
]

find_line_step :
    (fuel : ℕ) (name p : Bytes)
    → find_line (suc fuel) name p ≡ (
        if line_matches name (line_len p) p
        then some (drop 1 (drop (length name) p))
        else if leb (length p) (line_len p + 1)
        then none
        else find_line fuel name (drop 2 (drop (line_len p) p)))
unfolding find_line line_len
find_line_step fuel name [] = ground arith
find_line_step fuel name (c ∷ p) = ground arith

drop_value :
    (name l t : Bytes)
    → line_matches name (length l) l ≡ true
    → drop 1 (drop (length name) (l ++ t)) ≡ drop 1 (drop (length name) l) ++ t
drop_value name l t h =
    let bound : length name < length l = ground arith in
    let (c, r, e) = drop-ne-nil (length name) l bound in
    rw (drop_extend (length name) l t (omega arith), e)

find_line-nil : (fuel : ℕ) (name : Bytes) → find_line fuel name [] ≡ none
unfolding find_line
find_line-nil zero name = refl
find_line-nil (suc fuel) name = refl

find_line-header_lines :
    (ls : List Bytes) (fuel : ℕ) (name : Bytes)
    → length ls < fuel
    → All NoCr ls
    → find_line fuel name (header_lines ls) ≡ header_lookup name ls
find_line-header_lines ls zero name f h = absurd (omega arith)
find_line-header_lines [] (suc fuel) name f h =
    find_line_step fuel name _ ∙ unfold line_len in ground (arith, find_line-nil fuel name)
find_line-header_lines (l ∷ ls) (suc fuel) name f (hl, h) =
    let t = header_lines ls in
    let p = l ++ (13 ∷ (10 ∷ t)) in
    let len = line_len-append l t hl in
    let long : leb (length p) (length l + 1) ≡ false =
      ground (arith, length-append l (13 ∷ (10 ∷ t))) in
    let step = find_line_step fuel name p in
    let rest = find_line-header_lines ls fuel name (omega arith) h in
    elim (Bool-cases (line_matches name (length l) l)) [
      | inl e ↦
          step
          ∙ rw (len, line_matches-append name l (13 ∷ (10 ∷ t)), e)
              (ap some (drop_value name l _ e))
      | inr e ↦
          step ∙ rw (len, line_matches-append name l (13 ∷ (10 ∷ t)), e, long, drop_line l t) rest
    ]

length-header_lines : (ls : List Bytes) → length ls + 1 < length (header_lines ls)
length-header_lines [] = omega arith
length-header_lines (l ∷ ls) =
    omega (arith, length-append l (13 ∷ (10 ∷ header_lines ls)), length-header_lines ls)

-- On a request line and header lines with no CR in them, the loop over the bytes finds exactly
-- what a search through the list of lines finds: the first line with the name, or nothing. The
-- request line is never considered.
pub find_header-header_lines :
    (request : Bytes) (ls : List Bytes) (name : Bytes)
    → NoCr request
    → All NoCr ls
    → find_header (request ++ (13 ∷ (10 ∷ header_lines ls))) name ≡ header_lookup name ls
unfolding find_header
find_header-header_lines request ls name hr h =
    rw (skip_request_line-append request (header_lines ls) hr) (
      find_line-header_lines ls _ name
        (omega (arith, length-append request (13 ∷ (10 ∷ header_lines ls)), length-header_lines ls))
        h)
