-- ===== src/Uploads/Parts.antt =====
-- A multipart body as a list of parts, and what a round makes of one.
use mathlib.Core.Path.{subst}
use bialet.Uploads.{
  upload_of, part, stop, crlf, start_boundary, next_cursor, delimiter, part_at, read_part,
  part_from, blank_line,
}
use bialet.Prelude.Search.{find-append, find}
use bialet.Prelude.{
  length-append, suc, false, arith, ◌==◌, take_append, append_assoc, refl, starts_with-append, ◌+◌,
  drop_append, drop, codes, some, ◌++◌, ◌≡◌, starts_with, ◌∷◌, List, length, Bytes, ℕ, [],
}

pub record Part : Type 0 where
  pub head : Bytes
  pub content : Bytes

-- The body from the first delimiter on, with any text behind the closing one.
unfoldable pub encoded : Bytes → Bytes → List Part → Bytes
encoded boundary tail [] = start_boundary boundary ++ (codes "--" ++ tail)
encoded boundary tail (p ∷ more) =
    start_boundary boundary
    ++ (crlf ++ (p.head ++ (blank_line ++ (p.content ++ (crlf ++ encoded boundary tail more)))))

-- The blank line comes first behind the header block, and the delimiter behind the content, which
-- can be any bytes else.
pub record IsPart (boundary : Bytes) (p : Part) : Type 0 where
  pub head_ends : find blank_line (p.head ++ blank_line) ≡ some (length p.head)
  pub content_ends :
      find (delimiter boundary) (p.content ++ delimiter boundary) ≡ some (length p.content)

drop_behind :
    (s t rest : Bytes) (n : ℕ) → length t ≡ n → drop (length s + n) (s ++ (t ++ rest)) ≡ rest
drop_behind [] t rest n h =
    let whole : length t ≡ 0 + n = omega (arith, h) in
    subst (λ k. drop k (t ++ rest) ≡ rest) whole (drop_append t rest)
drop_behind (c ∷ s) t rest n h =
    let one_more : suc (length s + n) ≡ suc (length s) + n = omega arith in
    subst (λ k. drop k ((c ∷ s) ++ (t ++ rest)) ≡ rest) one_more (drop_behind s t rest n h)

find_at_once : (x : ℕ) (p rest : Bytes) → find (x ∷ p) ((x ∷ p) ++ rest) ≡ some 0
unfolding find
find_at_once x p rest = rw (starts_with-append (x ∷ p) rest) refl

-- An encoded body begins with its delimiter.
pub encoded_begins :
    (boundary tail : Bytes) (more : List Part)
    → (rest : Bytes) × (encoded boundary tail more ≡ start_boundary boundary ++ rest)
unfolding encoded
encoded_begins boundary tail [] = (codes "--" ++ tail, refl)
encoded_begins boundary tail (p ∷ more) =
    (crlf ++ (p.head ++ (blank_line ++ (p.content ++ (crlf ++ encoded boundary tail more)))), refl)

pub next_cursor-encoded :
    (boundary tail : Bytes) (more : List Part)
    → next_cursor boundary (encoded boundary tail more) ≡ some (encoded boundary tail more)
next_cursor-encoded boundary tail more =
    let (rest, e) = encoded_begins boundary tail more in
    rw (e, find_at_once b'-' (b'-' ∷ boundary) rest) refl

module _ (boundary tail : Bytes) where
  pub read_part-end : read_part boundary (encoded boundary tail []) ≡ stop
  unfolding read_part encoded starts_with
  read_part-end = rw (drop_append boundary (codes "--" ++ tail)) refl

  find-content :
      (p : Part) (more : List Part)
      → IsPart boundary p
      → find (delimiter boundary) (p.content ++ (crlf ++ encoded boundary tail more))
        ≡ some (length p.content)
  find-content p more g =
      let (rest, e) = encoded_begins boundary tail more in
      let found =
        find-append 13 (10 ∷ start_boundary boundary) (p.content ++ delimiter boundary) rest
          (length p.content) g.content_ends in
      rw (e) (rw (← append_assoc p.content (delimiter boundary) rest) found)

  find-head :
      (p : Part) (rest : Bytes)
      → IsPart boundary p
      → find blank_line (p.head ++ (blank_line ++ rest)) ≡ some (length p.head)
  find-head p rest g =
      rw (← append_assoc p.head blank_line rest)
        (find-append 13 (10 ∷ 13 ∷ 10 ∷ []) (p.head ++ blank_line) rest (length p.head) g.head_ends)

  part_at-part :
      (p : Part) (more : List Part)
      → part_at boundary p.head
          (p.content ++ (crlf ++ encoded boundary tail more))
          (some (length p.content))
        ≡ part (upload_of p.head p.content) (some (encoded boundary tail more))
  unfolding part_at
  part_at-part p more =
      rw
        (
          take_append p.content (crlf ++ encoded boundary tail more),
          drop_behind p.content crlf (encoded boundary tail more) 2 refl,
          next_cursor-encoded boundary tail more,
        )
        refl

  part_from-part :
      (p : Part) (more : List Part)
      → IsPart boundary p
      → part_from boundary
          (p.head ++ (blank_line ++ (p.content ++ (crlf ++ encoded boundary tail more))))
          (some (length p.head))
        ≡ part (upload_of p.head p.content) (some (encoded boundary tail more))
  unfolding part_from
  part_from-part p more g =
      let behind = p.content ++ (crlf ++ encoded boundary tail more) in
      rw
        (
          take_append p.head (blank_line ++ behind),
          drop_behind p.head blank_line behind 4 refl,
          find-content p more g,
        )
        (part_at-part p more)

  non_empty_behind : (s : Bytes) (x : ℕ) (rest : Bytes) → (length (s ++ (x ∷ rest)) == 0) ≡ false
  non_empty_behind s x rest = ground (arith, length-append s (x ∷ rest))

  -- A round takes a part's content as it stands, and goes on at the next delimiter.
  pub read_part-part :
      (p : Part) (more : List Part)
      → IsPart boundary p
      → read_part boundary (encoded boundary tail (p ∷ more))
        ≡ part (upload_of p.head p.content) (some (encoded boundary tail more))
  unfolding read_part encoded starts_with
  read_part-part p more g =
      let behind = p.content ++ (crlf ++ encoded boundary tail more) in
      let text = p.head ++ (blank_line ++ behind) in
      rw
        (
          drop_append boundary (crlf ++ text),
          non_empty_behind p.head 13 (10 ∷ 13 ∷ 10 ∷ behind),
          find-head p behind g,
        )
        (part_from-part p more g)
