-- ===== src/Server/HeaderBlock.antt =====
-- src/server.c: `header_block_len`, the end of a request's header block.
use bialet.Prelude.{
  ℕ, ◌+◌, ◌≤◌, ◌<◌, ◌≡◌, ◌⊎◌, inl, inr, Option, none, some, [], ◌∷◌, ◌++◌, arith, ltb,
  if◌then◌else◌, Option-cases, length, Bytes,
}
use bialet.Prelude.Search.{find, find-none, find-some, find-length, find-append, IsFirst, Absent}

-- CR LF CR LF.
abbrev pub terminator : Bytes
terminator = 13 ∷ 10 ∷ 13 ∷ 10 ∷ []

abbrev pub offset_or_zero : Option ℕ → ℕ
offset_or_zero none = 0
offset_or_zero (some i) = i + 4

unfoldable pub header_block_len : Bytes → ℕ
header_block_len buf = if ltb (length buf) 4 then 0 else offset_or_zero (find terminator buf)

-- Where the header block of `buf` ends: behind the first terminator, or nowhere yet.
abbrev pub EndsAt : Bytes → ℕ → Type 0
EndsAt buf n =
    ((n ≡ 0) × Absent terminator buf)
    ⊎ ((k : ℕ) × (n ≡ k + 4) × (n ≤ length buf) × IsFirst terminator buf k)

short_absent : (buf : Bytes) → length buf < 4 → find terminator buf ≡ none
short_absent buf h = elim (Option-cases (find terminator buf)) [
  | inl n ↦ n
  | inr (k, e) ↦ absurd (omega (arith, find-length _ _ buf k e))
]

pub header_block_len-find :
    (buf : Bytes) → header_block_len buf ≡ offset_or_zero (find terminator buf)
unfolding header_block_len
header_block_len-find buf = ground (arith, short_absent buf)

-- The result is the offset behind the first CR LF CR LF of the buffer, inside the buffer, and 0
-- exactly when the buffer holds none.
pub header_block_len-EndsAt : (buf : Bytes) → EndsAt buf (header_block_len buf)
header_block_len-EndsAt buf = elim (Option-cases (find terminator buf)) [
  | inl n ↦ inl (ground (arith, header_block_len-find buf), find-none _ _ buf n)
  | inr (k, e) ↦ inr (
    k,
    ground (arith, header_block_len-find buf),
    ground (arith, header_block_len-find buf, find-length _ _ buf k e),
    find-some _ _ buf k e,
  )
]

-- Once a block is complete, bytes that arrive later do not move its end: the loop of
-- `handle_client` finds the same end however the request is cut into segments.
pub header_block_len-append :
    (buf more : Bytes)
    → 0 < header_block_len buf
    → header_block_len (buf ++ more) ≡ header_block_len buf
header_block_len-append buf more h = elim (Option-cases (find terminator buf)) [
  | inl n ↦ absurd (ground (arith, header_block_len-find buf))
  | inr (k, e) ↦ ground (
    arith,
    header_block_len-find buf,
    header_block_len-find (buf ++ more),
    find-append _ _ buf more k e,
  )
]

pub header_block_len-le : (buf : Bytes) → header_block_len buf ≤ length buf
header_block_len-le buf = elim (header_block_len-EndsAt buf) [
  | inl (e, _) ↦ omega arith
  | inr (k, e, fits, _) ↦ fits
]
