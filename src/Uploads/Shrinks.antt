-- ===== src/Uploads/Shrinks.antt =====
-- A round at a cursor goes on at a shorter text.
use bialet.Prelude.Search.{find-length, find}
use bialet.Uploads.{
  delimiter, upload_of, blank_line, next_cursor, start_boundary, Upload, skip_byte, read_part,
  PartStep, part_at, part_from, stop, part,
}
use bialet.Prelude.{
  refl, codes, starts_with, ◌==◌, ◌∷◌, length-drop, peek, take, arith, ◌≡◌, Bool-cases,
  Option-cases, ◌+◌, ◌≤◌, ◌<◌, drop, Option, length, Bytes, ℕ, [], inl, inr, none, some,
}

-- The new cursor is a shorter text.
unfoldable pub Shrinks : ℕ → PartStep → Type 0
Shrinks n stop = Unit
Shrinks n (part u none) = Unit
Shrinks n (part u (some c)) = length c < n

pub next_cursor-Shrinks :
    (boundary resume : Bytes) (u : Option Upload) (n : ℕ)
    → length resume < n
    → Shrinks n (part u (next_cursor boundary resume))
unfolding Shrinks
next_cursor-Shrinks boundary resume u n h =
    elim (Option-cases (find (start_boundary boundary) resume)) [
      | inl e ↦ rw e tt
      | inr (k, e) ↦ rw e (omega (arith, length-drop k resume, h))
    ]

part_at-Shrinks :
    (boundary head behind : Bytes) (o : Option ℕ) (n : ℕ)
    → length behind < n
    → Shrinks n (part_at boundary head behind o)
unfolding part_at Shrinks
part_at-Shrinks boundary head behind none n h = tt
part_at-Shrinks boundary head behind (some k) n h =
    next_cursor-Shrinks boundary (drop (k + 2) behind) (upload_of head (take k behind)) n
      (omega (arith, length-drop (k + 2) behind, h))

part_from-Shrinks :
    (boundary text : Bytes) (o : Option ℕ) (n : ℕ)
    → find blank_line text ≡ o
    → length text ≤ n
    → Shrinks n (part_from boundary text o)
unfolding part_from Shrinks
part_from-Shrinks boundary text none n e h = tt
part_from-Shrinks boundary text (some k) n e h =
    let behind = drop (k + 4) text in
    let fits = find-length 13 (10 ∷ 13 ∷ 10 ∷ []) text k e in
    part_at-Shrinks boundary (take k text) behind (find (delimiter boundary) behind) n
      (omega (arith, length-drop (k + 4) text, fits, h))

length-skip_byte : (c : ℕ) (s : Bytes) → length (skip_byte c s) ≤ length s
length-skip_byte c s = elim (Bool-cases (peek s == c)) [
  | inl e ↦ rw e (omega (arith, length-drop 1 s))
  | inr e ↦ rw e (omega arith)
]

pub read_part-Shrinks :
    (boundary cursor : Bytes) → Shrinks (length cursor) (read_part boundary cursor)
unfolding read_part Shrinks
read_part-Shrinks boundary cursor =
    let behind = drop (length (start_boundary boundary)) cursor in
    let text = skip_byte 10 (skip_byte 13 behind) in
    let smaller : length text ≤ length cursor = omega (
      arith,
      length-skip_byte 10 (skip_byte 13 behind),
      length-skip_byte 13 behind,
      length-drop (length (start_boundary boundary)) cursor,
    ) in
    elim (Bool-cases (starts_with (codes "--") behind)) [
      | inl e ↦ rw e tt
      | inr e ↦ elim (Bool-cases (length text == 0)) [
        | inl z ↦ rw (e, z) tt
        | inr z ↦
            rw (e, z)
              (part_from-Shrinks boundary text (find blank_line text) (length cursor) refl smaller)
      ]
    ]
