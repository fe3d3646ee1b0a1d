-- ===== src/HttpCall/Exchange/Reading.antt =====
-- src/http_call.c: the loops of http_call_perform for Windows that write and read.
use bialet.Server.Reader.Stream.{left_over}
use bialet.Server.Reader.{Socket, recv}
use bialet.HttpCall.Exchange.{doubled, read_loop, read_response, next_cap, write_all}
use bialet.HttpCall.Transfer.{max_http_response_size}
use bialet.Prelude.{
  ◌≢◌, ◌*◌, ◌-◌, ◌≡◌, ◌≤◌, ◌<◌, ◌⊎◌, ◌++◌, ◌∷◌, ◌+◌, ◌∙◌, ap, sym, arith, refl, length, Bytes, ℕ,
  Bool, List, [], some, none, true, zero, suc, take-append-drop, inl, inr, take, drop, ◌==◌,
  Bool-cases, leb, length-append, append_assoc, length-take,
}

pub write_all-whole :
    (accepts : List ℕ) (req : Bytes)
    → (write_all accepts req).1 ≡ true
    → (write_all accepts req).0 ≡ req
unfolding write_all
write_all-whole accepts [] e = refl
write_all-whole [] (c ∷ req) e = absurd (cc)
write_all-whole (n ∷ accepts) (c ∷ req) e = elim (Bool-cases (n == 0)) [
  | inl z ↦ absurd (cc (rw z at e))
  | inr z ↦ rw z (
      ap (λ t. take n (c ∷ req) ++ t) (write_all-whole accepts (drop n (c ∷ req)) (rw z at e))
      ∙ take-append-drop n (c ∷ req))
]

-- What arrives before the connection ends, whether in order, by an error or by a timeout.
pub stream : Socket → Bytes
stream [] = []
stream ([] ∷ later) = []
stream ((c ∷ s) ∷ later) = (c ∷ s) ++ stream later

stream-cons : (s : Bytes) (later : Socket) → s ≢ [] → stream (s ∷ later) ≡ s ++ stream later
unfolding stream
stream-cons [] later h = absurd (h refl)
stream-cons (c ∷ s) later h = refl

-- What a read gives, and what it leaves.
abbrev Gives : ℕ → Socket → Type 0
Gives want socket =
    (s : Bytes) × (later : Socket) × (recv want socket ≡ some (s, later))
    × (stream socket ≡ s ++ stream later)
    × (0 < length s)
    × (length s ≤ want)

recv-cases :
    (want : ℕ) (socket : Socket)
    → 0 < want
    → ((recv want socket ≡ none) × (stream socket ≡ [])) ⊎ Gives want socket
unfolding recv stream
recv-cases want [] pos = inl (refl, refl)
recv-cases want ([] ∷ later) pos = inl (refl, refl)
recv-cases want ((c ∷ s) ∷ later) pos = elim (Bool-cases (leb (length (c ∷ s)) want)) [
  | inl e ↦ inr (c ∷ s, later, rw e refl, refl, omega arith, ground arith)
  | inr e ↦ inr (
    take want (c ∷ s),
    drop want (c ∷ s) ∷ later,
    rw e refl,
    ap (λ t. t ++ stream later) (sym (take-append-drop want (c ∷ s)))
        ∙ (append_assoc (take want (c ∷ s)) (drop want (c ∷ s)) (stream later)
            ∙ ap (λ t. take want (c ∷ s) ++ t)
                (sym
                  (stream-cons (drop want (c ∷ s)) later (left_over want (c ∷ s) (ground arith))))),
    grind (arith, length-take want (c ∷ s)),
    grind (arith, length-take want (c ∷ s)),
  )
]

-- The text that was read, and the rest of the stream.
abbrev pub Read : Bytes → Bytes → Type 0
Read stream r =
    (rest : Bytes) × (stream ≡ r ++ rest)
    × (length r < max_http_response_size)
    × ((rest ≡ []) ⊎ (max_http_response_size < length r + 4097))

module _ (memory : ℕ → Bool) (grows : (n : ℕ) → memory n ≡ true) where
  next_cap-cases :
      (cap len : ℕ)
      → len < cap
      → cap ≤ max_http_response_size
      → ((next_cap memory cap len ≡ none) × (max_http_response_size < len + 4097))
        ⊎ ((ncap : ℕ) × (next_cap memory cap len ≡ some ncap)
            × (len + 1 < ncap)
            × (ncap ≤ max_http_response_size))
  unfolding next_cap
  next_cap-cases cap len h small = elim (Bool-cases (leb (len + 4096 + 1) cap)) [
    | inl e ↦ inr (cap, rw e refl, ground arith, small)
    | inr e ↦ elim (Bool-cases (leb max_http_response_size cap)) [
      | inl full ↦ inl (rw (e, full) refl, ground arith)
      | inr open_cap ↦
          inr (doubled cap, rw (e, open_cap, grows (doubled cap)) refl, ground arith, ground arith)
    ]
  ]

  read_loop-Read :
      (fuel cap : ℕ) (raw : Bytes) (socket : Socket)
      → length raw < cap
      → cap ≤ max_http_response_size
      → max_http_response_size ≤ length raw + fuel
      → Read (raw ++ stream socket) (read_loop memory fuel cap raw socket)
  unfolding read_loop
  read_loop-Read zero cap raw socket fits small enough = absurd (omega arith)
  read_loop-Read (suc fuel) cap raw socket fits small enough =
      elim (next_cap-cases cap (length raw) fits small) [
        | inl (e, full) ↦ rw (e, read_loop) (stream socket, refl, omega arith, inr full)
        | inr (ncap, e, room, within) ↦
            elim (recv-cases (ncap - length raw - 1) socket (omega arith)) [
              | inl (none_left, nothing) ↦
                  rw (e, none_left, read_loop) (stream socket, refl, omega arith, inl nothing)
              | inr (s, later, got, split, some_s, fits_s) ↦
                  let size = length-append raw s in
                  rw (e, got, split, read_loop, ← append_assoc raw s (stream later))
                    (read_loop-Read fuel ncap (raw ++ s) later (omega (arith, size)) within
                      (omega (arith, size)))
            ]
      ]

  pub read_response-Read : (socket : Socket) → Read (stream socket) (read_response memory socket)
  unfolding read_response
  read_response-Read socket =
      read_loop-Read max_http_response_size (16 * 1024) [] socket (omega arith) (omega arith)
        (omega arith)
