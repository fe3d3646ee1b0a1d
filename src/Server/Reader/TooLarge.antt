-- ===== src/Server/Reader/TooLarge.antt =====
-- Requests that announce more than the limit.
use bialet.Server.Reader.{
  Head, Socket, room_size, read_head, too_large, announced, answer_head, receive,
}
use bialet.Server.Reader.Stream.{arrived, Flows, append_split, read_head-HasHead}
use bialet.Server.Reader.Whole.{
  Field-append, header_lookup-cr, request_head, header_block_len-nil, header_block_len-request_head,
  content_length_field-split,
}
use bialet.Server.ContentLength.{Field, Parsed, malformed, above_max, size_max}
use bialet.Server.ContentLength.Exact.{parse_content_length-Field, classify}
use bialet.Server.FindHeader.{content_length_name}
use bialet.Server.FindHeader.Lines.{NoCr, header_lookup}
use bialet.Server.Framing.{FullLine}
use mathlib.Core.Option
use mathlib.Core.Path.{subst}
use bialet.Prelude.{
  ℕ, ◌<◌, ◌≤◌, ◌≡◌, refl, ◌⊎◌, inl, inr, false, Option, some, List, [], ◌++◌, arith, ◌==◌, ltb,
  Bytes, Bool-cases, length, All, All-map,
}

abbrev IsRefused : Parsed → Type 0
IsRefused p = (p ≡ malformed) ⊎ (p ≡ above_max)

classify-IsRefused : (n max : ℕ) → max < n → IsRefused (classify max n)
classify-IsRefused n max big = elim (Bool-cases (ltb size_max n)) [
  | inl e ↦ rw e (inl refl)
  | inr e ↦ inr (ground arith)
]

announced_too_large :
    (max n : ℕ) (ls : List Bytes) (v u : Bytes)
    → header_lookup content_length_name ls ≡ some v
    → Field v n
    → max < n
    → IsRefused (announced max (Option.map (λ v. v ++ u) (header_lookup content_length_name ls)))
unfolding announced
announced_too_large max n ls v u e f big =
    let (a, b, q) = header_lookup-cr content_length_name ls v e in
    rw
      (e, q, parse_content_length-Field _ n max (Field-append a b u n (subst (λ w. Field w n) q f)))
      (classify-IsRefused n max big)

answer_head-IsRefused :
    (h : Head) (field : Option Bytes) (p : Parsed)
    → IsRefused p
    → (rest : Socket) × (answer_head h field p ≡ too_large rest)
unfolding answer_head
answer_head-IsRefused h field p (inl e) = rw e (_, refl)
answer_head-IsRefused h field p (inr e) = rw e (_, refl)

-- A well-formed head that announces more than the limit is refused with 413, whatever of the body
-- has arrived and however the network cuts it into segments, also where the number is above
-- SIZE_MAX.
pub receive_too_large :
    (line : Bytes) (ls : List Bytes) (v body : Bytes) (n max : ℕ) (socket : Socket)
    → NoCr line
    → All FullLine ls
    → length (request_head line ls) ≤ room_size
    → header_lookup content_length_name ls ≡ some v
    → Field v n
    → max < n
    → Flows socket
    → arrived socket ≡ request_head line ls ++ body
    → (rest : Socket) × (receive max socket ≡ too_large rest)
unfolding receive
receive_too_large line ls v body n max socket hl hs fits found f big flows e =
    let head = request_head line ls in
    let (complete, some_head) = header_block_len-request_head line ls hl hs in
    let h = read_head [] socket in
    let has =
      read_head-HasHead head body complete some_head [] socket e flows (header_block_len-nil)
        fits in
    let at_end : h.hdr_len ≡ length head = has.at_end in
    let enough : h.hdr_len ≤ length h.buffer = has.enough in
    let (u, split) = append_split h.buffer (arrived h.socket) head body has.unread (omega arith) in
    let field =
      content_length_field-split h line ls u hl (All-map _ NoCr ls (λ l q. q.0) hs) at_end
        (omega arith) split in
    let some_bytes : (length h.buffer == 0) ≡ false = ground arith in
    rw (some_bytes, field)
      (answer_head-IsRefused h _ _ (announced_too_large max n ls v u found f big))
