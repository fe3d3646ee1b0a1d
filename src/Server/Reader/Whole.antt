-- ===== src/Server/Reader/Whole.antt =====
-- A request that arrives whole is read whole, however it is cut into segments.
use bialet.Server.FindHeader.{line_matches}
use bialet.Server.Framing.{digit-NoCr, find_skip, find-block, FullLine, block}
use bialet.Server.HeaderBlock.{header_block_len-find, header_block_len-le}
use mathlib.Core.List.{cons-ne-nil}
use mathlib.Core.Path.{subst}
use mathlib.Core.Option
use bialet.Server.FindHeader.Lines.{find_header-header_lines, header_lines, header_lookup, NoCr}
use bialet.Server.ContentLength.Exact.{parse_content_length-Field, parse_content_length_sound}
use bialet.Prelude.Decimal.{IsDigits}
use bialet.Server.ContentLength.{Field, is_blank, is_line_end, IsBlanks}
use bialet.Prelude.{
  take_all, drop_append, take_append, ◌==◌, inr, drop, ltb, inl, Option-cases, Bool-cases, some,
  ◌<◌, ◌+◌, All, List, All-map, append-All, All-append, peek, length-append, append-nil, ℕ, ◌-◌,
  ◌≤◌, ◌≡◌, ◌≢◌, refl, sym, ap, ◌∙◌, true, false, [], ◌∷◌, ◌++◌, arith, Bytes, length, append_assoc,
  leb,
}
use bialet.Server.Reader.{
  read_head, room_size, request, content_length_name, Head, answer_head, receive, header_block_len,
  content_length_field, announced, complete_body, accepted, parse_content_length, Socket, read_body,
}
use bialet.Server.Reader.Stream.{append_split, read_head-HasHead, arrived, Flows}

read_body-arrived :
    (full : ℕ) (got : Bytes) (socket : Socket)
    → Flows socket
    → length (got ++ arrived socket) ≡ full
    → read_body full got socket ≡ got ++ arrived socket
unfolding read_body
read_body-arrived full got [] f e = sym (append-nil got)
read_body-arrived full got ([] ∷ later) f e = absurd (f.0 refl)
read_body-arrived full got ((c ∷ s) ∷ later) f e =
    let total = length-append got ((c ∷ s) ++ arrived later) in
    let rest = length-append (c ∷ s) (arrived later) in
    let all_of = take_all (full - length got) (c ∷ s) (omega arith) in
    let more : leb full (length got) ≡ false = ground arith in
    rw (more, all_of)
      (read_body-arrived full (got ++ (c ∷ s)) later f.1
          (ap length (append_assoc got (c ∷ s) (arrived later)) ∙ e)
        ∙ append_assoc got (c ∷ s) (arrived later))

blank-NoCr : (s : Bytes) → IsBlanks s → NoCr s
blank-NoCr s h = All-map _ _ s (λ c b. not_cr c b) h
  where
    not_cr : (c : ℕ) → is_blank c ≡ true → c ≢ 13
    not_cr c b = ground arith

-- A CR in the value ends the line, so the line's end is not the end of the value.
Field-rest :
    (a b before number after rest : Bytes)
    → a ++ (13 ∷ b) ≡ before ++ (number ++ (after ++ rest))
    → IsBlanks before
    → IsDigits number
    → IsBlanks after
    → rest ≢ []
Field-rest a b before number after [] e hb hn ha _ =
    let plain = All-append _ before _ (blank-NoCr before hb) (
      All-append _ number _ (digit-NoCr number hn)
        (All-append _ after [] (blank-NoCr after ha) tt)) in
    (append-All (λ c. c ≢ 13) a (13 ∷ b) (subst NoCr (sym e) plain)).1.0 refl
Field-rest a b before number after (c ∷ rest) e hb hn ha q = cons-ne-nil c rest q

line_end-append :
    (rest u : Bytes)
    → rest ≢ []
    → is_line_end (peek rest) ≡ true
    → is_line_end (peek (rest ++ u)) ≡ true
line_end-append [] u ne h = absurd (ne refl)
line_end-append (c ∷ rest) u ne h = h

pub Field-append :
    (a b u : Bytes) (n : ℕ) → Field (a ++ (13 ∷ b)) n → Field ((a ++ (13 ∷ b)) ++ u) n
Field-append a b u n f = record {
  before = f.before;
  number = f.number;
  after = f.after;
  rest = f.rest ++ u;
  shape = ap (λ t. t ++ u) f.shape ∙ simp append_assoc;
  blank_before = f.blank_before;
  is_number = f.is_number;
  number_ne_nil = f.number_ne_nil;
  blank_after = f.blank_after;
  line_end =
      line_end-append f.rest u
        (Field-rest a b f.before f.number f.after f.rest f.shape f.blank_before f.is_number
          f.blank_after)
        f.line_end;
  value_is = f.value_is;
}

-- What follows a complete value in the buffer is not read.
pub accepted-append :
    (a b u : Bytes) (n max : ℕ)
    → parse_content_length (a ++ (13 ∷ b)) max ≡ accepted n
    → parse_content_length ((a ++ (13 ∷ b)) ++ u) max ≡ accepted n
accepted-append a b u n max h =
    let (f, small, fits) = parse_content_length_sound (a ++ (13 ∷ b)) n max h in
    parse_content_length-Field _ n max (Field-append a b u n f) ∙ ground arith

pub header_lookup-cr :
    (name : Bytes) (ls : List Bytes) (v : Bytes)
    → header_lookup name ls ≡ some v
    → (a : Bytes) × (b : Bytes) × (v ≡ a ++ (13 ∷ b))
header_lookup-cr name [] v h = cc
header_lookup-cr name (l ∷ ls) v h = elim (Bool-cases (line_matches name (length l) l)) [
  | inl e ↦ (drop 1 (drop (length name) l), 10 ∷ header_lines ls, ground arith)
  | inr e ↦ header_lookup-cr name ls v (rw e at h)
]

announced-append :
    (max n : ℕ) (ls : List Bytes) (u : Bytes)
    → announced max (header_lookup content_length_name ls) ≡ accepted n
    → announced max (Option.map (λ v. v ++ u) (header_lookup content_length_name ls)) ≡ accepted n
unfolding announced
announced-append max n ls u h = elim (Option-cases (header_lookup content_length_name ls)) [
  | inl e ↦ rw e (rw e at h)
  | inr (v, e) ↦
      let (a, b, q) = header_lookup-cr content_length_name ls v e in
      let got : parse_content_length v max ≡ accepted n = rw e at h in
      rw (e, q) (accepted-append a b u n max (rw q at got))
]

all_arrived : (buf t whole : Bytes) → buf ++ t ≡ whole → length whole ≤ length buf → buf ≡ whole
all_arrived [] t [] e h = refl
all_arrived [] t (x ∷ whole) e h = absurd (omega arith)
all_arrived (c ∷ buf) t [] e h = absurd (cons-ne-nil c (buf ++ t) e)
all_arrived (c ∷ buf) t (x ∷ whole) e h = let q = all_arrived buf t whole (cc) (omega arith) in cc

complete_body-whole :
    (h : Head) (n : ℕ) (whole : Bytes)
    → h.buffer ++ arrived h.socket ≡ whole
    → h.hdr_len + n ≡ length whole
    → h.hdr_len ≤ length h.buffer
    → Flows h.socket
    → complete_body h n ≡ request whole
unfolding complete_body
complete_body-whole h n whole e size enough f =
    let full = h.hdr_len + n in
    let read = read_body-arrived full h.buffer h.socket f (ap length e ∙ sym size) ∙ e in
    elim (Bool-cases (ltb (length h.buffer) full)) [
      | inl short ↦
          let some_body : ltb 0 n ≡ true = ground arith in
          let all_there : ltb (length whole) full ≡ false = ground arith in
          rw (some_body, short, read, all_there) refl
      | inr long ↦
          let have : h.buffer ≡ whole =
            all_arrived h.buffer (arrived h.socket) whole e (ground arith) in
          ground arith
    ]

pub header_block_len-nil : header_block_len [] ≡ 0
header_block_len-nil = omega (arith, header_block_len-le [])

-- The head of a request: a request line, full header lines, and the blank line.
abbrev pub request_head : Bytes → List Bytes → Bytes
request_head line ls = line ++ block ls

pub header_block_len-request_head :
    (line : Bytes) (ls : List Bytes)
    → NoCr line
    → All FullLine ls
    → (header_block_len (request_head line ls) ≡ length (request_head line ls))
      × (0 < length (request_head line ls))
header_block_len-request_head line ls hl h =
    let (k, found, size) = find-block ls h in
    let total = length-append line (block ls) in
    (header_block_len-find _ ∙ rw (find_skip line (block ls) k hl found) (omega arith), omega arith)

pub content_length_field-split :
    (h : Head) (line : Bytes) (ls : List Bytes) (u : Bytes)
    → NoCr line
    → All NoCr ls
    → h.hdr_len ≡ length (request_head line ls)
    → 0 < h.hdr_len
    → h.buffer ≡ request_head line ls ++ u
    → content_length_field h ≡ Option.map (λ v. v ++ u) (header_lookup content_length_name ls)
unfolding content_length_field block
content_length_field-split h line ls u hl hs e pos q =
    let head = request_head line ls in
    let some_len : (h.hdr_len == 0) ≡ false = ground arith in
    rw (some_len, e, q, take_append head u, drop_append head u)
      (ap (Option.map (λ v. v ++ u)) (find_header-header_lines line ls content_length_name hl hs))

-- A request that is well formed, announces its body within the limit and arrives whole is read
-- as the one that was sent, however the network cuts it into segments: the request line and the
-- header lines hold no CR and are not empty, the head fits the buffer, and the first
-- Content-Length among the lines, if there is one, is accepted with the length of the body.
pub receive_whole :
    (line : Bytes) (ls : List Bytes) (body : Bytes) (max : ℕ) (socket : Socket)
    → NoCr line
    → All FullLine ls
    → length (request_head line ls) ≤ room_size
    → announced max (header_lookup content_length_name ls) ≡ accepted (length body)
    → Flows socket
    → arrived socket ≡ request_head line ls ++ body
    → receive max socket ≡ request (request_head line ls ++ body)
unfolding receive answer_head
receive_whole line ls body max socket hl hs fits ann f e =
    let head = request_head line ls in
    let (complete, some_head) = header_block_len-request_head line ls hl hs in
    let h = read_head [] socket in
    let has =
      read_head-HasHead head body complete some_head [] socket e f (header_block_len-nil) fits in
    let at_end : h.hdr_len ≡ length head = has.at_end in
    let enough : h.hdr_len ≤ length h.buffer = has.enough in
    let (u, split) = append_split h.buffer (arrived h.socket) head body has.unread (omega arith) in
    let field =
      content_length_field-split h line ls u hl (All-map _ NoCr ls (λ l q. q.0) hs) at_end
        (omega arith) split in
    let some_bytes : (length h.buffer == 0) ≡ false = ground arith in
    let said = announced-append max (length body) ls u ann in
    rw (some_bytes, field, said)
      (complete_body-whole h (length body) (head ++ body) has.unread
        (omega (arith, length-append head body)) enough has.flows)
