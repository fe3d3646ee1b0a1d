-- ===== src/Server/Reader.antt =====
-- src/server.c: `drain_request_body` and the first half of `handle_client`, which reads a request
-- from the socket and refuses a body that is too large. The socket is the list of the segments
-- that arrive in time: a segment of no bytes is an orderly close, and the end of the list is an
-- error, or a deadline that expires.
pub mod Stream
pub mod Whole
pub mod Bounds
pub mod TooLarge
use bialet.Prelude.{
  ℕ, zero, suc, ◌+◌, ◌-◌, ◌*◌, Bool, true, false, ◌&&◌, Option, none, some, List, [], ◌∷◌, ◌++◌,
  ltb, leb, ◌==◌, if◌then◌else◌, Bytes, codes, length, take, drop,
}
use mathlib.Core.Option
use bialet.Server.ContentLength.{
  Parsed, malformed, above_max, accepted, size_max, parse_content_length,
}
use bialet.Server.FindHeader.{find_header, content_length_name}
use bialet.Server.HeaderBlock.{header_block_len}

-- `BUFSIZ * 4`, with glibc's `BUFSIZ`.
abbrev pub buffer_size : ℕ
buffer_size = 8192 * 4

-- `sizeof(buffer) - 1`: one byte is kept for the terminator.
abbrev pub room_size : ℕ
room_size = buffer_size - 1

abbrev pub Socket : Type 0
Socket = List Bytes

-- `recv(fd, …, want, 0)`: `none` for 0 or less; what does not fit stays in the socket.
unfoldable pub recv : ℕ → Socket → Option (Bytes × Socket)
recv want [] = none
recv want ([] ∷ later) = none
recv want ((c ∷ s) ∷ later) =
    if leb (length (c ∷ s)) want
    then some (c ∷ s, later)
    else some (take want (c ∷ s), drop want (c ∷ s) ∷ later)

-- A round takes a byte or more, so `bytes_remaining` rounds are enough.
drain_loop : ℕ → ℕ → Socket → Socket
drain_loop zero remaining socket = socket
drain_loop (suc fuel) remaining socket =
    let want = if ltb remaining buffer_size then remaining else buffer_size in
    elim (recv want socket) [
      | none ↦ socket
      | some (s, later) ↦ elim (leb remaining (length s)) [
        | true ↦ later
        | false ↦ drain_loop fuel (remaining - length s) later
      ]
    ]

unfoldable pub drain_request_body : Socket → ℕ → Socket
unfolding drain_loop
drain_request_body socket remaining = drain_loop remaining remaining socket

-- The buffer, `hdr_len` and the socket when the header loop ends.
pub record Head : Type 0 where
  pub buffer : Bytes
  pub hdr_len : ℕ
  pub socket : Socket

-- The header loop: it ends when the buffer is full, when nothing more is received, and when the
-- header block is complete.
unfoldable pub read_head : Bytes → Socket → Head
unfolding recv
read_head buf [] = record { buffer = buf; hdr_len = 0; socket = [] }
read_head buf ([] ∷ later) = record { buffer = buf; hdr_len = 0; socket = [] ∷ later }
read_head buf ((c ∷ s) ∷ later) =
    let room = room_size - length buf in
    let all = buf ++ (c ∷ s) in
    let part = buf ++ take room (c ∷ s) in
    let more = read_head all later in
    if leb room_size (length buf)
    then record { buffer = buf; hdr_len = 0; socket = (c ∷ s) ∷ later }
    else if leb (length (c ∷ s)) room
    then if header_block_len all == 0
      then more
      else record { buffer = all; hdr_len = header_block_len all; socket = later }
    else record {
      buffer = part;
      hdr_len = header_block_len part;
      socket = drop room (c ∷ s) ∷ later;
    }

-- The body loop: it ends when `full` bytes are there, and when nothing more is received.
unfoldable pub read_body : ℕ → Bytes → Socket → Bytes
read_body full got [] = got
read_body full got ([] ∷ later) = got
read_body full got ((c ∷ s) ∷ later) =
    let want = full - length got in
    let more = read_body full (got ++ take want (c ∷ s)) later in
    if leb full (length got) then got else more

-- How the reading ends: the socket is closed without an answer, the request is refused with 413
-- (and what is left on the socket), or there is a request.
pub data Received : Type 0 where
  closed : Received
  too_large : Socket → Received
  request : Bytes → Received

-- `cl`: the value of the header and the bytes that follow the header block in the buffer.
unfoldable pub content_length_field : Head → Option Bytes
content_length_field h =
    if h.hdr_len == 0
    then none
    else Option.map (λ v. v ++ drop h.hdr_len h.buffer)
        (find_header (take h.hdr_len h.buffer) content_length_name)

-- `content_length`, or the refusal.
unfoldable pub announced : ℕ → Option Bytes → Parsed
announced max none = accepted 0
announced max (some v) = parse_content_length v max

-- The drain of a body that is above the limit: its length is parsed again with no limit.
drain_above : Head → Parsed → Socket
drain_above h (accepted declared) =
    let already = length h.buffer - h.hdr_len in
    if ltb already declared then drain_request_body h.socket (declared - already) else h.socket
drain_above h _ = h.socket

-- The sum of the two sizes does not wrap around: main.c keeps the limit of the body below 2 ^ 55.
unfoldable pub complete_body : Head → ℕ → Received
complete_body h n =
    let full = h.hdr_len + n in
    let whole = read_body full h.buffer h.socket in
    if ltb 0 n && ltb (length h.buffer) full
    then if ltb (length whole) full then closed else request whole
    else request h.buffer

unfoldable pub answer_head : Head → Option Bytes → Parsed → Received
unfolding drain_above
answer_head h field malformed = too_large h.socket
answer_head h field above_max = too_large (drain_above h (announced size_max field))
answer_head h field (accepted n) = complete_body h n

unfoldable pub receive : ℕ → Socket → Received
unfolding content_length_field announced answer_head complete_body
receive max socket =
    let h = read_head [] socket in
    let field = content_length_field h in
    if length h.buffer == 0 then closed else answer_head h field (announced max field)
