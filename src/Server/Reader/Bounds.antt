-- ===== src/Server/Reader/Bounds.antt =====
-- The size of what is received: neither a buffer overrun nor half a request.
use bialet.Server.Reader.{Head, room_size, Received, request}
use bialet.Server.HeaderBlock.{header_block_len}
use bialet.Prelude.{◌<◌, ◌⊎◌, ℕ, ◌+◌, ◌≤◌, ◌≡◌, [], Bytes, length}

-- The buffer holds what is in it, and the header block ends inside.
abbrev Fits : Head → Type 0
Fits h = (length h.buffer ≤ room_size) × (h.hdr_len ≤ length h.buffer)

-- The bytes of a request, and none for the other results.
abbrev content : Received → Bytes
content (request q) = q
content _ = []

-- What is passed on: a head that never ended, as it stands and with no body, or a request that
-- holds its header block and as many bytes of body as it announces.
abbrev pub IsComplete : Head → ℕ → Bytes → Type 0
IsComplete h n q =
    ((h.hdr_len ≡ 0) × (n ≡ 0) × (q ≡ h.buffer))
    ⊎ ((0 < h.hdr_len) × (header_block_len q ≡ h.hdr_len) × (h.hdr_len + n ≤ length q))
