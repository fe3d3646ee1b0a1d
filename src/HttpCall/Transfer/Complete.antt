-- ===== src/HttpCall/Transfer/Complete.antt =====
-- src/http_call.c: the calls of http_call_perform with libcurl that report no error.
use bialet.HttpCall.Transfer.{
  empty_chunk, write_callback, header_callback, CurlCall, body_call, header_call, Chunks, Memory,
  curl_call, curl_calls, Curl, Transfer, max_http_response_size, http_call_perform, options,
  empty_chunks, HttpResult,
}
use bialet.HttpCall.Request.{HttpRequest, or_text}
use bialet.Prelude.{
  append_assoc, length-append, ◌%◌, sym, ◌*◌, ◌∙◌, append-nil, take_all, ap, ◌⊎◌, inr, ◌+◌, inl,
  take, ◌≡◌, ◌≤◌, ◌<◌, ◌^◌, ◌++◌, ◌∷◌, arith, refl, length, Bytes, ℕ, Bool, List, [], c_string,
  some, true,
}

-- What libcurl hands over for the body, and for the headers.
unfoldable pub delivered_body : List CurlCall → Bytes
delivered_body [] = []
delivered_body (body_call grows buffer ∷ cs) = buffer ++ delivered_body cs
delivered_body (header_call grows buffer ∷ cs) = delivered_body cs

unfoldable pub delivered_headers : List CurlCall → Bytes
delivered_headers [] = []
delivered_headers (body_call grows buffer ∷ cs) = delivered_headers cs
delivered_headers (header_call grows buffer ∷ cs) = buffer ++ delivered_headers cs

abbrev pub bytes_of : CurlCall → Bytes
bytes_of (body_call grows buffer) = buffer
bytes_of (header_call grows buffer) = buffer

-- Every call returned the number of its bytes, each below 2 ^ 63.
abbrev pub IsTaken : List CurlCall → Chunks → Type 0
IsTaken [] chunks = Unit
IsTaken (c ∷ cs) chunks =
    (length (bytes_of c) < 2 ^ 63)
    × ((curl_call c chunks).0 ≡ length (bytes_of c))
    × IsTaken cs (curl_call c chunks).1

-- The documented use of the callbacks: a call that does not take all its bytes makes the transfer
-- fail.
abbrev pub Obeys : Transfer → Type 0
Obeys t = t.code ≡ 0 → IsTaken t.made empty_chunks

-- The chunk holds this text.
abbrev Holds : Memory → Bytes → Type 0
Holds mem text =
    (or_text mem.response [] ≡ text)
    × (mem.size ≡ length text)
    × (mem.max_size ≡ max_http_response_size)
    × (length text ≤ max_http_response_size)

append-none : (s t : Bytes) → 0 ≡ length s → t ++ s ≡ t
append-none [] t e = append-nil t
append-none (c ∷ s) t e = absurd (omega arith)

with_chunk : Bytes → Memory → Memory
with_chunk buffer mem = record mem {
  response = some (take mem.size (or_text mem.response []) ++ buffer);
  size = mem.size + length buffer;
}

-- A call is refused, or it appends all its bytes within the limit.
write_callback-cases :
    (grows : Bool) (buffer : Bytes) (mem : Memory)
    → mem.size + length buffer < 2 ^ 64
    → (write_callback grows buffer 1 (length buffer) mem ≡ (0, mem))
      ⊎ ((write_callback grows buffer 1 (length buffer) mem
            ≡ (length buffer, with_chunk buffer mem))
          × (mem.size + length buffer ≤ mem.max_size))
unfolding write_callback with_chunk
write_callback-cases grows buffer mem small =
    let real : 1 * length buffer % 2 ^ 64 ≡ length buffer = omega arith in
    let total : (mem.size + length buffer) % 2 ^ 64 ≡ mem.size + length buffer = omega arith in
    let all : take (length buffer) buffer ≡ buffer =
      take_all (length buffer) buffer (omega arith) in
    rw (real, total, all) ground arith

write_callback-Holds :
    (grows : Bool) (buffer text : Bytes) (mem : Memory)
    → Holds mem text
    → length buffer < 2 ^ 63
    → (write_callback grows buffer 1 (length buffer) mem).0 ≡ length buffer
    → Holds (write_callback grows buffer 1 (length buffer) mem).1 (text ++ buffer)
unfolding with_chunk
write_callback-Holds grows buffer text mem (h, size, max, fits) small e =
    elim (write_callback-cases grows buffer mem (omega arith)) [
      | inl r ↦
          let same : text ++ buffer ≡ text = append-none buffer text (ap (λ p. p.0) (sym r) ∙ e) in
          rw (r, same) (h, size, max, fits)
      | inr (r, within) ↦ rw r (
        ap (λ t. t ++ buffer) (rw (size, h) (take_all (length text) text (omega arith))),
        omega (arith, length-append text buffer, size),
        max,
        omega (arith, length-append text buffer, size, max, within),
      )
    ]

header_callback-lem :
    (grows : Bool) (buffer : Bytes) (n : ℕ) (mem : Memory)
    → header_callback grows buffer 1 n mem ≡ write_callback grows buffer 1 n mem
unfolding header_callback write_callback
header_callback-lem grows buffer n mem = let e : n * 1 ≡ 1 * n = omega arith in rw e refl

header_callback-Holds :
    (grows : Bool) (buffer text : Bytes) (mem : Memory)
    → Holds mem text
    → length buffer < 2 ^ 63
    → (header_callback grows buffer 1 (length buffer) mem).0 ≡ length buffer
    → Holds (header_callback grows buffer 1 (length buffer) mem).1 (text ++ buffer)
header_callback-Holds grows buffer text mem h small e =
    let same = header_callback-lem grows buffer (length buffer) mem in
    rw same (write_callback-Holds grows buffer text mem h small (rw same at e))

curl_calls-Holds :
    (cs : List CurlCall) (chunks : Chunks) (body headers : Bytes)
    → Holds chunks.chunk body
    → Holds chunks.header_chunk headers
    → IsTaken cs chunks
    → Holds (curl_calls cs chunks).chunk (body ++ delivered_body cs)
      × Holds (curl_calls cs chunks).header_chunk (headers ++ delivered_headers cs)
unfolding curl_calls delivered_body delivered_headers
curl_calls-Holds [] chunks body headers hb hh taken =
    rw (append-nil body, append-nil headers) (hb, hh)
curl_calls-Holds (body_call grows buffer ∷ cs) chunks body headers hb hh (small, e, taken) =
    rw (← append_assoc body buffer (delivered_body cs)) (
      curl_calls-Holds cs _ (body ++ buffer) headers
        (write_callback-Holds grows buffer body chunks.chunk hb small e) hh taken)
curl_calls-Holds (header_call grows buffer ∷ cs) chunks body headers hb hh (small, e, taken) =
    rw (← append_assoc headers buffer (delivered_headers cs)) (
      curl_calls-Holds cs _ body (headers ++ buffer) hb
        (header_callback-Holds grows buffer headers chunks.header_chunk hh small e) taken)

pub http_call_perform-no_error :
    (curl : Curl) (url : Bytes) (request : HttpRequest) (timeout connect_timeout : ℕ)
    (response : HttpResult)
    → (http_call_perform curl url request timeout connect_timeout response).error ≡ 0
    → (curl.init ≡ true)
      × (curl.has_memory ≡ true)
      × ((curl.perform (options url request timeout connect_timeout)).code ≡ 0)
unfolding http_call_perform
http_call_perform-no_error curl url request timeout connect_timeout response e = ground arith

-- A call of the client that reports no error, with a libcurl that keeps to its documented use of the
-- callbacks: the body and the headers are the whole of what libcurl handed over, as C strings, each
-- within 50 MB, and the status is that of the transfer.
pub http_call_perform-Complete :
    (curl : Curl) (url : Bytes) (request : HttpRequest) (timeout connect_timeout : ℕ)
    (response : HttpResult)
    → Obeys (curl.perform (options url request timeout connect_timeout))
    → (http_call_perform curl url request timeout connect_timeout response).error ≡ 0
    → let t = curl.perform (options url request timeout connect_timeout) in
      let r = http_call_perform curl url request timeout connect_timeout response in
      (r.body ≡ some (c_string (delivered_body t.made)))
      × (length (delivered_body t.made) ≤ max_http_response_size)
      × (r.headers ≡ some (c_string (delivered_headers t.made)))
      × (length (delivered_headers t.made) ≤ max_http_response_size)
      × (r.status ≡ t.http_code)
unfolding http_call_perform
http_call_perform-Complete curl url request timeout connect_timeout response obeys e =
    let (init, memory, ok) =
      http_call_perform-no_error curl url request timeout connect_timeout response e in
    let t = curl.perform (options url request timeout connect_timeout) in
    let holds : Holds empty_chunk [] = (refl, refl, refl, omega arith) in
    let (body, headers) = curl_calls-Holds t.made empty_chunks [] [] holds holds (obeys ok) in
    rw (init, memory, ok)
      (
        ap (λ s. some (c_string s)) body.0,
        body.3,
        ap (λ s. some (c_string s)) headers.0,
        headers.3,
        refl,
      )
