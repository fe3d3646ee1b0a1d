-- ===== src/HttpCall/Reads.antt =====
-- The client reads what the server writes.
use bialet.Server.Framing.{find-response_head, find-response_head, PlainLine, lines_text}
use bialet.Server.Response.{or_empty, body_len, Response, response_head, write_response}
use bialet.Prelude.Search.{find-append, find}
use bialet.Prelude.Decimal.{dec_loop, is_digit, decimal}
use bialet.HttpCall.{halves, parse_http_response, status_of, read_code}
use bialet.Prelude.{
  drop_append, drop, ◌∙◌, All, List, append_assoc, zero, suc, take, ap, length, false, ◌-◌, ltb,
  leb, ◌%◌, ◌*◌, arith, true, some, ◌++◌, ◌/◌, codes, ◌≡◌, ◌∷◌, ◌+◌, ◌≤◌, Bytes, starts_with, ◌<◌,
  ℕ, [], refl,
}

decimal-three :
    (n : ℕ)
    → 100 ≤ n
    → n < 1000
    → decimal n ≡ (b'0' + n / 10 / 10) ∷ ((b'0' + n / 10 % 10) ∷ ((b'0' + n % 10) ∷ []))
unfolding decimal dec_loop
decimal-three n h l =
    let e₁ : ltb n 10 ≡ false = ground arith in
    let e₂ : ltb (n / 10) 10 ≡ false = ground arith in
    let e₃ : ltb (n / 10 / 10) 10 ≡ true = ground arith in rw (e₁, e₂, e₃) refl

digit-is_digit : (d : ℕ) → d < 10 → is_digit (b'0' + d) ≡ true
digit-is_digit d h = ground arith

read_code-three :
    (a b c : ℕ) (rest : Bytes)
    → a < 10
    → b < 10
    → c < 10
    → read_code 3 0 ((b'0' + a) ∷ ((b'0' + b) ∷ ((b'0' + c) ∷ rest))) ≡ some (a * 100 + b * 10 + c)
unfolding read_code
read_code-three a b c rest ha hb hc =
    let value : ((0 * 10 + (b'0' + a - b'0')) * 10 + (b'0' + b - b'0')) * 10 + (b'0' + c - b'0')
        ≡ a * 100 + b * 10 + c =
      omega arith in
    rw (digit-is_digit a ha, digit-is_digit b hb, digit-is_digit c hc) (ap some value)

status_of-decimal :
    (n : ℕ) (rest : Bytes)
    → 100 ≤ n
    → n < 1000
    → status_of (codes "HTTP/1.1 " ++ (decimal n ++ rest)) ≡ n
unfolding status_of starts_with find
status_of-decimal n rest h l =
    let read =
      read_code-three (n / 10 / 10) (n / 10 % 10) (n % 10) rest (omega arith) (omega arith)
        (omega arith) in
    let value : n / 10 / 10 * 100 + n / 10 % 10 * 10 + n % 10 ≡ n = omega arith in
    let text =
      codes "HTTP/1.1 "
      ++ ((b'0' + n / 10 / 10) ∷ ((b'0' + n / 10 % 10) ∷ ((b'0' + n % 10) ∷ rest))) in
    let long : leb 12 (length text) ≡ true = ground arith in
    rw (decimal-three n h l, long, read) value

take_within : (n : ℕ) (s t : Bytes) → n ≤ length s → take n (s ++ t) ≡ take n s
take_within zero s t h = refl
take_within (suc n) [] t h = absurd (omega arith)
take_within (suc n) (c ∷ s) t h = ap (◌∷◌ c) (take_within n s t (omega arith))

status_of-write_response :
    (r : Response) → 100 ≤ r.status → r.status < 1000 → status_of (write_response r) ≡ r.status
unfolding write_response response_head
status_of-write_response r h l =
    rw (append_assoc (decimal r.status)) (status_of-decimal r.status _ h l)

-- For a response with a status of three digits, whose header lines hold no CR, are not empty and are
-- no Content-Length: the client gets its status, the head up to the blank line, and exactly the
-- bytes of the body that were sent.
pub parse_http_response-write_response :
    (r : Response) (hls : List Bytes)
    → or_empty r.header ≡ lines_text hls
    → All PlainLine hls
    → 100 ≤ r.status
    → r.status < 1000
    → parse_http_response (write_response r) ≡ record {
      status = r.status;
      headers = take (length (response_head r) - 2) (response_head r);
      body = take (body_len r) (or_empty r.body);
    }
unfolding parse_http_response halves write_response
parse_http_response-write_response r hls e p h l =
    let (k, found, size) = find-response_head r hls e p in
    let head = response_head r in
    let sent = take (body_len r) (or_empty r.body) in
    let status : status_of (head ++ sent) ≡ r.status = status_of-write_response r h l in
    let cut : take (k + 2) (head ++ sent) ≡ take (length head - 2) head =
      take_within (k + 2) head sent (omega (arith, size))
      ∙ ap (λ n. take n head) (omega (arith, size)) in
    let behind : drop (k + 4) (head ++ sent) ≡ sent = rw size (drop_append head sent) in
    rw (find-append 13 (10 ∷ 13 ∷ 10 ∷ []) head sent k found, status, cut, behind) refl
