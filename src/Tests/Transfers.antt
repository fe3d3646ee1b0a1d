-- ===== src/Tests/Transfers.antt =====
-- A call of the client with libcurl.
use bialet.HttpCall.Transfer.{
  write_callback, header_callback, curl_calls, Curl, Transfer, HttpResult, body_call, header_call,
  http_call_perform, tokens, max_http_response_size,
}
use bialet.HttpCall.Transfer.Complete.{
  http_call_perform-Complete, delivered_body, delivered_headers,
}
use bialet.HttpCall.Request.{HttpRequest}
use bialet.Prelude.{c_string, length, ◌≤◌, ◌≡◌, arith, refl, codes, some, none, true, [], ◌∷◌}

abbrev post_request : HttpRequest
post_request = record {
  raw_headers = some (codes "X: 1");
  method = some (codes "POST");
  post_data = some (codes "hi");
  basic_auth = some (codes "u:p");
}

-- A transfer in three calls.
abbrev page_transfer : Transfer
page_transfer = record {
  made =
      header_call true (codes "HTTP/1.1 200 OK\r\n")
      ∷ (body_call true (codes "he") ∷ (body_call true (codes "llo") ∷ []));
  code = 0;
  http_code = 200;
}

abbrev page_curl : Curl
page_curl = record {
  init = true;
  has_memory = true;
  perform = λ o. page_transfer;
  strerror = λ code. codes "error";
}

abbrev no_response : HttpResult
no_response = record { status = 200; error = 0; headers = none; body = none; error_message = none }

http_call_perform-Complete_example :
    let r = http_call_perform page_curl (codes "https://api.test/") post_request 0 0 no_response in
    (r.body ≡ some (c_string (codes "hello")))
    × (length (codes "hello") ≤ max_http_response_size)
    × (r.headers ≡ some (c_string (codes "HTTP/1.1 200 OK\r\n")))
    × (length (codes "HTTP/1.1 200 OK\r\n") ≤ max_http_response_size)
    × (r.status ≡ 200)
unfolding http_call_perform curl_calls write_callback header_callback delivered_body
    delivered_headers
http_call_perform-Complete_example =
    http_call_perform-Complete page_curl (codes "https://api.test/") post_request 0 0 no_response
      (λ ok. (omega arith, refl, (omega arith, refl, (omega arith, refl, tt)))) refl

-- The headers of the framework, which joins them by a line feed.
tokens-headers : tokens [] (codes "A: 1\nB: 2") ≡ codes "A: 1" ∷ (codes "B: 2" ∷ [])
unfolding tokens
tokens-headers = refl
