-- ===== src/Tests/Exchanges.antt =====
-- A call of the client in its build for Windows.
use bialet.HttpCall.Exchange.{http_call_perform, Network, Address}
use bialet.HttpCall.Transfer.{HttpResult}
use bialet.Prelude.Decimal.{decimal, dec_loop}
use bialet.HttpCall.Request.{build_head, base64_encode, needs_crlf, HttpRequest, scheme}
use bialet.Prelude.{◌≡◌, str_eq, refl, codes, some, none, true, false, [], ◌∷◌}

abbrev post_request : HttpRequest
post_request = record {
  raw_headers = some (codes "X: 1");
  method = some (codes "POST");
  post_data = some (codes "hi");
  basic_auth = some (codes "u:p");
}

abbrev no_response : HttpResult
no_response = record { status = 200; error = 0; headers = none; body = none; error_message = none }

-- A host with two addresses, of which the second answers.
abbrev silent : Address
silent = record {
  has_socket = true;
  connects = false;
  would_block = true;
  ready = λ ms. false;
  so_error = 0;
  peer = λ ms. record { accepts = []; replies = λ out. [] };
}

abbrev answering : Address
answering = record silent {
  ready = λ ms. true;
  peer = λ ms. record {
    accepts = 20 ∷ (1000 ∷ []);
    replies = λ out. codes "HTTP/1.1 200 " ∷ (codes "OK\r\nA: 1\r\n\r\nhi" ∷ []);
  };
}

abbrev two_addresses : Network
two_addresses = record {
  getaddrinfo = λ host port. some (silent ∷ (answering ∷ []));
  tls = record {
    ctx_new = true;
    root_store =
        some (
          record { parses = false; added = false } ∷ (record { parses = true; added = true } ∷ []));
    ssl_new = true;
    set1_host = λ host. true;
    connects = λ sni host. str_eq host (codes "api.test");
  };
  memory = λ n. true;
}

exchange_answered :
    http_call_perform two_addresses (codes "https://api.test/") post_request 0 0 no_response
    ≡ record {
      status = 200;
      error = 0;
      headers = some (codes "HTTP/1.1 200 OK\r\nA: 1\r\n");
      body = some (codes "hi");
      error_message = none;
    }
unfolding http_call_perform scheme str_eq build_head base64_encode needs_crlf decimal dec_loop
exchange_answered = refl

-- A certificate of another host.
not_verified :
    http_call_perform two_addresses (codes "https://api.evil/") post_request 0 0 no_response
    ≡ record no_response {
      error = 5;
      error_message = some (codes "TLS handshake or certificate verification failed");
    }
unfolding http_call_perform scheme str_eq build_head base64_encode needs_crlf decimal dec_loop
not_verified = refl

-- A connection that breaks in the middle of the response gives a part of it and no error.
abbrev breaking : Network
breaking = record two_addresses {
  getaddrinfo = λ host port. some (
      record answering {
        peer = λ ms. record {
          accepts = 1000 ∷ [];
          replies = λ out. codes "HTTP/1.1 200 OK\r\nContent-Length: 9\r\n\r\nhi" ∷ [];
        };
      }
      ∷ []);
}

cut_without_error :
    http_call_perform breaking (codes "https://api.test/") post_request 0 0 no_response ≡ record {
      status = 200;
      error = 0;
      headers = some (codes "HTTP/1.1 200 OK\r\nContent-Length: 9\r\n");
      body = some (codes "hi");
      error_message = none;
    }
unfolding http_call_perform scheme str_eq build_head base64_encode needs_crlf decimal dec_loop
cut_without_error = refl
