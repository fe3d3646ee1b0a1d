-- ===== src/HttpCall/Exchange.antt =====
-- src/http_call.c: `http_call_perform` of the build for Windows, with `create_context`,
-- `load_windows_system_certs` and `host_is_ip_literal`. What the network and OpenSSL answer is a
-- parameter; allocations succeed but for the growth of the buffer.
pub mod Reading
pub mod Verified
use bialet.HttpCall.{parse_http_response}
use bialet.HttpCall.Request.{HttpRequest, ParsedUrl, build_request, parse_url}
use bialet.HttpCall.Transfer.{HttpResult, max_http_response_size, or_milliseconds}
use bialet.Prelude.Decimal.{is_digit}
use bialet.Server.Reader.{Socket, recv}
use bialet.Prelude.{
  codes, drop, take, length, leb, ltb, not, ◌&&◌, ◌||◌, ◌==◌, ◌++◌, ◌+◌, ◌-◌, ◌*◌, if◌then◌else◌,
  ◌∷◌, suc, zero, Bool, true, false, Option, Bytes, List, ℕ, [], none, some,
}

-- Whether d2i_X509 reads a certificate, and whether X509_STORE_add_cert takes it.
pub record Certificate : Type 0 where
  pub parses : Bool
  pub added : Bool

-- `ok` behind the loop over the certificates.
unfoldable pub loaded : Bool → List Certificate → Bool
loaded ok [] = ok
loaded ok (c ∷ certs) = loaded (if c.parses && c.added then true else ok) certs

unfoldable pub load_windows_system_certs : Option (List Certificate) → Bool
unfolding loaded
load_windows_system_certs none = false
load_windows_system_certs (some certs) = loaded false certs

-- SSL_CTX_new, the store "ROOT", SSL_new, SSL_set1_host, and SSL_connect for the name that is sent
-- and the name that is checked.
pub record Tls : Type 0 where
  pub ctx_new : Bool
  pub root_store : Option (List Certificate)
  pub ssl_new : Bool
  pub set1_host : Bytes → Bool
  pub connects : Option Bytes → Bytes → Bool

unfoldable pub create_context : Tls → Bool
unfolding load_windows_system_certs
create_context tls = tls.ctx_new && load_windows_system_certs tls.root_store

unfoldable pub host_is_ip_literal : Bytes → Bool
host_is_ip_literal [] = true
host_is_ip_literal (c ∷ host) =
    if is_digit c || c == b'.' || c == b':' then host_is_ip_literal host else false

abbrev pub server_name : Bytes → Option Bytes
server_name host = if host_is_ip_literal host then none else some host

-- The message of the error, or none.
unfoldable pub start_tls : Tls → Bytes → Option Bytes
unfolding create_context host_is_ip_literal
start_tls tls host =
    if not (create_context tls)
    then some (codes "Could not create TLS context")
    else if not tls.ssl_new
    then some (codes "Could not create TLS session")
    else if not (tls.set1_host host)
    then some (codes "Could not set TLS hostname")
    else if tls.connects (server_name host) host
    then none
    else some (codes "TLS handshake or certificate verification failed")

-- The other end: the bytes that each write accepts, 0 for an error, and the segments that arrive
-- as the answer to what was sent.
pub record Peer : Type 0 where
  pub accepts : List ℕ
  pub replies : Bytes → Socket

-- An address: socket, connect, WSAEWOULDBLOCK, select within the milliseconds, SO_ERROR, and the
-- connection with the timeout in milliseconds.
pub record Address : Type 0 where
  pub has_socket : Bool
  pub connects : Bool
  pub would_block : Bool
  pub ready : ℕ → Bool
  pub so_error : ℕ
  pub peer : ℕ → Peer

unfoldable pub connected : ℕ → Address → Bool
connected connect_ms a =
    if not a.has_socket
    then false
    else if a.connects
    then true
    else a.would_block && a.ready connect_ms && (a.so_error == 0)

unfoldable pub first_connected : ℕ → List Address → Option Address
unfolding connected
first_connected connect_ms [] = none
first_connected connect_ms (a ∷ addresses) =
    if connected connect_ms a then some a else first_connected connect_ms addresses

-- The bytes that went out, and whether all did.
unfoldable pub write_all : List ℕ → Bytes → Bytes × Bool
write_all accepts [] = ([], true)
write_all [] (c ∷ req) = ([], false)
write_all (n ∷ accepts) (c ∷ req) =
    let (out, ok) = write_all accepts (drop n (c ∷ req)) in
    if n == 0 then ([], false) else (take n (c ∷ req) ++ out, ok)

-- `ncap`.
abbrev pub doubled : ℕ → ℕ
doubled cap = if ltb max_http_response_size (cap * 2) then max_http_response_size else cap * 2

-- `cap` for the next read; `none` where the loop ends.
unfoldable pub next_cap : (ℕ → Bool) → ℕ → ℕ → Option ℕ
next_cap memory cap len =
    if leb (len + 4096 + 1) cap
    then some cap
    else if leb max_http_response_size cap
    then none
    else if memory (doubled cap)
    then some (doubled cap)
    else none

-- A round reads a byte or more.
unfoldable pub read_loop : (ℕ → Bool) → ℕ → ℕ → Bytes → Socket → Bytes
unfolding next_cap recv
read_loop memory zero cap raw socket = raw
read_loop memory (suc fuel) cap raw socket = elim (next_cap memory cap (length raw)) [
  | none ↦ raw
  | some ncap ↦ elim (recv (ncap - length raw - 1) socket) [
    | none ↦ raw
    | some (s, later) ↦ read_loop memory fuel ncap (raw ++ s) later
  ]
]

unfoldable pub read_response : (ℕ → Bool) → Socket → Bytes
unfolding read_loop
read_response memory socket = read_loop memory max_http_response_size (16 * 1024) [] socket

-- getaddrinfo for the host and the port, OpenSSL, and whether realloc has that many bytes.
pub record Network : Type 0 where
  pub getaddrinfo : Bytes → Bytes → Option (List Address)
  pub tls : Tls
  pub memory : ℕ → Bool

abbrev pub fail_with : ℕ → Bytes → HttpResult → HttpResult
fail_with code text response = record response { error = code; error_message = some text }

abbrev pub filled : Bytes → HttpResult → HttpResult
filled raw response = record response {
  status = (parse_http_response raw).status;
  headers = some (parse_http_response raw).headers;
  body = some (parse_http_response raw).body;
}

-- From the request to the response on a connection that stands.
unfoldable pub exchange : Network → ParsedUrl → HttpRequest → Peer → HttpResult → HttpResult
unfolding write_all read_response build_request parse_http_response
exchange net url request peer response =
    let (out, ok) = write_all peer.accepts (build_request url request) in
    if ok
    then filled (read_response net.memory (peer.replies out)) response
    else fail_with (if url.is_https then 6 else 7) (codes "Failed to send request") response

unfoldable pub http_call_perform : Network → Bytes → HttpRequest → ℕ → ℕ → HttpResult → HttpResult
unfolding parse_url first_connected start_tls exchange
http_call_perform net url request timeout connect_timeout response = elim (parse_url url) [
  | none ↦ fail_with 1 (codes "Unsupported or malformed URL") response
  | some u ↦ elim (net.getaddrinfo u.host u.port) [
    | none ↦ fail_with 2 (codes "Could not resolve host") response
    | some addresses ↦ elim (first_connected (or_milliseconds connect_timeout 2000) addresses) [
      | none ↦ fail_with 4 (codes "Connection failed or timed out") response
      | some a ↦ elim (if u.is_https then start_tls net.tls u.host else none) [
        | some text ↦ fail_with 5 text response
        | none ↦ exchange net u request (a.peer (or_milliseconds timeout 20000)) response
      ]
    ]
  ]
]
