-- ===== src/HttpCall/Exchange/Verified.antt =====
-- src/http_call.c: the calls of http_call_perform for Windows that report no error.
use bialet.HttpCall.Exchange.{
  Network, Tls, Address, Peer, first_connected, server_name, create_context, filled,
}
use bialet.HttpCall.Exchange.Reading.{stream, Read}
use bialet.HttpCall.Request.{HttpRequest, ParsedUrl, parse_url, build_request}
use bialet.HttpCall.Transfer.{HttpResult, or_milliseconds}
use bialet.Prelude.{List, ◌≡◌, ◌⊎◌, Bytes, ℕ, true, false, some}

-- The handshake succeeded, with the certificates of the system, for this host.
abbrev pub IsAuthenticated : Tls → Bytes → Type 0
IsAuthenticated tls host =
    (create_context tls ≡ true)
    × (tls.set1_host host ≡ true)
    × (tls.connects (server_name host) host ≡ true)

-- The whole request went to this end, and the response is parsed from what arrived of the answer
-- before the connection ended, whether in order, by an error or by a timeout: from all of that, or
-- from its first part of more than 50 MB less 4097 bytes.
abbrev pub IsAnswer : ParsedUrl → HttpRequest → Peer → HttpResult → HttpResult → Type 0
IsAnswer u request peer response r =
    (raw : Bytes) × (r ≡ filled raw response)
    × Read (stream (peer.replies (build_request u request))) raw

-- The URL was parsed, an address of its host was connected, an https request went out behind a
-- verified handshake only, and the response is the answer.
abbrev pub Reached : Network → Bytes → HttpRequest → ℕ → ℕ → HttpResult → HttpResult → Type 0
Reached net url request timeout connect_timeout response r =
    (u : ParsedUrl) × (addresses : List Address) × (a : Address) × (parse_url url ≡ some u)
    × (net.getaddrinfo u.host u.port ≡ some addresses)
    × (first_connected (or_milliseconds connect_timeout 2000) addresses ≡ some a)
    × ((u.is_https ≡ false) ⊎ IsAuthenticated net.tls u.host)
    × IsAnswer u request (a.peer (or_milliseconds timeout 20000)) response r
