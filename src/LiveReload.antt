-- ===== src/LiveReload.antt =====
-- src/livereload.c: the version poll and the script that is put into HTML responses.
pub mod Inject
pub mod Polls
use bialet.Prelude.{
  ℕ, Bool, true, false, ◌&&◌, not, Option, none, some, [], ◌++◌, ltb, ◌==◌, if◌then◌else◌, Bytes,
  codes, str_eq, length, take, drop,
}
use bialet.Prelude.Search.{find}
use bialet.Prelude.Decimal.{decimal}
use bialet.Server.Response.{Response, empty_response, strlen}

-- `enabled` and `*shared_version`, which is `none` where the mapping failed.
pub record LiveReload : Type 0 where
  pub enabled : Bool
  pub shared_version : Option ℕ

-- What `livereload_init` makes of the configured value (`none`: no row, or no text in it); `now`
-- is the clock, and `shared` tells whether the mapping was made.
unfoldable pub livereload_init : Bool → ℕ → Option Bytes → LiveReload
livereload_init shared now none = record {
  enabled = false;
  shared_version = if shared then some 0 else none;
}
livereload_init shared now (some val) =
    if not (str_eq val (codes "0")) && not (length val == 0)
    then record { enabled = true; shared_version = if shared then some now else none }
    else record { enabled = false; shared_version = if shared then some 0 else none }

abbrev pub poll_uri : Bytes
poll_uri = codes "/_livereload"

unfoldable pub livereload_is_poll : Bytes → Bool
livereload_is_poll uri = str_eq uri poll_uri

poll_response : Option ℕ → Option Response
poll_response none = none
poll_response (some version) = some (record empty_response {
  status = 200;
  header = some (codes "Content-Type: text/plain\r\n");
  body = some (decimal version);
  length_field = length (decimal version);
})

-- `some response` where the call returns 1.
unfoldable pub livereload_try_handle : LiveReload → Bytes → Option Response
unfolding poll_response
livereload_try_handle l uri =
    if not l.enabled
    then none
    else if not (str_eq uri poll_uri)
    then none
    else poll_response l.shared_version

set_version : Option ℕ → ℕ → Option ℕ
set_version none now = none
set_version (some old) now = some now

unfoldable pub livereload_notify : ℕ → LiveReload → LiveReload
unfolding set_version
livereload_notify now l =
    if not l.enabled then l else record l { shared_version = set_version l.shared_version now }

-- `kScript`.
abbrev pub script : Bytes
script =
    codes "<script>(function(){var v=null;setInterval(function(){var x=new XMLHttpRequest();"
    ++ (codes "x.onload=function(){if(v===null)v=x.responseText;"
        ++ (codes "else if(v!==x.responseText)location.reload()};"
            ++ codes "x.open('GET','/_livereload');x.send()},1000)})()</script>"))

abbrev pub closing_tag : Bytes
closing_tag = codes "</body>"

-- `find_bytes`; every call of it has a needle.
unfoldable pub find_bytes : Bytes → Bytes → Option ℕ
find_bytes haystack needle =
    if length needle == 0
    then none
    else if ltb (length haystack) (length needle)
    then none
    else find needle haystack

offset_or_end : Option ℕ → Bytes → ℕ
offset_or_end none body = length body
offset_or_end (some i) body = i

-- The new body: the script stands in front of the first `</body>`, or at the end.
unfoldable pub inject : Bytes → Bytes
unfolding find_bytes offset_or_end
inject body =
    let at = offset_or_end (find_bytes body closing_tag) body in
    take at body ++ (script ++ drop at body)

-- The bytes of the body that count: `length_field` of them, or, for an owned body with no length,
-- those before its NUL.
unfoldable pub body_bytes : Response → Bytes
body_bytes r = elim r.body [
  | none ↦ []
  | some b ↦
      if r.length_field == 0
      then if r.body_owned then take (strlen b) b else []
      else take r.length_field b
]

unfoldable pub is_html : Option Bytes → Bool
is_html none = false
is_html (some header) = elim (find (codes "text/html") header) [ none ↦ false | some i ↦ true ]

-- The response with the script, or as it was. An allocation that fails is not modelled.
unfoldable pub livereload_inject_response : LiveReload → Response → Response
unfolding body_bytes is_html
livereload_inject_response l r =
    let new_body = inject (body_bytes r) in
    if not l.enabled
    then r
    else if not (is_html r.header)
    then r
    else record r { body = some new_body; body_owned = true; length_field = length new_body }
