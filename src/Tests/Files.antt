-- ===== src/Tests/Files.antt =====
-- src/server.c: the search for files and the answers, in a small world.
use bialet.Server.ContentLength.{accepted}
use bialet.Prelude.{◌>>=◌}
use mathlib.Core.List.{cons-ne-nil}
use mathlib.Core.Path.{subst}
use bialet.Server.Handler.Answers.{handle_client-forbidden, settled-status}
use bialet.Server.Request.RequestLine.{request_line}
use bialet.Server.FindHeader.{content_length_name}
use bialet.Prelude.Search.{find}
use bialet.Utils.Path.Walk.{open_fd_no_follow-absolute, open_chain, absolute}
use bialet.Server.Reader.Stream.{arrived}
use bialet.Server.Reader.Whole.{request_head}
use bialet.Server.FindHeader.Lines.{header_lookup}
use bialet.Server.Locate.Routes.{find_route-Search, Search}
use bialet.Server.Reader.{room_size, Socket, announced}
use bialet.Utils.Path.{path_size, realpath_n, open_fd_no_follow}
use bialet.Server.Locate.Safe.{locate-Vetted, locate-forbidden, Vetted}
use bialet.Server.Framing.{block}
use bialet.LiveReload.{livereload_try_handle, LiveReload}
use bialet.Server.CustomError.{custom_error, Config}
use bialet.World.{regular, HttpMessage, World, FileKind}
use bialet.Server.Response.{empty_response, write_response, Response}
use bialet.Server.Locate.{
  file, is_private, target, before_last_slash, forbidden, locate, find_route,
}
use bialet.Server.Handler.{settled, handle_client}
use bialet.Server.PrivatePath.{
  path_basename-FinalComponent, has_forbidden_uri_component_iff, path_basename, HiddenComponent,
  has_forbidden_uri_component, FinalComponent,
}
use bialet.Server.Root.{resolve_within_root, is_within_root_iff, Within, NoNul, is_within_root}
use bialet.Prelude.{
  some_inj, Bool-cases, ◌||◌, ◌≢◌, starts_with, ◌+◌, ◌≤◌, ◌≡◌, refl, ◌⊎◌, inl, inr, ◌↔◌, true,
  false, Option, none, some, [], ◌∷◌, ◌++◌, arith, Bytes, codes, length, str_eq, if◌then◌else◌,
}

-- One file, `/srv/app/a.txt`, beside a route file in `/srv/app/sub`.
abbrev small_stat : Bytes → Option FileKind
small_stat p =
    if str_eq p (codes "/srv/app/a.txt") || str_eq p (codes "/srv/app/sub/_route.wren")
    then some regular
    else none

abbrev blank : Response
blank = empty_response

abbrev small : World
small = record {
  stat = small_stat;
  lstat = small_stat;
  realpath = λ p. if str_eq p (codes "/srv/app/a.txt") then some (codes "/srv/app/a.txt") else none;
  open_root = some 3;
  openat = λ fd name. some (fd + 1);
  read_all = λ fd. some (codes "text");
  bialet_run = λ path source hm. blank;
}

abbrev config : Config
config = record {
  root_dir = codes "/srv/app";
  full_root_dir = codes "/srv/app";
  max_post_size = 1024;
}

abbrev asking : Bytes → HttpMessage
asking uri = record { message = []; method = codes "GET"; uri = uri; routes = [] }

abbrev quiet : LiveReload
quiet = record { enabled = false; shared_version = none }

has_forbidden_uri_component_iff_example :
    (has_forbidden_uri_component (codes "/a//_db") ≡ true) ↔ HiddenComponent (codes "/a//_db")
has_forbidden_uri_component_iff_example = has_forbidden_uri_component_iff (codes "/a//_db")

path_basename-FinalComponent_test :
    FinalComponent (codes "/a/b\\c.wren") (path_basename (codes "/a/b\\c.wren"))
path_basename-FinalComponent_test = path_basename-FinalComponent (codes "/a/b\\c.wren")

is_within_root_iff_test :
    (is_within_root (codes "/srv/app") (codes "/srv/app2") ≡ true)
    ↔ Within (codes "/srv/app") (codes "/srv/app2")
is_within_root_iff_test = is_within_root_iff (codes "/srv/app") (codes "/srv/app2") (omega arith)

sibling_refused : is_within_root (codes "/srv/app") (codes "/srv/app2") ≡ false
unfolding is_within_root starts_with
sibling_refused = refl

locate-forbidden_test : locate small config (asking (codes "/x/../y")) ≡ forbidden
unfolding starts_with
locate-forbidden_test = locate-forbidden small config (asking (codes "/x/../y")) (inr (3, refl))

located : locate small config (asking (codes "/a.txt?x=1")) ≡ file (codes "/srv/app/a.txt") []
unfolding locate has_forbidden_uri_component find starts_with str_eq target realpath_n
    is_within_root is_private path_basename
located = refl

small_NoNul : (p r : Bytes) → small.realpath p ≡ some r → NoNul r
small_NoNul p r h = elim (Bool-cases (str_eq p (codes "/srv/app/a.txt"))) [
  | inl e ↦
      let same : codes "/srv/app/a.txt" ≡ r = some_inj (rw e at h) in subst NoNul same (omega arith)
  | inr e ↦ absurd (cc (rw e at h))
]

locate-Vetted_example :
    Vetted small config (codes "/srv/app/a.txt")
    ⊎ (realpath_n small (codes "/srv/app/a.txt") path_size ≡ none)
locate-Vetted_example =
    locate-Vetted small config (asking (codes "/a.txt?x=1")) (codes "/srv/app/a.txt") [] small_NoNul
      located

find_route-Search_example :
    Search small config (codes "/sub/x") (find_route 7 small config (codes "/sub/x"))
find_route-Search_example = find_route-Search 7 small config (codes "/sub/x") (omega arith)

route_of_parent :
    find_route 7 small config (codes "/sub/x")
    ≡ some (codes "/srv/app/sub/_route.wren", codes "/sub")
unfolding find_route before_last_slash str_eq
route_of_parent = refl

open_fd_no_follow-absolute_test :
    open_fd_no_follow small (absolute (codes "srv" ∷ codes "app" ∷ []))
    ≡ (do dirfd ← small.open_root; open_chain small dirfd (codes "srv" ∷ codes "app" ∷ []))
open_fd_no_follow-absolute_test =
    open_fd_no_follow-absolute small (codes "srv") (codes "app" ∷ [])
      ((omega arith, cons-ne-nil _ _), ((omega arith, cons-ne-nil _ _), tt))

abbrev get : Bytes → Socket
get uri = (codes "GET " ++ (uri ++ codes " HTTP/1.1\r\n")) ∷ codes "\r\n" ∷ []

not_announced : announced 1024 (header_lookup content_length_name []) ≡ accepted 0
unfolding announced
not_announced = refl

private_socket :
    arrived (get (codes "/_db.sqlite3"))
    ≡ request_head (request_line (codes "GET") (codes "/_db.sqlite3") (codes "HTTP/1.1")) [] ++ []
unfolding block
private_socket = refl

private_fits :
    length (request_head (request_line (codes "GET") (codes "/_db.sqlite3") (codes "HTTP/1.1")) [])
    ≤ room_size
unfolding block
private_fits = omega arith

no_poll : livereload_try_handle quiet (codes "/_db.sqlite3") ≡ none
unfolding livereload_try_handle
no_poll = refl

private_component : HiddenComponent (codes "/_db.sqlite3")
private_component = record {
  before = codes "/";
  first = b'_';
  rest = codes "db.sqlite3";
  splits = refl;
  boundary = inr refl;
  hidden = refl;
}

handle_client-forbidden_example :
    handle_client small config quiet [] (get (codes "/_db.sqlite3"))
    ≡ some (write_response (custom_error small config false 403))
handle_client-forbidden_example =
    handle_client-forbidden small config quiet [] (codes "GET") (codes "/_db.sqlite3")
      (codes "HTTP/1.1") [] [] (get (codes "/_db.sqlite3")) (omega arith, cons-ne-nil _ _)
      (omega arith, cons-ne-nil _ _) (omega arith) (omega arith) tt (omega arith) private_fits
      not_announced (cons-ne-nil _ _, (cons-ne-nil _ _, tt)) private_socket (inl private_component)
      no_poll

settled-status_test : (settled small config blank).status ≢ 0
settled-status_test = settled-status small config blank

-- Under the root of the file system no file is found to lie in the root.
slash_refuses : resolve_within_root (codes "/") (some (codes "/index.html")) ≡ none
unfolding resolve_within_root is_within_root starts_with
slash_refuses = refl
