-- ===== src/Server/Locate.antt =====
-- src/server.c: the second half of `handle_client` up to the opening of a file: the private-file
-- check on the URI, the search for the file, and the checks on the path that it resolves to.
pub mod Safe
pub mod Routes
use bialet.Prelude.{
  ℕ, zero, suc, ◌+◌, ◌-◌, Bool, true, false, ◌&&◌, not, Option, none, some, [], ◌∷◌, ◌++◌, ltb, leb,
  ◌==◌, if◌then◌else◌, Bytes, codes, str_eq, length, take, drop,
}
use bialet.Prelude.Search.{find}
use bialet.Server.CustomError.{Config, printed, is_regular, is_directory, exists}
use bialet.Server.PrivatePath.{has_forbidden_uri_component, path_basename}
use bialet.Server.Root.{is_within_root}
use bialet.Utils.Path.{path_size, realpath_n}
use bialet.World.{World, HttpMessage}

-- What the URI leads to: 403, nothing (a 404, or the welcome page at the root), or a file, with
-- the prefix of the URI that the `_route.wren` file answers for.
pub data Located : Type 0 where
  forbidden : Located
  missing : Located
  file : Bytes → Bytes → Located

-- The path up to a `?`.
unfoldable pub cut_query : Bytes → Bytes
cut_query [] = []
cut_query (c ∷ p) = if c == b'?' then [] else c ∷ cut_query p

-- The text before the last `/`, as `*strrchr(s, '/') = 0` leaves it.
unfoldable pub before_last_slash : Bytes → Option Bytes
before_last_slash [] = none
before_last_slash (c ∷ s) = elim (before_last_slash s) [
  | some t ↦ some (c ∷ t)
  | none ↦ if c == b'/' then some [] else none
]

-- One `/` at the end is taken off.
unfoldable pub drop_trailing_slash : Bytes → Bytes
drop_trailing_slash [] = []
drop_trailing_slash (c ∷ []) = if c == b'/' then [] else c ∷ []
drop_trailing_slash (c ∷ (d ∷ p)) = c ∷ drop_trailing_slash (d ∷ p)

-- `path.wren` where that exists; a path with no room for the suffix is left alone.
unfoldable pub prefer_wren : World → Bytes → Bytes
prefer_wren w path =
    let wren_path = path ++ codes ".wren" in
    if ltb (length path + 5) path_size && exists (w.stat wren_path) then printed wren_path else path

-- In a directory: `index.wren`, or else `index.html`.
unfoldable pub prefer_index : World → Bytes → Bytes
prefer_index w path =
    let index = path ++ take (path_size - length path - 1) (codes "/index.wren") in
    if not (is_directory (w.stat path))
    then path
    else if exists (w.stat index)
    then index
    else if leb 5 (length index)
    then take (length index - 5) index ++ codes ".html"
    else index

abbrev pub route_file : Config → Bytes → Bytes
route_file cfg url = printed (cfg.root_dir ++ (url ++ codes "/_route.wren"))

-- The search for `_route.wren`, from the URI up to the root: the path and the URI's prefix.
unfoldable pub find_route : ℕ → World → Config → Bytes → Option (Bytes × Bytes)
find_route zero w cfg url = none
find_route (suc fuel) w cfg url = elim (is_regular (w.lstat (route_file cfg url))) [
  | true ↦ some (route_file cfg url, url)
  | false ↦ elim (before_last_slash url) [
    | none ↦ none
    | some parent ↦ find_route fuel w cfg parent
  ]
]

-- The path that the URI names, before any look at the file system.
unfoldable pub named_path : Config → Bytes → Bytes
unfolding cut_query drop_trailing_slash
named_path cfg uri = drop_trailing_slash (cut_query (printed (cfg.root_dir ++ uri)))

-- The path to serve, whether it comes from the route search, and the routes.
pub record Target : Type 0 where
  pub path : Bytes
  pub private_path_internal : Bool
  pub routes : Bytes

abbrev routed : Bytes → Option (Bytes × Bytes) → Option Target
routed routes none = none
routed routes (some (path, url)) =
    some (record { path = path; private_path_internal = true; routes = url })

unfoldable pub target : World → Config → HttpMessage → Option Target
unfolding prefer_wren prefer_index find_route named_path
target w cfg hm =
    let path = prefer_index w (prefer_wren w (named_path cfg hm.uri)) in
    if exists (w.stat path)
    then some (record { path = path; private_path_internal = false; routes = hm.routes })
    else routed hm.routes (find_route (suc (length hm.uri)) w cfg hm.uri)

-- The private-file rule on the resolved path; only the part below the root counts, and the
-- framework's own `_route.wren` is exempt.
unfoldable pub is_private : Config → Bool → Bytes → Bool
is_private cfg internal resolved =
    let waived = internal && str_eq (path_basename resolved) (codes "_route.wren") in
    not waived && has_forbidden_uri_component (drop (length cfg.full_root_dir) resolved)

pub vet : Config → Target → Option Bytes → Located
vet cfg t none = file t.path t.routes
vet cfg t (some resolved) =
    if not (is_within_root cfg.full_root_dir resolved)
    then forbidden
    else if is_private cfg t.private_path_internal resolved
    then forbidden
    else file (printed resolved) t.routes

unfoldable pub vet_target : World → Config → Option Target → Located
unfolding vet
vet_target w cfg none = missing
vet_target w cfg (some t) = vet cfg t (realpath_n w t.path path_size)

abbrev is_some {ℓ} : {A : Type ℓ} → Option A → Bool
is_some none = false
is_some (some a) = true

unfoldable pub locate : World → Config → HttpMessage → Located
unfolding vet_target
locate w cfg hm =
    if has_forbidden_uri_component hm.uri
    then forbidden
    else if is_some (find (codes "..") hm.uri)
    then forbidden
    else vet_target w cfg (target w cfg hm)
