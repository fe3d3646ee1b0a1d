-- ===== src/Server/Locate/Safe.antt =====
-- Which paths a URI can lead to.
use mathlib.Core.Path.{subst}
use bialet.Utils.Path.{path_size, realpath_n}
use bialet.Server.CustomError.{printed, Config}
use bialet.World.{HttpMessage, World}
use bialet.Server.PrivatePath.{
  has_forbidden_uri_component, path_basename, has_forbidden_uri_component_iff, HiddenComponent,
}
use bialet.Server.Root.{is_within_root_iff, is_within_root, NoNul, Within}
use bialet.Prelude.Search.{find, find-none}
use bialet.Prelude.{
  take_all, ℕ, ◌-◌, ◌<◌, ◌≡◌, sym, ◌∙◌, ◌⊎◌, inl, inr, Bool, true, false, Option, none, some, arith,
  Bytes, codes, length, drop, Bool-cases, Option-cases, str_eq, str_eq_iff, starts_with,
}
use bialet.Server.Locate.{vet, forbidden, file, Target, target, locate, vet_target, is_private}

-- A text that holds `..` somewhere.
abbrev pub HasDots : Bytes → Type 0
HasDots uri = (j : ℕ) × (starts_with (codes "..") (drop j uri) ≡ true)

find-HasDots : (uri : Bytes) → HasDots uri → (i : ℕ) × (find (codes "..") uri ≡ some i)
find-HasDots uri (j, h) = elim (Option-cases (find (codes "..") uri)) [
  | inl n ↦ absurd (ground (arith, find-none _ _ uri n j))
  | inr e ↦ e
]

-- A URI with a component that begins with `_` or `.`, or with `..` anywhere, is refused whatever
-- the file system holds.
pub locate-forbidden :
    (w : World) (cfg : Config) (hm : HttpMessage)
    → HiddenComponent hm.uri ⊎ HasDots hm.uri
    → locate w cfg hm ≡ forbidden
unfolding locate
locate-forbidden w cfg hm (inl h) = rw ((has_forbidden_uri_component_iff hm.uri).1 h)
locate-forbidden w cfg hm (inr d) =
    let (i, e) = find-HasDots hm.uri d in
    elim (Bool-cases (has_forbidden_uri_component hm.uri)) [ inl h ↦ rw h | inr h ↦ rw (h, e) ]

-- What holds of a path that has been resolved and may be served.
pub record Vetted (w : World) (cfg : Config) (path : Bytes) : Type 0 where
  pub asked : Bytes
  pub resolves : w.realpath asked ≡ some path
  pub within : Within cfg.full_root_dir path
  pub not_private :
      (¬ HiddenComponent (drop (length cfg.full_root_dir) path))
      ⊎ (path_basename path ≡ codes "_route.wren")

realpath_n-some :
    (w : World) (p r : Bytes)
    → realpath_n w p path_size ≡ some r
    → (w.realpath p ≡ some r) × (length r < path_size)
unfolding realpath_n
realpath_n-some w p r h = ground arith

is_private_sound :
    (cfg : Config) (internal : Bool) (path : Bytes)
    → is_private cfg internal path ≡ false
    → (¬ HiddenComponent (drop (length cfg.full_root_dir) path))
      ⊎ (path_basename path ≡ codes "_route.wren")
unfolding is_private
is_private_sound cfg false path h =
    inl (λ c. let hidden = (has_forbidden_uri_component_iff _).1 c in cc (rw hidden at h))
is_private_sound cfg true path h =
    elim (Bool-cases (str_eq (path_basename path) (codes "_route.wren"))) [
      | inl e ↦ inr ((str_eq_iff _ _).0 e)
      | inr e ↦
          inl
            (λ c. let hidden = (has_forbidden_uri_component_iff _).1 c in cc (rw (e, hidden) at h))
    ]

vet-none :
    (cfg : Config) (t : Target) (path routes : Bytes)
    → vet cfg t none ≡ file path routes
    → t.path ≡ path
unfolding vet
vet-none cfg t path routes h = ground arith

file_path : {a b c d : Bytes} → file a b ≡ file c d → a ≡ c
file_path h = cc

vet-some :
    (cfg : Config) (t : Target) (r path routes : Bytes)
    → vet cfg t (some r) ≡ file path routes
    → (is_within_root cfg.full_root_dir r ≡ true)
      × (is_private cfg t.private_path_internal r ≡ false)
      × (printed r ≡ path)
unfolding vet
vet-some cfg t r path routes h = elim (Bool-cases (is_within_root cfg.full_root_dir r)) [
  | inr e ↦ absurd (cc (rw e at h))
  | inl e ↦ elim (Bool-cases (is_private cfg t.private_path_internal r)) [
    | inl q ↦ absurd (cc (rw (e, q) at h))
    | inr q ↦ (e, q, file_path (rw (e, q) at h))
  ]
]

vet_target_sound :
    (w : World) (cfg : Config) (t : Option Target) (path routes : Bytes)
    → ((p r : Bytes) → w.realpath p ≡ some r → NoNul r)
    → vet_target w cfg t ≡ file path routes
    → Vetted w cfg path ⊎ (realpath_n w path path_size ≡ none)
unfolding vet_target
vet_target_sound w cfg none path routes n h = absurd (ground arith)
vet_target_sound w cfg (some t) path routes n h =
    elim (Option-cases (realpath_n w t.path path_size)) [
      | inl e ↦
          let same : t.path ≡ path = vet-none cfg t path routes (rw e at h) in inr (rw same at e)
      | inr (r, e) ↦
          let (resolves, short) = realpath_n-some w t.path r e in
          let (inside, open_file, same) = vet-some cfg t r path routes (rw e at h) in
          let whole : r ≡ path = sym (take_all (path_size - 1) r (omega arith)) ∙ same in
          let vetted : Vetted w cfg r = record {
            asked = t.path;
            resolves = resolves;
            within = (is_within_root_iff cfg.full_root_dir r (n t.path r resolves)).0 inside;
            not_private = is_private_sound cfg t.private_path_internal r open_file;
          } in
          inl (subst (Vetted w cfg) whole vetted)
    ]

-- Whatever the file system holds, a file that is served is one of two things: a path that some
-- path resolved to, which is the root or lies below it, and below the root has no component that
-- begins with `_` or `.` unless its last one is `_route.wren`; or a path that the check could not
-- resolve. The hypothesis is that `realpath` gives C strings.
pub locate-Vetted :
    (w : World) (cfg : Config) (hm : HttpMessage) (path routes : Bytes)
    → ((p r : Bytes) → w.realpath p ≡ some r → NoNul r)
    → locate w cfg hm ≡ file path routes
    → Vetted w cfg path ⊎ (realpath_n w path path_size ≡ none)
unfolding locate
locate-Vetted w cfg hm path routes n h =
    vet_target_sound w cfg (target w cfg hm) path routes n (ground arith)
