-- ===== src/Modules/Contained.antt =====
-- What a script reads of the file system lies in the root.
use bialet.Prelude.Search.{find}
use bialet.Modules.{
  module_path, [], load_local, bialet_wren_load_module, read_contained, bialet_read_file, Table,
  max_path, Remote,
}
use bialet.World.{World}
use bialet.Server.Root.{is_within_root, is_within_root_iff, NoNul, Within, resolve_within_root}
use bialet.Utils.Path.{open_file_no_follow, fitting, realpath_n}
use bialet.Prelude.{
  some_inj, codes, ◌++◌, ◌∙◌, ◌∷◌, length, leb, >>=-eq-some, ◌⊎◌, Bool-cases, Option-cases, ◌≡◌,
  Option, Bytes, none, some, true, inl, inr,
}

-- A source that is the file of a resolved path in the root, opened without following links.
pub record Contained (w : World) (root source : Bytes) : Type 0 where
  pub asked : Bytes
  pub path : Bytes
  pub resolved : w.realpath asked ≡ some path
  pub inside : Within root path
  pub opened : open_file_no_follow w path ≡ some source

-- The result of `Markdown.file` and the like, or of an import with no colon in its name.
abbrev pub Reads : World → Remote → Bytes → Option Bytes → Bytes → Table → Bytes → Type 0
Reads w r root called_from name table source =
    (bialet_read_file w root name ≡ some source)
    ⊎ ((find (b':' ∷ []) name ≡ none)
        × ((bialet_wren_load_module w r root called_from name table).0 ≡ some source))

realpath_n-some :
    (w : World) (path resolved : Bytes)
    → realpath_n w path max_path ≡ some resolved
    → w.realpath path ≡ some resolved
unfolding realpath_n fitting
realpath_n-some w path resolved h = elim (Option-cases (w.realpath path)) [
  | inl e ↦ absurd (cc (rw e at h))
  | inr (p, e) ↦ elim (Bool-cases (leb max_path (length p))) [
    | inl long ↦ absurd (cc (rw (e, long) at h))
    | inr fits ↦ e ∙ rw (e, fits) at h
  ]
]

resolve_within_root-some :
    (root resolved inside : Bytes)
    → resolve_within_root root (some resolved) ≡ some inside
    → (is_within_root root resolved ≡ true) × (resolved ≡ inside)
unfolding resolve_within_root
resolve_within_root-some root resolved inside h = elim (Bool-cases (is_within_root root resolved)) [
  | inl e ↦ (e, some_inj (rw e at h))
  | inr e ↦ absurd (cc (rw e at h))
]

module _ (w : World) (nul_free : (p r : Bytes) → w.realpath p ≡ some r → NoNul r) where
  read_contained-Contained :
      (root path source : Bytes)
      → read_contained w root path ≡ some source
      → Contained w root source
  unfolding read_contained
  read_contained-Contained root path source h =
      let (resolved, p, q) = >>=-eq-some (realpath_n w path max_path) _ h in
      let (inside, e, f) = >>=-eq-some (resolve_within_root root (some resolved)) _ q in
      let (within, same) = resolve_within_root-some root resolved inside e in
      let real = realpath_n-some w path resolved p in
      record {
        asked = path;
        path = resolved;
        resolved = real;
        inside = (is_within_root_iff root resolved (nul_free path resolved real)).0 within;
        opened = rw same f;
      }

  -- Whatever a script reads by `bialet_read_file`, and whatever it imports by a name with no colon,
  -- is the content of a file whose resolved path is the root or lies below it, given that resolved
  -- paths hold no NUL.
  pub Reads-Contained :
      (r : Remote) (root : Bytes) (called_from : Option Bytes) (name : Bytes) (table : Table)
      (source : Bytes)
      → Reads w r root called_from name table source
      → Contained w root source
  unfolding bialet_read_file bialet_wren_load_module load_local
  Reads-Contained r root called_from name table source (inl h) =
      elim (Bool-cases (leb max_path (length (root ++ (codes "/" ++ name))))) [
        | inl long ↦ absurd (cc (rw long at h))
        | inr fits ↦
            read_contained-Contained root (root ++ (codes "/" ++ name)) source (rw fits at h)
      ]
  Reads-Contained r root called_from name table source (inr (local, h)) =
      let (path, p, q) =
        >>=-eq-some (module_path root called_from name) _
          (rw (local, bialet_wren_load_module) at h) in
      read_contained-Contained root path source q
