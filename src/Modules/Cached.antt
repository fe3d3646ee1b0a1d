-- ===== src/Modules/Cached.antt =====
-- A module from the network is fetched once.
use bialet.Prelude.Search.{find}
use bialet.World.{World}
use bialet.Modules.{
  cached, bialet_wren_load_module, is_success, remote_url, Fetched, load_remote, fetched, Table,
  lookup, Remote,
}
use bialet.Prelude.{
  append-nil, sym, List, ◌∙◌, ap, if◌then◌else◌, Option, str_eq, Bool-cases, str_eq_refl,
  Option-cases, ◌++◌, ◌≡◌, Bytes, ℕ, none, some, true, inl, inr, refl, [], ◌∷◌,
}

lookup-append :
    (name body : Bytes) (table : Table)
    → lookup name table ≡ none
    → lookup name (table ++ ((name, body) ∷ [])) ≡ some body
unfolding lookup
lookup-append name body [] h = rw (str_eq_refl name) refl
lookup-append name body ((m, content) ∷ table) h = elim (Bool-cases (str_eq m name)) [
  | inl e ↦ absurd (cc (rw e at h))
  | inr e ↦ rw e (lookup-append name body table (rw e at h))
]

load_remote-found :
    (r : Remote) (name : Bytes) (table : Table)
    → r.prepares_select ≡ true
    → (url content : Bytes) → remote_url name ≡ some url
    → lookup name table ≡ some content
    → load_remote r name table ≡ (some content, table)
unfolding load_remote
load_remote-found r name table selects url content e c =
    let hit : cached r name table ≡ some content =
      ap (λ b. if b then lookup name table else none) selects ∙ c in
    rw (e, hit, load_remote) refl

module _ (r : Remote) (name : Bytes) (table : Table) (selects : r.prepares_select ≡ true)
    (inserts : r.inserts ≡ true) where
  fetched-lookup :
      (f : Fetched) (source : Bytes)
      → lookup name table ≡ none
      → (fetched r name f table).0 ≡ some source
      → lookup name (fetched r name f table).1 ≡ some source
  unfolding fetched
  fetched-lookup f source n h = elim (Bool-cases (is_success f)) [
    | inr e ↦ absurd (cc (rw e at h))
    | inl e ↦
        let body : f.body ≡ some source = rw e at h in
        rw (e, body, inserts) (lookup-append name source table n)
  ]

  answers : (o : Option Bytes) → lookup name table ≡ o → cached r name table ≡ o
  answers o c = ap (λ b. if b then lookup name table else none) selects ∙ c

  load_remote-hit :
      (url content : Bytes)
      → remote_url name ≡ some url
      → lookup name table ≡ some content
      → load_remote r name table ≡ (some content, table)
  load_remote-hit = load_remote-found r name table selects

  load_remote-miss :
      (url : Bytes)
      → remote_url name ≡ some url
      → lookup name table ≡ none
      → load_remote r name table ≡ fetched r name (r.fetch url) table
  unfolding load_remote
  load_remote-miss url e c = rw (e, answers none c, load_remote) refl

  load_remote-lookup :
      (source : Bytes)
      → (load_remote r name table).0 ≡ some source
      → lookup name (load_remote r name table).1 ≡ some source
  unfolding load_remote
  load_remote-lookup source h = elim (Option-cases (remote_url name)) [
    | inl e ↦ absurd (cc (rw (e, load_remote) at h))
    | inr (url, e) ↦ elim (Option-cases (lookup name table)) [
      | inr (content, c) ↦ let step = load_remote-hit url content e c in rw (step, c) (rw step at h)
      | inl c ↦
          let step = load_remote-miss url e c in
          rw step (fetched-lookup (r.fetch url) source c (rw step at h))
    ]
  ]

  load_remote-named :
      (source : Bytes)
      → (load_remote r name table).0 ≡ some source
      → (url : Bytes) × (remote_url name ≡ some url)
  unfolding load_remote
  load_remote-named source h = elim (Option-cases (remote_url name)) [
    | inl e ↦ absurd (cc (rw (e, load_remote) at h))
    | inr found ↦ found
  ]

lookup-append_some :
    (name content : Bytes) (table rows : Table)
    → lookup name table ≡ some content
    → lookup name (table ++ rows) ≡ some content
unfolding lookup
lookup-append_some name content [] rows h = absurd cc
lookup-append_some name content ((m, c) ∷ table) rows h = elim (Bool-cases (str_eq m name)) [
  | inl e ↦ rw e (rw e at h)
  | inr e ↦ rw e (lookup-append_some name content table rows (rw e at h))
]

-- An import only adds rows behind the others.
abbrev Appends : Table → Table → Type 0
Appends table after = (rows : Table) × (after ≡ table ++ rows)

unchanged : (table : Table) → Appends table table
unchanged table = ([], sym (append-nil table))

fetched-Appends :
    (r : Remote) (name : Bytes) (f : Fetched) (table : Table)
    → Appends table (fetched r name f table).1
unfolding fetched
fetched-Appends r name f table = elim (Bool-cases (is_success f)) [
  | inr e ↦ rw e (unchanged table)
  | inl e ↦ elim (Option-cases f.body) [
    | inl n ↦ rw (e, n) (unchanged table)
    | inr (body, b) ↦ elim (Bool-cases r.inserts) [
      | inl i ↦ rw (e, b, i) ((name, body) ∷ [], refl)
      | inr i ↦ rw (e, b, i) (unchanged table)
    ]
  ]
]

load_remote-Appends :
    (r : Remote) (name : Bytes) (table : Table) → Appends table (load_remote r name table).1
unfolding load_remote
load_remote-Appends r name table = elim (Option-cases (remote_url name)) [
  | inl e ↦ rw (e, load_remote) (unchanged table)
  | inr (url, e) ↦ elim (Option-cases (cached r name table)) [
    | inl c ↦ rw (e, c, load_remote) (fetched-Appends r name (r.fetch url) table)
    | inr (content, c) ↦ rw (e, c, load_remote) (unchanged table)
  ]
]

load_module-Appends :
    (w : World) (r : Remote) (root name : Bytes) (caller : Option Bytes) (table : Table)
    → Appends table (bialet_wren_load_module w r root caller name table).1
unfolding bialet_wren_load_module
load_module-Appends w r root name caller table = elim (Option-cases (find (b':' ∷ []) name)) [
  | inl e ↦ rw (e, bialet_wren_load_module) (unchanged table)
  | inr (k, e) ↦ rw (e, bialet_wren_load_module) (load_remote-Appends r name table)
]

-- An import by any script, of any name, with whatever the files, SQLite and the network answer.
pub record Import : Type 0 where
  pub world : World
  pub remote : Remote
  pub caller : Option Bytes
  pub name : Bytes

-- The table behind the imports.
unfoldable pub imports : Bytes → List Import → Table → Table
imports root [] table = table
imports root (i ∷ more) table =
    imports root more (bialet_wren_load_module i.world i.remote root i.caller i.name table).1

imports-lookup :
    (root name content : Bytes) (between : List Import) (table : Table)
    → lookup name table ≡ some content
    → lookup name (imports root between table) ≡ some content
unfolding imports
imports-lookup root name content [] table h = h
imports-lookup root name content (i ∷ more) table h =
    let (rows, e) = load_module-Appends i.world i.remote root i.name i.caller table in
    imports-lookup root name content more _ (rw e (lookup-append_some name content table rows h))

-- With both statements prepared and the row inserted for it: once a name with a colon was imported,
-- then, behind any other imports whose statements may fail, an import of it for which the selection
-- is prepared gives the same text and leaves the table, whoever imports it and whatever the network
-- would answer by then.
pub bialet_wren_load_module-cached :
    (w w' : World) (r later : Remote) (root name source : Bytes) (caller other : Option Bytes)
    (table : Table) (between : List Import) (k : ℕ)
    → r.prepares_select ≡ true
    → r.inserts ≡ true
    → later.prepares_select ≡ true
    → find (b':' ∷ []) name ≡ some k
    → (bialet_wren_load_module w r root caller name table).0 ≡ some source
    → let after = imports root between (bialet_wren_load_module w r root caller name table).1 in
      bialet_wren_load_module w' later root other name after ≡ (some source, after)
unfolding bialet_wren_load_module
bialet_wren_load_module-cached w w' r later root name source caller other table between k s i s'
      colon h =
    let first : bialet_wren_load_module w r root caller name table ≡ load_remote r name table =
      rw (colon, bialet_wren_load_module) refl in
    let loaded = rw first at h in
    let (url, e) = load_remote-named r name table s i source loaded in
    let c = load_remote-lookup r name table s i source loaded in
    let kept = imports-lookup root name source between (load_remote r name table).1 c in
    let after = imports root between (load_remote r name table).1 in
    rw (first) (
      rw (colon, bialet_wren_load_module) (load_remote-found later name after s' url source e kept))
