-- ===== src/Modules.antt =====
-- src/bialet_wren.c: `bialet_wren_load_module` and `bialet_read_file`, the texts that a script imports
-- and reads. What the network and SQLite answer are parameters.
pub mod Contained
pub mod Cached
pub mod Downloads
use bialet.Server.Root.{resolve_within_root}
use bialet.Utils.Path.{open_file_no_follow, realpath_n}
use bialet.Server.PrivatePath.{is_separator}
use bialet.World.{World}
use bialet.Prelude.Search.{find}
use bialet.Prelude.{
  ltb, ◌&&◌, not, Bool, List, suc, peek, str_eq, length, ◌||◌, leb, ◌+◌, starts_with, drop, ◌==◌,
  ◌-◌, ◌++◌, if◌then◌else◌, take, ◌∷◌, Option, codes, Bytes, ℕ, none, some, true, false, [], ◌>>=◌,
}

abbrev pub max_path : ℕ
max_path = 1024

abbrev pub extension : Bytes
extension = codes ".wren"

-- `strtok_r(s, d, &saveptr)` for one delimiter, and `saveptr`.
unfoldable pub skip_delim : ℕ → Bytes → Bytes
skip_delim d [] = []
skip_delim d (c ∷ s) = if c == d then skip_delim d s else c ∷ s

unfoldable pub first_part : ℕ → Bytes → Bytes × Bytes
first_part d [] = ([], [])
first_part d (c ∷ s) = let (t, rest) = first_part d s in if c == d then ([], s) else (c ∷ t, rest)

abbrev pub some_text : Bytes → Option Bytes
some_text [] = none
some_text (c ∷ s) = some (c ∷ s)

unfoldable pub strtok : ℕ → Bytes → Option (Bytes × Bytes)
strtok d s = elim (skip_delim d s) [ [] ↦ none | c ∷ t ↦ some (first_part d (c ∷ t)) ]

-- The text in front of the first `@`, and the branch behind it.
unfoldable pub branch_of : Bytes → Bytes × Bytes
branch_of name = elim (find (b'@' ∷ []) name) [
  | none ↦ (name, codes "main")
  | some k ↦ (take k name, drop (k + 1) name)
]

-- `BIALET_REMOTE_MODULE_GITHUB_URL`.
abbrev pub raw_url : Bytes → Bytes → Bytes → Bytes → Bytes
raw_url user repo branch path =
    codes "https://raw.githubusercontent.com/"
    ++ (user
        ++ (codes "/"
            ++ (repo ++ (codes "/refs/heads/" ++ (branch ++ (codes "/" ++ (path ++ extension)))))))

-- The URL of a name behind `gh:`.
unfoldable pub github_url : Bytes → Option Bytes
github_url name = do
  let (text, branch) = branch_of (take (max_path - 1) name)
  (user, rest) ← strtok b'/' text
  (repo, last) ← strtok b'/' rest
  path ← some_text last
  let url = raw_url user repo branch path
  if leb max_path (length url) then none else some url

-- The URL of a name with a colon.
unfoldable pub remote_url : Bytes → Option Bytes
remote_url name =
    if starts_with (codes "http://") name || starts_with (codes "https://") name
    then some (take (max_path - 1) name)
    else if starts_with (codes "gh:") name
    then github_url (drop 3 name)
    else none

-- The rows of BIALET_REMOTE_MODULES: the name and the content.
abbrev pub Table : Type 0
Table = List (Bytes × Bytes)

-- `SELECT content … WHERE module = ? LIMIT 1`, taken to give the oldest row.
unfoldable pub lookup : Bytes → Table → Option Bytes
lookup name [] = none
lookup name ((m, content) ∷ table) = if str_eq m name then some content else lookup name table

-- What `http_call_perform` leaves: the status, whether there was an error, and the body, a C string.
pub record Fetched : Type 0 where
  pub status : ℕ
  pub error : Bool
  pub body : Option Bytes

-- Whether the two statements can be prepared, the insertion succeeds, and the answers of the network.
pub record Remote : Type 0 where
  pub prepares_select : Bool
  pub inserts : Bool
  pub fetch : Bytes → Fetched

abbrev pub Loaded : Type 0
Loaded = Option Bytes × Table

abbrev pub cached : Remote → Bytes → Table → Option Bytes
cached r name table = if r.prepares_select then lookup name table else none

-- A row is added behind the others; a missing body is NULL in it, and no source.
abbrev pub remember : Remote → Bytes → Option Bytes → Table → Table
remember r name none table = table
remember r name (some body) table = if r.inserts then table ++ ((name, body) ∷ []) else table

abbrev pub is_success : Fetched → Bool
is_success f = leb 200 f.status && ltb f.status 300 && not f.error

unfoldable pub fetched : Remote → Bytes → Fetched → Table → Loaded
fetched r name f table =
    if is_success f then (f.body, remember r name f.body table) else (none, table)

unfoldable pub load_remote : Remote → Bytes → Table → Loaded
load_remote r name table = elim (remote_url name) [
  | none ↦ (none, table)
  | some url ↦ elim (cached r name table) [
    | some content ↦ (some content, table)
    | none ↦ fetched r name (r.fetch url) table
  ]
]

-- The text up to the last separator, or all of it.
unfoldable pub last_separator : Bytes → Option ℕ
last_separator [] = none
last_separator (c ∷ p) = elim (last_separator p) [
  | some k ↦ some (suc k)
  | none ↦ if is_separator c then some 0 else none
]

abbrev pub directory_of : Bytes → Bytes
directory_of p = elim (last_separator p) [ none ↦ p | some k ↦ take k p ]

-- `module` in front of the name; `none` where it is too long or there is no caller.
unfoldable pub module_dir : Bytes → Option Bytes → Bytes → Option Bytes
module_dir root called_from name =
    if peek name == b'/'
    then if ltb max_path (length name + length root + 5 + 1) then none else some root
    else (do
      p ← called_from
      if ltb max_path (length name + length p + 5 + 2)
          then none
          else some (directory_of p ++ codes "/"))

abbrev pub has_extension : Bytes → Bool
has_extension m = not (ltb (length m) 5) && str_eq (drop (length m - 5) m) extension

-- `strncat` of the extension.
abbrev pub with_extension : Bytes → Option Bytes
with_extension m =
    if has_extension m
    then some m
    else if leb max_path (length m + 5)
    then none
    else some (m ++ extension)

unfoldable pub module_path : Bytes → Option Bytes → Bytes → Option Bytes
module_path root called_from name = do
  dir ← module_dir root called_from name
  if leb max_path (length dir + 1)
      then none
      else with_extension (dir ++ take (max_path - length dir - 1) name)

-- The file behind a path, if it is resolved to a place in the root; it is opened without following
-- links.
unfoldable pub read_contained : World → Bytes → Bytes → Option Bytes
read_contained w root path = do
  resolved ← realpath_n w path max_path
  inside ← resolve_within_root root (some resolved)
  open_file_no_follow w inside

-- `bialet_read_file`, in a path that is not clipped.
unfoldable pub bialet_read_file : World → Bytes → Bytes → Option Bytes
bialet_read_file w root path =
    let full_path = root ++ (codes "/" ++ path) in
    if leb max_path (length full_path) then none else read_contained w root full_path

-- `read_file`.
unfoldable pub read_file : World → Bytes → Option Bytes
read_file w path =
    if peek path == b'/'
    then open_file_no_follow w path
    else (do resolved ← realpath_n w path 4096; open_file_no_follow w resolved)

unfoldable pub load_local : World → Bytes → Option Bytes → Bytes → Option Bytes
load_local w root called_from name = do
  path ← module_path root called_from name
  read_contained w root path

-- `wrenGetUserData` gives the caller.
unfoldable pub bialet_wren_load_module :
    World → Remote → Bytes → Option Bytes → Bytes → Table → Loaded
bialet_wren_load_module w r root called_from name table = elim (find (b':' ∷ []) name) [
  | some k ↦ load_remote r name table
  | none ↦ (load_local w root called_from name, table)
]
