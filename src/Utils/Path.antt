-- ===== src/Utils/Path.antt =====
-- src/utils.c: `open_fd_no_follow` and `open_file_no_follow`; src/bialet.c: `realpath_n`.
pub mod Walk
use bialet.Prelude.{
  ◌*◌, ℕ, zero, suc, Option, none, some, [], ◌∷◌, ◌>>=◌, ltb, leb, ◌==◌, if◌then◌else◌, Bytes,
  length, peek,
}
use bialet.World.{World}

-- `NAME_MAX`.
abbrev pub name_max : ℕ
name_max = 255

-- `PATH_SIZE` of server.c.
abbrev pub path_size : ℕ
path_size = 1024 * 2

-- The bytes up to the next `/`, and those from it on.
pub component : Bytes → Bytes × Bytes
component [] = ([], [])
component (c ∷ p) =
    let (name, rest) = component p in if c == b'/' then ([], c ∷ p) else (c ∷ name, rest)

-- One step of the walk for each byte at most, so the length of the path is fuel enough. `none`
-- where a component is too long or cannot be opened.
walk : ℕ → World → ℕ → Bytes → Option ℕ
walk zero w dirfd p = some dirfd
walk (suc fuel) w dirfd [] = some dirfd
walk (suc fuel) w dirfd (c ∷ p) =
    let skip = walk fuel w dirfd p in
    let (name, rest) = component (c ∷ p) in
    let enter = (do next ← w.openat dirfd name; walk fuel w next rest) in
    if c == b'/' then skip else if ltb name_max (length name) then none else enter

unfoldable pub open_fd_no_follow : World → Bytes → Option ℕ
unfolding component walk
open_fd_no_follow w path =
    if peek path == b'/' then (do dirfd ← w.open_root; walk (length path) w dirfd path) else none

-- The content of the file that `open_file_no_follow` opens.
unfoldable pub open_file_no_follow : World → Bytes → Option Bytes
unfolding open_fd_no_follow
open_file_no_follow w path = do fd ← open_fd_no_follow w path; w.read_all fd

unfoldable pub fitting : ℕ → Option Bytes → Option Bytes
fitting size none = none
fitting size (some resolved) = if leb size (length resolved) then none else some resolved

-- `realpath_n(path, resolved, size)`: a result that does not fit with its terminator is refused.
unfoldable pub realpath_n : World → Bytes → ℕ → Option Bytes
unfolding fitting
realpath_n w path size = fitting size (w.realpath path)
