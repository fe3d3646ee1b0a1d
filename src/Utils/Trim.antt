-- ===== src/Utils/Trim.antt =====
-- src/utils.c: `trim`.
pub mod Trimmed
use bialet.Prelude.{ℕ, Bool, ◌&&◌, ◌||◌, [], ◌∷◌, leb, ◌==◌, if◌then◌else◌, Bytes}

-- `isspace` in the C locale.
abbrev pub is_space : ℕ → Bool
is_space c = c == b' ' || (leb 9 c && leb c 13)

-- `while(isspace(*start)) start++`.
unfoldable pub trim_start : Bytes → Bytes
trim_start [] = []
trim_start (c ∷ s) = if is_space c then trim_start s else c ∷ s

-- `while(end > start && isspace(*end)) end--`: the bytes up to the last that is no space.
pub trim_end : Bytes → Bytes
trim_end [] = []
trim_end (c ∷ s) =
    let rest = trim_end s in
    elim rest [ [] ↦ if is_space c then [] else c ∷ [] | d ∷ t ↦ c ∷ (d ∷ t) ]

-- The first byte behind the leading spaces is no space, so the `end > start` guard never stops
-- the second loop early.
unfoldable pub trim : Bytes → Bytes
unfolding trim_start trim_end
trim str = trim_end (trim_start str)
