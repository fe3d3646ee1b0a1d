-- ===== src/Utils/Path/Walk.antt =====
-- `open_fd_no_follow` opens an absolute path one component at a time.
use mathlib.Core.Path.{fun_ext}
use bialet.Prelude.{
  length-append, ℕ, zero, suc, ◌≤◌, ◌<◌, ◌≡◌, ◌≢◌, refl, ◌∙◌, false, Option, none, some, List, [],
  ◌∷◌, ◌++◌, ◌>>=◌, arith, Bytes, length, All, ltb, ◌==◌, if◌then◌else◌,
}
use bialet.Utils.Path.{component, walk, open_fd_no_follow, name_max}
use bialet.World.{World}

-- The path of a list of names.
abbrev pub absolute : List Bytes → Bytes
absolute [] = []
absolute (n ∷ ns) = b'/' ∷ (n ++ absolute ns)

abbrev pub NoSlash : Bytes → Type 0
NoSlash = All (λ c. c ≢ b'/')

abbrev pub IsName : Bytes → Type 0
IsName n = NoSlash n × (n ≢ [])

-- The specification: each name is opened in the directory before it, and a name that is too long
-- is refused before it is opened.
abbrev pub open_chain : World → ℕ → List Bytes → Option ℕ
open_chain w dirfd [] = some dirfd
open_chain w dirfd (n ∷ ns) =
    if ltb name_max (length n) then none else (do next ← w.openat dirfd n; open_chain w next ns)

component-absolute :
    (n : Bytes) (ns : List Bytes) → NoSlash n → component (n ++ absolute ns) ≡ (n, absolute ns)
unfolding component
component-absolute [] [] h = refl
component-absolute [] (m ∷ ns) h = refl
component-absolute (c ∷ n) ns (hc, h) = ground (arith, component-absolute n ns h)

walk-nil : (fuel : ℕ) (w : World) (dirfd : ℕ) → walk fuel w dirfd [] ≡ some dirfd
unfolding walk
walk-nil zero w dirfd = refl
walk-nil (suc fuel) w dirfd = refl

name_size : (n : Bytes) → n ≢ [] → 0 < length n
name_size [] h = absurd (h refl)
name_size (c ∷ n) h = omega arith

-- A round at a name, which has at least one byte, and no `/` in front.
walk_name :
    (fuel : ℕ) (w : World) (dirfd : ℕ) (n : Bytes) (ns : List Bytes)
    → IsName n
    → walk (suc fuel) w dirfd (n ++ absolute ns) ≡ (
        if ltb name_max (length n)
        then none
        else (do next ← w.openat dirfd n; walk fuel w next (absolute ns)))
unfolding walk
walk_name fuel w dirfd [] ns (_, ne) = absurd (ne refl)
walk_name fuel w dirfd (c ∷ n) ns ((hc, h), ne) =
    let cut = component-absolute (c ∷ n) ns (hc, h) in
    let name_byte : (c == b'/') ≡ false = ground arith in rw (cut, name_byte) refl

walk-absolute :
    (fuel : ℕ) (w : World) (dirfd : ℕ) (ns : List Bytes)
    → All IsName ns
    → length (absolute ns) ≤ fuel
    → walk fuel w dirfd (absolute ns) ≡ open_chain w dirfd ns
unfolding walk
walk-absolute fuel w dirfd [] h e = walk-nil fuel w dirfd
walk-absolute zero w dirfd (n ∷ ns) h e = absurd (omega arith)
walk-absolute (suc zero) w dirfd (n ∷ ns) (hn, h) e =
    absurd (omega (arith, length-append n (absolute ns), name_size n hn.1))
walk-absolute (suc (suc fuel)) w dirfd (n ∷ ns) (hn, h) e =
    let enough : length (absolute ns) ≤ fuel =
      omega (arith, length-append n (absolute ns), name_size n hn.1) in
    walk_name fuel w dirfd n ns hn
    ∙ rw (fun_ext (λ next. walk-absolute fuel w next ns h enough)) refl

-- An absolute path of names without `/` is opened name by name from the root directory, each with
-- `openat` in the directory before it: no component is skipped, joined or cut short, and a
-- component longer than `NAME_MAX` fails before it is opened.
pub open_fd_no_follow-absolute :
    (w : World) (n : Bytes) (ns : List Bytes)
    → All IsName (n ∷ ns)
    → open_fd_no_follow w (absolute (n ∷ ns))
      ≡ (do dirfd ← w.open_root; open_chain w dirfd (n ∷ ns))
unfolding open_fd_no_follow
open_fd_no_follow-absolute w n ns h =
    rw
      (fun_ext
        (λ dirfd. walk-absolute (length (absolute (n ∷ ns))) w dirfd (n ∷ ns) h (omega arith)))
      refl
