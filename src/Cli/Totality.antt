-- ===== src/Cli/Totality.antt =====
-- Every command line is parsed, into settings that hold together.
use bialet.Cli.Sound.{IsSound}
use bialet.Prelude.{◌≡◌, ◌≤◌, length, Option, Bytes, List, some}
use bialet.Cli.{Settings, Env}
use bialet.Cli.Parse.{Taken}

-- Sound settings, and no more arguments left than there were.
abbrev Keeps : List Bytes → Taken → Type 0
Keeps rest (t, left) = IsSound t × (length left ≤ length rest)

module _ (env : Env) where
  -- The loop ends in sound settings.
  abbrev Ends : Option Settings → Type 0
  Ends r = (t : Settings) × (r ≡ some t) × IsSound t
