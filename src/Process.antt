-- ===== src/Process.antt =====
-- src/main.c: the changes of files that the watcher reports, the migration and the cron script.
pub mod Reloads
pub mod Supervisor
use bialet.LiveReload.{LiveReload, livereload_notify}
use bialet.Modules.{read_file, extension}
use bialet.World.{World}
use bialet.Prelude.{
  ◌-◌, ◌&&◌, ◌||◌, ◌++◌, ◌∷◌, Bool, Bytes, List, Option, codes, if◌then◌else◌, leb, length, ltb,
  str_eq, ℕ, none, some, true, false, [], ◌==◌,
}

-- `PATH_MAX`.
abbrev pub path_max : ℕ
path_max = 4096

abbrev pub wait_for_reload : ℕ
wait_for_reload = 3

-- The names without the root, and with a `/` in front where the root precedes them.
abbrev pub migration_file : Bytes
migration_file = codes "_migration" ++ extension

abbrev pub migration_file_alt : Bytes
migration_file_alt = codes "_app/migration" ++ extension

abbrev pub cron_file : Bytes
cron_file = codes "_cron" ++ extension

abbrev pub cron_file_alt : Bytes
cron_file_alt = codes "_app/cron" ++ extension

-- A call of `message` or of `bialet_run`: the module, the code, and the label of the message that
-- follows it.
pub data Effect : Type 0 where
  path_too_long : Bytes → Effect
  installing : Effect
  run : Bytes → Bytes → Option Bytes → Effect

-- `bialet_config.root_dir` and the static variables, with those of livereload.c.
pub record Process : Type 0 where
  pub root_dir : Bytes
  pub last_reload : ℕ
  pub cron_installed : Bool
  pub cron_code : Option Bytes
  pub live : LiveReload

abbrev pub Step : Type 0
Step = Process × List Effect

abbrev pub in_root : Bytes → Bytes → Bytes
in_root root name = root ++ (codes "/" ++ name)

abbrev pub too_long : Bytes → Bytes → Bytes → Bool
too_long root name alt =
    leb path_max (length (in_root root name)) || leb path_max (length (in_root root alt))

abbrev pub or_else : Option Bytes → Option Bytes → Option Bytes
or_else none b = b
or_else (some a) b = some a

-- The content of the file, or of the alternative.
unfoldable pub read_either : World → Bytes → Bytes → Bytes → Option Bytes
read_either w root name alt =
    or_else (read_file w (in_root root name)) (read_file w (in_root root alt))

abbrev pub migration_run : Option Bytes → Effect
migration_run none = run (codes "migration") (codes "Db.init") none
migration_run (some code) = run (codes "migration") code (some (codes "Migration start"))

unfoldable pub migrate : World → Process → List Effect
migrate w p =
    if too_long p.root_dir migration_file migration_file_alt
    then path_too_long (codes "Migration") ∷ []
    else migration_run (read_either w p.root_dir migration_file migration_file_alt) ∷ []

abbrev pub installed : Option Bytes → Process → Step
installed none p = (record p { cron_code = none; cron_installed = false }, [])
installed (some code) p =
    (record p { cron_code = some code; cron_installed = true }, installing ∷ [])

unfoldable pub install_cron : World → Process → Step
install_cron w p =
    if too_long p.root_dir cron_file cron_file_alt
    then (p, path_too_long (codes "Cron") ∷ [])
    else installed (read_either w p.root_dir cron_file cron_file_alt) p

abbrev pub cron_effects : Option Bytes → List Effect
cron_effects none = []
cron_effects (some code) = run (codes "cron") code none ∷ []

unfoldable pub cron_run : Process → List Effect
cron_run p = if p.cron_installed then cron_effects p.cron_code else []

abbrev pub is_migration : Bytes → Bool
is_migration path = str_eq path migration_file || str_eq path migration_file_alt

abbrev pub is_cron : Bytes → Bool
is_cron path = str_eq path cron_file || str_eq path cron_file_alt

abbrev pub and_then : List Effect → Step → Step
and_then before (p, effects) = (p, before ++ effects)

-- What follows the test of the time.
unfoldable pub reload : World → Option Bytes → Process → Step
reload w none p = and_then (migrate w p) (install_cron w p)
reload w (some path) p =
    let cron = if is_cron path then install_cron w p else (p, []) in
    if is_migration path then and_then (migrate w p) cron else cron

-- `now` is `time(NULL)`; a clock that was set back gives no time that is more than the wait.
unfoldable pub trigger_reload_files : World → ℕ → Option Bytes → Process → Step
trigger_reload_files w now filepath p =
    if ltb wait_for_reload (now - p.last_reload)
    then reload w filepath (record p { last_reload = now })
    else (p, [])

-- `strrchr(filepath, '.')`.
unfoldable pub last_dot : Bytes → Option Bytes
last_dot [] = none
last_dot (c ∷ path) = or_else (last_dot path) (if c == b'.' then some (c ∷ path) else none)

abbrev pub is_script : Option Bytes → Bool
is_script none = false
is_script (some ext) = str_eq ext extension

-- The clock is read twice: by `livereload_notify` and by `trigger_reload_files`.
unfoldable pub dmon_callback : World → ℕ → ℕ → Option Bytes → Process → Step
dmon_callback w noted now none p = (p, [])
dmon_callback w noted now (some filepath) p =
    let seen = record p { live = livereload_notify noted p.live } in
    if is_script (last_dot filepath)
    then trigger_reload_files w now (some filepath) seen
    else (seen, [])
