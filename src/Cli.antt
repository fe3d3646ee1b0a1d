-- ===== src/Cli.antt =====
-- src/cli.c: the command line. A state is what the parser has filled in so far.
pub mod Parse
pub mod Spellings
pub mod Sound
pub mod Totality
use Prim.Native.Nat.{min}
use bialet.Utils.Strtol.{strtol}
use bialet.Prelude.{
  ◌-◌, ◌&&◌, ◌*◌, ltb, ◌++◌, ◌||◌, length, ◌^◌, ◌==◌, if◌then◌else◌, not, ◌%◌, str_eq, ◌∷◌, take,
  List, codes, Bytes, Option, Bool, ℕ, none, some, true, false, [], zero, suc, ◌>>=◌,
}

pub data OptId : Type 0 where
  port host help run validate tests version log db wal ignore : OptId
  mem_soft mem_hard cpu_soft cpu_hard max_post quiet : OptId

-- 0, 1 and 2 of `takes_arg`.
pub data Takes : Type 0 where
  nothing required optional : Takes

pub record OptSpec : Type 0 where
  pub id : OptId
  pub long_name : Bytes
  pub short_name : ℕ
  pub takes_arg : Takes

abbrev pub spec : OptId → OptSpec
spec port = record { id = port; long_name = codes "port"; short_name = b'p'; takes_arg = required }
spec host = record { id = host; long_name = codes "host"; short_name = b'h'; takes_arg = required }
spec help = record { id = help; long_name = codes "help"; short_name = b'H'; takes_arg = nothing }
spec run = record { id = run; long_name = codes "run"; short_name = b'r'; takes_arg = required }
spec validate = record {
  id = validate;
  long_name = codes "validate";
  short_name = b't';
  takes_arg = required;
}
spec tests = record {
  id = tests;
  long_name = codes "tests";
  short_name = b'T';
  takes_arg = optional;
}
spec version = record {
  id = version;
  long_name = codes "version";
  short_name = b'v';
  takes_arg = nothing;
}
spec log = record { id = log; long_name = codes "log"; short_name = b'l'; takes_arg = required }
spec db = record { id = db; long_name = codes "db"; short_name = b'd'; takes_arg = required }
spec wal = record { id = wal; long_name = codes "wal"; short_name = b'w'; takes_arg = nothing }
spec ignore = record {
  id = ignore;
  long_name = codes "ignore";
  short_name = b'i';
  takes_arg = required;
}
spec mem_soft = record {
  id = mem_soft;
  long_name = codes "mem-soft";
  short_name = b'm';
  takes_arg = required;
}
spec mem_hard = record {
  id = mem_hard;
  long_name = codes "mem-hard";
  short_name = b'M';
  takes_arg = required;
}
spec cpu_soft = record {
  id = cpu_soft;
  long_name = codes "cpu-soft";
  short_name = b'c';
  takes_arg = required;
}
spec cpu_hard = record {
  id = cpu_hard;
  long_name = codes "cpu-hard";
  short_name = b'C';
  takes_arg = required;
}
spec max_post = record {
  id = max_post;
  long_name = codes "max-post";
  short_name = b'b';
  takes_arg = required;
}
spec quiet = record {
  id = quiet;
  long_name = codes "quiet";
  short_name = b'q';
  takes_arg = nothing;
}

-- `cli_opts`, in its order.
abbrev pub cli_opts : List OptId
cli_opts =
    port ∷ host ∷ help ∷ run ∷ validate ∷ tests ∷ version ∷ log ∷ db ∷ wal ∷ ignore ∷ mem_soft
    ∷ mem_hard ∷ cpu_soft ∷ cpu_hard ∷ max_post ∷ quiet ∷ []

abbrev pub find_opt : (OptId → Bool) → List OptId → Option OptId
find_opt test [] = none
find_opt test (id ∷ more) = if test id then some id else find_opt test more

unfoldable pub short_to_id : ℕ → Option OptId
short_to_id c = find_opt (λ id. (spec id).short_name == c) cli_opts

unfoldable pub long_to_id : Bytes → Option OptId
long_to_id name = find_opt (λ id. str_eq (spec id).long_name name) cli_opts

pub data CliAction : Type 0 where
  serve show_help show_version invalid : CliAction

-- The fields of `BialetCliOptions`, the fields of `struct BialetConfig` that the parser sets, and
-- `root_set`. A limit is an `int`, given by its 32 bits; the log is the file that was opened last.
pub record Settings : Type 0 where
  pub action : CliAction
  pub run_code : Option Bytes
  pub validate_file : Option Bytes
  pub test_dir : Option Bytes
  pub run_tests : Bool
  pub dev_mode : Bool
  pub error : Bytes
  pub config_port : ℕ
  pub config_host : Bytes
  pub log_file : Option Bytes
  pub output_color : Bool
  pub db_path : Bytes
  pub wal_mode : Bool
  pub ignored_files : Bytes
  pub mem_soft_limit : ℕ
  pub mem_hard_limit : ℕ
  pub cpu_soft_limit : ℕ
  pub cpu_hard_limit : ℕ
  pub max_post_size : ℕ
  pub be_quiet : Bool
  pub root_dir : Bytes
  pub root_set : Bool

-- `fopen(value, "a")`, `strerror` of its failure, and whether `stat` finds a path.
pub record Env : Type 0 where
  pub opens : Bytes → Bool
  pub strerror : Bytes → Bytes
  pub path_exists : Bytes → Bool

unfoldable pub cli_error : Bytes → Settings → Settings
cli_error text s = record s { error = take 255 text; action = invalid }

-- `strtol(value, &endptr, 10)`: the sign, the number clamped to a `long`, and the text at `endptr`.
unfoldable pub long_of : Bytes → Bool × ℕ × Bytes
long_of value = elim (strtol value) [
  | none ↦ (false, 0, value)
  | some (negative, n, end) ↦ (negative, min n (if negative then 2 ^ 63 else 2 ^ 63 - 1), end)
]

-- `*endptr != '\0' || num < 0`, for a C string.
abbrev pub refused : Bool × ℕ × Bytes → Bool
refused (negative, n, end) = not (length end == 0) || (negative && not (n == 0))

-- The cast to `int`, by its 32 bits.
abbrev pub int_of : Bool × ℕ × Bytes → ℕ
int_of (negative, n, end) = n % 2 ^ 32

abbrev pub set_port : Bytes → Settings → Settings
set_port value s =
    let num = long_of value in
    if refused num || ltb 65535 num.1
    then cli_error (codes "Invalid port number: " ++ value) s
    else record s { config_port = int_of num }

abbrev pub set_log : Env → Bytes → Settings → Settings
set_log env value s =
    if env.opens value
    then record s { log_file = some value; output_color = false }
    else cli_error
        (codes "Error opening log file " ++ (value ++ (codes ": " ++ env.strerror value))) s

-- The four limits; the last argument puts the number into its field.
abbrev pub set_limit : Bytes → Bytes → (ℕ → Settings) → Settings → Settings
set_limit text value put s =
    let num = long_of value in if refused num then cli_error (text ++ value) s else put (int_of num)

abbrev pub set_max_post : Bytes → Settings → Settings
set_max_post value s =
    let num = long_of value in
    if refused num || num.1 == 0
    then cli_error
        (codes "Invalid max post size: " ++ (value ++ codes " (use kilobytes, e.g. 128)")) s
    else record s { max_post_size = num.1 * 1024 % 2 ^ 64 }

-- A missing value is NULL, which only `tests` and the options without a value are given.
abbrev pub text_of : Option Bytes → Bytes
text_of none = []
text_of (some v) = v

unfoldable pub set_option : Env → OptId → Option Bytes → Settings → Settings
set_option env port value s = set_port (text_of value) s
set_option env host value s = record s { config_host = text_of value }
set_option env help value s = record s { action = show_help }
set_option env run value s = record s { run_code = value }
set_option env validate value s = record s { validate_file = value }
set_option env tests none s = record s { run_tests = true }
set_option env tests (some v) s = record s { run_tests = true; test_dir = some v }
set_option env version value s = record s { action = show_version }
set_option env log value s = set_log env (text_of value) s
set_option env db value s = record s { db_path = text_of value }
set_option env wal value s = record s { wal_mode = true }
set_option env ignore value s = record s { ignored_files = text_of value }
set_option env mem_soft value s =
    set_limit (codes "Invalid memory limit: ") (text_of value)
      (λ n. record s { mem_soft_limit = n }) s
set_option env mem_hard value s =
    set_limit (codes "Invalid memory limit: ") (text_of value)
      (λ n. record s { mem_hard_limit = n }) s
set_option env cpu_soft value s =
    set_limit (codes "Invalid CPU limit: ") (text_of value) (λ n. record s { cpu_soft_limit = n }) s
set_option env cpu_hard value s =
    set_limit (codes "Invalid CPU limit: ") (text_of value) (λ n. record s { cpu_hard_limit = n }) s
set_option env max_post value s = set_max_post (text_of value) s
set_option env quiet value s = record s { be_quiet = true; output_color = false }
