-- ===== src/Cli/Parse.antt =====
-- src/cli.c: `cli_parse` and the functions it calls. The arguments behind the one at `i` are a list;
-- an option that takes the next one gives back the rest.
use bialet.Prelude.Search.{find}
use bialet.Prelude.{
  peek, ◌==◌, str_eq, not, ◌||◌, if◌then◌else◌, ◌+◌, ◌++◌, drop, length, codes, List, Option, take,
  Bool, Bytes, ℕ, none, some, true, false, [], zero, suc,
}
use bialet.Cli.{
  spec, long_to_id, set_option, cli_error, short_to_id, ◌∷◌, Takes, Env, OptId, Settings, nothing,
  required, optional, serve,
}

-- The settings, and the arguments that are left.
abbrev pub Taken : Type 0
Taken = Settings × List Bytes

abbrev pub is_serve : Settings → Bool
is_serve s = elim s.action [ serve ↦ true | _ ↦ false ]

abbrev pub set_root : Bytes → Settings → Settings
set_root arg s = if s.root_set then s else record s { root_dir = arg; root_set = true }

unfoldable pub handle_positional : Bytes → Settings → Settings
handle_positional arg s =
    if str_eq arg (codes "dev") then record s { dev_mode = true } else set_root arg s

-- An option with an argument, whose value is the next argument; `text` is for the message.
unfoldable pub take_next : Env → OptId → Bytes → List Bytes → Settings → Taken
take_next env id text [] s = (cli_error (codes "Option requires an argument: " ++ text) s, [])
take_next env id text (value ∷ rest) s = (set_option env id (some value) s, rest)

-- An optional value is the next argument if this is no option.
unfoldable pub take_optional : Env → OptId → List Bytes → Settings → Taken
take_optional env id [] s = (set_option env id none s, [])
take_optional env id (value ∷ rest) s =
    if not (peek value == b'-')
    then (set_option env id (some value) s, rest)
    else (set_option env id none s, value ∷ rest)

-- The text behind the letter is the value, if there is any.
unfoldable pub short_value : Env → OptId → Takes → Bytes → Bytes → List Bytes → Settings → Taken
short_value env id takes arg (c ∷ value) rest s = (set_option env id (some (c ∷ value)) s, rest)
short_value env id optional arg [] rest s = take_optional env id rest s
short_value env id _ arg [] rest s = take_next env id arg rest s

-- The loop, from the letters on.
unfoldable pub parse_short_options : Env → Bytes → Bytes → List Bytes → Settings → Taken
parse_short_options env arg [] rest s = (s, rest)
parse_short_options env arg (c ∷ letters) rest s = elim (short_to_id c) [
  | none ↦ (cli_error (codes "Invalid parameter: -" ++ (c ∷ [])) s, rest)
  | some id ↦ elim (spec id).takes_arg [
    | nothing ↦
        let t = set_option env id none s in
        let more = parse_short_options env arg letters rest t in
        if is_serve t then more else (t, rest)
    | required ↦ short_value env id required arg letters rest s
    | optional ↦ short_value env id optional arg letters rest s
  ]
]

-- `snprintf(buf, 64, "--%s", …)`.
abbrev pub long_text : OptId → Bytes
long_text id = take 63 (codes "--" ++ (spec id).long_name)

-- The value behind `=`, or none.
unfoldable pub long_value :
    Env → OptId → Takes → Bytes → Option Bytes → List Bytes → Settings → Taken
long_value env id nothing arg (some value) rest s =
    (cli_error (codes "Option does not take an argument: " ++ arg) s, rest)
long_value env id nothing arg none rest s = (set_option env id none s, rest)
long_value env id _ arg (some value) rest s = (set_option env id (some value) s, rest)
long_value env id required arg none rest s = take_next env id (long_text id) rest s
long_value env id optional arg none rest s = take_optional env id rest s

-- The name in front of the first `=`, and the text behind it.
unfoldable pub split_value : Bytes → Bytes × Option Bytes
split_value name = elim (find (b'=' ∷ []) name) [
  | none ↦ (name, none)
  | some k ↦ (take k name, some (drop (k + 1) name))
]

-- An unknown option that names a path is served.
unfoldable pub unknown_option : Env → Bytes → Settings → Settings
unknown_option env arg s =
    if env.path_exists arg then set_root arg s else cli_error (codes "Invalid parameter: " ++ arg) s

unfoldable pub parse_long_option : Env → Bytes → List Bytes → Settings → Taken
parse_long_option env arg rest s =
    let (name, value) = split_value (drop 2 arg) in
    elim (long_to_id name) [
      | none ↦ (unknown_option env arg s, rest)
      | some id ↦ long_value env id (spec id).takes_arg arg value rest s
    ]

-- What an argument is.
pub data Shape : Type 0 where
  positional end_of_options long short : Shape

-- `--` alone, or in front of a name.
abbrev pub dashes : Bytes → Shape
dashes [] = end_of_options
dashes (c ∷ more) = long

unfoldable pub shape_of : Bool → Bytes → Shape
shape_of positional_only [] = positional
shape_of positional_only (c ∷ []) = positional
shape_of positional_only (c ∷ (d ∷ more)) =
    if positional_only || not (c == b'-')
    then positional
    else if not (d == b'-')
    then short
    else dashes more

-- A round: the settings, the arguments left, and `positional_only`.
unfoldable pub round : Env → Bool → Shape → Bytes → List Bytes → Settings → Taken × Bool
round env only positional arg rest s = ((handle_positional arg s, rest), only)
round env only end_of_options arg rest s = ((s, rest), true)
round env only long arg rest s = (parse_long_option env arg rest s, only)
round env only short arg rest s = (parse_short_options env arg (drop 1 arg) rest s, only)

-- The loop; `none` where the fuel is not enough.
unfoldable pub parse_loop : ℕ → Env → Bool → List Bytes → Settings → Option Settings
parse_loop fuel env only [] s = some s
parse_loop zero env only (arg ∷ rest) s = none
parse_loop (suc fuel) env only (arg ∷ rest) s =
    let ((t, left), next_only) = round env only (shape_of only arg) arg rest s in
    let more = parse_loop fuel env next_only left t in if is_serve t then more else some t

-- `memset(opts, 0, …)`, over the settings of `config`.
abbrev pub cleared : Settings → Settings
cleared s = record s {
  action = serve;
  run_code = none;
  validate_file = none;
  test_dir = none;
  run_tests = false;
  dev_mode = false;
  error = [];
  root_set = false;
}

-- `cli_parse` on the arguments behind the program's name.
unfoldable pub cli_parse : Env → List Bytes → Settings → Option Settings
cli_parse env args s = parse_loop (length args) env false args (cleared s)
