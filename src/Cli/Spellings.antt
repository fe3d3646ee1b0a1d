-- ===== src/Cli/Spellings.antt =====
-- The spellings of an option.
use bialet.Prelude.Search.{find}
use bialet.Cli.Parse.{
  long_value, split_value, parse_long_option, take_next, Taken, short_value, parse_short_options,
  shape_of, round,
}
use bialet.Prelude.{
  starts_with, str_eq, Bool, ◌≡◌, ◌++◌, List, ◌∷◌, codes, Option, Bytes, ℕ, some, false, [], refl,
}
use bialet.Cli.{long_to_id, set_option, short_to_id, spec, Settings, OptId, Env, required}
use bialet.Cli.{
  port, host, help, run, validate, tests, version, log, db, wal, ignore, mem_soft, mem_hard,
  cpu_soft, cpu_hard, max_post, quiet,
}

abbrev pub short_arg : OptId → Bytes → Bytes
short_arg id value = b'-' ∷ ((spec id).short_name ∷ value)

abbrev pub long_arg : OptId → Bytes → Bytes
long_arg id behind = codes "--" ++ ((spec id).long_name ++ behind)

-- One round of the loop at this argument.
abbrev pub at_arg : Env → Bytes → List Bytes → Settings → Taken × Bool
at_arg env arg rest s = round env false (shape_of false arg) arg rest s

-- What a round makes of an option and its value.
abbrev pub set_by : Env → OptId → Option Bytes → List Bytes → Settings → Taken × Bool
set_by env id value rest s = ((set_option env id value s, rest), false)

-- `-p 80`, `-p80`, `--port 80` and `--port=80`.
pub record Spelled (env : Env) (id : OptId) (value : Bytes) (rest : List Bytes) (s : Settings)
    : Type 0 where
  pub short_next : at_arg env (short_arg id []) (value ∷ rest) s ≡ set_by env id (some value) rest s
  pub short_attached : at_arg env (short_arg id value) rest s ≡ set_by env id (some value) rest s
  pub long_next : at_arg env (long_arg id []) (value ∷ rest) s ≡ set_by env id (some value) rest s
  pub long_equals :
      at_arg env (long_arg id (b'=' ∷ value)) rest s ≡ set_by env id (some value) rest s

spelled :
    (env : Env) (id : OptId) (c : ℕ) (more : Bytes) (rest : List Bytes) (s : Settings)
    → at_arg env (short_arg id []) ((c ∷ more) ∷ rest) s ≡ set_by env id (some (c ∷ more)) rest s
    → at_arg env (short_arg id (c ∷ more)) rest s ≡ set_by env id (some (c ∷ more)) rest s
    → at_arg env (long_arg id []) ((c ∷ more) ∷ rest) s ≡ set_by env id (some (c ∷ more)) rest s
    → at_arg env (long_arg id (b'=' ∷ (c ∷ more))) rest s ≡ set_by env id (some (c ∷ more)) rest s
    → Spelled env id (c ∷ more) rest s
spelled env id c more rest s a b d e = record {
  short_next = a;
  short_attached = b;
  long_next = d;
  long_equals = e;
}

-- An option with an argument does the same in its four spellings: it is set to the value, and the
-- parsing goes on behind. The value is not empty; an empty one cannot be attached to the letter.
pub option-Spelled :
    (env : Env) (id : OptId) (c : ℕ) (more : Bytes) (rest : List Bytes) (s : Settings)
    → (spec id).takes_arg ≡ required
    → Spelled env id (c ∷ more) rest s
unfolding round shape_of parse_short_options short_value short_to_id take_next parse_long_option
    split_value long_to_id long_value find str_eq starts_with
option-Spelled env port c more rest s h = spelled env port c more rest s refl refl refl refl
option-Spelled env host c more rest s h = spelled env host c more rest s refl refl refl refl
option-Spelled env help c more rest s h = absurd cc
option-Spelled env run c more rest s h = spelled env run c more rest s refl refl refl refl
option-Spelled env validate c more rest s h = spelled env validate c more rest s refl refl refl refl
option-Spelled env tests c more rest s h = absurd cc
option-Spelled env version c more rest s h = absurd cc
option-Spelled env log c more rest s h = spelled env log c more rest s refl refl refl refl
option-Spelled env db c more rest s h = spelled env db c more rest s refl refl refl refl
option-Spelled env wal c more rest s h = absurd cc
option-Spelled env ignore c more rest s h = spelled env ignore c more rest s refl refl refl refl
option-Spelled env mem_soft c more rest s h = spelled env mem_soft c more rest s refl refl refl refl
option-Spelled env mem_hard c more rest s h = spelled env mem_hard c more rest s refl refl refl refl
option-Spelled env cpu_soft c more rest s h = spelled env cpu_soft c more rest s refl refl refl refl
option-Spelled env cpu_hard c more rest s h = spelled env cpu_hard c more rest s refl refl refl refl
option-Spelled env max_post c more rest s h = spelled env max_post c more rest s refl refl refl refl
option-Spelled env quiet c more rest s h = absurd cc
