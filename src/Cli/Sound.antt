-- ===== src/Cli/Sound.antt =====
-- What holds of the settings after every option.
use mathlib.Core.List.{cons-ne-nil}
use bialet.Cli.Parse.{set_root, handle_positional}
use bialet.Prelude.{
  ltb, ◌==◌, ◌≢◌, ◌||◌, length, length-take, if◌then◌else◌, Option, codes, arith, ◌≤◌, ◌≡◌, str_eq,
  ◌∷◌, Bool, Bytes, ℕ, none, some, true, false, [], refl,
}
use bialet.Cli.{
  long_of, text_of, refused, OptId, CliAction, set_log, set_max_post, set_port, Env, cli_error,
  Settings, set_option, invalid,
}
use bialet.Cli.{
  port, host, help, run, validate, tests, version, log, db, wal, ignore, mem_soft, mem_hard,
  cpu_soft, cpu_hard, max_post, quiet,
}

-- The port is one, the message fits its buffer with a NUL, and there is one for an invalid line.
pub record Sound (config_port : ℕ) (error : Bytes) (action : CliAction) : Type 0 where
  pub port_fits : config_port ≤ 65535
  pub error_fits : length error ≤ 255
  pub explained : action ≡ invalid → error ≢ []

abbrev pub IsSound : Settings → Type 0
IsSound s = Sound s.config_port s.error s.action

pub if-IsSound :
    (b : Bool) (x y : Settings)
    → (b ≡ true → IsSound x)
    → (b ≡ false → IsSound y)
    → IsSound (if b then x else y)
if-IsSound true x y f g = f refl
if-IsSound false x y f g = g refl

pub cli_error-IsSound :
    (c : ℕ) (text : Bytes) (s : Settings) → IsSound s → IsSound (cli_error (c ∷ text) s)
unfolding cli_error
cli_error-IsSound c text s g = record {
  port_fits = g.port_fits;
  error_fits = omega (arith, length-take 255 (c ∷ text));
  explained = λ e. cons-ne-nil _ _;
}

set_port-IsSound : (value : Bytes) (s : Settings) → IsSound s → IsSound (set_port value s)
set_port-IsSound value s g =
    if-IsSound (refused (long_of value) || ltb 65535 (long_of value).1) _ _
      (λ e. cli_error-IsSound _ _ s g)
      (λ e. record { port_fits = ground arith; error_fits = g.error_fits; explained = g.explained })

set_log-IsSound :
    (env : Env) (value : Bytes) (s : Settings) → IsSound s → IsSound (set_log env value s)
set_log-IsSound env value s g =
    if-IsSound (env.opens value) _ _ (λ e. g) (λ e. cli_error-IsSound _ _ s g)

set_max_post-IsSound : (value : Bytes) (s : Settings) → IsSound s → IsSound (set_max_post value s)
set_max_post-IsSound value s g =
    if-IsSound (refused (long_of value) || (long_of value).1 == 0) _ _
      (λ e. cli_error-IsSound _ _ s g) (λ e. g)

pub set_option-IsSound :
    (env : Env) (id : OptId) (value : Option Bytes) (s : Settings)
    → IsSound s
    → IsSound (set_option env id value s)
unfolding set_option
set_option-IsSound env port value s g = set_port-IsSound (text_of value) s g
set_option-IsSound env host value s g = g
set_option-IsSound env help value s g = record {
  port_fits = g.port_fits;
  error_fits = g.error_fits;
  explained = λ e. absurd cc;
}
set_option-IsSound env run value s g = g
set_option-IsSound env validate value s g = g
set_option-IsSound env tests none s g = g
set_option-IsSound env tests (some v) s g = g
set_option-IsSound env version value s g = record {
  port_fits = g.port_fits;
  error_fits = g.error_fits;
  explained = λ e. absurd cc;
}
set_option-IsSound env log value s g = set_log-IsSound env (text_of value) s g
set_option-IsSound env db value s g = g
set_option-IsSound env wal value s g = g
set_option-IsSound env ignore value s g = g
set_option-IsSound env mem_soft value s g =
    if-IsSound (refused (long_of (text_of value))) _ _ (λ e. cli_error-IsSound _ _ s g) (λ e. g)
set_option-IsSound env mem_hard value s g =
    if-IsSound (refused (long_of (text_of value))) _ _ (λ e. cli_error-IsSound _ _ s g) (λ e. g)
set_option-IsSound env cpu_soft value s g =
    if-IsSound (refused (long_of (text_of value))) _ _ (λ e. cli_error-IsSound _ _ s g) (λ e. g)
set_option-IsSound env cpu_hard value s g =
    if-IsSound (refused (long_of (text_of value))) _ _ (λ e. cli_error-IsSound _ _ s g) (λ e. g)
set_option-IsSound env max_post value s g = set_max_post-IsSound (text_of value) s g
set_option-IsSound env quiet value s g = g

pub set_root-IsSound : (arg : Bytes) (s : Settings) → IsSound s → IsSound (set_root arg s)
set_root-IsSound arg s g = if-IsSound s.root_set _ _ (λ e. g) (λ e. g)

pub handle_positional-IsSound :
    (arg : Bytes) (s : Settings) → IsSound s → IsSound (handle_positional arg s)
unfolding handle_positional
handle_positional-IsSound arg s g =
    if-IsSound (str_eq arg (codes "dev")) _ _ (λ e. g) (λ e. set_root-IsSound arg s g)
