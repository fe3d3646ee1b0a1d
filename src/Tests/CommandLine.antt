-- ===== src/Tests/CommandLine.antt =====
-- Command lines.
use bialet.Utils.Trim.{trim_start}
use bialet.Utils.Strtol.{read_digits, strtol}
use bialet.Cli.Parse.{
  take_next, short_value, parse_short_options, handle_positional, shape_of, round, parse_loop,
  cli_parse,
}
use bialet.Cli.Spellings.{option-Spelled, Spelled}
use bialet.Prelude.{str_eq, ◌≡◌, codes, Option, ℕ, none, some, true, false, [], refl, ◌∷◌}
use bialet.Cli.{short_to_id, long_of, Env, Settings, set_option, serve, port, max_post, mem_soft}

abbrev defaults : Settings
defaults = record {
  action = serve;
  run_code = none;
  validate_file = none;
  test_dir = none;
  run_tests = false;
  dev_mode = false;
  error = [];
  config_port = 7001;
  config_host = codes "127.0.0.1";
  log_file = none;
  output_color = true;
  db_path = codes "_db.sqlite3";
  wal_mode = false;
  ignored_files = codes "README*";
  mem_soft_limit = 128;
  mem_hard_limit = 256;
  cpu_soft_limit = 15;
  cpu_hard_limit = 30;
  max_post_size = 131072;
  be_quiet = false;
  root_dir = codes ".";
  root_set = false;
}

abbrev no_files : Env
no_files = record {
  opens = λ p. false;
  strerror = λ p. codes "No such file";
  path_exists = λ p. false;
}

option-Spelled_test : Spelled no_files port (codes "8080") (codes "dev" ∷ []) defaults
option-Spelled_test =
    option-Spelled no_files port b'8' (codes "080") (codes "dev" ∷ []) defaults refl

abbrev port_of : Option Settings → ℕ
port_of none = 0
port_of (some s) = s.config_port

cli_parse_port :
    port_of (
      cli_parse no_files
        (codes "dev" ∷ (codes "-wp" ∷ (codes "8080" ∷ (codes "site" ∷ []))))
        defaults)
    ≡ 8080
unfolding cli_parse parse_loop round shape_of handle_positional parse_short_options short_value
    short_to_id take_next set_option long_of strtol read_digits trim_start str_eq
cli_parse_port = refl

-- A number of kilobytes whose product wraps around to 0.
max_post_wraps :
    (set_option no_files max_post (some (codes "18014398509481984")) defaults).max_post_size ≡ 0
unfolding set_option long_of strtol read_digits trim_start
max_post_wraps = refl

-- A limit above the range of `int` becomes 0.
mem_soft_wraps :
    (set_option no_files mem_soft (some (codes "4294967296")) defaults).mem_soft_limit ≡ 0
unfolding set_option long_of strtol read_digits trim_start
mem_soft_wraps = refl
