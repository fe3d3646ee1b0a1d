-- ===== src/Tests/Runs.antt =====
-- Runs of a script and imports.
use bialet.Prelude.Search.{find}
use bialet.Utils.Path.{open_fd_no_follow, open_file_no_follow, fitting, realpath_n}
use mathlib.Core.Path.{subst}
use bialet.Run.Failures.{bialet_run-Shows, bialet_run-loses_error}
use bialet.ShowErrors.Page.{Shows}
use bialet.Modules.Cached.{Import, imports, bialet_wren_load_module-cached}
use bialet.Server.Root.{is_within_root, resolve_within_root, NoNul}
use mathlib.Core.List.{cons-ne-nil}
use bialet.Modules.Contained.{Reads-Contained, Contained}
use bialet.Modules.{
  lookup, fetched, first_part, skip_delim, strtok, read_contained, branch_of, last_separator,
  github_url, module_dir, module_path, remote_url, load_local, load_remote, bialet_wren_load_module,
  Remote,
}
use bialet.World.{HttpMessage, World}
use bialet.ShowErrors.{captured_text, show_errors_clear, ShowErrors}
use bialet.Server.Response.{Response}
use bialet.Prelude.{
  List, starts_with, arith, some_inj, Bool-cases, ◌+◌, str_eq, if◌then◌else◌, ◌≢◌, ◌≡◌, codes,
  Bytes, ℕ, none, some, true, false, [], refl, inl, inr, ◌∷◌,
}
use bialet.Run.{
  page_response, lacks_body, StoredFile, Script, take_body, bialet_run, ok_response, init_error,
  answer, no_row, other_value,
}
use bialet.Uploads.Save.{Database, not_prepared}

abbrev request : HttpMessage
request = record {
  message = codes "GET / HTTP/1.1\r\n\r\n";
  method = codes "GET";
  uri = codes "/";
  routes = [];
}

abbrev no_rows : Database
no_rows sent u = not_prepared

abbrev plain_page : ℕ → Response
plain_page n = record ok_response { status = n }

-- A handler that serves a stored file, whose row is gone.
abbrev file_script : Script
file_script = record {
  init_request = λ m r f. true;
  interpret = true;
  value = other_value;
  out = answer (26 ∷ codes "7");
  status = answer 200;
  headers = answer (codes "Content-Type: image/png\r\n");
  use_error_fallback = false;
  reported = λ e. e;
}

missing : Bytes → StoredFile
missing id = no_row

abbrev quiet_errors : ShowErrors
quiet_errors = record { enabled = false; captured = none; captured_cap = 0 }

init_error-request : init_error 1000 no_rows file_script (some request) ≡ false
unfolding init_error
init_error-request = refl

take_body-missing : (take_body missing file_script).1 ≡ true
unfolding take_body missing
take_body-missing = refl

bialet_run-loses_error_test :
    (bialet_run plain_page 1000 no_rows missing quiet_errors file_script (some request)
      ≡ record (take_body missing file_script).0 {
        status = 200;
        header = some (codes "Content-Type: image/png\r\n");
        header_owned = true;
      })
    × (lacks_body (take_body missing file_script).0.body ≡ true)
bialet_run-loses_error_test =
    bialet_run-loses_error plain_page 1000 no_rows missing quiet_errors file_script request 200
      (codes "Content-Type: image/png\r\n") init_error-request refl take_body-missing refl refl refl

-- A script that does not compile, with the flag set.
abbrev broken_script : Script
broken_script = record file_script {
  interpret = false;
  reported = λ e. record e { captured = some (codes "Compilation Error: main line 1: x\n") };
}

abbrev shown_errors : ShowErrors
shown_errors = record { enabled = true; captured = none; captured_cap = 0 }

shown_errors-enabled : (broken_script.reported (show_errors_clear shown_errors)).enabled ≡ true
unfolding show_errors_clear
shown_errors-enabled = refl

captured_text-broken : captured_text (broken_script.reported (show_errors_clear shown_errors)) ≢ []
captured_text-broken = cons-ne-nil _ _

bialet_run-Shows_test :
    (page : Bytes) × (bialet_run plain_page 1000 no_rows missing shown_errors broken_script
        (some request)
      ≡ page_response page)
    × Shows page (captured_text (broken_script.reported (show_errors_clear shown_errors)))
bialet_run-Shows_test =
    bialet_run-Shows plain_page 1000 no_rows missing shown_errors broken_script request
      (inr (inl refl)) shown_errors-enabled captured_text-broken

-- A world with one module in the root.
abbrev pub one_module : World
one_module = record {
  stat = λ p. none;
  lstat = λ p. none;
  realpath = λ p.
      if str_eq p (codes "/srv/app/lib/a.wren") then some (codes "/srv/app/lib/a.wren") else none;
  open_root = some 3;
  openat = λ fd name. some (fd + 1);
  read_all = λ fd. some (codes "class A {}");
  bialet_run = λ path source hm. ok_response;
}

abbrev pub offline : Remote
offline = record {
  prepares_select = true;
  inserts = true;
  fetch = λ url. record { status = 0; error = true; body = none };
}

abbrev online : Remote
online = record offline { fetch = λ url. record { status = 200; error = false; body = some url } }

import_local :
    (bialet_wren_load_module one_module offline
      (codes "/srv/app")
      (some (codes "/srv/app/lib/b.wren"))
      (codes "a")
      []).0
    ≡ some (codes "class A {}")
unfolding bialet_wren_load_module load_local module_path module_dir last_separator read_contained
    realpath_n fitting resolve_within_root is_within_root open_file_no_follow open_fd_no_follow find
    starts_with str_eq
import_local = refl

one_module-realpath : (p r : Bytes) → one_module.realpath p ≡ some r → NoNul r
one_module-realpath p r h = elim (Bool-cases (str_eq p (codes "/srv/app/lib/a.wren"))) [
  | inl e ↦
      let same : codes "/srv/app/lib/a.wren" ≡ r = some_inj (rw e at h) in
      subst NoNul same (omega arith)
  | inr e ↦ absurd (cc (rw e at h))
]

Reads-Contained_example : Contained one_module (codes "/srv/app") (codes "class A {}")
unfolding find starts_with
Reads-Contained_example =
    Reads-Contained one_module one_module-realpath offline (codes "/srv/app")
      (some (codes "/srv/app/lib/b.wren")) (codes "a") [] (codes "class A {}")
      (inr (refl, import_local))

abbrev pub gh_name : Bytes
gh_name = codes "gh:user/repo/dir/file@v1"

abbrev gh_url : Bytes
gh_url = codes "https://raw.githubusercontent.com/user/repo/refs/heads/v1/dir/file.wren"

import_remote :
    (bialet_wren_load_module one_module online (codes "/srv/app") none gh_name []).0 ≡ some gh_url
unfolding bialet_wren_load_module load_remote remote_url github_url branch_of strtok skip_delim
    first_part fetched lookup find starts_with
import_remote = refl

-- In between another module is fetched, and one that the network does not have.
abbrev others : List Import
others =
    record { world = one_module; remote = online; caller = none; name = codes "gh:user/repo/other" }
    ∷ (record {
      world = one_module;
      remote = offline;
      caller = none;
      name = codes "gh:user/repo/none";
    }
        ∷ [])

bialet_wren_load_module-cached_example :
    let after =
      imports
        (codes "/srv/app")
        others
        (bialet_wren_load_module one_module online (codes "/srv/app") none gh_name []).1 in
    bialet_wren_load_module one_module offline
      (codes "/srv/app")
      (some (codes "/srv/app/b.wren"))
      gh_name
      after
    ≡ (some gh_url, after)
unfolding find starts_with
bialet_wren_load_module-cached_example =
    bialet_wren_load_module-cached one_module one_module online offline (codes "/srv/app") gh_name
      gh_url none (some (codes "/srv/app/b.wren")) [] others 2 refl refl refl refl import_remote
