-- ===== src/Tests/Downloads.antt =====
-- A module that the client fetches.
use bialet.Modules.Downloads.{bialet_wren_load_module-IsRow, fetch_module, IsRow, IsSource}
use bialet.HttpCall.Transfer.Complete.{Obeys}
use bialet.HttpCall.Transfer.{
  Curl, Transfer, body_call, write_callback, curl_calls, http_call_perform,
}
use bialet.Modules.{
  bialet_wren_load_module, load_remote, remote_url, github_url, branch_of, strtok, skip_delim,
  first_part, fetched, lookup,
}
use bialet.Tests.Runs.{one_module, offline, gh_name}
use bialet.Prelude.Search.{find}
use bialet.Prelude.{starts_with, c_string, All, ◌≡◌, refl, arith, codes, some, none, true, [], ◌∷◌}

-- A module that libcurl hands over in two calls.
abbrev module_transfer : Transfer
module_transfer = record {
  made = body_call true (codes "class ") ∷ (body_call true (codes "B {}") ∷ []);
  code = 0;
  http_code = 200;
}

abbrev module_curl : Curl
module_curl = record {
  init = true;
  has_memory = true;
  perform = λ o. module_transfer;
  strerror = λ code. [];
}

module_curl-Obeys : Obeys module_transfer
unfolding write_callback
module_curl-Obeys ok = (omega arith, refl, (omega arith, refl, tt))

bialet_wren_load_module-IsRow_example :
    let loaded =
      bialet_wren_load_module one_module
        (record offline { fetch = fetch_module module_curl })
        (codes "/srv/app")
        none
        gh_name
        [] in
    IsSource (λ o t. Obeys t) gh_name loaded.0 × All (IsRow (λ o t. Obeys t)) loaded.1
unfolding find starts_with
bialet_wren_load_module-IsRow_example =
    bialet_wren_load_module-IsRow (λ o t. Obeys t) (λ o t h. h) module_curl (λ o. module_curl-Obeys)
      one_module offline (codes "/srv/app") gh_name none [] 2 refl tt

import_downloaded :
    (bialet_wren_load_module one_module
      (record offline { fetch = fetch_module module_curl })
      (codes "/srv/app")
      none
      gh_name
      []).0
    ≡ some (codes "class B {}")
unfolding bialet_wren_load_module load_remote remote_url github_url branch_of strtok skip_delim
    first_part fetched fetch_module http_call_perform curl_calls write_callback c_string lookup find
    starts_with
import_downloaded = refl
