-- ===== src/Modules/Downloads.antt =====
-- src/bialet_wren.c: the request that bialet_wren_load_module makes of src/http_call.c.
use bialet.HttpCall.Request.{HttpRequest}
use bialet.HttpCall.Transfer.{
  HttpResult, Curl, Options, Transfer, http_call_perform, options, max_http_response_size,
}
use bialet.HttpCall.Transfer.Complete.{
  Obeys, delivered_body, http_call_perform-Complete, http_call_perform-no_error,
}
use bialet.Modules.{
  Fetched, Remote, Table, bialet_wren_load_module, cached, fetched, is_success, load_remote, lookup,
  remote_url,
}
use bialet.Prelude.Search.{find}
use bialet.World.{World}
use bialet.Prelude.{
  some_inj, All, All-append, Bool-cases, Option-cases, Bytes, Option, c_string, codes, length, not,
  str_eq, str_eq_iff, ◌==◌, ◌≡◌, ◌≤◌, ◌<◌, ◌∷◌, ◌∙◌, sym, arith, ℕ, [], none, some, true, inl, inr,
}

abbrev module_request : HttpRequest
module_request = record {
  raw_headers = some [];
  method = some (codes "GET");
  post_data = some [];
  basic_auth = some [];
}

abbrev module_options : Bytes → Options
module_options url = options url module_request 20000 2000

-- `memset(&resp, 0, sizeof(resp))`.
abbrev zeroed : HttpResult
zeroed = record { status = 0; error = 0; headers = none; body = none; error_message = none }

unfoldable pub fetch_module : Curl → Bytes → Fetched
unfolding http_call_perform
fetch_module curl url =
    let resp = http_call_perform curl url module_request 20000 2000 zeroed in
    record { status = resp.status; error = not (resp.error == 0); body = resp.body }

module _ (Served : Options → Transfer → Type 0) where
  -- The text is the whole body, as a C string and within the limit, of a transfer of this URL that
  -- succeeded.
  abbrev pub IsDownload : Bytes → Bytes → Type 0
  IsDownload url source =
      (t : Transfer) × Served (module_options url) t
      × (t.code ≡ 0)
      × (source ≡ c_string (delivered_body t.made))
      × (length (delivered_body t.made) ≤ max_http_response_size)
      × (200 ≤ t.http_code)
      × (t.http_code < 300)

  abbrev pub IsRow : Bytes × Bytes → Type 0
  IsRow (name, content) = (url : Bytes) × (remote_url name ≡ some url) × IsDownload url content

  abbrev pub IsSource : Bytes → Option Bytes → Type 0
  IsSource name none = Unit
  IsSource name (some source) = IsRow (name, source)

  lookup-IsSource :
      (name : Bytes) (table : Table) → All IsRow table → IsSource name (lookup name table)
  unfolding lookup
  lookup-IsSource name [] rows = tt
  lookup-IsSource name ((m, content) ∷ table) (row, rows) = elim (Bool-cases (str_eq m name)) [
    | inl e ↦ rw (e, ← (str_eq_iff m name).0 e) row
    | inr e ↦ rw e (lookup-IsSource name table rows)
  ]

  cached-IsSource :
      (r : Remote) (name : Bytes) (table : Table)
      → All IsRow table
      → IsSource name (cached r name table)
  cached-IsSource r name table rows = elim (Bool-cases r.prepares_select) [
    | inl e ↦ rw e (lookup-IsSource name table rows)
    | inr e ↦ rw e tt
  ]

  module _ (obeys : (o : Options) (t : Transfer) → Served o t → Obeys t) (curl : Curl)
      (served : (o : Options) → Served o (curl.perform o)) where
    fetch_module-IsDownload :
        (url source : Bytes)
        → is_success (fetch_module curl url) ≡ true
        → (fetch_module curl url).body ≡ some source
        → IsDownload url source
    unfolding fetch_module
    fetch_module-IsDownload url source ok body =
        let t = curl.perform (module_options url) in
        let o = obeys (module_options url) t (served (module_options url)) in
        let no_error : (http_call_perform curl url module_request 20000 2000 zeroed).error ≡ 0 =
          ground arith in
        let (init, memory, code) =
          http_call_perform-no_error curl url module_request 20000 2000 zeroed no_error in
        let (text, fits, _, _, status) =
          http_call_perform-Complete curl url module_request 20000 2000 zeroed o no_error in
        (
          t,
          served (module_options url),
          code,
          some_inj (sym body ∙ text),
          fits,
          ground (arith, status),
          ground (arith, status),
        )

    fetched-IsRow :
        (r : Remote) (name url : Bytes) (table : Table)
        → remote_url name ≡ some url
        → All IsRow table
        → IsSource name (fetched r name (fetch_module curl url) table).0
          × All IsRow (fetched r name (fetch_module curl url) table).1
    unfolding fetched
    fetched-IsRow r name url table e rows = elim (Bool-cases (is_success (fetch_module curl url))) [
      | inr refused ↦ rw refused (tt, rows)
      | inl ok ↦ elim (Option-cases (fetch_module curl url).body) [
        | inl empty ↦ rw (ok, empty) (tt, rows)
        | inr (source, body) ↦
            let row : IsRow (name, source) = (url, e, fetch_module-IsDownload url source ok body) in
            elim (Bool-cases r.inserts) [
              | inl inserts ↦ rw (ok, body, inserts) (row, All-append IsRow table _ rows (row, tt))
              | inr fails ↦ rw (ok, body, fails) (row, rows)
            ]
      ]
    ]

    load_remote-IsRow :
        (r : Remote) (name : Bytes) (table : Table)
        → All IsRow table
        → IsSource name (load_remote (record r { fetch = fetch_module curl }) name table).0
          × All IsRow (load_remote (record r { fetch = fetch_module curl }) name table).1
    unfolding load_remote fetched
    load_remote-IsRow r name table rows = elim (Option-cases (remote_url name)) [
      | inl e ↦ rw (e, load_remote) (tt, rows)
      | inr (url, e) ↦ elim (Option-cases (cached r name table)) [
        | inl miss ↦ rw (e, miss, load_remote) (fetched-IsRow r name url table e rows)
        | inr (content, hit) ↦
            rw (e, hit, load_remote) (rw hit at (cached-IsSource r name table rows), rows)
      ]
    ]

    -- With a libcurl that keeps to its documented use of the callbacks: where every row of the table
    -- holds, as a C string, the whole body of a transfer of the URL of its name that succeeded with a
    -- status of 2xx within 50 MB, this is so behind any import of a name with a colon, and it holds
    -- of the source that the import gives.
    pub bialet_wren_load_module-IsRow :
        (w : World) (r : Remote) (root name : Bytes) (caller : Option Bytes) (table : Table) (k : ℕ)
        → find (b':' ∷ []) name ≡ some k
        → All IsRow table
        → let loaded =
            bialet_wren_load_module w
              (record r { fetch = fetch_module curl })
              root
              caller
              name
              table in
          IsSource name loaded.0 × All IsRow loaded.1
    unfolding bialet_wren_load_module
    bialet_wren_load_module-IsRow w r root name caller table k colon rows =
        rw (colon, bialet_wren_load_module) (load_remote-IsRow r name table rows)
