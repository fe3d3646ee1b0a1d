-- ===== src/Run/Failures.antt =====
-- Runs that fail, and a failure that is lost.
use bialet.ShowErrors.Page.{show_errors_page-PageOf, Shows}
use mathlib.Core.Path.{subst}
use bialet.World.{HttpMessage}
use bialet.ShowErrors.{captured_text, show_errors_clear, ShowErrors}
use bialet.Uploads.Save.{Database}
use bialet.Server.Response.{Response}
use bialet.Run.{
  not_prepared, no_row, found, bialet_file_char, found, out_body, file_body, value_body,
  ok_response, failed, wrong_type, answer, page_response, lacks_body, has_error_page, take_status,
  take_body, take_response, failure, settle, bialet_run, take_headers, Outcome, fall_back,
  init_error, Script, StoredFile, answer, Answer,
}
use bialet.Prelude.{
  drop, ◌==◌, peek, if◌then◌else◌, ◌∙◌, sym, [], refl, ◌≢◌, not, ◌&&◌, Bool-cases, ◌⊎◌, ◌≡◌, Bytes,
  Bool, ℕ, some, true, false, inl, inr,
}

-- Anything but a string for the headers.
abbrev pub is_answer {ℓ} : {A : Type ℓ} → Answer A → Bool
is_answer (answer a) = true
is_answer _ = false

module _ (custom : ℕ → Response) (max : ℕ) (insert : Database) (stored : Bytes → StoredFile)
    (errors : ShowErrors) (script : Script) (hm : HttpMessage) where
  -- The request cannot be set up, the code fails, or it gives no string for the headers.
  abbrev pub Fails : Type 0
  Fails =
      (init_error max insert script (some hm) ≡ true)
      ⊎ ((script.interpret ≡ false) ⊎ (is_answer script.headers ≡ false))

  abbrev pub at_end : ShowErrors
  at_end = script.reported (show_errors_clear errors)

  fall_back_error : (asked : Bool) (r : Response) → (fall_back custom asked (r, true)).1 ≡ true
  fall_back_error asked r = elim (Bool-cases (asked && has_error_page r.status)) [
    | inl e ↦ rw e refl
    | inr e ↦ rw e refl
  ]

  headers_error :
      (h : Answer Bytes) (o : Outcome) → is_answer h ≡ false → (take_headers (some hm) h o).1 ≡ true
  headers_error failed (r, e) n = refl
  headers_error wrong_type (r, e) n = refl
  headers_error (answer b) o n = absurd cc

  taken_error :
      is_answer script.headers ≡ false → (take_response custom stored script (some hm)).1 ≡ true
  unfolding take_response
  taken_error n =
      let before = take_status script.status (take_body stored script) in
      let o = take_headers (some hm) script.headers before in
      subst (λ e. (fall_back custom script.use_error_fallback (o.0, e)).1 ≡ true)
        (sym (headers_error script.headers before n))
        (fall_back_error script.use_error_fallback o.0)

  outcome : Outcome
  unfolding take_response
  outcome =
      if not (init_error max insert script (some hm)) && script.interpret
      then take_response custom stored script (some hm)
      else (ok_response, true)

  outcome_error : Fails → outcome.1 ≡ true
  unfolding outcome
  outcome_error (inl e) = rw e refl
  outcome_error (inr (inl e)) = elim (Bool-cases (init_error max insert script (some hm))) [
    | inl i ↦ rw i refl
    | inr i ↦ rw (i, e) refl
  ]
  outcome_error (inr (inr n)) =
      elim (Bool-cases (not (init_error max insert script (some hm)) && script.interpret)) [
        | inl e ↦ rw e (taken_error n)
        | inr e ↦ rw e refl
      ]

  settled :
      (o : Outcome)
      → o.1 ≡ true
      → settle custom at_end (some hm) o ≡ failure custom at_end (some hm)
  settled (r, error) e = rw e refl

  bialet_run-failure :
      Fails
      → bialet_run custom max insert stored errors script (some hm)
        ≡ failure custom at_end (some hm)
  unfolding bialet_run outcome
  bialet_run-failure f = settled outcome (outcome_error f)

  -- A run of a request that fails, with the flag set and an error captured, is answered by the page
  -- that shows the captured text, with status 500.
  pub bialet_run-Shows :
      Fails
      → at_end.enabled ≡ true
      → captured_text at_end ≢ []
      → (page : Bytes) × (bialet_run custom max insert stored errors script (some hm)
          ≡ page_response page)
        × Shows page (captured_text at_end)
  unfolding failure
  bialet_run-Shows f on full = elim (show_errors_page-PageOf at_end (captured_text at_end) refl) [
    | inl (empty, _) ↦ absurd (full empty)
    | inr (page, e, shows) ↦ (page, bialet_run-failure f ∙ rw (on, e) refl, shows)
  ]

  file_body_error :
      (f : StoredFile) (r : Response) → (file_body f r).1 ≡ true → (file_body f r).0 ≡ r
  file_body_error not_prepared r e = refl
  file_body_error no_row r e = refl
  file_body_error (found content) r e = absurd cc

  out_body_error :
      (o : Answer Bytes) (r : Response)
      → (out_body stored o r).1 ≡ true
      → (out_body stored o r).0 ≡ r
  out_body_error failed r e = refl
  out_body_error wrong_type r e = refl
  out_body_error (answer body) r e = elim (Bool-cases (not (peek body == bialet_file_char))) [
    | inl p ↦ let f : false ≡ true = rw p at e in absurd cc
    | inr p ↦ rw p (file_body_error (stored (drop 1 body)) r (rw p at e))
  ]

  take_body_error :
      (take_body stored script).1 ≡ true → lacks_body (take_body stored script).0.body ≡ true
  unfolding take_body
  take_body_error e = elim (Bool-cases (lacks_body (value_body script.value ok_response).body)) [
    | inl p ↦
        rw p (rw (out_body_error script.out (value_body script.value ok_response) (rw p at e)) p)
    | inr p ↦ let f : false ≡ true = rw p at e in absurd cc
  ]

  -- Code that runs, whose body cannot be got, since `Response.out` fails or its stored file is
  -- missing, but which gives a status and headers and asks for no page of the application in place of
  -- an error: the failure is forgotten, and the response goes out with that status and with no body or
  -- an empty one.
  pub bialet_run-loses_error :
      (n : ℕ) (h : Bytes)
      → init_error max insert script (some hm) ≡ false
      → script.interpret ≡ true
      → (take_body stored script).1 ≡ true
      → script.status ≡ answer n
      → script.headers ≡ answer h
      → script.use_error_fallback ≡ false
      → (bialet_run custom max insert stored errors script (some hm)
          ≡ record (take_body stored script).0 { status = n; header = some h; header_owned = true })
        × (lacks_body (take_body stored script).0.body ≡ true)
  unfolding bialet_run take_response
  bialet_run-loses_error n h i r e s a u = (rw (i, r, s, a, u) refl, take_body_error e)
