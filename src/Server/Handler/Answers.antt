-- ===== src/Server/Handler/Answers.antt =====
-- The answers of `handle_client`, from the socket to the bytes that are sent.
use bialet.Server.Reader.Stream.{arrived, Flows}
use bialet.Server.ContentLength.{accepted}
use bialet.Server.FindHeader.{content_length_name}
use bialet.Server.Request.{parse_request}
use bialet.Server.Reader.Whole.{receive_whole, request_head}
use bialet.Server.Framing.{block, FullLine}
use bialet.Server.FindHeader.Lines.{header_lines, header_lookup, NoCr}
use bialet.Server.Root.{NoNul}
use bialet.Server.Request.RequestLine.{request_line-NoCr, parse_request-line, request_line, IsToken}
use bialet.Server.Reader.{announced, room_size, buffer_size, Socket}
use bialet.Prelude.Search.{find-none, find}
use bialet.Utils.Path.{open_file_no_follow}
use mathlib.Core.Path.{subst}
use bialet.Server.Locate.Safe.{locate-forbidden, HasDots}
use bialet.Server.PrivatePath.{
  has_forbidden_uri_component, has_forbidden_uri_component_iff, HiddenComponent,
}
use bialet.Prelude.{
  append_assoc, some_inj, starts_with, >>=-eq-some, ℕ, ◌≤◌, ◌<◌, ◌≡◌, ◌≢◌, refl, sym, ap, ◌∙◌, ◌⊎◌,
  inl, inr, Bool, true, false, Option, none, some, List, ◌∷◌, ◌++◌, arith, Bytes, length, All, ◌==◌,
  codes, Bool-cases, Option-cases, str_eq, str_eq_iff,
}
use bialet.LiveReload.{LiveReload, livereload_try_handle}
use bialet.Server.CustomError.{
  html_response, exists, is_regular, error_page_path, read_page, run_page, read_resolved,
  run_resolved, checked, resolve, wren_answer, Config, with_length, with_header, wren_error,
  html_error, static_error, custom_error, or_else,
}
use bialet.Server.Handler.{answer, serve, respond, settled, sent, handle_client}
use bialet.Server.Response.{Response, write_response}
use bialet.World.{World, HttpMessage}

with_header-status : (h : Option Bytes) (r : Response) → (with_header h r).status ≡ r.status
with_header-status none r = refl
with_header-status (some h) r = refl

wren_answer-status : (a r : Response) → wren_answer a ≡ some r → r.status ≢ 0
unfolding wren_answer
wren_answer-status a r h =
    let b = with_length a.body a in
    elim (Bool-cases (b.status == 0)) [
      | inl z ↦ absurd (cc (rw z at h))
      | inr z ↦
          let same : with_header b.header b ≡ r = some_inj (rw z at h) in
          rw (← same, with_header-status b.header b) (ground arith)
    ]

wren_error-status :
    (w : World) (cfg : Config) (status : ℕ) (r : Response)
    → wren_error w cfg status ≡ some r
    → r.status ≢ 0
unfolding wren_error run_resolved run_page
wren_error-status w cfg status r h =
    let page = error_page_path cfg status (codes ".wren") in
    let (resolved, _, h₁) = >>=-eq-some (resolve w cfg page) (run_resolved w) h in
    let (file, _, h₂) =
      >>=-eq-some (checked (is_regular (w.stat resolved)) resolved) (run_page w) h₁ in
    let (source, _, h₃) =
      >>=-eq-some (open_file_no_follow w file) (λ s. wren_answer (w.bialet_run file s none)) h₂ in
    wren_answer-status (w.bialet_run file source none) r h₃

html_error-status :
    (w : World) (cfg : Config) (status : ℕ) (r : Response)
    → html_error w cfg status ≡ some r
    → r.status ≡ status
unfolding html_error read_resolved read_page
html_error-status w cfg status r h =
    let page = error_page_path cfg status (codes ".html") in
    let (resolved, _, h₁) = >>=-eq-some (resolve w cfg page) (read_resolved w status) h in
    let (file, _, h₂) =
      >>=-eq-some (checked (exists (w.stat resolved)) resolved) (read_page w status) h₁ in
    let (content, _, h₃) =
      >>=-eq-some (open_file_no_follow w file) (λ c. some (html_response status c)) h₂ in
    ap (λ (s : Response). s.status) (sym (some_inj h₃))

fallback-status :
    (w : World) (cfg : Config) (status : ℕ)
    → status ≢ 0
    → (or_else (html_error w cfg status) (static_error status)).status ≢ 0
unfolding static_error
fallback-status w cfg status h = elim (Option-cases (html_error w cfg status)) [
  | inl e ↦ rw e h
  | inr (r, e) ↦ rw (e, html_error-status w cfg status r e) h
]

-- An error page always has a status: the one asked for, or one that the application's own page
-- sets.
pub custom_error-status :
    (w : World) (cfg : Config) (recursing : Bool) (status : ℕ)
    → status ≢ 0
    → (custom_error w cfg recursing status).status ≢ 0
unfolding custom_error
custom_error-status w cfg true status h = fallback-status w cfg status h
custom_error-status w cfg false status h = elim (Option-cases (wren_error w cfg status)) [
  | inl e ↦ rw e (fallback-status w cfg status h)
  | inr (r, e) ↦ rw e (wren_error-status w cfg status r e)
]

-- No response goes out without a status.
pub settled-status : (w : World) (cfg : Config) (r : Response) → (settled w cfg r).status ≢ 0
unfolding settled
settled-status w cfg r = elim (Bool-cases (r.status == 0)) [
  | inl z ↦ rw z (custom_error-status w cfg false 404 (omega arith))
  | inr z ↦ rw z (ground arith)
]

settled-of_status : (w : World) (cfg : Config) (r : Response) → r.status ≢ 0 → settled w cfg r ≡ r
unfolding settled
settled-of_status w cfg r h = let z : (r.status == 0) ≡ false = ground arith in rw z

hidden_favicon : has_forbidden_uri_component (codes "/favicon.ico") ≡ false
unfolding has_forbidden_uri_component
hidden_favicon = refl

dots_favicon : find (codes "..") (codes "/favicon.ico") ≡ none
unfolding find starts_with
dots_favicon = refl

-- The favicon's URI is none that is refused.
favicon_plain : ¬ (HiddenComponent (codes "/favicon.ico") ⊎ HasDots (codes "/favicon.ico"))
favicon_plain (inl c) = absurd (cc ((has_forbidden_uri_component_iff _).1 c, hidden_favicon))
favicon_plain (inr (j, d)) = absurd (cc (find-none _ _ _ dots_favicon j))

favicon_not_refused :
    (uri : Bytes) → HiddenComponent uri ⊎ HasDots uri → str_eq (codes "/favicon.ico") uri ≡ false
favicon_not_refused uri h = elim (Bool-cases (str_eq (codes "/favicon.ico") uri)) [
  | inr e ↦ e
  | inl e ↦
      let same = sym ((str_eq_iff (codes "/favicon.ico") uri).0 e) in
      absurd (favicon_plain (subst (λ u. HiddenComponent u ⊎ HasDots u) same h))
]

request_line-parsed :
    (method uri version : Bytes) (ls : List Bytes) (body : Bytes)
    → IsToken method
    → IsToken uri
    → NoNul version
    → NoCr version
    → length (request_line method uri version) < buffer_size
    → (parse_request (request_head (request_line method uri version) ls ++ body)).uri ≡ uri
unfolding block
request_line-parsed method uri version ls body hm hu hn hc short =
    let line = request_line method uri version in
    rw (append_assoc line (13 ∷ (10 ∷ header_lines ls)) body) (
      ap (λ (m : HttpMessage). m.uri)
        (parse_request-line method uri version (header_lines ls ++ body) hm hu hn hc short))

respond-forbidden :
    (w : World) (cfg : Config) (l : LiveReload) (hm : HttpMessage)
    → HiddenComponent hm.uri ⊎ HasDots hm.uri
    → livereload_try_handle l hm.uri ≡ none
    → respond w cfg l hm ≡ answer (custom_error w cfg false 403)
unfolding respond serve
respond-forbidden w cfg l hm h poll =
    rw (favicon_not_refused hm.uri h, poll, locate-forbidden w cfg hm h) refl

sent-custom_error :
    (w : World) (cfg : Config) (icon : Bytes) (status : ℕ)
    → status ≢ 0
    → sent w cfg icon (answer (custom_error w cfg false status))
      ≡ some (write_response (custom_error w cfg false status))
unfolding sent
sent-custom_error w cfg icon status h =
    ap (λ r. some (write_response r))
      (settled-of_status w cfg _ (custom_error-status w cfg false status h))

-- A request for a private URI, that is well formed and arrives whole, is answered by the 403 page
-- and by nothing else, whatever the file system holds and however the request is cut into
-- segments: the URI has a component that begins with `_` or `.`, or holds `..`, and is not the
-- poll of live reloading.
pub handle_client-forbidden :
    (w : World) (cfg : Config) (l : LiveReload) (icon : Bytes) (method uri version : Bytes)
    (ls : List Bytes) (body : Bytes) (socket : Socket)
    → IsToken method
    → IsToken uri
    → NoNul version
    → NoCr version
    → All FullLine ls
    → length (request_line method uri version) < buffer_size
    → length (request_head (request_line method uri version) ls) ≤ room_size
    → announced cfg.max_post_size (header_lookup content_length_name ls) ≡ accepted (length body)
    → Flows socket
    → arrived socket ≡ request_head (request_line method uri version) ls ++ body
    → HiddenComponent uri ⊎ HasDots uri
    → livereload_try_handle l uri ≡ none
    → handle_client w cfg l icon socket ≡ some (write_response (custom_error w cfg false 403))
unfolding handle_client
handle_client-forbidden w cfg l icon method uri version ls body socket hm hu hn hc hs short fits ann
      f e private_uri poll =
    let line = request_line method uri version in
    let hl = request_line-NoCr method uri version hm hu hc in
    let hm' = parse_request (request_head line ls ++ body) in
    let named : hm'.uri ≡ uri = request_line-parsed method uri version ls body hm hu hn hc short in
    rw (receive_whole line ls body cfg.max_post_size socket hl hs fits ann f e) (
      ap (sent w cfg icon) (
        respond-forbidden w cfg l hm'
          (subst (λ u. HiddenComponent u ⊎ HasDots u) (sym named) private_uri) (rw named poll))
      ∙ sent-custom_error w cfg icon 403 (omega arith))
