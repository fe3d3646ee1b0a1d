-- ===== src/ShowErrors/Page.antt =====
-- The page of a run, and what a reader sees on it.
use bialet.ShowErrors.Log.{Fits, calls-recorded, recorded, calls, volume, Call, AreShort}
use bialet.ShowErrors.Escape.{html_escape-escaped}
use bialet.Html.{unescape-escaped, escaped-IsInert, unescape, IsInert, escaped}
use bialet.ShowErrors.{page_tail, page_head, captured_text, show_errors_page, ShowErrors}
use bialet.Prelude.{
  ◌^◌, ◌<◌, ◌+◌, true, ◌⊎◌, List, Option, refl, none, inl, inr, [], arith, false, ◌==◌, All, length,
  ◌++◌, some, ◌∷◌, ◌≡◌, Bytes, ℕ,
}

-- The text of the page between its two fixed parts.
pub record Shows (page text : Bytes) : Type 0 where
  pub written : Bytes
  pub shape : page ≡ page_head ++ (written ++ page_tail)
  pub inert : All IsInert written
  pub reads_back : unescape written ≡ text

show_errors_page-some :
    (s : ShowErrors) (c : ℕ) (text : Bytes)
    → captured_text s ≡ c ∷ text
    → show_errors_page s ≡ some (page_head ++ (escaped (c ∷ text) ++ page_tail))
unfolding show_errors_page
show_errors_page-some s c text e =
    let full : (length (c ∷ text) == 0) ≡ false = ground arith in
    rw (e, full, html_escape-escaped (c ∷ text)) refl

show_errors_page-none : (s : ShowErrors) → captured_text s ≡ [] → show_errors_page s ≡ none
unfolding show_errors_page
show_errors_page-none s e = rw e refl

-- No page for no text, else a page that shows the text.
abbrev pub PageOf : Option Bytes → Bytes → Type 0
PageOf page text =
    ((text ≡ []) × (page ≡ none)) ⊎ ((shown : Bytes) × (page ≡ some shown) × Shows shown text)

pub show_errors_page-PageOf :
    (s : ShowErrors) (text : Bytes) → captured_text s ≡ text → PageOf (show_errors_page s) text
show_errors_page-PageOf s [] e = inl (refl, show_errors_page-none s e)
show_errors_page-PageOf s (c ∷ text) e = inr (
  page_head ++ (escaped (c ∷ text) ++ page_tail),
  show_errors_page-some s c text e,
  record {
    written = escaped (c ∷ text);
    shape = refl;
    inert = escaped-IsInert (c ∷ text);
    reads_back = unescape-escaped (c ∷ text);
  },
)

-- After a run of calls with the flag set, whose lines are each shorter than 2 ^ 31 and together
-- shorter than 2 ^ 63, there is no
-- page where nothing was recorded since the last clearing, and else the page shows what was
-- recorded: what stands between its fixed parts holds no angle bracket or quotation mark, and a browser
-- reads the recorded text back from it.
pub calls-PageOf :
    (s : ShowErrors) (more : List Call)
    → s.enabled ≡ true
    → Fits s
    → AreShort more
    → length (captured_text s) + volume more < 2 ^ 63
    → (t : ShowErrors) × (calls s more ≡ some t)
      × PageOf (show_errors_page t) (recorded (captured_text s) more)
calls-PageOf s more on f short h =
    let a = calls-recorded s more on f short h in
    (a.state, a.result, show_errors_page-PageOf a.state (recorded (captured_text s) more) a.text_is)
