-- ===== src/ShowErrors.antt =====
-- src/show_errors.c: the errors of a run, captured as text, and the page that shows them. The
-- column that SQLite gives is a parameter; a failed allocation is not modelled. A text in memory is
-- far shorter than 2 ^ 63, so the sums of lengths do not wrap around.
pub mod Capacity
pub mod Log
pub mod Escape
pub mod Page
use bialet.Html.{is_special, entity}
use bialet.Server.Pages.{footer_page, header_page}
use bialet.Prelude.Decimal.{decimal}
use bialet.Prelude.{
  ◌^◌, true, zero, ◌%◌, ◌&&◌, suc, not, ◌==◌, ltb, ◌+◌, ◌*◌, ◌-◌, ◌++◌, length, [], codes, some,
  take, if◌then◌else◌, ◌∷◌, Bytes, Bool, str_eq, none, false, Option, ℕ, ◌>>=◌,
}

-- The static variables. `captured` is `none` for NULL, else the text in front of its NUL, whose
-- length is `captured_len`.
pub record ShowErrors : Type 0 where
  pub enabled : Bool
  pub captured : Option Bytes
  pub captured_cap : ℕ

abbrev pub at_start : ShowErrors
at_start = record { enabled = false; captured = none; captured_cap = 0 }

abbrev pub captured_text : ShowErrors → Bytes
captured_text s = elim s.captured [ none ↦ [] | some t ↦ t ]

-- The value that the query finds: `none` without a database, a row or a value.
unfoldable pub show_errors_init : ShowErrors → Option Bytes → ShowErrors
unfolding str_eq
show_errors_init s none = s
show_errors_init s (some val) =
    if not (str_eq val (codes "0")) && not (length val == 0) then record s { enabled = true } else s

unfoldable pub show_errors_clear : ShowErrors → ShowErrors
show_errors_clear s = record s { captured = elim s.captured [ none ↦ none | some t ↦ some [] ] }

-- `while(new_cap < needed) new_cap *= 2;`, with 64 rounds at most behind the first test: `none`
-- where that is not enough, which the loop of the source never ends.
unfoldable pub grow_loop : ℕ → ℕ → ℕ → Option ℕ
grow_loop zero new_cap needed = if ltb new_cap needed then none else some new_cap
grow_loop (suc fuel) new_cap needed =
    let more = grow_loop fuel (new_cap * 2 % 2 ^ 64) needed in
    if ltb new_cap needed then more else some new_cap

-- The capacity behind the `if` at the beginning of `capture_append`.
unfoldable pub grown : ℕ → ℕ → Option ℕ
unfolding grow_loop
grown room needed =
    if ltb room needed
    then grow_loop 64 (if room == 0 then 256 else room * 2 % 2 ^ 64) needed
    else some room

unfoldable pub capture_append : ShowErrors → Bytes → Option ShowErrors
unfolding grown
capture_append s text =
    let longer = (do
      room ← grown s.captured_cap (length (captured_text s) + length text + 1)
      some (record s { captured = some (captured_text s ++ text); captured_cap = room })) in
    if length text == 0 then some s else longer

-- `"%s: "` of the type, and what `line_buf` says of the module; a line that is not positive is 0.
abbrev pub type_part : Option Bytes → Bytes
type_part none = []
type_part (some t) = t ++ codes ": "

abbrev pub module_part : Option Bytes → ℕ → Bytes
module_part none line = []
module_part (some m) zero = m ++ codes ": "
module_part (some m) (suc line) = m ++ (codes " line " ++ (decimal (suc line) ++ codes ": "))

abbrev pub msg_text : Option Bytes → Bytes
msg_text none = []
msg_text (some s) = s

-- What `snprintf` leaves of a text in `size` bytes, less the NUL.
abbrev pub snprintf_text : ℕ → Bytes → Bytes
snprintf_text size s = take (size - 1) s

-- `line_buf`, of `needed + 1` bytes; `offset` grows by the lengths of the whole parts. `needed` is an
-- int: `none` from 2 ^ 31 on, where the sum overflows or `snprintf` fails, and nothing is defined.
unfoldable pub line_buf : Bytes → Bytes → Bytes → Option Bytes
line_buf a b msg =
    let size = length a + length b + length msg + 1 in
    if ltb (length a + length b + length msg) (2 ^ 31)
    then some (
        snprintf_text size a
        ++ (snprintf_text (size - length a) b ++ snprintf_text (size - (length a + length b)) msg))
    else none

-- The two appends at the end.
unfoldable pub log_line : ShowErrors → Bytes → Option ShowErrors
unfolding capture_append
log_line s line = do s₁ ← capture_append s line; capture_append s₁ (codes "\n")

unfoldable pub show_errors_capture :
    ShowErrors → Option Bytes → Option Bytes → ℕ → Option Bytes → Option ShowErrors
unfolding line_buf log_line decimal
show_errors_capture s type mod_name line msg =
    let logged = (do
      text ← line_buf (type_part type) (module_part mod_name line) (msg_text msg)
      log_line s text) in
    if s.enabled then logged else some s

-- The loop of `html_escape`: the capacity and the text written so far.
unfoldable pub html_escape_loop : Bytes → ℕ → Bytes → ℕ × Bytes
html_escape_loop [] room out = (room, out)
html_escape_loop (c ∷ src) room out =
    let rep = entity c in
    let new_cap = if ltb room (length out + length rep + 1) then room * 2 else room in
    let replaced = html_escape_loop src new_cap (out ++ rep) in
    let kept = html_escape_loop src room (out ++ (c ∷ [])) in
    if is_special c then replaced else kept

abbrev pub html_escape : Bytes → ℕ × Bytes
html_escape src = html_escape_loop src (length src * 6 + 1) []

abbrev pub page_head : Bytes
page_head =
    header_page
    ++ (codes "Bialet Error</h1><p>"
        ++ ((0xe2 ∷ 0x9a ∷ 0xa0 ∷ 0xef ∷ 0xb8 ∷ 0x8f ∷ [])
            ++ (codes " Disable if it is production "
                ++ ((0xe2 ∷ 0x80 ∷ 0x94 ∷ [])
                    ++ (codes
                          " <a href=\"https://bialet.dev/errors.html\">How to disable it?</a></p>"
                        ++ codes
                            "<pre style=\"white-space:pre-wrap;text-align:left;font-size:.6em\"><code>")))))

abbrev pub page_tail : Bytes
page_tail = codes "</code></pre>" ++ footer_page

-- `none` where the result is NULL.
unfoldable pub show_errors_page : ShowErrors → Option Bytes
unfolding html_escape_loop
show_errors_page s =
    let (room, text) = html_escape (captured_text s) in
    if length (captured_text s) == 0 then none else some (page_head ++ (text ++ page_tail))
