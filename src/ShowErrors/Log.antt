-- ===== src/ShowErrors/Log.antt =====
-- What is captured: the lines since the last clearing, in memory that is large enough.
use bialet.ShowErrors.Capacity.{grown-fits}
use bialet.ShowErrors.{
  show_errors_clear, log_line, msg_text, module_part, type_part, show_errors_capture, captured_text,
  ShowErrors, line_buf, capture_append,
}
use bialet.Prelude.{
  ◌≤◌, ltb, Option-cases, ◌>>=◌, List, ap, append_assoc, codes, true, if◌then◌else◌, [], ◌==◌, inl,
  inr, ◌∙◌, length-append, ◌∷◌, append-nil, ◌-◌, take_all, sym, ◌+◌, ◌++◌, length, ◌⊎◌, none, Bytes,
  Option, refl, inl, inr, arith, false, some, ◌≡◌, ◌^◌, ◌<◌, ℕ,
}

-- The text and its NUL are within the memory.
pub record Fits (s : ShowErrors) : Type 0 where
  pub holds : (s.captured ≡ none) ⊎ (length (captured_text s) < s.captured_cap)
  pub in_range : s.captured_cap < 2 ^ 64

-- A call returns, with this text, within the memory, and does not change the flag.
pub record After (s : ShowErrors) (r : Option ShowErrors) (text : Bytes) : Type 0 where
  pub state : ShowErrors
  pub result : r ≡ some state
  pub text_is : captured_text state ≡ text
  pub fits : Fits state
  pub enabled_is : state.enabled ≡ s.enabled

capture_append-After :
    (s : ShowErrors) (text : Bytes)
    → Fits s
    → length (captured_text s) + length text < 2 ^ 63
    → After s (capture_append s text) (captured_text s ++ text)
unfolding capture_append
capture_append-After s [] f h = record {
  state = s;
  result = refl;
  text_is = sym (append-nil (captured_text s));
  fits = f;
  enabled_is = refl;
}
capture_append-After s (c ∷ text) f h =
    let whole = captured_text s ++ (c ∷ text) in
    let (k, e, g, l) =
      grown-fits s.captured_cap (length (captured_text s) + length (c ∷ text) + 1) f.in_range
        (omega (arith, h)) in
    let full : (length (c ∷ text) == 0) ≡ false = ground arith in
    let t = record s { captured = some whole; captured_cap = k } in
    record {
      state = t;
      result = rw (e, full) refl;
      text_is = refl;
      fits = record {
        holds = inr (omega (arith, length-append (captured_text s) (c ∷ text), g));
        in_range = l;
      };
      enabled_is = refl;
    }

line_buf-whole :
    (a b msg : Bytes)
    → length (a ++ (b ++ msg)) < 2 ^ 31
    → line_buf a b msg ≡ some (a ++ (b ++ msg))
unfolding line_buf
line_buf-whole a b msg h =
    let size = length a + length b + length msg + 1 in
    let in_range : ltb (length a + length b + length msg) (2 ^ 31) ≡ true =
      ground (arith, length-append a (b ++ msg), length-append b msg) in
    rw
      (
        in_range,
        take_all (size - 1) a (omega arith),
        take_all (size - length a - 1) b (omega arith),
        take_all (size - (length a + length b) - 1) msg (omega arith),
      )
      refl

log_line-After :
    (s : ShowErrors) (line : Bytes)
    → Fits s
    → length (captured_text s) + length line + 1 < 2 ^ 63
    → After s (log_line s line) (captured_text s ++ (line ++ codes "\n"))
unfolding log_line
log_line-After s line f h =
    let first = capture_append-After s line f (omega (arith, h)) in
    let held : length (captured_text first.state) ≡ length (captured_text s) + length line =
      rw first.text_is (length-append (captured_text s) line) in
    let second =
      capture_append-After first.state (codes "\n") first.fits (omega (arith, held, h)) in
    record {
      state = second.state;
      result = ap (λ r. r >>= λ s₁. capture_append s₁ (codes "\n")) first.result ∙ second.result;
      text_is =
          second.text_is
          ∙ ap (λ t. t ++ codes "\n") first.text_is
          ∙ append_assoc (captured_text s) line (codes "\n");
      fits = second.fits;
      enabled_is = second.enabled_is ∙ first.enabled_is;
    }

-- The line of an error.
abbrev pub line_of : Option Bytes → Option Bytes → ℕ → Option Bytes → Bytes
line_of type mod_name line msg =
    (type_part type ++ (module_part mod_name line ++ msg_text msg)) ++ codes "\n"

show_errors_capture-After :
    (s : ShowErrors) (type mod_name : Option Bytes) (line : ℕ) (msg : Option Bytes)
    → s.enabled ≡ true
    → Fits s
    → length (line_of type mod_name line msg) ≤ 2 ^ 31
    → length (captured_text s) + length (line_of type mod_name line msg) < 2 ^ 63
    → After s
        (show_errors_capture s type mod_name line msg)
        (captured_text s ++ line_of type mod_name line msg)
unfolding show_errors_capture
show_errors_capture-After s type mod_name line msg on f short h =
    let parts = type_part type ++ (module_part mod_name line ++ msg_text msg) in
    let whole =
      line_buf-whole (type_part type) (module_part mod_name line) (msg_text msg)
        (omega (arith, length-append parts (codes "\n"), short)) in
    let logged = log_line-After s parts f (omega (arith, length-append parts (codes "\n"), h)) in
    record {
      state = logged.state;
      result =
          ap
            (λ b.
              if b
              then line_buf (type_part type) (module_part mod_name line) (msg_text msg)
                >>= log_line s
              else some s)
            on
          ∙ ap (λ o. o >>= log_line s) whole
          ∙ logged.result;
      text_is = logged.text_is;
      fits = logged.fits;
      enabled_is = logged.enabled_is;
    }

-- A call from outside.
pub data Call : Type 0 where
  clear : Call
  capture : Option Bytes → Option Bytes → ℕ → Option Bytes → Call

abbrev pub call : ShowErrors → Call → Option ShowErrors
call s clear = some (show_errors_clear s)
call s (capture type mod_name line msg) = show_errors_capture s type mod_name line msg

unfoldable pub calls : ShowErrors → List Call → Option ShowErrors
calls s [] = some s
calls s (c ∷ more) = call s c >>= λ t. calls t more

-- The specification: the lines since the last clearing, behind the text held before.
unfoldable pub recorded : Bytes → List Call → Bytes
recorded text [] = text
recorded text (clear ∷ more) = recorded [] more
recorded text (capture type mod_name line msg ∷ more) =
    recorded (text ++ line_of type mod_name line msg) more

-- The bytes of all lines together.
unfoldable pub volume : List Call → ℕ
volume [] = 0
volume (clear ∷ more) = volume more
volume (capture type mod_name line msg ∷ more) =
    length (line_of type mod_name line msg) + volume more

-- Every line, less its line end, is shorter than 2 ^ 31.
abbrev pub AreShort : List Call → Type 0
AreShort [] = Unit
AreShort (clear ∷ more) = AreShort more
AreShort (capture type mod_name line msg ∷ more) =
    (length (line_of type mod_name line msg) ≤ 2 ^ 31) × AreShort more

show_errors_clear-After : (s : ShowErrors) → Fits s → After s (some (show_errors_clear s)) []
unfolding show_errors_clear
show_errors_clear-After s f = elim (Option-cases s.captured) [
  | inl e ↦ record {
    state = show_errors_clear s;
    result = refl;
    text_is = rw e refl;
    fits = record { holds = inl (rw e refl); in_range = f.in_range };
    enabled_is = refl;
  }
  | inr (t, e) ↦ record {
    state = show_errors_clear s;
    result = refl;
    text_is = rw e refl;
    fits = record { holds = inr (held t e f.holds); in_range = f.in_range };
    enabled_is = refl;
  }
]
  where
    held :
        (t : Bytes)
        → s.captured ≡ some t
        → (s.captured ≡ none) ⊎ (length (captured_text s) < s.captured_cap)
        → length (captured_text (show_errors_clear s)) < s.captured_cap
    held t e (inl n) = absurd cc
    held t e (inr l) = rw e (omega (arith, l))

-- A call and the rest of the run.
chain :
    (s : ShowErrors) (r : Option ShowErrors) (text : Bytes) (more : List Call)
    → (first : After s r text)
    → After first.state (calls first.state more) (recorded (captured_text first.state) more)
    → After s (r >>= λ t. calls t more) (recorded text more)
chain s r text more first rest = record {
  state = rest.state;
  result = ap (λ o. o >>= λ t. calls t more) first.result ∙ rest.result;
  text_is = rest.text_is ∙ ap (λ t. recorded t more) first.text_is;
  fits = rest.fits;
  enabled_is = rest.enabled_is ∙ first.enabled_is;
}

-- A run of calls with the flag set returns with the recorded text in memory that holds it, given
-- that each line is shorter than 2 ^ 31, and all together are shorter than 2 ^ 63.
pub calls-recorded :
    (s : ShowErrors) (more : List Call)
    → s.enabled ≡ true
    → Fits s
    → AreShort more
    → length (captured_text s) + volume more < 2 ^ 63
    → After s (calls s more) (recorded (captured_text s) more)
unfolding calls recorded volume
calls-recorded s [] on f short h = record {
  state = s;
  result = refl;
  text_is = refl;
  fits = f;
  enabled_is = refl;
}
calls-recorded s (clear ∷ more) on f short h =
    let first = show_errors_clear-After s f in
    let held : length (captured_text first.state) ≡ 0 = rw first.text_is refl in
    let rest =
      calls-recorded first.state more (first.enabled_is ∙ on) first.fits short
        (omega (arith, held, h)) in
    chain s (call s clear) [] more first rest
calls-recorded s (capture type mod_name line msg ∷ more) on f (short, later) h =
    let text = captured_text s ++ line_of type mod_name line msg in
    let measure = length-append (captured_text s) (line_of type mod_name line msg) in
    let first = show_errors_capture-After s type mod_name line msg on f short (omega (arith, h)) in
    let held : length (captured_text first.state) ≡ length text = rw first.text_is refl in
    let rest =
      calls-recorded first.state more (first.enabled_is ∙ on) first.fits later
        (omega (arith, held, measure, h)) in
    chain s (call s (capture type mod_name line msg)) text more first rest
