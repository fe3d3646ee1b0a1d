-- ===== src/Tests/Errors.antt =====
-- The captured errors of a run and their page.
use bialet.ShowErrors.Page.{calls-PageOf, PageOf}
use bialet.Prelude.Decimal.{dec_loop, decimal}
use bialet.ShowErrors.{show_errors_page, captured_text, at_start, show_errors_init, ShowErrors}
use bialet.ShowErrors.Log.{
  AreShort, Fits, clear, calls-recorded, volume, capture, Call, calls, After, recorded,
}
use bialet.Prelude.{
  ◌^◌, ◌∷◌, ◌<◌, none, refl, false, ◌+◌, length, codes, arith, true, ◌≡◌, some, str_eq, List, inl,
  [],
}

abbrev showing : ShowErrors
showing = show_errors_init at_start (some (codes "1"))

showing_enabled : showing.enabled ≡ true
unfolding show_errors_init str_eq
showing_enabled = refl

showing_zero : (show_errors_init at_start (some (codes "0"))).enabled ≡ false
unfolding show_errors_init str_eq
showing_zero = refl

showing-Fits : Fits showing
unfolding show_errors_init str_eq
showing-Fits = record { holds = inl refl; in_range = omega arith }

abbrev some_calls : List Call
some_calls =
    capture (some (codes "Stack Error")) none 0 (some (codes "lost"))
    ∷ (clear
        ∷ (capture (some (codes "Runtime Error")) (some (codes "main")) 12
              (some (codes "a < b & c"))
            ∷ []))

recorded_some : recorded [] some_calls ≡ codes "Runtime Error: main line 12: a < b & c\n"
unfolding recorded decimal dec_loop
recorded_some = refl

some_calls_small : length (captured_text showing) + volume some_calls < 2 ^ 63
unfolding show_errors_init str_eq volume decimal dec_loop
some_calls_small = omega arith

some_calls_short : AreShort some_calls
unfolding decimal dec_loop
some_calls_short = (omega arith, (omega arith, tt))

calls-recorded_example :
    After showing (calls showing some_calls) (recorded (captured_text showing) some_calls)
calls-recorded_example =
    calls-recorded showing some_calls showing_enabled showing-Fits some_calls_short some_calls_small

calls-PageOf_test :
    (t : ShowErrors) × (calls showing some_calls ≡ some t)
    × PageOf (show_errors_page t) (recorded (captured_text showing) some_calls)
calls-PageOf_test =
    calls-PageOf showing some_calls showing_enabled showing-Fits some_calls_short some_calls_small
