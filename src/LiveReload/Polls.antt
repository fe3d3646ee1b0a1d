-- ===== src/LiveReload/Polls.antt =====
-- The answers to the polls of a page, before a change of a file and after it.
use bialet.Prelude.Decimal.{digits_value, value-decimal, decimal}
use bialet.Server.Response.{Response}
use bialet.LiveReload.{
  poll_uri, set_version, poll_response, livereload_try_handle, LiveReload, livereload_notify,
}
use bialet.Prelude.{
  some_inj, ap, ◌∙◌, str_eq_refl, ◌↔◌, sym, ◌^◌, Bytes, ◌<◌, ◌≡◌, ℕ, Option, none, some, true, refl,
}

abbrev pub poll : LiveReload → Option Response
poll l = livereload_try_handle l poll_uri

body_of : Option Response → Option Bytes
body_of none = none
body_of (some r) = r.body

poll-body :
    (l : LiveReload) (v : ℕ)
    → l.enabled ≡ true
    → l.shared_version ≡ some v
    → body_of (poll l) ≡ some (decimal v)
unfolding livereload_try_handle body_of poll_response
poll-body l v on shared = rw (on, str_eq_refl poll_uri, shared) refl

notify-version :
    (l : LiveReload) (v now : ℕ)
    → l.enabled ≡ true
    → l.shared_version ≡ some v
    → livereload_notify now l ≡ record l { shared_version = some now }
unfolding livereload_notify set_version
notify-version l v now on shared = rw (on, shared) refl

decimal-injective : (a b : ℕ) → a < 10 ^ 20 → b < 10 ^ 20 → decimal a ≡ decimal b → a ≡ b
decimal-injective a b ha hb e =
    sym (value-decimal a ha) ∙ (ap (digits_value 0) e ∙ value-decimal b hb)

-- With live reload on and its counter shared, and clocks below 10 ^ 20: the answer to a poll after
-- a change differs from the one before it unless the counter was set in the same second.
pub livereload_notify-poll :
    (l : LiveReload) (v now : ℕ)
    → l.enabled ≡ true
    → l.shared_version ≡ some v
    → v < 10 ^ 20
    → now < 10 ^ 20
    → (poll (livereload_notify now l) ≡ poll l) ↔ (now ≡ v)
livereload_notify-poll l v now on shared hv hn = (there, back)
  where
    after : livereload_notify now l ≡ record l { shared_version = some now }
    after = notify-version l v now on shared

    there : poll (livereload_notify now l) ≡ poll l → now ≡ v
    there e =
        let answer : some (decimal now) ≡ some (decimal v) =
          sym (poll-body (record l { shared_version = some now }) now on refl)
          ∙ (ap (λ m. body_of (poll m)) (sym after) ∙ (ap body_of e ∙ poll-body l v on shared)) in
        decimal-injective now v hn hv (some_inj answer)

    back : now ≡ v → poll (livereload_notify now l) ≡ poll l
    back e = ap poll (after ∙ ap (λ x. record l { shared_version = x }) (ap some e ∙ sym shared))
