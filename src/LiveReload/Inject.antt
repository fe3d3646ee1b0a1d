-- ===== src/LiveReload/Inject.antt =====
-- Where `livereload_inject_response` puts the script.
use bialet.Server.Response.{response_head, Response, body_len, write_response}
use bialet.LiveReload.{
  body_bytes, is_html, LiveReload, livereload_inject_response, script, closing_tag, find_bytes,
  inject,
}
use bialet.Prelude.Search.{find, Absent, IsFirst, find-none, find-some, find-length}
use bialet.Prelude.{
  length-append, take_all, ◌∙◌, some, ap, true, ◌+◌, false, suc, ◌==◌, ℕ, ◌≤◌, ◌≡◌, refl, sym, ◌⊎◌,
  inl, inr, [], ◌∷◌, ◌++◌, arith, ltb, Bytes, Bool-cases, Option-cases, length, take, drop,
  take-append-drop, length-take,
}

-- `new` is `old` with the script in it, in front of the first closing tag or, with no closing tag,
-- at the end.
pub record Injected (old new : Bytes) : Type 0 where
  pub before : Bytes
  pub after : Bytes
  pub splits : old ≡ before ++ after
  pub joined : new ≡ before ++ (script ++ after)
  pub place : IsFirst closing_tag old (length before) ⊎ (Absent closing_tag old × (after ≡ []))

find_bytes-find : (s : Bytes) → find_bytes s closing_tag ≡ find closing_tag s
unfolding find_bytes
find_bytes-find s = elim (Bool-cases (ltb (length s) 7)) [
  | inr e ↦ rw e refl
  | inl e ↦ elim (Option-cases (find closing_tag s)) [
    | inl n ↦ rw (e, n) refl
    | inr (k, h) ↦ absurd (ground (arith, find-length _ _ s k h))
  ]
]

length-take_le : (k : ℕ) (s : Bytes) → k ≤ length s → length (take k s) ≡ k
length-take_le k s h = omega (arith, length-take k s)

drop_all : (s : Bytes) → drop (length s) s ≡ []
drop_all [] = refl
drop_all (c ∷ s) = drop_all s

inject-Injected : (s : Bytes) → Injected s (inject s)
unfolding inject
inject-Injected s = rw (find_bytes-find s) (elim (Option-cases (find closing_tag s)) [
  | inl n ↦ rw n (record {
    before = take (length s) s;
    after = drop (length s) s;
    splits = sym (take-append-drop (length s) s);
    joined = refl;
    place = inr (find-none _ _ s n, drop_all s);
  })
  | inr (k, h) ↦
      let fits = find-length _ _ s k h in
      rw h (record {
        before = take k s;
        after = drop k s;
        splits = sym (take-append-drop k s);
        joined = refl;
        place = inl (rw (length-take_le k s (omega (arith, fits))) (find-some _ _ s k h));
      })
])

script_starts : (after : Bytes) → length (script ++ after) ≡ suc (length (drop 1 (script ++ after)))
script_starts after = refl

Injected-length : (old new : Bytes) → Injected old new → (length new == 0) ≡ false
Injected-length old new i =
    let size : length new ≡ length i.before + length (script ++ i.after) =
      ap length i.joined ∙ length-append i.before (script ++ i.after) in
    ground (arith, size, script_starts i.after)

write_response-whole :
    (r : Response) (b : Bytes)
    → r.body ≡ some b
    → r.length_field ≡ length b
    → (length b == 0) ≡ false
    → write_response r ≡ response_head r ++ b
unfolding write_response body_len
write_response-whole r b body size full =
    rw (body, size, full, take_all (length b) b (omega arith)) refl

-- With live reload on and an HTML response, what is sent behind the head is the body with the
-- script in it, in front of the first `</body>` or, where there is none, at the end; no byte of
-- the body is lost or cut off.
pub livereload_inject_response-Injected :
    (l : LiveReload) (r : Response)
    → l.enabled ≡ true
    → is_html r.header ≡ true
    → (new : Bytes) × Injected (body_bytes r) new
      × (write_response (livereload_inject_response l r)
          ≡ response_head (livereload_inject_response l r) ++ new)
unfolding livereload_inject_response
livereload_inject_response-Injected l r on html =
    let i = inject-Injected (body_bytes r) in
    rw (on, html)
      (inject (body_bytes r), i, write_response-whole _ _ refl refl (Injected-length _ _ i))
