-- ===== src/Markdown/Escape/Escaped.antt =====
-- `escape_html_n` appends the escaped text, all of it or none.
use bialet.Html.{is_special, entity, escaped, escaped-append}
use bialet.Markdown.Buffer.{
  MdBuf, Run, done, failed, ◌>>=◌, md_append, max_output, Post, >>=-done, >>=-cong,
}
use bialet.Markdown.Escape.{plain_len, replacement, append_plain, escape_loop, escape_html_n}
use bialet.Prelude.{
  length-drop, ◌*◌, ℕ, zero, suc, ◌+◌, ◌<◌, ◌≡◌, refl, sym, ap, ◌∙◌, true, false, inl, inr, [], ◌∷◌,
  ◌++◌, arith, ◌==◌, leb, ltb, if◌then◌else◌, Bytes, length, length-append, take, drop,
  take-append-drop, Bool-cases, append-nil, append_assoc,
}

-- The converter's buffer: it has its full capacity from the beginning.
abbrev pub Full : MdBuf → Type 0
Full b = (b.cap ≡ max_output) × (length b.bytes < max_output)

-- One append to a full buffer.
abbrev pub appended : MdBuf → Bytes → Run MdBuf
appended b s =
    if leb (length b.bytes + length s + 1) max_output
    then done (record b { bytes = b.bytes ++ s })
    else failed

pub md_append-appended : (b : MdBuf) (s : Bytes) → Full b → md_append b s ≡ appended b s
unfolding md_append
md_append-appended b s (e, _) =
    let needed = length b.bytes + length s + 1 in
    let enough = if ltb (max_output * 2) needed then needed else max_output * 2 in
    elim (Bool-cases (leb needed max_output)) [
      | inl h ↦ rw (e, h) refl
      | inr h ↦
          let over : ltb (if ltb max_output enough then max_output else enough) needed ≡ true =
            ground arith in
          rw (e, h, over) refl
    ]

-- Two appends to the converter's buffer are one: both fail where not all of it fits.
pub md_append-append :
    (b : MdBuf) (s t : Bytes)
    → Full b
    → (md_append b s >>= λ b'. md_append b' t) ≡ md_append b (s ++ t)
md_append-append b s t f =
    rw (md_append-appended b s f, md_append-appended b (s ++ t) f)
      (elim (Bool-cases (leb (length b.bytes + length s + 1) max_output)) [
        | inl h ↦
            rw
              (
                h,
                md_append-appended (record b { bytes = b.bytes ++ s }) t
                    (f.0, ground (arith, length-append b.bytes s)),
              )
              (let sizes : length (b.bytes ++ s) + length t + 1
                    ≡ length b.bytes + length (s ++ t) + 1 =
                  omega (arith, length-append b.bytes s, length-append s t) in
                rw (sizes, append_assoc b.bytes s t) refl)
        | inr h ↦
            let over : leb (length b.bytes + length (s ++ t) + 1) max_output ≡ false =
              ground (arith, length-append s t) in
            rw (h, over) refl
      ])

pub md_append-nil : (b : MdBuf) → Full b → md_append b [] ≡ done b
md_append-nil b f =
    let room : leb (length b.bytes + 0 + 1) max_output ≡ true = ground arith in
    rw (md_append-appended b [] f, room, append-nil b.bytes) refl

entity-plain : (c : ℕ) → is_special c ≡ false → entity c ≡ c ∷ []
entity-plain c h = ground arith

replacement-entity : (c : ℕ) → is_special c ≡ true → replacement c ≡ entity c
unfolding replacement
replacement-entity c h = ground arith

plain_len-escaped : (s : Bytes) → escaped (take (plain_len s) s) ≡ take (plain_len s) s
unfolding plain_len escaped
plain_len-escaped [] = refl
plain_len-escaped (c ∷ s) = elim (Bool-cases (is_special c)) [
  | inl e ↦ rw e refl
  | inr e ↦ rw (e, entity-plain c e) (ap (◌∷◌ c) (plain_len-escaped s))
]

-- What stands behind the plain bytes.
abbrev SpecialFirst : Bytes → Type 0
SpecialFirst [] = Unit
SpecialFirst (c ∷ s) = is_special c ≡ true

drop-SpecialFirst : (s : Bytes) → SpecialFirst (drop (plain_len s) s)
unfolding plain_len
drop-SpecialFirst [] = tt
drop-SpecialFirst (c ∷ s) = elim (Bool-cases (is_special c)) [
  | inl e ↦ rw e e
  | inr e ↦ rw e (drop-SpecialFirst s)
]

pub md_append-Full : (b : MdBuf) (s : Bytes) → Full b → Post Full (md_append b s)
md_append-Full b s f =
    rw (md_append-appended b s f)
      (elim (Bool-cases (leb (length b.bytes + length s + 1) max_output)) [
        | inl h ↦ rw h (f.0, ground (arith, length-append b.bytes s))
        | inr h ↦ rw h tt
      ])

append_plain-append :
    (src : Bytes) (n : ℕ) (b : MdBuf) → Full b → append_plain src n b ≡ md_append b (take n src)
unfolding append_plain
append_plain-append src zero b f = sym (md_append-nil b f)
append_plain-append src (suc n) b f =
    let some_bytes : (suc n == 0) ≡ false = ground arith in rw some_bytes refl

-- A round of the outer loop, from its plain bytes and what stands behind them.
escape_round :
    (fuel : ℕ) (b : MdBuf) (plain d : Bytes)
    → Full b
    → escaped plain ≡ plain
    → SpecialFirst d
    → ((rest : Bytes) (b' : MdBuf)
        → length rest < length d
        → Full b'
        → escape_loop fuel rest b' ≡ md_append b' (escaped rest))
    → (md_append b plain >>= λ b'. elim d [
      | [] ↦ done b'
      | e ∷ rest ↦ md_append b' (replacement e) >>= escape_loop fuel rest
    ])
      ≡ md_append b (escaped (plain ++ d))
escape_round fuel b plain [] f p h ih = rw (append-nil plain, p) (>>=-done (md_append b plain))
escape_round fuel b plain (e ∷ rest) f p h ih =
    rw (escaped-append plain (e ∷ rest), p)
      (>>=-cong Full (md_append b plain) _ (λ b'. md_append b' (escaped (e ∷ rest)))
          (md_append-Full b plain f)
          (λ b' f'.
            >>=-cong Full (md_append b' (replacement e)) _ (λ c. md_append c (escaped rest))
              (md_append-Full b' (replacement e) f') (λ c g. ih rest c (omega arith) g)
            ∙ md_append-append b' (replacement e) (escaped rest) f'
            ∙ unfold escaped in
              ap (λ (s : Bytes). md_append b' (s ++ escaped rest)) (replacement-entity e h))
        ∙ md_append-append b plain (escaped (e ∷ rest)) f)

escape_loop-escaped :
    (fuel : ℕ) (src : Bytes) (b : MdBuf)
    → Full b
    → length src < fuel
    → escape_loop fuel src b ≡ md_append b (escaped src)
unfolding escape_loop
escape_loop-escaped zero src b f h = absurd (omega arith)
escape_loop-escaped (suc fuel) [] b f h = unfold escaped in sym (md_append-nil b f)
escape_loop-escaped (suc fuel) (c ∷ s) b f h =
    let src = c ∷ s in
    let n = plain_len src in
    rw (append_plain-append src n b f) (
      escape_round fuel b (take n src) (drop n src) f (plain_len-escaped src)
        (drop-SpecialFirst src)
        (λ rest b' short f'.
          escape_loop-escaped fuel rest b' f' (omega (arith, short, length-drop n src)))
      ∙ ap (λ (t : Bytes). md_append b (escaped t)) (take-append-drop n src))

-- On the converter's buffer, `escape_html_n` appends the text with its five special bytes written
-- as entities, or fails where that does not fit.
pub escape_html_n-escaped :
    (src : Bytes) (b : MdBuf) → Full b → escape_html_n src b ≡ md_append b (escaped src)
unfolding escape_html_n
escape_html_n-escaped src b f = escape_loop-escaped (suc (length src)) src b f (omega arith)
