-- ===== src/Markdown/Inline/LoneStar.antt =====
-- `render_inline` on the last line of a document, where it ends with an asterisk that no other one
-- closes.
use bialet.Markdown.Buffer.{MdBuf, done, overrun, md_append, max_output}
use bialet.Markdown.Escape.Escaped.{md_append-appended}
use bialet.Markdown.Inline.{
  plain_round, span_round, span_end, inline_round, render_loop, render_inline,
}
use bialet.Prelude.Search.{find}
use bialet.Prelude.{
  ◌<◌, ◌+◌, ◌∙◌, leb, true, length-append, codes, refl, ℕ, zero, suc, ◌≡◌, ◌≢◌, false, [], ◌∷◌,
  ◌++◌, arith, ◌==◌, Bytes, c_string, starts_with, All, length,
}

-- A byte that begins no construct.
abbrev pub IsPlain : ℕ → Type 0
IsPlain c = (c ≢ 0) × (c ≢ b'*') × (c ≢ b'`') × (c ≢ b'!') × (c ≢ b'[')

-- The buffer has room for this many bytes and the NUL.
abbrev HasRoom : MdBuf → ℕ → Type 0
HasRoom b n = (b.cap ≡ max_output) × (length b.bytes + n < max_output)

md_append-HasRoom :
    (b : MdBuf) (s : Bytes) (n : ℕ)
    → HasRoom b (length s + n)
    → (b' : MdBuf) × (md_append b s ≡ done b') × HasRoom b' n
md_append-HasRoom b s n (cap, room) =
    let b' = record b { bytes = b.bytes ++ s } in
    let fits : leb (length b.bytes + length s + 1) max_output ≡ true = ground arith in
    (
      b',
      md_append-appended b s (cap, omega arith) ∙ rw fits refl,
      (cap, omega (arith, length-append b.bytes s, room)),
    )

plain_step :
    (fuel c : ℕ) (src : Bytes) (b : MdBuf) (n : ℕ)
    → IsPlain c
    → HasRoom b (suc n)
    → ((b' : MdBuf) → HasRoom b' n → render_loop fuel src b' ≡ overrun)
    → render_loop (suc fuel) (c ∷ src) b ≡ overrun
unfolding render_loop inline_round plain_round starts_with
plain_step fuel c src b n (e₀, e₁, e₂, e₃, e₄) room next =
    let n₀ : (c == 0) ≡ false = ground arith in
    let n₁ : (c == b'*') ≡ false = ground arith in
    let n₂ : (c == b'`') ≡ false = ground arith in
    let n₃ : (c == b'!') ≡ false = ground arith in
    let n₄ : (c == b'[') ≡ false = ground arith in
    let (b', e, room') = md_append-HasRoom b (c ∷ []) n (room.0, omega (arith, room.1)) in
    rw (n₀, n₁, n₂, n₃, n₄, e) (next b' room')

lone_step :
    (fuel : ℕ) (b : MdBuf) → HasRoom b 5 → render_loop (suc (suc fuel)) (b'*' ∷ 0 ∷ []) b ≡ overrun
unfolding render_loop inline_round span_round span_end plain_round starts_with find c_string
lone_step fuel b room =
    let (b₁, e₁, room₁) = md_append-HasRoom b (codes "<em>") 1 room in
    let (b₂, e₂, room₂) = md_append-HasRoom b₁ (0 ∷ []) 0 room₁ in rw (e₁, e₂) refl

lone_loop :
    (fuel : ℕ) (text : Bytes) (b : MdBuf)
    → length text + 1 < fuel
    → All IsPlain text
    → HasRoom b (length text + 5)
    → render_loop fuel (text ++ (b'*' ∷ 0 ∷ [])) b ≡ overrun
lone_loop zero text b enough h room = absurd (omega arith)
lone_loop (suc zero) text b enough h room = absurd (omega arith)
lone_loop (suc (suc fuel)) [] b enough h room = lone_step fuel b room
lone_loop (suc (suc fuel)) (c ∷ text) b enough (p, h) room =
    plain_step (suc fuel) c (text ++ (b'*' ∷ 0 ∷ [])) b (length text + 5) p
      (room.0, omega (arith, room.1))
      (λ b' room'. lone_loop (suc fuel) text b' (omega arith) h room')

-- Plain text that ends with an asterisk, in front of the NUL that ends the array, where the buffer of
-- the full capacity has room for the text, <em> and a NUL: the rendering reads behind the array.
pub render_inline-lone_star :
    (text : Bytes) (b : MdBuf)
    → All IsPlain text
    → b.cap ≡ max_output
    → length b.bytes + length text + 5 < max_output
    → render_inline (text ++ (b'*' ∷ 0 ∷ [])) b ≡ overrun
unfolding render_inline
render_inline-lone_star text b h cap room =
    lone_loop (suc (length (text ++ (b'*' ∷ 0 ∷ [])))) text b
      (omega (arith, length-append text (b'*' ∷ 0 ∷ []))) h (cap, omega (arith, room))
