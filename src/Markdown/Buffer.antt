-- ===== src/Markdown/Buffer.antt =====
-- src/markdown.c: `MdBuf`, `md_reserve`, `md_appendn` and `md_append`. A failed `realloc` is not
-- modelled.
use mathlib.Core.Path.{subst}
use bialet.Prelude.{
  inr, some_inj, inl, Bool-cases, ap, ℕ, ◌+◌, ◌*◌, ◌≤◌, ◌<◌, ◌≡◌, refl, Option, none, some, ◌++◌,
  arith, ltb, leb, if◌then◌else◌, Bytes, length, length-append,
}

abbrev pub max_output : ℕ
max_output = 2 * 1024 * 1024

-- The blocks that the converter opens and closes.
pub data Block : Type 0 where
  ul ol table blockquote pre : Block

pub data Tag : Type 0 where
  opened closed : Block → Tag

-- `data` holds `pos` bytes.
pub record MdBuf : Type 0 where
  pub bytes : Bytes
  pub cap : ℕ

-- What a call makes: a result, the failure that ends the conversion, a read behind the end of the
-- memory, or no fuel left.
pub data Run {ℓ} (A : Type ℓ) : Type ℓ where
  done : A → Run A
  failed overrun exhausted : Run A

infixl 5 ◌>>=◌
abbrev pub ◌>>=◌ {ℓ κ} : {A : Type ℓ} {B : Type κ} → Run A → (A → Run B) → Run B
done a >>= f = f a
failed >>= f = failed
overrun >>= f = overrun
exhausted >>= f = exhausted

-- The capacity doubles up to the limit; `none` where the bytes cannot fit.
unfoldable pub md_reserve : MdBuf → ℕ → Option MdBuf
md_reserve b extra =
    let needed = length b.bytes + extra + 1 in
    let doubled = b.cap * 2 in
    let enough = if ltb doubled needed then needed else doubled in
    let new_cap = if ltb max_output enough then max_output else enough in
    if leb needed b.cap
    then some b
    else if ltb new_cap needed
    then none
    else some (record b { cap = new_cap })

append_reserved : Option MdBuf → Bytes → Run MdBuf
append_reserved none s = failed
append_reserved (some b) s = done (record b { bytes = b.bytes ++ s })

-- The second argument is the `n` bytes; `md_append` and `md_printf` pass the whole text.
unfoldable pub md_append : MdBuf → Bytes → Run MdBuf
unfolding md_reserve append_reserved
md_append b s = append_reserved (md_reserve b (length s)) s

-- The bytes and their terminator are inside the capacity, and the capacity is within the limit.
abbrev pub Fits : MdBuf → Type 0
Fits b = (length b.bytes < b.cap) × (b.cap ≤ max_output)

-- What an append leaves as it was.
pub record Extends (b b' : MdBuf) : Type 0 where
  pub fits : Fits b → Fits b'

pub Extends-refl : (b : MdBuf) → Extends b b
Extends-refl b = record { fits = λ f. f }

pub Extends-trans : (a b c : MdBuf) → Extends a b → Extends b c → Extends a c
Extends-trans a b c p q = record { fits = λ f. q.fits (p.fits f) }

-- A property of the result, where there is one.
abbrev pub Post {ℓ κ} : {A : Type ℓ} → (A → Type κ) → Run A → Type κ
Post P (done a) = P a
Post P _ = Unit

pub Post->>= {ℓ κ μ ν} :
    {A : Type ℓ} {B : Type κ} (P : A → Type μ) (Q : B → Type ν) (r : Run A) (f : A → Run B)
    → Post P r
    → ((a : A) → P a → Post Q (f a))
    → Post Q (r >>= f)
Post->>= P Q (done a) f p next = next a p
Post->>= P Q failed f p next = tt
Post->>= P Q overrun f p next = tt
Post->>= P Q exhausted f p next = tt

pub Post-map {ℓ κ μ} :
    {A : Type ℓ} (P : A → Type κ) (Q : A → Type μ) (r : Run A)
    → Post P r
    → ((a : A) → P a → Q a)
    → Post Q r
Post-map P Q (done a) p f = f a p
Post-map P Q failed p f = tt
Post-map P Q overrun p f = tt
Post-map P Q exhausted p f = tt

pub >>=-done {ℓ} : {A : Type ℓ} (r : Run A) → (r >>= done) ≡ r
>>=-done (done a) = refl
>>=-done failed = refl
>>=-done overrun = refl
>>=-done exhausted = refl

pub >>=-cong {ℓ κ μ} :
    {A : Type ℓ} {B : Type κ} (P : A → Type μ) (r : Run A) (f g : A → Run B)
    → Post P r
    → ((a : A) → P a → f a ≡ g a)
    → (r >>= f) ≡ (r >>= g)
>>=-cong P (done a) f g p h = h a p
>>=-cong P failed f g p h = refl
>>=-cong P overrun f g p h = refl
>>=-cong P exhausted f g p h = refl

pub >>=_assoc {ℓ κ μ} :
    {A : Type ℓ} {B : Type κ} {C : Type μ} (r : Run A) (f : A → Run B) (g : B → Run C)
    → (r >>= f >>= g) ≡ (r >>= λ a. f a >>= g)
>>=_assoc (done a) f g = refl
>>=_assoc failed f g = refl
>>=_assoc overrun f g = refl
>>=_assoc exhausted f g = refl

-- There is room for `extra` bytes and the terminator, and nothing else changes.
record HasRoom (b : MdBuf) (extra : ℕ) (b' : MdBuf) : Type 0 where
  same_bytes : b'.bytes ≡ b.bytes
  room : length b.bytes + extra < b'.cap
  limit : b.cap ≤ max_output → b'.cap ≤ max_output

md_reserve-HasRoom :
    (b : MdBuf) (extra : ℕ) (b' : MdBuf) → md_reserve b extra ≡ some b' → HasRoom b extra b'
unfolding md_reserve
md_reserve-HasRoom b extra b' e =
    let needed = length b.bytes + extra + 1 in
    elim (Bool-cases (leb needed b.cap)) [
      | inl h ↦
          subst (HasRoom b extra) (some_inj (rw h at e))
            (record { same_bytes = refl; room = ground arith; limit = λ l. l })
      | inr h ↦ ground arith
    ]

append_reserved-Extends :
    (b : MdBuf) (s : Bytes) (r : Option MdBuf)
    → md_reserve b (length s) ≡ r
    → Post (Extends b) (append_reserved r s)
unfolding append_reserved
append_reserved-Extends b s none e = tt
append_reserved-Extends b s (some b') e =
    let h = md_reserve-HasRoom b (length s) b' e in
    record {
      fits = λ (_, l).
          (omega (arith, h.room, length-append b'.bytes s, ap length h.same_bytes), h.limit l);
    }

pub md_append-Extends : (b : MdBuf) (s : Bytes) → Post (Extends b) (md_append b s)
unfolding md_append
md_append-Extends b s = append_reserved-Extends b s (md_reserve b (length s)) refl
