-- ===== src/Prelude/Search.antt =====
-- `strstr` and `memmem`: the first place at which a text holds another.
use Prim.Native.Nat.{ℕ, zero, suc, ◌+◌, ◌≤◌, ◌<◌}
use mathlib.Core.Path.{◌≡◌, refl, sym, ap, subst, ◌∙◌}
use mathlib.Core.Bool.{true, false}
use mathlib.Core.Logic.{inl, inr}
use mathlib.Core.List.{[], ◌∷◌, ◌++◌}
use mathlib.Core.Option
use mathlib.Core.Option.{Option, none, some}
use native.Mathlib.Omega.{arith}
use bialet.Prelude.Tests.{if◌then◌else◌, Bool-cases, Option-cases}
use bialet.Prelude.Lists.{length, take, drop, take-append-drop}
use bialet.Prelude.CString.{Bytes, starts_with, starts_with_sound}

-- The offset of the first match.
unfoldable pub find : Bytes → Bytes → Option ℕ
find needle [] = none
find needle (c ∷ s) = if starts_with needle (c ∷ s) then some 0 else Option.map suc (find needle s)

-- `k` is the first offset of `s` at which `needle` stands.
pub record IsFirst (needle s : Bytes) (k : ℕ) : Type 0 where
  pub here : starts_with needle (drop k s) ≡ true
  pub before : (j : ℕ) → j < k → starts_with needle (drop j s) ≡ false

abbrev pub Absent : Bytes → Bytes → Type 0
Absent needle s = (j : ℕ) → starts_with needle (drop j s) ≡ false

pub IsFirst-zero : (needle s : Bytes) → starts_with needle s ≡ true → IsFirst needle s 0
IsFirst-zero needle s e = record { here = e; before = λ j lt. elim lt [ ] }

before_suc :
    (needle : Bytes) (c : ℕ) (s : Bytes) (m : ℕ)
    → starts_with needle (c ∷ s) ≡ false
    → ((j : ℕ) → j < m → starts_with needle (drop j s) ≡ false)
    → (j : ℕ) → j < suc m
    → starts_with needle (drop j (c ∷ s)) ≡ false
before_suc needle c s m e b zero lt = e
before_suc needle c s m e b (suc j) lt = b j (omega arith)

pub IsFirst-suc :
    (needle : Bytes) (c : ℕ) (s : Bytes) (m : ℕ)
    → starts_with needle (c ∷ s) ≡ false
    → IsFirst needle s m
    → IsFirst needle (c ∷ s) (suc m)
IsFirst-suc needle c s m e f = record { here = f.here; before = before_suc needle c s m e f.before }

pub starts_with-nil : (x : ℕ) (p : Bytes) → starts_with (x ∷ p) [] ≡ false
unfolding starts_with
starts_with-nil x p = refl

drop-nil : (j : ℕ) → drop {A = ℕ} j [] ≡ []
drop-nil zero = refl
drop-nil (suc j) = refl

pub starts_with-length : (p s : Bytes) → starts_with p s ≡ true → length p ≤ length s
unfolding starts_with
starts_with-length [] s h = omega arith
starts_with-length (x ∷ p) [] h = cc
starts_with-length (x ∷ p) (y ∷ s) h = ground (arith, starts_with-length p s)

-- Bytes behind the window do not change the comparison.
pub starts_with_extend :
    (p s t : Bytes) → length p ≤ length s → starts_with p (s ++ t) ≡ starts_with p s
unfolding starts_with
starts_with_extend [] s t h = refl
starts_with_extend (x ∷ p) [] t h = absurd (omega arith)
starts_with_extend (x ∷ p) (y ∷ s) t h = rw (starts_with_extend p s t (omega arith))

module _ (x : ℕ) (p : Bytes) where
  pub find-none : (s : Bytes) → find (x ∷ p) s ≡ none → Absent (x ∷ p) s
  unfolding find
  find-none [] h j = rw (drop-nil j) (starts_with-nil x p)
  find-none (c ∷ s) h zero = ground arith
  find-none (c ∷ s) h (suc j) = find-none s (ground arith) j

  pub find-some : (s : Bytes) (k : ℕ) → find (x ∷ p) s ≡ some k → IsFirst (x ∷ p) s k
  unfolding find
  find-some [] k h = cc
  find-some (c ∷ s) k h = elim (Bool-cases (starts_with (x ∷ p) (c ∷ s))) [
    | inl e ↦
        let z : 0 ≡ k = ground arith in
        subst (IsFirst (x ∷ p) (c ∷ s)) z (IsFirst-zero (x ∷ p) (c ∷ s) e)
    | inr e ↦ elim (Option-cases (find (x ∷ p) s)) [
      | inl n ↦ absurd (ground arith)
      | inr (m, q) ↦
          let z : suc m ≡ k = ground arith in
          subst (IsFirst (x ∷ p) (c ∷ s)) z (IsFirst-suc (x ∷ p) c s m e (find-some s m q))
    ]
  ]

  pub find-length : (s : Bytes) (k : ℕ) → find (x ∷ p) s ≡ some k → k + length (x ∷ p) ≤ length s
  unfolding find
  find-length [] k h = cc
  find-length (c ∷ s) k h = elim (Option-cases (find (x ∷ p) s)) [
    | inl n ↦ ground (arith, starts_with-length (x ∷ p) (c ∷ s))
    | inr (m, q) ↦ ground (arith, starts_with-length (x ∷ p) (c ∷ s), find-length s m q)
  ]

  -- A match stays the first one when more bytes arrive.
  pub find-append : (s t : Bytes) (k : ℕ) → find (x ∷ p) s ≡ some k → find (x ∷ p) (s ++ t) ≡ some k
  unfolding find
  find-append [] t k h = cc
  find-append (c ∷ s) t k h =
      let fits = find-length (c ∷ s) k h in
      rw (starts_with_extend (x ∷ p) (c ∷ s) t (omega arith))
        (elim (Option-cases (find (x ∷ p) s)) [
          | inl n ↦ ground arith
          | inr (m, q) ↦ ground (arith, find-append s t m q)
        ])

-- The text before a match, and behind it.
pub IsFirst-splits :
    (needle s : Bytes) (k : ℕ)
    → IsFirst needle s k
    → (rest : Bytes) × (s ≡ take k s ++ (needle ++ rest))
IsFirst-splits needle s k f =
    let (rest, e) = starts_with_sound needle (drop k s) f.here in
    (rest, sym (take-append-drop k s) ∙ ap (◌++◌ (take k s)) e)
