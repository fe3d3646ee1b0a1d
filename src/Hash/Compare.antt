-- ===== src/Hash/Compare.antt =====
-- src/hash.c: `ct_equal` in a build without OpenSSL; with it the call is `CRYPTO_memcmp`.
use Prim.Native.Nat.{bit_or, bit_xor, bit_or-bitwise, bit_xor-bitwise, digits, differ, max}
use bialet.Prelude.{
  ==_iff, ℕ, zero, suc, ◌/◌, ◌%◌, ◌≤◌, ◌≡◌, refl, sym, ap, ◌∙◌, ◌↔◌, Bool, true, [], ◌∷◌, arith,
  ◌==◌, Bytes, length,
}

-- The loop over both texts; the cast of a byte to `unsigned char` changes nothing.
ct_diff : ℕ → Bytes → Bytes → ℕ
ct_diff diff (x ∷ a) (y ∷ b) = ct_diff (bit_or diff (bit_xor x y)) a b
ct_diff diff _ _ = diff

unfoldable pub ct_equal : Bytes → Bytes → Bool
unfolding ct_diff
ct_equal a b = ct_diff 0 a b == 0

or_digits_zero : (n a b : ℕ) → a ≤ n → digits (λ b. b) max n a b ≡ 0 → (a ≡ 0) × (b ≡ 0)
or_digits_zero zero zero b h e = (refl, e)
or_digits_zero zero (suc a) b h e = absurd (omega arith)
or_digits_zero (suc n) zero b h e = (refl, e)
or_digits_zero (suc n) (suc a) b h e =
    let (p, q) = or_digits_zero n (suc a / 2) (b / 2) (omega arith) (omega (arith, e)) in
    absurd (omega (arith, e, p))

bit_or-eq-zero : (a b : ℕ) → bit_or a b ≡ 0 → (a ≡ 0) × (b ≡ 0)
bit_or-eq-zero a b e = or_digits_zero a a b (omega arith) (sym (bit_or-bitwise a b) ∙ e)

differ-eq-zero : (x y : ℕ) → differ x y ≡ 0 → x ≡ y
differ-eq-zero zero y e = sym e
differ-eq-zero (suc x) zero e = e
differ-eq-zero (suc x) (suc y) e = ap suc (differ-eq-zero x y e)

differ_self : (x : ℕ) → differ x x ≡ 0
differ_self zero = refl
differ_self (suc x) = differ_self x

xor_digits_zero : (n a b : ℕ) → a ≤ n → digits (λ b. b) differ n a b ≡ 0 → a ≡ b
xor_digits_zero zero zero b h e = sym e
xor_digits_zero zero (suc a) b h e = absurd (omega arith)
xor_digits_zero (suc n) zero b h e = sym e
xor_digits_zero (suc n) (suc a) b h e =
    let p = xor_digits_zero n (suc a / 2) (b / 2) (omega arith) (omega (arith, e)) in
    let q = differ-eq-zero (suc a % 2) (b % 2) (omega (arith, e)) in omega (arith, p, q)

xor_digits_self : (n a : ℕ) → a ≤ n → digits (λ b. b) differ n a a ≡ 0
xor_digits_self zero zero h = refl
xor_digits_self zero (suc a) h = absurd (omega arith)
xor_digits_self (suc n) zero h = refl
xor_digits_self (suc n) (suc a) h =
    omega (arith, xor_digits_self n (suc a / 2) (omega arith), differ_self (suc a % 2))

bit_xor-eq-zero : (a b : ℕ) → bit_xor a b ≡ 0 → a ≡ b
bit_xor-eq-zero a b e = xor_digits_zero a a b (omega arith) (sym (bit_xor-bitwise a b) ∙ e)

bit_xor_self : (a : ℕ) → bit_xor a a ≡ 0
bit_xor_self a = bit_xor-bitwise a a ∙ xor_digits_self a a (omega arith)

ct_diff-eq-zero :
    (a b : Bytes) (diff : ℕ) → length a ≡ length b → ct_diff diff a b ≡ 0 → (diff ≡ 0) × (a ≡ b)
unfolding ct_diff
ct_diff-eq-zero [] [] diff l e = (e, refl)
ct_diff-eq-zero [] (y ∷ b) diff l e = absurd (omega (arith, l))
ct_diff-eq-zero (x ∷ a) [] diff l e = absurd (omega (arith, l))
ct_diff-eq-zero (x ∷ a) (y ∷ b) diff l e =
    let (p, q) = ct_diff-eq-zero a b (bit_or diff (bit_xor x y)) (omega (arith, l)) e in
    let (r, s) = bit_or-eq-zero diff (bit_xor x y) p in let t = bit_xor-eq-zero x y s in (r, cc)

ct_diff_self : (a : Bytes) → ct_diff 0 a a ≡ 0
unfolding ct_diff
ct_diff_self [] = refl
ct_diff_self (x ∷ a) = rw (bit_xor_self x) (ct_diff_self a)

-- Two texts of one length compare equal exactly when they are the same.
pub ct_equal_iff : (a b : Bytes) → length a ≡ length b → (ct_equal a b ≡ true) ↔ (a ≡ b)
unfolding ct_equal
ct_equal_iff a b l = (
  λ h. (ct_diff-eq-zero a b 0 l ((==_iff _ _).0 h)).1,
  λ e. (==_iff _ _).1 (rw (← e) (ct_diff_self a)),
)
