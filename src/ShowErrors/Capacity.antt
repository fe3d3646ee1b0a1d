-- ===== src/ShowErrors/Capacity.antt =====
-- The capacity of the captured text.
use bialet.ShowErrors.{grow_loop, grown}
use native.Mathlib.Nat.{mul_assoc, pow-succ'}
use bialet.Prelude.{
  refl, refl, ◌∙◌, ltb→lt, false, arith, ltb, Bool-cases, ◌*◌, ◌≡◌, ◌≤◌, ◌^◌, ◌<◌, ℕ, inl, inr,
  some, zero, suc, if◌then◌else◌, ◌%◌, ◌==◌,
}

grow_loop-ends :
    (fuel room needed : ℕ)
    → 0 < room
    → room < 2 ^ 64
    → needed ≤ 2 ^ 63
    → needed ≤ room * 2 ^ fuel
    → (k : ℕ) × (grow_loop fuel room needed ≡ some k) × (needed ≤ k) × (k < 2 ^ 64)
unfolding grow_loop
grow_loop-ends zero room needed p s n h =
    let enough : ltb room needed ≡ false = ground arith in (room, rw enough refl, omega arith, s)
grow_loop-ends (suc fuel) room needed p s n h = elim (Bool-cases (ltb room needed)) [
  | inr e ↦ (room, rw e refl, ground arith, s)
  | inl e ↦
      let small = ltb→lt room needed e in
      let same : room * 2 % 2 ^ 64 ≡ room * 2 = omega arith in
      let more : needed ≤ room * 2 * 2 ^ fuel =
        rw (mul_assoc room 2 (2 ^ fuel), ← pow-succ' 2 fuel) h in
      let (k, f, g, l) =
        grow_loop-ends fuel (room * 2) needed (omega arith) (omega (arith, small)) n more in
      let round : grow_loop (suc fuel) room needed ≡ grow_loop fuel (room * 2) needed =
        rw (e, same) refl in
      (k, round ∙ f, g, l)
]

pub grown-fits :
    (room needed : ℕ)
    → room < 2 ^ 64
    → needed ≤ 2 ^ 63
    → (k : ℕ) × (grown room needed ≡ some k) × (needed ≤ k) × (k < 2 ^ 64)
unfolding grown
grown-fits room needed s n = elim (Bool-cases (ltb room needed)) [
  | inr e ↦ (room, rw e refl, ground arith, s)
  | inl e ↦
      let small = ltb→lt room needed e in
      let first = if room == 0 then 256 else room * 2 % 2 ^ 64 in
      let some_room : 0 < first = ground (arith, small) in
      let no_wrap : first < 2 ^ 64 = ground (arith, small) in
      let (k, f, g, l) =
        grow_loop-ends 64 first needed some_room no_wrap n (omega (arith, some_room)) in
      let asks : grown room needed ≡ grow_loop 64 first needed = rw e refl in (k, asks ∙ f, g, l)
]
