-- ===== src/Prelude/Decimal.antt =====
-- `%d` and `%zu` of a number that is not negative: its decimal digits.
use mathlib.Core.List.{cons-ne-nil, [], ◌∷◌}
use native.Mathlib.Omega.{arith}
use native.Mathlib.Nat.{pow-suc}
use mathlib.Core.Path.{◌≡◌}
use mathlib.Core.Bool.{Bool, true, ◌&&◌}
use mathlib.Core.Logic.{◌≢◌}
use bialet.Prelude.Tests.{ltb, leb, if◌then◌else◌}
use bialet.Prelude.Lists.{All}
use bialet.Prelude.CString.{Bytes}
use Prim.Native.Nat.{ℕ, zero, suc, ◌+◌, ◌-◌, ◌*◌, ◌/◌, ◌%◌, ◌^◌, ◌<◌}

-- A round writes the last digit in front; 20 rounds are enough below 10 ^ 20, so for 64 bits.
unfoldable pub dec_loop : ℕ → ℕ → Bytes → Bytes
dec_loop zero n out = out
dec_loop (suc fuel) n out =
    let more = dec_loop fuel (n / 10) ((b'0' + n % 10) ∷ out) in
    if ltb n 10 then (b'0' + n) ∷ out else more

unfoldable pub decimal : ℕ → Bytes
decimal n = dec_loop 20 n []

-- The number that the digits of a text spell when they follow those of `high`, with no bound.
abbrev pub digits_value : ℕ → Bytes → ℕ
digits_value high [] = high
digits_value high (d ∷ more) = digits_value (10 * high + (d - b'0')) more

abbrev pub is_digit : ℕ → Bool
is_digit c = leb b'0' c && leb c b'9'

abbrev pub IsDigits : Bytes → Type 0
IsDigits = All (λ c. is_digit c ≡ true)

value-dec_loop :
    (fuel n : ℕ) (out : Bytes)
    → n < 10 ^ fuel
    → 0 < fuel
    → digits_value 0 (dec_loop fuel n out) ≡ digits_value n out
unfolding dec_loop
value-dec_loop zero n out h p = absurd (omega arith)
value-dec_loop (suc zero) n out h p = ground arith
value-dec_loop (suc (suc fuel)) n out h p =
    ground (arith, value-dec_loop (suc fuel) (n / 10) ((b'0' + n % 10) ∷ out) (tenth n fuel h))
  where
    tenth : (n fuel : ℕ) → n < 10 ^ suc (suc fuel) → n / 10 < 10 ^ suc fuel
    tenth n fuel h = omega (arith, pow-suc 10 (suc fuel))

IsDigits-dec_loop : (fuel n : ℕ) (out : Bytes) → IsDigits out → IsDigits (dec_loop fuel n out)
unfolding dec_loop
IsDigits-dec_loop zero n out h = h
IsDigits-dec_loop (suc fuel) n out h =
    ground (arith, IsDigits-dec_loop fuel (n / 10) ((b'0' + n % 10) ∷ out))

dec_loop-ne-nil : (fuel n : ℕ) (out : Bytes) → out ≢ [] → dec_loop fuel n out ≢ []
unfolding dec_loop
dec_loop-ne-nil zero n out h = h
dec_loop-ne-nil (suc fuel) n out h =
    ground (arith, dec_loop-ne-nil fuel (n / 10) ((b'0' + n % 10) ∷ out))

dec_loop-suc-ne-nil : (fuel n : ℕ) (out : Bytes) → dec_loop (suc fuel) n out ≢ []
unfolding dec_loop
dec_loop-suc-ne-nil fuel n out =
    ground (arith, dec_loop-ne-nil fuel (n / 10) ((b'0' + n % 10) ∷ out) (cons-ne-nil _ out))

pub value-decimal : (n : ℕ) → n < 10 ^ 20 → digits_value 0 (decimal n) ≡ n
unfolding decimal
value-decimal n h = value-dec_loop 20 n [] h (omega arith)

pub decimal-IsDigits : (n : ℕ) → IsDigits (decimal n)
unfolding decimal
decimal-IsDigits n = IsDigits-dec_loop 20 n [] tt

pub decimal-ne-nil : (n : ℕ) → decimal n ≢ []
unfolding decimal
decimal-ne-nil n = dec_loop-suc-ne-nil 19 n []
