-- ===== src/Utils/Strtol.antt =====
-- `strtol` with base 10, as src/hash.c and src/cli.c call it.
use bialet.Utils.Trim.{trim_start}
use bialet.Prelude.Decimal.{is_digit}
use bialet.Prelude.{
  [], none, some, none, some, drop, ◌-◌, ◌||◌, ◌==◌, ◌+◌, peek, ◌*◌, if◌then◌else◌, Bool, ◌∷◌,
  Option, Bytes, ℕ,
}

-- The digits that `strtol` reads, and the unread bytes. It would clamp the number to `LONG_MAX`;
-- the callers see to that.
unfoldable pub read_digits : ℕ → Bytes → ℕ × Bytes
read_digits n [] = (n, [])
read_digits n (c ∷ s) = if is_digit c then read_digits (10 * n + (c - b'0')) s else (n, c ∷ s)

-- `strtol(p, &end, 10)`: whether there was a minus sign, the digits' number and the text at `end`,
-- or `none` where `end == p`.
unfoldable pub strtol : Bytes → Option (Bool × ℕ × Bytes)
unfolding read_digits trim_start
strtol p =
    let s = trim_start p in
    let t = if peek s == b'-' || peek s == b'+' then drop 1 s else s in
    let (n, end) = read_digits 0 t in
    if is_digit (peek t) then some (peek s == b'-', n, end) else none
