-- ===== src/Prelude/Decimal.antt =====
-- `format!("{}", n)` of an unsigned integer.
use Prim.Native.String.{String, ◌++◌}
use mathlib.Core.Path.{◌≡◌, refl}
use Prim.Native.Nat.{ℕ, zero, suc, ◌/◌, ◌%◌}
use mxdx.Prelude.Tests.{if◌then◌else◌, ◌==◌, ltb}

digit : ℕ → String
digit n =
    if n == 0
    then "0"
    else if n == 1
    then "1"
    else if n == 2
    then "2"
    else if n == 3
    then "3"
    else if n == 4
    then "4"
    else if n == 5
    then "5"
    else if n == 6
    then "6"
    else if n == 7
    then "7"
    else if n == 8
    then "8"
    else "9"

-- Each round takes a digit off, so that `n + 1` rounds are enough for `n`.
decimal_rounds : ℕ → ℕ → String → String
unfolding digit
decimal_rounds zero n acc = acc
decimal_rounds (suc fuel) n acc =
    let more = decimal_rounds fuel (n / 10) (digit (n % 10) ++ acc) in
    if ltb n 10 then digit n ++ acc else more

unfoldable pub decimal : ℕ → String
unfolding decimal_rounds
decimal n = decimal_rounds (suc n) n ""

decimal_250 : decimal 250 ≡ "250"
unfolding decimal
decimal_250 = refl
