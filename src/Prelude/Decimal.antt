-- ===== src/Prelude/Decimal.antt =====
-- `%d` of fmt, on the numbers that the source prints: they are not negative.
use Prim.Native.Nat.{ℕ, zero, suc, ◌/◌, ◌%◌}
use Prim.Native.String.{String, ◌++◌}
use mathlib.Core.Path.{◌≡◌, refl}
use homebrew_tools.Prelude.Tests.{ltb, ◌==◌, if◌then◌else◌}

unfoldable pub digit : ℕ → String
digit d =
    if d == 0
    then "0"
    else if d == 1
    then "1"
    else if d == 2
    then "2"
    else if d == 3
    then "3"
    else if d == 4
    then "4"
    else if d == 5
    then "5"
    else if d == 6
    then "6"
    else if d == 7
    then "7"
    else if d == 8
    then "8"
    else "9"

unfoldable pub decimal_from : ℕ → ℕ → String
unfolding digit
decimal_from zero n = ""
decimal_from (suc f) n =
    let high = decimal_from f (n / 10) in if ltb n 10 then digit n else high ++ digit (n % 10)

-- A number has at most as many digits as its value and one more.
unfoldable pub decimal : ℕ → String
unfolding decimal_from
decimal n = decimal_from (suc n) n

decimal_port : decimal 5584 ≡ "5584"
unfolding decimal
decimal_port = refl
