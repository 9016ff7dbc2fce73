-- ===== src/Prelude/Decimal.antt =====
-- `Display` of the integers.
use Prim.Native.Nat.{ℕ, zero, suc, ◌/◌, ◌%◌}
use Prim.Native.String.{String, ◌++◌}
use bikesnest.Prelude.Tests.{ltb, ◌==◌, if◌then◌else◌}

digit : ℕ → String
digit n =
    if n == 0
    then "0"
    else if n == 1
    then "1"
    else if n == 2
    then "2"
    else if n == 3
    then "3"
    else if n == 4
    then "4"
    else if n == 5
    then "5"
    else if n == 6
    then "6"
    else if n == 7
    then "7"
    else if n == 8
    then "8"
    else "9"

-- A number has fewer digits than it has units, so `n` rounds are enough.
digits_on : ℕ → ℕ → String
unfolding digit
digits_on zero n = digit n
digits_on (suc rounds) n =
    let front = digits_on rounds (n / 10) in if ltb n 10 then digit n else front ++ digit (n % 10)

unfoldable pub show_ℕ : ℕ → String
unfolding digits_on
show_ℕ n = digits_on n n
