-- ===== src/Common/Decimal.antt =====
-- `%d` of `fmt.Sprintf`, for a number that is not negative.
use Prim.Native.String
use test_lintaspay_backend.Common.Tests.{eqb, ltb, if◌then◌else◌}
use Prim.Native.Nat.{ℕ, zero, suc, ◌/◌, ◌%◌}
use Prim.Native.String.{String}
use mathlib.Core.Path.{◌≡◌, refl}

digit : ℕ → String
digit n =
    if eqb n 0
    then "0"
    else if eqb n 1
    then "1"
    else if eqb n 2
    then "2"
    else if eqb n 3
    then "3"
    else if eqb n 4
    then "4"
    else if eqb n 5
    then "5"
    else if eqb n 6
    then "6"
    else if eqb n 7
    then "7"
    else if eqb n 8
    then "8"
    else "9"

-- The digits of `n` in front of `acc`; `n + 1` rounds are enough.
digits : ℕ → ℕ → String → String
digits zero n acc = acc
digits (suc fuel) n acc =
    let front = String.◌++◌ (digit (n % 10)) acc in
    let rest = digits fuel (n / 10) front in if ltb n 10 then front else rest

unfoldable pub decimal : ℕ → String
unfolding digits digit
decimal n = digits (suc n) n ""

decimal_tests : (decimal 0 ≡ "0") × (decimal 207 ≡ "207")
unfolding decimal
decimal_tests = (refl, refl)
