-- ===== src/Common/Date.antt =====
-- time.Parse with the layout "2006-01-02": four, two and two digits, a month of the year and a day
-- of the month, and nothing else.
use Prim.Native.Nat.{ℕ, ◌+◌, ◌-◌, ◌*◌, ◌%◌}
use Prim.Native.String.{String}
use mathlib.Core.Path.{◌≡◌, refl}
use mathlib.Core.Bool.{Bool, not, ◌&&◌, ◌||◌}
use mathlib.Core.Option.{Option, none, some}
use mathlib.Core.List.{List, [], ◌∷◌}
use test_lintaspay_backend.Common.Tests.{ltb, leb, eqb, if◌then◌else◌}
use test_lintaspay_backend.Common.Text.{codes}

pub record Date : Type 0 where
  pub year : ℕ
  pub month : ℕ
  pub day : ℕ

is_digit : ℕ → Bool
is_digit c = leb 48 c && leb c 57

is_leap : ℕ → Bool
is_leap y = eqb (y % 4) 0 && (not (eqb (y % 100) 0) || eqb (y % 400) 0)

days_in : ℕ → ℕ → ℕ
days_in y m =
    if eqb m 2
    then (if is_leap y then 29 else 28)
    else if eqb m 4 || eqb m 6 || eqb m 9 || eqb m 11
    then 30
    else 31

is_date : Date → Bool
is_date d = leb 1 d.month && leb d.month 12 && leb 1 d.day && leb d.day (days_in d.year d.month)

two : ℕ → ℕ → ℕ
two a b = (a - 48) * 10 + (b - 48)

parse_codes : List ℕ → Option Date
parse_codes (a ∷ b ∷ c ∷ d ∷ s ∷ e ∷ f ∷ t ∷ g ∷ h ∷ []) =
    let date : Date = record { year = two a b * 100 + two c d; month = two e f; day = two g h } in
    if is_digit a
      && is_digit b
      && is_digit c
      && is_digit d
      && eqb s b'-'
      && is_digit e
      && is_digit f
      && eqb t b'-'
      && is_digit g
      && is_digit h
      && is_date date
    then some date
    else none
parse_codes _ = none

unfoldable pub parse_date : String → Option Date
unfolding parse_codes is_digit is_leap days_in is_date two
parse_date s = parse_codes (codes s)

-- `a.After(b)` for two dates at midnight UTC.
unfoldable pub after : Date → Date → Bool
after a b =
    ltb b.year a.year
    || (eqb b.year a.year && (ltb b.month a.month || (eqb b.month a.month && ltb b.day a.day)))

parse_tests :
    (parse_date "2024-02-29" ≡ some (record { year = 2024; month = 2; day = 29 }))
    × (parse_date "2023-02-29" ≡ none)
    × (parse_date "2024-1-01" ≡ none)
    × (parse_date "2024-01-01T" ≡ none)
unfolding parse_date
parse_tests = (refl, refl, refl, refl)
