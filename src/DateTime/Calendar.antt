-- ===== src/DateTime/Calendar.antt =====
-- src/xml/date_time.rs: the year arithmetic on digits against the Gregorian calendar on numbers.
use opensaml_rs.Prelude.{
  ℕ, ◌+◌, ◌-◌, ◌*◌, ◌%◌, ◌≤◌, ◌<◌, ◌≡◌, refl, ◌↔◌, Bool, true, false, ◌&&◌, ◌||◌, not, some, [],
  ◌∷◌, arith, ◌==◌, leb, if◌then◌else◌, Text, is_ascii_digit, All,
}
use opensaml_rs.DateTime.{
  year_modulo_from, year_modulo, signed_year_modulo, is_leap_year, max_day, is_valid_calendar_day,
}

abbrev pub IsDigit : ℕ → Type 0
IsDigit b = is_ascii_digit b ≡ true

-- The number that digits denote, read from the left behind the value `n`.
unfoldable pub number_from : ℕ → Text → ℕ
number_from n [] = n
number_from n (d ∷ year) = number_from (n * 10 + (d - b'0')) year

abbrev pub number : Text → ℕ
number year = number_from 0 year

module _ (m : ℕ)
    (step : (n d : ℕ) → d ≤ 9 → ((n % m * 10 + d) % 65536 % m) ≡ ((n * 10 + d) % m)) where
  year_modulo_from_lem :
      (n : ℕ) (year : Text)
      → All IsDigit year
      → year_modulo_from m (n % m) year ≡ some (number_from n year % m)
  unfolding year_modulo_from number_from
  year_modulo_from_lem n [] h = refl
  year_modulo_from_lem n (d ∷ year) (p, h) =
      ground (arith, step n (d - b'0'), year_modulo_from_lem (n * 10 + (d - b'0')) year h)

step_400 : (n d : ℕ) → d ≤ 9 → ((n % 400 * 10 + d) % 65536 % 400) ≡ ((n * 10 + d) % 400)
step_400 n d h = omega arith

step_100 : (n d : ℕ) → d ≤ 9 → ((n % 100 * 10 + d) % 65536 % 100) ≡ ((n * 10 + d) % 100)
step_100 n d h = omega arith

step_4 : (n d : ℕ) → d ≤ 9 → ((n % 4 * 10 + d) % 65536 % 4) ≡ ((n * 10 + d) % 4)
step_4 n d h = omega arith

pub year_modulo_400 :
    (year : Text) → All IsDigit year → year_modulo year 400 ≡ some (number year % 400)
unfolding year_modulo
year_modulo_400 year h = year_modulo_from_lem 400 step_400 0 year h

year_modulo_100 : (year : Text) → All IsDigit year → year_modulo year 100 ≡ some (number year % 100)
unfolding year_modulo
year_modulo_100 year h = year_modulo_from_lem 100 step_100 0 year h

year_modulo_4 : (year : Text) → All IsDigit year → year_modulo year 4 ≡ some (number year % 4)
unfolding year_modulo
year_modulo_4 year h = year_modulo_from_lem 4 step_4 0 year h

-- The Gregorian rule on a year whose remainder decides divisibility.
unfoldable pub gregorian_leap : ℕ → Bool
gregorian_leap y = y % 400 == 0 || (y % 4 == 0 && not (y % 100 == 0))

-- The year -n of XML Schema 1.0, which has no year 0, is the astronomical year 1 - n; divisibility
-- is that of n - 1.
abbrev pub astronomical : Text → Bool → ℕ
astronomical year negative = if negative then number year - 1 else number year

-- The leap-year test on digits is the Gregorian rule on the astronomical year, for years of any
-- length and either sign other than year 0.
pub is_leap_year-gregorian_leap :
    (year : Text) (negative : Bool)
    → All IsDigit year
    → 0 < number year
    → is_leap_year year negative ≡ gregorian_leap (astronomical year negative)
unfolding is_leap_year signed_year_modulo gregorian_leap
is_leap_year-gregorian_leap year true h p =
    ground (arith, year_modulo_400 year h, year_modulo_100 year h, year_modulo_4 year h)
is_leap_year-gregorian_leap year false h p =
    ground (arith, year_modulo_400 year h, year_modulo_100 year h, year_modulo_4 year h)

-- The days of a month, by the table of the calendar.
unfoldable pub days_in_month : ℕ → ℕ → ℕ
days_in_month y month =
    if month == 2
    then (if gregorian_leap y then 29 else 28)
    else if leb month 7
    then 30 + month % 2
    else 31 - month % 2

-- A day is accepted exactly when it exists in the Gregorian calendar.
pub is_valid_calendar_day_iff :
    (year : Text) (negative : Bool) (month day : ℕ)
    → All IsDigit year
    → 0 < number year
    → (is_valid_calendar_day year negative month day ≡ true) ↔ (
        (1 ≤ month)
        × (month ≤ 12)
        × (1 ≤ day)
        × (day ≤ days_in_month (astronomical year negative) month))
unfolding is_valid_calendar_day max_day days_in_month
is_valid_calendar_day_iff year negative month day h p =
    ground (arith, is_leap_year-gregorian_leap year negative h p)
