-- ===== src/DateTime.antt =====
-- src/xml/date_time.rs: the SAML subset of `xs:dateTime`, over the bytes of the value.
-- `u8` and `u16` arithmetic keeps the wrap-around of a build without overflow checks.
pub mod Calendar
mod Slices
mod Year
mod Fields
mod Trimming
pub mod Grammar
pub mod Acceptance
pub mod Tests
use mathlib.Core.Option
use opensaml_rs.Prelude.{
  ℕ, ◌+◌, ◌-◌, ◌*◌, ◌%◌, Bool, true, false, ◌&&◌, ◌||◌, not, Option, none, some, List, [], ◌∷◌,
  ◌==◌, ltb, leb, if◌then◌else◌, Text, checked_sub, then_some, position, trim_matches, strip_suffix,
  is_ascii_digit, length, get_elem?, take, drop, all, is_empty,
}

infixl 5 ◌>>=◌ ◌>>◌
abbrev pub ◌>>=◌ {ℓ κ} : {A : Type ℓ} {B : Type κ} → Option A → (A → Option B) → Option B
none >>= k = none
some a >>= k = k a

abbrev pub ◌>>◌ {ℓ} : {B : Type ℓ} → Option (Unit {0}) → Option B → Option B
m >> k = m >>= λ _. k

unfoldable pub parse_two_ascii_digits : Text → ℕ → Option ℕ
parse_two_ascii_digits value offset = do
  t ← get_elem? value offset
  tens ← checked_sub t b'0'
  o ← get_elem? value (offset + 1)
  ones ← checked_sub o b'0'
  then_some (leb tens 9 && leb ones 9) ((tens * 10 + ones) % 256)

-- One round of the fold of `year_modulo`.
abbrev pub year_modulo_step : ℕ → ℕ → ℕ → Option ℕ
year_modulo_step modulus remainder byte = do
  digit ← checked_sub byte b'0'
  then_some (leb digit 9) ((remainder * 10 + digit) % 65536 % modulus)

unfoldable pub year_modulo_from : ℕ → ℕ → Text → Option ℕ
year_modulo_from modulus remainder [] = some remainder
year_modulo_from modulus remainder (byte ∷ year) = do
  next ← year_modulo_step modulus remainder byte
  year_modulo_from modulus next year

unfoldable pub year_modulo : Text → ℕ → Option ℕ
year_modulo year modulus = year_modulo_from modulus 0 year

unfoldable pub signed_year_modulo : Text → Bool → ℕ → Option ℕ
signed_year_modulo year negative modulus = do
  magnitude ← year_modulo year modulus
  some (if negative then (modulus + 1 - magnitude) % modulus else magnitude)

-- `matches!(r, Some(0))`
abbrev pub is_some_zero : Option ℕ → Bool
is_some_zero none = false
is_some_zero (some r) = r == 0

unfoldable pub is_leap_year : Text → Bool → Bool
is_leap_year year negative =
    is_some_zero (signed_year_modulo year negative 400)
    || (is_some_zero (signed_year_modulo year negative 4)
        && not (is_some_zero (signed_year_modulo year negative 100)))

-- The `match month` of `is_valid_calendar_day`; `none` is its early return.
unfoldable pub max_day : Text → Bool → ℕ → Option ℕ
max_day year negative month =
    if month == 1
      || month == 3
      || month == 5
      || month == 7
      || month == 8
      || month == 10
      || month == 12
    then some 31
    else if month == 4 || month == 6 || month == 9 || month == 11
    then some 30
    else if month == 2 && is_leap_year year negative
    then some 29
    else if month == 2
    then some 28
    else none

unfoldable pub is_valid_calendar_day : Text → Bool → ℕ → ℕ → Bool
is_valid_calendar_day year negative month day = elim (max_day year negative month) [
  | none ↦ false
  | some last ↦ leb 1 day && leb day last
]

abbrev pub is_xml_schema_whitespace : ℕ → Bool
is_xml_schema_whitespace c = c == b' ' || c == 9 || c == 10 || c == 13

-- `bytes.get(i) == Some(&c)`
abbrev pub byte_is : Text → ℕ → ℕ → Bool
byte_is bytes i c = elim (get_elem? bytes i) [ none ↦ false | some b ↦ b == c ]

abbrev pub is_zero_digit : ℕ → Bool
is_zero_digit b = b == b'0'

-- The lexical test of the year.
unfoldable pub year_is_lexical : Text → Bool
year_is_lexical year =
    not (
      ltb (length year) 4 || (ltb 4 (length year) && byte_is year 0 b'0') || all is_zero_digit year)
    && elim (year_modulo year 400) [ none ↦ false | some _ ↦ true ]

-- The separators that stand at fixed places behind the year.
unfoldable pub separators_ok : Text → ℕ → Bool
separators_ok bytes at =
    leb (at + 15) (length bytes)
    && byte_is bytes at b'-'
    && byte_is bytes (at + 3) b'-'
    && byte_is bytes (at + 6) b'T'
    && byte_is bytes (at + 9) b':'
    && byte_is bytes (at + 12) b':'

-- `valid_fractional`: nothing, or a point and digits.
unfoldable pub fraction_ok : Text → Bool
fraction_ok [] = true
fraction_ok (c ∷ digits) = c == b'.' && not (is_empty digits) && all is_ascii_digit digits

-- `fractional.get(1..).is_none_or(|digits| all zero)`: `get(1..)` is none on an empty slice.
unfoldable pub fraction_is_zero : Text → Bool
fraction_is_zero [] = true
fraction_is_zero (c ∷ digits) = all is_zero_digit digits

-- `if !b { return None; }`
abbrev pub require : Bool → Option (Unit {0})
require b = then_some b tt

-- The part of `parse_saml_utc_date_time_with_seconds` behind the year: `at` is `year_separator`.
unfoldable pub parse_after_year : Text → ℕ → Text → Bool → Option ℕ
parse_after_year bytes at year negative_year = do
  require (separators_ok bytes at)
  month ← parse_two_ascii_digits bytes (at + 1)
  day ← parse_two_ascii_digits bytes (at + 4)
  hour ← parse_two_ascii_digits bytes (at + 7)
  minute ← parse_two_ascii_digits bytes (at + 10)
  second ← parse_two_ascii_digits bytes (at + 13)
  require (is_valid_calendar_day year negative_year month day && leb minute 59 && leb second 60)
  let fractional = drop (at + 15) bytes
  require (fraction_ok fractional)
  then_some
      (ltb hour 24 || (hour == 24 && minute == 0 && second == 0 && fraction_is_zero fractional))
      second

-- `bytes` is the value without its final `Z`.
unfoldable pub parse_without_timezone : Text → Option ℕ
parse_without_timezone bytes = do
  let negative_year = byte_is bytes 0 b'-'
  let year_start = if negative_year then 1 else 0
  offset ← position b'-' (drop year_start bytes)
  let year = take offset (drop year_start bytes)
  require (year_is_lexical year)
  parse_after_year bytes (year_start + offset) year negative_year

unfoldable pub parse_saml_utc_date_time_with_seconds : Text → Option (Text × ℕ)
parse_saml_utc_date_time_with_seconds raw = do
  let value = trim_matches is_xml_schema_whitespace raw
  without_timezone ← strip_suffix b'Z' value
  second ← parse_without_timezone without_timezone
  some (value, second)

unfoldable pub parse_saml_utc_date_time : Text → Option Text
parse_saml_utc_date_time value = Option.map (λ p. p.0) (parse_saml_utc_date_time_with_seconds value)

unfoldable pub parse_generated_saml_utc_date_time : Text → Option Text
parse_generated_saml_utc_date_time value = do
  p ← parse_saml_utc_date_time_with_seconds value
  then_some (ltb p.1 60) p.0
