-- ===== src/DateTime/Tests.antt =====
-- The cases of the unit tests of src/xml/date_time.rs, and inputs at which the theorems apply.
use opensaml_rs.Prelude.{
  ◌≡◌, refl, false, none, some, [], ◌∷◌, ◌++◌, Option, Text, ascii, inl, arith,
}
use opensaml_rs.DateTime.{
  parse_two_ascii_digits, year_modulo_from, year_modulo, signed_year_modulo, is_leap_year, max_day,
  is_valid_calendar_day, year_is_lexical, separators_ok, fraction_ok, fraction_is_zero,
  parse_after_year, parse_without_timezone, parse_saml_utc_date_time_with_seconds,
  parse_saml_utc_date_time, parse_generated_saml_utc_date_time,
}
use opensaml_rs.DateTime.Calendar.{number_from, gregorian_leap, days_in_month}
use opensaml_rs.DateTime.Grammar.{Moment, IsValid}
use opensaml_rs.DateTime.Acceptance.{
  render_utc, Denotes, parse_saml_utc_date_time_with_seconds_sound,
  parse_saml_utc_date_time_with_seconds_complete,
}

-- Opens everything that a run of the parser calls.
unfoldable pub run_inbound : Text → Option Text
unfolding parse_saml_utc_date_time parse_saml_utc_date_time_with_seconds parse_after_year
    parse_without_timezone parse_two_ascii_digits year_modulo_from year_modulo signed_year_modulo
    is_leap_year max_day is_valid_calendar_day year_is_lexical separators_ok fraction_ok
    fraction_is_zero
run_inbound value = parse_saml_utc_date_time value

run_generated : Text → Option Text
unfolding run_inbound parse_generated_saml_utc_date_time
run_generated value = parse_generated_saml_utc_date_time value

accepts_leap_day :
    run_inbound (ascii " 2004-02-29T23:59:59Z ") ≡ some (ascii "2004-02-29T23:59:59Z")
unfolding run_inbound ascii
accepts_leap_day = refl

accepts_year_minus_401 :
    run_inbound (ascii "-0401-02-29T00:00:00Z") ≡ some (ascii "-0401-02-29T00:00:00Z")
unfolding run_inbound ascii
accepts_year_minus_401 = refl

rejects_1900_leap_day : run_inbound (ascii "1900-02-29T00:00:00Z") ≡ none
unfolding run_inbound ascii
rejects_1900_leap_day = refl

rejects_padded_year : run_inbound (ascii "01234-01-01T00:00:00Z") ≡ none
unfolding run_inbound ascii
rejects_padded_year = refl

accepts_end_of_day :
    run_inbound (ascii "2024-01-01T24:00:00.000Z") ≡ some (ascii "2024-01-01T24:00:00.000Z")
unfolding run_inbound ascii
accepts_end_of_day = refl

generated_rejects_leap_second : run_generated (ascii "2024-01-01T00:00:60Z") ≡ none
unfolding run_generated ascii
generated_rejects_leap_second = refl

abbrev year_2004 : Text
year_2004 = b'2' ∷ b'0' ∷ b'0' ∷ b'4' ∷ []

abbrev pub leap_day : Moment
leap_day = record {
  negative = false;
  year = year_2004;
  fields = record { month = 2; day = 29; hour = 23; minute = 59; second = 59; fraction = [] };
}

leap_day-IsValid : IsValid leap_day
unfolding number_from days_in_month gregorian_leap
leap_day-IsValid = record {
  year_form = record {
    digits = (refl, (refl, (refl, (refl, tt))));
    long = omega arith;
    unpadded = λ h. absurd (omega arith);
    nonzero = omega arith;
  };
  moment = record {
    month_low = omega arith;
    month_high = omega arith;
    day_low = omega arith;
    day_high = omega arith;
    minute_high = omega arith;
    second_high = omega arith;
    fraction_form = tt;
    hour_high = inl (omega arith);
  };
}

parse_saml_utc_date_time_with_seconds_complete_example :
    parse_saml_utc_date_time_with_seconds ((b' ' ∷ []) ++ (render_utc leap_day ++ 9 ∷ []))
    ≡ some (render_utc leap_day, 59)
parse_saml_utc_date_time_with_seconds_complete_example =
    parse_saml_utc_date_time_with_seconds_complete leap_day (b' ' ∷ []) (9 ∷ []) leap_day-IsValid
      (refl, tt) (refl, tt)

parse_saml_utc_date_time_with_seconds_sound_example :
    (m : Moment) × Denotes (render_utc leap_day) (render_utc leap_day) m × (m.fields.second ≡ 59)
unfolding run_inbound
parse_saml_utc_date_time_with_seconds_sound_example =
    parse_saml_utc_date_time_with_seconds_sound (render_utc leap_day) (render_utc leap_day) 59 refl
