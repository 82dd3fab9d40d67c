-- ===== src/DateTime/Fields.antt =====
-- src/xml/date_time.rs: the fields behind the year, which stand at fixed places.
use opensaml_rs.Prelude.{
  ℕ, zero, suc, ◌+◌, ◌/◌, ◌%◌, ◌≤◌, ◌<◌, ◌≡◌, refl, sym, ap, ◌∙◌, ◌≢◌, ◌↔◌, ◌⊎◌, Bool, true, some,
  [], ◌∷◌, ◌++◌, arith, Text, All, all, drop, get_elem?, length, length-append, is_ascii_digit,
}
use opensaml_rs.DateTime.{
  parse_two_ascii_digits, is_valid_calendar_day, is_zero_digit, byte_is, separators_ok, fraction_ok,
  fraction_is_zero, parse_after_year,
}
use opensaml_rs.DateTime.Calendar.{
  IsDigit, number, astronomical, days_in_month, is_valid_calendar_day_iff,
}
use opensaml_rs.DateTime.Slices.{get_elem?-append, drop-append}

-- What stands behind the year. `fraction` has its decimal point, or is empty.
pub record Fields : Type 0 where
  pub month : ℕ
  pub day : ℕ
  pub hour : ℕ
  pub minute : ℕ
  pub second : ℕ
  pub fraction : Text

abbrev pub two_digits : ℕ → Text → Text
two_digits n rest = (b'0' + n / 10) ∷ (b'0' + n % 10) ∷ rest

-- The text of the fields, `-MM-DDThh:mm:ss.f`, and the same behind its first dash.
abbrev pub tail_of : Fields → Text
tail_of f = two_digits f.month (
    b'-'
    ∷ two_digits f.day (
        b'T'
        ∷ two_digits f.hour (b':' ∷ two_digits f.minute (b':' ∷ two_digits f.second f.fraction))))

abbrev pub suffix : Fields → Text
suffix f = b'-' ∷ tail_of f

abbrev pub IsFraction : Text → Type 0
IsFraction [] = Unit
IsFraction (c ∷ digits) = (c ≡ b'.') × (digits ≢ []) × All IsDigit digits

abbrev pub IsZero : ℕ → Type 0
IsZero b = b ≡ b'0'

-- The fields name a moment of a day of the calendar year `y`; the hour 24 is its last moment, and
-- a minute may have a leap second.
pub record IsMoment (y : ℕ) (f : Fields) : Type 0 where
  pub month_low : 1 ≤ f.month
  pub month_high : f.month ≤ 12
  pub day_low : 1 ≤ f.day
  pub day_high : f.day ≤ days_in_month y f.month
  pub minute_high : f.minute ≤ 59
  pub second_high : f.second ≤ 60
  pub fraction_form : IsFraction f.fraction
  pub hour_high :
      (f.hour < 24)
      ⊎ ((f.hour ≡ 24) × (f.minute ≡ 0) × (f.second ≡ 0) × All IsZero (drop 1 f.fraction))

all-digits : (xs : Text) → all is_ascii_digit xs ≡ true → All IsDigit xs
all-digits [] h = tt
all-digits (x ∷ xs) h = ground (arith, all-digits xs)

All-digits : (xs : Text) → All IsDigit xs → all is_ascii_digit xs ≡ true
All-digits [] h = refl
All-digits (x ∷ xs) h = ground (arith, All-digits xs h.1)

all-zeros : (xs : Text) → all is_zero_digit xs ≡ true → All IsZero xs
all-zeros [] h = tt
all-zeros (x ∷ xs) h = ground (arith, all-zeros xs)

All-zeros : (xs : Text) → All IsZero xs → all is_zero_digit xs ≡ true
All-zeros [] h = refl
All-zeros (x ∷ xs) h = ground (arith, All-zeros xs h.1)

fraction_ok_iff : (t : Text) → (fraction_ok t ≡ true) ↔ IsFraction t
unfolding fraction_ok
fraction_ok_iff [] = (λ h. tt, λ h. refl)
fraction_ok_iff (c ∷ []) = (λ h. ground arith, λ h. absurd (h.1 refl))
fraction_ok_iff (c ∷ d ∷ digits) = (
  λ h. (ground arith, λ e. cc, all-digits (d ∷ digits) (ground arith)),
  λ h. ground (arith, All-digits (d ∷ digits) h.2),
)

fraction_is_zero_iff : (t : Text) → (fraction_is_zero t ≡ true) ↔ All IsZero (drop 1 t)
unfolding fraction_is_zero
fraction_is_zero_iff [] = (λ h. tt, λ h. refl)
fraction_is_zero_iff (c ∷ digits) = (all-zeros digits, All-zeros digits)

parse_two_render :
    (n : ℕ) (rest : Text) → n < 100 → parse_two_ascii_digits (two_digits n rest) 0 ≡ some n
unfolding parse_two_ascii_digits
parse_two_render n rest h = ground arith

parse_two_shift :
    (pre suf : Text) (k : ℕ)
    → parse_two_ascii_digits (pre ++ suf) (length pre + k) ≡ parse_two_ascii_digits suf k
unfolding parse_two_ascii_digits
parse_two_shift pre suf k =
    let e : length pre + k + 1 ≡ length pre + (k + 1) = omega arith in
    rw (get_elem?-append pre suf k, e, get_elem?-append pre suf (k + 1))

byte_is_shift :
    (pre suf : Text) (k c : ℕ) → byte_is (pre ++ suf) (length pre + k) c ≡ byte_is suf k c
byte_is_shift pre suf k c = ground (arith, get_elem?-append pre suf k)

separators_ok_shift :
    (pre suf : Text) → separators_ok (pre ++ suf) (length pre) ≡ separators_ok suf 0
unfolding separators_ok
separators_ok_shift pre suf =
    let e : length pre ≡ length pre + 0 = omega arith in
    ground (
      arith,
      length-append pre suf,
      ap (λ k. byte_is (pre ++ suf) k b'-') e,
      byte_is_shift pre suf 0 b'-',
      byte_is_shift pre suf 3 b'-',
      byte_is_shift pre suf 6 b'T',
      byte_is_shift pre suf 9 b':',
      byte_is_shift pre suf 12 b':',
    )

-- Parsing behind a prefix is parsing what follows it.
pub parse_after_year_shift :
    (pre suf year : Text) (negative : Bool)
    → parse_after_year (pre ++ suf) (length pre) year negative
      ≡ parse_after_year suf 0 year negative
unfolding parse_after_year
parse_after_year_shift pre suf year negative = rw (
  separators_ok_shift pre suf,
  parse_two_shift pre suf 1,
  parse_two_shift pre suf 4,
  parse_two_shift pre suf 7,
  parse_two_shift pre suf 10,
  parse_two_shift pre suf 13,
  drop-append pre suf 15,
)

parse_two_exact :
    (a b : ℕ) (rest : Text) {n : ℕ}
    → parse_two_ascii_digits (a ∷ b ∷ rest) 0 ≡ some n
    → (a ≡ b'0' + n / 10) × (b ≡ b'0' + n % 10)
unfolding parse_two_ascii_digits
parse_two_exact a b rest h = ground arith

get_elem?_at : (bytes : Text) (k j : ℕ) → get_elem? bytes (k + j) ≡ get_elem? (drop k bytes) j
get_elem?_at bytes zero j = ap (get_elem? bytes) (omega arith)
get_elem?_at [] (suc k) j = ground arith
get_elem?_at (x ∷ bytes) (suc k) j =
    let e : suc k + j ≡ suc (k + j) = omega arith in rw e (get_elem?_at bytes k j)

parse_two_at :
    (bytes : Text) (k : ℕ)
    → parse_two_ascii_digits bytes k ≡ parse_two_ascii_digits (drop k bytes) 0
unfolding parse_two_ascii_digits
parse_two_at bytes k =
    let e : k ≡ k + 0 = omega arith in
    ground (arith, ap (get_elem? bytes) e, get_elem?_at bytes k 0, get_elem?_at bytes k 1)

days_in_month-le : (y month : ℕ) → month ≤ 12 → days_in_month y month ≤ 31
unfolding days_in_month
days_in_month-le y month h = ground arith

-- The steps of an accepted parse.
parse_after_year_steps :
    (bytes year : Text) (negative : Bool) {s : ℕ}
    → parse_after_year bytes 0 year negative ≡ some s
    → (month : ℕ) × (day : ℕ) × (hour : ℕ) × (minute : ℕ) × (parse_two_ascii_digits bytes 1
        ≡ some month)
      × (parse_two_ascii_digits bytes 4 ≡ some day)
      × (parse_two_ascii_digits bytes 7 ≡ some hour)
      × (parse_two_ascii_digits bytes 10 ≡ some minute)
      × (parse_two_ascii_digits bytes 13 ≡ some s)
      × (separators_ok bytes 0 ≡ true)
      × (is_valid_calendar_day year negative month day ≡ true)
      × (minute ≤ 59)
      × (s ≤ 60)
      × (fraction_ok (drop 15 bytes) ≡ true)
      × ((hour < 24)
          ⊎ ((hour ≡ 24) × (minute ≡ 0) × (s ≡ 0) × (fraction_is_zero (drop 15 bytes) ≡ true)))
unfolding parse_after_year
parse_after_year_steps bytes year negative h = ground arith

module _ (year : Text) (negative : Bool) (digits : All IsDigit year)
    (nonzero : 0 < number year) where
  pub parse_after_year_sound :
      (suf : Text) (s : ℕ)
      → parse_after_year suf 0 year negative ≡ some s
      → (f : Fields) × IsMoment (astronomical year negative) f × (suffix f ≡ suf) × (f.second ≡ s)
  unfolding separators_ok
  parse_after_year_sound
        (c0 ∷ m1 ∷ m2 ∷ c3 ∷ d1 ∷ d2 ∷ c6 ∷ h1 ∷ h2 ∷ c9 ∷ n1 ∷ n2 ∷ c12 ∷ s1 ∷ s2 ∷ rest) s h =
      let tail_d : Text = d1 ∷ d2 ∷ c6 ∷ h1 ∷ h2 ∷ c9 ∷ n1 ∷ n2 ∷ c12 ∷ s1 ∷ s2 ∷ rest in
      let tail_h : Text = h1 ∷ h2 ∷ c9 ∷ n1 ∷ n2 ∷ c12 ∷ s1 ∷ s2 ∷ rest in
      let tail_n : Text = n1 ∷ n2 ∷ c12 ∷ s1 ∷ s2 ∷ rest in
      let bytes : Text = c0 ∷ m1 ∷ m2 ∷ c3 ∷ tail_d in
      let (month, day, hour, minute, em, ed, eh, en, es, seps, cal, low, top, frac, last) =
        parse_after_year_steps bytes year negative h in
      let (month_low, month_high, day_low, day_high) =
        (is_valid_calendar_day_iff year negative month day digits nonzero).0 cal in
      let xm = parse_two_exact m1 m2 (c3 ∷ tail_d) (sym (parse_two_at bytes 1) ∙ em) in
      let xd = parse_two_exact d1 d2 (c6 ∷ tail_h) (sym (parse_two_at bytes 4) ∙ ed) in
      let xh = parse_two_exact h1 h2 (c9 ∷ tail_n) (sym (parse_two_at bytes 7) ∙ eh) in
      let xn = parse_two_exact n1 n2 (c12 ∷ s1 ∷ s2 ∷ rest) (sym (parse_two_at bytes 10) ∙ en) in
      let xs = parse_two_exact s1 s2 rest (sym (parse_two_at bytes 13) ∙ es) in
      (
        record {
          month = month;
          day = day;
          hour = hour;
          minute = minute;
          second = s;
          fraction = rest;
        },
        record {
          month_low = month_low;
          month_high = month_high;
          day_low = day_low;
          day_high = day_high;
          minute_high = low;
          second_high = top;
          fraction_form = (fraction_ok_iff rest).0 frac;
          hour_high = ground (arith, fraction_is_zero_iff rest);
        },
        ground arith,
        refl,
      )
  parse_after_year_sound short s h = cc ((parse_after_year_steps short year negative h).9)

  pub parse_after_year_complete :
      (f : Fields)
      → IsMoment (astronomical year negative) f
      → parse_after_year (suffix f) 0 year negative ≡ some f.second
  unfolding parse_after_year separators_ok
  parse_after_year_complete f v =
      let days : f.day ≤ 31 =
        omega (
          arith,
          days_in_month-le (astronomical year negative) f.month,
          v.month_high,
          v.day_high,
        ) in
      let valid =
        (is_valid_calendar_day_iff year negative f.month f.day digits nonzero).1
          (v.month_low, v.month_high, v.day_low, v.day_high) in
      let tail_s = two_digits f.second f.fraction in
      let tail_n = two_digits f.minute (b':' ∷ tail_s) in
      let tail_h = two_digits f.hour (b':' ∷ tail_n) in
      let tail_d = two_digits f.day (b'T' ∷ tail_h) in
      ground (
        arith,
        parse_two_at (suffix f) 1,
        parse_two_at (suffix f) 4,
        parse_two_at (suffix f) 7,
        parse_two_at (suffix f) 10,
        parse_two_at (suffix f) 13,
        parse_two_render f.month (b'-' ∷ tail_d),
        parse_two_render f.day (b'T' ∷ tail_h),
        parse_two_render f.hour (b':' ∷ tail_n),
        parse_two_render f.minute (b':' ∷ tail_s),
        parse_two_render f.second f.fraction,
        fraction_ok_iff f.fraction,
        fraction_is_zero_iff f.fraction,
      )
