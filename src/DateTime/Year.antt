-- ===== src/DateTime/Year.antt =====
-- src/xml/date_time.rs: what the lexical test of the year accepts.
use opensaml_rs.Prelude.{
  ℕ, ◌+◌, ◌-◌, ◌*◌, ◌%◌, ◌≤◌, ◌<◌, ◌≡◌, refl, true, false, some, [], ◌∷◌, arith, Text, All, all,
  length, Bool-cases, Option-cases, inl, inr,
}
use opensaml_rs.DateTime.{year_modulo_from, year_modulo, year_is_lexical, byte_is, is_zero_digit}
use opensaml_rs.DateTime.Calendar.{IsDigit, number_from, number, year_modulo_400}

year_modulo_from-IsDigit :
    (m n : ℕ) (year : Text) {r : ℕ} → year_modulo_from m n year ≡ some r → All IsDigit year
unfolding year_modulo_from
year_modulo_from-IsDigit m n [] h = tt
year_modulo_from-IsDigit m n (d ∷ year) {r} h =
    ground (arith, year_modulo_from-IsDigit m ((n * 10 + (d - b'0')) % 65536 % m) year {r = r})

number_from_pos : (n : ℕ) (year : Text) → 0 < n → 0 < number_from n year
unfolding number_from
number_from_pos n [] h = h
number_from_pos n (d ∷ year) h = number_from_pos (n * 10 + (d - b'0')) year (omega arith)

number-zero : (year : Text) → all is_zero_digit year ≡ true → number_from 0 year ≡ 0
unfolding number_from
number-zero [] h = refl
number-zero (d ∷ year) h =
    let e : 0 * 10 + (d - b'0') ≡ 0 = ground arith in rw e (number-zero year (ground arith))

number-pos :
    (n : ℕ) (year : Text)
    → All IsDigit year
    → all is_zero_digit year ≡ false
    → 0 < number_from n year
unfolding number_from
number-pos n [] h z = cc
number-pos n (d ∷ year) h z =
    ground
      (arith, number_from_pos (n * 10 + (d - b'0')) year, number-pos (n * 10 + (d - b'0')) year h.1)

-- The lexical form of a year: four or more digits, no padding beyond four, not zero.
pub record IsYear (year : Text) : Type 0 where
  pub digits : All IsDigit year
  pub long : 4 ≤ length year
  pub unpadded : 4 < length year → byte_is year 0 b'0' ≡ false
  pub nonzero : 0 < number year

year_is_lexical-IsDigit : (year : Text) → year_is_lexical year ≡ true → All IsDigit year
unfolding year_is_lexical year_modulo
year_is_lexical-IsDigit year h = elim (Option-cases (year_modulo_from 400 0 year)) [
  | inl refused ↦ ground arith
  | inr (r, e) ↦ year_modulo_from-IsDigit 400 0 year e
]

pub year_is_lexical-IsYear : (year : Text) → year_is_lexical year ≡ true → IsYear year
unfolding year_is_lexical
year_is_lexical-IsYear year h =
    let ds = year_is_lexical-IsDigit year h in
    record {
      digits = ds;
      long = ground arith;
      unpadded = λ l. ground arith;
      nonzero = number-pos 0 year ds (ground arith);
    }

pub IsYear-year_is_lexical : (year : Text) → IsYear year → year_is_lexical year ≡ true
unfolding year_is_lexical
IsYear-year_is_lexical year v = elim (Bool-cases (all is_zero_digit year)) [
  | inl zeros ↦ absurd (omega (arith, number-zero year zeros, v.nonzero))
  | inr some_digit ↦ ground (arith, year_modulo_400 year v.digits)
]
