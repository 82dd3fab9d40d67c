-- ===== src/DateTime/Grammar.antt =====
-- The lexical form of the SAML subset of `xs:dateTime`, written as a printer: an independent
-- description of what src/xml/date_time.rs has to accept.
use opensaml_rs.Prelude.{
  ℕ, suc, ◌+◌, ◌≤◌, ◌≡◌, refl, sym, ap, ◌∙◌, ◌≢◌, Bool, true, false, some, [], ◌∷◌, ◌++◌,
  append_assoc, arith, ◌==◌, Text, All, position, length, drop, take-append_self, Bool-cases,
  Option-cases, inl, inr, if◌then◌else◌, ==_iff,
}
use opensaml_rs.DateTime.{
  ◌>>◌, byte_is, require, year_is_lexical, parse_after_year, parse_without_timezone,
}
use opensaml_rs.DateTime.Calendar.{IsDigit, astronomical}
use opensaml_rs.DateTime.Slices.{position-split, position-append}
use opensaml_rs.DateTime.Year.{IsYear, year_is_lexical-IsYear, IsYear-year_is_lexical}
use opensaml_rs.DateTime.Fields.{
  Fields, IsMoment, suffix, tail_of, parse_after_year_shift, parse_after_year_sound,
  parse_after_year_complete,
}

-- A moment: the sign and the digits of the year, and the fields behind it.
pub record Moment : Type 0 where
  pub negative : Bool
  pub year : Text
  pub fields : Fields

abbrev pub sign : Bool → Text
sign true = b'-' ∷ []
sign false = []

-- The text of a moment, without the timezone.
abbrev pub render : Moment → Text
render m = sign m.negative ++ m.year ++ suffix m.fields

-- A moment that exists in the proleptic Gregorian calendar, with a year in lexical form.
pub record IsValid (m : Moment) : Type 0 where
  pub year_form : IsYear m.year
  pub moment : IsMoment (astronomical m.year m.negative) m.fields

IsDigit-ne_dash : (xs : Text) → All IsDigit xs → All (λ b. b ≢ b'-') xs
IsDigit-ne_dash [] h = tt
IsDigit-ne_dash (x ∷ xs) (p, h) = (ground arith, IsDigit-ne_dash xs h)

-- The first byte of a signless moment is a digit.
byte_is-year :
    (year rest : Text) → All IsDigit year → 4 ≤ length year → byte_is (year ++ rest) 0 b'-' ≡ false
byte_is-year [] rest h l = absurd (omega arith)
byte_is-year (d ∷ year) rest h l = ground arith

-- Once the year is told apart, what is left is its lexical test and the fields.
parse_split :
    (negative : Bool) (year rest : Text)
    → byte_is (sign negative ++ year ++ b'-' ∷ rest) 0 b'-' ≡ negative
    → position b'-' (year ++ b'-' ∷ rest) ≡ some (length year)
    → parse_without_timezone (sign negative ++ year ++ b'-' ∷ rest)
      ≡ (require (year_is_lexical year) >> parse_after_year (b'-' ∷ rest) 0 year negative)
unfolding parse_without_timezone
parse_split true year rest b at =
    let e : 1 + length year ≡ suc (length year) = omega arith in
    rw (
      at,
      take-append_self year (b'-' ∷ rest),
      e,
      parse_after_year_shift (b'-' ∷ year) (b'-' ∷ rest) year true,
    )
parse_split false year rest b at =
    let e : 0 + length year ≡ length year = omega arith in
    rw (
      b,
      at,
      take-append_self year (b'-' ∷ rest),
      e,
      parse_after_year_shift year (b'-' ∷ rest) year false,
    )

pub parse_without_timezone-render :
    (m : Moment) → IsValid m → parse_without_timezone (render m) ≡ some m.fields.second
parse_without_timezone-render m v =
    parse_split m.negative m.year (tail_of m.fields) (first_byte m.negative)
      (position-append b'-' m.year (tail_of m.fields) (IsDigit-ne_dash m.year v.year_form.digits))
    ∙ rw (
      IsYear-year_is_lexical m.year v.year_form,
      parse_after_year_complete m.year m.negative v.year_form.digits v.year_form.nonzero m.fields
          v.moment,
    )
  where
    first_byte : (n : Bool) → byte_is (sign n ++ m.year ++ suffix m.fields) 0 b'-' ≡ n
    first_byte true = refl
    first_byte false = byte_is-year m.year (suffix m.fields) v.year_form.digits v.year_form.long

-- A value that begins with a dash is a sign and a body, any other has no sign.
sign_split :
    (bytes : Text)
    → (n : Bool) × (body : Text) × (bytes ≡ sign n ++ body)
      × (byte_is bytes 0 b'-' ≡ n)
      × (drop (if n then 1 else 0) bytes ≡ body)
sign_split [] = (false, [], refl, refl, refl)
sign_split (c ∷ bytes) = elim (Bool-cases (c == b'-')) [
  | inl dash ↦ (true, bytes, ap (λ x. x ∷ bytes) ((==_iff c b'-').0 dash), dash, refl)
  | inr other ↦ (false, c ∷ bytes, refl, other, refl)
]

position_of_accepted :
    (bytes : Text) (s : ℕ) (n : Bool)
    → byte_is bytes 0 b'-' ≡ n
    → parse_without_timezone bytes ≡ some s
    → (k : ℕ) × (position b'-' (drop (if n then 1 else 0) bytes) ≡ some k)
unfolding parse_without_timezone
position_of_accepted bytes s n b h =
    elim (Option-cases (position b'-' (drop (if n then 1 else 0) bytes))) [
      | inl missing ↦ ground arith
      | inr found ↦ found
    ]

split_sound :
    (n : Bool) (year rest : Text) (s : ℕ)
    → (require (year_is_lexical year) >> parse_after_year (b'-' ∷ rest) 0 year n) ≡ some s
    → (m : Moment) × IsValid m × (render m ≡ sign n ++ year ++ b'-' ∷ rest) × (m.fields.second ≡ s)
split_sound n year rest s h = elim (Bool-cases (year_is_lexical year)) [
  | inl lexical ↦
      let v = year_is_lexical-IsYear year lexical in
      let (f, moment, text, second) =
        parse_after_year_sound year n v.digits v.nonzero (b'-' ∷ rest) s (rw lexical at h) in
      (
        record { negative = n; year = year; fields = f },
        record { year_form = v; moment = moment },
        ap (λ t. sign n ++ year ++ t) text,
        second,
      )
  | inr refused ↦ cc (rw refused at h)
]

pub parse_without_timezone_sound :
    (bytes : Text) (s : ℕ)
    → parse_without_timezone bytes ≡ some s
    → (m : Moment) × IsValid m × (render m ≡ bytes) × (m.fields.second ≡ s)
parse_without_timezone_sound bytes s h =
    let (n, body, e, b, d) = sign_split bytes in
    let (k, at) = position_of_accepted bytes s n b h in
    let (year, rest, split, l) = position-split b'-' body k (rw d at at) in
    let whole : bytes ≡ sign n ++ year ++ b'-' ∷ rest =
      e ∙ ap (λ t. sign n ++ t) split ∙ sym (append_assoc (sign n) year (b'-' ∷ rest)) in
    let found : position b'-' (year ++ b'-' ∷ rest) ≡ some (length year) =
      ap (position b'-') (sym split ∙ sym d) ∙ at ∙ ap some (sym l) in
    let steps =
      sym (parse_split n year rest (ap (λ t. byte_is t 0 b'-') (sym whole) ∙ b) found)
      ∙ ap parse_without_timezone (sym whole)
      ∙ h in
    let (m, v, text, second) = split_sound n year rest s steps in (m, v, text ∙ sym whole, second)
