-- ===== src/DateTime/Acceptance.antt =====
-- src/xml/date_time.rs: exactly which values are accepted, inbound and generated.
use mathlib.Core.Option
use opensaml_rs.DateTime.Calendar.{IsDigit}
use opensaml_rs.Prelude.{
  ℕ, ◌≤◌, subst, length, append-nil, ◌<◌, ◌≡◌, refl, sym, ap, ◌∙◌, ◌↔◌, Bool, true, false, some, [],
  ◌∷◌, ◌++◌, arith, Text, All, trim_matches, strip_suffix, Option-cases, inl, inr,
}
use opensaml_rs.DateTime.{
  is_xml_schema_whitespace, parse_without_timezone, parse_saml_utc_date_time_with_seconds,
  parse_saml_utc_date_time, parse_generated_saml_utc_date_time,
}
use opensaml_rs.DateTime.Trimming.{trim_matches-surrounded, strip_suffix-append, strip_suffix_exact}
use opensaml_rs.DateTime.Grammar.{
  Moment, IsValid, sign, render, parse_without_timezone-render, parse_without_timezone_sound,
}
use opensaml_rs.DateTime.Fields.{suffix}

abbrev pub IsBlank : Text → Type 0
IsBlank w = All (λ b. is_xml_schema_whitespace b ≡ true) w

-- The text of a moment in UTC.
abbrev pub render_utc : Moment → Text
render_utc m = render m ++ b'Z' ∷ []

-- `value` denotes the moment `m`: it is the text of `m` in UTC, up to whitespace around it.
pub record Denotes (raw value : Text) (m : Moment) : Type 0 where
  pub valid : IsValid m
  pub trimmed : trim_matches is_xml_schema_whitespace raw ≡ value
  pub text : render_utc m ≡ value

-- Whatever is accepted denotes a moment that exists in the calendar: the value that is returned is
-- the text of the moment, and what was given is that text up to whitespace around it.
pub parse_saml_utc_date_time_with_seconds_sound :
    (raw value : Text) (second : ℕ)
    → parse_saml_utc_date_time_with_seconds raw ≡ some (value, second)
    → (m : Moment) × Denotes raw value m × (m.fields.second ≡ second)
unfolding parse_saml_utc_date_time_with_seconds
parse_saml_utc_date_time_with_seconds_sound raw value second h =
    elim (Option-cases (strip_suffix b'Z' (trim_matches is_xml_schema_whitespace raw))) [
      | inl missing ↦ ground arith
      | inr (bytes, stripped) ↦ elim (Option-cases (parse_without_timezone bytes)) [
        | inl refused ↦ ground arith
        | inr (s, accepted) ↦
            let (m, v, text, e) = parse_without_timezone_sound bytes s accepted in
            let same : trim_matches is_xml_schema_whitespace raw ≡ value = ground arith in
            (
              m,
              record {
                valid = v;
                trimmed = same;
                text =
                    ap (λ t. t ++ b'Z' ∷ []) text ∙ sym (strip_suffix_exact b'Z' _ stripped) ∙ same;
              },
              ground arith,
            )
      ]
    ]

-- The text of a moment begins with a dash or a digit.
render_head :
    (n : Bool) (year rest : Text)
    → All IsDigit year
    → 4 ≤ length year
    → (a : ℕ) × (t : Text) × (sign n ++ year ++ rest ≡ a ∷ t) × (is_xml_schema_whitespace a ≡ false)
render_head true year rest h l = (b'-', year ++ rest, refl, refl)
render_head false [] rest h l = absurd (omega arith)
render_head false (d ∷ year) rest h l = (d, year ++ rest, refl, ground arith)

trim_matches-render_utc :
    (m : Moment) (before after : Text)
    → IsValid m
    → IsBlank before
    → IsBlank after
    → trim_matches is_xml_schema_whitespace (before ++ (render_utc m ++ after)) ≡ render_utc m
trim_matches-render_utc m before after v hb ha =
    let (a, t, e, plain) =
      render_head m.negative m.year (suffix m.fields) v.year_form.digits v.year_form.long in
    subst
      (λ r.
        trim_matches is_xml_schema_whitespace (before ++ ((r ++ b'Z' ∷ []) ++ after))
        ≡ r ++ b'Z' ∷ [])
      (sym e)
      (trim_matches-surrounded is_xml_schema_whitespace before t after a b'Z' hb ha plain refl)

-- A moment that exists in the calendar is accepted, with any whitespace around its text; the text
-- itself is returned, with its seconds.
pub parse_saml_utc_date_time_with_seconds_complete :
    (m : Moment) (before after : Text)
    → IsValid m
    → IsBlank before
    → IsBlank after
    → parse_saml_utc_date_time_with_seconds (before ++ (render_utc m ++ after))
      ≡ some (render_utc m, m.fields.second)
unfolding parse_saml_utc_date_time_with_seconds
parse_saml_utc_date_time_with_seconds_complete m before after v hb ha = rw (
  trim_matches-render_utc m before after v hb ha,
  strip_suffix-append b'Z' (render m),
  parse_without_timezone-render m v,
)

-- A generated value is accepted exactly when it is accepted inbound and its moment is no leap
-- second; it is returned unchanged.
pub parse_generated_saml_utc_date_time_iff :
    (m : Moment) (before after : Text)
    → IsValid m
    → IsBlank before
    → IsBlank after
    → (parse_generated_saml_utc_date_time (before ++ (render_utc m ++ after)) ≡ some (render_utc m))
      ↔ (m.fields.second < 60)
unfolding parse_generated_saml_utc_date_time
parse_generated_saml_utc_date_time_iff m before after v hb ha =
    ground (arith, parse_saml_utc_date_time_with_seconds_complete m before after v hb ha)

-- The value that the parser returns is accepted again and returned unchanged, by itself.
pub parse_saml_utc_date_time_idempotent :
    (raw value : Text)
    → parse_saml_utc_date_time raw ≡ some value
    → parse_saml_utc_date_time value ≡ some value
unfolding parse_saml_utc_date_time
parse_saml_utc_date_time_idempotent raw value h =
    elim (Option-cases (parse_saml_utc_date_time_with_seconds raw)) [
      | inl refused ↦ ground arith
      | inr ((v, s), accepted) ↦
          let same : v ≡ value = ground arith in
          let (m, d, e) = parse_saml_utc_date_time_with_seconds_sound raw v s accepted in
          let again = parse_saml_utc_date_time_with_seconds_complete m [] [] d.valid tt tt in
          let text : [] ++ (render_utc m ++ []) ≡ value = append-nil _ ∙ d.text ∙ same in
          ap (λ t. Option.map (λ p. p.0) (parse_saml_utc_date_time_with_seconds t)) (sym text)
          ∙ ap (Option.map (λ p. p.0)) again
          ∙ ap some (d.text ∙ same)
    ]
