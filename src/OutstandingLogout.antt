-- ===== src/OutstandingLogout.antt =====
-- src/model/outstanding_logout.rs: a logout that the caller accepted, against a new session;
-- src/model/subject.rs: `NameId`; src/config/algorithms.rs: `NameIdFormat`. Checked identifiers are
-- texts, and texts are lists of characters. Of a session, the name identifier and the session indices
-- are kept.
pub mod Matches
mod Tests
use opensaml_rs.Prelude.{
  ℕ, ◌≡◌, ◌≢◌, Bool, true, false, ◌&&◌, ◌||◌, not, Option, none, some, List, [], ◌∷◌, Text, ascii,
  text_eq, is_empty, all, contains_text,
}
use opensaml_rs.Prelude.Int.{ℤ, ltb_ℤ}
use opensaml_rs.Error.{invalid, Result, ok, err, ◌>>=◌, ◌>>◌, ensure, ok_or}
use opensaml_rs.Time.{TimeCrate}
use opensaml_rs.DateTime.{parse_saml_utc_date_time}
use opensaml_rs.Element.{is_whitespace}
use opensaml_rs.Validation.{SamlValidationContext, offset_datetime_from_system_time}
use opensaml_rs.Validator.{effective_not_on_or_after}

pub data NameIdFormat : Type 0 where
  email_address persistent transient entity unspecified : NameIdFormat
  kerberos windows_domain_qualified_name x509_subject_name : NameIdFormat
  custom : Text → NameIdFormat

-- `==` on `NameIdFormat`
unfoldable pub same_format : NameIdFormat → NameIdFormat → Bool
same_format email_address email_address = true
same_format persistent persistent = true
same_format transient transient = true
same_format entity entity = true
same_format unspecified unspecified = true
same_format kerberos kerberos = true
same_format windows_domain_qualified_name windows_domain_qualified_name = true
same_format x509_subject_name x509_subject_name = true
same_format (custom a) (custom b) = text_eq a b
same_format _ _ = false

pub record NameId : Type 0 where
  pub value : Text
  pub format : Option NameIdFormat
  pub name_qualifier : Option Text
  pub sp_name_qualifier : Option Text
  pub sp_provided_id : Option Text

pub record SsoSession : Type 0 where
  pub name_id : NameId
  pub session_indices : List (Option Text)

pub record OutstandingLogout : Type 0 where
  pub principal : NameId
  pub sessions : List Text
  pub not_on_or_after : Text
  pub deadline : ℤ

abbrev pub format_matches : Option NameIdFormat → Option NameIdFormat → Bool
format_matches none actual = true
format_matches (some format) none = false
format_matches (some format) (some actual) = same_format actual format

unfoldable pub same_principal : OutstandingLogout → NameId → Bool
same_principal logout name_id =
    text_eq logout.principal.value name_id.value
    && format_matches logout.principal.format name_id.format

-- `authn_sessions().iter().any(|authn| authn.session_index().is_some_and(…))`
abbrev pub names_session : List Text → List (Option Text) → Bool
names_session sessions [] = false
names_session sessions (none ∷ indices) = names_session sessions indices
names_session sessions (some index ∷ indices) =
    contains_text sessions index || names_session sessions indices

unfoldable pub same_session : OutstandingLogout → SsoSession → Bool
same_session logout session =
    is_empty logout.sessions || names_session logout.sessions session.session_indices

module _ (T : TimeCrate) where
  open T use {parse_rfc3339}

  unfoldable pub try_new : NameId → List Text → Text → Result OutstandingLogout
  try_new principal sessions not_on_or_after = do
    ensure (not (all is_whitespace principal.value))
        (invalid (ascii "outstanding logout principal must not be empty"))
    normalized ← ok_or (parse_saml_utc_date_time not_on_or_after) (
        invalid
          (ascii "outstanding logout NotOnOrAfter must be a SAML UTC xs:dateTime ending in Z"))
    deadline ←
        ok_or (parse_rfc3339 normalized)
          (invalid (ascii "outstanding logout NotOnOrAfter cannot be represented as a UTC instant"))
    ensure (not (all is_whitespace normalized)) (invalid (ascii "SAML instant must not be empty"))
    ok (record {
      principal = principal;
      sessions = sessions;
      not_on_or_after = normalized;
      deadline = deadline;
    })

  module _ {S : Type 0} where
    abbrev pub unexpired : OutstandingLogout → SamlValidationContext S → Result Bool
    unexpired logout validation = do
      now ← offset_datetime_from_system_time T validation.now
      effective ←
          effective_not_on_or_after T logout.deadline validation.clock_skew.not_on_or_after_ms
      ok (ltb_ℤ now effective)

    unfoldable pub matches_unexpired :
        OutstandingLogout → SsoSession → SamlValidationContext S → Result Bool
    matches_unexpired logout session validation =
        elim (same_principal logout session.name_id && same_session logout session) [
          | false ↦ ok false
          | true ↦ unexpired logout validation
        ]
