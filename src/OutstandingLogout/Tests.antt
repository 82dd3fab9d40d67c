-- ===== src/OutstandingLogout/Tests.antt =====
-- Tests of src/model/outstanding_logout.rs.
use opensaml_rs.Prelude.{◌≡◌, refl, true, false, none, some, [], ◌∷◌, ascii, text_eq}
use opensaml_rs.Prelude.Int.{pos, ◌+ℤ◌, ◌<ℤ◌}
use opensaml_rs.Error.{ok}
use opensaml_rs.Time.{unlimited, milliseconds}
use opensaml_rs.Validation.{
  SamlValidationContext, new_context, disabled_for_compatibility, offset_datetime_from_system_time,
}
use opensaml_rs.Validator.{effective_not_on_or_after}
use opensaml_rs.OutstandingLogout.{
  NameId, SsoSession, OutstandingLogout, persistent, transient, same_format, same_principal,
  same_session, matches_unexpired,
}
use opensaml_rs.OutstandingLogout.Matches.{IsFor, matches_unexpired-IsFor}

abbrev ann : NameId
ann = record {
  value = ascii "ann";
  format = some persistent;
  name_qualifier = none;
  sp_name_qualifier = none;
  sp_provided_id = none;
}

abbrev ann_session : SsoSession
ann_session = record { name_id = ann; session_indices = none ∷ some (ascii "s") ∷ [] }

abbrev ann_logout : OutstandingLogout
ann_logout = record {
  principal = record ann { name_qualifier = some (ascii "q") };
  sessions = ascii "s" ∷ [];
  not_on_or_after = ascii "2030-01-01T00:00:00Z";
  deadline = pos 200;
}

abbrev at_100 : SamlValidationContext (Unit {0})
at_100 = new_context (pos 100) disabled_for_compatibility

matched : matches_unexpired (unlimited (λ s. none)) ann_logout ann_session at_100 ≡ ok true
unfolding matches_unexpired same_principal same_session same_format effective_not_on_or_after
    offset_datetime_from_system_time ◌+ℤ◌ ascii text_eq
matched = refl

other_format :
    matches_unexpired
      (unlimited (λ s. none))
      ann_logout
      (record ann_session { name_id = record ann { format = some transient } })
      at_100
    ≡ ok false
unfolding matches_unexpired same_principal same_session same_format ascii text_eq
other_format = refl

matches_unexpired-IsFor_example :
    IsFor ann_logout ann_session × (pos 100 <ℤ pos 200 +ℤ milliseconds (pos 300000))
matches_unexpired-IsFor_example =
    matches_unexpired-IsFor (unlimited (λ s. none)) ann_logout ann_session at_100 matched
