-- ===== src/OutstandingLogout/Matches.antt =====
-- src/model/outstanding_logout.rs: which sessions an outstanding logout is for.
use opensaml_rs.Prelude.{
  arith, ◌≡◌, ◌⊎◌, refl, ap, subst, true, ◌&&◌, Option, none, some, List, [], ◌∷◌, Text, text_eq,
  text_eq_iff, Bool-cases, inl, inr, contains_text, is_empty, ◌||◌, &&_true,
}
use opensaml_rs.Prelude.Int.{◌<ℤ◌, ◌+ℤ◌}
use opensaml_rs.Error.{ok, Result-cases}
use opensaml_rs.Time.{TimeCrate, milliseconds}
use opensaml_rs.Validation.{SamlValidationContext, offset_datetime_from_system_time}
use opensaml_rs.Validation.Age.{offset_datetime_from_system_time_exact}
use opensaml_rs.Validator.{effective_not_on_or_after}
use opensaml_rs.OutstandingLogout.{
  NameIdFormat, email_address, persistent, transient, entity, unspecified, kerberos,
  windows_domain_qualified_name, x509_subject_name, custom, same_format, SsoSession,
  OutstandingLogout, format_matches, same_principal, names_session, same_session, matches_unexpired,
}

-- The session is one of those that the logout names.
pub data Names (sessions : List Text) : List (Option Text) → Type 0 where
  here :
      {index : Text} {indices : List (Option Text)}
      → contains_text sessions index ≡ true
      → Names sessions (some index ∷ indices)
  later :
      {o : Option Text} {indices : List (Option Text)}
      → Names sessions indices
      → Names sessions (o ∷ indices)

-- The logout is for the principal and the session: the same value, the same format where the logout
-- has one, and a session that it names unless it names none.
pub record IsFor (logout : OutstandingLogout) (session : SsoSession) : Type 0 where
  pub value : logout.principal.value ≡ session.name_id.value
  pub format : (logout.principal.format ≡ none) ⊎ (session.name_id.format ≡ logout.principal.format)
  pub named : (logout.sessions ≡ []) ⊎ Names logout.sessions session.session_indices

-- A format is the one that its name identifies.
same_format_sound : (a b : NameIdFormat) → same_format a b ≡ true → a ≡ b
unfolding same_format
same_format_sound email_address b h =
    elim b as (λ x. same_format email_address x ≡ true → email_address ≡ x) [
      | email_address ↦ λ e. refl
      | _ ↦ λ e. absurd (cc e)
    ]
      h
same_format_sound persistent b h =
    elim b as (λ x. same_format persistent x ≡ true → persistent ≡ x) [
      | persistent ↦ λ e. refl
      | _ ↦ λ e. absurd (cc e)
    ]
      h
same_format_sound transient b h =
    elim b as (λ x. same_format transient x ≡ true → transient ≡ x) [
      | transient ↦ λ e. refl
      | _ ↦ λ e. absurd (cc e)
    ]
      h
same_format_sound entity b h =
    elim b as (λ x. same_format entity x ≡ true → entity ≡ x) [
      | entity ↦ λ e. refl
      | _ ↦ λ e. absurd (cc e)
    ]
      h
same_format_sound unspecified b h =
    elim b as (λ x. same_format unspecified x ≡ true → unspecified ≡ x) [
      | unspecified ↦ λ e. refl
      | _ ↦ λ e. absurd (cc e)
    ]
      h
same_format_sound kerberos b h =
    elim b as (λ x. same_format kerberos x ≡ true → kerberos ≡ x) [
      | kerberos ↦ λ e. refl
      | _ ↦ λ e. absurd (cc e)
    ]
      h
same_format_sound windows_domain_qualified_name b h =
    elim b
        as (λ x.
          same_format windows_domain_qualified_name x ≡ true → windows_domain_qualified_name ≡ x) [
            | windows_domain_qualified_name ↦ λ e. refl
            | _ ↦ λ e. absurd (cc e)
          ]
      h
same_format_sound x509_subject_name b h =
    elim b as (λ x. same_format x509_subject_name x ≡ true → x509_subject_name ≡ x) [
      | x509_subject_name ↦ λ e. refl
      | _ ↦ λ e. absurd (cc e)
    ]
      h
same_format_sound (custom u) b h =
    elim b as (λ x. same_format (custom u) x ≡ true → custom u ≡ x) [
      | custom v ↦ λ e. ap custom ((text_eq_iff u v).0 e)
      | _ ↦ λ e. absurd (cc e)
    ]
      h

names_session-Names :
    (sessions : List Text) (indices : List (Option Text))
    → names_session sessions indices ≡ true
    → Names sessions indices
names_session-Names sessions [] h = absurd (cc h)
names_session-Names sessions (none ∷ indices) h = later (names_session-Names sessions indices h)
names_session-Names sessions (some index ∷ indices) h =
    elim (Bool-cases (contains_text sessions index)) [
      | inl found ↦ here found
      | inr missing ↦ later (names_session-Names sessions indices (ground (arith, missing, h)))
    ]

format_matches_sound :
    (expected actual : Option NameIdFormat)
    → format_matches expected actual ≡ true
    → (expected ≡ none) ⊎ (actual ≡ expected)
format_matches_sound none actual h = inl refl
format_matches_sound (some f) none h = absurd (cc h)
format_matches_sound (some f) (some a) h = inr (ap some (same_format_sound a f h))

sessions_sound :
    (sessions : List Text) (indices : List (Option Text))
    → (is_empty sessions || names_session sessions indices) ≡ true
    → (sessions ≡ []) ⊎ Names sessions indices
sessions_sound [] indices h = inl refl
sessions_sound (s ∷ sessions) indices h = inr (names_session-Names (s ∷ sessions) indices h)

applies-IsFor :
    (logout : OutstandingLogout) (session : SsoSession)
    → (same_principal logout session.name_id && same_session logout session) ≡ true
    → IsFor logout session
unfolding same_principal same_session
applies-IsFor logout session h =
    let (principal, named) = &&_true _ (same_session logout session) h in
    let (value, format) =
      &&_true (text_eq logout.principal.value session.name_id.value)
        (format_matches logout.principal.format session.name_id.format) principal in
    record {
      value = (text_eq_iff logout.principal.value session.name_id.value).0 value;
      format = format_matches_sound logout.principal.format session.name_id.format format;
      named = sessions_sound logout.sessions session.session_indices named;
    }

module _ (T : TimeCrate) {S : Type 0} where
  -- A logout that matches a session names its principal, with the same format where the logout has
  -- one, and names one of its session indices, unless the logout names no session and is for every
  -- one; and the validation is before its deadline, moved by the skew.
  pub matches_unexpired-IsFor :
      (logout : OutstandingLogout) (session : SsoSession) (validation : SamlValidationContext S)
      → matches_unexpired T logout session validation ≡ ok true
      → IsFor logout session
        × (validation.now
            <ℤ logout.deadline +ℤ milliseconds validation.clock_skew.not_on_or_after_ms)
  unfolding matches_unexpired effective_not_on_or_after
  matches_unexpired-IsFor logout session validation h =
      elim (Bool-cases (same_principal logout session.name_id && same_session logout session)) [
        | inr other ↦ absurd (ground (arith, other, h))
        | inl applies ↦ elim (Result-cases (offset_datetime_from_system_time T validation.now)) [
          | inr (f, bad) ↦ absurd (ground (arith, applies, bad, h))
          | inl (now, clock) ↦
              elim (Result-cases (
                effective_not_on_or_after T logout.deadline
                  validation.clock_skew.not_on_or_after_ms)) [
                    | inr (f, bad) ↦ absurd (ground (arith, applies, clock, bad, h))
                    | inl (effective, moved) ↦
                        let before : now <ℤ effective = ground (arith, applies, clock, moved, h) in
                        (
                          applies-IsFor logout session applies,
                          subst
                              (λ n.
                                n
                                <ℤ logout.deadline
                                  +ℤ milliseconds validation.clock_skew.not_on_or_after_ms)
                              (offset_datetime_from_system_time_exact T validation.now clock)
                              (subst (λ b. now <ℤ b)
                                (TimeCrate.checked_add_exact T logout.deadline
                                  (milliseconds validation.clock_skew.not_on_or_after_ms)
                                  (ground (arith, moved)))
                                before),
                        )
                  ]
        ]
      ]
