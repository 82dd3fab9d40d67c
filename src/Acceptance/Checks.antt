-- ===== src/Acceptance/Checks.antt =====
-- src/assertion_acceptance.rs: the checks of one assertion: bearer confirmations, audience and time.
-- src/model/extract.rs and src/model/session.rs: the session bounds of the authentication statements.
use opensaml_rs.Prelude.{
  Bool, true, false, ◌||◌, not, Option, none, some, List, [], ◌∷◌, Text, ascii, text_eq,
}
use opensaml_rs.Prelude.Int.{ℤ, ltb_ℤ}
use opensaml_rs.Error
use opensaml_rs.Error.{
  SamlError, invalid, in_response_to_mismatch, audience_mismatch, time_window_invalid,
  TimeWindowField, session_not_on_or_after, conditions, subject_confirmation_invalid, Result, ok,
  err, ok_or, SubjectConfirmationReason, invalid_method, missing_not_on_or_after,
  recipient_mismatch, missing_bearer_confirmation,
}
use opensaml_rs.Run.{Run, done, fail, ◌>>=◌, ◌>>◌, lift, unwrap, require}
use opensaml_rs.Time.{TimeCrate, milliseconds}
use opensaml_rs.Value.{Value, null, str, array, object, Values, nil, cons, get, get_str}
use opensaml_rs.Validator.{verify_time_at, conditions_time_bounds}
use opensaml_rs.Flow.{FlowOptions, validation_now}
use opensaml_rs.Xml.Dom.{PlacedEvent}
use opensaml_rs.Xml.Extract.{ExtractorField, extract_with_limits}
use opensaml_rs.Xml.Extract.Fields.{field, with_attrs, with_context}
use opensaml_rs.Acceptance.{
  bearer_subject_confirmation_method, same_text, subject_confirmation_xmls,
}

-- `optional_authn_statement_str`
abbrev pub optional_str : Option Value → Result (Option Text)
optional_str (some (str s)) = ok (some s)
optional_str (some null) = ok none
optional_str none = ok none
optional_str (some _) =
    err (invalid (ascii "extracted AuthnStatement sessionNotOnOrAfter must be a string"))

abbrev pub only_objects : Values → Result (List Value)
only_objects nil = ok []
only_objects (cons (object es) vs) = Error.◌>>=◌ (only_objects vs) (λ rest. ok (object es ∷ rest))
only_objects (cons v vs) =
    err (invalid (ascii "extracted AuthnStatement array must contain only objects"))

abbrev pub statements_of : Option Value → Result (List Value)
statements_of (some (object es)) = ok (object es ∷ [])
statements_of (some (array items)) = only_objects items
statements_of (some (str s)) =
    err (invalid (ascii "extracted AuthnStatement must be an object or array of objects"))
statements_of (some null) = ok []
statements_of none = ok []

abbrev pub with_some : Option Text → List Text → List Text
with_some none bounds = bounds
with_some (some s) bounds = s ∷ bounds

abbrev pub bounds_from : List Value → Result (List Text)
bounds_from [] = ok []
bounds_from (v ∷ vs) =
    Error.◌>>=◌ (optional_str (get v (ascii "sessionNotOnOrAfter")))
      (λ bound. Error.◌>>=◌ (bounds_from vs) (λ rest. ok (with_some bound rest)))

unfoldable pub authn_statement_not_on_or_after_values : Value → Result (List Text)
authn_statement_not_on_or_after_values extracted =
    Error.◌>>=◌ (statements_of (get extracted (ascii "sessionIndex"))) bounds_from

abbrev pub earlier : Option ℤ → ℤ → ℤ
earlier none candidate = candidate
earlier (some current) candidate = elim (ltb_ℤ candidate current) [
  | true ↦ candidate
  | false ↦ current
]

-- The loop of `earliest_authn_session_expiration`, with the earliest so far.
unfoldable pub earliest_from :
    TimeCrate → TimeWindowField → Option ℤ → List Text → Result (Option ℤ)
earliest_from T error_field earliest [] = ok earliest
earliest_from T error_field earliest (value ∷ values) =
    Error.◌>>=◌ (ok_or (TimeCrate.parse_rfc3339 T value) (time_window_invalid error_field))
      (λ candidate. earliest_from T error_field (some (earlier earliest candidate)) values)

unfoldable pub earliest_authn_session_expiration :
    TimeCrate → List Text → TimeWindowField → Result (Option ℤ)
earliest_authn_session_expiration T values error_field = earliest_from T error_field none values

pub data SubjectConfirmationCheck : Type 0 where
  valid : SubjectConfirmationCheck
  not_valid : SubjectConfirmationReason → SubjectConfirmationCheck

pub data AudienceCheck : Type 0 where
  satisfied nowhere rejected : AudienceCheck

-- `if let Some(expected) = … { if actual != Some(expected) { … } }`
unfoldable pub is_expected : Option Text → Option Text → Bool
is_expected none actual = true
is_expected (some expected) actual = same_text actual (some expected)

abbrev pub reason_or_missing : Option SubjectConfirmationReason → SubjectConfirmationReason
reason_or_missing none = missing_bearer_confirmation
reason_or_missing (some r) = r

abbrev pub method_fields : List ExtractorField
method_fields =
    with_attrs (field (ascii "subjectConfirmation") (ascii "SubjectConfirmation" ∷ []))
      (ascii "Method" ∷ [])
    ∷ []

abbrev pub confirmation_fields : List ExtractorField
confirmation_fields =
    with_attrs (field (ascii "subjectConfirmation") (ascii "SubjectConfirmation" ∷ []))
      (ascii "Method" ∷ [])
    ∷ with_attrs
        (field (ascii "subjectConfirmationData")
          (ascii "SubjectConfirmation" ∷ ascii "SubjectConfirmationData" ∷ []))
        (ascii "NotOnOrAfter" ∷ ascii "Recipient" ∷ ascii "InResponseTo" ∷ [])
    ∷ []

abbrev pub audience_fields : List ExtractorField
audience_fields =
    field (ascii "audience") (ascii "AudienceRestriction" ∷ ascii "Audience" ∷ []) ∷ []

abbrev pub restriction_fields : List ExtractorField
restriction_fields =
    with_context (
      field (ascii "audienceRestriction")
        (ascii "Assertion" ∷ ascii "Conditions" ∷ ascii "AudienceRestriction" ∷ []))
    ∷ []

abbrev pub is_bearer : Value → Bool
is_bearer confirmation =
    same_text (get_str confirmation (ascii "subjectConfirmation"))
      (some bearer_subject_confirmation_method)

-- `Some(Value::Array(audiences)) => audiences.iter().any(|a| a.as_str() == Some(expected))`
abbrev pub any_string : Text → Values → Bool
any_string expected nil = false
any_string expected (cons (str s) vs) = text_eq s expected || any_string expected vs
any_string expected (cons v vs) = any_string expected vs

abbrev pub names_audience : Text → Option Value → Bool
names_audience expected (some (str audience)) = text_eq audience expected
names_audience expected (some (array audiences)) = any_string expected audiences
names_audience expected _ = false

abbrev pub satisfied_if : Bool → AudienceCheck
satisfied_if true = satisfied
satisfied_if false = rejected

module _ (T : TimeCrate) (utc_now : ℤ) (read_events : Text → List PlacedEvent)
    (opts : FlowOptions) where
  abbrev pub extracted_from : Text → List ExtractorField → Run Value
  extracted_from source fields = extract_with_limits read_events opts.xml_limits source fields

  -- The loop of `extracted_has_bearer`.
  unfoldable pub has_bearer : List Text → Run Bool
  has_bearer [] = done false
  has_bearer (source ∷ sources) = do
    confirmation ← extracted_from source method_fields
    elim (is_bearer confirmation) [ true ↦ done true | false ↦ has_bearer sources ]

  unfoldable pub extracted_has_bearer : Value → Run Bool
  extracted_has_bearer extracted = has_bearer (subject_confirmation_xmls extracted)

  abbrev pub check_data : Option Text → Value → SubjectConfirmationCheck
  check_data expected_recipient extracted =
      elim (is_expected expected_recipient
        (get_str extracted (ascii "subjectConfirmationData.recipient"))) [
          | false ↦ not_valid recipient_mismatch
          | true ↦
              elim (is_expected opts.expected_in_response_to
                (get_str extracted (ascii "subjectConfirmationData.inResponseTo"))) [
                  | false ↦ not_valid SubjectConfirmationReason.in_response_to_mismatch
                  | true ↦ valid
                ]
        ]

  abbrev pub check_deadline : Option Text → Value → Option Text → Run SubjectConfirmationCheck
  check_deadline expected_recipient extracted none = done (not_valid missing_not_on_or_after)
  check_deadline expected_recipient extracted (some deadline) = do
    now ← lift (validation_now T utc_now opts.now)
    in_time ← unwrap (verify_time_at T none (some deadline) opts.clock_drifts now)
    elim in_time [
      | false ↦ done (not_valid SubjectConfirmationReason.time_window_invalid)
      | true ↦ done (check_data expected_recipient extracted)
    ]

  unfoldable pub check_bearer_subject_confirmation :
      Text → Option Text → Run SubjectConfirmationCheck
  check_bearer_subject_confirmation source expected_recipient = do
    extracted ← extracted_from source confirmation_fields
    elim (is_bearer extracted) [
      | false ↦ done (not_valid invalid_method)
      | true ↦
          check_deadline expected_recipient extracted
            (get_str extracted (ascii "subjectConfirmationData.notOnOrAfter"))
    ]

  -- The loop of `validate_subject_confirmation`, with the last reason.
  unfoldable pub confirm_any :
      Option Text → Option SubjectConfirmationReason → List Text → Run (Unit {0})
  confirm_any expected_recipient reason [] =
      fail (subject_confirmation_invalid (reason_or_missing reason))
  confirm_any expected_recipient reason (source ∷ sources) = do
    check ← check_bearer_subject_confirmation source expected_recipient
    elim check [
      | valid ↦ done tt
      | not_valid current ↦ confirm_any expected_recipient (some current) sources
    ]

  unfoldable pub validate_subject_confirmation : Value → Option Text → Run (Unit {0})
  validate_subject_confirmation extracted expected_recipient =
      confirm_any expected_recipient none (subject_confirmation_xmls extracted)

  unfoldable pub audience_restriction_contains : Text → Text → Run Bool
  audience_restriction_contains restriction expected = do
    extracted ← extracted_from restriction audience_fields
    done (names_audience expected (get extracted (ascii "audience")))

  -- The loop over several restrictions: every one has to name the audience.
  unfoldable pub each_contains : Text → Values → Run AudienceCheck
  each_contains expected nil = done satisfied
  each_contains expected (cons (str restriction) vs) = do
    found ← audience_restriction_contains restriction expected
    elim found [ false ↦ done rejected | true ↦ each_contains expected vs ]
  each_contains expected (cons v vs) = done rejected

  abbrev pub check_restrictions : Text → Option Value → Run AudienceCheck
  check_restrictions expected (some (str restriction)) = do
    found ← audience_restriction_contains restriction expected
    done (satisfied_if found)
  check_restrictions expected (some (array (cons v vs))) = each_contains expected (cons v vs)
  check_restrictions expected _ = done nowhere

  unfoldable pub audience_restrictions_contain : Text → Text → Run AudienceCheck
  audience_restrictions_contain assertion expected = do
    extracted ← extracted_from assertion restriction_fields
    check_restrictions expected (get extracted (ascii "audienceRestriction"))

  abbrev pub on_audience : Text → AudienceCheck → Run (Unit {0})
  on_audience expected satisfied = done tt
  on_audience expected nowhere =
      require (not opts.require_audience_restriction) (audience_mismatch expected)
  on_audience expected rejected = fail (audience_mismatch expected)

  abbrev pub audience_for : Text → Option Text → Run (Unit {0})
  audience_for assertion none = done tt
  audience_for assertion (some expected) = do
    check ← audience_restrictions_contain assertion expected
    on_audience expected check

  unfoldable pub validate_audience : Text → Run (Unit {0})
  validate_audience assertion = audience_for assertion opts.expected_audience

  abbrev pub session_open : ℤ → Option ℤ → Run (Unit {0})
  session_open now none = done tt
  session_open now (some raw_expiration) = do
    expiration ← lift (
        ok_or (TimeCrate.checked_add T raw_expiration (milliseconds opts.clock_drifts.1))
          (time_window_invalid session_not_on_or_after))
    require (ltb_ℤ now expiration) (time_window_invalid session_not_on_or_after)

  unfoldable pub validate_assertion_time : Value → Run (Unit {0})
  validate_assertion_time extracted = do
    now ← lift (validation_now T utc_now opts.now)
    session_bounds ← lift (authn_statement_not_on_or_after_values extracted)
    earliest ← lift (earliest_authn_session_expiration T session_bounds session_not_on_or_after)
    session_open now earliest
    bounds ← lift (conditions_time_bounds extracted)
    in_time ← unwrap (verify_time_at T bounds.0 bounds.1 opts.clock_drifts now)
    require in_time (time_window_invalid conditions)
