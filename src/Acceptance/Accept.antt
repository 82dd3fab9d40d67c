-- ===== src/Acceptance/Accept.antt =====
-- src/assertion_acceptance.rs: the loop over the assertions of a response, and the other readers of them.
use opensaml_rs.Prelude.{
  ℕ, Bool, true, false, ◌&&◌, not, Option, none, some, List, [], ◌∷◌, Text, ascii, is_empty,
}
use opensaml_rs.Prelude.Int.{ℤ}
use opensaml_rs.Error.{
  SamlError, xml, in_response_to_mismatch, subject_confirmation_invalid,
  missing_bearer_confirmation,
}
use opensaml_rs.Run.{Run, done, fail, panic, ◌>>=◌, ◌>>◌, lift, require}
use opensaml_rs.Time.{TimeCrate}
use opensaml_rs.Value.{Value, get_str}
use opensaml_rs.Flow.{FlowOptions}
use opensaml_rs.Xml.Dom.{XmlLimits, Node, start, finish, PlacedEvent, parse_with_limits}
use opensaml_rs.Xml.Extract.{ExtractorField, slice, extract_with_limits}
use opensaml_rs.Xml.Extract.Fields.{field, with_attrs, login_response_fields}
use opensaml_rs.Acceptance.{
  Principal, direct_assertions, remember_same_issuer, remember_same_principal,
  subject_confirmation_xmls,
}
use opensaml_rs.Acceptance.Checks.{
  extracted_has_bearer, validate_subject_confirmation, validate_audience, validate_assertion_time,
  is_bearer,
}
use opensaml_rs.Acceptance.Conditions.{NsEvent, reject_unrecognized_conditions}

-- The variables of the loop.
pub record Progress : Type 0 where
  pub saw_bearer : Bool
  pub confirmation_error : Option SamlError
  pub shared_issuer : Option (Option Text)
  pub shared_principal : Option Principal

abbrev pub initial_progress : Progress
initial_progress = record {
  saw_bearer = false;
  confirmation_error = none;
  shared_issuer = none;
  shared_principal = none;
}

abbrev pub is_none : Option SamlError → Bool
is_none none = true
is_none (some e) = false

-- `if let Err(error) = … { confirmation_error = Some(error); }`
abbrev pub keep_error : Progress → Run (Unit {0}) → Run Progress
keep_error s (done u) = done s
keep_error s (fail e) = done (record s { confirmation_error = some e })
keep_error s panic = panic

unfoldable pub remember : Bool → Option Text → Node → Progress → Run Progress
remember false from_issuer assertion s = done s
remember true from_issuer assertion s = do
  issuer ← remember_same_issuer from_issuer assertion s.shared_issuer
  principal ← remember_same_principal assertion s.shared_principal
  done (record s { shared_issuer = issuer; shared_principal = principal })

abbrev pub first_error : Option SamlError → SamlError
first_error none = subject_confirmation_invalid missing_bearer_confirmation
first_error (some e) = e

abbrev pub finish_progress : Progress → Run (Unit {0})
finish_progress s = require s.saw_bearer (first_error s.confirmation_error)

abbrev pub is_several : List Node → Bool
is_several (n ∷ m ∷ ns) = true
is_several _ = false

module _ (T : TimeCrate) (utc_now : ℤ) (read_events : Text → List PlacedEvent) where
  module _ (opts : FlowOptions) (response_xml : Text) (expected_recipient : Option Text) where
    abbrev pub judge_bearer : Text → Value → Progress → Run Progress
    judge_bearer assertion_xml extracted s = do
      validate_subject_confirmation T utc_now read_events opts extracted expected_recipient
      validate_audience T utc_now read_events opts assertion_xml
      validate_assertion_time T utc_now read_events opts extracted
      done (record s { saw_bearer = true })

    abbrev pub judge_other : Value → Progress → Run Progress
    judge_other extracted s =
        elim (is_none s.confirmation_error
          && not (is_empty (subject_confirmation_xmls extracted))) [
            | true ↦ keep_error s (
                validate_subject_confirmation T utc_now read_events opts extracted
                  expected_recipient)
            | false ↦ done s
          ]

    abbrev pub judge : Text → Value → Progress → Bool → Run Progress
    judge assertion_xml extracted s true = judge_bearer assertion_xml extracted s
    judge assertion_xml extracted s false = judge_other extracted s

    -- The body of the loop.
    unfoldable pub accept_one : Bool → Node → Progress → Run Progress
    accept_one several assertion s = do
      assertion_xml ← slice response_xml (start assertion) (finish assertion)
      remembered ← remember several opts.from_issuer assertion s
      extracted ←
          extract_with_limits read_events opts.xml_limits assertion_xml
            (login_response_fields assertion_xml)
      bearer ← extracted_has_bearer T utc_now read_events opts extracted
      judge assertion_xml extracted remembered bearer

    unfoldable pub accept_each : Bool → List Node → Progress → Run Progress
    accept_each several [] s = done s
    accept_each several (assertion ∷ assertions) s = do
      next ← accept_one several assertion s
      accept_each several assertions next

    unfoldable pub accept_assertions : List Node → Run (Unit {0})
    accept_assertions assertions = do
      require (not (is_empty assertions)) (xml (ascii "ERR_EMPTY_ASSERTION"))
      final ← accept_each (is_several assertions) assertions initial_progress
      finish_progress final

  unfoldable pub accept_response_assertions :
      (ℕ → Text → List NsEvent) → Text → FlowOptions → Option Text → Run (Unit {0})
  accept_response_assertions read_ns_events response_xml opts expected_recipient = do
    lift (reject_unrecognized_conditions read_ns_events opts.xml_limits response_xml)
    root ← lift (parse_with_limits read_events opts.xml_limits response_xml)
    accept_assertions opts response_xml expected_recipient (direct_assertions root)

-- `filter(|actual| !actual.is_empty())`
abbrev pub non_empty : Option Text → Option Text
non_empty (some (c ∷ s)) = some (c ∷ s)
non_empty _ = none

abbrev pub request_fields : List ExtractorField
request_fields =
    with_attrs (field (ascii "subjectConfirmation") (ascii "SubjectConfirmation" ∷ []))
      (ascii "Method" ∷ [])
    ∷ with_attrs
        (field (ascii "subjectConfirmationData")
          (ascii "SubjectConfirmation" ∷ ascii "SubjectConfirmationData" ∷ []))
        (ascii "InResponseTo" ∷ [])
    ∷ []

abbrev pub names_no_request : Bool → Option Text → Run (Unit {0})
names_no_request true (some request_id) = fail (in_response_to_mismatch none (some request_id))
names_no_request bearer request = done tt

module _ (read_events : Text → List PlacedEvent) (limits : XmlLimits) where
  unfoldable pub reject_requests : List Text → Run (Unit {0})
  reject_requests [] = done tt
  reject_requests (confirmation_xml ∷ confirmations) = do
    confirmation ← extract_with_limits read_events limits confirmation_xml request_fields
    names_no_request (is_bearer confirmation)
        (non_empty (get_str confirmation (ascii "subjectConfirmationData")))
    reject_requests confirmations

  unfoldable pub reject_each : Text → List Node → Run (Unit {0})
  reject_each response_xml [] = done tt
  reject_each response_xml (assertion ∷ assertions) = do
    assertion_xml ← slice response_xml (start assertion) (finish assertion)
    extracted ←
        extract_with_limits read_events limits assertion_xml (login_response_fields assertion_xml)
    reject_requests (subject_confirmation_xmls extracted)
    reject_each response_xml assertions

  unfoldable pub reject_unsolicited_bearer_in_response_to : Text → Run (Unit {0})
  reject_unsolicited_bearer_in_response_to response_xml = do
    root ← lift (parse_with_limits read_events limits response_xml)
    reject_each response_xml (direct_assertions root)
