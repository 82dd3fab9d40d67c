-- ===== src/Acceptance/Tests.antt =====
-- Tests of src/assertion_acceptance.rs and src/xml, on a response with two assertions.
use opensaml_rs.Prelude.{
  ℕ, ◌≡◌, refl, Bool, true, false, Option, none, some, List, [], ◌∷◌, ◌++◌, All, take, drop, Text,
  ascii, length, ◌≤◌, text_eq, ◌≢◌,
}
use opensaml_rs.Prelude.Int.{ℤ, pos}
use opensaml_rs.Error.{Result, ok, err}
use opensaml_rs.Run.{Run, done}
use opensaml_rs.Value.{Value, null, get}
use opensaml_rs.Time.{TimeCrate}
use opensaml_rs.Validator.{conditions_time_bounds}
use opensaml_rs.Validator.Window.{LowerHolds, UpperHolds}
use opensaml_rs.Flow.{FlowOptions, validation_now}
use opensaml_rs.Xml.Dom.{Node, node, no_nodes, default_limits, parse_with_limits, PlacedEvent}
use opensaml_rs.Xml.Extract.{extract_with_limits, select_path}
use opensaml_rs.Xml.Extract.Fields.{login_response_fields}
use opensaml_rs.Acceptance.{Principal, direct_assertions}
use opensaml_rs.Acceptance.Checks.{
  check_bearer_subject_confirmation, valid, validate_audience, validate_assertion_time,
  extracted_from, restriction_fields, authn_statement_not_on_or_after_values,
}
use opensaml_rs.Acceptance.Conditions.{
  NsEvent, reject_unrecognized_conditions, reject_unrecognized_conditions-MayStand, MayStand,
  stack_after, opened, start_element,
}
use opensaml_rs.Acceptance.Accept.{accept_response_assertions}
use opensaml_rs.Acceptance.Confirmed.{ConfirmedBy, check_bearer_subject_confirmation-ConfirmedBy}
use opensaml_rs.Acceptance.Accepted.{Accepted, accept_response_assertions-Accepted}
use opensaml_rs.Acceptance.Shared.{Agrees, accept_response_assertions-Agrees}
use opensaml_rs.Acceptance.Met.{RestrictedTo, validate_audience-RestrictedTo}
use opensaml_rs.Acceptance.InTime.{Open, validate_assertion_time-Open}
use opensaml_rs.Acceptance.Replays.{
  latest_bearer_not_on_or_after, latest_bearer_not_on_or_after-Covers, Covers,
  subject_confirmations, assertion_ids, first_login_assertion_xml,
}
use opensaml_rs.Acceptance.Example.{
  example_clock, example_reader, example_ns_reader, example_options, response_text, first_text,
  confirmation_text, response_ns_events,
}

abbrev node_of : Result Node → Node
node_of (ok n) = n
node_of (err e) = node [] [] no_nodes [] 0 0

abbrev value_of : Run Value → Value
value_of (done v) = v
value_of _ = null

abbrev response_root : Node
response_root = node_of (parse_with_limits example_reader default_limits response_text)

abbrev first_root : Node
first_root = node_of (parse_with_limits example_reader default_limits first_text)

abbrev first_value : Value
first_value = value_of (
    extract_with_limits example_reader default_limits first_text (login_response_fields first_text))

late :
    accept_response_assertions example_clock
      (pos 250)
      example_reader
      example_ns_reader
      response_text
      example_options
      (some (ascii "acs"))
    ≢ done tt
unfolding opensaml_rs.Acceptance.same_text opensaml_rs.Acceptance.direct_assertions
    opensaml_rs.Acceptance.issuer_text opensaml_rs.Acceptance.principal_of
    opensaml_rs.Acceptance.same_principal opensaml_rs.Acceptance.remember_same_issuer
    opensaml_rs.Acceptance.remember_same_principal opensaml_rs.Acceptance.subject_confirmation_xmls
    opensaml_rs.Acceptance.Checks.authn_statement_not_on_or_after_values
    opensaml_rs.Acceptance.Checks.earliest_from
    opensaml_rs.Acceptance.Checks.earliest_authn_session_expiration
    opensaml_rs.Acceptance.Checks.is_expected opensaml_rs.Acceptance.Checks.has_bearer
    opensaml_rs.Acceptance.Checks.extracted_has_bearer
    opensaml_rs.Acceptance.Checks.check_bearer_subject_confirmation
    opensaml_rs.Acceptance.Checks.confirm_any
    opensaml_rs.Acceptance.Checks.validate_subject_confirmation
    opensaml_rs.Acceptance.Checks.audience_restriction_contains
    opensaml_rs.Acceptance.Checks.each_contains
    opensaml_rs.Acceptance.Checks.audience_restrictions_contain
    opensaml_rs.Acceptance.Checks.validate_audience
    opensaml_rs.Acceptance.Checks.validate_assertion_time
    opensaml_rs.Acceptance.Conditions.element_namespace
    opensaml_rs.Acceptance.Conditions.in_conditions
    opensaml_rs.Acceptance.Conditions.unknown_condition_child
    opensaml_rs.Acceptance.Conditions.find_unknown
    opensaml_rs.Acceptance.Conditions.unrecognized_condition_name
    opensaml_rs.Acceptance.Conditions.reject_unrecognized_conditions
    opensaml_rs.Acceptance.Accept.remember opensaml_rs.Acceptance.Accept.accept_one
    opensaml_rs.Acceptance.Accept.accept_each opensaml_rs.Acceptance.Accept.accept_assertions
    opensaml_rs.Acceptance.Accept.accept_response_assertions
    opensaml_rs.Acceptance.Accept.reject_requests opensaml_rs.Acceptance.Accept.reject_each
    opensaml_rs.Acceptance.Accept.reject_unsolicited_bearer_in_response_to
    opensaml_rs.Acceptance.Replays.subject_confirmations
    opensaml_rs.Acceptance.Replays.node_has_bearer opensaml_rs.Acceptance.Replays.bearer_deadline
    opensaml_rs.Acceptance.Replays.latest_from
    opensaml_rs.Acceptance.Replays.latest_bearer_not_on_or_after
    opensaml_rs.Acceptance.Replays.assertion_nodes opensaml_rs.Acceptance.Replays.assertion_replays
    opensaml_rs.Acceptance.Replays.assertion_ids opensaml_rs.Acceptance.Replays.chosen_assertion
    opensaml_rs.Acceptance.Replays.first_login_assertion_xml opensaml_rs.Xml.Dom.decimal_from
    opensaml_rs.Xml.Dom.limit_exceeded opensaml_rs.Xml.Dom.check_input_bytes
    opensaml_rs.Xml.Dom.find_attr opensaml_rs.Xml.Dom.attr opensaml_rs.Xml.Dom.push_node
    opensaml_rs.Xml.Dom.checked_node_count opensaml_rs.Xml.Dom.check_depth
    opensaml_rs.Xml.Dom.checked_append_text opensaml_rs.Xml.Dom.read_attrs_from
    opensaml_rs.Xml.Dom.read_attrs opensaml_rs.Xml.Dom.find_lt opensaml_rs.Xml.Dom.is_xml_whitespace
    opensaml_rs.Xml.Dom.handle opensaml_rs.Xml.Dom.run opensaml_rs.Xml.Dom.parse_roots_inner
    opensaml_rs.Xml.Dom.parse_with_limits opensaml_rs.Xml.Extract.seg_matches
    opensaml_rs.Xml.Extract.next_level opensaml_rs.Xml.Extract.levels
    opensaml_rs.Xml.Extract.select_path opensaml_rs.Xml.Extract.descend
    opensaml_rs.Xml.Extract.aggregate opensaml_rs.Xml.Extract.split_words
    opensaml_rs.Xml.Extract.camel_case opensaml_rs.Xml.Extract.slice
    opensaml_rs.Xml.Extract.extract_field opensaml_rs.Xml.Extract.extract_fields
    opensaml_rs.Xml.Extract.extract_with_limits opensaml_rs.Xml.Extract.Fields.login_request_fields
    opensaml_rs.Xml.Extract.Fields.login_response_status_fields
    opensaml_rs.Xml.Extract.Fields.logout_response_status_fields
    opensaml_rs.Xml.Extract.Fields.login_response_fields
    opensaml_rs.Xml.Extract.Fields.logout_request_fields
    opensaml_rs.Xml.Extract.Fields.logout_response_fields opensaml_rs.Flow.single_param
    opensaml_rs.Flow.validation_now opensaml_rs.Validator.effective_not_on_or_after
    opensaml_rs.Validator.logout_request_not_on_or_after_deadline
    opensaml_rs.Validator.verify_time_at opensaml_rs.Validator.bounds_of
    opensaml_rs.Validator.conditions_time_bounds opensaml_rs.Validator.success
    opensaml_rs.Validator.check_status_with_limits opensaml_rs.Validation.kind
    opensaml_rs.Validation.value opensaml_rs.Validation.cache_key
    opensaml_rs.Validation.positive_millis opensaml_rs.Validation.negative_millis_magnitude
    opensaml_rs.Validation.offset_datetime_from_system_time
    opensaml_rs.Validation.offset_checked_add opensaml_rs.Validation.offset_checked_sub
    opensaml_rs.Validation.system_time_from_offset_datetime
    opensaml_rs.Validation.check_authn_request_issue_instant
    opensaml_rs.Validation.message_replay_expires_at
    opensaml_rs.Validation.check_and_store_message_replay
    opensaml_rs.Validation.check_and_store_message_replay_until opensaml_rs.Value.lookup
    opensaml_rs.Value.get_key opensaml_rs.Value.walk opensaml_rs.Value.get opensaml_rs.Value.get_str
    opensaml_rs.Value.set_entry opensaml_rs.Value.insert opensaml_rs.Value.push
    opensaml_rs.Value.aggregate_entry opensaml_rs.Value.zip_entries opensaml_rs.Value.zip_object
    opensaml_rs.Value.verify_fields opensaml_rs.Value.uniq_from opensaml_rs.Value.uniq
    opensaml_rs.Prelude.ascii opensaml_rs.Prelude.text_eq opensaml_rs.Prelude.split
    opensaml_rs.Prelude.Int.◌+ℤ◌ opensaml_rs.Prelude.Int.◌-ℤ◌
late = λ h. cc h

runs :
    (accept_response_assertions example_clock
        (pos 150)
        example_reader
        example_ns_reader
        response_text
        example_options
        (some (ascii "acs"))
      ≡ done tt)
    × (parse_with_limits example_reader default_limits response_text ≡ ok response_root)
    × (parse_with_limits example_reader default_limits first_text ≡ ok first_root)
    × (assertion_ids example_clock example_reader response_text ≡ ok (ascii "a" ∷ ascii "b" ∷ []))
    × (first_login_assertion_xml example_reader response_text default_limits
        ≡ done (some first_text))
    × (check_bearer_subject_confirmation example_clock
          (pos 150)
          example_reader
          example_options
          confirmation_text
          (some (ascii "acs"))
        ≡ done valid)
    × (validate_audience example_clock (pos 150) example_reader example_options first_text
        ≡ done tt)
    × (validate_assertion_time example_clock (pos 150) example_reader example_options first_value
        ≡ done tt)
    × (latest_bearer_not_on_or_after example_clock first_root ≡ some (ascii "2030"))
    × (reject_unrecognized_conditions example_ns_reader default_limits response_text ≡ ok tt)
    × (opensaml_rs.Acceptance.Accept.is_several (direct_assertions response_root) ≡ true)
unfolding opensaml_rs.Acceptance.same_text opensaml_rs.Acceptance.direct_assertions
    opensaml_rs.Acceptance.issuer_text opensaml_rs.Acceptance.principal_of
    opensaml_rs.Acceptance.same_principal opensaml_rs.Acceptance.remember_same_issuer
    opensaml_rs.Acceptance.remember_same_principal opensaml_rs.Acceptance.subject_confirmation_xmls
    opensaml_rs.Acceptance.Checks.authn_statement_not_on_or_after_values
    opensaml_rs.Acceptance.Checks.earliest_from
    opensaml_rs.Acceptance.Checks.earliest_authn_session_expiration
    opensaml_rs.Acceptance.Checks.is_expected opensaml_rs.Acceptance.Checks.has_bearer
    opensaml_rs.Acceptance.Checks.extracted_has_bearer
    opensaml_rs.Acceptance.Checks.check_bearer_subject_confirmation
    opensaml_rs.Acceptance.Checks.confirm_any
    opensaml_rs.Acceptance.Checks.validate_subject_confirmation
    opensaml_rs.Acceptance.Checks.audience_restriction_contains
    opensaml_rs.Acceptance.Checks.each_contains
    opensaml_rs.Acceptance.Checks.audience_restrictions_contain
    opensaml_rs.Acceptance.Checks.validate_audience
    opensaml_rs.Acceptance.Checks.validate_assertion_time
    opensaml_rs.Acceptance.Conditions.element_namespace
    opensaml_rs.Acceptance.Conditions.in_conditions
    opensaml_rs.Acceptance.Conditions.unknown_condition_child
    opensaml_rs.Acceptance.Conditions.find_unknown
    opensaml_rs.Acceptance.Conditions.unrecognized_condition_name
    opensaml_rs.Acceptance.Conditions.reject_unrecognized_conditions
    opensaml_rs.Acceptance.Accept.remember opensaml_rs.Acceptance.Accept.accept_one
    opensaml_rs.Acceptance.Accept.accept_each opensaml_rs.Acceptance.Accept.accept_assertions
    opensaml_rs.Acceptance.Accept.accept_response_assertions
    opensaml_rs.Acceptance.Accept.reject_requests opensaml_rs.Acceptance.Accept.reject_each
    opensaml_rs.Acceptance.Accept.reject_unsolicited_bearer_in_response_to
    opensaml_rs.Acceptance.Replays.subject_confirmations
    opensaml_rs.Acceptance.Replays.node_has_bearer opensaml_rs.Acceptance.Replays.bearer_deadline
    opensaml_rs.Acceptance.Replays.latest_from
    opensaml_rs.Acceptance.Replays.latest_bearer_not_on_or_after
    opensaml_rs.Acceptance.Replays.assertion_nodes opensaml_rs.Acceptance.Replays.assertion_replays
    opensaml_rs.Acceptance.Replays.assertion_ids opensaml_rs.Acceptance.Replays.chosen_assertion
    opensaml_rs.Acceptance.Replays.first_login_assertion_xml opensaml_rs.Xml.Dom.decimal_from
    opensaml_rs.Xml.Dom.limit_exceeded opensaml_rs.Xml.Dom.check_input_bytes
    opensaml_rs.Xml.Dom.find_attr opensaml_rs.Xml.Dom.attr opensaml_rs.Xml.Dom.push_node
    opensaml_rs.Xml.Dom.checked_node_count opensaml_rs.Xml.Dom.check_depth
    opensaml_rs.Xml.Dom.checked_append_text opensaml_rs.Xml.Dom.read_attrs_from
    opensaml_rs.Xml.Dom.read_attrs opensaml_rs.Xml.Dom.find_lt opensaml_rs.Xml.Dom.is_xml_whitespace
    opensaml_rs.Xml.Dom.handle opensaml_rs.Xml.Dom.run opensaml_rs.Xml.Dom.parse_roots_inner
    opensaml_rs.Xml.Dom.parse_with_limits opensaml_rs.Xml.Extract.seg_matches
    opensaml_rs.Xml.Extract.next_level opensaml_rs.Xml.Extract.levels
    opensaml_rs.Xml.Extract.select_path opensaml_rs.Xml.Extract.descend
    opensaml_rs.Xml.Extract.aggregate opensaml_rs.Xml.Extract.split_words
    opensaml_rs.Xml.Extract.camel_case opensaml_rs.Xml.Extract.slice
    opensaml_rs.Xml.Extract.extract_field opensaml_rs.Xml.Extract.extract_fields
    opensaml_rs.Xml.Extract.extract_with_limits opensaml_rs.Xml.Extract.Fields.login_request_fields
    opensaml_rs.Xml.Extract.Fields.login_response_status_fields
    opensaml_rs.Xml.Extract.Fields.logout_response_status_fields
    opensaml_rs.Xml.Extract.Fields.login_response_fields
    opensaml_rs.Xml.Extract.Fields.logout_request_fields
    opensaml_rs.Xml.Extract.Fields.logout_response_fields opensaml_rs.Flow.single_param
    opensaml_rs.Flow.validation_now opensaml_rs.Validator.effective_not_on_or_after
    opensaml_rs.Validator.logout_request_not_on_or_after_deadline
    opensaml_rs.Validator.verify_time_at opensaml_rs.Validator.bounds_of
    opensaml_rs.Validator.conditions_time_bounds opensaml_rs.Validator.success
    opensaml_rs.Validator.check_status_with_limits opensaml_rs.Validation.kind
    opensaml_rs.Validation.value opensaml_rs.Validation.cache_key
    opensaml_rs.Validation.positive_millis opensaml_rs.Validation.negative_millis_magnitude
    opensaml_rs.Validation.offset_datetime_from_system_time
    opensaml_rs.Validation.offset_checked_add opensaml_rs.Validation.offset_checked_sub
    opensaml_rs.Validation.system_time_from_offset_datetime
    opensaml_rs.Validation.check_authn_request_issue_instant
    opensaml_rs.Validation.message_replay_expires_at
    opensaml_rs.Validation.check_and_store_message_replay
    opensaml_rs.Validation.check_and_store_message_replay_until opensaml_rs.Value.lookup
    opensaml_rs.Value.get_key opensaml_rs.Value.walk opensaml_rs.Value.get opensaml_rs.Value.get_str
    opensaml_rs.Value.set_entry opensaml_rs.Value.insert opensaml_rs.Value.push
    opensaml_rs.Value.aggregate_entry opensaml_rs.Value.zip_entries opensaml_rs.Value.zip_object
    opensaml_rs.Value.verify_fields opensaml_rs.Value.uniq_from opensaml_rs.Value.uniq
    opensaml_rs.Prelude.ascii opensaml_rs.Prelude.text_eq opensaml_rs.Prelude.split
    opensaml_rs.Prelude.Int.◌+ℤ◌ opensaml_rs.Prelude.Int.◌-ℤ◌
runs = (refl, refl, refl, refl, refl, refl, refl, refl, refl, refl, refl)

accepted :
    accept_response_assertions example_clock
      (pos 150)
      example_reader
      example_ns_reader
      response_text
      example_options
      (some (ascii "acs"))
    ≡ done tt
accepted = runs.0

parsed : parse_with_limits example_reader default_limits response_text ≡ ok response_root
parsed = runs.1

first_parsed : parse_with_limits example_reader default_limits first_text ≡ ok first_root
first_parsed = runs.2

ids : assertion_ids example_clock example_reader response_text ≡ ok (ascii "a" ∷ ascii "b" ∷ [])
ids = runs.3

first_login :
    first_login_assertion_xml example_reader response_text default_limits ≡ done (some first_text)
first_login = runs.4

confirmed :
    check_bearer_subject_confirmation example_clock
      (pos 150)
      example_reader
      example_options
      confirmation_text
      (some (ascii "acs"))
    ≡ done valid
confirmed = runs.5

audience_met :
    validate_audience example_clock (pos 150) example_reader example_options first_text ≡ done tt
audience_met = runs.6

time_met :
    validate_assertion_time example_clock (pos 150) example_reader example_options first_value
    ≡ done tt
time_met = runs.7

deadline : latest_bearer_not_on_or_after example_clock first_root ≡ some (ascii "2030")
deadline = runs.8

understood : reject_unrecognized_conditions example_ns_reader default_limits response_text ≡ ok tt
understood = runs.9

several : opensaml_rs.Acceptance.Accept.is_several (direct_assertions response_root) ≡ true
several = runs.10

deadline_read : TimeCrate.parse_rfc3339 example_clock (ascii "2030") ≡ some (pos 200)
unfolding ascii text_eq
deadline_read = refl

abbrev restriction_event : NsEvent
restriction_event =
    start_element (some (ascii "urn:oasis:names:tc:SAML:2.0:assertion"))
      (ascii "AudienceRestriction")

-- The restriction stands in the conditions.
in_place :
    opensaml_rs.Acceptance.Conditions.in_conditions (stack_after [] (take 14 response_ns_events))
    ≡ true
unfolding opensaml_rs.Acceptance.Conditions.in_conditions
    opensaml_rs.Acceptance.Conditions.element_namespace ascii text_eq
in_place = refl

example_events :
    example_ns_reader default_limits.max_attributes_per_element response_text
    ≡ take 14 response_ns_events ++ restriction_event ∷ drop 15 response_ns_events
unfolding ascii text_eq
example_events = refl

accept_response_assertions-Accepted_example :
    (reject_unrecognized_conditions example_ns_reader default_limits response_text ≡ ok tt)
    × (root : Node) × (parse_with_limits example_reader default_limits response_text ≡ ok root)
    × Accepted example_clock
        (pos 150)
        example_reader
        example_options
        response_text
        (some (ascii "acs"))
        (direct_assertions root)
        true
accept_response_assertions-Accepted_example =
    accept_response_assertions-Accepted example_clock (pos 150) example_reader example_options
      response_text (some (ascii "acs")) example_ns_reader accepted

accept_response_assertions-Agrees_example :
    (i : Option Text) × (p : Principal) × All
      (Agrees (some (ascii "idp")) i p)
      (direct_assertions response_root)
accept_response_assertions-Agrees_example =
    accept_response_assertions-Agrees example_clock (pos 150) example_reader example_options
      response_text (some (ascii "acs")) example_ns_reader {root = response_root} accepted parsed
      several

check_bearer_subject_confirmation-ConfirmedBy_example :
    ConfirmedBy example_clock
      (pos 150)
      example_reader
      example_options
      (some (ascii "acs"))
      confirmation_text
check_bearer_subject_confirmation-ConfirmedBy_example =
    check_bearer_subject_confirmation-ConfirmedBy example_clock (pos 150) example_reader
      example_options (some (ascii "acs")) confirmation_text confirmed

validate_audience-RestrictedTo_example :
    (v : Value) × (extracted_from example_clock
        (pos 150)
        example_reader
        example_options
        first_text
        restriction_fields
      ≡ done v)
    × RestrictedTo example_clock
        (pos 150)
        example_reader
        example_options
        (ascii "sp")
        (get v (ascii "audienceRestriction"))
validate_audience-RestrictedTo_example =
    validate_audience-RestrictedTo example_clock (pos 150) example_reader example_options first_text
      (ascii "sp") refl audience_met

validate_assertion_time-Open_example :
    (now : ℤ) × (validation_now example_clock (pos 150) none ≡ ok now)
    × (values : List Text) × (authn_statement_not_on_or_after_values first_value ≡ ok values)
    × All (Open example_clock now (pos 0)) values
    × (bounds : Option Text × Option Text) × (conditions_time_bounds first_value ≡ ok bounds)
    × LowerHolds example_clock bounds.0 (pos 0) now
    × UpperHolds example_clock bounds.1 (pos 0) now
validate_assertion_time-Open_example =
    validate_assertion_time-Open example_clock (pos 150) example_reader example_options first_value
      time_met

latest_bearer_not_on_or_after-Covers_example :
    All (Covers example_clock (pos 200)) (subject_confirmations first_root)
latest_bearer_not_on_or_after-Covers_example =
    latest_bearer_not_on_or_after-Covers example_clock first_root (ascii "2030") (pos 200) deadline
      deadline_read

reject_unrecognized_conditions-MayStand_example :
    MayStand (stack_after [] (take 14 response_ns_events)) (opened restriction_event)
reject_unrecognized_conditions-MayStand_example =
    reject_unrecognized_conditions-MayStand example_ns_reader default_limits response_text
      (take 14 response_ns_events) restriction_event (drop 15 response_ns_events) example_events
      understood
