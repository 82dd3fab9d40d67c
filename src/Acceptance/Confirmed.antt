-- ===== src/Acceptance/Confirmed.antt =====
-- src/assertion_acceptance.rs: what the checks of one assertion establish.
use opensaml_rs.Prelude.{
  arith, ◌≡◌, refl, ap, true, false, Option, none, some, List, [], ◌∷◌, Text, ascii, text_eq_iff,
  Bool-cases, Option-cases, inl, inr,
}
use opensaml_rs.Prelude.Int.{ℤ, ◌+ℤ◌, ◌<ℤ◌}
use opensaml_rs.Error.{SubjectConfirmationReason, ok}
use opensaml_rs.Run.{done, lift, bind_done, lift_done}
use opensaml_rs.Time.{TimeCrate, milliseconds}
use opensaml_rs.Value.{Value, get_str}
use opensaml_rs.Validator.{verify_time_at}
use opensaml_rs.Validator.Window.{verify_time_at_sound}
use opensaml_rs.Flow.{FlowOptions, validation_now}
use opensaml_rs.Xml.Dom.{PlacedEvent}
use opensaml_rs.Acceptance.{
  bearer_subject_confirmation_method, same_text, subject_confirmation_xmls,
}
use opensaml_rs.Acceptance.Checks.{
  valid, not_valid, is_expected, is_bearer, confirmation_fields, extracted_from, check_data,
  check_deadline, check_bearer_subject_confirmation, confirm_any, validate_subject_confirmation,
}

-- A value that is there where one is expected, and equal to it.
abbrev pub Expected : Option Text → Option Text → Type 0
Expected none actual = Unit
Expected (some expected) actual = actual ≡ some expected

pub same_text_sound : (a b : Option Text) → same_text a b ≡ true → a ≡ b
unfolding same_text
same_text_sound none none h = refl
same_text_sound none (some b) h = absurd (cc h)
same_text_sound (some a) none h = absurd (cc h)
same_text_sound (some a) (some b) h = ap some ((text_eq_iff a b).0 h)

pub is_expected-Expected : (e a : Option Text) → is_expected e a ≡ true → Expected e a
unfolding is_expected
is_expected-Expected none a h = tt
is_expected-Expected (some e) a h = same_text_sound a (some e) h

module _ (T : TimeCrate) (utc_now : ℤ) (read_events : Text → List PlacedEvent) (opts : FlowOptions)
    (expected_recipient : Option Text) where
  -- A bearer confirmation as a reader of the profile wants it: its method is bearer, the validation
  -- is before its deadline, and the recipient and the request are the expected ones.
  pub record ConfirmedBy (source : Text) : Type 0 where
    pub extracted : Value
    pub read : extracted_from T utc_now read_events opts source confirmation_fields ≡ done extracted
    pub method :
        get_str extracted (ascii "subjectConfirmation") ≡ some bearer_subject_confirmation_method
    pub now : ℤ
    pub clock : validation_now T utc_now opts.now ≡ ok now
    pub deadline : Text
    pub instant : ℤ
    pub given : get_str extracted (ascii "subjectConfirmationData.notOnOrAfter") ≡ some deadline
    pub parsed : TimeCrate.parse_rfc3339 T deadline ≡ some instant
    pub in_time : now <ℤ instant +ℤ milliseconds opts.clock_drifts.1
    pub recipient :
        Expected expected_recipient (get_str extracted (ascii "subjectConfirmationData.recipient"))
    pub request :
        Expected opts.expected_in_response_to
          (get_str extracted (ascii "subjectConfirmationData.inResponseTo"))

  data_sound :
      (extracted : Value)
      → check_data T utc_now read_events opts expected_recipient extracted ≡ valid
      → Expected expected_recipient (get_str extracted (ascii "subjectConfirmationData.recipient"))
        × Expected opts.expected_in_response_to
            (get_str extracted (ascii "subjectConfirmationData.inResponseTo"))
  data_sound extracted h = (
    is_expected-Expected expected_recipient _ (ground arith),
    is_expected-Expected opts.expected_in_response_to _ (ground arith),
  )

  deadline_sound :
      (extracted : Value) (given : Option Text)
      → check_deadline T utc_now read_events opts expected_recipient extracted given ≡ done valid
      → (now : ℤ) × (deadline : Text) × (validation_now T utc_now opts.now ≡ ok now)
        × (given ≡ some deadline)
        × (verify_time_at T none (some deadline) opts.clock_drifts now ≡ some true)
        × (check_data T utc_now read_events opts expected_recipient extracted ≡ valid)
  deadline_sound extracted none h = absurd (ground arith)
  deadline_sound extracted (some deadline) h =
      let (now, clock, rest) = bind_done (lift (validation_now T utc_now opts.now)) h in
      elim (Option-cases (verify_time_at T none (some deadline) opts.clock_drifts now)) [
        | inl late ↦ absurd (ground (arith, late, rest))
        | inr (true, e) ↦ (
          now,
          deadline,
          lift_done (validation_now T utc_now opts.now) clock,
          refl,
          e,
          ground (arith, e, rest),
        )
        | inr (false, e) ↦ absurd (ground (arith, e, rest))
      ]

  -- A confirmation that is found valid is a bearer confirmation with all its conditions.
  pub check_bearer_subject_confirmation-ConfirmedBy :
      (source : Text)
      → check_bearer_subject_confirmation T utc_now read_events opts source expected_recipient
        ≡ done valid
      → ConfirmedBy source
  unfolding check_bearer_subject_confirmation
  check_bearer_subject_confirmation-ConfirmedBy source h =
      let (extracted, read, rest) =
        bind_done (extracted_from T utc_now read_events opts source confirmation_fields) h in
      elim (Bool-cases (is_bearer extracted)) [
        | inr other ↦ absurd (ground (arith, other, rest))
        | inl bearer ↦
            let (now, deadline, clock, given, in_time, data_valid) =
              deadline_sound extracted
                (get_str extracted (ascii "subjectConfirmationData.notOnOrAfter"))
                (ground (arith, bearer, rest)) in
            let (instant, parsed, before) =
              (verify_time_at_sound T none (some deadline) opts.clock_drifts now in_time).1 in
            let (recipient, request) = data_sound extracted data_valid in
            record {
              extracted = extracted;
              read = read;
              method = same_text_sound _ _ bearer;
              now = now;
              clock = clock;
              deadline = deadline;
              instant = instant;
              given = given;
              parsed = parsed;
              in_time = before;
              recipient = recipient;
              request = request;
            }
      ]

  -- One of the confirmations confirms the assertion.
  pub data ConfirmedIn : List Text → Type 0 where
    here :
        {source : Text} {sources : List Text} → ConfirmedBy source → ConfirmedIn (source ∷ sources)
    later :
        {source : Text} {sources : List Text} → ConfirmedIn sources → ConfirmedIn (source ∷ sources)

  confirm_any-ConfirmedIn :
      (reason : Option SubjectConfirmationReason) (sources : List Text)
      → confirm_any T utc_now read_events opts expected_recipient reason sources ≡ done tt
      → ConfirmedIn sources
  unfolding confirm_any
  confirm_any-ConfirmedIn reason [] h = absurd (ground arith)
  confirm_any-ConfirmedIn reason (source ∷ sources) h =
      let (check, made, rest) =
        bind_done
          (check_bearer_subject_confirmation T utc_now read_events opts source expected_recipient)
          h in
      elim check
          as (λ c.
            (check_bearer_subject_confirmation T utc_now read_events opts source expected_recipient
              ≡ done c)
            → (elim c [
              | valid ↦ done tt
              | not_valid current ↦
                  confirm_any T utc_now read_events opts expected_recipient (some current) sources
            ])
              ≡ done tt
            → ConfirmedIn (source ∷ sources)) [
              | valid ↦ λ e r. here (check_bearer_subject_confirmation-ConfirmedBy source e)
              | not_valid current ↦ λ e r. later (confirm_any-ConfirmedIn (some current) sources r)
            ]
        made rest

  pub validate_subject_confirmation-ConfirmedIn :
      (extracted : Value)
      → validate_subject_confirmation T utc_now read_events opts extracted expected_recipient
        ≡ done tt
      → ConfirmedIn (subject_confirmation_xmls extracted)
  unfolding validate_subject_confirmation
  validate_subject_confirmation-ConfirmedIn extracted h =
      confirm_any-ConfirmedIn none (subject_confirmation_xmls extracted) h
