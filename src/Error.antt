-- ===== src/Error.antt =====
-- src/error.rs: the errors, and the `Result` that every fallible operation returns. The values that
-- an error carries from another crate (`std::io::Error`, `base64::DecodeError`) are left out.
use opensaml_rs.Prelude.{Bool, true, false, Option, none, some, Text, ◌≡◌, refl, ◌⊎◌, inl, inr}

pub data SignatureVerificationReason : Type 0 where
  xml_signature detached_message_signature : SignatureVerificationReason
  relay_state_correlation reference_digest : SignatureVerificationReason

pub data ReferenceResolutionReason : Type 0 where
  external_reference unsupported_reference_uri : ReferenceResolutionReason
  missing_signature_reference unresolved_reference : ReferenceResolutionReason

pub data SubjectConfirmationReason : Type 0 where
  invalid_method missing_not_on_or_after time_window_invalid : SubjectConfirmationReason
  recipient_mismatch in_response_to_mismatch : SubjectConfirmationReason
  missing_bearer_confirmation : SubjectConfirmationReason

pub data TimeWindowField : Type 0 where
  idp_issuance_expiration logout_request_not_on_or_after : TimeWindowField
  session_not_on_or_after conditions replay_expiration : TimeWindowField
  authn_request_issue_instant : TimeWindowField

-- src/constants.rs: `Binding`.
pub data Binding : Type 0 where
  redirect post simple_sign artifact : Binding

-- src/model/relay.rs: `RelayState` is a text that the constructor checked.
pub data RelayStateParam : Type 0 where
  absent present_empty : RelayStateParam
  present_value : Text → RelayStateParam

pub data SamlError : Type 0 where
  deflate base64 : SamlError
  xml invalid protocol_profile unsupported : Text → SamlError
  unsupported_binding : Binding → SamlError
  issuer_mismatch destination_mismatch : Text → Option Text → SamlError
  in_response_to_mismatch : Option Text → Option Text → SamlError
  relay_state_mismatch : RelayStateParam → RelayStateParam → SamlError
  audience_mismatch unrecognized_condition : Text → SamlError
  principal_mismatch artifact_not_returned soap_channel_protection : SamlError
  status_not_success : Text → Option Text → SamlError
  time_window_invalid : TimeWindowField → SamlError
  subject_confirmation_invalid : SubjectConfirmationReason → SamlError
  assertion_matches_outstanding_logout : SamlError
  replay_detected : Text → SamlError
  signature_missing : SamlError
  missing_binding_parameter : Text → SamlError
  signature_verification : SignatureVerificationReason → SamlError
  reference_resolution : ReferenceResolutionReason → SamlError
  signed_reference_mismatch assertion_signature_required algorithm_unsupported : SamlError
  no_trusted_certificate certificate_mismatch : SamlError
  unmatch_issuer unmatch_audience unmatch_destination invalid_in_response_to : SamlError
  undefined_status : SamlError
  failed_status : Text → Text → SamlError
  expired_session subject_unconfirmed potential_wrapping_attack missing_sig_alg : SamlError
  failed_message_signature_verification failed_to_verify_signature : SamlError
  unmatch_certificate undefined_binding : SamlError
  missing_metadata missing_key crypto : Text → SamlError

pub data Result {ℓ} (A : Type ℓ) : Type ℓ where
  ok : A → Result A
  err : SamlError → Result A

infixl 5 ◌>>=◌ ◌>>◌
abbrev pub ◌>>=◌ {ℓ κ} : {A : Type ℓ} {B : Type κ} → Result A → (A → Result B) → Result B
ok a >>= k = k a
err e >>= k = err e

abbrev pub ◌>>◌ {ℓ} : {B : Type ℓ} → Result (Unit {0}) → Result B → Result B
m >> k = m >>= λ _. k

-- `if !b { return Err(e); }`
abbrev pub ensure : Bool → SamlError → Result (Unit {0})
ensure true e = ok tt
ensure false e = err e

-- `Option::ok_or`
abbrev pub ok_or {ℓ} : {A : Type ℓ} → Option A → SamlError → Result A
ok_or none e = err e
ok_or (some a) e = ok a

-- `Option::map(f).transpose()`
abbrev pub transpose {ℓ κ} :
    {A : Type ℓ} {B : Type κ} → Option A → (A → Result B) → Result (Option B)
transpose none f = ok none
transpose (some a) f = do b ← f a; ok (some b)

abbrev pub is_ok {ℓ} : {A : Type ℓ} → Result A → Bool
is_ok (ok a) = true
is_ok (err e) = false

pub Result-cases {ℓ} :
    {A : Type ℓ} (r : Result A) → ((a : A) × (r ≡ ok a)) ⊎ ((e : SamlError) × (r ≡ err e))
Result-cases (ok a) = inl (a, refl)
Result-cases (err e) = inr (e, refl)
