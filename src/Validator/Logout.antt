-- ===== src/Validator/Logout.antt =====
-- src/validator.rs: the deadline of an inbound `LogoutRequest`.
use opensaml_rs.Prelude.{
  ◌≡◌, ◌≢◌, refl, subst, sym, Option, none, some, Text, ascii, arith, Option-cases, inl, inr,
}
use opensaml_rs.Prelude.Int.{ℤ, ◌+ℤ◌, ◌<ℤ◌}
use opensaml_rs.Error.{SamlError, time_window_invalid, logout_request_not_on_or_after, ok, err}
use opensaml_rs.Time.{TimeCrate, milliseconds}
use opensaml_rs.DateTime.{parse_saml_utc_date_time}
use opensaml_rs.Value.{Value, get_str}
use opensaml_rs.Validator.{
  effective_not_on_or_after, deadline_of, logout_request_not_on_or_after_deadline,
}

module _ (T : TimeCrate) where
  open T use {parse_rfc3339, checked_add, checked_add_exact}

  -- Either no deadline is stated, or the effective deadline is the stated one, a SAML date-time,
  -- moved by the skew, and lies ahead.
  abbrev pub DeadlineHolds : Option Text → ℤ → ℤ → Option ℤ → Type 0
  DeadlineHolds stated now skew_ms none = stated ≡ none
  DeadlineHolds stated now skew_ms (some effective) =
      (value : Text) × (normalized : Text) × (deadline : ℤ) × (stated ≡ some value)
      × (parse_saml_utc_date_time value ≡ some normalized)
      × (parse_rfc3339 normalized ≡ some deadline)
      × (effective ≡ deadline +ℤ milliseconds skew_ms)
      × (now <ℤ effective)

  deadline_of_sound :
      (stated : Option Text) (now skew_ms : ℤ) (d : Option ℤ)
      → deadline_of T stated now skew_ms ≡ ok d
      → DeadlineHolds stated now skew_ms d
  unfolding deadline_of effective_not_on_or_after
  deadline_of_sound none now skew_ms none h = refl
  deadline_of_sound none now skew_ms (some e) h = ground arith
  deadline_of_sound (some value) now skew_ms d h =
      elim (Option-cases (parse_saml_utc_date_time value)) [
        | inl bad ↦ ground arith
        | inr (normalized, en) ↦ elim (Option-cases (parse_rfc3339 normalized)) [
          | inl bad ↦ ground arith
          | inr (deadline, ed) ↦ elim (Option-cases (checked_add deadline (milliseconds skew_ms))) [
            | inl bad ↦ ground arith
            | inr (effective, ee) ↦
                let same : d ≡ some effective = ground arith in
                subst (DeadlineHolds (some value) now skew_ms) (sym same) (
                  value,
                  normalized,
                  deadline,
                  refl,
                  en,
                  ed,
                  checked_add_exact deadline (milliseconds skew_ms) ee,
                  ground arith,
                )
          ]
        ]
      ]

  -- A request that passes either states no deadline, or its deadline, moved by the skew, lies
  -- strictly ahead of the clock and is what is returned.
  pub logout_request_not_on_or_after_deadline_sound :
      (extracted : Value) (now skew_ms : ℤ) (d : Option ℤ)
      → logout_request_not_on_or_after_deadline T extracted now skew_ms ≡ ok d
      → DeadlineHolds (get_str extracted (ascii "request.notOnOrAfter")) now skew_ms d
  unfolding logout_request_not_on_or_after_deadline
  logout_request_not_on_or_after_deadline_sound extracted now skew_ms d h =
      deadline_of_sound (get_str extracted (ascii "request.notOnOrAfter")) now skew_ms d h

  deadline_of_refusal :
      (stated : Option Text) (now skew_ms : ℤ) {e : SamlError}
      → deadline_of T stated now skew_ms ≡ err e
      → (e ≡ time_window_invalid logout_request_not_on_or_after) × (stated ≢ none)
  unfolding deadline_of effective_not_on_or_after
  deadline_of_refusal none now skew_ms h = ground arith
  deadline_of_refusal (some value) now skew_ms h = ground arith

  -- A refusal is always the same error, and only of a request that states a deadline.
  pub logout_request_not_on_or_after_deadline_refusal :
      (extracted : Value) (now skew_ms : ℤ) {e : SamlError}
      → logout_request_not_on_or_after_deadline T extracted now skew_ms ≡ err e
      → (e ≡ time_window_invalid logout_request_not_on_or_after)
        × (get_str extracted (ascii "request.notOnOrAfter") ≢ none)
  unfolding logout_request_not_on_or_after_deadline
  logout_request_not_on_or_after_deadline_refusal extracted now skew_ms h =
      deadline_of_refusal (get_str extracted (ascii "request.notOnOrAfter")) now skew_ms h
