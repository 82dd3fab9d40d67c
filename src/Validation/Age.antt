-- ===== src/Validation/Age.antt =====
-- src/model/validation.rs: which issue instants of an `AuthnRequest` are accepted.
use opensaml_rs.Prelude.{
  ℕ, suc, ◌+◌, ◌≡◌, ◌≢◌, subst, ap, ◌∙◌, inl, inr, some, Text, arith, Option-cases,
}
use opensaml_rs.Prelude.Int.{ℤ, pos, negsuc, ◌+ℤ◌, ◌-ℤ◌, ◌≤ℤ◌}
use opensaml_rs.Error.{
  SamlError, ok, err, Result-cases, time_window_invalid, authn_request_issue_instant,
}
use opensaml_rs.Time.{TimeCrate, duration_checked_add}
use opensaml_rs.Validation.{
  SamlValidationContext, disabled, bounded, positive_millis, negative_millis_magnitude,
  offset_datetime_from_system_time, offset_checked_add, offset_checked_sub, check_age,
  check_authn_request_issue_instant, now_offset,
}

module _ (T : TimeCrate) where
  -- A conversion of the system clock keeps the instant.
  pub offset_datetime_from_system_time_exact :
      (instant : ℤ) {u : ℤ} → offset_datetime_from_system_time T instant ≡ ok u → u ≡ instant
  unfolding offset_datetime_from_system_time ◌+ℤ◌ ◌-ℤ◌
  offset_datetime_from_system_time_exact (pos n) {u} h =
      elim (Option-cases (T.duration_try_from n)) [
        | inl none_left ↦ ground arith
        | inr (d, e) ↦
            ground
              (arith, T.duration_try_from_exact n e, T.checked_add_exact (pos 0) (pos d) {u = u})
      ]
  offset_datetime_from_system_time_exact (negsuc n) {u} h =
      elim (Option-cases (T.duration_try_from (suc n))) [
        | inl none_left ↦ ground arith
        | inr (d, e) ↦ ground (
          arith,
          T.duration_try_from_exact (suc n) e,
          T.checked_sub_exact (pos 0) (pos d) {u = u},
        )
      ]

  offset_checked_add_exact :
      (t : ℤ) (d : ℕ) {u : ℤ} → offset_checked_add T t d ≡ ok u → u ≡ t +ℤ pos d
  unfolding offset_checked_add
  offset_checked_add_exact t d {u} h = elim (Option-cases (T.duration_try_from d)) [
    | inl none_left ↦ ground arith
    | inr (e, x) ↦
        let same = T.duration_try_from_exact d x in
        rw (← same) (ground (arith, T.checked_add_exact t (pos e) {u = u}))
  ]

  offset_checked_sub_exact :
      (t : ℤ) (d : ℕ) {u : ℤ} → offset_checked_sub T t d ≡ ok u → u ≡ t -ℤ pos d
  unfolding offset_checked_sub
  offset_checked_sub_exact t d {u} h = elim (Option-cases (T.duration_try_from d)) [
    | inl none_left ↦ ground arith
    | inr (e, x) ↦
        let same = T.duration_try_from_exact d x in
        rw (← same) (ground (arith, T.checked_sub_exact t (pos e) {u = u}))
  ]

  module _ {S : Type 0} (context : SamlValidationContext S) (max_age : ℕ) where
    -- How far back and ahead an issue instant may lie: the maximum age widened by the skew.
    abbrev pub past_allowance : ℕ
    past_allowance = max_age + positive_millis context.clock_skew.not_on_or_after_ms

    abbrev pub future_allowance : ℕ
    future_allowance = negative_millis_magnitude context.clock_skew.not_before_ms

    abbrev pub InWindow : ℤ → Type 0
    InWindow issued =
        (context.now -ℤ pos past_allowance ≤ℤ issued)
        × (issued ≤ℤ context.now +ℤ pos future_allowance)

    -- The clock and both edges of the window lie in the range of the clock's types.
    pub record IsRepresentable : Type 0 where
      pub allowance :
          duration_checked_add max_age (positive_millis context.clock_skew.not_on_or_after_ms)
          ≡ some past_allowance
      pub clock : offset_datetime_from_system_time T context.now ≡ ok context.now
      pub earliest :
          offset_checked_sub T context.now past_allowance ≡ ok (context.now -ℤ pos past_allowance)
      pub latest :
          offset_checked_add T context.now future_allowance
          ≡ ok (context.now +ℤ pos future_allowance)

    check_age_steps :
        (issue_instant : Text)
        → check_age T context issue_instant (bounded max_age) ≡ ok tt
        → (issued : ℤ) × (now : ℤ) × (earliest : ℤ) × (latest : ℤ) × (T.parse_rfc3339 issue_instant
            ≡ some issued)
          × (offset_datetime_from_system_time T context.now ≡ ok now)
          × (offset_checked_sub T now past_allowance ≡ ok earliest)
          × (offset_checked_add T now future_allowance ≡ ok latest)
          × (earliest ≤ℤ issued)
          × (issued ≤ℤ latest)
    unfolding check_age now_offset
    check_age_steps issue_instant h =
        elim (Result-cases (offset_datetime_from_system_time T context.now)) [
          | inr (e, bad) ↦ ground arith
          | inl (now, clock) ↦ elim (Result-cases (offset_checked_sub T now past_allowance)) [
            | inr (e, bad) ↦ ground arith
            | inl (earliest, low) ↦
                elim (Result-cases (offset_checked_add T now future_allowance)) [
                  | inr (e, bad) ↦ ground arith
                  | inl (latest, high) ↦ elim (Option-cases (T.parse_rfc3339 issue_instant)) [
                    | inl bad ↦ ground arith
                    | inr (issued, parsed) ↦ (
                      issued,
                      now,
                      earliest,
                      latest,
                      parsed,
                      clock,
                      low,
                      high,
                      ground arith,
                      ground arith,
                    )
                  ]
                ]
          ]
        ]

    -- An issue instant that passes lies in the inclusive window.
    pub check_authn_request_issue_instant_sound :
        (issue_instant : Text)
        → context.authn_request_age ≡ bounded max_age
        → check_authn_request_issue_instant T context issue_instant ≡ ok tt
        → (issued : ℤ) × (T.parse_rfc3339 issue_instant ≡ some issued) × InWindow issued
    unfolding check_authn_request_issue_instant
    check_authn_request_issue_instant_sound issue_instant policy h =
        let (issued, now, earliest, latest, parsed, clock, low, high, after, before) =
          check_age_steps issue_instant (rw policy at h) in
        let same = offset_datetime_from_system_time_exact context.now clock in
        (
          issued,
          parsed,
          (
            subst (λ t. t ≤ℤ issued)
                (offset_checked_sub_exact now past_allowance low
                  ∙ ap (λ t. t -ℤ pos past_allowance) same)
                after,
            subst (λ t. issued ≤ℤ t)
                (offset_checked_add_exact now future_allowance high
                  ∙ ap (λ t. t +ℤ pos future_allowance) same)
                before,
          ),
        )

    -- An issue instant in the window passes, where the window can be represented.
    pub check_authn_request_issue_instant_complete :
        (issue_instant : Text) (issued : ℤ)
        → context.authn_request_age ≡ bounded max_age
        → IsRepresentable
        → T.parse_rfc3339 issue_instant ≡ some issued
        → InWindow issued
        → check_authn_request_issue_instant T context issue_instant ≡ ok tt
    unfolding check_authn_request_issue_instant check_age now_offset
    check_authn_request_issue_instant_complete issue_instant issued policy r parsed window =
        rw policy (ground (arith, r.allowance, r.clock, r.earliest, r.latest))

  -- Without a bound every issue instant passes; a refusal is always the same error.
  pub check_authn_request_issue_instant_refusal :
      {S : Type 0} (context : SamlValidationContext S) (issue_instant : Text) {e : SamlError}
      → check_authn_request_issue_instant T context issue_instant ≡ err e
      → (e ≡ time_window_invalid authn_request_issue_instant)
        × (context.authn_request_age ≢ disabled)
  unfolding check_authn_request_issue_instant check_age now_offset offset_checked_add
      offset_checked_sub
  check_authn_request_issue_instant_refusal context issue_instant h = ground arith
