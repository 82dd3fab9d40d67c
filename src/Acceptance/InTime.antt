-- ===== src/Acceptance/InTime.antt =====
-- src/assertion_acceptance.rs: what the time check of an assertion establishes.
use opensaml_rs.Prelude.{
  arith, ◌≡◌, ◌≢◌, subst, Bool, true, Option, none, some, List, [], ◌∷◌, All, Text, Bool-cases,
  Option-cases, inl, inr,
}
use opensaml_rs.Prelude.Int.{ℤ, ◌+ℤ◌, ◌<ℤ◌, ◌≤ℤ◌, ltb_ℤ, int_laws}
use opensaml_rs.Error.{
  ok, ok_or, time_window_invalid, session_not_on_or_after, conditions, TimeWindowField,
}
use opensaml_rs.Run.{done, lift, unwrap, bind_done, require_done, lift_done}
use opensaml_rs.Time.{TimeCrate, milliseconds}
use opensaml_rs.Value.{Value}
use opensaml_rs.Validator.{verify_time_at, conditions_time_bounds}
use opensaml_rs.Validator.Window.{LowerHolds, UpperHolds, verify_time_at_sound}
use opensaml_rs.Flow.{FlowOptions, validation_now}
use opensaml_rs.Xml.Dom.{PlacedEvent}
use opensaml_rs.Acceptance.Checks.{
  authn_statement_not_on_or_after_values, earlier, earliest_from, earliest_authn_session_expiration,
  session_open, validate_assertion_time,
}

unwrap_lem : (o : Option Bool) (b : Bool) → b ≡ true → unwrap o ≡ done b → o ≡ some true
unwrap_lem none b e h = absurd (cc h)
unwrap_lem (some c) b e h = cc (e, h)

module _ (T : TimeCrate) where
  open T use {parse_rfc3339, checked_add, checked_add_exact}

  -- The instant is no later than any of the values, each of which is an instant.
  abbrev pub NoLater : ℤ → Text → Type 0
  NoLater m value = (t : ℤ) × (parse_rfc3339 value ≡ some t) × (m ≤ℤ t)

  abbrev pub AtMost : ℤ → Option ℤ → Type 0
  AtMost m none = Unit
  AtMost m (some t) = m ≤ℤ t

  AtMost-earlier :
      (current : Option ℤ) (candidate m : ℤ)
      → m ≤ℤ earlier current candidate
      → AtMost m current × (m ≤ℤ candidate)
  AtMost-earlier none candidate m h = (tt, h)
  AtMost-earlier (some current) candidate m h = elim (Bool-cases (ltb_ℤ candidate current)) [
    | inl before ↦ (ground (arith, before), ground (arith, before))
    | inr after ↦ (ground (arith, after), ground (arith, after))
  ]

  pub earliest_from-NoLater :
      (error_field : TimeWindowField) (current : Option ℤ) (values : List Text) {m : ℤ}
      → earliest_from T error_field current values ≡ ok (some m)
      → AtMost m current × All (NoLater m) values
  unfolding earliest_from
  earliest_from-NoLater error_field none [] h = absurd (cc h)
  earliest_from-NoLater error_field (some t) [] h = (ground (arith, h), tt)
  earliest_from-NoLater error_field current (value ∷ values) {m = m} h =
      elim (Option-cases (parse_rfc3339 value)) [
        | inl bad ↦ absurd (ground (arith, bad))
        | inr (t, e) ↦
            let (below, rest) =
              earliest_from-NoLater error_field (some (earlier current t)) values {m = m}
                (ground (arith, e)) in
            let (a, b) = AtMost-earlier current t m below in (a, ((t, e, b), rest))
      ]

  earliest_from_never :
      (error_field : TimeWindowField) (t : ℤ) (values : List Text)
      → earliest_from T error_field (some t) values ≢ ok none
  unfolding earliest_from
  earliest_from_never error_field t [] h = absurd (cc h)
  earliest_from_never error_field t (value ∷ values) h = elim (Option-cases (parse_rfc3339 value)) [
    | inl bad ↦ absurd (ground (arith, bad))
    | inr (u, e) ↦ earliest_from_never error_field (earlier (some t) u) values (ground (arith, e))
  ]

  -- No earliest instant: there were no values.
  earliest_none :
      (error_field : TimeWindowField) (P : Text → Type 0) (values : List Text)
      → earliest_authn_session_expiration T values error_field ≡ ok none
      → All P values
  unfolding earliest_authn_session_expiration earliest_from
  earliest_none error_field P [] h = tt
  earliest_none error_field P (value ∷ values) h = elim (Option-cases (parse_rfc3339 value)) [
    | inl bad ↦ absurd (ground (arith, bad))
    | inr (t, e) ↦ absurd (earliest_from_never error_field t values (ground (arith, e)))
  ]

  -- The session bound is an instant, and the validation is before it, moved by the skew.
  abbrev pub Open : ℤ → ℤ → Text → Type 0
  Open now skew value = (t : ℤ) × (parse_rfc3339 value ≡ some t) × (now <ℤ t +ℤ milliseconds skew)

  all-Open :
      (now skew m : ℤ) (values : List Text)
      → now <ℤ m +ℤ milliseconds skew
      → All (NoLater m) values
      → All (Open now skew) values
  all-Open now skew m [] before h = tt
  all-Open now skew m (value ∷ values) before ((t, e, late), h) =
      ((t, e, grind (int_laws, before, late)), all-Open now skew m values before h)

  module _ (utc_now : ℤ) (read_events : Text → List PlacedEvent) (opts : FlowOptions) where
    sessions-Open :
        (now : ℤ) (values : List Text) (earliest : Option ℤ)
        → earliest_authn_session_expiration T values session_not_on_or_after ≡ ok earliest
        → session_open T utc_now read_events opts now earliest ≡ done tt
        → All (Open now opts.clock_drifts.1) values
    unfolding earliest_authn_session_expiration
    sessions-Open now values none e h =
        earliest_none session_not_on_or_after (Open now opts.clock_drifts.1) values e
    sessions-Open now values (some m) e h =
        let (bound, made, rest) =
          bind_done
            (lift (
              ok_or (checked_add m (milliseconds opts.clock_drifts.1))
                (time_window_invalid session_not_on_or_after)))
            h in
        let before : now <ℤ bound = ground (arith, require_done (ltb_ℤ now bound) _ rest) in
        let exact : bound ≡ m +ℤ milliseconds opts.clock_drifts.1 =
          checked_add_exact m (milliseconds opts.clock_drifts.1) (ground (arith, made)) in
        all-Open now opts.clock_drifts.1 m values (subst (λ b. now <ℤ b) exact before)
          (earliest_from-NoLater session_not_on_or_after none values e).1

    -- Where the time check passes, the validation is before the end of every session of the
    -- authentication statements, and within the assertion's conditions.
    pub validate_assertion_time-Open :
        (extracted : Value)
        → validate_assertion_time T utc_now read_events opts extracted ≡ done tt
        → (now : ℤ) × (validation_now T utc_now opts.now ≡ ok now)
          × (values : List Text) × (authn_statement_not_on_or_after_values extracted ≡ ok values)
          × All (Open now opts.clock_drifts.1) values
          × (bounds : Option Text × Option Text) × (conditions_time_bounds extracted ≡ ok bounds)
          × LowerHolds T bounds.0 opts.clock_drifts.0 now
          × UpperHolds T bounds.1 opts.clock_drifts.1 now
    unfolding validate_assertion_time
    validate_assertion_time-Open extracted h =
        let (now, clock, r1) = bind_done (lift (validation_now T utc_now opts.now)) h in
        let (values, read, r2) =
          bind_done (lift (authn_statement_not_on_or_after_values extracted)) r1 in
        let (earliest, found, r3) =
          bind_done (lift (earliest_authn_session_expiration T values session_not_on_or_after))
            r2 in
        let (u, still_open, r4) =
          bind_done (session_open T utc_now read_events opts now earliest) r3 in
        let (bounds, given, r5) = bind_done (lift (conditions_time_bounds extracted)) r4 in
        let (in_time, checked, r6) =
          bind_done (unwrap (verify_time_at T bounds.0 bounds.1 opts.clock_drifts now)) r5 in
        let holds = require_done in_time (time_window_invalid conditions) r6 in
        let (lower, upper) = verify_time_at_sound T bounds.0 bounds.1 opts.clock_drifts now (
          unwrap_lem (verify_time_at T bounds.0 bounds.1 opts.clock_drifts now) in_time holds
            checked) in
        (
          now,
          lift_done _ clock,
          values,
          lift_done _ read,
          sessions-Open now values earliest (lift_done _ found) still_open,
          bounds,
          lift_done _ given,
          lower,
          upper,
        )
