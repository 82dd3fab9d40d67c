-- ===== src/Validator/Window.antt =====
-- src/validator.rs: `verify_time_at` against the window that it stands for.
use opensaml_rs.Prelude.{
  ◌≡◌, ◌↔◌, refl, subst, true, Option, none, some, Text, arith, Option-cases, inl, inr,
}
use opensaml_rs.Prelude.Int.{ℤ, ◌+ℤ◌, ◌≤ℤ◌, ◌<ℤ◌, int_laws}
use opensaml_rs.Time.{TimeCrate, milliseconds}
use opensaml_rs.Validator.{verify_time_at, starts_by, ends_after}

module _ (T : TimeCrate) where
  open T use {parse_rfc3339, checked_add, checked_add_exact}

  -- A bound that is absent holds; one that is present has to be an instant, and to hold.
  abbrev pub LowerHolds : Option Text → ℤ → ℤ → Type 0
  LowerHolds none drift_ms now = Unit
  LowerHolds (some v) drift_ms now =
      (t : ℤ) × (parse_rfc3339 v ≡ some t) × (t +ℤ milliseconds drift_ms ≤ℤ now)

  abbrev pub UpperHolds : Option Text → ℤ → ℤ → Type 0
  UpperHolds none drift_ms now = Unit
  UpperHolds (some v) drift_ms now =
      (t : ℤ) × (parse_rfc3339 v ≡ some t) × (now <ℤ t +ℤ milliseconds drift_ms)

  -- The bound, moved by the skew, can be represented.
  abbrev pub Fits : Option Text → ℤ → Type 0
  Fits none drift_ms = Unit
  Fits (some v) drift_ms =
      (t : ℤ)
      → parse_rfc3339 v ≡ some t
      → checked_add t (milliseconds drift_ms) ≡ some (t +ℤ milliseconds drift_ms)

  starts_by_sound :
      (t drift now : ℤ) → starts_by T t drift now ≡ some true → t +ℤ milliseconds drift ≤ℤ now
  starts_by_sound t drift now h = elim (Option-cases (checked_add t (milliseconds drift))) [
    | inl bad ↦ ground arith
    | inr (u, e) ↦
        let exact = checked_add_exact t (milliseconds drift) e in
        subst (λ b. b ≤ℤ now) exact (ground arith)
  ]

  ends_after_sound :
      (t drift now : ℤ) → ends_after T t drift now ≡ some true → now <ℤ t +ℤ milliseconds drift
  ends_after_sound t drift now h = elim (Option-cases (checked_add t (milliseconds drift))) [
    | inl bad ↦ ground arith
    | inr (u, e) ↦
        let exact = checked_add_exact t (milliseconds drift) e in
        subst (λ b. now <ℤ b) exact (ground arith)
  ]

  lower_sound :
      (nb : Text) (drift : ℤ × ℤ) (now : ℤ)
      → verify_time_at T (some nb) none drift now ≡ some true
      → LowerHolds (some nb) drift.0 now
  unfolding verify_time_at
  lower_sound nb drift now h = elim (Option-cases (parse_rfc3339 nb)) [
    | inl bad ↦ ground arith
    | inr (t, e) ↦ (t, e, starts_by_sound t drift.0 now (ground arith))
  ]

  upper_sound :
      (na : Text) (drift : ℤ × ℤ) (now : ℤ)
      → verify_time_at T none (some na) drift now ≡ some true
      → UpperHolds (some na) drift.1 now
  unfolding verify_time_at
  upper_sound na drift now h = elim (Option-cases (parse_rfc3339 na)) [
    | inl bad ↦ ground arith
    | inr (t, e) ↦ (t, e, ends_after_sound t drift.1 now (ground arith))
  ]

  both_sound :
      (nb na : Text) (drift : ℤ × ℤ) (now : ℤ)
      → verify_time_at T (some nb) (some na) drift now ≡ some true
      → LowerHolds (some nb) drift.0 now × UpperHolds (some na) drift.1 now
  unfolding verify_time_at
  both_sound nb na drift now h = elim (Option-cases (parse_rfc3339 nb)) [
    | inl bad ↦ ground arith
    | inr (b, eb) ↦ elim (Option-cases (parse_rfc3339 na)) [
      | inl bad ↦ ground arith
      | inr (a, ea) ↦ (
        (b, eb, starts_by_sound b drift.0 now (ground arith)),
        (a, ea, ends_after_sound a drift.1 now (ground arith)),
      )
    ]
  ]

  -- What passes lies in the window: every bound that is present is an instant and holds, moved by
  -- its skew; a bound that is no instant never passes.
  pub verify_time_at_sound :
      (nb na : Option Text) (drift : ℤ × ℤ) (now : ℤ)
      → verify_time_at T nb na drift now ≡ some true
      → LowerHolds nb drift.0 now × UpperHolds na drift.1 now
  verify_time_at_sound none none drift now h = (tt, tt)
  verify_time_at_sound (some nb) none drift now h = (lower_sound nb drift now h, tt)
  verify_time_at_sound none (some na) drift now h = (tt, upper_sound na drift now h)
  verify_time_at_sound (some nb) (some na) drift now h = both_sound nb na drift now h

  -- What lies in the window passes, where the moved bounds can be represented.
  pub verify_time_at_complete :
      (nb na : Option Text) (drift : ℤ × ℤ) (now : ℤ)
      → Fits nb drift.0
      → Fits na drift.1
      → LowerHolds nb drift.0 now
      → UpperHolds na drift.1 now
      → verify_time_at T nb na drift now ≡ some true
  unfolding verify_time_at
  verify_time_at_complete none none drift now fb fa lower upper = refl
  verify_time_at_complete (some nb) none drift now fb fa (b, eb, hb) upper = ground (arith, fb b eb)
  verify_time_at_complete none (some na) drift now fb fa lower (a, ea, ha) = ground (arith, fa a ea)
  verify_time_at_complete (some nb) (some na) drift now fb fa (b, eb, hb) (a, ea, ha) =
      ground (arith, fb b eb, fa a ea)

  -- Skew widens the window: what passes still passes when the start moves back and the end ahead.
  pub verify_time_at_widens :
      (nb na : Option Text) (drift wider : ℤ × ℤ) (now : ℤ)
      → milliseconds wider.0 ≤ℤ milliseconds drift.0
      → milliseconds drift.1 ≤ℤ milliseconds wider.1
      → Fits nb wider.0
      → Fits na wider.1
      → verify_time_at T nb na drift now ≡ some true
      → verify_time_at T nb na wider now ≡ some true
  verify_time_at_widens nb na drift wider now back ahead fb fa h =
      let (lower, upper) = verify_time_at_sound nb na drift now h in
      verify_time_at_complete nb na wider now fb fa (lower_widens nb lower) (upper_widens na upper)
    where
      lower_widens : (v : Option Text) → LowerHolds v drift.0 now → LowerHolds v wider.0 now
      lower_widens none l = tt
      lower_widens (some v) (t, e, l) = (t, e, omega int_laws)

      upper_widens : (v : Option Text) → UpperHolds v drift.1 now → UpperHolds v wider.1 now
      upper_widens none u = tt
      upper_widens (some v) (t, e, u) = (t, e, omega int_laws)

  -- An end of the window that is an instant makes the check panic exactly when the instant, moved
  -- by the skew, leaves the supported range.
  pub verify_time_at_panics_iff :
      (na : Text) (drift : ℤ × ℤ) (now : ℤ)
      → (verify_time_at T none (some na) drift now ≡ none)
        ↔ ((t : ℤ) × (parse_rfc3339 na ≡ some t) × (checked_add t (milliseconds drift.1) ≡ none))
  unfolding verify_time_at
  verify_time_at_panics_iff na drift now = elim (Option-cases (parse_rfc3339 na)) [
    | inl bad ↦ (λ h. ground arith, λ (t, e, f). ground arith)
    | inr (t, e) ↦ (λ h. (t, e, ground arith), λ (u, f, g). ground arith)
  ]
