-- ===== src/Acceptance/Met.antt =====
-- src/assertion_acceptance.rs: what the audience check and the time check establish.
use opensaml_rs.Prelude.{
  arith, ◌≡◌, ◌≢◌, refl, subst, true, false, Option, none, some, List, Text, ascii, Bool-cases, ◌⊎◌,
  inl, inr,
}
use opensaml_rs.Prelude.Int.{ℤ}
use opensaml_rs.Run.{done, bind_done}
use opensaml_rs.Time.{TimeCrate}
use opensaml_rs.Value.{Value, null, str, array, object, Values, nil, cons, get}
use opensaml_rs.Flow.{FlowOptions}
use opensaml_rs.Xml.Dom.{PlacedEvent}
use opensaml_rs.Acceptance.Checks.{
  AudienceCheck, satisfied, nowhere, rejected, extracted_from, audience_fields, restriction_fields,
  names_audience, audience_restriction_contains, each_contains, check_restrictions,
  audience_restrictions_contain, on_audience, audience_for, validate_audience,
}

module _ (T : TimeCrate) (utc_now : ℤ) (read_events : Text → List PlacedEvent)
    (opts : FlowOptions) where
  -- One restriction, in its own source, names the audience.
  abbrev pub NamesAudience : Text → Text → Type 0
  NamesAudience expected restriction =
      (v : Value) × (extracted_from T utc_now read_events opts restriction audience_fields ≡ done v)
      × (names_audience expected (get v (ascii "audience")) ≡ true)

  -- Every restriction that an assertion has names the audience.
  abbrev pub EachNames : Text → Values → Type 0
  EachNames expected nil = Unit
  EachNames expected (cons (str restriction) vs) =
      NamesAudience expected restriction × EachNames expected vs
  EachNames expected (cons v vs) = ⊥

  abbrev pub RestrictedTo : Text → Option Value → Type 0
  RestrictedTo expected (some (str restriction)) = NamesAudience expected restriction
  RestrictedTo expected (some (array (cons v vs))) = EachNames expected (cons v vs)
  RestrictedTo expected _ = opts.require_audience_restriction ≡ false

  audience_restriction_contains-NamesAudience :
      (restriction expected : Text)
      → audience_restriction_contains T utc_now read_events opts restriction expected ≡ done true
      → NamesAudience expected restriction
  unfolding audience_restriction_contains
  audience_restriction_contains-NamesAudience restriction expected h =
      let (v, read, rest) =
        bind_done (extracted_from T utc_now read_events opts restriction audience_fields) h in
      (v, read, cc rest)

  each_contains-EachNames :
      (expected : Text) (vs : Values)
      → each_contains T utc_now read_events opts expected vs ≡ done satisfied
      → EachNames expected vs
  unfolding each_contains
  each_contains-EachNames expected nil h = tt
  each_contains-EachNames expected (cons (str restriction) vs) h =
      let (found, made, rest) =
        bind_done (audience_restriction_contains T utc_now read_events opts restriction expected)
          h in
      elim (Bool-cases found) [
        | inr missing ↦ absurd (ground (arith, missing, rest))
        | inl hit ↦ (
          audience_restriction_contains-NamesAudience restriction expected
              (ground (arith, hit, made)),
          each_contains-EachNames expected vs (ground (arith, hit, rest)),
        )
      ]
  each_contains-EachNames expected (cons null vs) h = absurd (cc h)
  each_contains-EachNames expected (cons (array items) vs) h = absurd (cc h)
  each_contains-EachNames expected (cons (object es) vs) h = absurd (cc h)

  on_audience-cases :
      (expected : Text) (check : AudienceCheck)
      → on_audience T utc_now read_events opts expected check ≡ done tt
      → (check ≡ satisfied) ⊎ ((check ≡ nowhere) × (opts.require_audience_restriction ≡ false))
  on_audience-cases expected satisfied h = inl refl
  on_audience-cases expected nowhere h = inr (refl, ground arith)
  on_audience-cases expected rejected h = absurd (cc h)

  one_names :
      (expected restriction : Text)
      → check_restrictions T utc_now read_events opts expected (some (str restriction))
        ≡ done satisfied
      → NamesAudience expected restriction
  one_names expected restriction h =
      let (found, made, rest) =
        bind_done (audience_restriction_contains T utc_now read_events opts restriction expected)
          h in
      elim (Bool-cases found) [
        | inr missing ↦ absurd (ground (arith, missing, rest))
        | inl hit ↦
            audience_restriction_contains-NamesAudience restriction expected
              (ground (arith, hit, made))
      ]

  never_nowhere :
      (expected : Text) (vs : Values)
      → each_contains T utc_now read_events opts expected vs ≢ done nowhere
  unfolding each_contains
  never_nowhere expected nil h = absurd (cc h)
  never_nowhere expected (cons (str restriction) vs) h =
      let (found, made, rest) =
        bind_done (audience_restriction_contains T utc_now read_events opts restriction expected)
          h in
      elim (Bool-cases found) [
        | inr missing ↦ absurd (ground (arith, missing, rest))
        | inl hit ↦ never_nowhere expected vs (ground (arith, hit, rest))
      ]
  never_nowhere expected (cons null vs) h = absurd (cc h)
  never_nowhere expected (cons (array items) vs) h = absurd (cc h)
  never_nowhere expected (cons (object es) vs) h = absurd (cc h)

  -- Where no restriction is found, none is required.
  not_required :
      (expected : Text) (check : AudienceCheck)
      → done nowhere ≡ done check
      → on_audience T utc_now read_events opts expected check ≡ done tt
      → opts.require_audience_restriction ≡ false
  not_required expected nowhere e h = ground arith
  not_required expected satisfied e h = absurd (cc e)
  not_required expected rejected e h = absurd (cc h)

  restricted :
      (expected : Text) (found : Option Value) (check : AudienceCheck)
      → check_restrictions T utc_now read_events opts expected found ≡ done check
      → on_audience T utc_now read_events opts expected check ≡ done tt
      → RestrictedTo expected found
  restricted expected none check e h = not_required expected check e h
  restricted expected (some null) check e h = not_required expected check e h
  restricted expected (some (object es)) check e h = not_required expected check e h
  restricted expected (some (array nil)) check e h = not_required expected check e h
  restricted expected (some (str restriction)) check e h =
      elim (on_audience-cases expected check h) [
        | inl is ↦ one_names expected restriction (ground (arith, is, e))
        | inr (is, optional) ↦
            let (found, made, rest) =
              bind_done
                (audience_restriction_contains T utc_now read_events opts restriction expected) e in
            elim (Bool-cases found) [
              | inl hit ↦ absurd (ground (arith, hit, rest, is))
              | inr missing ↦ absurd (ground (arith, missing, rest, is))
            ]
      ]
  restricted expected (some (array (cons v vs))) check e h =
      elim (on_audience-cases expected check h) [
        | inl is ↦ each_contains-EachNames expected (cons v vs) (ground (arith, is, e))
        | inr (is, optional) ↦ absurd (never_nowhere expected (cons v vs) (ground (arith, is, e)))
      ]

  -- Where an audience is expected and the check passes, every `AudienceRestriction` of the assertion
  -- names it; there may be none only where none is required.
  pub validate_audience-RestrictedTo :
      (assertion_xml expected : Text)
      → opts.expected_audience ≡ some expected
      → validate_audience T utc_now read_events opts assertion_xml ≡ done tt
      → (v : Value) × (extracted_from T utc_now read_events opts assertion_xml restriction_fields
          ≡ done v)
        × RestrictedTo expected (get v (ascii "audienceRestriction"))
  unfolding validate_audience audience_restrictions_contain
  validate_audience-RestrictedTo assertion_xml expected e h =
      let (check, made, rest) =
        bind_done (audience_restrictions_contain T utc_now read_events opts assertion_xml expected)
          (subst (λ a. audience_for T utc_now read_events opts assertion_xml a ≡ done tt) e h) in
      let (v, read, last) =
        bind_done (extracted_from T utc_now read_events opts assertion_xml restriction_fields)
          made in
      (v, read, restricted expected (get v (ascii "audienceRestriction")) check last rest)
