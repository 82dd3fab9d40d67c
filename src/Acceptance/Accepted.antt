-- ===== src/Acceptance/Accepted.antt =====
-- src/assertion_acceptance.rs: what an accepted response is made of.
use opensaml_rs.Prelude.{
  arith, ◌≡◌, sym, ap, ◌∙◌, subst, Bool, true, false, ◌||◌, ◌&&◌, not, is_empty, Option, List, [],
  ◌∷◌, Text, Bool-cases, inl, inr, ℕ,
}
use opensaml_rs.Prelude.Int.{ℤ}
use opensaml_rs.Error.{ok}
use opensaml_rs.Run.{Run, done, fail, panic, lift, bind_done, require, require_done, lift_done}
use opensaml_rs.Time.{TimeCrate}
use opensaml_rs.Value.{Value}
use opensaml_rs.Flow.{FlowOptions}
use opensaml_rs.Xml.Dom.{Node, start, finish, PlacedEvent, parse_with_limits}
use opensaml_rs.Xml.Extract.{slice, extract_with_limits}
use opensaml_rs.Xml.Extract.Fields.{login_response_fields}
use opensaml_rs.Acceptance.{
  remember_same_issuer, remember_same_principal, direct_assertions, subject_confirmation_xmls,
}
use opensaml_rs.Acceptance.Conditions.{NsEvent, reject_unrecognized_conditions}
use opensaml_rs.Acceptance.Checks.{
  extracted_has_bearer, validate_subject_confirmation, validate_audience, validate_assertion_time,
}
use opensaml_rs.Acceptance.Confirmed.{ConfirmedIn, validate_subject_confirmation-ConfirmedIn}
use opensaml_rs.Acceptance.Accept.{
  Progress, initial_progress, remember, first_error, is_several, judge_other, judge, accept_one,
  accept_each, accept_assertions, accept_response_assertions, keep_error, is_none,
}

module _ (T : TimeCrate) (utc_now : ℤ) (read_events : Text → List PlacedEvent) (opts : FlowOptions)
    (response_xml : Text) (expected_recipient : Option Text) where
  -- The assertion's own source in the response, and what is read from it.
  pub record Reading (assertion : Node) : Type 0 where
    pub assertion_xml : Text
    pub cut : slice response_xml (start assertion) (finish assertion) ≡ done assertion_xml
    pub extracted : Value
    pub read :
        extract_with_limits read_events opts.xml_limits assertion_xml
          (login_response_fields assertion_xml)
        ≡ done extracted

  -- The list of assertions, and whether one of them is a bearer assertion. Every bearer assertion is
  -- confirmed, and meets the audience and the time conditions.
  pub data Accepted : List Node → Bool → Type 0 where
    nothing : Accepted [] false
    bearer :
        {assertion : Node} {assertions : List Node} {seen : Bool} (r : Reading assertion)
        → extracted_has_bearer T utc_now read_events opts r.extracted ≡ done true
        → ConfirmedIn T utc_now read_events opts expected_recipient
            (subject_confirmation_xmls r.extracted)
        → validate_audience T utc_now read_events opts r.assertion_xml ≡ done tt
        → validate_assertion_time T utc_now read_events opts r.extracted ≡ done tt
        → Accepted assertions seen
        → Accepted (assertion ∷ assertions) true
    other :
        {assertion : Node} {assertions : List Node} {seen : Bool} (r : Reading assertion)
        → extracted_has_bearer T utc_now read_events opts r.extracted ≡ done false
        → Accepted assertions seen
        → Accepted (assertion ∷ assertions) seen

  -- The loop from a state gives a state: the flag of the assertions is joined to the first one's.
  abbrev Judged : List Node → Progress → Progress → Type 0
  Judged assertions s final =
      (seen : Bool) × Accepted assertions seen × (final.saw_bearer ≡ (s.saw_bearer || seen))

  remember-saw_bearer :
      (several : Bool) (expected : Option Text) (assertion : Node) (s : Progress) {r : Progress}
      → remember several expected assertion s ≡ done r
      → r.saw_bearer ≡ s.saw_bearer
  unfolding remember
  remember-saw_bearer false expected assertion s h = ground arith
  remember-saw_bearer true expected assertion s h =
      let (issuer, made, rest) =
        bind_done (remember_same_issuer expected assertion s.shared_issuer) h in
      let (principal, also, last) =
        bind_done (remember_same_principal assertion s.shared_principal) rest in
      ground (arith, last)

  keep_error-saw_bearer :
      (s : Progress) (m : Run (Unit {0})) {r : Progress}
      → keep_error s m ≡ done r
      → r.saw_bearer ≡ s.saw_bearer
  keep_error-saw_bearer s (done u) h = ground arith
  keep_error-saw_bearer s (fail e) h = ground arith
  keep_error-saw_bearer s panic h = absurd (cc h)

  judge_other-saw_bearer :
      (extracted : Value) (s : Progress) {r : Progress}
      → judge_other T utc_now read_events opts response_xml expected_recipient extracted s ≡ done r
      → r.saw_bearer ≡ s.saw_bearer
  judge_other-saw_bearer extracted s {r = r} h =
      elim (Bool-cases
        (is_none s.confirmation_error && not (is_empty (subject_confirmation_xmls extracted)))) [
          | inr skip ↦ ground (arith, skip)
          | inl try ↦
              keep_error-saw_bearer s
                (validate_subject_confirmation T utc_now read_events opts extracted
                  expected_recipient)
                {r = r} (ground (arith, try))
        ]

  judge-Judged :
      (assertion : Node) (reading : Reading assertion) (s : Progress) (found : Bool)
      {next : Progress}
      → extracted_has_bearer T utc_now read_events opts reading.extracted ≡ done found
      → judge T utc_now read_events opts response_xml expected_recipient reading.assertion_xml
          reading.extracted s found
        ≡ done next
      → (assertions : List Node) (final : Progress) → Judged assertions next final
      → Judged (assertion ∷ assertions) s final
  judge-Judged assertion reading s true e h assertions final (seen, rest, flag) =
      let (u, confirmed, r1) =
        bind_done
          (validate_subject_confirmation T utc_now read_events opts reading.extracted
            expected_recipient)
          h in
      let (u2, audience, r2) =
        bind_done (validate_audience T utc_now read_events opts reading.assertion_xml) r1 in
      let (u3, time, r3) =
        bind_done (validate_assertion_time T utc_now read_events opts reading.extracted) r2 in
      (
        true,
        bearer reading e
            (validate_subject_confirmation-ConfirmedIn T utc_now read_events opts expected_recipient
              reading.extracted confirmed)
            audience time rest,
        ground (arith, r3, flag),
      )
  judge-Judged assertion reading s false e h assertions final (seen, rest, flag) = (
    seen,
    other reading e rest,
    flag ∙ ap (λ b. b || seen) (judge_other-saw_bearer reading.extracted s h),
  )

  accept_one-Judged :
      (several : Bool) (assertion : Node) (s : Progress) {next : Progress}
      → accept_one T utc_now read_events opts response_xml expected_recipient several assertion s
        ≡ done next
      → (assertions : List Node) (final : Progress) → Judged assertions next final
      → Judged (assertion ∷ assertions) s final
  unfolding accept_one
  accept_one-Judged several assertion s h assertions final rest =
      let (assertion_xml, cut, r1) =
        bind_done (slice response_xml (start assertion) (finish assertion)) h in
      let (remembered, same, r2) = bind_done (remember several opts.from_issuer assertion s) r1 in
      let (extracted, read, r3) =
        bind_done
          (extract_with_limits read_events opts.xml_limits assertion_xml
            (login_response_fields assertion_xml))
          r2 in
      let (found, has, r4) =
        bind_done (extracted_has_bearer T utc_now read_events opts extracted) r3 in
      let (seen, accepted, flag) =
        judge-Judged assertion
          (record { assertion_xml = assertion_xml; cut = cut; extracted = extracted; read = read })
          remembered found has r4 assertions final rest in
      (
        seen,
        accepted,
        flag ∙ ap (λ b. b || seen) (remember-saw_bearer several opts.from_issuer assertion s same),
      )

  accept_each-Judged :
      (several : Bool) (assertions : List Node) (s : Progress) {final : Progress}
      → accept_each T utc_now read_events opts response_xml expected_recipient several assertions s
        ≡ done final
      → Judged assertions s final
  unfolding accept_each
  accept_each-Judged several [] s h = (false, nothing, ground arith)
  accept_each-Judged several (assertion ∷ assertions) s {final = final} h =
      let (next, made, rest) =
        bind_done
          (accept_one T utc_now read_events opts response_xml expected_recipient several assertion
            s)
          h in
      accept_one-Judged several assertion s made assertions final
        (accept_each-Judged several assertions next rest)

  -- A response that is accepted has no condition that is not understood and parses; each of its direct
  -- assertions was read from its own source; at least one is a bearer assertion, and every bearer
  -- assertion has a valid bearer confirmation, and met the audience and the time conditions.
  pub accept_response_assertions-Accepted :
      (read_ns_events : ℕ → Text → List NsEvent)
      → accept_response_assertions T utc_now read_events read_ns_events response_xml opts
          expected_recipient
        ≡ done tt
      → (reject_unrecognized_conditions read_ns_events opts.xml_limits response_xml ≡ ok tt)
        × (root : Node) × (parse_with_limits read_events opts.xml_limits response_xml ≡ ok root)
        × Accepted (direct_assertions root) true
  unfolding accept_response_assertions accept_assertions
  accept_response_assertions-Accepted read_ns_events h =
      let (u, understood, r1) =
        bind_done
          (lift (reject_unrecognized_conditions read_ns_events opts.xml_limits response_xml)) h in
      let (root, parsed, r2) =
        bind_done (lift (parse_with_limits read_events opts.xml_limits response_xml)) r1 in
      let (u2, some_there, r3) =
        bind_done (require (not (is_empty (direct_assertions root))) _) r2 in
      let (final, made, r4) =
        bind_done
          (accept_each T utc_now read_events opts response_xml expected_recipient
            (is_several (direct_assertions root)) (direct_assertions root) initial_progress)
          r3 in
      let (seen, accepted, flag) =
        accept_each-Judged (is_several (direct_assertions root)) (direct_assertions root)
          initial_progress made in
      (
        lift_done _ understood,
        root,
        lift_done _ parsed,
        subst (λ b. Accepted (direct_assertions root) b)
            (sym flag ∙ require_done final.saw_bearer (first_error final.confirmation_error) r4)
            accepted,
      )
