-- ===== src/Acceptance/Shared.antt =====
-- src/assertion_acceptance.rs: the issuer and the principal that several assertions share.
use opensaml_rs.Prelude.{
  arith, ◌≡◌, refl, sym, subst, Bool, true, false, ◌&&◌, not, is_empty, Option, none, some, List,
  [], ◌∷◌, All, Text, text_eq_iff, Bool-cases, inl, inr, ℕ, &&_true,
}
use opensaml_rs.Prelude.Int.{ℤ}
use opensaml_rs.Error.{ok, issuer_mismatch, principal_mismatch}
use opensaml_rs.Run.{Run, done, fail, panic, lift, require, bind_done, require_done, lift_done}
use opensaml_rs.Time.{TimeCrate}
use opensaml_rs.Value.{Value}
use opensaml_rs.Flow.{FlowOptions}
use opensaml_rs.Xml.Dom.{Node, start, finish, PlacedEvent, parse_with_limits}
use opensaml_rs.Xml.Extract.{slice, extract_with_limits}
use opensaml_rs.Xml.Extract.Fields.{login_response_fields}
use opensaml_rs.Acceptance.{
  Principal, same_text, same_principal, issuer_text, principal_of, expect_issuer, text_or_empty,
  remember_same_issuer, remember_same_principal, direct_assertions, subject_confirmation_xmls,
}
use opensaml_rs.Acceptance.Conditions.{NsEvent, reject_unrecognized_conditions}
use opensaml_rs.Acceptance.Checks.{
  extracted_has_bearer, validate_subject_confirmation, validate_audience, validate_assertion_time,
}
use opensaml_rs.Acceptance.Confirmed.{Expected, same_text_sound}
use opensaml_rs.Acceptance.Accept.{
  Progress, initial_progress, remember, is_several, judge, accept_one, accept_each,
  accept_assertions, accept_response_assertions, keep_error, is_none,
}

same_principal_sound : (p q : Principal) → same_principal p q ≡ true → p ≡ q
unfolding same_principal
same_principal_sound p q h =
    let (h3, spq) = &&_true _ (same_text p.sp_name_qualifier q.sp_name_qualifier) h in
    let (h2, nq) = &&_true _ (same_text p.name_qualifier q.name_qualifier) h3 in
    let (n, f) = &&_true _ _ h2 in
    rw
      (
        (text_eq_iff p.name_id q.name_id).0 n,
        (text_eq_iff p.format q.format).0 f,
        same_text_sound _ _ nq,
        same_text_sound _ _ spq,
      )
      refl

expect_issuer-Expected : (e a : Option Text) → expect_issuer e a ≡ done tt → Expected e a
expect_issuer-Expected none a h = tt
expect_issuer-Expected (some e) a h =
    same_text_sound a (some e) (require_done _ (issuer_mismatch e a) h)

-- What is remembered agrees with the assertion that is read.
remember_same_issuer_lem :
    (e : Option Text) (a : Node) (shared : Option (Option Text)) {r : Option (Option Text)}
    → remember_same_issuer e a shared ≡ done r
    → (r ≡ some (issuer_text a))
      × Expected e (issuer_text a)
      × ((j : Option Text) → shared ≡ some j → issuer_text a ≡ j)
unfolding remember_same_issuer
remember_same_issuer_lem e a none h =
    let (u, expected, rest) = bind_done (expect_issuer e (issuer_text a)) h in
    (cc rest, expect_issuer-Expected e (issuer_text a) expected, λ j bad. absurd (cc bad))
remember_same_issuer_lem e a (some previous) h =
    let (u, expected, r1) = bind_done (expect_issuer e (issuer_text a)) h in
    let (u2, same, r2) =
      bind_done
        (require (same_text previous (issuer_text a))
          (issuer_mismatch (text_or_empty previous) (issuer_text a)))
        r1 in
    let agrees : previous ≡ issuer_text a =
      same_text_sound previous (issuer_text a) (require_done _ _ same) in
    (
      cc (r2, agrees),
      expect_issuer-Expected e (issuer_text a) expected,
      λ j this. cc (this, agrees),
    )

remember_same_principal_lem :
    (a : Node) (shared : Option Principal) {r : Option Principal}
    → remember_same_principal a shared ≡ done r
    → (p : Principal) × (principal_of a ≡ ok p)
      × (r ≡ some p)
      × ((q : Principal) → shared ≡ some q → p ≡ q)
unfolding remember_same_principal
remember_same_principal_lem a none h =
    let (p, made, rest) = bind_done (lift (principal_of a)) h in
    (p, lift_done _ made, cc rest, λ q bad. absurd (cc bad))
remember_same_principal_lem a (some previous) h =
    let (p, made, r1) = bind_done (lift (principal_of a)) h in
    let (u, same, r2) = bind_done (require (same_principal previous p) principal_mismatch) r1 in
    let agrees : previous ≡ p = same_principal_sound previous p (require_done _ _ same) in
    (p, lift_done _ made, cc (r2, agrees), λ q this. cc (this, agrees))

-- The issuer and the principal that the loop remembers.
abbrev Remembers : Option Text → Principal → Progress → Type 0
Remembers i p s = (s.shared_issuer ≡ some i) × (s.shared_principal ≡ some p)

-- One assertion has the issuer and the principal, and the issuer is the expected one.
abbrev pub Agrees : Option Text → Option Text → Principal → Node → Type 0
Agrees from_issuer i p a = (issuer_text a ≡ i) × (principal_of a ≡ ok p) × Expected from_issuer i

remember_lem :
    (e : Option Text) (a : Node) (s : Progress) {r : Progress}
    → remember true e a s ≡ done r
    → (p : Principal) × Agrees e (issuer_text a) p a
      × Remembers (issuer_text a) p r
      × ((i : Option Text) (q : Principal) → Remembers i q s → (issuer_text a ≡ i) × (p ≡ q))
unfolding remember
remember_lem e a s h =
    let (issuer, made, r1) = bind_done (remember_same_issuer e a s.shared_issuer) h in
    let (principal, also, r2) = bind_done (remember_same_principal a s.shared_principal) r1 in
    let (is_this, expected, same_issuer) = remember_same_issuer_lem e a s.shared_issuer made in
    let (p, read, is_p, same_p) = remember_same_principal_lem a s.shared_principal also in
    (
      p,
      (refl, read, expected),
      (ground (arith, r2, is_this), ground (arith, r2, is_p)),
      λ i q kept. (same_issuer i kept.0, same_p q kept.1),
    )

keep_error-Remembers :
    (i : Option Text) (p : Principal) (s : Progress) (m : Run (Unit {0})) {r : Progress}
    → keep_error s m ≡ done r
    → Remembers i p s
    → Remembers i p r
keep_error-Remembers i p s (done u) h kept = (ground (arith, kept.0), ground (arith, kept.1))
keep_error-Remembers i p s (fail e) h kept = (ground (arith, kept.0), ground (arith, kept.1))
keep_error-Remembers i p s panic h kept = absurd (cc h)

module _ (T : TimeCrate) (utc_now : ℤ) (read_events : Text → List PlacedEvent) (opts : FlowOptions)
    (response_xml : Text) (expected_recipient : Option Text) where
  judge-Remembers :
      (i : Option Text) (p : Principal) (assertion_xml : Text) (extracted : Value) (s : Progress)
      (found : Bool) {r : Progress}
      → judge T utc_now read_events opts response_xml expected_recipient assertion_xml extracted s
          found
        ≡ done r
      → Remembers i p s
      → Remembers i p r
  judge-Remembers i p assertion_xml extracted s true h kept =
      let (u, c, r1) =
        bind_done
          (validate_subject_confirmation T utc_now read_events opts extracted expected_recipient)
          h in
      let (u2, c2, r2) =
        bind_done (validate_audience T utc_now read_events opts assertion_xml) r1 in
      let (u3, c3, r3) =
        bind_done (validate_assertion_time T utc_now read_events opts extracted) r2 in
      (ground (arith, r3, kept.0), ground (arith, r3, kept.1))
  judge-Remembers i p assertion_xml extracted s false {r = r} h kept =
      elim (Bool-cases
        (is_none s.confirmation_error && not (is_empty (subject_confirmation_xmls extracted)))) [
          | inr skip ↦ (ground (arith, skip, kept.0), ground (arith, skip, kept.1))
          | inl try ↦
              keep_error-Remembers i p s
                (validate_subject_confirmation T utc_now read_events opts extracted
                  expected_recipient)
                {r = r} (ground (arith, try)) kept
        ]

  accept_one_lem :
      (a : Node) (s : Progress) {next : Progress}
      → accept_one T utc_now read_events opts response_xml expected_recipient true a s ≡ done next
      → (p : Principal) × Agrees opts.from_issuer (issuer_text a) p a
        × Remembers (issuer_text a) p next
        × ((i : Option Text) (q : Principal) → Remembers i q s → (issuer_text a ≡ i) × (p ≡ q))
  unfolding accept_one
  accept_one_lem a s h =
      let (assertion_xml, cut, r1) = bind_done (slice response_xml (start a) (finish a)) h in
      let (remembered, same, r2) = bind_done (remember true opts.from_issuer a s) r1 in
      let (extracted, read, r3) =
        bind_done
          (extract_with_limits read_events opts.xml_limits assertion_xml
            (login_response_fields assertion_xml))
          r2 in
      let (found, has, r4) =
        bind_done (extracted_has_bearer T utc_now read_events opts extracted) r3 in
      let (p, agrees, kept, before) = remember_lem opts.from_issuer a s same in
      (
        p,
        agrees,
        judge-Remembers (issuer_text a) p assertion_xml extracted remembered found r4 kept,
        before,
      )

  agree_rest :
      (i : Option Text) (p : Principal) (assertions : List Node) (s : Progress) {final : Progress}
      → Remembers i p s
      → accept_each T utc_now read_events opts response_xml expected_recipient true assertions s
        ≡ done final
      → All (Agrees opts.from_issuer i p) assertions
  unfolding accept_each
  agree_rest i p [] s kept h = tt
  agree_rest i p (a ∷ assertions) s kept h =
      let (next, made, rest) =
        bind_done (accept_one T utc_now read_events opts response_xml expected_recipient true a s)
          h in
      let (q, agrees, now_kept, before) = accept_one_lem a s made in
      let (same_i, same_p) = before i p kept in
      (
        subst (λ j. Agrees opts.from_issuer j p a) same_i
            (subst (λ x. Agrees opts.from_issuer (issuer_text a) x a) same_p agrees),
        agree_rest i p assertions next
            (subst (λ j. Remembers j p next) same_i
              (subst (λ x. Remembers (issuer_text a) x next) same_p now_kept))
            rest,
      )

  agree_several :
      (assertions : List Node) {final : Progress}
      → is_several assertions ≡ true
      → accept_each T utc_now read_events opts response_xml expected_recipient
          (is_several assertions)
          assertions
          initial_progress
        ≡ done final
      → (i : Option Text) × (p : Principal) × All (Agrees opts.from_issuer i p) assertions
  unfolding accept_each
  agree_several [] several h = absurd (cc several)
  agree_several (a ∷ []) several h = absurd (cc several)
  agree_several (a ∷ b ∷ assertions) several h =
      let (next, made, rest) =
        bind_done
          (accept_one T utc_now read_events opts response_xml expected_recipient true a
            initial_progress)
          h in
      let (p, agrees, kept, before) = accept_one_lem a initial_progress made in
      (issuer_text a, p, (agrees, agree_rest (issuer_text a) p (b ∷ assertions) next kept rest))

  -- Where a response with several assertions is accepted, they have one issuer, which is the expected
  -- one where an issuer is expected, and each names the same one principal.
  pub accept_response_assertions-Agrees :
      (read_ns_events : ℕ → Text → List NsEvent) {root : Node}
      → accept_response_assertions T utc_now read_events read_ns_events response_xml opts
          expected_recipient
        ≡ done tt
      → parse_with_limits read_events opts.xml_limits response_xml ≡ ok root
      → is_several (direct_assertions root) ≡ true
      → (i : Option Text) × (p : Principal) × All
          (Agrees opts.from_issuer i p)
          (direct_assertions root)
  unfolding accept_response_assertions accept_assertions
  accept_response_assertions-Agrees read_ns_events {root = root} h parsed several =
      let (u, understood, r1) =
        bind_done
          (lift (reject_unrecognized_conditions read_ns_events opts.xml_limits response_xml)) h in
      let (root2, parsed2, r2) =
        bind_done (lift (parse_with_limits read_events opts.xml_limits response_xml)) r1 in
      let same : root2 ≡ root = ground (arith, parsed, parsed2) in
      let (u2, some_there, r3) =
        bind_done (require (not (is_empty (direct_assertions root2))) _) r2 in
      let (final, made, r4) =
        bind_done
          (accept_each T utc_now read_events opts response_xml expected_recipient
            (is_several (direct_assertions root2)) (direct_assertions root2) initial_progress)
          r3 in
      subst
        (λ n.
          (i : Option Text) × (p : Principal) × All (Agrees opts.from_issuer i p)
            (direct_assertions n))
        same
        (agree_several (direct_assertions root2)
          (subst (λ n. is_several (direct_assertions n) ≡ true) (sym same) several) made)
