-- ===== src/Acceptance/Replays.antt =====
-- src/assertion_acceptance.rs: the replay identity of the assertions, and the first login assertion.
use opensaml_rs.Prelude.{
  arith, ◌≡◌, refl, sym, subst, Bool, true, false, Option, none, some, List, [], ◌∷◌, All, map, any,
  find, Text, ascii, text_eq, Bool-cases, Option-cases, ◌⊎◌, inl, inr, ◌++◌,
}
use opensaml_rs.Prelude.Int.{ℤ, ◌≤ℤ◌, ltb_ℤ}
use opensaml_rs.Error.{Result, ok, err}
use opensaml_rs.Error
use opensaml_rs.Run.{Run, done, fail, panic, lift}
use opensaml_rs.Run
use opensaml_rs.Time.{TimeCrate}
use opensaml_rs.Xml.Dom.{
  XmlLimits, unbounded, Node, local_name, children, attr, start, finish, PlacedEvent,
  parse_with_limits,
}
use opensaml_rs.Xml.Extract.{slice}
use opensaml_rs.Acceptance.{
  bearer_subject_confirmation_method, same_text, children_named, first_of, direct_assertions,
}

-- `children named Subject`, and of those the children named `SubjectConfirmation`, in order.
abbrev pub all_children_named : Text → List Node → List Node
all_children_named name [] = []
all_children_named name (n ∷ ns) = children_named name (children n) ++ all_children_named name ns

unfoldable pub subject_confirmations : Node → List Node
subject_confirmations assertion =
    all_children_named (ascii "SubjectConfirmation")
      (children_named (ascii "Subject") (children assertion))

abbrev pub has_bearer_method : Node → Bool
has_bearer_method confirmation =
    same_text (attr confirmation (ascii "Method")) (some bearer_subject_confirmation_method)

unfoldable pub node_has_bearer : Node → Bool
node_has_bearer assertion = any has_bearer_method (subject_confirmations assertion)

abbrev pub attr_of : Option Node → Text → Option Text
attr_of none name = none
attr_of (some n) name = attr n name

-- `SubjectConfirmationData@NotOnOrAfter` of a bearer confirmation.
unfoldable pub bearer_deadline : Node → Option Text
bearer_deadline confirmation = elim (has_bearer_method confirmation) [
  | false ↦ none
  | true ↦
      attr_of (first_of (children_named (ascii "SubjectConfirmationData") (children confirmation)))
        (ascii "NotOnOrAfter")
]

-- The variables `latest` and `unparsed` of the loop.
pub record Latest : Type 0 where
  pub latest : Option (ℤ × Text)
  pub unparsed : Option Text

abbrev pub later_of : Option (ℤ × Text) → ℤ → Text → Option (ℤ × Text)
later_of none instant value = some (instant, value)
later_of (some (current, kept)) instant value = elim (ltb_ℤ current instant) [
  | true ↦ some (instant, value)
  | false ↦ some (current, kept)
]

module _ (T : TimeCrate) where
  open T use {parse_rfc3339}

  abbrev pub note_parsed : Latest → Text → Option ℤ → Latest
  note_parsed s value none = record s { unparsed = some value }
  note_parsed s value (some instant) = record s { latest = later_of s.latest instant value }

  abbrev pub note_deadline : Latest → Option Text → Latest
  note_deadline s none = s
  note_deadline s (some value) = note_parsed s value (parse_rfc3339 value)

  unfoldable pub latest_from : Latest → List Node → Latest
  latest_from s [] = s
  latest_from s (confirmation ∷ confirmations) =
      latest_from (note_deadline s (bearer_deadline confirmation)) confirmations

  abbrev pub value_of : Latest → Option Text
  value_of s = elim s.latest [ none ↦ s.unparsed | some (instant, value) ↦ some value ]

  unfoldable pub latest_bearer_not_on_or_after : Node → Option Text
  latest_bearer_not_on_or_after assertion =
      value_of
        (latest_from (record { latest = none; unparsed = none }) (subject_confirmations assertion))

  pub record AssertionReplayId : Type 0 where
    pub id : Text
    pub bearer_not_on_or_after : Option Text

  abbrev pub replays_of : List Node → List AssertionReplayId
  replays_of [] = []
  replays_of (assertion ∷ assertions) = elim (attr assertion (ascii "ID")) [
    | none ↦ replays_of assertions
    | some id ↦
        record { id = id; bearer_not_on_or_after = latest_bearer_not_on_or_after assertion }
        ∷ replays_of assertions
  ]

  unfoldable pub assertion_nodes : Node → List Node
  assertion_nodes root = elim (text_eq (local_name root) (ascii "Assertion")) [
    | true ↦ root ∷ []
    | false ↦ direct_assertions root
  ]

  unfoldable pub assertion_replays :
      (Text → List PlacedEvent) → Text → Result (List AssertionReplayId)
  assertion_replays read_events xml =
      Error.◌>>=◌ (parse_with_limits read_events unbounded xml)
        (λ root. ok (replays_of (assertion_nodes root)))

  unfoldable pub assertion_ids : (Text → List PlacedEvent) → Text → Result (List Text)
  assertion_ids read_events xml =
      Error.◌>>=◌ (assertion_replays read_events xml) (λ replays. ok (map (λ r. r.id) replays))

-- The first bearer assertion, or else the first one.
unfoldable pub chosen_assertion : List Node → Option Node
chosen_assertion assertions = elim (find node_has_bearer assertions) [
  | some assertion ↦ some assertion
  | none ↦ first_of assertions
]

unfoldable pub first_login_assertion_xml :
    (Text → List PlacedEvent) → Text → XmlLimits → Run (Option Text)
first_login_assertion_xml read_events xml limits =
    Run.◌>>=◌ (lift (parse_with_limits read_events limits xml)) (λ root.
      elim (chosen_assertion (direct_assertions root)) [
        | none ↦ done none
        | some chosen ↦ Run.◌>>=◌ (slice xml (start chosen) (finish chosen)) (λ s. done (some s))
      ])

module _ (T : TimeCrate) where
  open T use {parse_rfc3339}

  -- An instant that is not before the deadline of a confirmation, where that has one.
  abbrev pub Covers : ℤ → Node → Type 0
  Covers m confirmation =
      (value : Text) (t : ℤ)
      → bearer_deadline confirmation ≡ some value
      → parse_rfc3339 value ≡ some t
      → t ≤ℤ m

  -- The instant is kept, or a later one is.
  abbrev NotBefore : Option (ℤ × Text) → ℤ → Type 0
  NotBefore none m = Unit
  NotBefore (some (t, value)) m = t ≤ℤ m

  later_of_lem :
      (kept : Option (ℤ × Text)) (t : ℤ) (value : Text) (m : ℤ)
      → NotBefore (later_of kept t value) m
      → NotBefore kept m × (t ≤ℤ m)
  later_of_lem none t value m h = (tt, h)
  later_of_lem (some (current, kept)) t value m h = elim (Bool-cases (ltb_ℤ current t)) [
    | inl newer ↦ (ground (arith, newer), ground (arith, newer))
    | inr older ↦ (ground (arith, older), ground (arith, older))
  ]

  -- What the loop keeps: an instant with its text, and a text that is none.
  abbrev Kept : Latest → Type 0
  Kept s =
      ((t : ℤ) (value : Text) → s.latest ≡ some (t, value) → parse_rfc3339 value ≡ some t)
      × ((value : Text) → s.unparsed ≡ some value → parse_rfc3339 value ≡ none)

  later_of-cases :
      (kept : Option (ℤ × Text)) (u : ℤ) (value : Text) (t : ℤ) (v : Text)
      → later_of kept u value ≡ some (t, v)
      → ((u ≡ t) × (value ≡ v)) ⊎ (kept ≡ some (t, v))
  later_of-cases none u value t v h = inl (cc h, cc h)
  later_of-cases (some (current, held)) u value t v h = elim (Bool-cases (ltb_ℤ current u)) [
    | inl newer ↦ inl (ground (arith, newer, h), ground (arith, newer, h))
    | inr older ↦ inr (ground (arith, older, h))
  ]

  note_parsed-Kept :
      (s : Latest) (value : Text) (o : Option ℤ)
      → parse_rfc3339 value ≡ o
      → Kept s
      → Kept (note_parsed T s value o)
  note_parsed-Kept s value none bad (parsed, unparsed) = (parsed, λ v e. cc (bad, e))
  note_parsed-Kept s value (some u) good (parsed, unparsed) = (
    λ t v e. elim (later_of-cases s.latest u value t v e) [
      | inl (same, text) ↦ cc (good, same, text)
      | inr held ↦ parsed t v held
    ],
    unparsed,
  )

  note_deadline-Kept : (s : Latest) (o : Option Text) → Kept s → Kept (note_deadline T s o)
  note_deadline-Kept s none kept = kept
  note_deadline-Kept s (some value) kept = note_parsed-Kept s value (parse_rfc3339 value) refl kept

  latest_from-Kept :
      (s : Latest) (confirmations : List Node) → Kept s → Kept (latest_from T s confirmations)
  unfolding latest_from
  latest_from-Kept s [] kept = kept
  latest_from-Kept s (c ∷ confirmations) kept =
      latest_from-Kept (note_deadline T s (bearer_deadline c)) confirmations
        (note_deadline-Kept s (bearer_deadline c) kept)

  note_deadline-NotBefore :
      (s : Latest) (o : Option Text) (m : ℤ)
      → NotBefore (note_deadline T s o).latest m
      → NotBefore s.latest m
        × ((value : Text) (t : ℤ) → o ≡ some value → parse_rfc3339 value ≡ some t → t ≤ℤ m)
  note_deadline-NotBefore s none m h = (h, λ value t e. absurd (cc e))
  note_deadline-NotBefore s (some value) m h = elim (Option-cases (parse_rfc3339 value)) [
    | inl bad ↦ (
      subst (λ o. NotBefore (note_parsed T s value o).latest m) bad h,
      λ v t e p. absurd (cc (bad, e, p)),
    )
    | inr (u, good) ↦
        let (kept, late) =
          later_of_lem s.latest u value m
            (subst (λ o. NotBefore (note_parsed T s value o).latest m) good h) in
        (kept, λ v t e p. subst (λ x. x ≤ℤ m) (cc (good, e, p)) late)
  ]

  latest_from-Covers :
      (s : Latest) (confirmations : List Node) (m : ℤ)
      → NotBefore (latest_from T s confirmations).latest m
      → NotBefore s.latest m × All (Covers m) confirmations
  unfolding latest_from
  latest_from-Covers s [] m h = (h, tt)
  latest_from-Covers s (c ∷ confirmations) m h =
      let (kept, rest) =
        latest_from-Covers (note_deadline T s (bearer_deadline c)) confirmations m h in
      let (before, late) = note_deadline-NotBefore s (bearer_deadline c) m kept in
      (before, (late, rest))

  value_of_lem :
      (s : Latest) (value : Text) (m : ℤ)
      → Kept s
      → value_of T s ≡ some value
      → parse_rfc3339 value ≡ some m
      → NotBefore s.latest m
  value_of_lem s value m (parsed, unparsed) h p = elim (Option-cases s.latest) [
    | inl without ↦ absurd (cc (unparsed value (ground (arith, without, h)), p))
    | inr ((t, v), held) ↦
        let text : v ≡ value = ground (arith, held, h) in
        let same : t ≡ m = cc (parsed t v held, text, p) in
        let reflexive : t ≤ℤ t = ground arith in
        subst (λ o. NotBefore o m) (sym held) (subst (λ x. t ≤ℤ x) same reflexive)
  ]

  -- The deadline that is kept for the replay of an assertion, where it is an instant, is not before
  -- that of any bearer confirmation of the assertion.
  pub latest_bearer_not_on_or_after-Covers :
      (assertion : Node) (value : Text) (m : ℤ)
      → latest_bearer_not_on_or_after T assertion ≡ some value
      → parse_rfc3339 value ≡ some m
      → All (Covers m) (subject_confirmations assertion)
  unfolding latest_bearer_not_on_or_after
  latest_bearer_not_on_or_after-Covers assertion value m h p =
      let empty_state : Latest = record { latest = none; unparsed = none } in
      let kept =
        latest_from-Kept empty_state (subject_confirmations assertion)
          (λ t v e. absurd (cc e), λ v e. absurd (cc e)) in
      (latest_from-Covers empty_state (subject_confirmations assertion) m (
        value_of_lem (latest_from T empty_state (subject_confirmations assertion)) value m kept h
          p)).1
