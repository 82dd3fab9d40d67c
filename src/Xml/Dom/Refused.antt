-- ===== src/Xml/Dom/Refused.antt =====
-- src/xml/dom.rs: the content that no accepted document has.
use opensaml_rs.Prelude.{arith, ℕ, ◌≢◌, ◌≡◌, refl, subst, none, List, [], ◌∷◌, ◌++◌, Text, inl, inr}
use opensaml_rs.Error.{SamlError, ok, err, Result-cases}
use opensaml_rs.Xml.Dom.{
  XmlLimits, Node, PlacedEvent, Event, doc_type, stylesheet, malformed, general_ref,
  malformed_reference, entity, document, State, handle, run, initial_state, parse_roots_inner,
  parse_with_limits, on_reference, Reference, resolve_reference, check_input_bytes,
}

-- A document type declaration, a stylesheet instruction, a reference to an entity that is not
-- predefined, and what the reader cannot read.
pub data IsRefused : Event → Type 0 where
  doc_type_refused : IsRefused doc_type
  stylesheet_refused : IsRefused stylesheet
  malformed_refused : {message : Text} → IsRefused (malformed message)
  entity_refused : {name : Text} → IsRefused (general_ref (entity name none))
  reference_refused : {message : Text} → IsRefused (general_ref (malformed_reference message))

module _ (limits : XmlLimits) where
  unresolved :
      (s : State) (stack : List Node) (reference : Reference) {f : SamlError} {r : State}
      → resolve_reference reference ≡ err f
      → on_reference limits document s stack reference ≢ ok r
  unresolved s [] reference e h = absurd (cc h)
  unresolved s (top ∷ stack) reference e h = absurd (ground (arith, e))

  handle-IsRefused :
      (bytes : Text) (s : State) (e : Event) (before after : ℕ) (r : State)
      → IsRefused e
      → handle limits document bytes s e before after ≢ ok r
  unfolding handle
  handle-IsRefused bytes s _ before after r doc_type_refused h = absurd (cc h)
  handle-IsRefused bytes s _ before after r stylesheet_refused h = absurd (cc h)
  handle-IsRefused bytes s _ before after r malformed_refused h = absurd (cc h)
  handle-IsRefused bytes s _ before after r (entity_refused {name = name}) h =
      unresolved s s.stack (entity name none) refl h
  handle-IsRefused bytes s _ before after r (reference_refused {message = message}) h =
      unresolved s s.stack (malformed_reference message) refl h

  run-IsRefused :
      (bytes : Text) (done_events : List PlacedEvent) (e : PlacedEvent) (rest : List PlacedEvent)
      (s r : State)
      → IsRefused e.event
      → run limits document bytes (done_events ++ e ∷ rest) s ≢ ok r
  unfolding run
  run-IsRefused bytes [] e rest s r bad h =
      elim (Result-cases (handle limits document bytes s e.event e.before e.after)) [
        | inl (next, made) ↦ handle-IsRefused bytes s e.event e.before e.after next bad made
        | inr (f, failed) ↦ absurd (ground (arith, failed))
      ]
  run-IsRefused bytes (d ∷ done_events) e rest s r bad h =
      elim (Result-cases (handle limits document bytes s d.event d.before d.after)) [
        | inl (next, made) ↦
            run-IsRefused bytes done_events e rest next r bad (ground (arith, made))
        | inr (f, failed) ↦ absurd (ground (arith, failed))
      ]

  -- A document in which the reader reports, anywhere, a document type declaration, a stylesheet
  -- instruction, a reference to an entity that is not predefined or an error is never accepted.
  pub parse_with_limits-IsRefused :
      (read_events : Text → List PlacedEvent) (source : Text) (before : List PlacedEvent)
      (e : PlacedEvent) (after : List PlacedEvent) (root : Node)
      → read_events source ≡ before ++ e ∷ after
      → IsRefused e.event
      → parse_with_limits read_events limits source ≢ ok root
  unfolding parse_with_limits parse_roots_inner check_input_bytes
  parse_with_limits-IsRefused read_events source before e after root events bad h =
      elim (Result-cases (run limits document source (read_events source) initial_state)) [
        | inr (f, failed) ↦ absurd (ground (arith, failed))
        | inl (final, made) ↦
            run-IsRefused source before e after initial_state final bad
              (subst (λ es. run limits document source es initial_state ≡ ok final) events made)
      ]
