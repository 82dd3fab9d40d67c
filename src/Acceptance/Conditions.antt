-- ===== src/Acceptance/Conditions.antt =====
-- src/assertion_acceptance.rs: the children of `<Conditions>` that are not understood. The events with
-- resolved namespaces are those of quick-xml's `NsReader`, an argument here; the list ends at `Eof`.
use opensaml_rs.Prelude.{
  arith, ◌≡◌, refl, subst, ℕ, Bool, true, false, ◌&&◌, ◌||◌, not, Option, none, some, List, [], ◌∷◌,
  ◌++◌, Text, ascii, text_eq, length, inl, inr,
}
use opensaml_rs.Error.{xml, unrecognized_condition, Result, ok, err, ◌>>=◌, ◌>>◌, Result-cases}
use opensaml_rs.Xml.Dom.{XmlLimits, check_input_bytes}

pub data ElementNamespace : Type 0 where
  protocol assertion other : ElementNamespace

-- An element's event has the namespace name that its prefix is bound to, if it is, and its local name.
pub data NsEvent : Type 0 where
  start_element empty_element : Option Text → Text → NsEvent
  end_element ignored : NsEvent
  malformed : Text → NsEvent

unfoldable pub element_namespace : Option Text → ElementNamespace
element_namespace none = other
element_namespace (some bound) =
    elim (text_eq bound (ascii "urn:oasis:names:tc:SAML:2.0:protocol")) [
      | true ↦ protocol
      | false ↦ elim (text_eq bound (ascii "urn:oasis:names:tc:SAML:2.0:assertion")) [
        | true ↦ assertion
        | false ↦ other
      ]
    ]

abbrev pub is_protocol : ElementNamespace → Bool
is_protocol protocol = true
is_protocol _ = false

abbrev pub is_assertion : ElementNamespace → Bool
is_assertion assertion = true
is_assertion _ = false

-- The open elements, innermost first.
abbrev pub Stack : Type 0
Stack = List (ElementNamespace × Text)

abbrev pub understood_condition : Text → Bool
understood_condition local =
    text_eq local (ascii "AudienceRestriction")
    || text_eq local (ascii "OneTimeUse")
    || text_eq local (ascii "ProxyRestriction")

unfoldable pub in_conditions : Stack → Bool
in_conditions (c ∷ a ∷ r ∷ rest) =
    is_assertion c.0
    && text_eq c.1 (ascii "Conditions")
    && (is_protocol r.0 && text_eq r.1 (ascii "Response"))
    && (is_assertion a.0 && text_eq a.1 (ascii "Assertion"))
in_conditions _ = false

unfoldable pub unknown_condition_child : Stack → ElementNamespace → Text → Option Text
unknown_condition_child stack namespace local =
    elim (in_conditions stack && not (is_assertion namespace && understood_condition local)) [
      | true ↦ some local
      | false ↦ none
    ]

abbrev pub pop : Stack → Stack
pop [] = []
pop (e ∷ stack) = stack

-- The loop of `unrecognized_condition_name`.
unfoldable pub find_unknown : Stack → List NsEvent → Result (Option Text)
find_unknown stack [] = ok none
find_unknown stack (start_element bound local ∷ events) =
    elim (unknown_condition_child stack (element_namespace bound) local) [
      | some element ↦ ok (some element)
      | none ↦ find_unknown ((element_namespace bound, local) ∷ stack) events
    ]
find_unknown stack (empty_element bound local ∷ events) =
    elim (unknown_condition_child stack (element_namespace bound) local) [
      | some element ↦ ok (some element)
      | none ↦ find_unknown stack events
    ]
find_unknown stack (end_element ∷ events) = find_unknown (pop stack) events
find_unknown stack (ignored ∷ events) = find_unknown stack events
find_unknown stack (malformed message ∷ events) = err (xml message)

module _ (read_ns_events : ℕ → Text → List NsEvent) (limits : XmlLimits) where
  unfoldable pub unrecognized_condition_name : Text → Result (Option Text)
  unrecognized_condition_name source = do
    check_input_bytes limits (length source)
    find_unknown [] (read_ns_events limits.max_attributes_per_element source)

  abbrev pub none_found : Option Text → Result (Unit {0})
  none_found none = ok tt
  none_found (some element) = err (unrecognized_condition element)

  unfoldable pub reject_unrecognized_conditions : Text → Result (Unit {0})
  reject_unrecognized_conditions source = do
    found ← unrecognized_condition_name source
    none_found found

-- The elements that are open after some events.
abbrev pub stack_after : Stack → List NsEvent → Stack
stack_after stack [] = stack
stack_after stack (start_element bound local ∷ events) =
    stack_after ((element_namespace bound, local) ∷ stack) events
stack_after stack (end_element ∷ events) = stack_after (pop stack) events
stack_after stack (e ∷ events) = stack_after stack events

-- The element that an event opens, if it does.
abbrev pub opened : NsEvent → Option (ElementNamespace × Text)
opened (start_element bound local) = some (element_namespace bound, local)
opened (empty_element bound local) = some (element_namespace bound, local)
opened _ = none

-- An element that may stand where it does: one that is understood, if it is a condition.
abbrev pub MayStand : Stack → Option (ElementNamespace × Text) → Type 0
MayStand stack none = Unit
MayStand stack (some (namespace, local)) =
    in_conditions stack ≡ true → (namespace ≡ assertion) × (understood_condition local ≡ true)

is_assertion_iff : (n : ElementNamespace) → is_assertion n ≡ true → n ≡ assertion
is_assertion_iff assertion h = refl
is_assertion_iff protocol h = absurd (cc h)
is_assertion_iff other h = absurd (cc h)

child_understood :
    (stack : Stack) (namespace : ElementNamespace) (local : Text)
    → unknown_condition_child stack namespace local ≡ none
    → MayStand stack (some (namespace, local))
unfolding unknown_condition_child
child_understood stack namespace local h inside =
    (is_assertion_iff namespace (ground (arith, inside)), ground (arith, inside))

find_unknown-MayStand :
    (stack : Stack) (before : List NsEvent) (e : NsEvent) (after : List NsEvent)
    → find_unknown stack (before ++ e ∷ after) ≡ ok none
    → MayStand (stack_after stack before) (opened e)
unfolding find_unknown
find_unknown-MayStand stack [] (start_element bound local) after h =
    child_understood stack (element_namespace bound) local (ground arith)
find_unknown-MayStand stack [] (empty_element bound local) after h =
    child_understood stack (element_namespace bound) local (ground arith)
find_unknown-MayStand stack [] end_element after h = tt
find_unknown-MayStand stack [] ignored after h = tt
find_unknown-MayStand stack [] (malformed message) after h = tt
find_unknown-MayStand stack (start_element bound local ∷ before) e after h =
    find_unknown-MayStand ((element_namespace bound, local) ∷ stack) before e after (ground arith)
find_unknown-MayStand stack (empty_element bound local ∷ before) e after h =
    find_unknown-MayStand stack before e after (ground arith)
find_unknown-MayStand stack (end_element ∷ before) e after h =
    find_unknown-MayStand (pop stack) before e after h
find_unknown-MayStand stack (ignored ∷ before) e after h =
    find_unknown-MayStand stack before e after h
find_unknown-MayStand stack (malformed message ∷ before) e after h = absurd (cc h)

module _ (read_ns_events : ℕ → Text → List NsEvent) (limits : XmlLimits) where
  -- In a response that is not rejected, every element that the reader reports directly in the
  -- `Conditions` of an `Assertion` in a `Response` is, by its namespace and name, one of the three
  -- conditions that are understood.
  pub reject_unrecognized_conditions-MayStand :
      (source : Text) (before : List NsEvent) (e : NsEvent) (after : List NsEvent)
      → read_ns_events limits.max_attributes_per_element source ≡ before ++ e ∷ after
      → reject_unrecognized_conditions read_ns_events limits source ≡ ok tt
      → MayStand (stack_after [] before) (opened e)
  unfolding reject_unrecognized_conditions unrecognized_condition_name check_input_bytes
  reject_unrecognized_conditions-MayStand source before e after events h =
      elim (Result-cases
        (find_unknown [] (read_ns_events limits.max_attributes_per_element source))) [
          | inr (f, bad) ↦ absurd (ground (arith, bad))
          | inl (some element, made) ↦ absurd (ground (arith, made))
          | inl (none, made) ↦
              find_unknown-MayStand [] before e after
                (subst (λ es. find_unknown [] es ≡ ok none) events made)
        ]
