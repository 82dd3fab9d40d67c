-- ===== src/Xml/Dom/Bounds.antt =====
-- src/xml/dom.rs: every tree that is built lies within the resource limits.
use opensaml_rs.Prelude.{
  ℕ, suc, ◌+◌, ◌≤◌, ◌≡◌, refl, Bool, true, false, List, [], ◌∷◌, Text, length, arith, inl, inr,
  subst, ap, length-append,
}
use opensaml_rs.Error.{ok, Result-cases}
use opensaml_rs.Xml.Dom.{
  XmlLimits, Node, Nodes, no_nodes, nodes, text, RawAttribute, attribute, malformed_attribute,
  Reference, Event, PlacedEvent, start_tag, empty_tag, end_tag, characters, c_data, general_ref,
  doc_type, stylesheet, other, malformed, check_input_bytes, checked_node_count, check_depth,
  checked_append_text, read_attrs_from, read_attrs, ParseMode, document, roots_only, State,
  with_end, handle, run, initial_state, parse_roots_inner, parse_with_limits, append_to_top,
  on_text, on_reference, on_end, on_empty, on_start, open_element, resolve_reference,
  is_xml_whitespace, with_text,
}
use opensaml_rs.Xml.Dom.Limits.{
  AttrsFit, Within, AllWithin, size, size_all, StackWithin, stack_size, push_child-size,
  push_child_within, with_end_within, size-with_end, size-with_text, with_text_within,
}

pub record IsBounded (limits : XmlLimits) (s : State) : Type 0 where
  pub stack : StackWithin limits s.stack
  pub roots : AllWithin limits 1 s.roots
  pub counted : size_all s.roots + stack_size s.stack ≡ s.node_count
  pub few : s.node_count ≤ limits.max_nodes

read_attrs-AttrsFit :
    (limits : XmlLimits) (count : ℕ) (raw : List RawAttribute) {attributes : List (Text × Text)}
    → read_attrs_from limits count raw ≡ ok attributes
    → count ≤ limits.max_attributes_per_element
    → (count + length attributes ≤ limits.max_attributes_per_element) × AttrsFit limits attributes
unfolding read_attrs_from
read_attrs-AttrsFit limits count [] {attributes = []} h c = (omega arith, tt)
read_attrs-AttrsFit limits count [] {attributes = a ∷ more} h c = ground arith
read_attrs-AttrsFit limits count (malformed_attribute message ∷ raw) h c = ground arith
read_attrs-AttrsFit limits count (attribute key value ∷ raw) h c =
    elim (Result-cases (read_attrs_from limits (count + 1) raw)) [
      | inr (e, bad) ↦ absurd (ground (arith, bad))
      | inl (rest, read) ↦ ground (arith, read, read_attrs-AttrsFit limits (count + 1) raw read)
    ]

module _ (limits : XmlLimits) where
  opened :
      (bytes : Text) (s : State) (before after last : ℕ) (name : Text) (raw : List RawAttribute)
      {r : Node × ℕ}
      → open_element limits bytes s before after last name raw ≡ ok r
      → Within limits (suc (length s.stack)) r.0
        × (size r.0 ≡ 1)
        × (r.1 ≡ s.node_count + 1)
        × (r.1 ≤ limits.max_nodes)
  unfolding Within size checked_node_count check_depth read_attrs
  opened bytes s before after last name raw h = elim (Result-cases (read_attrs_from limits 0 raw)) [
    | inr (e, bad) ↦ absurd (ground (arith, bad))
    | inl (attributes, read) ↦
        let (few, fit) = read_attrs-AttrsFit limits 0 raw read (omega arith) in
        ground (arith, read, few, fit)
  ]

  on_end-IsBounded :
      (s : State) (after : ℕ) → IsBounded limits s → IsBounded limits (on_end s s.stack after)
  on_end-IsBounded s after v = ended s.stack v.stack v.counted
    where
      ended :
          (stack : List Node)
          → StackWithin limits stack
          → size_all s.roots + stack_size stack ≡ s.node_count
          → IsBounded limits (on_end s stack after)
      ended [] h c = v
      ended (top ∷ stack) h c =
          let (stack', roots') =
            push_child_within limits stack s.roots (with_end top after) h.1 v.roots
              (with_end_within limits (suc (length stack)) after top h.0) in
          record {
            stack = stack';
            roots = roots';
            counted = omega (
              arith,
              push_child-size stack s.roots (with_end top after),
              size-with_end after top,
            );
            few = v.few;
          }

  appended_fits :
      (target added : Text) {joined : Text}
      → checked_append_text limits target added ≡ ok joined
      → length joined ≤ limits.max_text_bytes
  unfolding checked_append_text
  appended_fits target added h = ground (arith, length-append target added)

  -- The state with this stack in place of its own.
  abbrev Holds : State → List Node → Type 0
  Holds s stack = StackWithin limits stack × (size_all s.roots + stack_size stack ≡ s.node_count)

  append_to_top-IsBounded :
      (s : State) (top : Node) (stack : List Node) (added : Text) {r : State}
      → IsBounded limits s
      → Holds s (top ∷ stack)
      → append_to_top limits s top stack added ≡ ok r
      → IsBounded limits r
  append_to_top-IsBounded s top stack added v (h, c) e =
      elim (Result-cases (checked_append_text limits (text top) added)) [
        | inr (f, bad) ↦ absurd (ground (arith, bad))
        | inl (joined, made) ↦
            let r : IsBounded limits (record s { stack = with_text top joined ∷ stack }) = record {
              stack = (
                with_text_within limits (suc (length stack)) joined top h.0
                    (appended_fits (text top) added made),
                h.1,
              );
              roots = v.roots;
              counted = omega (arith, size-with_text joined top);
              few = v.few;
            } in
            subst (IsBounded limits) (ground (arith, made)) r
      ]

  on_text-IsBounded :
      (mode : ParseMode) (s : State) (stack : List Node) (ignorable : Bool) (added : Text)
      {r : State}
      → IsBounded limits s
      → Holds s stack
      → on_text limits mode s stack ignorable added ≡ ok r
      → IsBounded limits r
  on_text-IsBounded mode s (top ∷ stack) ignorable added v h e =
      append_to_top-IsBounded s top stack added v h e
  on_text-IsBounded mode s [] true added v h e = subst (IsBounded limits) (ground arith) v
  on_text-IsBounded document s [] false added v h e = absurd (ground arith)
  on_text-IsBounded roots_only s [] false added v h e = subst (IsBounded limits) (ground arith) v

  on_reference-IsBounded :
      (mode : ParseMode) (s : State) (stack : List Node) (reference : Reference) {r : State}
      → IsBounded limits s
      → Holds s stack
      → on_reference limits mode s stack reference ≡ ok r
      → IsBounded limits r
  on_reference-IsBounded mode s (top ∷ stack) reference v h e =
      elim (Result-cases (resolve_reference reference)) [
        | inr (f, bad) ↦ absurd (ground (arith, bad))
        | inl (added, made) ↦ append_to_top-IsBounded s top stack added v h (ground (arith, made))
      ]
  on_reference-IsBounded document s [] reference v h e = absurd (ground arith)
  on_reference-IsBounded roots_only s [] reference v h e = subst (IsBounded limits) (ground arith) v

  on_start-IsBounded :
      (s : State) (n : Node) (count : ℕ)
      → IsBounded limits s
      → Within limits (suc (length s.stack)) n
      → size n ≡ 1
      → count ≡ s.node_count + 1
      → count ≤ limits.max_nodes
      → IsBounded limits (on_start s (n, count))
  on_start-IsBounded s n count v w one next few = record {
    stack = (w, v.stack);
    roots = v.roots;
    counted = omega (arith, v.counted);
    few = few;
  }

  on_empty-IsBounded :
      (s : State) (n : Node) (count : ℕ)
      → IsBounded limits s
      → Within limits (suc (length s.stack)) n
      → size n ≡ 1
      → count ≡ s.node_count + 1
      → count ≤ limits.max_nodes
      → IsBounded limits (on_empty s (n, count))
  on_empty-IsBounded s n count v w one next few =
      let (stack', roots') = push_child_within limits s.stack s.roots n v.stack v.roots w in
      record {
        stack = stack';
        roots = roots';
        counted = omega (arith, v.counted, push_child-size s.stack s.roots n);
        few = few;
      }

  handle-IsBounded :
      (mode : ParseMode) (bytes : Text) (s : State) (event : Event) (before after : ℕ) {r : State}
      → IsBounded limits s
      → handle limits mode bytes s event before after ≡ ok r
      → IsBounded limits r
  unfolding handle
  handle-IsBounded mode bytes s (start_tag name raw) before after v h =
      elim (Result-cases (open_element limits bytes s before after 0 name raw)) [
        | inr (e, bad) ↦ absurd (ground (arith, bad))
        | inl ((n, count), made) ↦
            let (w, one, next, few) = opened bytes s before after 0 name raw made in
            subst (IsBounded limits) (ground (arith, made))
              (on_start-IsBounded s n count v w one next few)
      ]
  handle-IsBounded mode bytes s (empty_tag name raw) before after v h =
      elim (Result-cases (open_element limits bytes s before after after name raw)) [
        | inr (e, bad) ↦ absurd (ground (arith, bad))
        | inl ((n, count), made) ↦
            let (w, one, next, few) = opened bytes s before after after name raw made in
            subst (IsBounded limits) (ground (arith, made))
              (on_empty-IsBounded s n count v w one next few)
      ]
  handle-IsBounded mode bytes s end_tag before after v h =
      subst (IsBounded limits) (ground arith) (on_end-IsBounded s after v)
  handle-IsBounded mode bytes s (characters added) before after v h =
      on_text-IsBounded mode s s.stack (is_xml_whitespace added) added v (v.stack, v.counted) h
  handle-IsBounded mode bytes s (c_data added) before after v h =
      on_text-IsBounded mode s s.stack false added v (v.stack, v.counted) h
  handle-IsBounded mode bytes s (general_ref reference) before after v h =
      on_reference-IsBounded mode s s.stack reference v (v.stack, v.counted) h
  handle-IsBounded mode bytes s doc_type before after v h = absurd (ground arith)
  handle-IsBounded mode bytes s stylesheet before after v h = absurd (ground arith)
  handle-IsBounded mode bytes s other before after v h = subst (IsBounded limits) (ground arith) v
  handle-IsBounded mode bytes s (malformed message) before after v h = absurd (ground arith)

  run-IsBounded :
      (mode : ParseMode) (bytes : Text) (events : List PlacedEvent) (s : State) {r : State}
      → IsBounded limits s
      → run limits mode bytes events s ≡ ok r
      → IsBounded limits r
  unfolding run
  run-IsBounded mode bytes [] s v h = subst (IsBounded limits) (ground arith) v
  run-IsBounded mode bytes (e ∷ events) s v h =
      elim (Result-cases (handle limits mode bytes s e.event e.before e.after)) [
        | inr (f, bad) ↦ absurd (ground (arith, bad))
        | inl (next, made) ↦
            run-IsBounded mode bytes events next
              (handle-IsBounded mode bytes s e.event e.before e.after v made) (ground (arith, made))
      ]

  initial_state-IsBounded : IsBounded limits initial_state
  unfolding Within size
  initial_state-IsBounded = record { stack = tt; roots = tt; counted = refl; few = omega arith }

  root_within :
      (roots : Nodes) (root : Node)
      → roots ≡ nodes root no_nodes
      → AllWithin limits 1 roots
      → Within limits 1 root
  unfolding Within
  root_within roots root e w = (subst (AllWithin limits 1) e w).0

  root_size :
      (roots : Nodes) (root : Node) {s : State}
      → s.roots ≡ nodes root no_nodes
      → IsBounded limits s
      → size root ≤ limits.max_nodes
  unfolding size
  root_size roots root e v = omega (arith, ap size_all e, v.counted, v.few)

  -- Whatever the reader reports, a document that is accepted was short enough, is nested no deeper
  -- than allowed, has no more elements, and no element has more attributes, a longer attribute
  -- value or a longer text than allowed.
  pub parse_with_limits-Within :
      (read_events : Text → List PlacedEvent) (source : Text) {root : Node}
      → parse_with_limits read_events limits source ≡ ok root
      → (length source ≤ limits.max_bytes) × Within limits 1 root × (size root ≤ limits.max_nodes)
  unfolding parse_with_limits parse_roots_inner check_input_bytes
  parse_with_limits-Within read_events source {root = root} h =
      elim (Result-cases (run limits document source (read_events source) initial_state)) [
        | inr (f, bad) ↦ absurd (ground (arith, bad))
        | inl (final, made) ↦
            let v =
              run-IsBounded document source (read_events source) initial_state
                initial_state-IsBounded made in
            let one : final.roots ≡ nodes root no_nodes = ground (arith, made) in
            (
              ground (arith, made),
              root_within final.roots root one v.roots,
              root_size final.roots root one v,
            )
      ]
