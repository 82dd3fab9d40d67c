-- ===== src/Xml/Dom/Stream.antt =====
-- src/xml/dom.rs: a tree is built from the events that a reader may report for it.
use opensaml_rs.Prelude.{
  ℕ, suc, ◌+◌, ◌≤◌, ◌≡◌, refl, sym, ap, ◌∙◌, List, [], ◌∷◌, ◌++◌, append_assoc, append-nil, Text,
  length, arith, map, All, ◌≢◌, none, some, position, length-append, subst,
}
use opensaml_rs.Error.{Result, ok}
use opensaml_rs.Xml.Dom.{
  XmlLimits, Node, node, Nodes, no_nodes, nodes, push_node, PlacedEvent, Event, start_tag,
  empty_tag, end_tag, characters, c_data, general_ref, doc_type, stylesheet, other, malformed,
  character, entity, malformed_reference, open_element, usize_max, check_input_bytes,
  checked_node_count, check_depth, checked_append_text, read_attrs_from, read_attrs, find_lt,
  document, State, handle, run, parse_roots_inner, parse_with_limits, push_child,
}
use opensaml_rs.Xml.Dom.Limits.{AttrsFit, Within, AllWithin, size, size_all}
use opensaml_rs.Xml.Dom.Events.{
  raw, OpensAt, contributes, Reads, empty, element, Inside, nothing, piece, aside, child, IsPadding,
  Skips, done_skipping, skip,
}

-- The nodes appended one after another.
push_all : Nodes → Nodes → Nodes
push_all ms no_nodes = ms
push_all ms (nodes n ns) = push_all (push_node ms n) ns

push_all-nodes : (m : Node) (ms ns : Nodes) → push_all (nodes m ms) ns ≡ nodes m (push_all ms ns)
unfolding push_all push_node
push_all-nodes m ms no_nodes = refl
push_all-nodes m ms (nodes n ns) = push_all-nodes m (push_node ms n) ns

push_all-no_nodes : (ns : Nodes) → push_all no_nodes ns ≡ ns
unfolding push_all push_node
push_all-no_nodes no_nodes = refl
push_all-no_nodes (nodes n ns) = push_all-nodes n no_nodes ns ∙ ap (nodes n) (push_all-no_nodes ns)

position_first :
    (gap rest : Text)
    → All (λ b. b ≢ b'<') gap
    → position b'<' (gap ++ b'<' ∷ rest) ≡ some (length gap)
position_first [] rest h = ground arith
position_first (b ∷ gap) rest (differs, h) = ground (arith, differs, position_first gap rest h)

find_lt_lem :
    (bytes : Text) (before first after : ℕ)
    → OpensAt bytes before first after
    → find_lt bytes before after ≡ first
unfolding find_lt
find_lt_lem bytes before first after (gap, rest, here, h, at) =
    rw (here, position_first gap rest h) (sym at)

read_back :
    (limits : XmlLimits) (count : ℕ) (attributes : List (Text × Text))
    → AttrsFit limits attributes
    → count + length attributes ≤ limits.max_attributes_per_element
    → read_attrs_from limits count (map raw attributes) ≡ ok attributes
unfolding read_attrs_from
read_back limits count [] f h = refl
read_back limits count ((key, value) ∷ attributes) f h =
    ground (arith, read_back limits (count + 1) attributes f.1 (omega (arith, h)))

module _ (limits : XmlLimits) (bytes : Text) (nodes_small : limits.max_nodes ≤ usize_max)
    (text_small : limits.max_text_bytes ≤ usize_max) where
  abbrev go : List PlacedEvent → State → Result State
  go events s = run limits document bytes events s

  abbrev state : List Node → Nodes → ℕ → State
  state stack roots count = record { stack = stack; roots = roots; node_count = count }

  open_state :
      (name : Text) (attributes : List (Text × Text)) (before first after last : ℕ)
      (stack : List Node) (roots : Nodes) (count : ℕ)
      → OpensAt bytes before first after
      → AttrsFit limits attributes
      → length attributes ≤ limits.max_attributes_per_element
      → suc (length stack) ≤ limits.max_depth
      → suc count ≤ limits.max_nodes
      → open_element limits bytes
          (state stack roots count)
          before
          after
          last
          name
          (map raw attributes)
        ≡ ok (node name attributes no_nodes [] first last, count + 1)
  unfolding checked_node_count check_depth read_attrs
  open_state name attributes before first after last stack roots count at fit few deep room =
      rw
        (
          find_lt_lem bytes before first after at,
          read_back limits 0 attributes fit (omega (arith, few)),
        )
        (ground (arith, deep, room, nodes_small))

  abbrev pushed : List Node × Nodes → ℕ → State
  pushed p count = state p.0 p.1 count

  -- A piece of text goes to the innermost element.
  added_text :
      (e : Event) (before after : ℕ) (added name : Text) (attributes : List (Text × Text))
      (inner : Nodes) (sofar : Text) (first : ℕ) (stack : List Node) (roots : Nodes) (count : ℕ)
      → contributes e ≡ some added
      → length (sofar ++ added) ≤ limits.max_text_bytes
      → handle limits document bytes
          (state (node name attributes inner sofar first 0 ∷ stack) roots count)
          e
          before
          after
        ≡ ok (state (node name attributes inner (sofar ++ added) first 0 ∷ stack) roots count)
  unfolding handle checked_append_text
  added_text (characters s) before after added name attributes inner sofar first stack roots count c
        h =
      ground (arith, c, h, length-append sofar added, text_small)
  added_text (c_data s) before after added name attributes inner sofar first stack roots count c h =
      ground (arith, c, h, length-append sofar added, text_small)
  added_text (general_ref (character s)) before after added name attributes inner sofar first stack
        roots count c h =
      ground (arith, c, h, length-append sofar added, text_small)
  added_text (general_ref (entity n (some s))) before after added name attributes inner sofar first
        stack roots count c h =
      ground (arith, c, h, length-append sofar added, text_small)
  added_text (general_ref (entity n none)) before after added name attributes inner sofar first
        stack roots count c h =
      absurd (cc c)
  added_text (general_ref (malformed_reference m)) before after added name attributes inner sofar
        first stack roots count c h =
      absurd (cc c)
  added_text (start_tag n r) before after added name attributes inner sofar first stack roots count
        c h =
      absurd (cc c)
  added_text (empty_tag n r) before after added name attributes inner sofar first stack roots count
        c h =
      absurd (cc c)
  added_text end_tag before after added name attributes inner sofar first stack roots count c h =
      absurd (cc c)
  added_text doc_type before after added name attributes inner sofar first stack roots count c h =
      absurd (cc c)
  added_text stylesheet before after added name attributes inner sofar first stack roots count c h =
      absurd (cc c)
  added_text other before after added name attributes inner sofar first stack roots count c h =
      absurd (cc c)
  added_text (malformed m) before after added name attributes inner sofar first stack roots count c
        h =
      absurd (cc c)

  shorter :
      (a b c : Text)
      → length (a ++ (b ++ c)) ≤ limits.max_text_bytes
      → length (a ++ b) ≤ limits.max_text_bytes
  shorter a b c h = omega (arith, h, length-append a (b ++ c), length-append b c, length-append a b)

  aside_lem :
      (e : Event) (before after : ℕ) (s : State)
      → e ≡ other
      → handle limits document bytes s e before after ≡ ok s
  unfolding handle
  aside_lem e before after s is =
      subst (λ v. handle limits document bytes s v before after ≡ ok s) (sym is) refl

  mutual
    unfolding run handle Within size push_all

    built :
        {n : Node} {events rest : List PlacedEvent} (stack : List Node) (roots : Nodes) (count : ℕ)
        → Reads bytes n events rest
        → Within limits (suc (length stack)) n
        → count + size n ≤ limits.max_nodes
        → go events (state stack roots count)
          ≡ go rest (pushed (push_child stack roots n) (count + size n))
    built stack roots count (empty name attributes before first after rest at)
          (deep, few, fit, short, below) room =
        rw
          (open_state name attributes before first after after stack roots count at fit few deep
            (omega (arith, room)))
          refl
    built stack roots count
          (element name attributes before first after content inner events from last rest at inside)
          (deep, few, fit, short, below) room =
        rw
          (open_state name attributes before first after 0 stack roots count at fit few deep
            (omega (arith, room)))
          (built-Inside name attributes no_nodes [] first stack roots (count + 1) inside below
              (omega (arith, room)) short
            ∙ ap
                (λ ms. go rest (
                  pushed (push_child stack roots (node name attributes ms content first last))
                    (count + 1 + size_all inner)))
                (push_all-no_nodes inner)
            ∙ ap
                (λ c. go rest (
                  pushed (push_child stack roots (node name attributes inner content first last))
                    c))
                (omega arith))

    built-Inside :
        {content : Text} {ns : Nodes} {events rest : List PlacedEvent} (name : Text)
        (attributes : List (Text × Text)) (inner : Nodes) (sofar : Text) (first : ℕ)
        (stack : List Node) (roots : Nodes) (count : ℕ)
        → Inside bytes content ns events rest
        → AllWithin limits (suc (suc (length stack))) ns
        → count + size_all ns ≤ limits.max_nodes
        → length (sofar ++ content) ≤ limits.max_text_bytes
        → go events (state (node name attributes inner sofar first 0 ∷ stack) roots count)
          ≡ go rest (
              state
                (node name attributes (push_all inner ns) (sofar ++ content) first 0 ∷ stack)
                roots
                (count + size_all ns))
    built-Inside name attributes inner sofar first stack roots count (nothing rest) w room short =
        ap (λ t. go rest (state (node name attributes inner t first 0 ∷ stack) roots count))
          (sym (append-nil sofar))
        ∙ ap
            (λ c.
              go rest (state (node name attributes inner (sofar ++ []) first 0 ∷ stack) roots c))
            (omega arith)
    built-Inside name attributes inner sofar first stack roots count
          (piece e added content ns events rest c more) w room short =
        rw
          (added_text e.event e.before e.after added name attributes inner sofar first stack roots
            count c (shorter sofar added content short))
          (built-Inside name attributes inner (sofar ++ added) first stack roots count more w room (
              subst (λ t. length t ≤ limits.max_text_bytes) (sym (append_assoc sofar added content))
                short)
            ∙ ap
                (λ t. go rest (
                  state (node name attributes (push_all inner ns) t first 0 ∷ stack) roots
                    (count + size_all ns)))
                (append_assoc sofar added content))
    built-Inside name attributes inner sofar first stack roots count
          (aside e content ns events rest is more) w room short =
        rw (aside_lem e.event e.before e.after _ is)
          (built-Inside name attributes inner sofar first stack roots count more w room short)
    built-Inside name attributes inner sofar first stack roots count
          (child n content ns events middle rest one more) w room short =
        built (node name attributes inner sofar first 0 ∷ stack) roots count one w.0
          (omega (arith, room))
        ∙ built-Inside name attributes (push_node inner n) sofar first stack roots (count + size n)
            more w.1 (omega (arith, room)) short
        ∙ ap
            (λ c. go rest (
              state
                (node name attributes (push_all (push_node inner n) ns) (sofar ++ content) first 0
                  ∷ stack)
                roots c))
            (omega arith)

  padding_lem :
      (e : Event) (before after : ℕ) (roots : Nodes) (count : ℕ)
      → IsPadding e
      → handle limits document bytes (state [] roots count) e before after
        ≡ ok (state [] roots count)
  unfolding handle
  padding_lem other before after roots count h = refl
  padding_lem (characters added) before after roots count h = rw h refl
  padding_lem (c_data s) before after roots count h = absurd h
  padding_lem (general_ref r) before after roots count h = absurd h
  padding_lem (start_tag n r) before after roots count h = absurd h
  padding_lem (empty_tag n r) before after roots count h = absurd h
  padding_lem end_tag before after roots count h = absurd h
  padding_lem doc_type before after roots count h = absurd h
  padding_lem stylesheet before after roots count h = absurd h
  padding_lem (malformed m) before after roots count h = absurd h

  skipped :
      {events rest : List PlacedEvent} (roots : Nodes) (count : ℕ)
      → Skips events rest
      → go events (state [] roots count) ≡ go rest (state [] roots count)
  unfolding run
  skipped roots count (done_skipping rest) = refl
  skipped roots count (skip e events rest h more) =
      rw (padding_lem e.event e.before e.after roots count h) (skipped roots count more)

-- Whatever events the reader reports for a tree within the limits, its text in any pieces and with
-- comments anywhere, whitespace and comments around it, each tag where the first `<` of its bytes
-- is: the document that is accepted is this tree, with the byte positions of its elements.
pub parse_with_limits-Reads :
    (limits : XmlLimits) (read_events : Text → List PlacedEvent) (source : Text) (root : Node)
    (events rest : List PlacedEvent)
    → limits.max_nodes ≤ usize_max
    → limits.max_text_bytes ≤ usize_max
    → Skips (read_events source) events
    → Reads source root events rest
    → Skips rest []
    → length source ≤ limits.max_bytes
    → Within limits 1 root
    → size root ≤ limits.max_nodes
    → parse_with_limits read_events limits source ≡ ok root
unfolding parse_with_limits parse_roots_inner check_input_bytes run push_node
parse_with_limits-Reads limits read_events source root events rest small short before reads after
      bytes w room =
    let whole =
      skipped limits source small short no_nodes 0 before
      ∙ built limits source small short [] no_nodes 0 reads w (omega (arith, room))
      ∙ skipped limits source small short (nodes root no_nodes) (0 + size root) after in
    rw whole (ground (arith, bytes))
