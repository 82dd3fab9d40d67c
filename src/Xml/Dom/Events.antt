-- ===== src/Xml/Dom/Events.antt =====
-- src/xml/dom.rs: the events that a reader may report for a tree.
use opensaml_rs.Prelude.{
  ℕ, ◌+◌, ◌≡◌, List, [], ◌∷◌, ◌++◌, Text, length, take, drop, map, All, ◌≢◌, Option, none, some,
  true,
}
use opensaml_rs.Xml.Dom.{
  Node, node, Nodes, no_nodes, nodes, RawAttribute, attribute, PlacedEvent, Event, start_tag,
  empty_tag, end_tag, characters, c_data, general_ref, other, character, entity, is_xml_whitespace,
}

abbrev pub raw : Text × Text → RawAttribute
raw (key, value) = attribute key value

-- The first `<` of the bytes from `before` to `after` is at `first`.
abbrev pub OpensAt : Text → ℕ → ℕ → ℕ → Type 0
OpensAt bytes before first after =
    (gap rest : Text) × (drop before (take after bytes) ≡ gap ++ b'<' ∷ rest)
    × All (λ b. b ≢ b'<') gap
    × (first ≡ before + length gap)

-- The text that an event adds to the innermost element.
abbrev pub contributes : Event → Option Text
contributes (characters added) = some added
contributes (c_data added) = some added
contributes (general_ref (character added)) = some added
contributes (general_ref (entity name added)) = added
contributes e = none

-- Events that a reader may report for an element of the document of these bytes: the element, what
-- is reported from it on, and what follows it. An element is one tag that closes itself, or a start
-- tag, what is inside, and an end tag; inside, the text comes in any number of pieces, which
-- stand anywhere between the children, as do comments.
mutual
  pub data Reads (bytes : Text) : Node → List PlacedEvent → List PlacedEvent → Type 0 where
    empty :
        (name : Text) (attributes : List (Text × Text)) (before first after : ℕ)
        (rest : List PlacedEvent)
        → OpensAt bytes before first after
        → Reads bytes
            (node name attributes no_nodes [] first after)
            (record { event = empty_tag name (map raw attributes); before = before; after = after }
              ∷ rest)
            rest
    element :
        (name : Text) (attributes : List (Text × Text)) (before first after : ℕ) (content : Text)
        (inner : Nodes) (events : List PlacedEvent) (from last : ℕ) (rest : List PlacedEvent)
        → OpensAt bytes before first after
        → Inside bytes content inner events
            (record { event = end_tag; before = from; after = last } ∷ rest)
        → Reads bytes
            (node name attributes inner content first last)
            (record { event = start_tag name (map raw attributes); before = before; after = after }
              ∷ events)
            rest

  pub data Inside (bytes : Text) : Text → Nodes → List PlacedEvent → List PlacedEvent → Type 0 where
    nothing : (rest : List PlacedEvent) → Inside bytes [] no_nodes rest rest
    piece :
        (e : PlacedEvent) (added content : Text) (inner : Nodes) (events rest : List PlacedEvent)
        → contributes e.event ≡ some added
        → Inside bytes content inner events rest
        → Inside bytes (added ++ content) inner (e ∷ events) rest
    aside :
        (e : PlacedEvent) (content : Text) (inner : Nodes) (events rest : List PlacedEvent)
        → e.event ≡ other
        → Inside bytes content inner events rest
        → Inside bytes content inner (e ∷ events) rest
    child :
        (n : Node) (content : Text) (inner : Nodes) (events middle rest : List PlacedEvent)
        → Reads bytes n events middle
        → Inside bytes content inner middle rest
        → Inside bytes content (nodes n inner) events rest

-- Outside the document element there are comments, declarations and whitespace alone.
abbrev pub IsPadding : Event → Type 0
IsPadding other = Unit
IsPadding (characters added) = is_xml_whitespace added ≡ true
IsPadding e = ⊥

pub data Skips : List PlacedEvent → List PlacedEvent → Type 0 where
  done_skipping : (rest : List PlacedEvent) → Skips rest rest
  skip :
      (e : PlacedEvent) (events rest : List PlacedEvent)
      → IsPadding e.event
      → Skips events rest
      → Skips (e ∷ events) rest
