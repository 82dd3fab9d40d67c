-- ===== src/Xml/Dom.antt =====
-- src/xml/dom.rs: the tree that is built from the events of a document, under resource limits. The
-- reader is of the `quick-xml` crate, which is no part of the repository: its events, each with the
-- positions before and after it, are an argument here. Texts are lists of bytes.
pub mod Limits
pub mod Bounds
pub mod Stream
pub mod Events
pub mod Refused
use opensaml_rs.Prelude.{
  ℕ, zero, suc, ◌+◌, ◌*◌, ◌/◌, ◌%◌, ◌≡◌, Bool, true, false, ◌&&◌, ◌||◌, not, Option, none, some,
  List, [], ◌∷◌, ◌++◌, Text, ascii, text_eq, length, take, drop, all, position, ltb, leb, ◌==◌,
  if◌then◌else◌,
}
use opensaml_rs.Error.{SamlError, xml, invalid, Result, ok, err, ◌>>=◌, ◌>>◌, ensure, ok_or}

pub record XmlLimits : Type 0 where
  pub max_bytes : ℕ
  pub max_depth : ℕ
  pub max_nodes : ℕ
  pub max_attributes_per_element : ℕ
  pub max_attribute_value_bytes : ℕ
  pub max_text_bytes : ℕ

abbrev pub usize_max : ℕ
usize_max = 18446744073709551615

-- `XmlLimits::unbounded` and `XmlLimits::default`
abbrev pub unbounded : XmlLimits
unbounded = record {
  max_bytes = usize_max;
  max_depth = usize_max;
  max_nodes = usize_max;
  max_attributes_per_element = usize_max;
  max_attribute_value_bytes = usize_max;
  max_text_bytes = usize_max;
}

abbrev pub default_limits : XmlLimits
default_limits = record {
  max_bytes = 1048576;
  max_depth = 1024;
  max_nodes = 50000;
  max_attributes_per_element = 64;
  max_attribute_value_bytes = 16384;
  max_text_bytes = 1048576;
}

-- A `usize` in decimal: it has twenty digits at most.
unfoldable pub decimal_from : ℕ → ℕ → Text → Text
decimal_from zero n digits = digits
decimal_from (suc fuel) n digits =
    let more = decimal_from fuel (n / 10) ((b'0' + n % 10) ∷ digits) in
    if ltb n 10 then (b'0' + n) ∷ digits else more

unfoldable pub limit_exceeded : Text → ℕ → SamlError
limit_exceeded limit max = invalid (
    ascii "ERR_XML_LIMIT_EXCEEDED: "
    ++ (limit ++ (ascii " exceeded (" ++ (decimal_from 20 max [] ++ ascii ")"))))

unfoldable pub check_input_bytes : XmlLimits → ℕ → Result (Unit {0})
check_input_bytes limits len =
    ensure (not (ltb limits.max_bytes len))
      (limit_exceeded (ascii "max XML bytes") limits.max_bytes)

mutual
  -- Local name, attributes, children, direct text, and the byte span in the source.
  pub data Node : Type 0 where
    node : Text → List (Text × Text) → Nodes → Text → ℕ → ℕ → Node

  pub data Nodes : Type 0 where
    no_nodes : Nodes
    nodes : Node → Nodes → Nodes

abbrev pub local_name : Node → Text
local_name (node name attributes inner content first last) = name

abbrev pub attrs : Node → List (Text × Text)
attrs (node name attributes inner content first last) = attributes

abbrev pub children : Node → Nodes
children (node name attributes inner content first last) = inner

abbrev pub text : Node → Text
text (node name attributes inner content first last) = content

abbrev pub start : Node → ℕ
start (node name attributes inner content first last) = first

abbrev pub finish : Node → ℕ
finish (node name attributes inner content first last) = last

unfoldable pub find_attr : List (Text × Text) → Text → Option Text
find_attr [] name = none
find_attr ((key, value) ∷ attributes) name =
    if text_eq key name then some value else find_attr attributes name

-- `Node::attr`
unfoldable pub attr : Node → Text → Option Text
attr n name = find_attr (attrs n) name

-- `children.push(node)`
unfoldable pub push_node : Nodes → Node → Nodes
push_node no_nodes n = nodes n no_nodes
push_node (nodes m ns) n = nodes m (push_node ns n)

-- One attribute as the reader decodes it: local name and value, or an error.
pub data RawAttribute : Type 0 where
  attribute : Text → Text → RawAttribute
  malformed_attribute : Text → RawAttribute

-- A reference as the reader resolves it: a character in UTF-8, or an entity with its name and, if
-- it is predefined, its text; or an error.
pub data Reference : Type 0 where
  character : Text → Reference
  entity : Text → Option Text → Reference
  malformed_reference : Text → Reference

-- `other` stands for declarations, comments and processing instructions but `xml-stylesheet`. The
-- list of events ends where the reader returns `Eof`.
pub data Event : Type 0 where
  start_tag empty_tag : Text → List RawAttribute → Event
  end_tag : Event
  characters c_data : Text → Event
  general_ref : Reference → Event
  doc_type stylesheet other : Event
  malformed : Text → Event

pub record PlacedEvent : Type 0 where
  pub event : Event
  pub before : ℕ
  pub after : ℕ

unfoldable pub checked_node_count : XmlLimits → ℕ → Result ℕ
checked_node_count limits count = do
  ensure (ltb count usize_max) (limit_exceeded (ascii "max XML nodes") limits.max_nodes)
  ensure (leb (count + 1) limits.max_nodes)
      (limit_exceeded (ascii "max XML nodes") limits.max_nodes)
  ok (count + 1)

unfoldable pub check_depth : XmlLimits → ℕ → Result (Unit {0})
check_depth limits depth =
    ensure (leb depth limits.max_depth) (limit_exceeded (ascii "max XML depth") limits.max_depth)

unfoldable pub checked_append_text : XmlLimits → Text → Text → Result Text
checked_append_text limits target added = do
  ensure (leb (length target + length added) usize_max)
      (limit_exceeded (ascii "max XML text bytes") limits.max_text_bytes)
  ensure (leb (length target + length added) limits.max_text_bytes)
      (limit_exceeded (ascii "max XML text bytes") limits.max_text_bytes)
  ok (target ++ added)

-- The loop of `read_attrs`, with the number of attributes that are read already.
unfoldable pub read_attrs_from : XmlLimits → ℕ → List RawAttribute → Result (List (Text × Text))
read_attrs_from limits count [] = ok []
read_attrs_from limits count (malformed_attribute message ∷ raw) = do
  ensure (ltb count limits.max_attributes_per_element)
      (limit_exceeded (ascii "max XML attributes per element") limits.max_attributes_per_element)
  err (xml message)
read_attrs_from limits count (attribute key value ∷ raw) = do
  ensure (ltb count limits.max_attributes_per_element)
      (limit_exceeded (ascii "max XML attributes per element") limits.max_attributes_per_element)
  ensure (leb (length value) limits.max_attribute_value_bytes)
      (limit_exceeded (ascii "max XML attribute value bytes") limits.max_attribute_value_bytes)
  rest ← read_attrs_from limits (count + 1) raw
  ok ((key, value) ∷ rest)

unfoldable pub read_attrs : XmlLimits → List RawAttribute → Result (List (Text × Text))
read_attrs limits raw = read_attrs_from limits 0 raw

abbrev pub offset_or_zero : Option ℕ → ℕ
offset_or_zero none = 0
offset_or_zero (some p) = p

unfoldable pub find_lt : Text → ℕ → ℕ → ℕ
find_lt bytes before after =
    before + offset_or_zero (position b'<' (drop before (take after bytes)))

pub data ParseMode : Type 0 where
  document roots_only : ParseMode

unfoldable pub is_xml_whitespace : Text → Bool
is_xml_whitespace s = all (λ b. b == b' ' || b == 9 || b == 13 || b == 10) s

abbrev pub reject_non_document_content : ParseMode → Result (Unit {0})
reject_non_document_content document =
    err (xml (ascii "content is not allowed outside the document element"))
reject_non_document_content roots_only = ok tt

-- The open elements, innermost first, the closed elements at the top, and the node count.
pub record State : Type 0 where
  pub stack : List Node
  pub roots : Nodes
  pub node_count : ℕ

abbrev pub with_child : Node → Node → Node
with_child (node name attributes inner content first last) n =
    node name attributes (push_node inner n) content first last

abbrev pub with_text : Node → Text → Node
with_text (node name attributes inner content first last) new =
    node name attributes inner new first last

abbrev pub with_end : Node → ℕ → Node
with_end (node name attributes inner content first last) new =
    node name attributes inner content first new

-- `push_child`
abbrev pub push_child : List Node → Nodes → Node → List Node × Nodes
push_child [] roots n = ([], push_node roots n)
push_child (parent ∷ stack) roots n = (with_child parent n ∷ stack, roots)

abbrev pub resolve_reference : Reference → Result Text
resolve_reference (character s) = ok s
resolve_reference (entity name (some s)) = ok s
resolve_reference (entity name none) =
    err (xml (ascii "unrecognized entity `" ++ (name ++ ascii "`")))
resolve_reference (malformed_reference message) = err (xml message)

-- Text for the innermost open element, or else content outside the document element.
abbrev pub append_to_top : XmlLimits → State → Node → List Node → Text → Result State
append_to_top limits s top stack added = do
  joined ← checked_append_text limits (text top) added
  ok (record s { stack = with_text top joined ∷ stack })

abbrev pub on_text : XmlLimits → ParseMode → State → List Node → Bool → Text → Result State
on_text limits mode s (top ∷ stack) ignorable added = append_to_top limits s top stack added
on_text limits mode s [] true added = ok s
on_text limits mode s [] false added = do reject_non_document_content mode; ok s

abbrev pub on_reference : XmlLimits → ParseMode → State → List Node → Reference → Result State
on_reference limits mode s (top ∷ stack) reference = do
  added ← resolve_reference reference
  append_to_top limits s top stack added
on_reference limits mode s [] reference = do reject_non_document_content mode; ok s

abbrev pub on_end : State → List Node → ℕ → State
on_end s [] after = s
on_end s (top ∷ stack) after =
    let (stack', roots') = push_child stack s.roots (with_end top after) in
    record s { stack = stack'; roots = roots' }

abbrev pub open_element :
    XmlLimits → Text → State → ℕ → ℕ → ℕ → Text → List RawAttribute → Result (Node × ℕ)
open_element limits bytes s before after last name raw = do
  count ← checked_node_count limits s.node_count
  check_depth limits (length s.stack + 1)
  attributes ← read_attrs limits raw
  ok (node name attributes no_nodes [] (find_lt bytes before after) last, count)

abbrev pub on_start : State → Node × ℕ → State
on_start s (n, count) = record s { stack = n ∷ s.stack; node_count = count }

abbrev pub on_empty : State → Node × ℕ → State
on_empty s (n, count) =
    let (stack', roots') = push_child s.stack s.roots n in
    record { stack = stack'; roots = roots'; node_count = count }

-- The body of the loop of `parse_roots_inner`.
unfoldable pub handle : XmlLimits → ParseMode → Text → State → Event → ℕ → ℕ → Result State
handle limits mode bytes s (start_tag name raw) before after = do
  opened ← open_element limits bytes s before after 0 name raw
  ok (on_start s opened)
handle limits mode bytes s (empty_tag name raw) before after = do
  opened ← open_element limits bytes s before after after name raw
  ok (on_empty s opened)
handle limits mode bytes s end_tag before after = ok (on_end s s.stack after)
handle limits mode bytes s (characters added) before after =
    on_text limits mode s s.stack (is_xml_whitespace added) added
handle limits mode bytes s (c_data added) before after = on_text limits mode s s.stack false added
handle limits mode bytes s (general_ref reference) before after =
    on_reference limits mode s s.stack reference
handle limits mode bytes s doc_type before after = err (xml (ascii "DOCTYPE is not allowed"))
handle limits mode bytes s stylesheet before after =
    err (xml (ascii "xml-stylesheet processing instructions are not allowed"))
handle limits mode bytes s other before after = ok s
handle limits mode bytes s (malformed message) before after = err (xml message)

unfoldable pub run : XmlLimits → ParseMode → Text → List PlacedEvent → State → Result State
run limits mode bytes [] s = ok s
run limits mode bytes (e ∷ events) s = do
  next ← handle limits mode bytes s e.event e.before e.after
  run limits mode bytes events next

abbrev pub initial_state : State
initial_state = record { stack = []; roots = no_nodes; node_count = 0 }

abbrev pub document_root : Nodes → Result Node
document_root no_nodes = err (xml (ascii "no document element"))
document_root (nodes root no_nodes) = ok root
document_root (nodes root (nodes second rest)) = err (xml (ascii "multiple document elements"))

module _ (read_events : Text → List PlacedEvent) where
  unfoldable pub parse_roots_inner : XmlLimits → ParseMode → Text → Result Nodes
  parse_roots_inner limits mode source = do
    check_input_bytes limits (length source)
    final ← run limits mode source (read_events source) initial_state
    ok final.roots

  unfoldable pub parse_with_limits : XmlLimits → Text → Result Node
  parse_with_limits limits source = do
    roots ← parse_roots_inner limits document source
    document_root roots
