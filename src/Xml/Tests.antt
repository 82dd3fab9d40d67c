-- ===== src/Xml/Tests.antt =====
-- Tests of src/xml/dom.rs and src/xml/extract.rs on small documents.
use opensaml_rs.Prelude.{
  ℕ, ◌≡◌, ◌≤◌, ◌≢◌, refl, Bool, true, false, Option, none, some, List, [], ◌∷◌, Text, ascii, length,
  arith, text_eq, Text,
}
use opensaml_rs.Error.{ok}
use opensaml_rs.Xml.Dom.{
  Node, node, Nodes, no_nodes, nodes, XmlLimits, default_limits, usize_max, parse_with_limits,
  PlacedEvent, Event, doc_type, empty_tag, start_tag, end_tag, characters, attribute, decimal_from,
}
use opensaml_rs.Xml.Dom.Limits.{Within, size}
use opensaml_rs.Xml.Dom.Bounds.{parse_with_limits-Within}
use opensaml_rs.Xml.Dom.Stream.{parse_with_limits-Reads}
use opensaml_rs.Xml.Dom.Events.{Reads, element, nothing, piece, child, done_skipping}
use opensaml_rs.Xml.Dom.Refused.{doc_type_refused, parse_with_limits-IsRefused}
use opensaml_rs.Xml.Extract.{select_path, camel_case}
use opensaml_rs.Xml.Extract.Selection.{walk_path, select_path-walk_path}

-- `<Root a="1"><Second>x</Second></Root>`
abbrev second_node : Node
second_node = node (ascii "Second") [] no_nodes (ascii "x") 12 30

abbrev root_node : Node
root_node = node (ascii "Root") ((ascii "a", ascii "1") ∷ []) (nodes second_node no_nodes) [] 0 37

abbrev root_text : Text
root_text = ascii "<Root a=\"1\"><Second>x</Second></Root>"

abbrev at : Event → ℕ → ℕ → PlacedEvent
at event before after = record { event = event; before = before; after = after }

abbrev second_events : List PlacedEvent → List PlacedEvent
second_events rest =
    at (start_tag (ascii "Second") []) 12 20
    ∷ at (characters (ascii "x")) 20 21
    ∷ at end_tag 21 30
    ∷ rest

abbrev root_events : List PlacedEvent
root_events =
    at (start_tag (ascii "Root") (attribute (ascii "a") (ascii "1") ∷ [])) 0 12
    ∷ second_events (at end_tag 30 37 ∷ [])

abbrev root_reader : Text → List PlacedEvent
root_reader source = root_events

second-Reads : (rest : List PlacedEvent) → Reads root_text second_node (second_events rest) rest
unfolding ascii
second-Reads rest =
    element (ascii "Second") [] 12 12 20 (ascii "x") no_nodes _ 21 30 rest ([], _, refl, tt, refl)
      (piece (at (characters (ascii "x")) 20 21) (ascii "x") [] no_nodes _ _ refl (nothing _))

root-Reads : Reads root_text root_node root_events []
unfolding ascii
root-Reads =
    element (ascii "Root") ((ascii "a", ascii "1") ∷ []) 0 0 12 [] (nodes second_node no_nodes) _ 30
      37 [] ([], _, refl, tt, refl)
      (child second_node [] no_nodes _ _ _ (second-Reads (at end_tag 30 37 ∷ [])) (nothing _))

root_node-Within : Within default_limits 1 root_node
unfolding Within ascii
root_node-Within = (
  omega arith,
  omega arith,
  (omega arith, tt),
  omega arith,
  ((omega arith, omega arith, tt, omega arith, tt), tt),
)

root_size : size root_node ≤ default_limits.max_nodes
unfolding size
root_size = omega arith

root_short : length root_text ≤ default_limits.max_bytes
unfolding ascii
root_short = omega arith

parse_with_limits-Reads_example :
    parse_with_limits root_reader default_limits root_text ≡ ok root_node
parse_with_limits-Reads_example =
    parse_with_limits-Reads default_limits root_reader root_text root_node root_events []
      (omega arith) (omega arith) (done_skipping root_events) root-Reads (done_skipping [])
      root_short root_node-Within root_size

root_parses : parse_with_limits root_reader default_limits root_text ≡ ok root_node
root_parses =
    parse_with_limits-Reads default_limits root_reader root_text root_node root_events []
      (omega arith) (omega arith) (done_skipping root_events) root-Reads (done_skipping [])
      root_short root_node-Within root_size

parse_with_limits-Within_example :
    (length root_text ≤ 1048576) × Within default_limits 1 root_node × (size root_node ≤ 50000)
parse_with_limits-Within_example =
    parse_with_limits-Within default_limits root_reader root_text {root = root_node} root_parses

abbrev placed : Event → PlacedEvent
placed event = record { event = event; before = 0; after = 0 }

abbrev doc_type_reader : Text → List PlacedEvent
doc_type_reader source = placed doc_type ∷ placed (empty_tag (ascii "Root") []) ∷ []

parse_with_limits-IsRefused_example :
    parse_with_limits doc_type_reader default_limits root_text ≢ ok root_node
parse_with_limits-IsRefused_example =
    parse_with_limits-IsRefused default_limits doc_type_reader root_text [] (placed doc_type)
      (placed (empty_tag (ascii "Root") []) ∷ []) root_node refl doc_type_refused

-- `<Root/><Second>`: an element that is still open where the document ends is dropped.
unclosed_reader : Text → List PlacedEvent
unclosed_reader source =
    placed (empty_tag (ascii "Root") []) ∷ placed (start_tag (ascii "Second") []) ∷ []

unclosed :
    parse_with_limits unclosed_reader default_limits (ascii "<Root/><Second>")
    ≡ ok (node (ascii "Root") [] no_nodes [] 0 0)
unfolding unclosed_reader opensaml_rs.Xml.Dom.decimal_from opensaml_rs.Xml.Dom.limit_exceeded
    opensaml_rs.Xml.Dom.check_input_bytes opensaml_rs.Xml.Dom.find_attr opensaml_rs.Xml.Dom.attr
    opensaml_rs.Xml.Dom.push_node opensaml_rs.Xml.Dom.checked_node_count
    opensaml_rs.Xml.Dom.check_depth opensaml_rs.Xml.Dom.checked_append_text
    opensaml_rs.Xml.Dom.read_attrs_from opensaml_rs.Xml.Dom.read_attrs opensaml_rs.Xml.Dom.find_lt
    opensaml_rs.Xml.Dom.is_xml_whitespace opensaml_rs.Xml.Dom.handle opensaml_rs.Xml.Dom.run
    opensaml_rs.Xml.Dom.parse_roots_inner opensaml_rs.Xml.Dom.parse_with_limits
    opensaml_rs.Xml.Extract.seg_matches opensaml_rs.Xml.Extract.next_level
    opensaml_rs.Xml.Extract.levels opensaml_rs.Xml.Extract.select_path
    opensaml_rs.Xml.Extract.descend opensaml_rs.Xml.Extract.aggregate
    opensaml_rs.Xml.Extract.split_words opensaml_rs.Xml.Extract.camel_case
    opensaml_rs.Xml.Extract.slice opensaml_rs.Xml.Extract.extract_field
    opensaml_rs.Xml.Extract.extract_fields opensaml_rs.Xml.Extract.extract_with_limits
    opensaml_rs.Xml.Extract.Fields.login_request_fields
    opensaml_rs.Xml.Extract.Fields.login_response_status_fields
    opensaml_rs.Xml.Extract.Fields.logout_response_status_fields
    opensaml_rs.Xml.Extract.Fields.login_response_fields
    opensaml_rs.Xml.Extract.Fields.logout_request_fields
    opensaml_rs.Xml.Extract.Fields.logout_response_fields opensaml_rs.Prelude.ascii
    opensaml_rs.Prelude.text_eq
unclosed = refl

abbrev path : List Text
path = ascii "Root" ∷ ascii "~econ" ∷ []

selected : select_path root_node path ≡ second_node ∷ []
unfolding opensaml_rs.Xml.Dom.decimal_from opensaml_rs.Xml.Dom.limit_exceeded
    opensaml_rs.Xml.Dom.check_input_bytes opensaml_rs.Xml.Dom.find_attr opensaml_rs.Xml.Dom.attr
    opensaml_rs.Xml.Dom.push_node opensaml_rs.Xml.Dom.checked_node_count
    opensaml_rs.Xml.Dom.check_depth opensaml_rs.Xml.Dom.checked_append_text
    opensaml_rs.Xml.Dom.read_attrs_from opensaml_rs.Xml.Dom.read_attrs opensaml_rs.Xml.Dom.find_lt
    opensaml_rs.Xml.Dom.is_xml_whitespace opensaml_rs.Xml.Dom.handle opensaml_rs.Xml.Dom.run
    opensaml_rs.Xml.Dom.parse_roots_inner opensaml_rs.Xml.Dom.parse_with_limits
    opensaml_rs.Xml.Extract.seg_matches opensaml_rs.Xml.Extract.next_level
    opensaml_rs.Xml.Extract.levels opensaml_rs.Xml.Extract.select_path
    opensaml_rs.Xml.Extract.descend opensaml_rs.Xml.Extract.aggregate
    opensaml_rs.Xml.Extract.split_words opensaml_rs.Xml.Extract.camel_case
    opensaml_rs.Xml.Extract.slice opensaml_rs.Xml.Extract.extract_field
    opensaml_rs.Xml.Extract.extract_fields opensaml_rs.Xml.Extract.extract_with_limits
    opensaml_rs.Xml.Extract.Fields.login_request_fields
    opensaml_rs.Xml.Extract.Fields.login_response_status_fields
    opensaml_rs.Xml.Extract.Fields.logout_response_status_fields
    opensaml_rs.Xml.Extract.Fields.login_response_fields
    opensaml_rs.Xml.Extract.Fields.logout_request_fields
    opensaml_rs.Xml.Extract.Fields.logout_response_fields opensaml_rs.Prelude.ascii
    opensaml_rs.Prelude.text_eq
selected = refl

select_path-walk_path_example : select_path root_node path ≡ walk_path root_node path
select_path-walk_path_example = select_path-walk_path root_node path

camel_cases : camel_case (ascii "AssertionConsumerServiceURL") ≡ ascii "assertionConsumerServiceUrl"
unfolding opensaml_rs.Xml.Dom.decimal_from opensaml_rs.Xml.Dom.limit_exceeded
    opensaml_rs.Xml.Dom.check_input_bytes opensaml_rs.Xml.Dom.find_attr opensaml_rs.Xml.Dom.attr
    opensaml_rs.Xml.Dom.push_node opensaml_rs.Xml.Dom.checked_node_count
    opensaml_rs.Xml.Dom.check_depth opensaml_rs.Xml.Dom.checked_append_text
    opensaml_rs.Xml.Dom.read_attrs_from opensaml_rs.Xml.Dom.read_attrs opensaml_rs.Xml.Dom.find_lt
    opensaml_rs.Xml.Dom.is_xml_whitespace opensaml_rs.Xml.Dom.handle opensaml_rs.Xml.Dom.run
    opensaml_rs.Xml.Dom.parse_roots_inner opensaml_rs.Xml.Dom.parse_with_limits
    opensaml_rs.Xml.Extract.seg_matches opensaml_rs.Xml.Extract.next_level
    opensaml_rs.Xml.Extract.levels opensaml_rs.Xml.Extract.select_path
    opensaml_rs.Xml.Extract.descend opensaml_rs.Xml.Extract.aggregate
    opensaml_rs.Xml.Extract.split_words opensaml_rs.Xml.Extract.camel_case
    opensaml_rs.Xml.Extract.slice opensaml_rs.Xml.Extract.extract_field
    opensaml_rs.Xml.Extract.extract_fields opensaml_rs.Xml.Extract.extract_with_limits
    opensaml_rs.Xml.Extract.Fields.login_request_fields
    opensaml_rs.Xml.Extract.Fields.login_response_status_fields
    opensaml_rs.Xml.Extract.Fields.logout_response_status_fields
    opensaml_rs.Xml.Extract.Fields.login_response_fields
    opensaml_rs.Xml.Extract.Fields.logout_request_fields
    opensaml_rs.Xml.Extract.Fields.logout_response_fields opensaml_rs.Prelude.ascii
    opensaml_rs.Prelude.text_eq
camel_cases = refl

decimals : decimal_from 20 1048576 [] ≡ ascii "1048576"
unfolding decimal_from ascii
decimals = refl
