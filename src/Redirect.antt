-- ===== src/Redirect.antt =====
-- src/binding/redirect.rs: the query strings of the HTTP-Redirect binding. The namespace-aware reader,
-- raw DEFLATE, base64 and the form encoding of the `url` crate are arguments.
pub mod Spans
pub mod Cut
pub mod Removed
pub mod Ends
pub mod Query
pub mod Parts
mod Tests
use opensaml_rs.Prelude.{
  ℕ, zero, suc, ◌+◌, ◌-◌, ◌≡◌, Bool, true, false, ◌&&◌, ◌||◌, not, Option, none, some, List, [],
  ◌∷◌, ◌++◌, Text, ascii, text_eq, all, length, take, drop, position, is_empty, ltb, leb, ◌==◌,
}
use opensaml_rs.Error.{SamlError, xml, protocol_profile, Result, ok, err}
use opensaml_rs.Run.{Run, done, fail, panic, ◌>>=◌, ◌>>◌, lift, require, unwrap}
use opensaml_rs.Validator.{ParserType, saml_request, saml_response, logout_request, logout_response}
use opensaml_rs.Xml.Dom.{XmlLimits, default_limits, usize_max, limit_exceeded, check_input_bytes}
use opensaml_rs.Xml.Extract.{slice}

-- An event of the reader, with the namespace name of an element, and the position after it. The list
-- of events ends at `Eof`.
pub data RedirectEvent : Type 0 where
  start_element empty_element : Option Text → Text → RedirectEvent
  end_element doc_type_event ignored : RedirectEvent
  malformed : Text → RedirectEvent

pub data RedirectTag : Type 0 where
  start_tag empty_tag : Bool → RedirectTag
  end_tag doc_type other : RedirectTag

abbrev pub dsig : Text
dsig = ascii "http://www.w3.org/2000/09/xmldsig#"

abbrev pub bound_to_dsig : Option Text → Bool
bound_to_dsig none = false
bound_to_dsig (some value) = text_eq value dsig

unfoldable pub is_protocol_signature : Option Text → Text → Bool
is_protocol_signature resolved local_name =
    text_eq local_name (ascii "Signature") && bound_to_dsig resolved

unfoldable pub from_event : RedirectEvent → Result RedirectTag
from_event (start_element resolved name) = ok (start_tag (is_protocol_signature resolved name))
from_event (empty_element resolved name) = ok (empty_tag (is_protocol_signature resolved name))
from_event end_element = ok end_tag
from_event doc_type_event = ok doc_type
from_event ignored = ok other
from_event (malformed message) = err (xml message)

unfoldable pub count_element : XmlLimits → ℕ → Run ℕ
count_element limits nodes = do
  require (ltb nodes usize_max) (limit_exceeded (ascii "max XML nodes") limits.max_nodes)
  require (leb (nodes + 1) limits.max_nodes)
      (limit_exceeded (ascii "max XML nodes") limits.max_nodes)
  done (nodes + 1)

unfoldable pub checked_depth : XmlLimits → ℕ → Run ℕ
checked_depth limits depth = do
  require (ltb depth usize_max) (limit_exceeded (ascii "max XML depth") limits.max_depth)
  require (leb (depth + 1) limits.max_depth)
      (limit_exceeded (ascii "max XML depth") limits.max_depth)
  done (depth + 1)

-- `rposition(|byte| *byte == b'<')`, with the last one so far.
unfoldable pub last_lt : Text → ℕ → Option ℕ → Option ℕ
last_lt [] i found = found
last_lt (b ∷ bytes) i found =
    last_lt bytes (i + 1) (elim (b == b'<') [ true ↦ some i | false ↦ found ])

abbrev pub start_or_error : Option ℕ → Run ℕ
start_or_error none = fail (xml (ascii "HTTP-Redirect XML element has no start tag"))
start_or_error (some i) = done i

unfoldable pub element_start : Text → ℕ → Run ℕ
element_start source last = do bytes ← slice source 0 last; start_or_error (last_lt bytes 0 none)

-- The variables of the loop.
pub record Scan : Type 0 where
  pub depth : ℕ
  pub nodes : ℕ
  pub open_signature : Option ℕ
  pub spans : List (ℕ × ℕ)

abbrev pub initial_scan : Scan
initial_scan = record { depth = 0; nodes = 0; open_signature = none; spans = [] }

-- `open_signature = Some(element_start(xml, end)?)`
abbrev pub opened_at : Text → ℕ → Option ℕ → Bool → Run (Option ℕ)
opened_at source last open_signature true = do at ← element_start source last; done (some at)
opened_at source last open_signature false = done open_signature

abbrev pub empty_span : Text → ℕ → List (ℕ × ℕ) → Bool → Run (List (ℕ × ℕ))
empty_span source last spans true = do
  at ← element_start source last
  done (spans ++ (at, last) ∷ [])
empty_span source last spans false = done spans

-- `if let Some(start) = open_signature.take()` where the element that ends is a child of the root.
abbrev pub close_signature : Scan → ℕ → ℕ → Bool → Option ℕ → Scan
close_signature s depth last true (some at) = record s {
  depth = depth;
  open_signature = none;
  spans = s.spans ++ (at, last) ∷ [];
}
close_signature s depth last direct at = record s { depth = depth }

abbrev pub on_end : Scan → ℕ → ℕ → Run Scan
on_end s last zero = fail (xml (ascii "HTTP-Redirect XML ended an element that was not open"))
on_end s last (suc depth) = done (close_signature s depth last (depth == 1) s.open_signature)

-- The body of the loop of `protocol_signature_spans`.
unfoldable pub scan_tag : Text → RedirectTag → ℕ → Scan → Run Scan
scan_tag source doc_type last s = fail (xml (ascii "DOCTYPE is not allowed"))
scan_tag source (start_tag protocol_signature) last s = do
  count ← count_element default_limits s.nodes
  signature ← opened_at source last s.open_signature (s.depth == 1 && protocol_signature)
  deeper ← checked_depth default_limits s.depth
  done (record s { nodes = count; open_signature = signature; depth = deeper })
scan_tag source (empty_tag protocol_signature) last s = do
  count ← count_element default_limits s.nodes
  found ← empty_span source last s.spans (s.depth == 1 && protocol_signature)
  done (record s { nodes = count; spans = found })
scan_tag source end_tag last s = on_end s last s.depth
scan_tag source other last s = done s

unfoldable pub scan : Text → List (RedirectEvent × ℕ) → Scan → Run Scan
scan source [] s = done s
scan source ((event, last) ∷ events) s = do
  tag ← lift (from_event event)
  next ← scan_tag source tag last s
  scan source events next

abbrev pub is_none : Option ℕ → Bool
is_none none = true
is_none (some at) = false

-- The loop of `remove_spans` and the rest after the last span.
unfoldable pub remove_from : Text → ℕ → List (ℕ × ℕ) → Run Text
remove_from source cursor [] = slice source cursor (length source)
remove_from source cursor ((first, last) ∷ spans) = do
  kept ← slice source cursor first
  rest ← remove_from source last spans
  done (kept ++ rest)

unfoldable pub remove_spans : Text → List (ℕ × ℕ) → Run Text
remove_spans source spans = remove_from source 0 spans

abbrev pub detach : Text → Bool → List (ℕ × ℕ) → Run Text
detach source detach_signature [] = done source
detach source false (span ∷ spans) = fail (
    protocol_profile
      (ascii "HTTP-Redirect must remove a protocol XML signature and attach a detached signature"))
detach source true (span ∷ spans) = remove_spans source (span ∷ spans)

-- `split_once('?')` at the position of the question mark.
abbrev pub query_at : Text → Option ℕ → Bool
query_at base_url none = false
query_at base_url (some i) = not (is_empty (drop (suc i) base_url))

unfoldable pub has_query : Text → Bool
has_query base_url = query_at base_url (position b'?' base_url)

abbrev pub separator : Text → ℕ
separator base_url = elim (has_query base_url) [ true ↦ b'&' | false ↦ b'?' ]

-- src/constants.rs: `ParserType::query_param`
unfoldable pub query_param : ParserType → Text
query_param saml_request = ascii "SAMLRequest"
query_param logout_request = ascii "SAMLRequest"
query_param saml_response = ascii "SAMLResponse"
query_param logout_response = ascii "SAMLResponse"
