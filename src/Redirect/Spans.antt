-- ===== src/Redirect/Spans.antt =====
-- src/binding/redirect.rs: the protocol signatures that are found in a message.
use opensaml_rs.Prelude.{
  arith, ℕ, zero, suc, ◌+◌, ◌≤◌, ◌≡◌, ◌⊎◌, refl, sym, ap, ◌∙◌, subst, Bool, true, false, ◌&&◌,
  Option, none, some, List, [], ◌∷◌, ◌++◌, Text, ascii, length, length-append, inl, inr, ◌==◌,
}
use opensaml_rs.Error.{xml, ok}
use opensaml_rs.Run.{done, lift, bind_done, lift_done, require, require_done}
use opensaml_rs.Xml.Dom.{default_limits, check_input_bytes}
use opensaml_rs.Redirect.{
  RedirectEvent, start_element, empty_element, end_element, doc_type_event, ignored, malformed,
  RedirectTag, start_tag, empty_tag, end_tag, doc_type, other, is_protocol_signature, from_event,
  count_element, checked_depth, element_start, Scan, initial_scan, opened_at, empty_span,
  close_signature, on_end, scan_tag, scan, is_none, detach,
}
use opensaml_rs.Redirect.Query.{protocol_signature_spans, redirect_message_xml}

abbrev one_if : Bool → ℕ
one_if true = 1
one_if false = 0

-- How many of the elements that are reported are children of the document element, by the depth
-- before the first event, and are signatures.
unfoldable pub direct_signatures : ℕ → List (RedirectEvent × ℕ) → ℕ
direct_signatures depth [] = 0
direct_signatures depth ((start_element resolved name, last) ∷ events) =
    one_if (depth == 1 && is_protocol_signature resolved name)
    + direct_signatures (suc depth) events
direct_signatures depth ((empty_element resolved name, last) ∷ events) =
    one_if (depth == 1 && is_protocol_signature resolved name) + direct_signatures depth events
direct_signatures zero ((end_element, last) ∷ events) = direct_signatures zero events
direct_signatures (suc depth) ((end_element, last) ∷ events) = direct_signatures depth events
direct_signatures depth ((e, last) ∷ events) = direct_signatures depth events

abbrev pub pending : Option ℕ → ℕ
pending none = 0
pending (some at) = 1

-- A signature that is open is below the document element.
abbrev pub IsScan : Scan → Type 0
IsScan s = (s.open_signature ≡ none) ⊎ (2 ≤ s.depth)

-- What one event adds to the spans that are there and the one that is open.
abbrev pub Counts : Scan → Scan → ℕ → ℕ → Type 0
Counts s next depth added =
    IsScan next
    × (next.depth ≡ depth)
    × (length next.spans + pending next.open_signature
        ≡ length s.spans + pending s.open_signature + added)

pub checked_depth_lem :
    (depth : ℕ) {deeper : ℕ} → checked_depth default_limits depth ≡ done deeper → deeper ≡ suc depth
unfolding checked_depth
checked_depth_lem depth h = ground (arith, h)

opened_at_lem :
    (source : Text) (last : ℕ) (open_signature : Option ℕ) (b : Bool) {r : Option ℕ}
    → opened_at source last open_signature b ≡ done r
    → ((b ≡ true) × (pending r ≡ 1)) ⊎ ((b ≡ false) × (r ≡ open_signature))
opened_at_lem source last open_signature true h =
    let (at, found, rest) = bind_done (element_start source last) h in
    inl (refl, ground (arith, rest))
opened_at_lem source last open_signature false h = inr (refl, ground (arith, h))

start_lem :
    (source : Text) (last : ℕ) (b : Bool) (s : Scan) {next : Scan}
    → IsScan s
    → scan_tag source (start_tag b) last s ≡ done next
    → Counts s next (suc s.depth) (one_if (s.depth == 1 && b))
unfolding scan_tag count_element checked_depth
start_lem source last b s {next = next} v h =
    let (count, counted, r1) = bind_done (count_element default_limits s.nodes) h in
    let (signature, found, r2) =
      bind_done (opened_at source last s.open_signature (s.depth == 1 && b)) r1 in
    let (deeper, below, r3) = bind_done (checked_depth default_limits s.depth) r2 in
    let deep : deeper ≡ suc s.depth = checked_depth_lem s.depth below in
    elim (opened_at_lem source last s.open_signature (s.depth == 1 && b) found) [
      | inl (direct, one) ↦
          let shallow : s.depth ≡ 1 = ground (arith, direct) in
          let nothing_open : s.open_signature ≡ none = ground (arith, v, shallow) in
          (
            inr (ground (arith, r3, deep, shallow)),
            ground (arith, r3, deep),
            ground (arith, r3, direct, one, nothing_open),
          )
      | inr (indirect, kept) ↦ (
        elim v [
          | inl closed ↦ inl (ground (arith, r3, kept, closed))
          | inr inside ↦ inr (ground (arith, r3, deep, inside))
        ],
        ground (arith, r3, deep),
        ground (arith, r3, indirect, kept),
      )
    ]

empty_span_lem :
    (source : Text) (last : ℕ) (spans : List (ℕ × ℕ)) (b : Bool) {r : List (ℕ × ℕ)}
    → empty_span source last spans b ≡ done r
    → length r ≡ length spans + one_if b
empty_span_lem source last spans true h =
    let (at, found, rest) = bind_done (element_start source last) h in
    let made : spans ++ (at, last) ∷ [] ≡ _ = ground (arith, rest) in
    sym (ap length made) ∙ length-append spans ((at, last) ∷ [])
empty_span_lem source last spans false h = ground (arith, h)

empty_lem :
    (source : Text) (last : ℕ) (b : Bool) (s : Scan) {next : Scan}
    → IsScan s
    → scan_tag source (empty_tag b) last s ≡ done next
    → Counts s next s.depth (one_if (s.depth == 1 && b))
unfolding scan_tag
empty_lem source last b s v h =
    let (count, counted, r1) = bind_done (count_element default_limits s.nodes) h in
    let (found, made, r2) = bind_done (empty_span source last s.spans (s.depth == 1 && b)) r1 in
    let more = empty_span_lem source last s.spans (s.depth == 1 && b) made in
    (
      elim v [
        | inl closed ↦ inl (ground (arith, r2, closed))
        | inr inside ↦ inr (ground (arith, r2, inside))
      ],
      ground (arith, r2),
      ground (arith, r2, more),
    )

close_lem :
    (s : Scan) (last depth : ℕ) (direct : Bool) (signature : Option ℕ)
    → s.open_signature ≡ signature
    → (depth == 1) ≡ direct
    → (signature ≡ none) ⊎ (2 ≤ suc depth)
    → Counts s (close_signature s depth last direct signature) depth 0
close_lem s last depth true (some at) e d v =
    (inl refl, refl, rw (length-append s.spans ((at, last) ∷ [])) (ground (arith, e)))
close_lem s last depth true none e d v = (inl e, refl, ground (arith, e))
close_lem s last depth false none e d v = (inl e, refl, ground (arith, e))
close_lem s last depth false (some at) e d v = (inr (ground (arith, d, v)), refl, ground (arith, e))

end_lem :
    (source : Text) (last depth : ℕ) (s : Scan) {next : Scan}
    → IsScan s
    → s.depth ≡ suc depth
    → scan_tag source end_tag last s ≡ done next
    → Counts s next depth 0
unfolding scan_tag
end_lem source last depth s {next = next} v d h =
    let closed : on_end s last (suc depth) ≡ done next =
      subst (λ n. on_end s last n ≡ done next) d h in
    let whole : close_signature s depth last (depth == 1) s.open_signature ≡ next = cc closed in
    subst (λ n. Counts s n depth 0) whole
      (close_lem s last depth (depth == 1) s.open_signature refl refl
        (elim v [ inl none_open ↦ inl none_open | inr inside ↦ inr (ground (arith, d, inside)) ]))

pub depth-cases : (n : ℕ) → (n ≡ 0) ⊎ ((d : ℕ) × (n ≡ suc d))
depth-cases zero = inl refl
depth-cases (suc d) = inr (d, refl)

same_lem : (s : Scan) {next : Scan} → IsScan s → done s ≡ done next → Counts s next s.depth 0
same_lem s {next = next} v h =
    let same : s ≡ next = cc h in subst (λ n. Counts s n s.depth 0) same (v, refl, omega arith)

-- What an event adds, and the depth after it.
pub counted :
    (source : Text) (e : RedirectEvent) (last : ℕ) (tag : RedirectTag) (s : Scan) {next : Scan}
    (events : List (RedirectEvent × ℕ))
    → IsScan s
    → from_event e ≡ ok tag
    → scan_tag source tag last s ≡ done next
    → (depth added : ℕ) × Counts s next depth added
      × (direct_signatures s.depth ((e, last) ∷ events) ≡ added + direct_signatures depth events)
unfolding from_event direct_signatures scan_tag
counted source (start_element resolved name) last tag s {next = next} events v e h =
    let is : tag ≡ start_tag (is_protocol_signature resolved name) = cc e in
    (
      suc s.depth,
      _,
      start_lem source last (is_protocol_signature resolved name) s {next = next} v
          (subst (λ t. scan_tag source t last s ≡ done next) is h),
      refl,
    )
counted source (empty_element resolved name) last tag s {next = next} events v e h =
    let is : tag ≡ empty_tag (is_protocol_signature resolved name) = cc e in
    (
      s.depth,
      _,
      empty_lem source last (is_protocol_signature resolved name) s {next = next} v
          (subst (λ t. scan_tag source t last s ≡ done next) is h),
      refl,
    )
counted source end_element last tag s {next = next} events v e h =
    let is : tag ≡ end_tag = cc e in
    let ended = subst (λ t. scan_tag source t last s ≡ done next) is h in
    elim (depth-cases s.depth) [
      | inl outside ↦ absurd (ground (arith, outside, ended))
      | inr (depth, inside) ↦ (
        depth,
        0,
        end_lem source last depth s {next = next} v inside ended,
        omega (arith, ap (λ n. direct_signatures n ((end_element, last) ∷ events)) inside),
      )
    ]
counted source doc_type_event last tag s events v e h =
    let is : tag ≡ doc_type = cc e in absurd (ground (arith, is, h))
counted source ignored last tag s {next = next} events v e h =
    let is : tag ≡ other = cc e in
    (
      s.depth,
      0,
      same_lem s {next = next} v (subst (λ t. scan_tag source t last s ≡ done next) is h),
      omega arith,
    )
counted source (malformed message) last tag s events v e h = absurd (cc e)

rest_sum :
    (s next : Scan) (depth added : ℕ) (events : List (RedirectEvent × ℕ)) (whole : ℕ) {total : ℕ}
    → next.depth ≡ depth
    → length next.spans + pending next.open_signature
      ≡ length s.spans + pending s.open_signature + added
    → whole ≡ added + direct_signatures depth events
    → total ≡ length next.spans + pending next.open_signature + direct_signatures next.depth events
    → total ≡ length s.spans + pending s.open_signature + whole
rest_sum s next depth added events whole deep sum direct rest =
    omega (arith, sum, direct, rest, ap (λ d. direct_signatures d events) deep)

scan_lem :
    (source : Text) (events : List (RedirectEvent × ℕ)) (s : Scan) {final : Scan}
    → IsScan s
    → scan source events s ≡ done final
    → length final.spans + pending final.open_signature
      ≡ length s.spans + pending s.open_signature + direct_signatures s.depth events
unfolding scan direct_signatures
scan_lem source [] s {final = final} v h =
    let same : s ≡ final = cc h in
    subst
      (λ f.
        length f.spans + pending f.open_signature ≡ length s.spans + pending s.open_signature + 0)
      same (omega arith)
scan_lem source ((event, last) ∷ events) s v h =
    let (tag, read, r1) = bind_done (lift (from_event event)) h in
    let (next, made, r2) = bind_done (scan_tag source tag last s) r1 in
    let (depth, added, (valid, deep, sum), direct) =
      counted source event last tag s {next = next} events v (lift_done (from_event event) read)
        made in
    let rest = scan_lem source events next valid r2 in
    rest_sum s next depth added events _ deep sum direct rest

module _ (read_ns_events : ℕ → Text → List (RedirectEvent × ℕ)) where
  -- As many spans are found as the reader reports signatures that are children of the document
  -- element; those that are nested deeper are not counted.
  pub protocol_signature_spans-direct_signatures :
      (source : Text) {spans : List (ℕ × ℕ)}
      → protocol_signature_spans read_ns_events source ≡ done spans
      → length spans
        ≡ direct_signatures 0 (read_ns_events default_limits.max_attributes_per_element source)
  unfolding protocol_signature_spans
  protocol_signature_spans-direct_signatures source {spans = spans} h =
      let (u, short, r1) = bind_done (lift (check_input_bytes default_limits (length source))) h in
      let (final, made, r2) =
        bind_done
          (scan source (read_ns_events default_limits.max_attributes_per_element source)
            initial_scan)
          r1 in
      let (u2, closed, r3) =
        bind_done
          (require (is_none final.open_signature && final.depth == 0)
            (xml (ascii "HTTP-Redirect XML ended before its elements closed")))
          r2 in
      let sum =
        scan_lem source (read_ns_events default_limits.max_attributes_per_element source)
          initial_scan (inl refl) made in
      let nothing_open : final.open_signature ≡ none = ground (arith, require_done _ _ closed) in
      let whole : final.spans ≡ spans = cc r3 in ground (arith, sum, nothing_open, whole)

  detach_lem :
      (source : Text) (spans : List (ℕ × ℕ)) {message : Text}
      → detach source false spans ≡ done message
      → (message ≡ source) × (length spans ≡ 0)
  detach_lem source [] h = (cc h, refl)
  detach_lem source (span ∷ spans) h = absurd (cc h)

  -- A message that is sent without a detached signature is sent as it is, and the reader reports no
  -- signature that is a child of its document element.
  pub redirect_message_xml-unsigned :
      (source : Text) {message : Text}
      → redirect_message_xml read_ns_events source false ≡ done message
      → (message ≡ source)
        × (direct_signatures 0 (read_ns_events default_limits.max_attributes_per_element source)
            ≡ 0)
  unfolding redirect_message_xml
  redirect_message_xml-unsigned source h =
      let (spans, found, rest) = bind_done (protocol_signature_spans read_ns_events source) h in
      let (same, none_found) = detach_lem source spans rest in
      (same, sym (protocol_signature_spans-direct_signatures source found) ∙ none_found)
