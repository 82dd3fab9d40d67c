-- ===== src/Redirect/Ends.antt =====
-- src/binding/redirect.rs: where the spans of the protocol signatures end.
use opensaml_rs.Prelude.{
  arith, ℕ, zero, suc, ◌-◌, ◌≤◌, ◌≡◌, ◌⊎◌, refl, sym, ap, ◌∙◌, subst, Bool, true, false, ◌&&◌,
  Option, none, some, List, [], ◌∷◌, ◌++◌, append-nil, Text, ascii, length, inl, inr, ◌==◌,
}
use opensaml_rs.Error.{xml, ok}
use opensaml_rs.Run.{done, lift, bind_done, lift_done, require, require_done}
use opensaml_rs.Xml.Dom.{default_limits, check_input_bytes}
use opensaml_rs.Redirect.{
  RedirectEvent, start_element, empty_element, end_element, doc_type_event, ignored, malformed,
  RedirectTag, start_tag, empty_tag, end_tag, doc_type, other, is_protocol_signature, from_event,
  count_element, checked_depth, element_start, Scan, initial_scan, opened_at, empty_span,
  close_signature, on_end, scan_tag, scan, is_none,
}
use opensaml_rs.Redirect.Query.{protocol_signature_spans}
use opensaml_rs.Redirect.Spans.{IsScan, counted, checked_depth_lem, depth-cases}

-- Where the element that is open ends, with this many elements open inside it.
unfoldable pub closes_at : ℕ → List (RedirectEvent × ℕ) → ℕ
closes_at nested [] = 0
closes_at nested ((start_element resolved name, last) ∷ events) = closes_at (suc nested) events
closes_at zero ((end_element, last) ∷ events) = last
closes_at (suc nested) ((end_element, last) ∷ events) = closes_at nested events
closes_at nested ((e, last) ∷ events) = closes_at nested events

abbrev first_if : Bool → ℕ → List ℕ
first_if true at = at ∷ []
first_if false at = []

-- The ends of the signatures that are children of the document element.
unfoldable pub direct_ends : ℕ → List (RedirectEvent × ℕ) → List ℕ
direct_ends depth [] = []
direct_ends depth ((start_element resolved name, last) ∷ events) =
    first_if (depth == 1 && is_protocol_signature resolved name) (closes_at 0 events)
    ++ direct_ends (suc depth) events
direct_ends depth ((empty_element resolved name, last) ∷ events) =
    first_if (depth == 1 && is_protocol_signature resolved name) last ++ direct_ends depth events
direct_ends zero ((end_element, last) ∷ events) = direct_ends zero events
direct_ends (suc depth) ((end_element, last) ∷ events) = direct_ends depth events
direct_ends depth ((e, last) ∷ events) = direct_ends depth events

abbrev pub ends : List (ℕ × ℕ) → List ℕ
ends [] = []
ends ((first, last) ∷ spans) = last ∷ ends spans

ends-append :
    (a : List (ℕ × ℕ)) (first last : ℕ) (rest : List ℕ)
    → ends (a ++ (first, last) ∷ []) ++ rest ≡ ends a ++ last ∷ rest
ends-append [] first last rest = refl
ends-append ((f, l) ∷ a) first last rest = ap (λ t. l ∷ t) (ends-append a first last rest)

-- The ends that are there, that of the open signature, and those to come.
abbrev coming : ℕ → Option ℕ → List (RedirectEvent × ℕ) → List ℕ
coming depth none events = direct_ends depth events
coming depth (some at) events = closes_at (depth - 2) events ∷ direct_ends depth events

abbrev total : Scan → List (RedirectEvent × ℕ) → List ℕ
total s events = ends s.spans ++ coming s.depth s.open_signature events

start_coming :
    (source : Text) (last depth : ℕ) (direct : Bool) (open_signature : Option ℕ) {r : Option ℕ}
    (resolved : Option Text) (name : Text) (events : List (RedirectEvent × ℕ))
    → (depth == 1 && is_protocol_signature resolved name) ≡ direct
    → (open_signature ≡ none) ⊎ (2 ≤ depth)
    → opened_at source last open_signature direct ≡ done r
    → coming (suc depth) r events
      ≡ coming depth open_signature ((start_element resolved name, last) ∷ events)
unfolding closes_at direct_ends
start_coming source last depth true none {r = r} resolved name events is v h =
    let (i, found, rest) = bind_done (element_start source last) h in
    let shallow : suc depth - 2 ≡ 0 = ground (arith, is) in
    let whole : r ≡ some i = cc rest in rw (whole, is, shallow) refl
start_coming source last depth true (some at) resolved name events is v h =
    absurd (ground (arith, is, v))
start_coming source last depth false none {r = r} resolved name events is v h =
    let whole : r ≡ none = cc h in rw (whole, is) refl
start_coming source last depth false (some at) {r = r} resolved name events is v h =
    let whole : r ≡ some at = cc h in
    let deep : suc depth - 2 ≡ suc (depth - 2) = ground (arith, v) in rw (whole, is, deep) refl

end_coming :
    (s : Scan) (last depth : ℕ) (direct : Bool) (open_signature : Option ℕ)
    (events : List (RedirectEvent × ℕ))
    → (depth == 1) ≡ direct
    → (open_signature ≡ none) ⊎ (2 ≤ suc depth)
    → s.open_signature ≡ open_signature
    → total (close_signature s depth last direct open_signature) events
      ≡ ends s.spans ++ coming (suc depth) open_signature ((end_element, last) ∷ events)
unfolding closes_at direct_ends
end_coming s last depth true (some at) events is v e =
    let shallow : suc depth - 2 ≡ 0 = ground (arith, is) in
    rw shallow (ends-append s.spans at last (direct_ends depth events))
end_coming s last depth true none events is v e = rw e refl
end_coming s last depth false none events is v e = rw e refl
end_coming s last depth false (some at) events is v e =
    let deep : suc depth - 2 ≡ suc (depth - 2) = ground (arith, is, v) in rw (e, deep) refl

empty_coming :
    (source : Text) (last depth : ℕ) (direct : Bool) (open_signature : Option ℕ)
    (spans : List (ℕ × ℕ)) {r : List (ℕ × ℕ)} (resolved : Option Text) (name : Text)
    (events : List (RedirectEvent × ℕ))
    → (depth == 1 && is_protocol_signature resolved name) ≡ direct
    → (open_signature ≡ none) ⊎ (2 ≤ depth)
    → empty_span source last spans direct ≡ done r
    → ends r ++ coming depth open_signature events
      ≡ ends spans ++ coming depth open_signature ((empty_element resolved name, last) ∷ events)
unfolding closes_at direct_ends
empty_coming source last depth true none spans {r = r} resolved name events is v h =
    let (i, found, rest) = bind_done (element_start source last) h in
    let whole : r ≡ spans ++ (i, last) ∷ [] = cc rest in
    rw (whole, is) (ends-append spans i last (direct_ends depth events))
empty_coming source last depth true (some at) spans resolved name events is v h =
    absurd (ground (arith, is, v))
empty_coming source last depth false none spans {r = r} resolved name events is v h =
    let whole : r ≡ spans = cc h in rw (whole, is) refl
empty_coming source last depth false (some at) spans {r = r} resolved name events is v h =
    let whole : r ≡ spans = cc h in rw (whole, is) refl

ignored_total :
    (depth : ℕ) (open_signature : Option ℕ) (spans : List (ℕ × ℕ)) (last : ℕ)
    (events : List (RedirectEvent × ℕ))
    → ends spans ++ coming depth open_signature events
      ≡ ends spans ++ coming depth open_signature ((ignored, last) ∷ events)
unfolding closes_at direct_ends
ignored_total depth none spans last events = refl
ignored_total depth (some at) spans last events = refl

event_total :
    (source : Text) (e : RedirectEvent) (last : ℕ) (tag : RedirectTag) (s : Scan) {next : Scan}
    (events : List (RedirectEvent × ℕ))
    → IsScan s
    → from_event e ≡ ok tag
    → scan_tag source tag last s ≡ done next
    → total next events ≡ total s ((e, last) ∷ events)
unfolding from_event scan_tag closes_at direct_ends
event_total source (start_element resolved name) last tag s {next = next} events v e h =
    let is : tag ≡ start_tag (is_protocol_signature resolved name) = cc e in
    let direct = s.depth == 1 && is_protocol_signature resolved name in
    let made = subst (λ t. scan_tag source t last s ≡ done next) is h in
    let (count, counted, r1) = bind_done (count_element default_limits s.nodes) made in
    let (signature, found, r2) = bind_done (opened_at source last s.open_signature direct) r1 in
    let (deeper, below, r3) = bind_done (checked_depth default_limits s.depth) r2 in
    let deep : deeper ≡ suc s.depth = checked_depth_lem s.depth below in
    subst (λ n. total n events ≡ total s ((start_element resolved name, last) ∷ events))
      {x = record s { nodes = count; open_signature = signature; depth = deeper }} {y = next}
      (cc r3)
      (ap (λ n. ends s.spans ++ coming n signature events) deep
        ∙ ap (λ t. ends s.spans ++ t)
            (start_coming source last s.depth direct s.open_signature resolved name events refl v
              found))
event_total source (empty_element resolved name) last tag s {next = next} events v e h =
    let is : tag ≡ empty_tag (is_protocol_signature resolved name) = cc e in
    let direct = s.depth == 1 && is_protocol_signature resolved name in
    let made = subst (λ t. scan_tag source t last s ≡ done next) is h in
    let (count, counted, r1) = bind_done (count_element default_limits s.nodes) made in
    let (found, spanned, r2) = bind_done (empty_span source last s.spans direct) r1 in
    subst (λ n. total n events ≡ total s ((empty_element resolved name, last) ∷ events))
      {x = record s { nodes = count; spans = found }} {y = next} (cc r2)
      (empty_coming source last s.depth direct s.open_signature s.spans resolved name events refl v
        spanned)
event_total source end_element last tag s {next = next} events v e h =
    let is : tag ≡ end_tag = cc e in
    let ended = subst (λ t. scan_tag source t last s ≡ done next) is h in
    elim (depth-cases s.depth) [
      | inl outside ↦ absurd (ground (arith, outside, ended))
      | inr (depth, inside) ↦
          let closed : on_end s last (suc depth) ≡ done next =
            subst (λ n. on_end s last n ≡ done next) inside ended in
          subst (λ n. total n events ≡ total s ((end_element, last) ∷ events))
            {x = close_signature s depth last (depth == 1) s.open_signature} {y = next} (cc closed)
            (end_coming s last depth (depth == 1) s.open_signature events refl
                (subst (λ d. (s.open_signature ≡ none) ⊎ (2 ≤ d)) inside v) refl
              ∙ ap (λ d. ends s.spans ++ coming d s.open_signature ((end_element, last) ∷ events))
                  (sym inside))
    ]
event_total source doc_type_event last tag s events v e h =
    let is : tag ≡ doc_type = cc e in absurd (ground (arith, is, h))
event_total source ignored last tag s {next = next} events v e h =
    let is : tag ≡ other = cc e in
    let same : done s ≡ done next = subst (λ t. scan_tag source t last s ≡ done next) is h in
    subst (λ n. total n events ≡ total s ((ignored, last) ∷ events)) {x = s} {y = next} (cc same)
      (ignored_total s.depth s.open_signature s.spans last events)
event_total source (malformed message) last tag s events v e h = absurd (cc e)

scan-total :
    (source : Text) (events : List (RedirectEvent × ℕ)) (s : Scan) {final : Scan}
    → IsScan s
    → scan source events s ≡ done final
    → total final [] ≡ total s events
unfolding scan closes_at direct_ends
scan-total source [] s {final = final} v h =
    let same : s ≡ final = cc h in ap (λ f. total f []) (sym same)
scan-total source ((event, last) ∷ events) s v h =
    let (tag, read, r1) = bind_done (lift (from_event event)) h in
    let (next, made, r2) = bind_done (scan_tag source tag last s) r1 in
    let e = lift_done (from_event event) read in
    let (depth, added, (valid, deep, sum), direct) =
      counted source event last tag s {next = next} events v e made in
    scan-total source events next valid r2 ∙ event_total source event last tag s events v e made

closed_total :
    (spans : List (ℕ × ℕ)) (depth : ℕ) (open_signature : Option ℕ)
    → open_signature ≡ none
    → ends spans ++ coming depth open_signature [] ≡ ends spans
unfolding direct_ends
closed_total spans depth none e = append-nil (ends spans)
closed_total spans depth (some at) e = absurd (cc e)

-- The spans of the protocol signatures end where the reader reports the ends of the signatures that
-- are children of the document element, in this order.
pub protocol_signature_spans-direct_ends :
    (read_ns_events : ℕ → Text → List (RedirectEvent × ℕ)) (source : Text) {spans : List (ℕ × ℕ)}
    → protocol_signature_spans read_ns_events source ≡ done spans
    → ends spans ≡ direct_ends 0 (read_ns_events default_limits.max_attributes_per_element source)
unfolding protocol_signature_spans
protocol_signature_spans-direct_ends read_ns_events source {spans = spans} h =
    let events = read_ns_events default_limits.max_attributes_per_element source in
    let (u, short, r1) = bind_done (lift (check_input_bytes default_limits (length source))) h in
    let (final, made, r2) = bind_done (scan source events initial_scan) r1 in
    let (u2, closed, r3) =
      bind_done
        (require (is_none final.open_signature && final.depth == 0)
          (xml (ascii "HTTP-Redirect XML ended before its elements closed")))
        r2 in
    let nothing_open : final.open_signature ≡ none = ground (arith, require_done _ _ closed) in
    subst (λ l. ends l ≡ direct_ends 0 events) {x = final.spans} {y = spans} (cc r3)
      (sym (closed_total final.spans final.depth final.open_signature nothing_open)
        ∙ scan-total source events initial_scan {final = final} (inl refl) made)
