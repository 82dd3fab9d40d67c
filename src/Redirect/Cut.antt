-- ===== src/Redirect/Cut.antt =====
-- src/binding/redirect.rs: the spans of the protocol signatures are pieces of the message.
use opensaml_rs.Prelude.{
  arith, ℕ, zero, suc, ◌+◌, ◌<◌, ◌≤◌, ◌≡◌, ◌⊎◌, refl, sym, ap, ◌∙◌, subst, Bool, true, false, ◌&&◌,
  Option, none, some, List, [], ◌∷◌, ◌++◌, append_assoc, Text, ascii, length, length-append, take,
  drop, take-append-drop, length-take, inl, inr, ◌==◌, All, Bool-cases, leb, Option-cases,
}
use opensaml_rs.Error.{xml}
use opensaml_rs.Run.{done, lift, bind_done, require}
use opensaml_rs.Xml.Dom.{default_limits, check_input_bytes}
use opensaml_rs.Redirect.Query.{protocol_signature_spans}
use opensaml_rs.Xml.Extract.{slice}
use opensaml_rs.Redirect.{
  RedirectEvent, RedirectTag, start_tag, empty_tag, end_tag, doc_type, other, from_event,
  count_element, checked_depth, last_lt, element_start, Scan, opened_at, empty_span,
  close_signature, on_end, scan_tag, scan, is_none, initial_scan,
}

-- The position is one of an angle bracket.
abbrev pub StartsAt : Text → ℕ → Type 0
StartsAt source at = (before rest : Text) × (source ≡ before ++ b'<' ∷ rest) × (at ≡ length before)

abbrev pub IsSpan : Text → ℕ × ℕ → Type 0
IsSpan source (first, last) = StartsAt source first × (first < last)

last_lt_lem :
    (bytes : Text) (i : ℕ) (found : Option ℕ) {at : ℕ}
    → last_lt bytes i found ≡ some at
    → (found ≡ some at)
      ⊎ ((before rest : Text) × (bytes ≡ before ++ b'<' ∷ rest) × (at ≡ i + length before))
unfolding last_lt
last_lt_lem [] i found h = inl h
last_lt_lem (b ∷ bytes) i found {at = at} h = elim (Bool-cases (b == b'<')) [
  | inl bracket ↦ elim (last_lt_lem bytes (i + 1) (some i) {at = at} (ground (arith, h, bracket))) [
    | inl here ↦ inr ([], bytes, ground (arith, bracket), ground (arith, here))
    | inr (before, rest, made, at) ↦
        inr (b ∷ before, rest, ap (λ t. b ∷ t) made, ground (arith, at))
  ]
  | inr other_byte ↦
      elim (last_lt_lem bytes (i + 1) found {at = at} (ground (arith, h, other_byte))) [
        | inl before ↦ inl before
        | inr (before, rest, made, at) ↦
            inr (b ∷ before, rest, ap (λ t. b ∷ t) made, ground (arith, at))
      ]
]

-- A bracket of the first `last` bytes.
found-IsSpan :
    (source before rest : Text) (last at : ℕ)
    → take last source ≡ before ++ b'<' ∷ rest
    → at ≡ 0 + length before
    → IsSpan source (at, last)
found-IsSpan source before rest last at made here = (
  (
    before,
    rest ++ drop last source,
    sym (take-append-drop last source)
        ∙ ap (λ t. t ++ drop last source) made
        ∙ append_assoc before (b'<' ∷ rest) (drop last source),
    ground (arith, here),
  ),
  omega (arith, here, length-take last source, ap length made, length-append before (b'<' ∷ rest)),
)

element_start-IsSpan :
    (source : Text) (last : ℕ) {at : ℕ}
    → element_start source last ≡ done at
    → IsSpan source (at, last)
unfolding element_start slice
element_start-IsSpan source last {at = at} h = elim (Bool-cases (leb last (length source))) [
  | inr over ↦ absurd (ground (arith, h, over))
  | inl within ↦ elim (Option-cases (last_lt (take last source) 0 none)) [
    | inl missing ↦ absurd (ground (arith, h, within, missing))
    | inr (i, found) ↦
        let same : i ≡ at = ground (arith, h, within, found) in
        elim (last_lt_lem (take last source) 0 none found) [
          | inl bad ↦ absurd (cc bad)
          | inr (before, rest, made, here) ↦
              found-IsSpan source before rest last at made (sym same ∙ here)
        ]
  ]
]

-- The spans that are there, and the start of the one that is open, are pieces of the source.
abbrev IsFound : Text → ℕ → Scan → Type 0
IsFound source last s =
    All (IsSpan source) s.spans × ((at : ℕ) → s.open_signature ≡ some at → IsSpan source (at, last))

-- The positions that the reader reports never go back.
abbrev pub Advances : ℕ → List (RedirectEvent × ℕ) → Type 0
Advances at [] = Unit
Advances at ((e, last) ∷ events) = (at ≤ last) × Advances last events

followed :
    (P : ℕ × ℕ → Type 0) (spans : List (ℕ × ℕ)) (x : ℕ × ℕ)
    → All P spans
    → P x
    → All P (spans ++ x ∷ [])
followed P [] x h p = (p, tt)
followed P (y ∷ spans) x (q, h) p = (q, followed P spans x h p)

longer :
    (source : Text) (at last later : ℕ)
    → last ≤ later
    → IsSpan source (at, last)
    → IsSpan source (at, later)
longer source at last later h (starts, before) = (starts, omega (arith, h, before))

later-IsFound :
    (source : Text) (last later : ℕ) (s : Scan)
    → last ≤ later
    → IsFound source last s
    → IsFound source later s
later-IsFound source last later s h (spans, opened) =
    (spans, λ at is. longer source at last later h (opened at is))

opened_at-IsSpan :
    (source : Text) (last : ℕ) (before : Option ℕ) (b : Bool) {r : Option ℕ} (at : ℕ)
    → ((i : ℕ) → before ≡ some i → IsSpan source (i, last))
    → opened_at source last before b ≡ done r
    → r ≡ some at
    → IsSpan source (at, last)
opened_at-IsSpan source last before true at old h is =
    let (i, found, rest) = bind_done (element_start source last) h in
    let same : i ≡ at = cc (rest, is) in
    subst (λ j. IsSpan source (j, last)) same (element_start-IsSpan source last found)
opened_at-IsSpan source last before false at old h is = old at (cc (h, is))

empty_span-IsSpan :
    (source : Text) (last : ℕ) (spans : List (ℕ × ℕ)) (b : Bool) {r : List (ℕ × ℕ)}
    → All (IsSpan source) spans
    → empty_span source last spans b ≡ done r
    → All (IsSpan source) r
empty_span-IsSpan source last spans true old h =
    let (i, found, rest) = bind_done (element_start source last) h in
    subst (All (IsSpan source)) {x = spans ++ (i, last) ∷ []} (cc rest)
      (followed (IsSpan source) spans (i, last) old (element_start-IsSpan source last found))
empty_span-IsSpan source last spans false old h = subst (All (IsSpan source)) {x = spans} (cc h) old

close_signature-IsFound :
    (source : Text) (s : Scan) (depth last : ℕ) (direct : Bool) (signature : Option ℕ)
    → s.open_signature ≡ signature
    → IsFound source last s
    → IsFound source last (close_signature s depth last direct signature)
close_signature-IsFound source s depth last true (some at) e (spans, opened) =
    (followed (IsSpan source) s.spans (at, last) spans (opened at e), λ i is. absurd (cc is))
close_signature-IsFound source s depth last true none e h = h
close_signature-IsFound source s depth last false none e h = h
close_signature-IsFound source s depth last false (some at) e h = h

on_end-IsFound :
    (source : Text) (s : Scan) (last depth : ℕ) {next : Scan}
    → IsFound source last s
    → on_end s last depth ≡ done next
    → IsFound source last next
on_end-IsFound source s last zero v h = absurd (cc h)
on_end-IsFound source s last (suc depth) {next = next} v h =
    subst (IsFound source last) {x = close_signature s depth last (depth == 1) s.open_signature}
      {y = next} (cc h)
      (close_signature-IsFound source s depth last (depth == 1) s.open_signature refl v)

scan_tag-IsFound :
    (source : Text) (tag : RedirectTag) (last : ℕ) (s : Scan) {next : Scan}
    → IsFound source last s
    → scan_tag source tag last s ≡ done next
    → IsFound source last next
unfolding scan_tag
scan_tag-IsFound source doc_type last s v h = absurd (cc h)
scan_tag-IsFound source (start_tag b) last s {next = next} (spans, opened) h =
    let (count, counted, r1) = bind_done (count_element default_limits s.nodes) h in
    let (signature, found, r2) =
      bind_done (opened_at source last s.open_signature (s.depth == 1 && b)) r1 in
    let (deeper, below, r3) = bind_done (checked_depth default_limits s.depth) r2 in
    subst (IsFound source last)
      {x = record s { nodes = count; open_signature = signature; depth = deeper }} {y = next}
      (cc r3)
      (
        spans,
        λ at is.
            opened_at-IsSpan source last s.open_signature (s.depth == 1 && b) at opened found is,
      )
scan_tag-IsFound source (empty_tag b) last s {next = next} (spans, opened) h =
    let (count, counted, r1) = bind_done (count_element default_limits s.nodes) h in
    let (found, made, r2) = bind_done (empty_span source last s.spans (s.depth == 1 && b)) r1 in
    subst (IsFound source last) {x = record s { nodes = count; spans = found }} {y = next} (cc r2)
      (empty_span-IsSpan source last s.spans (s.depth == 1 && b) spans made, opened)
scan_tag-IsFound source end_tag last s v h = on_end-IsFound source s last s.depth v h
scan_tag-IsFound source other last s {next = next} v h =
    subst (IsFound source last) {x = s} {y = next} (cc h) v

scan-IsFound :
    (source : Text) (events : List (RedirectEvent × ℕ)) (at : ℕ) (s : Scan) {final : Scan}
    → Advances at events
    → IsFound source at s
    → scan source events s ≡ done final
    → All (IsSpan source) final.spans
unfolding scan
scan-IsFound source [] at s {final = final} a (spans, opened) h =
    subst (λ f. All (IsSpan source) f.spans) {x = s} {y = final} (cc h) spans
scan-IsFound source ((event, last) ∷ events) at s (first, a) v h =
    let (tag, read, r1) = bind_done (lift (from_event event)) h in
    let (next, made, r2) = bind_done (scan_tag source tag last s) r1 in
    scan-IsFound source events last next a
      (scan_tag-IsFound source tag last s (later-IsFound source at last s first v) made) r2

-- Each span of a protocol signature is a piece of the source that begins with an angle bracket.
pub protocol_signature_spans-IsSpan :
    (read_ns_events : ℕ → Text → List (RedirectEvent × ℕ)) (source : Text) {spans : List (ℕ × ℕ)}
    → Advances 0 (read_ns_events default_limits.max_attributes_per_element source)
    → protocol_signature_spans read_ns_events source ≡ done spans
    → All (IsSpan source) spans
unfolding protocol_signature_spans
protocol_signature_spans-IsSpan read_ns_events source {spans = spans} a h =
    let events = read_ns_events default_limits.max_attributes_per_element source in
    let (u, short, r1) = bind_done (lift (check_input_bytes default_limits (length source))) h in
    let (final, made, r2) = bind_done (scan source events initial_scan) r1 in
    let (u2, closed, r3) =
      bind_done
        (require (is_none final.open_signature && final.depth == 0)
          (xml (ascii "HTTP-Redirect XML ended before its elements closed")))
        r2 in
    subst (All (IsSpan source)) {x = final.spans} {y = spans} (cc r3) (
      scan-IsFound source events 0 initial_scan {final = final} a (tt, λ at is. absurd (cc is))
        made)
