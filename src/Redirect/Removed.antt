-- ===== src/Redirect/Removed.antt =====
-- src/binding/redirect.rs: what `remove_spans` leaves of a text.
use opensaml_rs.Prelude.{
  arith, ℕ, zero, suc, ◌+◌, ◌-◌, ◌≤◌, ◌≡◌, refl, sym, ap, ◌∙◌, true, ◌&&◌, List, [], ◌∷◌, ◌++◌,
  Text, length, length-append, take, drop, take-append-drop, length-drop, length-take,
  drop-append_self, inl, inr, All, Bool-cases, leb,
}
use opensaml_rs.Run.{done, bind_done}
use opensaml_rs.Xml.Extract.{slice}
use opensaml_rs.Redirect.{remove_from, remove_spans, detach}
use opensaml_rs.Redirect.Cut.{IsSpan}

-- The text `rest`, which stands at `at`, is the message with pieces between that are cut out: one for
-- each span, which begins and ends where the span does, with an angle bracket.
abbrev pub CutOut : ℕ → Text → List (ℕ × ℕ) → Text → Type 0
CutOut at rest [] message = message ≡ rest
CutOut at rest ((first, last) ∷ spans) message =
    (before signature after left : Text) × (rest ≡ before ++ b'<' ∷ (signature ++ after))
    × (first ≡ at + length before)
    × (last ≡ first + suc (length signature))
    × (message ≡ before ++ left)
    × CutOut last after spans left

slice_done :
    (source : Text) (first last : ℕ) {t : Text}
    → slice source first last ≡ done t
    → (first ≤ last) × (last ≤ length source) × (t ≡ drop first (take last source))
unfolding slice
slice_done source first last h = elim (Bool-cases (leb first last && leb last (length source))) [
  | inr out ↦ absurd (ground (arith, out, h))
  | inl within ↦ (ground (arith, within), ground (arith, within), ground (arith, within, h))
]

take_all : (n : ℕ) (s : Text) → length s ≤ n → take n s ≡ s
take_all zero [] h = refl
take_all zero (b ∷ s) h = absurd (omega (arith, h))
take_all (suc n) [] h = refl
take_all (suc n) (b ∷ s) h = ap (λ t. b ∷ t) (take_all n s (omega (arith, h)))

parts_of : (a b : ℕ) (s : Text) → a ≤ b → drop a s ≡ drop a (take b s) ++ drop b s
parts_of zero b s h = sym (take-append-drop b s)
parts_of (suc a) zero s h = absurd (omega (arith, h))
parts_of (suc a) (suc b) [] h = refl
parts_of (suc a) (suc b) (c ∷ s) h = parts_of a b s (omega (arith, h))

length_part : (a b : ℕ) (s : Text) → a ≤ b → b ≤ length s → b ≡ a + length (drop a (take b s))
length_part a b s h k = omega (arith, h, k, length-drop a (take b s), length-take b s)

past :
    (before tail : Text) (c k : ℕ) → drop (length before + suc k) (before ++ c ∷ tail) ≡ drop k tail
past [] tail c k = ap (λ n. drop n (c ∷ tail)) {x = 0 + suc k} {y = suc k} (omega arith)
past (b ∷ before) tail c k =
    ap (λ n. drop n (b ∷ before ++ c ∷ tail)) {x = length (b ∷ before) + suc k}
      {y = suc (length before + suc k)} (omega arith)
    ∙ past before tail c k

cut_here :
    (source before tail : Text) (cursor first last k : ℕ)
    → source ≡ before ++ b'<' ∷ tail
    → first ≡ length before
    → last ≡ first + suc k
    → cursor ≤ first
    → drop cursor source
      ≡ drop cursor (take first source) ++ b'<' ∷ (take k tail ++ drop last source)
cut_here source before tail cursor first last k made at is ordered =
    parts_of cursor first source ordered
    ∙ ap (λ t. drop cursor (take first source) ++ t) {y = b'<' ∷ (take k tail ++ drop last source)}
        (ap (drop first) made
          ∙ ap (λ n. drop n (before ++ b'<' ∷ tail)) at
          ∙ drop-append_self before (b'<' ∷ tail)
          ∙ ap (λ t. b'<' ∷ t)
              (sym (take-append-drop k tail)
                ∙ ap (λ t. take k tail ++ t) {y = drop last source}
                    (sym (past before tail b'<' k)
                      ∙ ap (λ n. drop n (before ++ b'<' ∷ tail)) {y = last} (omega (arith, at, is))
                      ∙ ap (drop last) (sym made))))

pub remove_from-CutOut :
    (source : Text) (cursor : ℕ) (spans : List (ℕ × ℕ)) {message : Text}
    → All (IsSpan source) spans
    → remove_from source cursor spans ≡ done message
    → CutOut cursor (drop cursor source) spans message × (cursor ≤ length source)
unfolding remove_from
remove_from-CutOut source cursor [] h made =
    let (ordered, within, is) = slice_done source cursor (length source) made in
    (is ∙ ap (drop cursor) (take_all (length source) source (omega arith)), ordered)
remove_from-CutOut source cursor ((first, last) ∷ spans) (((before, tail, whole, at), positive), h)
      made =
    let (kept, sliced, r1) = bind_done (slice source cursor first) made in
    let (rest, removed, r2) = bind_done (remove_from source last spans) r1 in
    let (later, last_within) = remove_from-CutOut source last spans h removed in
    let (ordered, within, is) = slice_done source cursor first sliced in
    let k = last - first - 1 in
    let span : last ≡ first + suc k = omega (arith, positive) in
    (
      (
        drop cursor (take first source),
        take k tail,
        drop last source,
        rest,
        cut_here source before tail cursor first last k whole at span ordered,
        length_part cursor first source ordered within,
        omega (
          arith,
          span,
          length-take k tail,
          ap length whole,
          length-append before (b'<' ∷ tail),
          at,
          last_within,
        ),
        sym (cc r2) ∙ ap (λ t. t ++ rest) is,
        later,
      ),
      omega (arith, ordered, within),
    )

pub detach-CutOut :
    (source : Text) (spans : List (ℕ × ℕ)) {message : Text}
    → All (IsSpan source) spans
    → detach source true spans ≡ done message
    → CutOut 0 source spans message
unfolding remove_spans
detach-CutOut source [] h made = cc made
detach-CutOut source (span ∷ spans) h made =
    let (cut, within) = remove_from-CutOut source 0 (span ∷ spans) h made in cut
