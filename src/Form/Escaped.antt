-- ===== src/Form/Escaped.antt =====
-- src/binding/escape.rs: the replacements one after another are one pass over the text.
use opensaml_rs.Prelude.{
  arith, ℕ, ◌≡◌, refl, ap, ◌∙◌, Bool, true, false, ◌||◌, [], ◌∷◌, ◌++◌, append_assoc, Text, ascii,
  any, Bool-cases, inl, inr, ◌==◌,
}
use opensaml_rs.Form.{replace, html_escape}

-- The text that stands for one character in HTML.
unfoldable pub html_entity : ℕ → Text
html_entity b = elim (b == 38) [
  | true ↦ ascii "&amp;"
  | false ↦ elim (b == 60) [
    | true ↦ ascii "&lt;"
    | false ↦ elim (b == 62) [
      | true ↦ ascii "&gt;"
      | false ↦ elim (b == 34) [
        | true ↦ ascii "&quot;"
        | false ↦ elim (b == 39) [ true ↦ ascii "&#39;" | false ↦ b ∷ [] ]
      ]
    ]
  ]
]

unfoldable pub html_entities : Text → Text
html_entities [] = []
html_entities (b ∷ s) = html_entity b ++ html_entities s

replace-append : (c : ℕ) (by a b : Text) → replace c by (a ++ b) ≡ replace c by a ++ replace c by b
unfolding replace
replace-append c by [] b = refl
replace-append c by (x ∷ a) b = elim (Bool-cases (x == c)) [
  | inl hit ↦
      ground
        (arith, hit, replace-append c by a b, append_assoc by (replace c by a) (replace c by b))
  | inr miss ↦ ground (arith, miss, replace-append c by a b)
]

html_escape-append : (a b : Text) → html_escape (a ++ b) ≡ html_escape a ++ html_escape b
unfolding html_escape
html_escape-append a b =
    rw
      (
        replace-append 38 (ascii "&amp;") a b,
        replace-append 60 (ascii "&lt;") _ _,
        replace-append 62 (ascii "&gt;") _ _,
        replace-append 34 (ascii "&quot;") _ _,
        replace-append 39 (ascii "&#39;") _ _,
      )
      refl

html_escape_one : (b : ℕ) → html_escape (b ∷ []) ≡ html_entity b
unfolding html_escape html_entity replace ascii
html_escape_one b = ground arith

-- The characters that could end an attribute's value or open a tag.
abbrev pub is_markup : ℕ → Bool
is_markup b = b == 60 || b == 62 || b == 34 || b == 39

any_append :
    (a b : Text)
    → any is_markup a ≡ false
    → any is_markup b ≡ false
    → any is_markup (a ++ b) ≡ false
any_append [] b h k = k
any_append (x ∷ a) b h k = ground (arith, h, any_append a b (ground (arith, h)) k)

html_entity_plain : (b : ℕ) → any is_markup (html_entity b) ≡ false
unfolding html_entity ascii
html_entity_plain b = ground arith

html_entities_plain : (s : Text) → any is_markup (html_entities s) ≡ false
unfolding html_entities
html_entities_plain [] = refl
html_entities_plain (b ∷ s) =
    any_append (html_entity b) (html_entities s) (html_entity_plain b) (html_entities_plain s)

html_escape_each : (s : Text) → html_escape s ≡ html_entities s
unfolding html_entities html_escape replace
html_escape_each [] = refl
html_escape_each (b ∷ s) =
    html_escape-append (b ∷ []) s ∙ rw (html_escape_one b, html_escape_each s) refl

-- The five replacements put, for every character, its own entity in one pass, so that no ampersand of
-- an entity is escaped again; and the result has no quote and no angle bracket.
pub html_escape-html_entities :
    (s : Text) → (html_escape s ≡ html_entities s) × (any is_markup (html_escape s) ≡ false)
html_escape-html_entities s =
    (html_escape_each s, ap (any is_markup) (html_escape_each s) ∙ html_entities_plain s)
