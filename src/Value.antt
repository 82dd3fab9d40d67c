-- ===== src/Value.antt =====
-- src/util.rs: the value tree that the XML extractor returns, and the collection helpers.
pub mod Objects
pub mod Collections
mod Tests
use opensaml_rs.Prelude.{
  ℕ, ◌≡◌, Bool, true, false, ◌&&◌, not, Option, none, some, List, [], ◌∷◌, Text, text_eq, split,
  all, is_empty, contains_text, if◌then◌else◌, ◌++◌,
}

mutual
  pub data Value : Type 0 where
    null : Value
    str : Text → Value
    array : Values → Value
    object : Entries → Value

  pub data Values : Type 0 where
    nil : Values
    cons : Value → Values → Values

  pub data Entries : Type 0 where
    end : Entries
    entry : Text → Value → Entries → Entries

-- `entries.iter().find(|(k, _)| k == key)`
unfoldable pub lookup : Text → Entries → Option Value
lookup key end = none
lookup key (entry k v es) = elim (text_eq k key) [ true ↦ some v | false ↦ lookup key es ]

unfoldable pub get_key : Value → Text → Option Value
get_key (object es) key = lookup key es
get_key _ key = none

-- The loop of `get`.
unfoldable pub walk : Value → List Text → Option Value
walk current [] = some current
walk current (segment ∷ segments) = elim (get_key current segment) [
  | none ↦ none
  | some next ↦ walk next segments
]

unfoldable pub get : Value → Text → Option Value
get value path = walk value (split b'.' path)

abbrev pub as_str : Value → Option Text
as_str (str s) = some s
as_str _ = none

unfoldable pub get_str : Value → Text → Option Text
get_str value path = elim (get value path) [ none ↦ none | some v ↦ as_str v ]

unfoldable pub set_entry : Text → Value → Entries → Entries
set_entry key v end = entry key v end
set_entry key v (entry k w es) = elim (text_eq k key) [
  | true ↦ entry k v es
  | false ↦ entry k w (set_entry key v es)
]

unfoldable pub insert : Value → Text → Value → Value
insert (object es) key v = object (set_entry key v es)
insert other key v = other

unfoldable pub push : Values → Value → Values
push nil v = cons v nil
push (cons w ws) v = cons w (push ws v)

-- What `zip_object` makes of a slot that has a value already.
abbrev pub aggregate : Value → Value → Value
aggregate (array items) v = array (push items v)
aggregate existing v = array (cons existing (cons v nil))

unfoldable pub aggregate_entry : Text → Value → Entries → Entries
aggregate_entry key v end = entry key v end
aggregate_entry key v (entry k w es) = elim (text_eq k key) [
  | true ↦ entry k (aggregate w v) es
  | false ↦ entry k w (aggregate_entry key v es)
]

-- The loop of `zip_object` over the keys and the values, up to the shorter of the two.
unfoldable pub zip_entries : Bool → List Text → List Value → Entries → Entries
zip_entries skip [] values out = out
zip_entries skip (key ∷ keys) [] out = out
zip_entries skip (key ∷ keys) (v ∷ values) out =
    zip_entries skip keys values (if skip then set_entry key v out else aggregate_entry key v out)

unfoldable pub zip_object : List Text → List Value → Bool → Value
zip_object keys values skip_duplicated = object (zip_entries skip_duplicated keys values end)

unfoldable pub verify_fields : List Text → Text → Bool
verify_fields field meta_field = not (is_empty field) && all (λ f. text_eq f meta_field) field

-- The loop of `uniq`.
unfoldable pub uniq_from : List Text → List Text → List Text
uniq_from seen [] = seen
uniq_from seen (s ∷ items) = uniq_from (if contains_text seen s then seen else seen ++ s ∷ []) items

unfoldable pub uniq : List Text → List Text
uniq items = uniq_from [] items
