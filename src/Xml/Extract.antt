-- ===== src/Xml/Extract.antt =====
-- src/xml/extract.rs: the fields that are read from a document's tree; src/util.rs: `camel_case`,
-- on the ASCII names that the field sets have. A slice of the source panics where its bounds are out
-- of order or past the end.
pub mod Selection
pub mod Fields
use opensaml_rs.Prelude.{
  ℕ, ◌+◌, ◌-◌, Bool, true, false, ◌&&◌, ◌||◌, not, Option, none, some, List, [], ◌∷◌, ◌++◌, map,
  Text, text_eq, length, take, drop, is_empty, starts_with, leb, ◌==◌, if◌then◌else◌,
}
use opensaml_rs.Error.{Result}
use opensaml_rs.Run.{Run, done, panic, ◌>>=◌, lift}
use opensaml_rs.Value.{
  Value, null, str, array, object, Values, nil, cons, Entries, end, entry, zip_object, uniq,
}
use opensaml_rs.Xml.Dom.{
  XmlLimits, Node, Nodes, no_nodes, nodes, local_name, children, text, attr, start, finish,
  PlacedEvent, parse_with_limits,
}

pub data LocalPath : Type 0 where
  single : List Text → LocalPath
  multi : List (List Text) → LocalPath

pub record ExtractorField : Type 0 where
  pub key : Text
  pub local_path : LocalPath
  pub attributes : List Text
  pub index : Option (List Text)
  pub attribute_path : Option (List Text)
  pub context : Bool
  pub shortcut : Option Text

-- `str::contains`
abbrev pub has_infix : Text → Text → Bool
has_infix [] sub = is_empty sub
has_infix (c ∷ s) sub = starts_with (c ∷ s) sub || has_infix s sub

unfoldable pub seg_matches : Text → Text → Bool
seg_matches local [] = text_eq local []
seg_matches local (c ∷ sub) = if c == b'~' then has_infix local sub else text_eq local (c ∷ sub)

-- `filter(|c| seg_matches(&c.local_name, seg))` on the children of one node.
abbrev pub matching : Text → Nodes → List Node
matching seg no_nodes = []
matching seg (nodes n ns) = elim (seg_matches (local_name n) seg) [
  | true ↦ n ∷ matching seg ns
  | false ↦ matching seg ns
]

-- One step of the loops of `select_path` and `descend`.
unfoldable pub next_level : Text → List Node → List Node
next_level seg [] = []
next_level seg (n ∷ current) = matching seg (children n) ++ next_level seg current

unfoldable pub levels : List Text → List Node → List Node
levels [] current = current
levels (seg ∷ rest) current = levels rest (next_level seg current)

unfoldable pub select_path : Node → List Text → List Node
select_path root [] = []
select_path root (first ∷ rest) =
    if seg_matches (local_name root) first then levels rest (root ∷ []) else []

unfoldable pub descend : Node → List Text → List Node
descend n names = levels names (n ∷ [])

abbrev pub values_of : List Value → Values
values_of [] = nil
values_of (v ∷ vs) = cons v (values_of vs)

abbrev pub one_or_array : List Value → Value
one_or_array (v ∷ []) = v
one_or_array vs = array (values_of vs)

abbrev pub or_empty : Option Text → Text
or_empty none = []
or_empty (some s) = s

-- `filter_map(|n| n.attr(name))`
abbrev pub attr_values : Text → List Node → List Text
attr_values name [] = []
attr_values name (n ∷ ns) = elim (attr n name) [
  | none ↦ attr_values name ns
  | some v ↦ v ∷ attr_values name ns
]

abbrev pub first_or_default : List Text → Text
first_or_default [] = []
first_or_default (s ∷ items) = s

abbrev pub target_values : List Text → List Node → List Value
target_values [] targets = map (λ n. str (text n)) targets
target_values (name ∷ names) targets = map str (attr_values name targets)

unfoldable pub aggregate : List Node → List Text → List Text → List Text → Value
aggregate found index attribute_path attributes =
    zip_object (map (λ n. or_empty (attr n (first_or_default index))) found)
      (map (λ n. one_or_array (target_values attributes (descend n attribute_path))) found) false

-- `camel_case`
abbrev pub is_separator : ℕ → Bool
is_separator c = c == b'-' || c == b'_' || c == b' ' || c == b'.' || c == b'/' || c == b':'

abbrev pub is_lowercase : ℕ → Bool
is_lowercase c = leb b'a' c && leb c b'z'

abbrev pub is_uppercase : ℕ → Bool
is_uppercase c = leb b'A' c && leb c b'Z'

abbrev pub starts_lowercase : Text → Bool
starts_lowercase [] = false
starts_lowercase (c ∷ rest) = is_lowercase c

abbrev pub close_word : Text → List Text → List Text
close_word [] words = words
close_word (c ∷ cur) words = (c ∷ cur) ∷ words

abbrev pub is_word_start : ℕ → ℕ → Text → Bool
is_word_start prev c rest =
    is_lowercase prev && is_uppercase c
    || is_uppercase prev && is_uppercase c && starts_lowercase rest

-- The loop over the characters, with the one before and the word so far.
unfoldable pub split_words : ℕ → Text → Text → List Text
split_words prev cur [] = close_word cur []
split_words prev cur (c ∷ rest) = elim (is_separator c) [
  | true ↦ close_word cur (split_words c [] rest)
  | false ↦ elim (not (is_empty cur) && is_word_start prev c rest) [
    | true ↦ cur ∷ split_words c (c ∷ []) rest
    | false ↦ split_words c (cur ++ c ∷ []) rest
  ]
]

abbrev pub lower : ℕ → ℕ
lower c = if is_uppercase c then c + 32 else c

abbrev pub upper : ℕ → ℕ
upper c = if is_lowercase c then c - 32 else c

abbrev pub capitalize : Text → Text
capitalize [] = []
capitalize (c ∷ s) = upper c ∷ s

abbrev pub join_capitalized : List Text → Text
join_capitalized [] = []
join_capitalized (w ∷ words) = capitalize (map lower w) ++ join_capitalized words

abbrev pub join_words : List Text → Text
join_words [] = []
join_words (w ∷ words) = map lower w ++ join_capitalized words

unfoldable pub camel_case : Text → Text
camel_case input = join_words (split_words 0 [] input)

-- The object of the attributes that one node has.
abbrev pub attribute_entries : Node → List Text → Entries
attribute_entries n [] = end
attribute_entries n (a ∷ names) = elim (attr n a) [
  | none ↦ attribute_entries n names
  | some v ↦ entry (camel_case a) (str v) (attribute_entries n names)
]

-- `&src[first..last]`, less the panic at a position that is no character boundary.
unfoldable pub slice : Text → ℕ → ℕ → Run Text
slice src first last =
    if leb first last && leb last (length src) then done (drop first (take last src)) else panic

abbrev pub slices : Text → List Node → Run (List Value)
slices src [] = done []
slices src (n ∷ ns) = do
  s ← slice src (start n) (finish n)
  rest ← slices src ns
  done (str s ∷ rest)

-- `null` for no value, the value itself for one, else an array.
abbrev pub null_or_values : List Value → Value
null_or_values [] = null
null_or_values (v ∷ []) = v
null_or_values (v ∷ w ∷ vs) = array (values_of (v ∷ w ∷ vs))

abbrev pub first_value : List Text → Value
first_value [] = null
first_value (s ∷ items) = str s

abbrev pub texts_at : Node → List (List Text) → List Text
texts_at root [] = []
texts_at root (path ∷ paths) = map text (select_path root path) ++ texts_at root paths

abbrev pub read_attributes : List Text → List Node → Value
read_attributes [] found = null_or_values (map (λ n. str (text n)) found)
read_attributes (a ∷ []) found = first_value (attr_values a found)
read_attributes (a ∷ b ∷ names) found =
    one_or_array (map (λ n. object (attribute_entries n (a ∷ b ∷ names))) found)

abbrev pub read_nodes : Text → List Node → ExtractorField → Run Value
read_nodes src found field = elim field.context [
  | true ↦ do vs ← slices src found; done (null_or_values vs)
  | false ↦ done (read_attributes field.attributes found)
]

abbrev pub read_single :
    Text → List Node → ExtractorField → Option (List Text) → Option (List Text) → Run Value
read_single src found field (some index) (some attribute_path) =
    done (aggregate found index attribute_path field.attributes)
read_single src found field (some index) none = read_nodes src found field
read_single src found field none attribute_path = read_nodes src found field

abbrev pub extract_at : Text → Node → ExtractorField → LocalPath → Run Value
extract_at src root field (multi paths) =
    done (array (values_of (map str (uniq (texts_at root paths)))))
extract_at src root field (single path) =
    read_single src (select_path root path) field field.index field.attribute_path

unfoldable pub extract_field : Text → Node → ExtractorField → Run Value
extract_field src root field = extract_at src root field field.local_path

module _ (read_events : Text → List PlacedEvent) (limits : XmlLimits) where
  abbrev pub extract_from : Text → Node → ExtractorField → Option Text → Run Value
  extract_from xml root field none = extract_field xml root field
  extract_from xml root field (some sc) = do
    doc ← lift (parse_with_limits read_events limits sc)
    extract_field sc doc field

  -- The loop of `extract_with_limits` over the fields.
  unfoldable pub extract_fields : Text → Node → List ExtractorField → Run Entries
  extract_fields xml root [] = done end
  extract_fields xml root (field ∷ fields) = do
    value ← extract_from xml root field field.shortcut
    rest ← extract_fields xml root fields
    done (entry field.key value rest)

  unfoldable pub extract_with_limits : Text → List ExtractorField → Run Value
  extract_with_limits xml fields = do
    root ← lift (parse_with_limits read_events limits xml)
    entries ← extract_fields xml root fields
    done (object entries)
