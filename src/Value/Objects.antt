-- ===== src/Value/Objects.antt =====
-- src/util.rs: writing and reading the keys of an object.
use opensaml_rs.Prelude.{
  ◌≡◌, refl, ◌∙◌, ap, Bool, true, false, Option, none, some, List, [], ◌∷◌, Text, text_eq,
  text_eq_iff, if◌then◌else◌, arith, All, Bool-cases, inl, inr,
}
use opensaml_rs.Value.{
  Value, null, str, array, object, Values, nil, cons, Entries, end, entry, lookup, get_key, insert,
  set_entry, push, aggregate, aggregate_entry, zip_entries, zip_object,
}

lookup-set_entry :
    (k j : Text) (v : Value) (es : Entries)
    → lookup j (set_entry k v es) ≡ (if text_eq k j then some v else lookup j es)
unfolding lookup set_entry
lookup-set_entry k j v end = ground arith
lookup-set_entry k j v (entry i w es) =
    ground (arith, text_eq_iff k j, text_eq_iff i k, text_eq_iff i j, lookup-set_entry k j v es)

-- After an insertion the key has the new value and every other key its old one.
pub get_key-insert :
    (es : Entries) (k j : Text) (v : Value)
    → get_key (insert (object es) k v) j ≡ (if text_eq k j then some v else get_key (object es) j)
unfolding get_key insert
get_key-insert es k j v = lookup-set_entry k j v es

abbrev slot : Bool → Option Value → Value → Value
slot true old v = v
slot false none v = v
slot false (some w) v = aggregate w v

abbrev pub put : Bool → Text → Value → Entries → Entries
put skip k v es = if skip then set_entry k v es else aggregate_entry k v es

lookup-put :
    (skip : Bool) (k j : Text) (v : Value) (es : Entries)
    → lookup j (put skip k v es)
      ≡ (if text_eq k j then some (slot skip (lookup j es) v) else lookup j es)
unfolding lookup aggregate_entry
lookup-put true k j v es = lookup-set_entry k j v es
lookup-put false k j v end = ground arith
lookup-put false k j v (entry i w es) =
    ground (arith, text_eq_iff k j, text_eq_iff i k, text_eq_iff i j, lookup-put false k j v es)

-- The values that are paired with a key, in order.
unfoldable pub values_of : Text → List Text → List Value → List Value
values_of j [] values = []
values_of j (key ∷ keys) [] = []
values_of j (key ∷ keys) (v ∷ values) =
    let rest = values_of j keys values in if text_eq key j then v ∷ rest else rest

-- What one slot becomes as values arrive.
fill : Bool → Option Value → List Value → Option Value
fill skip old [] = old
fill skip old (v ∷ vs) = fill skip (some (slot skip old v)) vs

lookup-zip_entries :
    (skip : Bool) (keys : List Text) (values : List Value) (out : Entries) (j : Text)
    → lookup j (zip_entries skip keys values out)
      ≡ fill skip (lookup j out) (values_of j keys values)
unfolding zip_entries values_of fill
lookup-zip_entries skip [] values out j = refl
lookup-zip_entries skip (key ∷ keys) [] out j = refl
lookup-zip_entries skip (key ∷ keys) (v ∷ values) out j =
    lookup-zip_entries skip keys values (put skip key v out) j ∙ elim (Bool-cases (text_eq key j)) [
      | inl same ↦ rw (lookup-put skip key j v out, same)
      | inr other ↦ rw (lookup-put skip key j v out, other)
    ]

-- The last value, if there is one.
unfoldable pub last : Option Value → List Value → Option Value
last old [] = old
last old (v ∷ vs) = last (some v) vs

fill-last : (old : Option Value) (vs : List Value) → fill true old vs ≡ last old vs
unfolding fill last
fill-last old [] = refl
fill-last old (v ∷ vs) = fill-last (some v) vs

-- With `skip_duplicated` a key has the last of its values, and a key that is not given has none.
pub get_key-zip_object-last :
    (keys : List Text) (values : List Value) (j : Text)
    → get_key (zip_object keys values true) j ≡ last none (values_of j keys values)
unfolding get_key zip_object lookup
get_key-zip_object-last keys values j =
    lookup-zip_entries true keys values end j ∙ fill-last none (values_of j keys values)

abbrev pub IsScalar : Value → Type 0
IsScalar (array items) = ⊥
IsScalar _ = Unit

unfoldable pub to_values : List Value → Values
to_values [] = nil
to_values (v ∷ vs) = cons v (to_values vs)

append : Values → List Value → Values
append ws [] = ws
append ws (v ∷ vs) = append (push ws v) vs

append-cons :
    (w : Value) (ws : Values) (vs : List Value) → append (cons w ws) vs ≡ cons w (append ws vs)
unfolding append push
append-cons w ws [] = refl
append-cons w ws (v ∷ vs) = append-cons w (push ws v) vs

append_nil : (vs : List Value) → append nil vs ≡ to_values vs
unfolding append push to_values
append_nil [] = refl
append_nil (v ∷ vs) = append-cons v nil vs ∙ ap (cons v) (append_nil vs)

fill_array :
    (ws : Values) (vs : List Value) → fill false (some (array ws)) vs ≡ some (array (append ws vs))
unfolding fill append
fill_array ws [] = refl
fill_array ws (v ∷ vs) = fill_array (push ws v) vs

-- No value, one value, or the array of all of them in order.
unfoldable pub collected : List Value → Option Value
collected [] = none
collected (v ∷ []) = some v
collected (v ∷ w ∷ vs) = some (array (to_values (v ∷ w ∷ vs)))

fill_two :
    (v w : Value) (vs : List Value)
    → fill false (some (array (cons v (cons w nil)))) vs ≡ some (array (to_values (v ∷ w ∷ vs)))
unfolding to_values
fill_two v w vs =
    fill_array (cons v (cons w nil)) vs
    ∙ ap (λ t. some (array t))
        (append-cons v (cons w nil) vs
          ∙ ap (cons v) (append-cons w nil vs ∙ ap (cons w) (append_nil vs)))

fill-collected : (vs : List Value) → All IsScalar vs → fill false none vs ≡ collected vs
unfolding fill collected
fill-collected [] h = refl
fill-collected (v ∷ []) h = refl
fill-collected (null ∷ w ∷ vs) h = fill_two null w vs
fill-collected (str s ∷ w ∷ vs) h = fill_two (str s) w vs
fill-collected (array ws ∷ w ∷ vs) h = absurd h.0
fill-collected (object es ∷ w ∷ vs) h = fill_two (object es) w vs

-- Without `skip_duplicated` a key has its only value, or the array of its values in the order in
-- which they stand, if none of its values is an array.
pub get_key-zip_object_in_order :
    (keys : List Text) (values : List Value) (j : Text)
    → All IsScalar (values_of j keys values)
    → get_key (zip_object keys values false) j ≡ collected (values_of j keys values)
unfolding get_key zip_object lookup
get_key-zip_object_in_order keys values j h =
    lookup-zip_entries false keys values end j ∙ fill-collected (values_of j keys values) h
