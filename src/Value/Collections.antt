-- ===== src/Value/Collections.antt =====
-- src/util.rs: `uniq` and `verify_fields`.
use opensaml_rs.Prelude.{
  ◌≡◌, ◌≢◌, ◌↔◌, refl, ◌∙◌, sym, append-nil, append_assoc, true, false, ◌||◌, List, [], ◌∷◌, ◌++◌,
  Text, text_eq, text_eq_iff, contains_text, all, arith, All, Bool-cases, inl, inr,
}
use opensaml_rs.Value.{verify_fields, uniq_from, uniq}

contains-append :
    (xs : List Text) (s a : Text)
    → contains_text (xs ++ s ∷ []) a ≡ (contains_text xs a || text_eq s a)
contains-append [] s a = ground arith
contains-append (x ∷ xs) s a = ground (arith, contains-append xs s a)

uniq_from_contains :
    (seen items : List Text) (a : Text)
    → contains_text (uniq_from seen items) a ≡ (contains_text seen a || contains_text items a)
unfolding uniq_from
uniq_from_contains seen [] a = ground arith
uniq_from_contains seen (s ∷ items) a = elim (Bool-cases (contains_text seen s)) [
  | inl old ↦ rw (old, uniq_from_contains seen items a) (ground (arith, text_eq_iff s a))
  | inr new ↦
      rw (new, uniq_from_contains (seen ++ s ∷ []) items a, contains-append seen s a) (ground arith)
]

-- `uniq` keeps exactly the texts that stand in the list.
pub contains-uniq :
    (items : List Text) (a : Text) → contains_text (uniq items) a ≡ contains_text items a
unfolding uniq
contains-uniq items a = uniq_from_contains [] items a

-- No text stands in a list twice.
abbrev pub Distinct : List Text → Type 0
Distinct [] = Unit
Distinct (x ∷ xs) = (contains_text xs x ≡ false) × Distinct xs

Distinct-append :
    (xs : List Text) (s : Text) → Distinct xs → contains_text xs s ≡ false → Distinct (xs ++ s ∷ [])
Distinct-append [] s h n = (refl, tt)
Distinct-append (x ∷ xs) s (fresh, h) n = (
  ground (arith, contains-append xs s x, text_eq_iff x s, text_eq_iff s x),
  Distinct-append xs s h (ground arith),
)

uniq_from-Distinct : (seen items : List Text) → Distinct seen → Distinct (uniq_from seen items)
unfolding uniq_from
uniq_from-Distinct seen [] h = h
uniq_from-Distinct seen (s ∷ items) h = elim (Bool-cases (contains_text seen s)) [
  | inl old ↦ rw old (uniq_from-Distinct seen items h)
  | inr new ↦ rw new (uniq_from-Distinct (seen ++ s ∷ []) items (Distinct-append seen s h new))
]

-- No text stands twice in what `uniq` returns.
pub uniq-Distinct : (items : List Text) → Distinct (uniq items)
unfolding uniq
uniq-Distinct items = uniq_from-Distinct [] items tt

fresh_tail :
    (seen items : List Text) (s : Text)
    → contains_text items s ≡ false
    → All (λ x. contains_text seen x ≡ false) items
    → All (λ x. contains_text (seen ++ s ∷ []) x ≡ false) items
fresh_tail seen [] s n h = tt
fresh_tail seen (x ∷ items) s n h = (
  ground (arith, contains-append seen s x, text_eq_iff x s, text_eq_iff s x),
  fresh_tail seen items s (ground arith) h.1,
)

uniq_from_fresh :
    (seen items : List Text)
    → Distinct items
    → All (λ s. contains_text seen s ≡ false) items
    → uniq_from seen items ≡ seen ++ items
unfolding uniq_from
uniq_from_fresh seen [] d h = sym (append-nil seen)
uniq_from_fresh seen (s ∷ items) d h = rw (h.0) (
    uniq_from_fresh (seen ++ s ∷ []) items d.1 (fresh_tail seen items s d.0 h.1)
    ∙ append_assoc seen (s ∷ []) items)

none_seen : (items : List Text) → All (λ s. contains_text [] s ≡ false) items
none_seen [] = tt
none_seen (s ∷ items) = (refl, none_seen items)

-- A list without repetitions is returned unchanged, so that `uniq` is idempotent.
pub uniq_idempotent : (items : List Text) → uniq (uniq items) ≡ uniq items
unfolding uniq
uniq_idempotent items =
    uniq_from_fresh [] (uniq items) (uniq-Distinct items) (none_seen (uniq items))

all_equal :
    (field : List Text) (m : Text) → all (λ f. text_eq f m) field ≡ true → All (λ f. f ≡ m) field
all_equal [] m h = tt
all_equal (f ∷ field) m h = ground (arith, text_eq_iff f m, all_equal field m)

equal_all :
    (field : List Text) (m : Text) → All (λ f. f ≡ m) field → all (λ f. text_eq f m) field ≡ true
equal_all [] m h = refl
equal_all (f ∷ field) m h = ground (arith, text_eq_iff f m, equal_all field m h.1)

-- A field is verified exactly when it has a value and every value is that of the metadata.
pub verify_fields_iff :
    (field : List Text) (meta_field : Text)
    → (verify_fields field meta_field ≡ true) ↔ ((field ≢ []) × All (λ f. f ≡ meta_field) field)
unfolding verify_fields
verify_fields_iff [] m = ground arith
verify_fields_iff (f ∷ field) m =
    (λ h. (λ e. cc, all_equal (f ∷ field) m (ground arith)), λ h. equal_all (f ∷ field) m h.1)
