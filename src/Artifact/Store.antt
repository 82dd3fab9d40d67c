-- ===== src/Artifact/Store.antt =====
-- src/artifact.rs: the outstanding artifacts as a map.
use opensaml_rs.Prelude.{
  ◌≡◌, ◌≢◌, refl, none, some, [], ◌∷◌, Text, text_eq, text_eq_iff, text_eq-cases, text_eq_refl,
  arith, if◌then◌else◌, inl, inr, sym,
}
use opensaml_rs.Artifact.{IssuedEntry, IssuedArtifacts, get_entry, remove_entry, insert_entry}

pub get_entry-remove_entry_self :
    (k : Text) (issued : IssuedArtifacts) → get_entry k (remove_entry k issued) ≡ none
unfolding get_entry remove_entry
get_entry-remove_entry_self k [] = refl
get_entry-remove_entry_self k ((j, entry) ∷ issued) =
    ground (arith, get_entry-remove_entry_self k issued)

pub get_entry-remove_entry :
    (k j : Text) (issued : IssuedArtifacts)
    → j ≢ k
    → get_entry j (remove_entry k issued) ≡ get_entry j issued
unfolding get_entry remove_entry
get_entry-remove_entry k j [] other = refl
get_entry-remove_entry k j ((i, entry) ∷ issued) other =
    ground (arith, text_eq_iff i k, text_eq_iff i j, get_entry-remove_entry k j issued other)

-- After an insertion the key has the new entry and every other key its old one.
pub get_entry-insert_entry :
    (k j : Text) (entry : IssuedEntry) (issued : IssuedArtifacts)
    → get_entry j (insert_entry k entry issued)
      ≡ (if text_eq k j then some entry else get_entry j issued)
unfolding get_entry insert_entry
get_entry-insert_entry k j entry issued = elim (text_eq-cases k j) [
  | inl same ↦ rw (same, text_eq_refl j)
  | inr (differs, other) ↦ rw (differs, get_entry-remove_entry k j issued (λ e. other (sym e)))
]
