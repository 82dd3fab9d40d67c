-- ===== src/Value/Tests.antt =====
-- Inputs at which the theorems on src/util.rs apply.
use opensaml_rs.Prelude.{◌≡◌, List, [], ◌∷◌, Text}
use opensaml_rs.Value.{Value, null, str, Entries, end, entry, uniq}
use opensaml_rs.Value.Collections.{uniq_idempotent}

abbrev a : Text
a = b'a' ∷ []

abbrev b : Text
b = b'b' ∷ []

abbrev one : Entries
one = entry a (str b) end

abbrev values : List Value
values = str a ∷ null ∷ str b ∷ []

uniq_idempotent_example : uniq (uniq (a ∷ b ∷ a ∷ [])) ≡ uniq (a ∷ b ∷ a ∷ [])
uniq_idempotent_example = uniq_idempotent (a ∷ b ∷ a ∷ [])
