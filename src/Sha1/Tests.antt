-- ===== src/Sha1/Tests.antt =====
-- A vector of the unit tests of src/artifact.rs.
use opensaml_rs.Prelude.{◌≡◌, refl, [], ◌∷◌, ascii}
use opensaml_rs.Sha1.{
  sha1, absorb_all, absorb, reverse_onto, rounds, round, extend, chunk_words, padded, zeros,
}

-- The NIST vector of the unit tests.
abc_vector :
    sha1 (ascii "abc")
    ≡ 169 ∷ 153 ∷ 62 ∷ 54 ∷ 71 ∷ 6 ∷ 129 ∷ 106 ∷ 186 ∷ 62 ∷ 37 ∷ 113 ∷ 120 ∷ 80 ∷ 194 ∷ 108 ∷ 156
      ∷ 208 ∷ 216 ∷ 157 ∷ []
unfolding sha1 ascii absorb_all absorb reverse_onto rounds round extend chunk_words padded zeros
abc_vector = refl
