-- ===== src/DateTime/Slices.antt =====
-- Lemmas on the slice operations that src/xml/date_time.rs uses: indexing behind a prefix, and the
-- first occurrence of a byte.

use opensaml_rs.Prelude.{
  ℕ, suc, ◌+◌, ◌≡◌, ap, ◌≢◌, ◌∙◌, some, List, [], ◌∷◌, ◌++◌, arith, ◌==◌, Text, position, length,
  get_elem?, drop, All, Option-cases, Bool-cases, ==_iff, inl, inr,
}

module _ {ℓ} {A : Type ℓ} where
  pub get_elem?-append :
      (xs ys : List A) (k : ℕ) → get_elem? (xs ++ ys) (length xs + k) ≡ get_elem? ys k
  get_elem?-append [] ys k = ap (get_elem? ys) (omega arith)
  get_elem?-append (x ∷ xs) ys k =
      ap (get_elem? (x ∷ (xs ++ ys)))
        (let e : suc (length xs) + k ≡ suc (length xs + k) = omega arith in e)
      ∙ get_elem?-append xs ys k

  pub drop-append : (xs ys : List A) (k : ℕ) → drop (length xs + k) (xs ++ ys) ≡ drop k ys
  drop-append [] ys k = ap (λ n. drop n ys) (omega arith)
  drop-append (x ∷ xs) ys k =
      ap (λ n. drop n (x ∷ (xs ++ ys)))
        (let e : suc (length xs) + k ≡ suc (length xs + k) = omega arith in e)
      ∙ drop-append xs ys k

-- The first occurrence of a byte splits the slice.
pub position-split :
    (c : ℕ) (xs : Text) (k : ℕ)
    → position c xs ≡ some k
    → (ys : Text) × (zs : Text) × (xs ≡ ys ++ c ∷ zs) × (length ys ≡ k)
position-split c [] k h = cc
position-split c (x ∷ xs) k h = elim (Bool-cases (x == c)) [
  | inl same ↦ ([], xs, ap (λ t. t ∷ xs) ((==_iff x c).0 same), ground arith)
  | inr other ↦ elim (Option-cases (position c xs)) [
    | inl missing ↦ ground arith
    | inr (j, found) ↦
        let (ys, zs, e, l) = position-split c xs j found in
        (x ∷ ys, zs, ap (λ t. x ∷ t) e, ground arith)
  ]
]

pub position-append :
    (c : ℕ) (ys zs : Text) → All (λ b. b ≢ c) ys → position c (ys ++ c ∷ zs) ≡ some (length ys)
position-append c [] zs h = ground arith
position-append c (y ∷ ys) zs (p, h) = ground (arith, position-append c ys zs h)
