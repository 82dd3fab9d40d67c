-- ===== src/DateTime/Trimming.antt =====
-- Trimming whitespace and a final character, as src/xml/date_time.rs does to the value.

use opensaml_rs.Prelude.{
  ℕ, ◌≡◌, refl, ap, ◌∙◌, inl, inr, Bool, true, false, some, [], ◌∷◌, ◌++◌, arith, Text, All,
  Option-cases, trim_start, trim_end, trim_matches, strip_suffix,
}

module _ (p : ℕ → Bool) where
  trim_start-append :
      (w t : Text) → All (λ b. p b ≡ true) w → trim_start p (w ++ t) ≡ trim_start p t
  trim_start-append [] t h = refl
  trim_start-append (x ∷ w) t (e, h) = rw e (trim_start-append w t h)

  starts_kept : (x : ℕ) (t : Text) → p x ≡ false → trim_start p (x ∷ t) ≡ x ∷ t
  starts_kept x t e = rw e

  trim_end_blank : (w : Text) → All (λ b. p b ≡ true) w → trim_end p w ≡ []
  trim_end_blank [] h = refl
  trim_end_blank (x ∷ w) (e, h) = rw (trim_end_blank w h, e)

  trim_end-append : (t w : Text) → All (λ b. p b ≡ true) w → trim_end p (t ++ w) ≡ trim_end p t
  trim_end-append [] w h = trim_end_blank w h
  trim_end-append (x ∷ t) w h = rw (trim_end-append t w h)

  -- Text that begins and ends with bytes that are not trimmed is kept.
  trim_end_keeps : (t : Text) (c : ℕ) → p c ≡ false → trim_end p (t ++ c ∷ []) ≡ t ++ c ∷ []
  trim_end_keeps [] c e = rw (e, trim_end)
  trim_end_keeps (x ∷ []) c e = rw (e, trim_end)
  trim_end_keeps (x ∷ y ∷ t) c e = rw (trim_end_keeps (y ∷ t) c e)

  pub trim_matches-surrounded :
      (w t w' : Text) (a c : ℕ)
      → All (λ b. p b ≡ true) w
      → All (λ b. p b ≡ true) w'
      → p a ≡ false
      → p c ≡ false
      → trim_matches p (w ++ ((a ∷ t ++ c ∷ []) ++ w')) ≡ a ∷ t ++ c ∷ []
  trim_matches-surrounded w t w' a c hw hw' ha hc =
      ap (trim_end p)
        (trim_start-append w ((a ∷ t ++ c ∷ []) ++ w') hw ∙ starts_kept a ((t ++ c ∷ []) ++ w') ha)
      ∙ trim_end-append (a ∷ t ++ c ∷ []) w' hw'
      ∙ trim_end_keeps (a ∷ t) c hc

pub strip_suffix-append : (c : ℕ) (t : Text) → strip_suffix c (t ++ c ∷ []) ≡ some t
strip_suffix-append c [] = ground arith
strip_suffix-append c (x ∷ []) = ground arith
strip_suffix-append c (x ∷ y ∷ t) = rw (strip_suffix-append c (y ∷ t))

pub strip_suffix_exact : (c : ℕ) (v : Text) {t : Text} → strip_suffix c v ≡ some t → v ≡ t ++ c ∷ []
strip_suffix_exact c [] h = cc
strip_suffix_exact c (x ∷ []) h = ground arith
strip_suffix_exact c (x ∷ y ∷ r) {t} h = elim (Option-cases (strip_suffix c (y ∷ r))) [
  | inl none_left ↦ ground arith
  | inr (t', e) ↦
      let kept : t ≡ x ∷ t' = ground arith in
      rw kept (ap (λ u. x ∷ u) (strip_suffix_exact c (y ∷ r) e))
]
