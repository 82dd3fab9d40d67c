-- ===== src/Prelude/Bytes.antt =====
-- Rust's `str` and `[u8]` as the list of their bytes, with the standard library's operations on
-- them that the code uses. `ascii` reads a literal, whose characters are all ASCII.
use Prim.Native.Nat.{ℕ, suc, ◌-◌}
use Prim.Native.Char.{code}
use Prim.Native.String.{String}
use mathlib.Core.Path.{◌≡◌, refl, ap₂}
use mathlib.Core.Logic.{◌↔◌, ◌⊎◌, ◌≢◌, inl, inr}
use mathlib.Core.Bool.{Bool, true, false, ◌&&◌, ◌||◌}
use mathlib.Core.List.{List, [], ◌∷◌}
use mathlib.Core.Option
use mathlib.Core.Option.{Option, none, some}
use native.Mathlib.Omega.{arith}
use opensaml_rs.Prelude.Tests.{◌==◌, ltb, leb, if◌then◌else◌, &&_true, ==_iff, Bool-cases}

abbrev pub Text : Type 0
Text = List ℕ

unfoldable pub ascii : String → Text
ascii String.[] = []
ascii (String.◌∷◌ c s) = code c ∷ ascii s

unfoldable pub text_eq : Text → Text → Bool
text_eq [] [] = true
text_eq [] (y ∷ ys) = false
text_eq (x ∷ xs) [] = false
text_eq (x ∷ xs) (y ∷ ys) = (x == y) && text_eq xs ys

text_eq_sound : (a b : Text) → text_eq a b ≡ true → a ≡ b
unfolding text_eq
text_eq_sound [] [] h = refl
text_eq_sound [] (y ∷ ys) h = cc
text_eq_sound (x ∷ xs) [] h = cc
text_eq_sound (x ∷ xs) (y ∷ ys) h =
    let (e, t) = &&_true (x == y) (text_eq xs ys) h in
    ap₂ (λ u v. u ∷ v) ((==_iff x y).0 e) (text_eq_sound xs ys t)

pub text_eq_refl : (a : Text) → text_eq a a ≡ true
unfolding text_eq
text_eq_refl [] = refl
text_eq_refl (x ∷ xs) = ground (arith, text_eq_refl xs)

pub text_eq_iff : (a b : Text) → (text_eq a b ≡ true) ↔ (a ≡ b)
text_eq_iff a b = (text_eq_sound a b, λ e. rw e (text_eq_refl b))

pub text_eq-cases : (a b : Text) → (a ≡ b) ⊎ ((text_eq a b ≡ false) × (a ≢ b))
text_eq-cases a b = elim (Bool-cases (text_eq a b)) [
  | inl same ↦ inl (text_eq_sound a b same)
  | inr other ↦ inr (other, λ e. cc (other, (text_eq_iff a b).1 e))
]

-- `u8::checked_sub`
abbrev pub checked_sub : ℕ → ℕ → Option ℕ
checked_sub a b = if ltb a b then none else some (a - b)

-- `bool::then_some`
abbrev pub then_some {ℓ} : {A : Type ℓ} → Bool → A → Option A
then_some true a = some a
then_some false a = none

-- `iter().position(|b| b == c)`
abbrev pub position : ℕ → Text → Option ℕ
position c [] = none
position c (x ∷ xs) = if x == c then some 0 else Option.map suc (position c xs)

abbrev pub trim_start : (ℕ → Bool) → Text → Text
trim_start p [] = []
trim_start p (x ∷ xs) = if p x then trim_start p xs else x ∷ xs

abbrev pub trim_end : (ℕ → Bool) → Text → Text
trim_end p [] = []
trim_end p (x ∷ xs) = elim (trim_end p xs) [ [] ↦ if p x then [] else x ∷ [] | y ∷ ys ↦ x ∷ y ∷ ys ]

-- `str::trim_matches`
abbrev pub trim_matches : (ℕ → Bool) → Text → Text
trim_matches p s = trim_end p (trim_start p s)

-- `str::strip_suffix` of one character
abbrev pub strip_suffix : ℕ → Text → Option Text
strip_suffix c [] = none
strip_suffix c (x ∷ []) = if x == c then some [] else none
strip_suffix c (x ∷ y ∷ r) = Option.map (λ t. x ∷ t) (strip_suffix c (y ∷ r))

abbrev pub is_ascii_digit : ℕ → Bool
is_ascii_digit b = leb b'0' b && leb b b'9'

-- `[String]::contains`
abbrev pub contains_text : List Text → Text → Bool
contains_text [] a = false
contains_text (x ∷ xs) a = text_eq x a || contains_text xs a

abbrev pub starts_with : Text → Text → Bool
starts_with s [] = true
starts_with [] (y ∷ ys) = false
starts_with (x ∷ xs) (y ∷ ys) = (x == y) && starts_with xs ys

-- `str::split` by one character: always at least one part.
abbrev push_head : ℕ → List Text → List Text
push_head x [] = (x ∷ []) ∷ []
push_head x (part ∷ parts) = (x ∷ part) ∷ parts

unfoldable pub split : ℕ → Text → List Text
split c [] = [] ∷ []
split c (x ∷ xs) = if x == c then [] ∷ split c xs else push_head x (split c xs)

-- `str::is_empty` after `str::trim`: only whitespace.
abbrev pub is_ascii_whitespace : ℕ → Bool
is_ascii_whitespace b = b == b' ' || (leb 9 b && leb b 13)
