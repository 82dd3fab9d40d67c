-- ===== src/Run.antt =====
-- Rust's three ends of a call: a value, a `SamlError`, or a panic. The components that slice texts by
-- the reader's positions (src/xml/extract.rs) or add to an `OffsetDateTime` (src/validator.rs)
-- return it.
use opensaml_rs.Prelude.{Bool, true, false, Option, none, some, ◌≡◌, refl, ◌⊎◌, inl, inr}
use opensaml_rs.Error.{SamlError, Result, ok, err}

pub data Run {ℓ} (A : Type ℓ) : Type ℓ where
  done : A → Run A
  fail : SamlError → Run A
  panic : Run A

infixl 5 ◌>>=◌ ◌>>◌
abbrev pub ◌>>=◌ {ℓ κ} : {A : Type ℓ} {B : Type κ} → Run A → (A → Run B) → Run B
done a >>= k = k a
fail e >>= k = fail e
panic >>= k = panic

abbrev pub ◌>>◌ {ℓ} : {B : Type ℓ} → Run (Unit {0}) → Run B → Run B
m >> k = m >>= λ _. k

abbrev pub lift {ℓ} : {A : Type ℓ} → Result A → Run A
lift (ok a) = done a
lift (err e) = fail e

-- An operation that panics where it has no value.
abbrev pub unwrap {ℓ} : {A : Type ℓ} → Option A → Run A
unwrap none = panic
unwrap (some a) = done a

-- `if !b { return Err(e); }`
abbrev pub require : Bool → SamlError → Run (Unit {0})
require true e = done tt
require false e = fail e

pub Run-cases {ℓ} :
    {A : Type ℓ} (r : Run A)
    → ((a : A) × (r ≡ done a)) ⊎ (((e : SamlError) × (r ≡ fail e)) ⊎ (r ≡ panic))
Run-cases (done a) = inl (a, refl)
Run-cases (fail e) = inr (inl (e, refl))
Run-cases panic = inr (inr refl)

-- What a call that gives a value is made of: the first part gives one and the rest does so with it.
pub bind_done {ℓ κ} :
    {A : Type ℓ} {B : Type κ} (m : Run A) {k : A → Run B} {b : B}
    → (m >>= k) ≡ done b
    → (a : A) × (m ≡ done a) × (k a ≡ done b)
bind_done (done a) h = (a, refl, h)
bind_done (fail e) h = absurd (cc h)
bind_done panic h = absurd (cc h)

pub require_done : (b : Bool) (e : SamlError) → require b e ≡ done tt → b ≡ true
require_done true e h = refl
require_done false e h = absurd (cc h)

pub lift_done {ℓ} : {A : Type ℓ} (r : Result A) {a : A} → lift r ≡ done a → r ≡ ok a
lift_done (ok a) h = cc h
lift_done (err e) h = absurd (cc h)
