-- ===== src/BrowserBinding/Names.antt =====
-- src/constants.rs: a binding has one keyword and one URN, and is found by either.
use opensaml_rs.Prelude.{◌≡◌, ◌↔◌, refl, some, Text, ascii, text_eq, text_eq_iff, arith}
use opensaml_rs.Error.{Binding, redirect, post, simple_sign, artifact}
use opensaml_rs.BrowserBinding.{urn, short_name, from_short_name, from_urn}

pub from_short_name-short_name : (b : Binding) → from_short_name (short_name b) ≡ some b
unfolding from_short_name short_name ascii text_eq
from_short_name-short_name redirect = refl
from_short_name-short_name post = refl
from_short_name-short_name simple_sign = refl
from_short_name-short_name artifact = refl

pub from_urn-urn : (b : Binding) → from_urn (urn b) ≡ some b
unfolding from_urn urn ascii text_eq
from_urn-urn redirect = refl
from_urn-urn post = refl
from_urn-urn simple_sign = refl
from_urn-urn artifact = refl

short_name_sound : (name : Text) (b : Binding) → from_short_name name ≡ some b → name ≡ short_name b
unfolding from_short_name short_name
short_name_sound name redirect h = ground (arith, text_eq_iff name (ascii "redirect"))
short_name_sound name post h = ground (arith, text_eq_iff name (ascii "post"))
short_name_sound name simple_sign h = ground (arith, text_eq_iff name (ascii "simpleSign"))
short_name_sound name artifact h = ground (arith, text_eq_iff name (ascii "artifact"))

urn_sound : (name : Text) (b : Binding) → from_urn name ≡ some b → name ≡ urn b
unfolding from_urn
urn_sound name redirect h = ground (arith, text_eq_iff (urn redirect) name)
urn_sound name post h = ground (arith, text_eq_iff (urn post) name)
urn_sound name simple_sign h = ground (arith, text_eq_iff (urn simple_sign) name)
urn_sound name artifact h = ground (arith, text_eq_iff (urn artifact) name)

-- A text is read as a binding exactly when it is the keyword of the binding.
pub from_short_name_iff :
    (name : Text) (b : Binding) → (from_short_name name ≡ some b) ↔ (name ≡ short_name b)
from_short_name_iff name b = (short_name_sound name b, λ e. rw e (from_short_name-short_name b))

-- A text is read as a binding exactly when it is the URN of the binding.
pub from_urn_iff : (name : Text) (b : Binding) → (from_urn name ≡ some b) ↔ (name ≡ urn b)
from_urn_iff name b = (urn_sound name b, λ e. rw e (from_urn-urn b))
