-- ===== src/Relay/Presence.antt =====
-- src/model/relay.rs: the states that a RelayState parameter can have.
use opensaml_rs.Prelude.{◌≤◌, ◌≡◌, ◌≢◌, ◌↔◌, refl, Option, none, some, [], ◌∷◌, Text, arith}
use opensaml_rs.Error.{RelayStateParam, absent, present_empty, present_value, ok}
use opensaml_rs.Relay.{
  len, validate_relay_state_bytes, try_new, try_from_option, as_deref, validate,
}

-- The parameter is not sent, sent empty, or sent with one to eighty bytes.
abbrev pub IsValid : RelayStateParam → Type 0
IsValid absent = Unit
IsValid present_empty = Unit
IsValid (present_value value) = (value ≢ []) × (len value ≤ 80)

-- The validation passes exactly the valid states.
pub validate_iff : (p : RelayStateParam) → (validate p ≡ ok tt) ↔ IsValid p
unfolding validate validate_relay_state_bytes len
validate_iff absent = (λ h. tt, λ h. refl)
validate_iff present_empty = (λ h. tt, λ h. refl)
validate_iff (present_value []) = ground arith
validate_iff (present_value (c ∷ s)) = ground arith

-- A state is made of optional input exactly when it is valid and stands for that input.
pub try_from_option_iff :
    (value : Option Text) (p : RelayStateParam)
    → (try_from_option value ≡ ok p) ↔ (IsValid p × (as_deref p ≡ value))
unfolding try_from_option try_new validate_relay_state_bytes as_deref len
try_from_option_iff none absent = ground arith
try_from_option_iff none present_empty = ground arith
try_from_option_iff none (present_value t) = ground arith
try_from_option_iff (some []) absent = ground arith
try_from_option_iff (some []) present_empty = ground arith
try_from_option_iff (some []) (present_value t) = ground arith
try_from_option_iff (some (c ∷ s)) absent = ground arith
try_from_option_iff (some (c ∷ s)) present_empty = ground arith
try_from_option_iff (some (c ∷ s)) (present_value t) = ground arith
