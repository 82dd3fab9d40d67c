-- ===== src/Validator/Status.antt =====
-- src/validator.rs: the status check of a response.
use opensaml_rs.Prelude.{◌≡◌, ◌↔◌, refl, Option, none, some, Text, ascii, text_eq_iff, arith}
use opensaml_rs.Error.{Result, ok, err, ◌>>=◌}
use opensaml_rs.Value.{Value, get_str}
use opensaml_rs.Validator.{
  ParserType, saml_request, saml_response, logout_request, logout_response, success, status_of,
  check_status_with_limits,
}

-- The messages that carry a status.
abbrev pub IsResponse : ParserType → Type 0
IsResponse saml_response = Unit
IsResponse logout_response = Unit
IsResponse _ = ⊥

status_of-success : (top second : Option Text) → status_of top second ≡ ok tt → top ≡ some success
unfolding status_of
status_of-success none second h = cc
status_of-success (some code) second h = ground (arith, text_eq_iff code success)

success-status_of : (top second : Option Text) → top ≡ some success → status_of top second ≡ ok tt
unfolding status_of
success-status_of none second h = cc
success-status_of (some code) second h = ground (arith, text_eq_iff code success)

codes_of : Result Value → Result (Unit {0})
codes_of r = do
  result ← r
  status_of (get_str result (ascii "top")) (get_str result (ascii "second"))

codes_of_iff :
    (r : Result Value)
    → (codes_of r ≡ ok tt) ↔ ((v : Value) × (r ≡ ok v) × (get_str v (ascii "top") ≡ some success))
unfolding codes_of
codes_of_iff (ok v) = (
  λ h. (v, refl, status_of-success (get_str v (ascii "top")) (get_str v (ascii "second")) h),
  λ (w, e, s). success-status_of (get_str v (ascii "top")) (get_str v (ascii "second")) (cc),
)
codes_of_iff (err e) = (λ h. cc, λ (w, f, s). cc)

-- A response passes exactly when its status can be extracted and its top-level code is Success.
pub check_status_with_limits_iff :
    (extract : ParserType → Result Value) (p : ParserType)
    → IsResponse p
    → (check_status_with_limits extract p ≡ ok tt)
      ↔ ((v : Value) × (extract p ≡ ok v) × (get_str v (ascii "top") ≡ some success))
unfolding check_status_with_limits codes_of
check_status_with_limits_iff extract saml_response h = codes_of_iff (extract saml_response)
check_status_with_limits_iff extract logout_response h = codes_of_iff (extract logout_response)
check_status_with_limits_iff extract saml_request h = absurd h
check_status_with_limits_iff extract logout_request h = absurd h
