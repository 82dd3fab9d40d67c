-- ===== src/Validator.antt =====
-- src/validator.rs: time windows and status codes. `None` of `Option Bool` stands for the panic of
-- `OffsetDateTime + Duration` out of the supported range.
pub mod Window
pub mod Logout
pub mod Status
mod Tests
use opensaml_rs.Prelude.{
  ℕ, ◌≡◌, Bool, true, false, ◌&&◌, not, Option, none, some, List, [], ◌∷◌, Text, ascii, text_eq,
  is_empty, if◌then◌else◌,
}
use opensaml_rs.Prelude.Int.{ℤ, ltb_ℤ, leb_ℤ}
use opensaml_rs.Error.{
  SamlError, invalid, time_window_invalid, logout_request_not_on_or_after, status_not_success,
  undefined_status, Result, ok, err, ◌>>=◌, ◌>>◌, ensure, ok_or,
}
use opensaml_rs.Time.{TimeCrate, milliseconds}
use opensaml_rs.DateTime.{parse_saml_utc_date_time}
use opensaml_rs.Value.{Value, null, str, array, object, nil, cons, get, get_str}

module _ (T : TimeCrate) where
  open T use {parse_rfc3339, checked_add}

  unfoldable pub effective_not_on_or_after : ℤ → ℤ → Result ℤ
  effective_not_on_or_after deadline skew_ms =
      ok_or (checked_add deadline (milliseconds skew_ms))
        (time_window_invalid logout_request_not_on_or_after)

  deadline_of : Option Text → ℤ → ℤ → Result (Option ℤ)
  deadline_of none now skew_ms = ok none
  deadline_of (some value) now skew_ms = do
    normalized ←
        ok_or (parse_saml_utc_date_time value) (time_window_invalid logout_request_not_on_or_after)
    deadline ← ok_or (parse_rfc3339 normalized) (time_window_invalid logout_request_not_on_or_after)
    effective_deadline ← effective_not_on_or_after deadline skew_ms
    ensure (ltb_ℤ now effective_deadline) (time_window_invalid logout_request_not_on_or_after)
    ok (some effective_deadline)

  unfoldable pub logout_request_not_on_or_after_deadline : Value → ℤ → ℤ → Result (Option ℤ)
  unfolding deadline_of
  logout_request_not_on_or_after_deadline extracted now skew_ms =
      deadline_of (get_str extracted (ascii "request.notOnOrAfter")) now skew_ms

  -- `t + drift <= now` and `now < t + drift`: `+` panics where `checked_add` is none.
  abbrev pub starts_by : ℤ → ℤ → ℤ → Option Bool
  starts_by t drift_ms now = elim (checked_add t (milliseconds drift_ms)) [
    | none ↦ none
    | some bound ↦ some (leb_ℤ bound now)
  ]

  abbrev pub ends_after : ℤ → ℤ → ℤ → Option Bool
  ends_after t drift_ms now = elim (checked_add t (milliseconds drift_ms)) [
    | none ↦ none
    | some bound ↦ some (ltb_ℤ now bound)
  ]

  -- `&&` on tests that may panic: the second runs only if the first holds.
  abbrev pub and_then : Option Bool → Option Bool → Option Bool
  and_then none b = none
  and_then (some false) b = some false
  and_then (some true) b = b

  within : Option ℤ → Option ℤ → ℤ → ℤ → ℤ → Option Bool
  within (some b) (some a) nb_ms na_ms now =
      and_then (starts_by b nb_ms now) (ends_after a na_ms now)
  within (some b) none nb_ms na_ms now = some false
  within none a nb_ms na_ms now = some false

  unfoldable pub verify_time_at : Option Text → Option Text → ℤ × ℤ → ℤ → Option Bool
  unfolding within
  verify_time_at none none drift now = some true
  verify_time_at (some nb) none drift now = elim (parse_rfc3339 nb) [
    | some t ↦ starts_by t drift.0 now
    | none ↦ some false
  ]
  verify_time_at none (some na) drift now = elim (parse_rfc3339 na) [
    | some t ↦ ends_after t drift.1 now
    | none ↦ some false
  ]
  verify_time_at (some nb) (some na) drift now =
      within (parse_rfc3339 nb) (parse_rfc3339 na) drift.0 drift.1 now

unfoldable pub bounds_of : Option Value → Result (Option Text × Option Text)
bounds_of none = ok (none, none)
bounds_of (some (array nil)) = ok (none, none)
bounds_of (some (object es)) =
    ok (get_str (object es) (ascii "notBefore"), get_str (object es) (ascii "notOnOrAfter"))
bounds_of (some _) =
    err (invalid (ascii "Assertion Conditions must be absent or occur exactly once"))

unfoldable pub conditions_time_bounds : Value → Result (Option Text × Option Text)
unfolding bounds_of
conditions_time_bounds extracted = bounds_of (get extracted (ascii "conditions"))

-- src/constants.rs: `ParserType`.
pub data ParserType : Type 0 where
  saml_request saml_response logout_request logout_response : ParserType

unfoldable pub success : Text
success = ascii "urn:oasis:names:tc:SAML:2.0:status:Success"

-- `filter(|second| !second.is_empty())`
abbrev pub filter_empty : Option Text → Option Text
filter_empty none = none
filter_empty (some []) = none
filter_empty (some (c ∷ t)) = some (c ∷ t)

-- What `check_status_with_limits` makes of the extracted codes, `top` and `second`.
status_of : Option Text → Option Text → Result (Unit {0})
status_of none second = err undefined_status
status_of (some code) second =
    if text_eq code success
    then ok tt
    else if not (is_empty code)
    then err (status_not_success code (filter_empty second))
    else err undefined_status

-- `extract` stands for the extraction of the status fields of a response from the document.
unfoldable pub check_status_with_limits :
    (ParserType → Result Value) → ParserType → Result (Unit {0})
unfolding status_of
check_status_with_limits extract saml_request = ok tt
check_status_with_limits extract logout_request = ok tt
check_status_with_limits extract saml_response = do
  result ← extract saml_response
  status_of (get_str result (ascii "top")) (get_str result (ascii "second"))
check_status_with_limits extract logout_response = do
  result ← extract logout_response
  status_of (get_str result (ascii "top")) (get_str result (ascii "second"))
