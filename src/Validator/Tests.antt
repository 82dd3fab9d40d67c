-- ===== src/Validator/Tests.antt =====
-- Inputs at which the theorems on src/validator.rs apply.
use opensaml_rs.Prelude.{
  ◌≡◌, ◌↔◌, refl, true, Option, none, some, [], ascii, text_eq, split, arith, if◌then◌else◌,
}
use opensaml_rs.Prelude.Int.{ℤ, pos, negsuc, ◌+ℤ◌, leb_ℤ}
use opensaml_rs.Error.{Result, ok, err, time_window_invalid, logout_request_not_on_or_after}
use opensaml_rs.Time.{TimeCrate, unlimited}
use opensaml_rs.DateTime.Tests.{run_inbound}
use opensaml_rs.Value.{Value, str, object, end, entry, get_str, get, walk, get_key, lookup}
use opensaml_rs.Validator.{
  verify_time_at, effective_not_on_or_after, logout_request_not_on_or_after_deadline, ParserType,
  saml_response, success, check_status_with_limits,
}
use opensaml_rs.Validator.Window.{
  LowerHolds, UpperHolds, verify_time_at_sound, verify_time_at_complete,
}
use opensaml_rs.Validator.Logout.{DeadlineHolds, logout_request_not_on_or_after_deadline_sound}
use opensaml_rs.Validator.Status.{check_status_with_limits_iff}

-- Every text denotes one second after the epoch.
abbrev clock : TimeCrate
clock = unlimited (λ t. some (pos 1000000000))

abbrev drift : ℤ × ℤ
drift = (negsuc 299999, pos 300000)

abbrev now : ℤ
now = pos 2000000000

passes : verify_time_at clock (some []) (some []) drift now ≡ some true
unfolding verify_time_at ◌+ℤ◌
passes = refl

verify_time_at_sound_example :
    LowerHolds clock (some []) (negsuc 299999) now × UpperHolds clock (some []) (pos 300000) now
verify_time_at_sound_example = verify_time_at_sound clock (some []) (some []) drift now passes

verify_time_at_complete_example : verify_time_at clock (some []) (some []) drift now ≡ some true
unfolding ◌+ℤ◌
verify_time_at_complete_example =
    verify_time_at_complete clock (some []) (some []) drift now (λ t e. refl) (λ t e. refl)
      (pos 1000000000, refl, omega arith) (pos 1000000000, refl, omega arith)

-- The last instant of the year 9999, the end of the range of the `time` crate.
abbrev last_instant : ℤ
last_instant = pos 253402300799999999999

in_range : ℤ → Option ℤ
in_range u = if leb_ℤ u last_instant then some u else none

in_range_exact : (u : ℤ) {v : ℤ} → in_range u ≡ some v → v ≡ u
unfolding in_range
in_range_exact u h = ground arith

-- Every text denotes the last second of the year 9999, and nothing later can be represented.
abbrev bounded : TimeCrate
bounded = record (unlimited (λ t. some (pos 253402300799000000000))) {
  checked_add = λ t d. in_range (t +ℤ d);
  checked_add_exact = λ t d e. in_range_exact (t +ℤ d) e;
}

year_9999_panics : verify_time_at bounded none (some []) drift now ≡ none
unfolding verify_time_at in_range ◌+ℤ◌
year_9999_panics = refl

abbrev logout : Value
logout = object (
    entry (ascii "request")
      (object (entry (ascii "notOnOrAfter") (str (ascii "2024-01-01T00:00:00Z")) end)) end)

logout_passes :
    logout_request_not_on_or_after_deadline clock logout (pos 0) (pos 300000)
    ≡ ok (some (pos 301000000000))
unfolding logout_request_not_on_or_after_deadline effective_not_on_or_after get_str get walk get_key
    lookup split ascii text_eq run_inbound ◌+ℤ◌
logout_passes = refl

logout_request_not_on_or_after_deadline_sound_example :
    DeadlineHolds clock
      (get_str logout (ascii "request.notOnOrAfter"))
      (pos 0)
      (pos 300000)
      (some (pos 301000000000))
logout_request_not_on_or_after_deadline_sound_example =
    logout_request_not_on_or_after_deadline_sound clock logout (pos 0) (pos 300000)
      (some (pos 301000000000)) logout_passes

logout_late :
    logout_request_not_on_or_after_deadline clock logout (pos 301000000000) (pos 300000)
    ≡ err (time_window_invalid logout_request_not_on_or_after)
unfolding logout_request_not_on_or_after_deadline effective_not_on_or_after get_str get walk get_key
    lookup split ascii text_eq run_inbound ◌+ℤ◌
logout_late = refl

abbrev answered : ParserType → Result Value
answered p = ok (object (entry (ascii "top") (str success) end))

check_status_with_limits_iff_example :
    (check_status_with_limits answered saml_response ≡ ok tt)
    ↔ ((v : Value) × (answered saml_response ≡ ok v) × (get_str v (ascii "top") ≡ some success))
check_status_with_limits_iff_example = check_status_with_limits_iff answered saml_response tt
