-- ===== src/Pending/Fields.antt =====
-- src/browser/pending.rs: the fields of a snapshot, read back.
use opensaml_rs.Prelude.{◌≡◌, refl, true, Option, none, some, Text, text_eq, ascii, arith}
use opensaml_rs.Error.{ok, transpose}
use opensaml_rs.BrowserBinding.{
  LogoutBinding, logout_redirect, logout_post, logout_simple_sign, short_name, from_short_name,
  logout_as_binding, SsoResponseBinding, response_post, response_simple_sign, response_as_binding,
  SsoRequestBinding, request_redirect, request_post, request_simple_sign, request_as_binding,
}
use opensaml_rs.Pending.{
  is_some, map_text, validate_snapshot_timing, logout_binding_from_snapshot_value,
  sso_response_binding_from_snapshot_value, sso_request_binding_from_snapshot_value,
  binding_from_snapshot_value,
}

pub read_logout :
    (b : LogoutBinding)
    → logout_binding_from_snapshot_value (short_name (logout_as_binding b)) ≡ ok b
unfolding logout_binding_from_snapshot_value binding_from_snapshot_value from_short_name text_eq
    short_name ascii
read_logout logout_redirect = refl
read_logout logout_post = refl
read_logout logout_simple_sign = refl

pub timing_passes :
    (issued expires : Option Text)
    → (is_some expires ≡ true → is_some issued ≡ true)
    → validate_snapshot_timing issued expires ≡ ok tt
unfolding validate_snapshot_timing
timing_passes none none h = refl
timing_passes (some i) none h = refl
timing_passes (some i) (some e) h = refl
timing_passes none (some e) h = ground (arith, h refl)

pub read_request :
    (b : SsoRequestBinding)
    → sso_request_binding_from_snapshot_value (short_name (request_as_binding b)) ≡ ok b
unfolding sso_request_binding_from_snapshot_value binding_from_snapshot_value from_short_name
    text_eq short_name ascii
read_request request_redirect = refl
read_request request_post = refl
read_request request_simple_sign = refl

pub read_response :
    (b : SsoResponseBinding)
    → sso_response_binding_from_snapshot_value (short_name (response_as_binding b)) ≡ ok b
unfolding sso_response_binding_from_snapshot_value binding_from_snapshot_value from_short_name
    text_eq short_name ascii
read_response response_post = refl
read_response response_simple_sign = refl

pub read_requests :
    (b : Option SsoRequestBinding)
    → transpose
        (map_text (λ b. short_name (request_as_binding b)) b)
        sso_request_binding_from_snapshot_value
      ≡ ok b
read_requests none = refl
read_requests (some b) = rw (read_request b)
