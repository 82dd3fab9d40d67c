-- ===== src/Pending/Tests.antt =====
-- Inputs at which the theorems on src/browser/pending.rs apply, and a pending request that does
-- not survive its own snapshot.
use opensaml_rs.Prelude.{◌≡◌, refl, Bool, true, none, some, [], ◌∷◌, Text, ascii, text_eq, ◌⊎◌, inl}
use opensaml_rs.Error.{present_value, invalid, ok, err}
use opensaml_rs.Relay.{validate, validate_relay_state_bytes, len}
use opensaml_rs.BrowserBinding.{response_post, request_redirect, logout_post}
use opensaml_rs.Pending.{
  PendingAuthnRequest, PendingLogoutRequest, validate_snapshot_timing, endpoint_url_try_new,
  authn_snapshot, authn_from_snapshot, logout_snapshot, logout_from_snapshot,
}
use opensaml_rs.Pending.Authn.{
  IsAuthn, authn_from_snapshot-authn_snapshot, authn_from_snapshot-IsAuthn,
}
use opensaml_rs.Pending.Logout.{
  IsLogout, logout_from_snapshot-logout_snapshot, logout_from_snapshot-IsLogout,
}

-- Every text is a URL with this scheme and a host.
abbrev parse_url : Text → (Text × Bool) ⊎ Text
parse_url value = inl (ascii "https", true)

abbrev authn : PendingAuthnRequest
authn = record {
  id = b'_' ∷ [];
  relay_state = present_value (b't' ∷ []);
  request_binding = some request_redirect;
  response_binding = response_post;
  acs = record { binding = response_post; url = b'u' ∷ []; index = some 1; is_default = true };
  peer_entity_id = b'i' ∷ [];
  issued_at = some (b'0' ∷ []);
  expires_at = some (b'1' ∷ []);
}

authn-IsAuthn : IsAuthn parse_url authn
unfolding validate validate_relay_state_bytes len endpoint_url_try_new text_eq ascii
authn-IsAuthn = record {
  relay_state = refl;
  id = refl;
  peer = refl;
  url = refl;
  binding = refl;
  timing = λ e. refl;
}

authn_from_snapshot-authn_snapshot_example :
    authn_from_snapshot parse_url (authn_snapshot authn) ≡ ok authn
authn_from_snapshot-authn_snapshot_example =
    authn_from_snapshot-authn_snapshot parse_url authn authn-IsAuthn

authn_restored : authn_from_snapshot parse_url (authn_snapshot authn) ≡ ok authn
authn_restored = authn_from_snapshot-authn_snapshot parse_url authn authn-IsAuthn

authn_from_snapshot-IsAuthn_example : IsAuthn parse_url authn
authn_from_snapshot-IsAuthn_example =
    authn_from_snapshot-IsAuthn parse_url (authn_snapshot authn) authn_restored

abbrev logout : PendingLogoutRequest
logout = record {
  id = b'_' ∷ [];
  relay_state = present_value (b't' ∷ []);
  binding = logout_post;
  peer_entity_id = b'i' ∷ [];
  issued_at = some (b'0' ∷ []);
  expires_at = none;
}

logout-IsLogout : IsLogout logout
unfolding validate validate_relay_state_bytes len
logout-IsLogout = record { relay_state = refl; id = refl; peer = refl; timing = λ e. refl }

logout_from_snapshot-logout_snapshot_example :
    logout_from_snapshot (logout_snapshot logout) ≡ ok logout
logout_from_snapshot-logout_snapshot_example =
    logout_from_snapshot-logout_snapshot logout logout-IsLogout

restored : logout_from_snapshot (logout_snapshot logout) ≡ ok logout
restored = logout_from_snapshot-logout_snapshot logout logout-IsLogout

logout_from_snapshot-IsLogout_example : IsLogout logout
logout_from_snapshot-IsLogout_example =
    logout_from_snapshot-IsLogout (logout_snapshot logout) restored

-- `with_expiration` without `with_issue_instant`: the snapshot is refused.
expiring_is_lost :
    logout_from_snapshot
      (logout_snapshot (record logout { issued_at = none; expires_at = some (b'1' ∷ []) }))
    ≡ err (invalid (ascii "pending snapshot expiration requires an issue instant"))
unfolding logout_from_snapshot logout_snapshot validate validate_relay_state_bytes len
    validate_snapshot_timing
expiring_is_lost = refl
