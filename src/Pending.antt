-- ===== src/Pending.antt =====
-- src/browser/pending.rs: the correlation state of a message that waits for its response, and its
-- persistable snapshot, with the checked identifiers of src/model/identifiers.rs,
-- src/model/endpoint.rs and src/config/descriptors.rs. A checked text is the text itself; texts are
-- lists of characters. `parse_url` stands for `url::Url::parse`, of a crate that is no part of the
-- repository: the scheme and whether there is a host, or the text of the error.
pub mod Fields
pub mod Authn
pub mod Logout
mod Tests
use opensaml_rs.Prelude.{
  ℕ, ◌≡◌, Bool, true, false, ◌&&◌, ◌||◌, not, Option, none, some, List, [], ◌∷◌, Text, ascii,
  text_eq, all, if◌then◌else◌, ◌⊎◌, inl, inr,
}
use opensaml_rs.Error.{
  SamlError, invalid, undefined_binding, Binding, RelayStateParam, absent, present_empty,
  present_value, Result, ok, err, ◌>>=◌, ◌>>◌, ensure, ok_or, transpose,
}
use opensaml_rs.Element.{is_whitespace}
use opensaml_rs.Relay.{validate}
use opensaml_rs.BrowserBinding.{
  short_name, from_short_name, from_urn, SsoRequestBinding, SsoResponseBinding, response_post,
  response_simple_sign, LogoutBinding, logout_redirect, logout_post, logout_simple_sign,
  request_as_binding, response_as_binding, logout_as_binding, request_try_from, response_try_from,
  logout_try_from,
}

-- `value.trim().is_empty()`
abbrev pub is_blank : Text → Bool
is_blank value = all is_whitespace value

unfoldable pub message_id_try_new : Text → Result Text
message_id_try_new value = do
  ensure (not (is_blank value)) (invalid (ascii "SAML message ID must not be empty"))
  ok value

unfoldable pub entity_id_try_new : Text → Result Text
entity_id_try_new value = do
  ensure (not (is_blank value)) (invalid (ascii "entity ID must not be empty"))
  ok value

-- `matches!(parsed.scheme(), "http" | "https") && parsed.has_host()`
abbrev pub is_http : Text × Bool → Bool
is_http parsed = (text_eq parsed.0 (ascii "http") || text_eq parsed.0 (ascii "https")) && parsed.1

abbrev pub endpoint_of : Text → (Text × Bool) ⊎ Text → Result Text
endpoint_of value (inr message) = err (invalid message)
endpoint_of value (inl parsed) = do
  ensure (is_http parsed) (invalid (ascii "endpoint URL must be absolute HTTP(S)"))
  ok value

-- src/browser/endpoints.rs
pub record AcsEndpoint : Type 0 where
  pub binding : SsoResponseBinding
  pub url : Text
  pub index : Option ℕ
  pub is_default : Bool

pub record PendingSnapshot : Type 0 where
  pub id : Text
  pub relay_state : RelayStateParam
  pub peer_entity_id : Text
  pub expected_binding : Text
  pub request_binding : Option Text
  pub acs_url : Text
  pub acs_binding : Text
  pub acs_index : Option ℕ
  pub acs_is_default : Bool
  pub issued_at : Option Text
  pub expires_at : Option Text

-- `Pending<AuthnRequest>` and `Pending<LogoutRequest>`, with their details.
pub record PendingAuthnRequest : Type 0 where
  pub id : Text
  pub relay_state : RelayStateParam
  pub request_binding : Option SsoRequestBinding
  pub response_binding : SsoResponseBinding
  pub acs : AcsEndpoint
  pub peer_entity_id : Text
  pub issued_at : Option Text
  pub expires_at : Option Text

pub record PendingLogoutRequest : Type 0 where
  pub id : Text
  pub relay_state : RelayStateParam
  pub binding : LogoutBinding
  pub peer_entity_id : Text
  pub issued_at : Option Text
  pub expires_at : Option Text

abbrev pub is_some {ℓ} : {A : Type ℓ} → Option A → Bool
is_some none = false
is_some (some a) = true

unfoldable pub validate_snapshot_timing : Option Text → Option Text → Result (Unit {0})
validate_snapshot_timing issued_at expires_at =
    ensure (not (is_some expires_at && not (is_some issued_at)))
      (invalid (ascii "pending snapshot expiration requires an issue instant"))

abbrev pub or_else_binding : Option Binding → Option Binding → Option Binding
or_else_binding none b = b
or_else_binding (some a) b = some a

unfoldable pub binding_from_snapshot_value : Text → Result Binding
binding_from_snapshot_value value =
    ok_or (or_else_binding (from_short_name value) (from_urn value)) undefined_binding

unfoldable pub sso_response_binding_from_snapshot_value : Text → Result SsoResponseBinding
sso_response_binding_from_snapshot_value value =
    binding_from_snapshot_value value >>= response_try_from

unfoldable pub sso_request_binding_from_snapshot_value : Text → Result SsoRequestBinding
sso_request_binding_from_snapshot_value value =
    binding_from_snapshot_value value >>= request_try_from

unfoldable pub logout_binding_from_snapshot_value : Text → Result LogoutBinding
logout_binding_from_snapshot_value value = binding_from_snapshot_value value >>= logout_try_from

unfoldable pub validate_common : RelayStateParam → Text → Result (Unit {0})
validate_common relay_state peer_entity_id = do
  validate relay_state
  checked ← entity_id_try_new peer_entity_id
  ok tt

abbrev pub same_response : SsoResponseBinding → SsoResponseBinding → Bool
same_response response_post response_post = true
same_response response_simple_sign response_simple_sign = true
same_response _ _ = false

abbrev pub same_logout : LogoutBinding → LogoutBinding → Bool
same_logout logout_redirect logout_redirect = true
same_logout logout_post logout_post = true
same_logout logout_simple_sign logout_simple_sign = true
same_logout _ _ = false

-- `Pending::<AuthnRequest>::try_new`
unfoldable pub authn_try_new :
    Text → RelayStateParam → AcsEndpoint → SsoResponseBinding → Text → Result PendingAuthnRequest
authn_try_new request_id relay_state acs response_binding idp_entity_id = do
  validate_common relay_state idp_entity_id
  ensure (same_response acs.binding response_binding)
      (invalid (ascii "ACS binding must match expected response binding"))
  ok (record {
    id = request_id;
    relay_state = relay_state;
    request_binding = none;
    response_binding = response_binding;
    acs = acs;
    peer_entity_id = idp_entity_id;
    issued_at = none;
    expires_at = none;
  })

-- `Pending::<LogoutRequest>::try_new`
unfoldable pub logout_try_new :
    Text → RelayStateParam → LogoutBinding → Text → Result PendingLogoutRequest
logout_try_new request_id relay_state binding peer_entity_id = do
  validate_common relay_state peer_entity_id
  ok (record {
    id = request_id;
    relay_state = relay_state;
    binding = binding;
    peer_entity_id = peer_entity_id;
    issued_at = none;
    expires_at = none;
  })

abbrev pub map_text {ℓ} : {A : Type ℓ} → (A → Text) → Option A → Option Text
map_text f none = none
map_text f (some a) = some (f a)

unfoldable pub authn_snapshot : PendingAuthnRequest → PendingSnapshot
authn_snapshot p = record {
  id = p.id;
  relay_state = p.relay_state;
  peer_entity_id = p.peer_entity_id;
  expected_binding = short_name (response_as_binding p.response_binding);
  request_binding = map_text (λ b. short_name (request_as_binding b)) p.request_binding;
  acs_url = p.acs.url;
  acs_binding = short_name (response_as_binding p.acs.binding);
  acs_index = p.acs.index;
  acs_is_default = p.acs.is_default;
  issued_at = p.issued_at;
  expires_at = p.expires_at;
}

unfoldable pub logout_snapshot : PendingLogoutRequest → PendingSnapshot
logout_snapshot p = record {
  id = p.id;
  relay_state = p.relay_state;
  peer_entity_id = p.peer_entity_id;
  expected_binding = short_name (logout_as_binding p.binding);
  request_binding = some (short_name (logout_as_binding p.binding));
  acs_url = [];
  acs_binding = [];
  acs_index = none;
  acs_is_default = false;
  issued_at = p.issued_at;
  expires_at = p.expires_at;
}

abbrev pub unwrap_or : Option LogoutBinding → LogoutBinding → LogoutBinding
unwrap_or none default = default
unwrap_or (some b) default = b

unfoldable pub logout_from_snapshot : PendingSnapshot → Result PendingLogoutRequest
logout_from_snapshot s = do
  validate s.relay_state
  validate_snapshot_timing s.issued_at s.expires_at
  request_id ← message_id_try_new s.id
  peer_entity_id ← entity_id_try_new s.peer_entity_id
  response_binding ← logout_binding_from_snapshot_value s.expected_binding
  stated ← transpose s.request_binding logout_binding_from_snapshot_value
  ensure (same_logout (unwrap_or stated response_binding) response_binding)
      (invalid (ascii "logout request and response bindings must match"))
  pending ← logout_try_new request_id s.relay_state response_binding peer_entity_id
  ok (record pending { issued_at = s.issued_at; expires_at = s.expires_at })

module _ (parse_url : Text → (Text × Bool) ⊎ Text) where
  unfoldable pub endpoint_url_try_new : Text → Result Text
  endpoint_url_try_new value = endpoint_of value (parse_url value)

  unfoldable pub authn_from_snapshot : PendingSnapshot → Result PendingAuthnRequest
  authn_from_snapshot s = do
    validate s.relay_state
    validate_snapshot_timing s.issued_at s.expires_at
    request_id ← message_id_try_new s.id
    idp_entity_id ← entity_id_try_new s.peer_entity_id
    response_binding ← sso_response_binding_from_snapshot_value s.expected_binding
    acs_binding ← sso_response_binding_from_snapshot_value s.acs_binding
    url ← endpoint_url_try_new s.acs_url
    request_binding ← transpose s.request_binding sso_request_binding_from_snapshot_value
    pending ←
        authn_try_new request_id s.relay_state
          (record {
            binding = acs_binding;
            url = url;
            index = s.acs_index;
            is_default = s.acs_is_default;
          })
          response_binding idp_entity_id
    ok (record pending {
      request_binding = request_binding;
      issued_at = s.issued_at;
      expires_at = s.expires_at;
    })
