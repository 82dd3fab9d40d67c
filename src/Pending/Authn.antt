-- ===== src/Pending/Authn.antt =====
-- src/browser/pending.rs: pending authentication requests, stored and restored.
use opensaml_rs.Prelude.{◌≡◌, Bool, true, false, Text, arith, ◌⊎◌}
use opensaml_rs.Error.{ok}
use opensaml_rs.Relay.{validate}
use opensaml_rs.Pending.Fields.{read_requests, read_response, timing_passes}
use opensaml_rs.Pending.{
  PendingAuthnRequest, PendingSnapshot, is_blank, is_some, message_id_try_new, entity_id_try_new,
  validate_snapshot_timing, validate_common, authn_try_new, authn_snapshot, authn_from_snapshot,
  endpoint_url_try_new, same_response,
}

module _ (parse_url : Text → (Text × Bool) ⊎ Text) where
  -- What the constructors and the snapshot format demand.
  pub record IsAuthn (p : PendingAuthnRequest) : Type 0 where
    pub relay_state : validate p.relay_state ≡ ok tt
    pub id : is_blank p.id ≡ false
    pub peer : is_blank p.peer_entity_id ≡ false
    pub url : endpoint_url_try_new parse_url p.acs.url ≡ ok p.acs.url
    pub binding : same_response p.acs.binding p.response_binding ≡ true
    pub timing : is_some p.expires_at ≡ true → is_some p.issued_at ≡ true

  -- A pending authentication request is restored from its snapshot as it was.
  pub authn_from_snapshot-authn_snapshot :
      (p : PendingAuthnRequest)
      → IsAuthn p
      → authn_from_snapshot parse_url (authn_snapshot p) ≡ ok p
  unfolding authn_from_snapshot authn_snapshot message_id_try_new entity_id_try_new authn_try_new
      validate_common
  authn_from_snapshot-authn_snapshot p v = simp (
    v.relay_state,
    timing_passes p.issued_at p.expires_at v.timing,
    v.id,
    v.peer,
    read_response p.response_binding,
    read_response p.acs.binding,
    v.url,
    read_requests p.request_binding,
    v.binding,
  )

  url_kept :
      (value : Text) {url : Text} → endpoint_url_try_new parse_url value ≡ ok url → url ≡ value
  unfolding endpoint_url_try_new
  url_kept value h = ground arith

  -- Whatever is restored from a snapshot meets the demands.
  pub authn_from_snapshot-IsAuthn :
      (s : PendingSnapshot) {p : PendingAuthnRequest}
      → authn_from_snapshot parse_url s ≡ ok p
      → IsAuthn p
  unfolding authn_from_snapshot message_id_try_new entity_id_try_new authn_try_new validate_common
      validate_snapshot_timing endpoint_url_try_new
  authn_from_snapshot-IsAuthn s h = record {
    relay_state = ground arith;
    id = ground arith;
    peer = ground arith;
    url = ground arith;
    binding = ground arith;
    timing = λ e. ground arith;
  }
