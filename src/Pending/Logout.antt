-- ===== src/Pending/Logout.antt =====
-- src/browser/pending.rs: pending logout requests, stored and restored.
use opensaml_rs.Prelude.{◌≡◌, refl, true, false, arith}
use opensaml_rs.Error.{ok}
use opensaml_rs.Relay.{validate}
use opensaml_rs.BrowserBinding.{LogoutBinding, logout_redirect, logout_post, logout_simple_sign}
use opensaml_rs.Pending.Fields.{read_logout, timing_passes}
use opensaml_rs.Pending.{
  PendingLogoutRequest, PendingSnapshot, is_blank, is_some, message_id_try_new, entity_id_try_new,
  validate_snapshot_timing, validate_common, logout_try_new, logout_snapshot, logout_from_snapshot,
  same_logout,
}

-- What the constructors and the snapshot format demand.
pub record IsLogout (p : PendingLogoutRequest) : Type 0 where
  pub relay_state : validate p.relay_state ≡ ok tt
  pub id : is_blank p.id ≡ false
  pub peer : is_blank p.peer_entity_id ≡ false
  pub timing : is_some p.expires_at ≡ true → is_some p.issued_at ≡ true

-- A pending logout request is restored from its snapshot as it was.
pub logout_from_snapshot-logout_snapshot :
    (p : PendingLogoutRequest) → IsLogout p → logout_from_snapshot (logout_snapshot p) ≡ ok p
unfolding logout_from_snapshot logout_snapshot message_id_try_new entity_id_try_new logout_try_new
    validate_common
logout_from_snapshot-logout_snapshot p v = simp (
  v.relay_state,
  timing_passes p.issued_at p.expires_at v.timing,
  v.id,
  v.peer,
  read_logout p.binding,
  same_self p.binding,
)
  where
    same_self : (b : LogoutBinding) → same_logout b b ≡ true
    same_self logout_redirect = refl
    same_self logout_post = refl
    same_self logout_simple_sign = refl

-- Whatever is restored from a snapshot meets the demands.
pub logout_from_snapshot-IsLogout :
    (s : PendingSnapshot) {p : PendingLogoutRequest} → logout_from_snapshot s ≡ ok p → IsLogout p
unfolding logout_from_snapshot message_id_try_new entity_id_try_new logout_try_new validate_common
    validate_snapshot_timing
logout_from_snapshot-IsLogout s h = record {
  relay_state = ground arith;
  id = ground arith;
  peer = ground arith;
  timing = λ e. ground arith;
}
