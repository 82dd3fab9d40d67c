-- ===== src/Validation/CacheKey.antt =====
-- src/model/validation.rs: the text under which an identifier is stored.
use opensaml_rs.Prelude.{◌≡◌, ascii, arith}
use opensaml_rs.Validation.{
  ReplayKey, authn_request_id, logout_request_id, logout_response_id, response_id, assertion_id,
  kind, value, cache_key,
}

-- Identifiers of different families, or different identifiers of one family, never share a key.
pub cache_key_injective : (a b : ReplayKey) → cache_key a ≡ cache_key b → a ≡ b
unfolding cache_key kind value ascii
cache_key_injective (authn_request_id x) (authn_request_id y) h = cc
cache_key_injective (logout_request_id x) (logout_request_id y) h = cc
cache_key_injective (logout_response_id x) (logout_response_id y) h = cc
cache_key_injective (response_id x) (response_id y) h = cc
cache_key_injective (assertion_id x) (assertion_id y) h = cc
cache_key_injective _ _ h = ground arith
