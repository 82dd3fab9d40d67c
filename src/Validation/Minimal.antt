-- ===== src/Validation/Minimal.antt =====
-- src/model/validation.rs: the in-memory cache that the documentation of `ReplayCache` gives. The
-- hash map is an association list.
use opensaml_rs.Prelude.{
  ◌≡◌, ◌≢◌, Bool, true, false, ◌||◌, List, [], ◌∷◌, Text, text_eq, text_eq_refl, arith,
  if◌then◌else◌,
}
use opensaml_rs.Prelude.Int.{ℤ, ◌<ℤ◌}
use opensaml_rs.Error.{replay_detected, ok, err}
use opensaml_rs.Validation.{CheckAndStore, ReplayKey, cache_key}
use opensaml_rs.Validation.Replay.{IsReplayCache}

abbrev pub MinimalReplayCache : Type 0
MinimalReplayCache = List (Text × ℤ)

unfoldable pub contains_key : MinimalReplayCache → Text → Bool
contains_key [] k = false
contains_key ((j, _) ∷ cache) k = text_eq j k || contains_key cache k

unfoldable pub check_and_store : CheckAndStore MinimalReplayCache
check_and_store key expires_at cache =
    if contains_key cache (cache_key key)
    then (err (replay_detected (cache_key key)), cache)
    else (ok tt, (cache_key key, expires_at) ∷ cache)

pub refuses_lem :
    (now : ℤ) (key : ReplayKey) (expires_at : ℤ) (s : MinimalReplayCache) (until : ℤ)
    → contains_key s (cache_key key) ≡ true
    → now <ℤ until
    → (check_and_store key expires_at s).0 ≢ ok tt
unfolding check_and_store
refuses_lem now key expires_at s until h early passed = ground (arith, h, passed)

pub stores_lem :
    (now : ℤ) (key : ReplayKey) (expires_at : ℤ) (s : MinimalReplayCache)
    → (check_and_store key expires_at s).0 ≡ ok tt
    → contains_key (check_and_store key expires_at s).1 (cache_key key) ≡ true
unfolding check_and_store contains_key
stores_lem now key expires_at s h = ground (arith, text_eq_refl (cache_key key))

pub keeps_lem :
    (now : ℤ) (key : ReplayKey) (expires_at : ℤ) (s : MinimalReplayCache) (k : Text) (until : ℤ)
    → contains_key s k ≡ true
    → now <ℤ until
    → contains_key (check_and_store key expires_at s).1 k ≡ true
unfolding check_and_store contains_key
keeps_lem now key expires_at s k until h early = ground (arith, h)

-- The cache keeps the contract: it holds a key for ever.
abbrev pub minimal-IsReplayCache : IsReplayCache (λ now. check_and_store)
minimal-IsReplayCache = record {
  Holds = λ s k until. contains_key s k ≡ true;
  refuses = λ now key expires_at s until. refuses_lem now key expires_at s until;
  stores = λ now key expires_at s. stores_lem now key expires_at s;
  keeps = λ now key expires_at s k until. keeps_lem now key expires_at s k until;
}
