-- ===== src/Validation/Tests.antt =====
-- Inputs at which the theorems on src/model/validation.rs apply.
use opensaml_rs.Prelude.{
  ◌≡◌, ◌≢◌, refl, none, some, List, [], ◌∷◌, Text, ascii, text_eq, text_eq_refl, arith, Bool, true,
  false, ◌&&◌, ◌||◌, if◌then◌else◌, ◌⊎◌, inl, inr, Bool-cases,
}
use opensaml_rs.Prelude.Int.{ℤ, pos, ◌+ℤ◌, ◌-ℤ◌, ◌<ℤ◌, ltb_ℤ}
use opensaml_rs.Error.{replay_detected, ok, err}
use opensaml_rs.Time.{TimeCrate}
use opensaml_rs.Time.{unlimited}
use opensaml_rs.Validation.{
  five_minutes, disabled, CheckAndStore, ReplayKey, authn_request_id, kind, value, cache_key,
  require_cache, bounded, SamlValidationContext, positive_millis, negative_millis_magnitude,
  offset_datetime_from_system_time, offset_checked_add, offset_checked_sub,
  check_authn_request_issue_instant, check_and_store_message_replay_until,
  message_replay_expires_at,
}
use opensaml_rs.Validation.Age.{
  InWindow, IsRepresentable, check_authn_request_issue_instant_sound,
  check_authn_request_issue_instant_complete,
}
use opensaml_rs.Validation.CacheKey.{cache_key_injective}
use opensaml_rs.Validation.Replay.{
  IsReplayCache, Arrival, AllApart, note, accepted, accepted-AllApart,
}
use opensaml_rs.Validation.Minimal.{MinimalReplayCache, contains_key, check_and_store}

-- A clock at which every text denotes one minute after the epoch.
abbrev clock : TimeCrate
clock = unlimited (λ t. some (pos 60000000000))

-- The validation clock stands two minutes after the epoch.
abbrev context : SamlValidationContext MinimalReplayCache
context = record {
  now = pos 120000000000;
  clock_skew = five_minutes;
  authn_request_age = bounded 60000000000;
  replay = require_cache [];
  replay_retention = some 1000000000;
}

abbrev request : ReplayKey
request = authn_request_id (b'_' ∷ b'a' ∷ [])

check_passes : check_authn_request_issue_instant clock context [] ≡ ok tt
unfolding check_authn_request_issue_instant positive_millis negative_millis_magnitude
    offset_datetime_from_system_time offset_checked_add offset_checked_sub ◌+ℤ◌ ◌-ℤ◌
check_passes = refl

check_authn_request_issue_instant_sound_example :
    (issued : ℤ) × (some (pos 60000000000) ≡ some issued)
    × InWindow clock context 60000000000 issued
check_authn_request_issue_instant_sound_example =
    check_authn_request_issue_instant_sound clock context 60000000000 [] refl check_passes

representable : IsRepresentable clock context 60000000000
unfolding positive_millis negative_millis_magnitude offset_datetime_from_system_time
    offset_checked_add offset_checked_sub ◌+ℤ◌ ◌-ℤ◌
representable = record { allowance = refl; clock = refl; earliest = refl; latest = refl }

in_window : InWindow clock context 60000000000 (pos 60000000000)
unfolding positive_millis negative_millis_magnitude ◌+ℤ◌ ◌-ℤ◌
in_window = (omega arith, omega arith)

check_authn_request_issue_instant_complete_example :
    check_authn_request_issue_instant clock context [] ≡ ok tt
check_authn_request_issue_instant_complete_example =
    check_authn_request_issue_instant_complete clock context 60000000000 [] (pos 60000000000) refl
      representable refl in_window

cache_key_injective_example : request ≡ request
cache_key_injective_example = cache_key_injective request request refl

-- A cache that looks at entries only while they are not due.
live : List (Text × ℤ) → Text → ℤ → Bool
live [] k now = false
live ((j, due) ∷ cache) k now = (text_eq j k && ltb_ℤ now due) || live cache k now

due_cache : ℤ → CheckAndStore (List (Text × ℤ))
unfolding live
due_cache now key expires_at cache =
    if live cache (cache_key key) now
    then (err (replay_detected (cache_key key)), cache)
    else (ok tt, (cache_key key, expires_at) ∷ cache)

Held : List (Text × ℤ) → Text → ℤ → Type 0
Held [] k until = ⊥
Held ((j, due) ∷ cache) k until = ((j ≡ k) × (due ≡ until)) ⊎ Held cache k until

live_lem :
    (cache : List (Text × ℤ)) (k : Text) (until now : ℤ)
    → Held cache k until
    → now <ℤ until
    → live cache k now ≡ true
unfolding live Held
live_lem [] k until now h early = absurd h
live_lem ((j, due) ∷ cache) k until now (inl (same, at)) early =
    ground (arith, same, at, early, text_eq_refl k)
live_lem ((j, due) ∷ cache) k until now (inr h) early =
    ground (arith, live_lem cache k until now h early)

refuses_due :
    (now : ℤ) (key : ReplayKey) (expires_at : ℤ) (s : List (Text × ℤ)) (until : ℤ)
    → Held s (cache_key key) until
    → now <ℤ until
    → (due_cache now key expires_at s).0 ≢ ok tt
unfolding due_cache
refuses_due now key expires_at s until h early passed =
    ground (arith, live_lem s (cache_key key) until now h early, passed)

stores_due :
    (now : ℤ) (key : ReplayKey) (expires_at : ℤ) (s : List (Text × ℤ))
    → (due_cache now key expires_at s).0 ≡ ok tt
    → Held (due_cache now key expires_at s).1 (cache_key key) expires_at
unfolding due_cache Held
stores_due now key expires_at s h = elim (Bool-cases (live s (cache_key key) now)) [
  | inl old ↦ absurd (ground (arith, h, old))
  | inr new ↦ rw new (inl (refl, refl))
]

keeps_due :
    (now : ℤ) (key : ReplayKey) (expires_at : ℤ) (s : List (Text × ℤ)) (k : Text) (until : ℤ)
    → Held s k until
    → now <ℤ until
    → Held (due_cache now key expires_at s).1 k until
unfolding due_cache Held
keeps_due now key expires_at s k until h early = elim (Bool-cases (live s (cache_key key) now)) [
  | inl old ↦ rw old h
  | inr new ↦ rw new (inr h)
]

due-IsReplayCache : IsReplayCache due_cache
due-IsReplayCache = record {
  Holds = Held;
  refuses = λ now key expires_at s until. refuses_due now key expires_at s until;
  stores = λ now key expires_at s. stores_due now key expires_at s;
  keeps = λ now key expires_at s k until. keeps_due now key expires_at s k until;
}

-- The same request three times: at once, before the retention is over, and after it.
abbrev arrivals : List Arrival
arrivals =
    record { now = pos 0; key = request; deadline = none }
    ∷ record { now = pos 5; key = request; deadline = none }
    ∷ record { now = pos 2000000000; key = request; deadline = none }
    ∷ []

abbrev due_context : SamlValidationContext (List (Text × ℤ))
due_context = record {
  now = pos 0;
  clock_skew = five_minutes;
  authn_request_age = disabled;
  replay = require_cache [];
  replay_retention = some 1000000000;
}

accepted_twice :
    accepted clock due_cache due_context (require_cache []) arrivals
    ≡ record { now = pos 0; key = request; deadline = none }
      ∷ record { now = pos 2000000000; key = request; deadline = none }
      ∷ []
unfolding accepted note message_replay_expires_at check_and_store_message_replay_until due_cache
    live cache_key kind value ascii text_eq ◌+ℤ◌
accepted_twice = refl

-- The in-memory cache of the documentation never forgets.
accepted_once :
    accepted clock (λ now. check_and_store) context (require_cache []) arrivals
    ≡ record { now = pos 0; key = request; deadline = none } ∷ []
unfolding accepted note message_replay_expires_at check_and_store_message_replay_until
    check_and_store contains_key cache_key kind value ascii text_eq ◌+ℤ◌
accepted_once = refl

accepted-AllApart_example :
    AllApart (some 1000000000) (accepted clock due_cache due_context (require_cache []) arrivals)
accepted-AllApart_example =
    accepted-AllApart clock due_cache due_context due-IsReplayCache (pos 0) [] arrivals
      (omega arith, (omega arith, (omega arith, tt)))
