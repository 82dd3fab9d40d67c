-- ===== src/Validation.antt =====
-- src/model/validation.rs: the caller's validation context (clock, skew, age and replay policy) and
-- the checks that it makes. The replay cache is the caller's: a state with one operation.
pub mod Age
pub mod CacheKey
pub mod Replay
pub mod Minimal
mod Tests
use opensaml_rs.Prelude.{
  ℕ, suc, ◌+◌, ◌*◌, ◌≡◌, Bool, true, false, ◌||◌, not, Option, none, some, ◌++◌, Text, ascii, ltb,
  if◌then◌else◌,
}
use opensaml_rs.Prelude.Int.{ℤ, pos, negsuc, ltb_ℤ}
use opensaml_rs.Error.{
  SamlError, time_window_invalid, replay_expiration, authn_request_issue_instant, invalid, Result,
  ok, err, ◌>>=◌, ◌>>◌, ensure, ok_or, transpose,
}
use opensaml_rs.Time.{TimeCrate, from_millis, duration_checked_add}

pub record ClockSkew : Type 0 where
  pub not_before_ms : ℤ
  pub not_on_or_after_ms : ℤ

abbrev pub strict : ClockSkew
strict = record { not_before_ms = pos 0; not_on_or_after_ms = pos 0 }

abbrev pub five_minutes : ClockSkew
five_minutes = record { not_before_ms = negsuc 299999; not_on_or_after_ms = pos 300000 }

-- `MessageId` and `AssertionId` are texts.
pub data ReplayKey : Type 0 where
  authn_request_id logout_request_id logout_response_id response_id assertion_id : Text → ReplayKey

unfoldable pub kind : ReplayKey → Text
kind (authn_request_id _) = ascii "authn_request_id"
kind (logout_request_id _) = ascii "logout_request_id"
kind (logout_response_id _) = ascii "logout_response_id"
kind (response_id _) = ascii "response_id"
kind (assertion_id _) = ascii "assertion_id"

unfoldable pub value : ReplayKey → Text
value (authn_request_id id) = id
value (logout_request_id id) = id
value (logout_response_id id) = id
value (response_id id) = id
value (assertion_id id) = id

unfoldable pub cache_key : ReplayKey → Text
cache_key key = kind key ++ (ascii ":" ++ value key)

-- The trait `ReplayCache`, over the state `S` of the caller's cache.
abbrev pub CheckAndStore : Type 0 → Type 0
CheckAndStore S = ReplayKey → ℤ → S → Result (Unit {0}) × S

pub data ReplayPolicy (S : Type 0) : Type 0 where
  disabled_for_compatibility : ReplayPolicy S
  require_cache : S → ReplayPolicy S

pub data AuthnRequestAgePolicy : Type 0 where
  disabled : AuthnRequestAgePolicy
  bounded : ℕ → AuthnRequestAgePolicy

pub record SamlValidationContext (S : Type 0) : Type 0 where
  pub now : ℤ
  pub clock_skew : ClockSkew
  pub authn_request_age : AuthnRequestAgePolicy
  pub replay : ReplayPolicy S
  pub replay_retention : Option ℕ

-- `SamlValidationContext::new`
abbrev pub new_context : {S : Type 0} → ℤ → ReplayPolicy S → SamlValidationContext S
new_context now replay = record {
  now = now;
  clock_skew = five_minutes;
  authn_request_age = disabled;
  replay = replay;
  replay_retention = none;
}

unfoldable pub positive_millis : ℤ → ℕ
positive_millis (pos n) = if ltb 0 n then from_millis n else 0
positive_millis (negsuc n) = 0

unfoldable pub negative_millis_magnitude : ℤ → ℕ
negative_millis_magnitude (pos n) = 0
negative_millis_magnitude (negsuc n) = from_millis (suc n)

abbrev pub authn_request_issue_instant_window : SamlError
authn_request_issue_instant_window = time_window_invalid authn_request_issue_instant

module _ (T : TimeCrate) where
  open T use {
    parse_rfc3339, duration_try_from, checked_add, checked_sub, system_checked_add,
    system_checked_sub,
  }

  offset_from_duration : ℤ → Option ℤ
  offset_from_duration (pos n) = elim (duration_try_from n) [
    | none ↦ none
    | some d ↦ checked_add (pos 0) (pos d)
  ]
  offset_from_duration (negsuc n) = elim (duration_try_from (suc n)) [
    | none ↦ none
    | some d ↦ checked_sub (pos 0) (pos d)
  ]

  -- src/validator.rs
  unfoldable pub offset_datetime_from_system_time : ℤ → Result ℤ
  unfolding offset_from_duration
  offset_datetime_from_system_time instant =
      ok_or (offset_from_duration instant)
        (invalid (ascii "validation instant is outside the supported SAML time range"))

  unfoldable pub offset_checked_add : ℤ → ℕ → Result ℤ
  offset_checked_add instant duration = do
    d ← ok_or (duration_try_from duration) authn_request_issue_instant_window
    ok_or (checked_add instant (pos d)) authn_request_issue_instant_window

  unfoldable pub offset_checked_sub : ℤ → ℕ → Result ℤ
  offset_checked_sub instant duration = do
    d ← ok_or (duration_try_from duration) authn_request_issue_instant_window
    ok_or (checked_sub instant (pos d)) authn_request_issue_instant_window

  unfoldable pub system_time_from_offset_datetime : ℤ → Result ℤ
  system_time_from_offset_datetime (pos n) =
      ok_or (system_checked_add (pos 0) n) (time_window_invalid replay_expiration)
  system_time_from_offset_datetime (negsuc n) =
      ok_or (system_checked_sub (pos 0) (suc n)) (time_window_invalid replay_expiration)

  message_replay_expiry : ℤ → Option ℕ → Result ℤ
  message_replay_expiry now none = err (time_window_invalid replay_expiration)
  message_replay_expiry now (some retention) = do
    ensure (ltb 0 retention) (time_window_invalid replay_expiration)
    ok_or (system_checked_add now retention) (time_window_invalid replay_expiration)

  module _ {S : Type 0} where
    -- `map_err(|_| …)` on `now_offset`
    now_offset : SamlValidationContext S → Result ℤ
    now_offset context = elim (offset_datetime_from_system_time context.now) [
      | ok now ↦ ok now
      | err _ ↦ err authn_request_issue_instant_window
    ]

    check_age : SamlValidationContext S → Text → AuthnRequestAgePolicy → Result (Unit {0})
    check_age context issue_instant disabled = ok tt
    check_age context issue_instant (bounded max_age) = do
      let past_tolerance = positive_millis context.clock_skew.not_on_or_after_ms
      let future_tolerance = negative_millis_magnitude context.clock_skew.not_before_ms
      past_allowance ←
          ok_or (duration_checked_add max_age past_tolerance) authn_request_issue_instant_window
      now ← now_offset context
      earliest ← offset_checked_sub now past_allowance
      latest ← offset_checked_add now future_tolerance
      issued ← ok_or (parse_rfc3339 issue_instant) authn_request_issue_instant_window
      ensure (not (ltb_ℤ issued earliest || ltb_ℤ latest issued)) authn_request_issue_instant_window

    unfoldable pub check_authn_request_issue_instant :
        SamlValidationContext S → Text → Result (Unit {0})
    unfolding check_age now_offset
    check_authn_request_issue_instant context issue_instant =
        check_age context issue_instant context.authn_request_age

    unfoldable pub message_replay_expires_at : SamlValidationContext S → Result ℤ
    unfolding message_replay_expiry
    message_replay_expires_at context = message_replay_expiry context.now context.replay_retention

    module _ (check_and_store : CheckAndStore S) where
      -- A call of the cache leaves its new state in the context.
      store_until :
          SamlValidationContext S
          → ReplayKey
          → Result ℤ
          → ReplayPolicy S
          → Result (Unit {0}) × SamlValidationContext S
      store_until context key expires_at disabled_for_compatibility = (ok tt, context)
      store_until context key (err e) (require_cache cache) = (err e, context)
      store_until context key (ok expires_at) (require_cache cache) =
          let (result, cache') = check_and_store key expires_at cache in
          (result, record context { replay = require_cache cache' })

      unfoldable pub check_and_store_message_replay :
          SamlValidationContext S → ReplayKey → Result (Unit {0}) × SamlValidationContext S
      unfolding store_until
      check_and_store_message_replay context key =
          store_until context key (message_replay_expires_at context) context.replay

      -- The expiry is the deadline that the message states, or else the retention.
      replay_expiry_until : SamlValidationContext S → Option ℤ → Result ℤ
      replay_expiry_until context none = message_replay_expires_at context
      replay_expiry_until context (some deadline) = system_time_from_offset_datetime deadline

      unfoldable pub check_and_store_message_replay_until :
          SamlValidationContext S
          → ReplayKey
          → Option ℤ
          → Result (Unit {0}) × SamlValidationContext S
      unfolding store_until replay_expiry_until
      check_and_store_message_replay_until context key derived_deadline =
          store_until context key (replay_expiry_until context derived_deadline) context.replay
