-- ===== src/Validation/Replay.antt =====
-- src/model/validation.rs: replay protection over a run of messages, for any cache that keeps the
-- documented contract of the trait `ReplayCache`.
use opensaml_rs.Prelude.{
  ◌≡◌, ◌≢◌, refl, sym, ◌∙◌, subst, Option, none, some, List, [], ◌∷◌, Text, All, inl, inr, ◌⊎◌, ap,
  ℕ, suc, arith, Option-cases, Bool-cases,
}
use opensaml_rs.Prelude.Int.{ℤ, pos, negsuc, ◌+ℤ◌, ◌-ℤ◌, ◌≤ℤ◌, ◌<ℤ◌, ltb_ℤ}
use opensaml_rs.Error.{Result, ok, err, Result-cases, time_window_invalid, replay_expiration}
use opensaml_rs.Time.{TimeCrate}
use opensaml_rs.Validation.{
  CheckAndStore, ReplayKey, cache_key, ReplayPolicy, disabled_for_compatibility, require_cache,
  SamlValidationContext, store_until, check_and_store_message_replay,
  check_and_store_message_replay_until, message_replay_expires_at, replay_expiry_until,
  system_time_from_offset_datetime, message_replay_expiry,
}

-- The contract of a cache that is called at instants of its clock: a key that is accepted is held until
-- the `expires_at` of the call, what is held until an instant stays so while the clock is before it,
-- and until then the key is not accepted. A call may fail with any error, and an entry may be
-- dropped once it is due.
pub record IsReplayCache {S : Type 0} (check : ℤ → CheckAndStore S) : Type 1 where
  pub Holds : S → Text → ℤ → Type 0
  pub refuses :
      (now : ℤ) (key : ReplayKey) (expires_at : ℤ) (s : S) (until : ℤ)
      → Holds s (cache_key key) until
      → now <ℤ until
      → (check now key expires_at s).0 ≢ ok tt
  pub stores :
      (now : ℤ) (key : ReplayKey) (expires_at : ℤ) (s : S)
      → (check now key expires_at s).0 ≡ ok tt
      → Holds (check now key expires_at s).1 (cache_key key) expires_at
  pub keeps :
      (now : ℤ) (key : ReplayKey) (expires_at : ℤ) (s : S) (k : Text) (until : ℤ)
      → Holds s k until
      → now <ℤ until
      → Holds (check now key expires_at s).1 k until

-- A message at an instant of the clock, with the deadline that it states.
pub record Arrival : Type 0 where
  pub now : ℤ
  pub key : ReplayKey
  pub deadline : Option ℤ

-- The messages arrive in the order of the clock.
abbrev pub Ordered : ℤ → List Arrival → Type 0
Ordered t [] = Unit
Ordered t (a ∷ arrivals) = (t ≤ℤ a.now) × Ordered a.now arrivals

earlier : (t u : ℤ) (arrivals : List Arrival) → t ≤ℤ u → Ordered u arrivals → Ordered t arrivals
earlier t u [] h ordered = tt
earlier t u (a ∷ arrivals) h (first, ordered) = (omega (arith, h, first), ordered)

-- How long a message is protected: until its deadline, else for the retention.
abbrev pub protected : Option ℕ → Arrival → Option ℤ → Option ℤ
protected retention a (some deadline) = some deadline
protected none a none = none
protected (some n) a none = some (a.now +ℤ pos n)

abbrev Due : Text → ℤ → Arrival → Type 0
Due k until b = cache_key b.key ≡ k → until ≤ℤ b.now

-- A message with the same cache key is accepted only when the protection is over.
abbrev pub Apart : Option ℕ → Arrival → Arrival → Type 0
Apart retention a b =
    cache_key b.key ≡ cache_key a.key
    → (until : ℤ) → protected retention a a.deadline ≡ some until
    → until ≤ℤ b.now

abbrev pub AllApart : Option ℕ → List Arrival → Type 0
AllApart retention [] = Unit
AllApart retention (a ∷ arrivals) = All (Apart retention a) arrivals × AllApart retention arrivals

-- The message is noted if it is accepted.
unfoldable pub note : Result (Unit {0}) → Arrival → List Arrival → List Arrival
note (ok _) a later = a ∷ later
note (err _) a later = later

module _ (T : TimeCrate) {S : Type 0} (check : CheckAndStore S) where
  -- Without replay protection every message passes and nothing is stored.
  pub check_and_store_message_replay_until_disabled :
      (context : SamlValidationContext S) (key : ReplayKey) (deadline : Option ℤ)
      → context.replay ≡ disabled_for_compatibility
      → check_and_store_message_replay_until T check context key deadline ≡ (ok tt, context)
  unfolding check_and_store_message_replay_until store_until
  check_and_store_message_replay_until_disabled context key deadline off = rw off

  -- With a required cache, a message without an expiry is refused before the cache is asked.
  pub check_and_store_message_replay_fails_closed :
      (context : SamlValidationContext S) (key : ReplayKey) (cache : S)
      → context.replay ≡ require_cache cache
      → (context.replay_retention ≡ none) ⊎ (context.replay_retention ≡ some 0)
      → check_and_store_message_replay T check context key
        ≡ (err (time_window_invalid replay_expiration), context)
  unfolding check_and_store_message_replay store_until message_replay_expires_at
  check_and_store_message_replay_fails_closed context key cache required (inl missing) =
      rw (required, missing)
  check_and_store_message_replay_fails_closed context key cache required (inr zero_long) =
      rw (required, zero_long)

-- A property of the messages that are accepted.
note-All :
    (P : Arrival → Type 0) (r : Result (Unit {0})) (a : Arrival) (later : List Arrival)
    → (r ≡ ok tt → P a)
    → All P later
    → All P (note r a later)
unfolding note
note-All P (ok _) a later p h = (p refl, h)
note-All P (err _) a later p h = h

note-AllApart :
    (retention : Option ℕ) (r : Result (Unit {0})) (a : Arrival) (later : List Arrival)
    → (r ≡ ok tt → All (Apart retention a) later)
    → AllApart retention later
    → AllApart retention (note r a later)
unfolding note
note-AllApart retention (ok _) a later p h = (p refl, h)
note-AllApart retention (err _) a later p h = h

implied :
    (P Q : Arrival → Type 0) (arrivals : List Arrival)
    → ((a : Arrival) → P a → Q a)
    → All P arrivals
    → All Q arrivals
implied P Q [] f h = tt
implied P Q (a ∷ arrivals) f (p, h) = (f a p, implied P Q arrivals f h)

module _ (T : TimeCrate) where
  open T use {
    system_checked_add, system_checked_sub, system_checked_add_exact, system_checked_sub_exact,
  }

  instant_lem : (t : ℤ) {u : ℤ} → system_time_from_offset_datetime T t ≡ ok u → u ≡ t
  unfolding system_time_from_offset_datetime ◌+ℤ◌ ◌-ℤ◌
  instant_lem (pos n) h = elim (Option-cases (system_checked_add (pos 0) n)) [
    | inl over ↦ absurd (ground (arith, h, over))
    | inr (u, made) ↦ ground (arith, h, made, system_checked_add_exact (pos 0) n made)
  ]
  instant_lem (negsuc n) h = elim (Option-cases (system_checked_sub (pos 0) (suc n))) [
    | inl over ↦ absurd (ground (arith, h, over))
    | inr (u, made) ↦ ground (arith, h, made, system_checked_sub_exact (pos 0) (suc n) made)
  ]

  module _ {S : Type 0} (check : ℤ → CheckAndStore S) (context : SamlValidationContext S) where
    abbrev at : Arrival → ReplayPolicy S → SamlValidationContext S
    at a policy = record context { now = a.now; replay = policy }

    expiry_lem :
        (a : Arrival) (policy : ReplayPolicy S) (deadline : Option ℤ) {until : ℤ}
        → replay_expiry_until T (check a.now) (at a policy) deadline ≡ ok until
        → protected context.replay_retention a deadline ≡ some until
    unfolding replay_expiry_until message_replay_expires_at message_replay_expiry
    expiry_lem a policy (some deadline) h = ap some (sym (instant_lem deadline h))
    expiry_lem a policy none h = elim (Option-cases context.replay_retention) [
      | inl missing ↦ absurd (ground (arith, h, missing))
      | inr (n, retention) ↦ elim (Option-cases (system_checked_add a.now n)) [
        | inl over ↦ absurd (ground (arith, h, retention, over))
        | inr (u, made) ↦ ground (arith, h, retention, made, system_checked_add_exact a.now n made)
      ]
    ]

    abbrev arrive : Arrival → ReplayPolicy S → Result (Unit {0}) × SamlValidationContext S
    arrive a policy =
        check_and_store_message_replay_until T (check a.now) (at a policy) a.key a.deadline

    -- The messages that are accepted when they are checked one after the other.
    unfoldable pub accepted : ReplayPolicy S → List Arrival → List Arrival
    accepted policy [] = []
    accepted policy (a ∷ arrivals) =
        note (arrive a policy).0 a (accepted (arrive a policy).1.replay arrivals)

    -- With a cache, a call has asked it with the expiry, or was refused and left it as it was.
    arrive_lem :
        (a : Arrival) (cache : S)
        → ((until : ℤ) × (protected context.replay_retention a a.deadline ≡ some until)
            × ((arrive a (require_cache cache)).0 ≡ (check a.now a.key until cache).0)
            × ((arrive a (require_cache cache)).1.replay
                ≡ require_cache (check a.now a.key until cache).1))
          ⊎ (((arrive a (require_cache cache)).0 ≢ ok tt)
              × ((arrive a (require_cache cache)).1.replay ≡ require_cache cache))
    unfolding check_and_store_message_replay_until store_until
    arrive_lem a cache =
        elim (Result-cases
          (replay_expiry_until T (check a.now) (at a (require_cache cache)) a.deadline)) [
            | inl (until, made) ↦ inl (
              until,
              expiry_lem a (require_cache cache) a.deadline made,
              ground (arith, made),
              ground (arith, made),
            )
            | inr (e, failed) ↦
                inr ((λ passed. ground (arith, failed, passed)), ground (arith, failed))
          ]

    later_accepted :
        (t : ℤ) (policy : ReplayPolicy S) (arrivals : List Arrival)
        → Ordered t arrivals
        → All (λ a. t ≤ℤ a.now) (accepted policy arrivals)
    unfolding accepted
    later_accepted t policy [] h = tt
    later_accepted t policy (a ∷ arrivals) (first, h) =
        note-All (λ a. t ≤ℤ a.now) (arrive a policy).0 a
          (accepted (arrive a policy).1.replay arrivals) (λ passed. first)
          (later_accepted t (arrive a policy).1.replay arrivals (earlier t a.now arrivals first h))

    module _ (contract : IsReplayCache check) where
      open contract use {Holds, refuses, stores, keeps}

      -- While a key is held, a message with it is accepted only from then on.
      accepted-Due :
          (t : ℤ) (cache : S) (arrivals : List Arrival) (k : Text) (until : ℤ)
          → Ordered t arrivals
          → Holds cache k until
          → All (Due k until) (accepted (require_cache cache) arrivals)
      unfolding accepted
      accepted-Due t cache [] k until h held = tt
      accepted-Due t cache (a ∷ arrivals) k until (first, h) held =
          let next = (arrive a (require_cache cache)).1.replay in
          elim (Bool-cases (ltb_ℤ a.now until)) [
            | inr due ↦
                let later : until ≤ℤ a.now = ground (arith, due) in
                note-All (Due k until) _ a (accepted next arrivals) (λ passed same. later)
                  (implied (λ b. a.now ≤ℤ b.now) (Due k until) (accepted next arrivals)
                    (λ b after same. omega (arith, later, after))
                    (later_accepted a.now next arrivals h))
            | inl early ↦ elim (arrive_lem a cache) [
              | inr (refused, same) ↦
                  note-All (Due k until) _ a (accepted next arrivals)
                    (λ passed. absurd (refused passed))
                    (subst (λ p. All (Due k until) (accepted p arrivals)) (sym same)
                      (accepted-Due a.now cache arrivals k until h held))
              | inl (expiry, lasts, outcome, kept) ↦
                  let before : a.now <ℤ until = ground (arith, early) in
                  note-All (Due k until) _ a (accepted next arrivals)
                    (λ passed same. absurd (
                      refuses a.now a.key expiry cache until
                        (subst (λ j. Holds cache j until) (sym same) held) before
                        (sym outcome ∙ passed)))
                    (subst (λ p. All (Due k until) (accepted p arrivals)) (sym kept)
                      (accepted-Due a.now (check a.now a.key expiry cache).1 arrivals k until h
                        (keeps a.now a.key expiry cache k until held before)))
            ]
          ]

      protected-Due :
          (a : Arrival) (until : ℤ) (later : List Arrival)
          → protected context.replay_retention a a.deadline ≡ some until
          → All (Due (cache_key a.key) until) later
          → All (Apart context.replay_retention a) later
      protected-Due a until later lasts =
          implied (Due (cache_key a.key) until) (Apart context.replay_retention a) later
            (λ b due same u protected_until.
              subst (λ v. v ≤ℤ b.now) (cc (lasts, protected_until)) (due same))

      -- Of the messages that arrive in the order of the clock, two with the same cache key are both
      -- accepted only if the later one arrives when the protection of the earlier one is over: at
      -- its deadline or after it, or without a deadline after the retention. The cache may fail
      -- with any error, and may drop an entry that is due.
      pub accepted-AllApart :
          (t : ℤ) (cache : S) (arrivals : List Arrival)
          → Ordered t arrivals
          → AllApart context.replay_retention (accepted (require_cache cache) arrivals)
      unfolding accepted
      accepted-AllApart t cache [] h = tt
      accepted-AllApart t cache (a ∷ arrivals) (first, h) =
          let retention = context.replay_retention in
          let next = (arrive a (require_cache cache)).1.replay in
          elim (arrive_lem a cache) [
            | inr (refused, same) ↦
                note-AllApart retention _ a (accepted next arrivals)
                  (λ passed. absurd (refused passed))
                  (subst (λ p. AllApart retention (accepted p arrivals)) (sym same)
                    (accepted-AllApart a.now cache arrivals h))
            | inl (expiry, lasts, outcome, kept) ↦
                let cache' = (check a.now a.key expiry cache).1 in
                note-AllApart retention _ a (accepted next arrivals)
                  (λ passed. protected-Due a expiry (accepted next arrivals) lasts (
                    subst (λ p. All (Due (cache_key a.key) expiry) (accepted p arrivals)) (sym kept)
                      (accepted-Due a.now cache' arrivals (cache_key a.key) expiry h
                        (stores a.now a.key expiry cache (sym outcome ∙ passed)))))
                  (subst (λ p. AllApart retention (accepted p arrivals)) (sym kept)
                    (accepted-AllApart a.now cache' arrivals h))
          ]
