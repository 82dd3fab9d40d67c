-- ===== src/Discovery/Cookie.antt =====
-- src/discovery.rs: the cookie that is written, read back.
use opensaml_rs.Prelude.{
  arith, ◌+◌, ◌≤◌, ◌≡◌, ◌≢◌, ◌⊎◌, sym, ap, ◌∙◌, subst, true, some, List, [], ◌∷◌, ◌++◌, All, Text,
  length, inl, inr,
}
use opensaml_rs.Error.{ok, Result-cases}
use opensaml_rs.Discovery.{
  Codecs, RememberIdentityProvider, CommonDomainCookie, CommonDomainCookieLifetime, session,
  persistent, name, validate_entity_identifier, retain_other, encode_cookie_value,
  entity_ids_from_existing, fits, drop_oldest, remember_identity_provider, common_domain_attribute,
  validated_lifetime,
}
use opensaml_rs.Discovery.ReadBack.{IsReadable, entity_ids_from_existing-encode_cookie_value}
use opensaml_rs.Discovery.Remembered.{
  retain_other-All, entity_ids_from_existing-IsReadable, drop_oldest_lem, AllOver, valid-IsReadable,
  value_short,
}

second_part : (P : Text → Type 0) (a b : List Text) → All P (a ++ b) → All P b
second_part P [] b h = h
second_part P (x ∷ a) b (p, h) = second_part P a b h

left_of :
    (P Q : Text → Type 0) (ids : List Text) → All (λ id. P id × Q id) ids → All P ids × All Q ids
left_of P Q [] h = (tt, tt)
left_of P Q (id ∷ ids) ((p, q), h) = let (ps, qs) = left_of P Q ids h in ((p, ps), (q, qs))

followed :
    (P : Text → Type 0) (ids : List Text) (id : Text) → All P ids → P id → All P (ids ++ id ∷ [])
followed P [] id h p = (p, tt)
followed P (x ∷ ids) id (q, h) p = (q, followed P ids id h p)

module _ (C : Codecs) where
  read_back :
      (ids : List Text) (id : Text)
      → All (IsReadable C) (ids ++ id ∷ [])
      → length (encode_cookie_value C (ids ++ id ∷ [])) ≤ 8192
      → entity_ids_from_existing C (some (encode_cookie_value C (ids ++ id ∷ [])))
        ≡ ok (ids ++ id ∷ [])
  read_back [] id h short = entity_ids_from_existing-encode_cookie_value C id [] h short
  read_back (x ∷ ids) id h short =
      entity_ids_from_existing-encode_cookie_value C x (ids ++ id ∷ []) h short

  -- What the cookie of an identity provider holds, when it is read again: the entries of the existing
  -- cookie but this provider's, less as few of the oldest ones as make the rest fit, and this provider
  -- last.
  pub record Remembered (entity_id : Text) (options : RememberIdentityProvider)
      (cookie : CommonDomainCookie) : Type 0 where
    pub old : List Text
    pub read : entity_ids_from_existing C options.existing_cookie ≡ ok old
    pub dropped : List Text
    pub kept : List Text
    pub newest : retain_other entity_id old ≡ dropped ++ kept
    pub others : All (λ id. id ≢ entity_id) kept
    pub over : AllOver C dropped kept entity_id
    pub again : entity_ids_from_existing C (some cookie.value) ≡ ok (kept ++ entity_id ∷ [])
    pub small : (length name + length cookie.value ≤ 4096) ⊎ (kept ≡ [])
    pub domain : cookie.domain ≡ b'.' ∷ options.common_domain
    pub lifetime : cookie.lifetime ≡ options.lifetime

  small_of :
      (kept : List Text) (entity_id : Text)
      → (fits C (kept ++ entity_id ∷ []) ≡ true) ⊎ (kept ≡ [])
      → (length name + length (encode_cookie_value C (kept ++ entity_id ∷ [])) ≤ 4096) ⊎ (kept ≡ [])
  small_of kept entity_id (inl fitting) = inl (ground (arith, fitting))
  small_of kept entity_id (inr alone) = inr alone

  domain_lem :
      (common_domain : Text) {d : Text}
      → common_domain_attribute C common_domain ≡ ok d
      → d ≡ b'.' ∷ common_domain
  unfolding common_domain_attribute
  domain_lem common_domain h = ground (arith, h)

  lifetime_lem :
      (l : CommonDomainCookieLifetime) {r : CommonDomainCookieLifetime}
      → validated_lifetime l ≡ ok r
      → r ≡ l
  unfolding validated_lifetime
  lifetime_lem session h = ground (arith, h)
  lifetime_lem (persistent max_age) h = ground (arith, h)

  held :
      (entity_id : Text) (options : RememberIdentityProvider) (old : List Text) (domain : Text)
      (lifetime : CommonDomainCookieLifetime)
      → validate_entity_identifier entity_id ≡ ok tt
      → common_domain_attribute C options.common_domain ≡ ok domain
      → validated_lifetime options.lifetime ≡ ok lifetime
      → entity_ids_from_existing C options.existing_cookie ≡ ok old
      → Remembered entity_id options (record {
        value =
            encode_cookie_value C (drop_oldest C (retain_other entity_id old ++ entity_id ∷ []));
        domain = domain;
        lifetime = lifetime;
      })
  held entity_id options old domain lifetime valid d l read =
      let (this_readable, short) = valid-IsReadable C entity_id valid in
      let (readable, others) =
        left_of (IsReadable C) (λ id. id ≢ entity_id) (retain_other entity_id old)
          (retain_other-All (IsReadable C) entity_id old
            (entity_ids_from_existing-IsReadable C options.existing_cookie read)) in
      let (dropped, kept, newest, made, small, over) =
        drop_oldest_lem C (retain_other entity_id old) entity_id in
      let kept_readable =
        second_part (IsReadable C) dropped kept (subst (All (IsReadable C)) newest readable) in
      record {
        old = old;
        read = read;
        dropped = dropped;
        kept = kept;
        newest = newest;
        over = over;
        others =
            second_part (λ id. id ≢ entity_id) dropped kept
              (subst (All (λ id. id ≢ entity_id)) newest others);
        again =
            ap (λ ids. entity_ids_from_existing C (some (encode_cookie_value C ids))) made
            ∙ read_back kept entity_id
                (followed (IsReadable C) kept entity_id kept_readable this_readable)
                (value_short C kept entity_id short small);
        small =
            subst (λ ids. (length name + length (encode_cookie_value C ids) ≤ 4096) ⊎ (kept ≡ []))
              (sym made) (small_of kept entity_id small);
        domain = domain_lem options.common_domain d;
        lifetime = lifetime_lem options.lifetime l;
      }

  -- A cookie that is written names the common domain and has the lifetime that was asked for. When
  -- it is read back, it holds the newest of the other identity providers of the existing cookie in
  -- their order, and this one once, last. Its name and value have 4096 bytes at most, unless it
  -- holds this one alone, and with any older one that is left out and those after it they would
  -- have more.
  pub remember_identity_provider-Remembered :
      (entity_id : Text) (options : RememberIdentityProvider) {cookie : CommonDomainCookie}
      → remember_identity_provider C entity_id options ≡ ok cookie
      → Remembered entity_id options cookie
  unfolding remember_identity_provider
  remember_identity_provider-Remembered entity_id options h =
      elim (Result-cases (validate_entity_identifier entity_id)) [
        | inr (f, bad) ↦ absurd (ground (arith, bad))
        | inl (u, valid) ↦ elim (Result-cases (common_domain_attribute C options.common_domain)) [
          | inr (f, bad) ↦ absurd (ground (arith, valid, bad))
          | inl (domain, d) ↦ elim (Result-cases (validated_lifetime options.lifetime)) [
            | inr (f, bad) ↦ absurd (ground (arith, valid, d, bad))
            | inl (lifetime, l) ↦
                elim (Result-cases (entity_ids_from_existing C options.existing_cookie)) [
                  | inr (f, bad) ↦ absurd (ground (arith, valid, d, l, bad))
                  | inl (old, read) ↦
                      subst (Remembered entity_id options) (ground (arith, valid, d, l, read))
                        (held entity_id options old domain lifetime valid d l read)
                ]
          ]
        ]
      ]
