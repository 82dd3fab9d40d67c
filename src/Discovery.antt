-- ===== src/Discovery.antt =====
-- src/discovery.rs: the common domain cookie of identity provider discovery. The base64 engine, the
-- parser of IPv4 addresses and `String::from_utf8` are no part of the repository: they are the
-- fields of `Codecs`. A duration is a number of nanoseconds.
pub mod Percent
pub mod Decoded
pub mod ReadBack
pub mod Remembered
pub mod Cookie
mod Tests
use opensaml_rs.Prelude.{
  ℕ, suc, ◌+◌, ◌-◌, ◌*◌, ◌/◌, ◌%◌, ◌<◌, ◌≤◌, ◌≡◌, ◌≢◌, Bool, true, false, ◌&&◌, ◌||◌, not, Option,
  none, some, List, [], ◌∷◌, ◌++◌, All, Text, ascii, text_eq, length, all, keep, is_empty, split,
  position, take, drop, contains_text, map, any, starts_with, ltb, leb, ◌==◌, is_ascii_digit,
}
use opensaml_rs.Error.{SamlError, invalid, Result, ok, err, ◌>>=◌, ◌>>◌, ensure, ok_or}
use opensaml_rs.Xml.Dom.{decimal_from}
use opensaml_rs.Discovery.Percent.{
  is_ascii_alphabetic, is_ascii_alphanumeric, PlusSign, keep_plus, space, not_url_encoded,
  encode_percent, decode_bytes,
}

-- The alphabet of standard base64, with the padding.
abbrev pub is_base64 : ℕ → Bool
is_base64 b = is_ascii_alphanumeric b || (b == b'+' || b == b'/' || b == b'=')

pub record Codecs : Type 0 where
  -- `STANDARD.encode` and `STANDARD.decode`
  pub encode : Text → Text
  pub decode : Text → Option Text
  -- `String::from_utf8`
  pub from_utf8 : Text → Option Text
  -- `domain.parse::<Ipv4Addr>().is_ok()`
  pub is_ipv4 : Text → Bool
  -- What was encoded is decoded; an encoding is of the alphabet, and empty only for no bytes.
  pub decode-encode : (bytes : Text) → All (λ b. b < 256) bytes → decode (encode bytes) ≡ some bytes
  pub encode_alphabet : (bytes : Text) → all is_base64 (encode bytes) ≡ true
  pub encode_some : (b : ℕ) (bytes : Text) → encode (b ∷ bytes) ≢ []
  pub encode_short : (bytes : Text) → length (encode bytes) ≤ 2 * length bytes + 2
  -- What is decoded of some characters is some bytes.
  pub decode_some : (c : ℕ) (token : Text) → decode (c ∷ token) ≢ some []
  pub decode_range :
      (token : Text) {bytes : Text} → decode token ≡ some bytes → All (λ b. b < 256) bytes
  -- A `String` has the bytes that it was made of; ASCII is UTF-8.
  pub from_utf8_same : (bytes : Text) {s : Text} → from_utf8 bytes ≡ some s → s ≡ bytes
  pub from_utf8_ascii : (bytes : Text) → All (λ b. b < 128) bytes → from_utf8 bytes ≡ some bytes

pub data CommonDomainCookieLifetime : Type 0 where
  session : CommonDomainCookieLifetime
  persistent : ℕ → CommonDomainCookieLifetime

pub record RememberIdentityProvider : Type 0 where
  pub common_domain : Text
  pub lifetime : CommonDomainCookieLifetime
  pub existing_cookie : Option Text

pub record CommonDomainCookie : Type 0 where
  pub value : Text
  pub domain : Text
  pub lifetime : CommonDomainCookieLifetime

abbrev pub name : Text
name = ascii "_saml_idp"

-- `Duration::as_secs`
abbrev pub as_secs : ℕ → ℕ
as_secs nanos = nanos / 1000000000

abbrev pub max_age_attribute : CommonDomainCookieLifetime → Text
max_age_attribute session = []
max_age_attribute (persistent max_age) = ascii "; Max-Age=" ++ decimal_from 20 (as_secs max_age) []

unfoldable pub set_cookie_header : CommonDomainCookie → Text
set_cookie_header cookie =
    name
    ++ (ascii "="
        ++ (cookie.value
            ++ (ascii "; Path=/; Domain="
                ++ (cookie.domain ++ (ascii "; Secure" ++ max_age_attribute cookie.lifetime)))))

abbrev pub is_scheme : Text → Bool
is_scheme [] = false
is_scheme (first ∷ rest) =
    is_ascii_alphabetic first
    && all (λ c. is_ascii_alphanumeric c || (c == b'+' || c == b'-' || c == b'.')) rest

-- `split_once(':')` at the position of the colon.
abbrev pub has_scheme : Text → Option ℕ → Bool
has_scheme entity_id none = false
has_scheme entity_id (some i) =
    is_scheme (take i entity_id) && not (is_empty (drop (suc i) entity_id))

unfoldable pub is_entity_identifier_uri : Text → Bool
is_entity_identifier_uri entity_id =
    all (λ b. leb 33 b && leb b 126) entity_id && has_scheme entity_id (position b':' entity_id)

unfoldable pub validate_entity_identifier : Text → Result (Unit {0})
validate_entity_identifier entity_id =
    ensure (leb (length entity_id) 1024 && is_entity_identifier_uri entity_id)
      (invalid (ascii "entity identifier must be a URI of at most 1024 characters"))

abbrev pub last_is : ℕ → Text → Bool
last_is c [] = false
last_is c (b ∷ []) = b == c
last_is c (b ∷ d ∷ rest) = last_is c (d ∷ rest)

abbrev pub is_label : Text → Bool
is_label [] = false
is_label (b ∷ bytes) =
    leb (length (b ∷ bytes)) 63
    && not (b == b'-')
    && not (last_is b'-' (b ∷ bytes))
    && all (λ c. is_ascii_alphanumeric c || c == b'-') (b ∷ bytes)

abbrev pub all_labels : List Text → Bool
all_labels [] = true
all_labels (label ∷ labels) = is_label label && all_labels labels

unfoldable pub validated_lifetime : CommonDomainCookieLifetime → Result CommonDomainCookieLifetime
validated_lifetime session = ok session
validated_lifetime (persistent max_age) = do
  ensure (max_age % 1000000000 == 0)
      (invalid (ascii "persistent discovery cookie lifetime must be a whole number of seconds"))
  ensure (not (as_secs max_age == 0))
      (invalid (ascii "persistent discovery cookie lifetime must be at least one second"))
  ensure (leb (as_secs max_age) 2147483647)
      (invalid (ascii "persistent discovery cookie lifetime must be at most 2147483647 seconds"))
  ok (persistent max_age)

-- `base64` entries between spaces
abbrev pub join_spaces : List Text → Text
join_spaces [] = []
join_spaces (s ∷ []) = s
join_spaces (s ∷ t ∷ items) = s ++ b' ' ∷ join_spaces (t ∷ items)

-- `entity_ids.retain(|existing| existing != entity_id)`
unfoldable pub retain_other : Text → List Text → List Text
retain_other entity_id [] = []
retain_other entity_id (existing ∷ ids) = elim (text_eq existing entity_id) [
  | true ↦ retain_other entity_id ids
  | false ↦ existing ∷ retain_other entity_id ids
]

abbrev pub empty_or : Text → Result (List Text) → Result (List Text)
empty_or [] ids = ok []
empty_or (b ∷ rest) ids = ids

module _ (C : Codecs) where
  open C use {encode, decode, from_utf8, is_ipv4}

  unfoldable pub is_ascii_hostname : Text → Bool
  is_ascii_hostname domain =
      leb (length domain) 253
      && not (last_is b'.' domain)
      && not (is_ipv4 domain)
      && all_labels (split b'.' domain)

  unfoldable pub common_domain_attribute : Text → Result Text
  common_domain_attribute common_domain = do
    ensure (not (is_empty common_domain)) (invalid (ascii "common domain must not be empty"))
    ensure (not (starts_with common_domain (ascii ".")))
        (invalid (ascii "common domain is passed without a leading period"))
    ensure (is_ascii_hostname common_domain)
        (invalid (ascii "common domain must be an ASCII hostname"))
    ok (b'.' ∷ common_domain)

  unfoldable pub decode_percent : Text → PlusSign → Result Text
  decode_percent value plus = do
    decoded ← decode_bytes plus value
    ok_or (from_utf8 decoded) not_url_encoded

  unfoldable pub entity_id_from_token : Text → Result Text
  entity_id_from_token token = do
    ensure (not (is_empty token))
        (invalid (ascii "existing common domain cookie has an empty entry"))
    bytes ←
        ok_or (decode token) (invalid (ascii "existing common domain cookie entry is not base64"))
    ok_or (from_utf8 bytes)
        (invalid (ascii "existing common domain cookie entry is not an entity identifier"))

  unfoldable pub entity_ids_from_tokens : List Text → Result (List Text)
  entity_ids_from_tokens [] = ok []
  entity_ids_from_tokens (token ∷ tokens) = do
    id ← entity_id_from_token token
    ids ← entity_ids_from_tokens tokens
    ok (id ∷ ids)

  unfoldable pub entity_ids_from_decoded : Text → Result (List Text)
  entity_ids_from_decoded decoded = empty_or decoded (entity_ids_from_tokens (split b' ' decoded))

  abbrev pub or_form_decoded : Text → Result (List Text) → Result (List Text)
  or_form_decoded existing (ok ids) = ok ids
  or_form_decoded existing (err error) = elim (any (λ b. b == b'+') existing) [
    | false ↦ err error
    | true ↦ do form_decoded ← decode_percent existing space; entity_ids_from_decoded form_decoded
  ]

  abbrev pub ids_from : Text → Result (List Text)
  ids_from [] = ok []
  ids_from (b ∷ existing) = do
    ensure (leb (length (b ∷ existing)) 8192)
        (invalid (ascii "existing common domain cookie is larger than 8192 bytes"))
    decoded ← decode_percent (b ∷ existing) keep_plus
    or_form_decoded (b ∷ existing) (entity_ids_from_decoded decoded)

  unfoldable pub entity_ids_from_existing : Option Text → Result (List Text)
  entity_ids_from_existing none = ok []
  entity_ids_from_existing (some existing) = ids_from existing

  unfoldable pub encode_cookie_value : List Text → Text
  encode_cookie_value entity_ids = encode_percent (join_spaces (map encode entity_ids))

  abbrev pub fits : List Text → Bool
  fits ids = leb (length name + length (encode_cookie_value ids)) 4096

  -- The loop that drops the oldest entries.
  unfoldable pub drop_oldest : List Text → List Text
  drop_oldest [] = []
  drop_oldest (id ∷ []) = id ∷ []
  drop_oldest (id ∷ next ∷ ids) = elim (fits (id ∷ next ∷ ids)) [
    | true ↦ id ∷ next ∷ ids
    | false ↦ drop_oldest (next ∷ ids)
  ]

  unfoldable pub remember_identity_provider :
      Text → RememberIdentityProvider → Result CommonDomainCookie
  remember_identity_provider entity_id options = do
    validate_entity_identifier entity_id
    domain ← common_domain_attribute options.common_domain
    lifetime ← validated_lifetime options.lifetime
    existing ← entity_ids_from_existing options.existing_cookie
    ok (record {
      value = encode_cookie_value (drop_oldest (retain_other entity_id existing ++ entity_id ∷ []));
      domain = domain;
      lifetime = lifetime;
    })
