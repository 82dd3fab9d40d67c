-- ===== src/Discovery/Tests.antt =====
-- Tests of src/discovery.rs, with an encoding of each byte in two letters.
use opensaml_rs.Prelude.{
  arith, ℕ, ◌+◌, ◌-◌, ◌*◌, ◌/◌, ◌%◌, ◌<◌, ◌≤◌, ◌≡◌, ◌≢◌, refl, sym, subst, Bool, true, false, ◌&&◌,
  Option, none, some, [], ◌∷◌, All, Text, ascii, text_eq, length, all, Bool-cases, Option-cases,
  inl, inr, leb, ltb, split,
}
use opensaml_rs.Error.{ok}
use opensaml_rs.Xml.Dom.{decimal_from}
use opensaml_rs.Discovery.{
  Codecs, is_base64, RememberIdentityProvider, CommonDomainCookie, persistent, set_cookie_header,
  is_entity_identifier_uri, validate_entity_identifier, validated_lifetime, is_ascii_hostname,
  common_domain_attribute, decode_percent, entity_id_from_token, entity_ids_from_tokens,
  entity_ids_from_decoded, entity_ids_from_existing, encode_cookie_value, drop_oldest, retain_other,
  remember_identity_provider,
}
use opensaml_rs.Discovery.Percent.{space, encode_percent, decode_bytes, hex_value}
use opensaml_rs.Discovery.Decoded.{decode_bytes-encode_percent}
use opensaml_rs.Discovery.ReadBack.{entity_ids_from_existing-encode_cookie_value}
use opensaml_rs.Discovery.Cookie.{Remembered, remember_identity_provider-Remembered}

abbrev letters : Text → Text
letters [] = []
letters (b ∷ bytes) = (b'A' + b / 16 % 16) ∷ (b'A' + b % 16) ∷ letters bytes

abbrev is_letter : ℕ → Bool
is_letter c = leb b'A' c && leb c b'P'

abbrev prepend : ℕ → Option Text → Option Text
prepend b none = none
prepend b (some s) = some (b ∷ s)

abbrev bytes_of : Text → Option Text
bytes_of [] = some []
bytes_of (h ∷ []) = none
bytes_of (h ∷ l ∷ rest) = elim (is_letter h && is_letter l) [
  | true ↦ prepend ((h - b'A') * 16 + (l - b'A')) (bytes_of rest)
  | false ↦ none
]

abbrev ascii_only : Text → Option Text
ascii_only bytes = elim (all (λ b. ltb b 128) bytes) [ true ↦ some bytes | false ↦ none ]

bytes_of-letters : (bytes : Text) → All (λ b. b < 256) bytes → bytes_of (letters bytes) ≡ some bytes
bytes_of-letters [] h = refl
bytes_of-letters (b ∷ bytes) (small, h) = ground (arith, bytes_of-letters bytes h)

letters_alphabet : (bytes : Text) → all is_base64 (letters bytes) ≡ true
letters_alphabet [] = refl
letters_alphabet (b ∷ bytes) = ground (arith, letters_alphabet bytes)

letters_some : (b : ℕ) (bytes : Text) → letters (b ∷ bytes) ≢ []
letters_some b bytes e = cc e

length-letters : (bytes : Text) → length (letters bytes) ≤ 2 * length bytes + 2
length-letters [] = omega arith
length-letters (b ∷ bytes) = omega (arith, length-letters bytes)

-- Two letters and what follows them.
pair_lem :
    (h l : ℕ) (rest : Text) {bytes : Text}
    → bytes_of (h ∷ l ∷ rest) ≡ some bytes
    → (b : ℕ) × (more : Text) × (bytes ≡ b ∷ more) × (b < 256) × (bytes_of rest ≡ some more)
pair_lem h l rest {bytes = bytes} e = elim (Bool-cases (is_letter h && is_letter l)) [
  | inr other ↦ absurd (ground (arith, other, e))
  | inl letter ↦ elim (Option-cases (bytes_of rest)) [
    | inl bad ↦ absurd (ground (arith, letter, bad, e))
    | inr (more, made) ↦ (
      (h - b'A') * 16 + (l - b'A'),
      more,
      ground (arith, letter, made, e),
      ground (arith, letter),
      made,
    )
  ]
]

bytes_of_lem : (c : ℕ) (token : Text) → bytes_of (c ∷ token) ≢ some []
bytes_of_lem c [] h = absurd (cc h)
bytes_of_lem c (l ∷ rest) h =
    let (b, more, e, small, made) = pair_lem c l rest {bytes = []} h in absurd (cc e)

bytes_of_range :
    (token : Text) {bytes : Text} → bytes_of token ≡ some bytes → All (λ b. b < 256) bytes
bytes_of_range [] {bytes = bytes} h =
    let nothing : [] ≡ bytes = cc h in subst (All (λ b. b < 256)) nothing tt
bytes_of_range (c ∷ []) h = absurd (cc h)
bytes_of_range (h ∷ l ∷ rest) {bytes = bytes} e =
    let (b, more, whole, small, made) = pair_lem h l rest {bytes = bytes} e in
    subst (All (λ b. b < 256)) (sym whole) (small, bytes_of_range rest {bytes = more} made)

ascii_only_same : (bytes : Text) {s : Text} → ascii_only bytes ≡ some s → s ≡ bytes
ascii_only_same bytes h = elim (Bool-cases (all (λ b. ltb b 128) bytes)) [
  | inl good ↦ ground (arith, good, h)
  | inr bad ↦ absurd (ground (arith, bad, h))
]

ascii_only_all : (bytes : Text) → All (λ b. b < 128) bytes → all (λ b. ltb b 128) bytes ≡ true
ascii_only_all [] h = refl
ascii_only_all (b ∷ bytes) (small, h) = ground (arith, ascii_only_all bytes h)

ascii_only_utf8 : (bytes : Text) → All (λ b. b < 128) bytes → ascii_only bytes ≡ some bytes
ascii_only_utf8 bytes h = ground (arith, ascii_only_all bytes h)

abbrev lettered : Codecs
lettered = record {
  encode = letters;
  decode = bytes_of;
  from_utf8 = ascii_only;
  is_ipv4 = λ domain. false;
  decode-encode = λ bytes h. bytes_of-letters bytes h;
  encode_alphabet = λ bytes. letters_alphabet bytes;
  encode_some = λ b bytes. letters_some b bytes;
  encode_short = λ bytes. length-letters bytes;
  decode_some = λ c token. bytes_of_lem c token;
  decode_range = λ token {bytes} e. bytes_of_range token {bytes = bytes} e;
  from_utf8_same = λ bytes {s} e. ascii_only_same bytes {s = s} e;
  from_utf8_ascii = λ bytes h. ascii_only_utf8 bytes h;
}

abbrev this_provider : Text
this_provider = ascii "https://idp"

abbrev asked : RememberIdentityProvider
asked = record {
  common_domain = ascii "example.org";
  lifetime = persistent 60000000000;
  existing_cookie =
      some (encode_cookie_value lettered (ascii "urn:a" ∷ this_provider ∷ ascii "urn:b" ∷ []));
}

abbrev written : CommonDomainCookie
written = record {
  value = encode_cookie_value lettered (ascii "urn:a" ∷ ascii "urn:b" ∷ this_provider ∷ []);
  domain = ascii ".example.org";
  lifetime = persistent 60000000000;
}

remembered : remember_identity_provider lettered this_provider asked ≡ ok written
unfolding remember_identity_provider validate_entity_identifier is_entity_identifier_uri
    common_domain_attribute is_ascii_hostname validated_lifetime entity_ids_from_existing
    decode_percent entity_ids_from_decoded entity_ids_from_tokens entity_id_from_token
    encode_cookie_value drop_oldest retain_other encode_percent decode_bytes hex_value ascii text_eq
    split
remembered = refl

header :
    set_cookie_header (record {
      value = ascii "v";
      domain = ascii ".example.org";
      lifetime = persistent 60000000000;
    })
    ≡ ascii "_saml_idp=v; Path=/; Domain=.example.org; Secure; Max-Age=60"
unfolding set_cookie_header decimal_from ascii
header = refl

remember_identity_provider-Remembered_example : Remembered lettered this_provider asked written
remember_identity_provider-Remembered_example =
    remember_identity_provider-Remembered lettered this_provider asked {cookie = written} remembered

decode_bytes-encode_percent_example :
    decode_bytes space (encode_percent (43 ∷ 32 ∷ 255 ∷ [])) ≡ ok (43 ∷ 32 ∷ 255 ∷ [])
decode_bytes-encode_percent_example =
    decode_bytes-encode_percent space (43 ∷ 32 ∷ 255 ∷ [])
      (omega arith, (omega arith, (omega arith, tt)))

short_value : length (encode_cookie_value lettered ((97 ∷ []) ∷ (98 ∷ []) ∷ [])) ≤ 8192
unfolding encode_cookie_value encode_percent
short_value = omega arith

entity_ids_from_existing-encode_cookie_value_example :
    entity_ids_from_existing lettered
      (some (encode_cookie_value lettered ((97 ∷ []) ∷ (98 ∷ []) ∷ [])))
    ≡ ok ((97 ∷ []) ∷ (98 ∷ []) ∷ [])
entity_ids_from_existing-encode_cookie_value_example =
    entity_ids_from_existing-encode_cookie_value lettered (97 ∷ []) ((98 ∷ []) ∷ [])
      ((λ e. cc e, (omega arith, tt), refl), ((λ e. cc e, (omega arith, tt), refl), tt)) short_value
