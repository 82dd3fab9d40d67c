-- ===== src/Artifact.antt =====
-- src/artifact.rs: artifacts, the issuer's store of outstanding messages and its answers, and the
-- receiver's record of the artifacts it resolved. A hash map is an association list with one entry
-- for a key at most.
pub mod Codec
pub mod Receiver
pub mod Finish
pub mod Exchange
pub mod Store
pub mod Release
pub mod Answer
pub mod Trace
pub mod Uses
pub mod Refinement
mod Tests
use opensaml_rs.Prelude.{
  ℕ, ◌+◌, ◌*◌, ◌/◌, ◌%◌, ◌≡◌, Bool, true, false, ◌&&◌, ◌||◌, not, Option, none, some, List, [], ◌∷◌,
  ◌++◌, Text, ascii, text_eq, length, get_elem?, take, drop, any, ◌==◌, ltb, if◌then◌else◌,
}
use opensaml_rs.Error.{
  SamlError, missing_metadata, invalid, unsupported, protocol_profile, replay_detected, Result, ok,
  err, ◌>>=◌, ◌>>◌, ensure, ok_or, soap_channel_protection,
}
use opensaml_rs.Base64.{Base64Crate}
use opensaml_rs.Element.{is_whitespace}

pub record Artifact : Type 0 where
  pub encoded : Text
  pub endpoint_index : ℕ
  pub source_id : Text

-- `str::as_bytes`: UTF-8, of a text of Unicode scalar values.
abbrev pub utf8 : ℕ → Text
utf8 c =
    if ltb c 128
    then c ∷ []
    else if ltb c 2048
    then (192 + c / 64) ∷ (128 + c % 64) ∷ []
    else if ltb c 65536
    then (224 + c / 4096) ∷ (128 + (c / 64) % 64) ∷ (128 + c % 64) ∷ []
    else (240 + c / 262144) ∷ (128 + (c / 4096) % 64) ∷ (128 + (c / 64) % 64) ∷ (128 + c % 64) ∷ []

abbrev pub as_bytes : Text → Text
as_bytes [] = []
as_bytes (c ∷ text) = utf8 c ++ as_bytes text

abbrev pub byte_at : Text → ℕ → ℕ
byte_at bytes i = elim (get_elem? bytes i) [ none ↦ 0 | some b ↦ b ]

-- `u16::from_be_bytes([bytes[i], bytes[i + 1]])`
abbrev pub be_u16 : Text → ℕ → ℕ
be_u16 bytes i = byte_at bytes i * 256 + byte_at bytes (i + 1)

-- `Result::or_else`, with the errors left out.
abbrev pub or_else : Option Text → Option Text → Option Text
or_else none b = b
or_else (some x) b = some x

module _ (B : Base64Crate) where
  open B use {encode, decode, decode_no_pad}

  unfoldable pub try_from_encoded : Text → Result Artifact
  try_from_encoded encoded = do
    ensure (not (any is_whitespace encoded))
        (invalid (ascii "artifact must not contain whitespace"))
    bytes ←
        ok_or (or_else (decode encoded) (decode_no_pad encoded))
          (invalid (ascii "artifact is not base64"))
    ensure (length bytes == 44) (invalid (ascii "artifact must be a 44-byte type 0x0004 value"))
    ensure (be_u16 bytes 0 == 4) (invalid (ascii "artifact type code must be 0x0004"))
    ok (record {
      encoded = encode bytes;
      endpoint_index = be_u16 bytes 2;
      source_id = take 20 (drop 4 bytes);
    })

  unfoldable pub encode_artifact : ℕ → Text → Text → Text
  encode_artifact index source_id handle =
      encode (0 ∷ 4 ∷ index / 256 ∷ index % 256 ∷ source_id ++ handle)

-- `message_handle`, from the bytes of two random UUIDs.
unfoldable pub message_handle : Text → Text → Text
message_handle first second =
    take 6 first ++ drop 9 first ++ take 6 second ++ (byte_at second 9 ∷ [])

pub record IssuedMessage : Type 0 where
  pub xml : Text
  pub web_browser_sso_response : Bool

pub record IssuedEntry : Type 0 where
  pub service_provider : Text
  pub message_xml : Text
  pub web_browser_sso_response : Bool

abbrev pub IssuedArtifacts : Type 0
IssuedArtifacts = List (Text × IssuedEntry)

-- `HashMap::get`, `HashMap::remove` and `HashMap::insert`
unfoldable pub get_entry : Text → IssuedArtifacts → Option IssuedEntry
get_entry k [] = none
get_entry k ((j, entry) ∷ entries) = if text_eq j k then some entry else get_entry k entries

unfoldable pub remove_entry : Text → IssuedArtifacts → IssuedArtifacts
remove_entry k [] = []
remove_entry k ((j, entry) ∷ entries) =
    let rest = remove_entry k entries in if text_eq j k then rest else (j, entry) ∷ rest

unfoldable pub insert_entry : Text → IssuedEntry → IssuedArtifacts → IssuedArtifacts
insert_entry k entry entries = (k, entry) ∷ remove_entry k entries

abbrev pub contains_entry : Text → IssuedArtifacts → Bool
contains_entry k entries = elim (get_entry k entries) [ none ↦ false | some _ ↦ true ]

-- `IssuedArtifacts::remove`
unfoldable pub remove : Artifact → IssuedArtifacts → Bool × IssuedArtifacts
remove artifact issued =
    (contains_entry artifact.encoded issued, remove_entry artifact.encoded issued)

-- `ArtifactUses`, with `record` as `record_use`.
pub record ArtifactUses : Type 0 where
  pub enforce : Bool
  pub seen : List Text

abbrev pub contains_use : List Text → Text → Bool
contains_use seen artifact = any (λ s. text_eq s artifact) seen

unfoldable pub record_use : Text → ArtifactUses → Result (Unit {0}) × ArtifactUses
record_use artifact uses =
    if uses.enforce
    then if contains_use uses.seen artifact
      then (err (replay_detected artifact), uses)
      else (ok tt, record uses { seen = artifact ∷ uses.seen })
    else (ok tt, uses)

-- src/metadata/idp.rs: an endpoint, and what `get_entity_id` and `artifact_resolution_services`
-- return for the metadata.
pub record ArtifactResolutionServiceEndpoint : Type 0 where
  pub index : ℕ
  pub binding : Text
  pub location : Text

pub record IdpMetadata : Type 0 where
  pub entity_id : Option Text
  pub artifact_resolution_services : Result (List ArtifactResolutionServiceEndpoint)

abbrev pub is_soap : ArtifactResolutionServiceEndpoint → Bool
is_soap service = text_eq service.binding (ascii "urn:oasis:names:tc:SAML:2.0:bindings:SOAP")

abbrev pub find_service :
    ℕ → List ArtifactResolutionServiceEndpoint → Option ArtifactResolutionServiceEndpoint
find_service index [] = none
find_service index (service ∷ services) =
    if service.index == index then some service else find_service index services

unfoldable pub soap_service : IdpMetadata → ℕ → Result ArtifactResolutionServiceEndpoint
soap_service metadata index = do
  services ← metadata.artifact_resolution_services
  service ←
      ok_or (find_service index services) (missing_metadata (ascii "ArtifactResolutionService"))
  ensure (is_soap service) (unsupported (ascii "ArtifactResolutionService binding is not SOAP"))
  ok service
