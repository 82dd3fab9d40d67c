-- ===== src/Artifact/Exchange.antt =====
-- src/artifact.rs: `issue` and `answer`, the issuer's side of the artifact exchange. Reading and
-- writing SOAP envelopes are functions that are arguments here; a presenter is its entity ID.
use opensaml_rs.Prelude.{
  ℕ, Bool, true, false, ◌&&◌, ◌||◌, not, Option, none, some, Text, ascii, text_eq, if◌then◌else◌,
}
use opensaml_rs.Error.{
  missing_metadata, invalid, protocol_profile, Result, ok, err, ◌>>=◌, ◌>>◌, ensure, ok_or,
}
use opensaml_rs.Channel.{SoapChannel, channel_allows}
use opensaml_rs.Base64.{Base64Crate}
use opensaml_rs.Element.{
  SamlElement, protocol, PartyName, ResolveRequest, parse_resolve, issuer_format_is_entity,
}
use opensaml_rs.Sha1.{sha1}
use opensaml_rs.Artifact.{
  as_bytes, Artifact, try_from_encoded, encode_artifact, message_handle, IssuedMessage, IssuedEntry,
  IssuedArtifacts, get_entry, remove_entry, insert_entry, contains_entry, IdpMetadata,
  ArtifactResolutionServiceEndpoint, soap_service,
}

pub data ArtifactWithheld : Type 0 where
  not_outstanding different_presenter wrong_channel wrong_destination : ArtifactWithheld

pub data ArtifactRelease : Type 0 where
  returned version_mismatch : ArtifactRelease
  withheld : ArtifactWithheld → ArtifactRelease

pub record AnsweredArtifact : Type 0 where
  pub envelope : Text
  pub release : ArtifactRelease

-- src/soap.rs: what `read_soap_body` returns, with the element of its `xml`.
pub record SoapBody : Type 0 where
  pub local_name : Text
  pub namespace : Text
  pub element : Result SamlElement

-- What the `ArtifactResponse` is written from, besides a fresh ID and the time.
pub record ArtifactResponse : Type 0 where
  pub in_response_to : Text
  pub issuer : Text
  pub status : Text
  pub message_xml : Option Text

abbrev pub success_status : Text
success_status = ascii "urn:oasis:names:tc:SAML:2.0:status:Success"

abbrev pub version_mismatch_status : Text
version_mismatch_status = ascii "urn:oasis:names:tc:SAML:2.0:status:VersionMismatch"

-- What `answer` decides for a request of version 2.0.
pub data Verdict : Type 0 where
  withhold : ArtifactWithheld → Verdict
  return : Text → Text → Verdict

abbrev pub destination_matches : Option Text → Text → Bool
destination_matches none location = true
destination_matches (some destination) location = text_eq destination location

abbrev pub issuer_matches : Option PartyName → Text → Bool
issuer_matches none presenter = false
issuer_matches (some party) presenter =
    text_eq party.value presenter && issuer_format_is_entity party.format

-- `answer` from the entry of the artifact on: `service` is `soap_service` of its endpoint index.
unfoldable pub verdict_of_entry :
    ResolveRequest
    → Text
    → SoapChannel
    → Artifact
    → Option IssuedEntry
    → Result ArtifactResolutionServiceEndpoint
    → Verdict
verdict_of_entry request presenter channel artifact none service = withhold not_outstanding
verdict_of_entry request presenter channel artifact (some entry) (err e) = withhold not_outstanding
verdict_of_entry request presenter channel artifact (some entry) (ok service) =
    if not (destination_matches request.destination service.location)
    then withhold wrong_destination
    else if not (channel_allows channel entry.web_browser_sso_response)
    then withhold wrong_channel
    else if not (issuer_matches request.issuer presenter)
        || not (text_eq presenter entry.service_provider)
    then withhold different_presenter
    else return artifact.encoded entry.message_xml

module _ (B : Base64Crate) (read_soap_body : Text → Result SoapBody)
    (response_envelope : ArtifactResponse → Result Text) where
  -- The artifact that `issue` makes from two random UUIDs.
  unfoldable pub new_artifact : IdpMetadata → ℕ → Text × Text → IssuedArtifacts → Result Artifact
  new_artifact metadata endpoint_index uuids issued = do
    entity_id ← ok_or metadata.entity_id (missing_metadata (ascii "entityID"))
    service ← soap_service metadata endpoint_index
    let handle = message_handle uuids.0 uuids.1
    let encoded = encode_artifact B endpoint_index (sha1 (as_bytes entity_id)) handle
    ensure (not (contains_entry encoded issued))
        (invalid (ascii "artifact value is already outstanding"))
    try_from_encoded B encoded

  unfoldable pub issue :
      IdpMetadata
      → Text
      → IssuedMessage
      → ℕ
      → Text × Text
      → IssuedArtifacts
      → Result Artifact × IssuedArtifacts
  unfolding new_artifact
  issue metadata service_provider message endpoint_index uuids issued =
      elim (new_artifact metadata endpoint_index uuids issued) [
        | err e ↦ (err e, issued)
        | ok artifact ↦ (
          ok artifact,
          insert_entry artifact.encoded
              (record {
                service_provider = service_provider;
                message_xml = message.xml;
                web_browser_sso_response = message.web_browser_sso_response;
              })
              issued,
        )
      ]

  unfoldable pub verdict_of_artifact :
      IdpMetadata
      → Text
      → Text
      → ResolveRequest
      → SoapChannel
      → IssuedArtifacts
      → Result Artifact
      → Verdict
  verdict_of_artifact metadata entity_id presenter request channel issued (err e) =
      withhold not_outstanding
  verdict_of_artifact metadata entity_id presenter request channel issued (ok artifact) =
      if text_eq artifact.source_id (sha1 (as_bytes entity_id))
      then verdict_of_entry request presenter channel artifact (get_entry artifact.encoded issued)
          (soap_service metadata artifact.endpoint_index)
      else withhold not_outstanding

  unfoldable pub verdict :
      IdpMetadata → Text → Text → ResolveRequest → SoapChannel → IssuedArtifacts → Verdict
  unfolding verdict_of_artifact
  verdict metadata entity_id presenter request channel issued =
      verdict_of_artifact metadata entity_id presenter request channel issued
        (try_from_encoded B request.artifact)

  unfoldable pub answered :
      Text → Text → Text → Option Text → ArtifactRelease → Result AnsweredArtifact
  answered issuer in_response_to status message_xml release = do
    envelope ← response_envelope (record {
      in_response_to = in_response_to;
      issuer = issuer;
      status = status;
      message_xml = message_xml;
    })
    ok (record { envelope = envelope; release = release })

  -- An answer, and the key of the entry to remove once the answer is written.
  unfoldable pub carry_out : Text → Text → Verdict → Result (AnsweredArtifact × Option Text)
  carry_out entity_id id (withhold reason) = do
    response ← answered entity_id id success_status none (withheld reason)
    ok (response, none)
  carry_out entity_id id (return key message_xml) = do
    response ← answered entity_id id success_status (some message_xml) returned
    ok (response, some key)

  unfoldable pub reply_to :
      IdpMetadata
      → Text
      → Text
      → ResolveRequest
      → SoapChannel
      → IssuedArtifacts
      → Bool
      → Result (AnsweredArtifact × Option Text)
  unfolding carry_out
  reply_to metadata entity_id presenter request channel issued true =
      carry_out entity_id request.id (verdict metadata entity_id presenter request channel issued)
  reply_to metadata entity_id presenter request channel issued false = do
    response ← answered entity_id request.id version_mismatch_status none version_mismatch
    ok (response, none)

  -- `answer` before the store changes.
  unfoldable pub reply :
      IdpMetadata
      → Text
      → Text
      → IssuedArtifacts
      → SoapChannel
      → Result (AnsweredArtifact × Option Text)
  unfolding reply_to
  reply metadata presenter request_envelope issued channel = do
    entity_id ← ok_or metadata.entity_id (missing_metadata (ascii "entityID"))
    body ← read_soap_body request_envelope
    ensure (text_eq body.local_name (ascii "ArtifactResolve") && text_eq body.namespace protocol)
        (protocol_profile (ascii "SOAP body must be an ArtifactResolve"))
    element ← body.element
    request ← parse_resolve element
    reply_to metadata entity_id presenter request channel issued
        (text_eq request.version (ascii "2.0"))

  unfoldable pub settle :
      Result (AnsweredArtifact × Option Text)
      → IssuedArtifacts
      → Result AnsweredArtifact × IssuedArtifacts
  settle (err e) issued = (err e, issued)
  settle (ok (response, none)) issued = (ok response, issued)
  settle (ok (response, some key)) issued = (ok response, remove_entry key issued)

  unfoldable pub answer :
      IdpMetadata
      → Text
      → Text
      → IssuedArtifacts
      → SoapChannel
      → Result AnsweredArtifact × IssuedArtifacts
  unfolding settle
  answer metadata presenter request_envelope issued channel =
      settle (reply metadata presenter request_envelope issued channel) issued
