-- ===== src/Artifact/Receiver.antt =====
-- src/artifact.rs: `ArtifactDereference`, `resolve` and `ArtifactResolution::finish`, the receiver's
-- side of the exchange. Writing the request, reading an envelope and cutting an element out of it
-- (src/soap.rs, src/xml/fragment.rs) are arguments, as is `url::Url::parse`.
use opensaml_rs.Prelude.{Bool, false, ◌&&◌, not, Option, none, some, Text, ascii, text_eq}
use opensaml_rs.Error.{
  protocol_profile, issuer_mismatch, in_response_to_mismatch, status_not_success,
  artifact_not_returned, soap_channel_protection, Result, ok, err, ◌>>=◌, ◌>>◌, ensure, ok_or,
}
use opensaml_rs.Channel.{SoapChannel, channel_allows}
use opensaml_rs.Element.{
  SamlElement, attr, local_name, namespace, protocol, required_attr, is_date_time, issuer,
  issuer_format_is_entity, status_codes, protocol_payload,
}
use opensaml_rs.Sha1.{sha1}
use opensaml_rs.Artifact.{as_bytes, Artifact, ArtifactUses, record_use, IdpMetadata, soap_service}
use opensaml_rs.Artifact.Exchange.{SoapBody, success_status}

pub record ArtifactDereference : Type 0 where
  pub web_browser_sso : Bool
  pub channel : SoapChannel

unfoldable pub require_channel : SoapChannel → Bool → Result (Unit {0})
require_channel channel web_browser_sso =
    ensure (channel_allows channel web_browser_sso) soap_channel_protection

-- `ArtifactDereference::protocol` and `ArtifactDereference::web_browser_sso`
unfoldable pub dereference : SoapChannel → Bool → Result ArtifactDereference
dereference channel web_browser_sso = do
  require_channel channel web_browser_sso
  ok (record { web_browser_sso = web_browser_sso; channel = channel })

pub record ArtifactResolution : Type 0 where
  pub request : Text
  pub request_id : Text
  pub identity_provider : Text
  pub web_browser_sso : Bool

pub record ResolvedProtocolMessage : Type 0 where
  pub local_name : Text
  pub xml : Text

-- What the `ArtifactResolve` is written from, besides the time.
pub record ArtifactResolve : Type 0 where
  pub id : Text
  pub destination : Text
  pub issuer : Text
  pub artifact : Text

abbrev pub is_attr : Option Text → Text → Bool
is_attr none expected = false
is_attr (some value) expected = text_eq value expected

module _ (write_request : ArtifactResolve → Result Text) (read_soap_body : Text → Result SoapBody)
    (standalone_element : SoapBody → SamlElement → Result Text) where
  -- `resolve` up to the record of the use.
  unfoldable pub prepare :
      Text → Text → IdpMetadata → Artifact → ArtifactDereference → Text → Result ArtifactResolution
  prepare requester idp_entity_id metadata artifact deref request_id = do
    require_channel deref.channel deref.web_browser_sso
    ensure (text_eq artifact.source_id (sha1 (as_bytes idp_entity_id)))
        (issuer_mismatch idp_entity_id none)
    service ← soap_service metadata artifact.endpoint_index
    request ← write_request (record {
      id = request_id;
      destination = service.location;
      issuer = requester;
      artifact = artifact.encoded;
    })
    ok (record {
      request = request;
      request_id = request_id;
      identity_provider = idp_entity_id;
      web_browser_sso = deref.web_browser_sso;
    })

  abbrev recorded :
      ArtifactResolution
      → Result (Unit {0}) × ArtifactUses
      → Result ArtifactResolution × ArtifactUses
  recorded resolution (ok u, uses) = (ok resolution, uses)
  recorded resolution (err e, uses) = (err e, uses)

  unfoldable pub resolve :
      Text
      → Text
      → IdpMetadata
      → Artifact
      → ArtifactDereference
      → Text
      → ArtifactUses
      → Result ArtifactResolution × ArtifactUses
  resolve requester idp_entity_id metadata artifact deref request_id uses =
      elim (prepare requester idp_entity_id metadata artifact deref request_id) [
        | err e ↦ (err e, uses)
        | ok resolution ↦ recorded resolution (record_use artifact.encoded uses)
      ]

  -- The checks of `finish` on the response element, up to its payload.
  unfoldable pub payload_of : ArtifactResolution → SamlElement → Result SamlElement
  payload_of r response = do
    version ← required_attr response (ascii "Version")
    ensure (text_eq version (ascii "2.0"))
        (protocol_profile (ascii "ArtifactResponse Version must be 2.0"))
    response_id ← required_attr response (ascii "ID")
    response_instant ← required_attr response (ascii "IssueInstant")
    ensure (is_date_time response_instant)
        (protocol_profile (ascii "ArtifactResponse IssueInstant must be a UTC xs:dateTime"))
    ensure (is_attr (attr response (ascii "InResponseTo")) r.request_id)
        (in_response_to_mismatch (some r.request_id) (attr response (ascii "InResponseTo")))
    party ← ok_or (issuer response) (issuer_mismatch r.identity_provider none)
    ensure (text_eq party.value r.identity_provider)
        (issuer_mismatch r.identity_provider (some party.value))
    ensure (issuer_format_is_entity party.format)
        (protocol_profile (ascii "ArtifactResponse Issuer Format must be omitted or entity"))
    codes ← status_codes response
    ensure (text_eq codes.0 success_status) (status_not_success codes.0 codes.1)
    payload ← protocol_payload response
    ok_or payload artifact_not_returned

  -- The checks of `finish` on the payload.
  unfoldable pub check_payload : ArtifactResolution → SamlElement → Result (Unit {0})
  check_payload r message = do
    ensure (text_eq (namespace message) protocol)
        (protocol_profile (ascii "ArtifactResponse payload must be a SAML protocol element"))
    ensure (not (r.web_browser_sso && not (text_eq (local_name message) (ascii "Response"))))
        (protocol_profile (ascii "Web Browser SSO artifact payload must be a Response"))
    ensure (not (not r.web_browser_sso && text_eq (local_name message) (ascii "Response"))) (
        protocol_profile (
          ascii
            "a protocol Response must be dereferenced with ArtifactDereference::web_browser_sso"))

  unfoldable pub finish : ArtifactResolution → Text → Result ResolvedProtocolMessage
  finish r response_envelope = do
    body ← read_soap_body response_envelope
    ensure (text_eq body.local_name (ascii "ArtifactResponse") && text_eq body.namespace protocol)
        (protocol_profile (ascii "SOAP body must be an ArtifactResponse"))
    response ← body.element
    message ← payload_of r response
    check_payload r message
    xml ← standalone_element body message
    ok (record { local_name = local_name message; xml = xml })
