-- ===== src/Artifact/Release.antt =====
-- src/artifact.rs: what a released message says about the request and the store.
use opensaml_rs.Prelude.{
  ◌≡◌, ◌≢◌, ◌↔◌, refl, ap, ◌∙◌, true, Option, none, some, Text, ascii, text_eq, text_eq_iff, arith,
  Option-cases, Bool-cases, inl, inr,
}
use opensaml_rs.Error.{Result, ok, err, Result-cases}
use opensaml_rs.Channel.{SoapChannel, channel_allows}
use opensaml_rs.Base64.{Base64Crate}
use opensaml_rs.Element.{SamlElement, ResolveRequest, parse_resolve}
use opensaml_rs.Sha1.{sha1}
use opensaml_rs.Artifact.{
  as_bytes, Artifact, try_from_encoded, IssuedEntry, IssuedArtifacts, get_entry, IdpMetadata,
  ArtifactResolutionServiceEndpoint, soap_service,
}
use opensaml_rs.Artifact.Exchange.{
  Verdict, withhold, return, destination_matches, issuer_matches, verdict_of_entry,
  verdict_of_artifact, verdict, answered, carry_out, reply_to, reply, AnsweredArtifact, returned,
  ArtifactResponse, SoapBody, success_status,
}

-- The request may have the message of this entry.
pub record IsEntitled (request : ResolveRequest) (presenter : Text) (channel : SoapChannel)
    (service : ArtifactResolutionServiceEndpoint) (entry : IssuedEntry) : Type 0 where
  pub destination : destination_matches request.destination service.location ≡ true
  pub channel_protects : channel_allows channel entry.web_browser_sso_response ≡ true
  pub issuer : issuer_matches request.issuer presenter ≡ true
  pub recipient : presenter ≡ entry.service_provider

verdict_of_entry_sound :
    (request : ResolveRequest) (presenter : Text) (channel : SoapChannel) (artifact : Artifact)
    (found : Option IssuedEntry) (service : Result ArtifactResolutionServiceEndpoint)
    {key xml : Text}
    → verdict_of_entry request presenter channel artifact found service ≡ return key xml
    → (entry : IssuedEntry) × (endpoint : ArtifactResolutionServiceEndpoint) × (found ≡ some entry)
      × (service ≡ ok endpoint)
      × (key ≡ artifact.encoded)
      × (xml ≡ entry.message_xml)
      × IsEntitled request presenter channel endpoint entry
unfolding verdict_of_entry
verdict_of_entry_sound request presenter channel artifact none service h = absurd (cc)
verdict_of_entry_sound request presenter channel artifact (some entry) (err e) h = absurd (cc)
verdict_of_entry_sound request presenter channel artifact (some entry) (ok service) h = (
  entry,
  service,
  refl,
  refl,
  ground arith,
  ground arith,
  record {
    destination = ground arith;
    channel_protects = ground arith;
    issuer = ground arith;
    recipient = ground (arith, text_eq_iff presenter entry.service_provider);
  },
)

module _ (B : Base64Crate) (read_soap_body : Text → Result SoapBody)
    (response_envelope : ArtifactResponse → Result Text) where
  -- A released message stands behind the artifact that the request names.
  pub record Released (metadata : IdpMetadata) (entity_id presenter : Text)
      (request : ResolveRequest) (channel : SoapChannel) (issued : IssuedArtifacts) (key xml : Text)
      : Type 0 where
    pub artifact : Artifact
    pub entry : IssuedEntry
    pub service : ArtifactResolutionServiceEndpoint
    pub artifact_read : try_from_encoded B request.artifact ≡ ok artifact
    pub key_is : key ≡ artifact.encoded
    pub source_is : artifact.source_id ≡ sha1 (as_bytes entity_id)
    pub outstanding : get_entry key issued ≡ some entry
    pub service_is : soap_service metadata artifact.endpoint_index ≡ ok service
    pub xml_is : xml ≡ entry.message_xml
    pub entitled : IsEntitled request presenter channel service entry

  verdict_of_artifact_sound :
      (metadata : IdpMetadata) (entity_id presenter : Text) (request : ResolveRequest)
      (channel : SoapChannel) (issued : IssuedArtifacts) (made : Result Artifact) {key xml : Text}
      → try_from_encoded B request.artifact ≡ made
      → verdict_of_artifact B read_soap_body response_envelope metadata entity_id presenter request
          channel issued made
        ≡ return key xml
      → Released metadata entity_id presenter request channel issued key xml
  unfolding verdict_of_artifact
  verdict_of_artifact_sound metadata entity_id presenter request channel issued (err e) made h =
      absurd (cc)
  verdict_of_artifact_sound metadata entity_id presenter request channel issued (ok artifact) made
        h =
      elim (Bool-cases (text_eq artifact.source_id (sha1 (as_bytes entity_id)))) [
        | inl same ↦
            let (entry, service, found, served, key_is, xml_is, entitled) =
              verdict_of_entry_sound request presenter channel artifact
                (get_entry artifact.encoded issued) (soap_service metadata artifact.endpoint_index)
                (ground (arith, same)) in
            record {
              artifact = artifact;
              entry = entry;
              service = service;
              artifact_read = made;
              key_is = key_is;
              source_is = (text_eq_iff artifact.source_id (sha1 (as_bytes entity_id))).0 same;
              outstanding = ap (λ k. get_entry k issued) key_is ∙ found;
              service_is = served;
              xml_is = xml_is;
              entitled = entitled;
            }
        | inr differs ↦ absurd (ground (arith, differs))
      ]

  pub verdict_sound :
      (metadata : IdpMetadata) (entity_id presenter : Text) (request : ResolveRequest)
      (channel : SoapChannel) (issued : IssuedArtifacts) {key xml : Text}
      → verdict B read_soap_body response_envelope metadata entity_id presenter request channel
          issued
        ≡ return key xml
      → Released metadata entity_id presenter request channel issued key xml
  unfolding verdict
  verdict_sound metadata entity_id presenter request channel issued h =
      verdict_of_artifact_sound metadata entity_id presenter request channel issued
        (try_from_encoded B request.artifact) refl h

  pub carry_out_sound :
      (entity_id id : Text) (v : Verdict) {response : AnsweredArtifact} {key : Text}
      → carry_out B read_soap_body response_envelope entity_id id v ≡ ok (response, some key)
      → (xml : Text) × (v ≡ return key xml)
        × (response_envelope (record {
          in_response_to = id;
          issuer = entity_id;
          status = success_status;
          message_xml = some xml;
        })
            ≡ ok response.envelope)
  unfolding carry_out answered
  carry_out_sound entity_id id (withhold reason) h = absurd (ground arith)
  carry_out_sound entity_id id (return k xml) h = (xml, ground arith, ground arith)

  -- An answer removes an entry exactly when it has the message.
  pub carry_out_returned :
      (entity_id id : Text) (v : Verdict) {response : AnsweredArtifact} {key : Option Text}
      → carry_out B read_soap_body response_envelope entity_id id v ≡ ok (response, key)
      → (response.release ≡ returned) ↔ (key ≢ none)
  unfolding carry_out answered
  carry_out_returned entity_id id (withhold reason) h = ground arith
  carry_out_returned entity_id id (return k xml) h = ground arith

  -- What stands behind an answer that removes the entry of `key`.
  pub record Answered (metadata : IdpMetadata) (presenter envelope : Text)
      (issued : IssuedArtifacts) (channel : SoapChannel) (response : AnsweredArtifact) (key : Text)
      : Type 0 where
    pub entity_id : Text
    pub body : SoapBody
    pub element : SamlElement
    pub request : ResolveRequest
    pub xml : Text
    pub issuer_known : metadata.entity_id ≡ some entity_id
    pub body_read : read_soap_body envelope ≡ ok body
    pub element_read : body.element ≡ ok element
    pub request_read : parse_resolve element ≡ ok request
    pub version : request.version ≡ ascii "2.0"
    pub released : Released metadata entity_id presenter request channel issued key xml
    pub written :
        response_envelope (record {
          in_response_to = request.id;
          issuer = entity_id;
          status = success_status;
          message_xml = some xml;
        })
        ≡ ok response.envelope

  -- The request that a reply is for.
  pub record Read (metadata : IdpMetadata) (envelope : Text) : Type 0 where
    pub entity_id : Text
    pub body : SoapBody
    pub element : SamlElement
    pub request : ResolveRequest
    pub issuer_known : metadata.entity_id ≡ some entity_id
    pub body_read : read_soap_body envelope ≡ ok body
    pub element_read : body.element ≡ ok element
    pub request_read : parse_resolve element ≡ ok request

  pub reply-Read :
      (metadata : IdpMetadata) (presenter envelope : Text) (issued : IssuedArtifacts)
      (channel : SoapChannel) {r : AnsweredArtifact × Option Text}
      → reply B read_soap_body response_envelope metadata presenter envelope issued channel ≡ ok r
      → (read : Read metadata envelope) × (reply_to B read_soap_body response_envelope metadata
            read.entity_id presenter read.request channel issued
            (text_eq read.request.version (ascii "2.0"))
          ≡ ok r)
  unfolding reply
  reply-Read metadata presenter envelope issued channel h = elim (Option-cases metadata.entity_id) [
    | inl bad ↦ absurd (ground (arith, bad))
    | inr (entity_id, e1) ↦ elim (Result-cases (read_soap_body envelope)) [
      | inr (e, bad) ↦ absurd (ground (arith, bad, e1))
      | inl (body, e2) ↦ elim (Result-cases body.element) [
        | inr (e, bad) ↦ absurd (ground (arith, bad, e1, e2))
        | inl (element, e3) ↦ elim (Result-cases (parse_resolve element)) [
          | inr (e, bad) ↦ absurd (ground (arith, bad, e1, e2, e3))
          | inl (request, e4) ↦ (
            record {
              entity_id = entity_id;
              body = body;
              element = element;
              request = request;
              issuer_known = e1;
              body_read = e2;
              element_read = e3;
              request_read = e4;
            },
            ground (arith, e1, e2, e3, e4),
          )
        ]
      ]
    ]
  ]
