-- ===== src/Artifact/Finish.antt =====
-- src/artifact.rs: what the receiver knows of a message that `finish` returns.
mod Tests
use opensaml_rs.Prelude.{
  ◌≡◌, ◌≢◌, ◌↔◌, refl, Bool, true, false, ◌&&◌, not, Option, none, some, [], ◌∷◌, Text, ascii,
  text_eq, text_eq_iff, arith, Option-cases, Bool-cases, inl, inr, ap, ◌∙◌,
}
use opensaml_rs.Error.{Result, ok, err, Result-cases}
use opensaml_rs.Element.{
  SamlElement, attr, local_name, namespace, protocol, issuer, status_codes, protocol_payload,
  PartyName,
}
use opensaml_rs.Artifact.Exchange.{SoapBody, success_status}
use opensaml_rs.Artifact.Receiver.{
  ArtifactResolve, ArtifactResolution, ResolvedProtocolMessage, payload_of, check_payload, finish,
  is_attr,
}

is_attr_sound :
    (found : Option Text) (expected : Text) → is_attr found expected ≡ true → found ≡ some expected
is_attr_sound none expected h = cc
is_attr_sound (some t) expected h = ap some ((text_eq_iff t expected).0 h)

module _ (write_request : ArtifactResolve → Result Text) (read_soap_body : Text → Result SoapBody)
    (standalone_element : SoapBody → SamlElement → Result Text) where
  -- The response answers this request, comes from the identity provider, states success and has
  -- this payload.
  pub record IsAnswer (r : ArtifactResolution) (response message : SamlElement) : Type 0 where
    pub in_response_to : attr response (ascii "InResponseTo") ≡ some r.request_id
    pub party : PartyName
    pub issuer_is : issuer response ≡ some party
    pub issuer_value : party.value ≡ r.identity_provider
    pub second : Option Text
    pub status : status_codes response ≡ ok (success_status, second)
    pub payload : protocol_payload response ≡ ok (some message)

  payload_of_sound :
      (r : ArtifactResolution) (response : SamlElement) {message : SamlElement}
      → payload_of write_request read_soap_body standalone_element r response ≡ ok message
      → IsAnswer r response message
  unfolding payload_of
  payload_of_sound r response h = elim (Option-cases (issuer response)) [
    | inl bad ↦ absurd (ground (arith, bad))
    | inr (party, found) ↦ elim (Result-cases (status_codes response)) [
      | inr (e, bad) ↦ absurd (ground (arith, bad))
      | inl ((top, second), codes) ↦ record {
        in_response_to =
            is_attr_sound (attr response (ascii "InResponseTo")) r.request_id (ground arith);
        party = party;
        issuer_is = found;
        issuer_value = (text_eq_iff party.value r.identity_provider).0 (ground (arith, found));
        second = second;
        status =
            codes
            ∙ ap (λ t. ok (t, second)) ((text_eq_iff top success_status).0 (ground (arith, codes)));
        payload = ground arith;
      }
    ]
  ]

  -- What stands behind a returned message.
  pub record Returned (r : ArtifactResolution) (envelope : Text) (out : ResolvedProtocolMessage)
      : Type 0 where
    pub body : SoapBody
    pub response : SamlElement
    pub message : SamlElement
    pub body_read : read_soap_body envelope ≡ ok body
    pub element_read : body.element ≡ ok response
    pub answer : IsAnswer r response message
    pub message_namespace : namespace message ≡ protocol
    pub message_kind : (local_name message ≡ ascii "Response") ↔ (r.web_browser_sso ≡ true)
    pub name : out.local_name ≡ local_name message
    pub xml : standalone_element body message ≡ ok out.xml

  check_payload_sound :
      (r : ArtifactResolution) (message : SamlElement)
      → check_payload write_request read_soap_body standalone_element r message ≡ ok tt
      → (namespace message ≡ protocol)
        × ((local_name message ≡ ascii "Response") ↔ (r.web_browser_sso ≡ true))
  unfolding check_payload
  check_payload_sound r message h = (
    (text_eq_iff (namespace message) protocol).0 (ground arith),
    (
      λ e. ground (arith, (text_eq_iff (local_name message) (ascii "Response")).1 e),
      λ e. (text_eq_iff (local_name message) (ascii "Response")).0 (ground (arith, e)),
    ),
  )

  -- A message that is returned is the only payload of a successful response that answers this
  -- request and comes from the identity provider it was sent to; it is a protocol element, and a
  -- `Response` exactly when the dereference is for Web Browser SSO.
  pub finish_sound :
      (r : ArtifactResolution) (envelope : Text) {out : ResolvedProtocolMessage}
      → finish write_request read_soap_body standalone_element r envelope ≡ ok out
      → Returned r envelope out
  unfolding finish
  finish_sound r envelope h = elim (Result-cases (read_soap_body envelope)) [
    | inr (e, bad) ↦ absurd (ground (arith, bad))
    | inl (body, e1) ↦ elim (Result-cases body.element) [
      | inr (e, bad) ↦ absurd (ground (arith, e1, bad))
      | inl (response, e2) ↦
          elim (Result-cases
            (payload_of write_request read_soap_body standalone_element r response)) [
              | inr (e, bad) ↦ absurd (ground (arith, e1, e2, bad))
              | inl (message, e3) ↦
                  let checked = check_payload_sound r message (ground (arith, e1, e2, e3)) in
                  record {
                    body = body;
                    response = response;
                    message = message;
                    body_read = e1;
                    element_read = e2;
                    answer = payload_of_sound r response e3;
                    message_namespace = checked.0;
                    message_kind = checked.1;
                    name = ground (arith, e1, e2, e3);
                    xml = ground (arith, e1, e2, e3);
                  }
            ]
    ]
  ]
