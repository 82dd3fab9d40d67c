-- ===== src/Artifact/Finish/Tests.antt =====
-- A response at which the theorem on `finish` applies.
use opensaml_rs.Prelude.{◌≡◌, refl, true, [], ◌∷◌, Text, ascii, text_eq}
use opensaml_rs.Error.{Result, ok}
use opensaml_rs.DateTime.Tests.{run_inbound}
use opensaml_rs.Element.{
  SamlElement, element, no_elements, elements, protocol, assertion, required_attr, attr,
  find_attribute, issuer, status_codes, protocol_payload, issuer_format_is_entity,
}
use opensaml_rs.Artifact.Exchange.{SoapBody, success_status}
use opensaml_rs.Artifact.Receiver.{
  ArtifactResolve, ArtifactResolution, ResolvedProtocolMessage, payload_of, check_payload, finish,
}
use opensaml_rs.Artifact.Finish.{Returned, finish_sound}

abbrev answer_element : SamlElement
answer_element =
    element (ascii "ArtifactResponse") protocol
      ((ascii "ID", b'_' ∷ [])
        ∷ (ascii "Version", ascii "2.0")
        ∷ (ascii "IssueInstant", ascii "2024-01-01T00:00:00Z")
        ∷ (ascii "InResponseTo", b'r' ∷ [])
        ∷ [])
      []
      (elements (element (ascii "Issuer") assertion [] (b'i' ∷ []) no_elements (0, 0)) (
        elements
          (element (ascii "Status") protocol [] []
            (elements
              (element (ascii "StatusCode") protocol ((ascii "Value", success_status) ∷ []) []
                no_elements (0, 0))
              no_elements)
            (0, 0))
          (elements (element (ascii "Response") protocol [] [] no_elements (0, 0)) no_elements)))
      (0, 0)

abbrev read : Text → Result SoapBody
read envelope = ok (record {
  local_name = ascii "ArtifactResponse";
  namespace = protocol;
  element = ok answer_element;
})

abbrev write : ArtifactResolve → Result Text
write request = ok request.artifact

abbrev cut : SoapBody → SamlElement → Result Text
cut body message = ok (b'x' ∷ [])

abbrev resolution : ArtifactResolution
resolution = record {
  request = [];
  request_id = b'r' ∷ [];
  identity_provider = b'i' ∷ [];
  web_browser_sso = true;
}

abbrev out : ResolvedProtocolMessage
out = record { local_name = ascii "Response"; xml = b'x' ∷ [] }

finishes : finish write read cut resolution [] ≡ ok out
unfolding finish payload_of check_payload required_attr attr find_attribute issuer status_codes
    protocol_payload issuer_format_is_entity run_inbound ascii text_eq
finishes = refl

finish_sound_example : Returned write read cut resolution [] out
finish_sound_example = finish_sound write read cut resolution [] finishes
