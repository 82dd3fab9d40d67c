-- ===== src/Artifact/Tests.antt =====
-- An issuer with one artifact, and inputs at which the theorems on src/artifact.rs apply.
use opensaml_rs.Prelude.{
  Distinct, ◌+◌, ◌≤◌, ◌<◌, ◌≡◌, ◌≢◌, refl, true, false, none, some, [], ◌∷◌, Text, ascii, text_eq,
  All, arith, length,
}
use opensaml_rs.Error.{Result, ok}
use opensaml_rs.Channel.{
  SoapChannel, mutual_authentication, integrity_protected, confidentiality_protected,
  no_confidentiality,
}
use opensaml_rs.Base64.{shifted, shift, unshift}
use opensaml_rs.DateTime.Tests.{run_inbound}
use opensaml_rs.Element.{
  SamlElement, element, no_elements, elements, protocol, assertion, parse_resolve, required_attr,
  attr, find_attribute, issuer, artifact_value, issuer_format_is_entity,
}
use opensaml_rs.Sha1.{
  sha1, absorb_all, absorb, reverse_onto, rounds, round, extend, chunk_words, padded, zeros,
}
use opensaml_rs.Artifact.{
  as_bytes, Artifact, try_from_encoded, encode_artifact, message_handle, IssuedEntry,
  IssuedArtifacts, get_entry, remove_entry, IdpMetadata, ArtifactResolutionServiceEndpoint,
  soap_service, contains_use, record_use,
}
use opensaml_rs.Artifact.Exchange.{
  verdict_of_entry, verdict_of_artifact, verdict, answered, carry_out, reply_to, reply, settle,
  answer, AnsweredArtifact, returned, withheld, wrong_channel, ArtifactResponse, SoapBody,
}
use opensaml_rs.Artifact.Codec.{try_from_encoded-encode_artifact, length-message_handle}
use opensaml_rs.Artifact.Release.{Answered}
use opensaml_rs.Artifact.Answer.{answer_sound, answer_withheld}
use opensaml_rs.Artifact.Refinement.{Spec, view, step-Spec}
use opensaml_rs.Artifact.Trace.{
  step, releases, named, asked, answering, total_releases, total_issues, outstanding,
  total_releases_bounded,
}
use opensaml_rs.Artifact.Uses.{Resolving, resolved, single_use, resolved-Distinct}
use opensaml_rs.Artifact.Receiver.{ArtifactResolve, prepare, resolve, require_channel}

abbrev uuid : Text
uuid = 1 ∷ 2 ∷ 3 ∷ 4 ∷ 5 ∷ 6 ∷ 7 ∷ 8 ∷ 9 ∷ 10 ∷ 11 ∷ 12 ∷ 13 ∷ 14 ∷ 15 ∷ 16 ∷ []

abbrev handle : Text
handle = 0 ∷ 1 ∷ 2 ∷ 3 ∷ 4 ∷ 5 ∷ 6 ∷ 7 ∷ 8 ∷ 9 ∷ 0 ∷ 1 ∷ 2 ∷ 3 ∷ 4 ∷ 5 ∷ 6 ∷ 7 ∷ 8 ∷ 9 ∷ []

handle_length : length (message_handle uuid uuid) ≡ 20
handle_length = length-message_handle uuid uuid refl refl

handle_bytes : All (λ b. b < 256) handle
handle_bytes = (
  omega arith,
  (
    omega arith,
    (
      omega arith,
      (
        omega arith,
        (
          omega arith,
          (
            omega arith,
            (
              omega arith,
              (
                omega arith,
                (
                  omega arith,
                  (
                    omega arith,
                    (
                      omega arith,
                      (
                        omega arith,
                        (
                          omega arith,
                          (
                            omega arith,
                            (
                              omega arith,
                              (
                                omega arith,
                                (omega arith, (omega arith, (omega arith, (omega arith, tt)))),
                              ),
                            ),
                          ),
                        ),
                      ),
                    ),
                  ),
                ),
              ),
            ),
          ),
        ),
      ),
    ),
  ),
)

try_from_encoded-encode_artifact_example :
    try_from_encoded shifted (encode_artifact shifted 258 handle handle)
    ≡ ok (record {
      encoded = encode_artifact shifted 258 handle handle;
      endpoint_index = 258;
      source_id = handle;
    })
try_from_encoded-encode_artifact_example =
    try_from_encoded-encode_artifact shifted 258 handle handle (omega arith) refl refl handle_bytes
      handle_bytes

abbrev idp : Text
idp = b'i' ∷ []

abbrev sp : Text
sp = b's' ∷ []

utf8_bytes :
    as_bytes (b'a' ∷ 233 ∷ 8364 ∷ 128512 ∷ [])
    ≡ 97 ∷ 195 ∷ 169 ∷ 226 ∷ 130 ∷ 172 ∷ 240 ∷ 159 ∷ 152 ∷ 128 ∷ []
utf8_bytes = refl

-- The artifact of the issuer, as it is written in a request.
abbrev artifact_text : Text
artifact_text = encode_artifact shifted 0 (sha1 idp) handle

abbrev artifact : Artifact
artifact = record { encoded = artifact_text; endpoint_index = 0; source_id = sha1 idp }

abbrev service : ArtifactResolutionServiceEndpoint
service = record {
  index = 0;
  binding = ascii "urn:oasis:names:tc:SAML:2.0:bindings:SOAP";
  location = b'l' ∷ [];
}

abbrev metadata : IdpMetadata
metadata = record { entity_id = some idp; artifact_resolution_services = ok (service ∷ []) }

abbrev entry : IssuedEntry
entry = record { service_provider = sp; message_xml = b'x' ∷ []; web_browser_sso_response = true }

abbrev issued : IssuedArtifacts
issued = (artifact_text, entry) ∷ []

abbrev resolve_element : SamlElement
resolve_element =
    element (ascii "ArtifactResolve") protocol
      ((ascii "ID", b'_' ∷ [])
        ∷ (ascii "Version", ascii "2.0")
        ∷ (ascii "IssueInstant", ascii "2024-01-01T00:00:00Z")
        ∷ [])
      []
      (elements (element (ascii "Issuer") assertion [] sp no_elements (0, 0)) (
        elements (element (ascii "Artifact") protocol [] artifact_text no_elements (0, 0))
          no_elements))
      (0, 0)

abbrev body : SoapBody
body = record {
  local_name = ascii "ArtifactResolve";
  namespace = protocol;
  element = ok resolve_element;
}

abbrev read : Text → Result SoapBody
read envelope = ok body

-- The envelope is the message.
abbrev write : ArtifactResponse → Result Text
write response = elim response.message_xml [ none ↦ ok [] | some xml ↦ ok xml ]

abbrev confidential : SoapChannel
confidential = record {
  authentication = mutual_authentication;
  integrity = integrity_protected;
  confidentiality = confidentiality_protected;
}

abbrev open_channel : SoapChannel
open_channel = record confidential { confidentiality = no_confidentiality }

abbrev response : AnsweredArtifact
response = record { envelope = b'x' ∷ []; release = returned }

-- Opens everything that an answer calls.
run : SoapChannel → IssuedArtifacts → Result AnsweredArtifact × IssuedArtifacts
unfolding answer settle reply reply_to carry_out answered verdict verdict_of_artifact
    verdict_of_entry parse_resolve required_attr attr find_attribute issuer artifact_value
    issuer_format_is_entity run_inbound ascii text_eq try_from_encoded encode_artifact shift unshift
    soap_service get_entry remove_entry sha1 absorb_all absorb reverse_onto rounds round extend
    chunk_words padded zeros
run channel store = answer shifted read write metadata sp [] store channel

answers : (answer shifted read write metadata sp [] issued confidential).0 ≡ ok response
unfolding run
answers = refl

answer_sound_example :
    (key : Text) × Answered shifted read write metadata sp [] issued confidential response key
    × ((answer shifted read write metadata sp [] issued confidential).1 ≡ remove_entry key issued)
answer_sound_example =
    answer_sound shifted read write metadata sp [] issued confidential answers refl

withholds :
    (answer shifted read write metadata sp [] issued open_channel).0
    ≡ ok (record { envelope = []; release = withheld wrong_channel })
unfolding run
withholds = refl

answer_withheld_example : (answer shifted read write metadata sp [] issued open_channel).1 ≡ issued
answer_withheld_example =
    answer_withheld shifted read write metadata sp [] issued open_channel (λ r e. no_message r e)
  where
    no_message :
        (r : AnsweredArtifact)
        → (answer shifted read write metadata sp [] issued open_channel).0 ≡ ok r
        → r.release ≢ returned
    no_message r e = cc (withholds, e)

released_once :
    total_releases shifted read write artifact_text
      (answering metadata sp [] confidential ∷ answering metadata sp [] confidential ∷ [])
      issued
    ≡ 1
unfolding total_releases releases step named asked run
released_once = refl

total_releases_bounded_example :
    total_releases shifted read write artifact_text
      (answering metadata sp [] confidential ∷ answering metadata sp [] confidential ∷ [])
      issued
    ≤ outstanding artifact_text issued
      + total_issues shifted read write artifact_text
          (answering metadata sp [] confidential ∷ answering metadata sp [] confidential ∷ [])
          issued
total_releases_bounded_example =
    total_releases_bounded shifted read write artifact_text
      (answering metadata sp [] confidential ∷ answering metadata sp [] confidential ∷ []) issued

abbrev resolving_once : Resolving
resolving_once = record {
  requester = sp;
  idp_entity_id = idp;
  metadata = metadata;
  artifact = artifact;
  deref = record { web_browser_sso = true; channel = confidential };
  request_id = b'_' ∷ [];
}

-- The request is its artifact.
abbrev write_resolve : ArtifactResolve → Result Text
write_resolve request = ok request.artifact

abbrev standalone : SoapBody → SamlElement → Result Text
standalone soap message = ok []

resolved_once :
    resolved write_resolve read standalone (resolving_once ∷ resolving_once ∷ []) (single_use [])
    ≡ artifact_text ∷ []
unfolding resolved resolve prepare record_use require_channel soap_service ascii text_eq
    encode_artifact shift sha1 absorb_all absorb reverse_onto rounds round extend chunk_words padded
    zeros
resolved_once = refl

resolved-Distinct_example :
    Distinct (
      resolved write_resolve read standalone (resolving_once ∷ resolving_once ∷ []) (single_use []))
    × All
        (λ a. contains_use [] a ≡ false)
        (resolved write_resolve read standalone
          (resolving_once ∷ resolving_once ∷ [])
          (single_use []))
resolved-Distinct_example =
    resolved-Distinct write_resolve read standalone (resolving_once ∷ resolving_once ∷ []) []

step-Spec_example :
    Spec shifted read write
      (answering metadata sp [] confidential)
      issued
      (view issued)
      (view (step shifted read write (answering metadata sp [] confidential) issued))
step-Spec_example = step-Spec shifted read write (answering metadata sp [] confidential) issued
