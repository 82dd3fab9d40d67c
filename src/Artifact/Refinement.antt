-- ===== src/Artifact/Refinement.antt =====
-- src/artifact.rs: the issuer's store as an abstract map of outstanding messages, that the operations
-- change as their outcomes say.
use opensaml_rs.Prelude.{
  ℕ, ◌≡◌, ◌≢◌, ◌↔◌, ◌∙◌, subst, refl, sym, ap, Bool, true, Option, none, some, Option-cases, Text,
  text_eq, text_eq_refl, text_eq-cases, arith, inl, inr, if◌then◌else◌,
}
use opensaml_rs.Error.{Result, ok, err, Result-cases}
use opensaml_rs.Channel.{SoapChannel}
use opensaml_rs.Base64.{Base64Crate}
use opensaml_rs.Artifact.{
  Artifact, IssuedMessage, IssuedEntry, IssuedArtifacts, get_entry, remove_entry, insert_entry,
  IdpMetadata, remove, try_from_encoded,
}
use opensaml_rs.Artifact.Exchange.{
  new_artifact, issue, answer, AnsweredArtifact, ArtifactRelease, returned, withheld,
  version_mismatch, ArtifactResponse, SoapBody, success_status,
}
use opensaml_rs.Artifact.Store.{
  get_entry-remove_entry_self, get_entry-remove_entry, get_entry-insert_entry,
}
use opensaml_rs.Artifact.Answer.{answer_sound, answer_withheld}
use opensaml_rs.Artifact.Trace.{Operation, issuing, answering, removing, step, asked, dec_returned}
use opensaml_rs.Artifact.Release.{Answered}
use opensaml_rs.Element.{ResolveRequest}

-- What is outstanding for an artifact's value, however it is stored.
abbrev pub Outstanding : Type 0
Outstanding = Text → Option IssuedEntry

abbrev pub view : IssuedArtifacts → Outstanding
view issued k = get_entry k issued

abbrev pub Same : Outstanding → Outstanding → Type 0
Same m n = (j : Text) → n j ≡ m j

abbrev pub Without : Text → Outstanding → Outstanding → Type 0
Without k m n = (j : Text) → n j ≡ (if text_eq k j then none else m j)

abbrev pub With : Text → IssuedEntry → Outstanding → Outstanding → Type 0
With k entry m n = (j : Text) → n j ≡ (if text_eq k j then some entry else m j)

-- Issuing adds the message for the service provider, or nothing.
abbrev pub IssueSpec : Text → IssuedMessage → Result Artifact → Outstanding → Outstanding → Type 0
IssueSpec service_provider message (err e) m n = Same m n
IssueSpec service_provider message (ok artifact) m n =
    With artifact.encoded
      (record {
        service_provider = service_provider;
        message_xml = message.xml;
        web_browser_sso_response = message.web_browser_sso_response;
      })
      m n

-- Removing tells whether the message was outstanding.
abbrev pub RemoveSpec : Text → Bool → Outstanding → Outstanding → Type 0
RemoveSpec k was_there m n = ((was_there ≡ true) ↔ (m k ≢ none)) × Without k m n

view-remove_entry :
    (k : Text) (issued : IssuedArtifacts) → Without k (view issued) (view (remove_entry k issued))
view-remove_entry k issued j = elim (text_eq-cases k j) [
  | inl same ↦ rw (same, text_eq_refl j) (get_entry-remove_entry_self j issued)
  | inr (differs, other) ↦ rw differs (get_entry-remove_entry k j issued (λ e. other (sym e)))
]

remove-RemoveSpec :
    (artifact : Artifact) (issued : IssuedArtifacts)
    → RemoveSpec artifact.encoded
        (remove artifact issued).0
        (view issued)
        (view (remove artifact issued).1)
unfolding remove
remove-RemoveSpec artifact issued = (
  elim (Option-cases (get_entry artifact.encoded issued)) [
    | inl missing ↦ ground (arith, missing)
    | inr (entry, there) ↦ ground (arith, there)
  ],
  view-remove_entry artifact.encoded issued,
)

module _ (B : Base64Crate) (read_soap_body : Text → Result SoapBody)
    (response_envelope : ArtifactResponse → Result Text) where
  -- The answer to the request of an envelope returned a message: the one that was outstanding for the
  -- artifact that the request names and for the presenter, and is so no more. The response is to the
  -- request, from this issuer, and has this message.
  pub record ReturnSpec (metadata : IdpMetadata) (presenter envelope : Text)
      (response : AnsweredArtifact) (m n : Outstanding) : Type 0 where
    pub issuer : Text
    pub request : ResolveRequest
    pub artifact : Artifact
    pub entry : IssuedEntry
    pub issuer_known : metadata.entity_id ≡ some issuer
    pub request_read : asked B read_soap_body response_envelope envelope ≡ ok request
    pub artifact_read : try_from_encoded B request.artifact ≡ ok artifact
    pub outstanding : m artifact.encoded ≡ some entry
    pub recipient : presenter ≡ entry.service_provider
    pub written :
        response_envelope (record {
          in_response_to = request.id;
          issuer = issuer;
          status = success_status;
          message_xml = some entry.message_xml;
        })
        ≡ ok response.envelope
    pub removed : Without artifact.encoded m n

  -- Only an answer that returns a message changes what is outstanding.
  abbrev pub ReleaseSpec :
      IdpMetadata
      → Text
      → Text
      → AnsweredArtifact
      → ArtifactRelease
      → Outstanding
      → Outstanding
      → Type 0
  ReleaseSpec metadata presenter envelope response returned m n =
      ReturnSpec metadata presenter envelope response m n
  ReleaseSpec metadata presenter envelope response (withheld reason) m n = Same m n
  ReleaseSpec metadata presenter envelope response version_mismatch m n = Same m n

  abbrev pub AnswerSpec :
      IdpMetadata → Text → Text → Result AnsweredArtifact → Outstanding → Outstanding → Type 0
  AnswerSpec metadata presenter envelope (err e) m n = Same m n
  AnswerSpec metadata presenter envelope (ok response) m n =
      ReleaseSpec metadata presenter envelope response response.release m n

  -- The abstract operation, with the outcome that the code gives.
  abbrev pub Spec : Operation → IssuedArtifacts → Outstanding → Outstanding → Type 0
  Spec (issuing metadata service_provider message index uuids) issued =
      IssueSpec service_provider message
        (issue B read_soap_body response_envelope metadata service_provider message index uuids
          issued).0
  Spec (answering metadata presenter envelope channel) issued =
      AnswerSpec metadata presenter envelope
        (answer B read_soap_body response_envelope metadata presenter envelope issued channel).0
  Spec (removing artifact) issued = RemoveSpec artifact.encoded (remove artifact issued).0

  issue-IssueSpec :
      (metadata : IdpMetadata) (service_provider : Text) (message : IssuedMessage) (index : ℕ)
      (uuids : Text × Text) (issued : IssuedArtifacts)
      → Spec (issuing metadata service_provider message index uuids) issued (view issued) (
          view (
            step B read_soap_body response_envelope
              (issuing metadata service_provider message index uuids)
              issued))
  unfolding issue step
  issue-IssueSpec metadata service_provider message index uuids issued =
      let spec : Result Artifact × IssuedArtifacts → Type 0 =
        λ p. IssueSpec service_provider message p.0 (view issued) (view p.1) in
      elim (Result-cases
        (new_artifact B read_soap_body response_envelope metadata index uuids issued)) [
          | inr (e, failed) ↦ subst spec {x = (err e, issued)} (ground (arith, failed)) (λ j. refl)
          | inl (artifact, made) ↦
              subst spec
                {x = (
                  ok artifact,
                  insert_entry artifact.encoded
                      (record {
                        service_provider = service_provider;
                        message_xml = message.xml;
                        web_browser_sso_response = message.web_browser_sso_response;
                      })
                      issued,
                )}
                (ground (arith, made)) (λ j. get_entry-insert_entry artifact.encoded j _ issued)
        ]

  unchanged :
      (metadata : IdpMetadata) (presenter envelope : Text) (outcome : Result AnsweredArtifact)
      (issued after : IssuedArtifacts)
      → after ≡ issued
      → ((response : AnsweredArtifact) → outcome ≡ ok response → response.release ≢ returned)
      → AnswerSpec metadata presenter envelope outcome (view issued) (view after)
  unchanged metadata presenter envelope (err e) issued after same h = λ j. ap (get_entry j) same
  unchanged metadata presenter envelope (ok response) issued after same h =
      elim response.release
          as (λ r.
            response.release ≡ r
            → ReleaseSpec metadata presenter envelope response r (view issued) (view after)) [
              | returned ↦ λ e. absurd (h response refl e)
              | withheld reason ↦ λ e j. ap (get_entry j) same
              | version_mismatch ↦ λ e j. ap (get_entry j) same
            ]
        refl

  returns :
      (metadata : IdpMetadata) (presenter envelope : Text) (issued after : IssuedArtifacts)
      (channel : SoapChannel) {outcome : Result AnsweredArtifact} {response : AnsweredArtifact}
      {key : Text}
      → outcome ≡ ok response
      → response.release ≡ returned
      → Answered B read_soap_body response_envelope metadata presenter envelope issued channel
          response key
      → Without key (view issued) (view after)
      → AnswerSpec metadata presenter envelope outcome (view issued) (view after)
  unfolding asked
  returns metadata presenter envelope issued after channel {response = response} made release r
        gone =
      let spec : ReturnSpec metadata presenter envelope response (view issued) (view after) =
        record {
          issuer = r.entity_id;
          request = r.request;
          artifact = r.released.artifact;
          entry = r.released.entry;
          issuer_known = r.issuer_known;
          request_read = ground (arith, r.body_read, r.element_read, r.request_read);
          artifact_read = r.released.artifact_read;
          outstanding =
              ap (λ k. get_entry k issued) (sym r.released.key_is) ∙ r.released.outstanding;
          recipient = r.released.entitled.recipient;
          written =
              subst
                (λ xml.
                  response_envelope (record {
                    in_response_to = r.request.id;
                    issuer = r.entity_id;
                    status = success_status;
                    message_xml = some xml;
                  })
                  ≡ ok response.envelope)
                r.released.xml_is r.written;
          removed = subst (λ k. Without k (view issued) (view after)) r.released.key_is gone;
        } in
      subst (λ o. AnswerSpec metadata presenter envelope o (view issued) (view after)) (sym made)
        (subst (λ l. ReleaseSpec metadata presenter envelope response l (view issued) (view after))
          (sym release) spec)

  answer-AnswerSpec :
      (metadata : IdpMetadata) (presenter envelope : Text) (channel : SoapChannel)
      (issued : IssuedArtifacts)
      → AnswerSpec metadata presenter envelope
          (answer B read_soap_body response_envelope metadata presenter envelope issued channel).0
          (view issued)
          (view
            (answer B read_soap_body response_envelope metadata presenter envelope issued
              channel).1)
  answer-AnswerSpec metadata presenter envelope channel issued =
      elim (dec_returned
        (answer B read_soap_body response_envelope metadata presenter envelope issued channel).0) [
          | inl other ↦
              unchanged metadata presenter envelope _ issued _
                (answer_withheld B read_soap_body response_envelope metadata presenter envelope
                  issued channel other)
                other
          | inr (response, made, release) ↦
              let (key, answered, left) =
                answer_sound B read_soap_body response_envelope metadata presenter envelope issued
                  channel made release in
              returns metadata presenter envelope issued _ channel made release answered
                (λ j. ap (get_entry j) left ∙ view-remove_entry key issued j)
        ]

  -- Every operation changes what is outstanding as its outcome says: an artifact that is issued
  -- adds its message for the service provider; an answer that is `returned` has the message that was
  -- outstanding for the artifact that its request names and for the presenter, which is outstanding
  -- no more; a removal tells whether there was a message; and every other outcome changes nothing.
  pub step-Spec :
      (op : Operation) (issued : IssuedArtifacts)
      → Spec op issued (view issued) (view (step B read_soap_body response_envelope op issued))
  unfolding step
  step-Spec (issuing metadata service_provider message index uuids) issued =
      issue-IssueSpec metadata service_provider message index uuids issued
  step-Spec (answering metadata presenter envelope channel) issued =
      answer-AnswerSpec metadata presenter envelope channel issued
  step-Spec (removing artifact) issued = remove-RemoveSpec artifact issued
