-- ===== src/Artifact/Answer.antt =====
-- src/artifact.rs: `answer` as a whole, and the store that it leaves.
use opensaml_rs.Prelude.{
  ◌≡◌, ◌≢◌, ◌↔◌, refl, Option, none, some, Text, ascii, text_eq, text_eq_iff, arith, Bool-cases,
  inl, inr,
}
use opensaml_rs.Error.{Result, ok, Result-cases}
use opensaml_rs.Channel.{SoapChannel}
use opensaml_rs.Base64.{Base64Crate}
use opensaml_rs.Artifact.{IssuedArtifacts, remove_entry, IdpMetadata}
use opensaml_rs.Artifact.Exchange.{
  verdict, answered, reply_to, reply, settle, answer, AnsweredArtifact, returned, ArtifactResponse,
  SoapBody,
}
use opensaml_rs.Artifact.Release.{
  reply-Read, verdict_sound, carry_out_sound, carry_out_returned, Answered,
}

module _ (B : Base64Crate) (read_soap_body : Text → Result SoapBody)
    (response_envelope : ArtifactResponse → Result Text) where
  abbrev replied :
      IdpMetadata
      → Text
      → Text
      → IssuedArtifacts
      → SoapChannel
      → Result (AnsweredArtifact × Option Text)
  replied metadata presenter envelope issued channel =
      reply B read_soap_body response_envelope metadata presenter envelope issued channel

  pub reply_sound :
      (metadata : IdpMetadata) (presenter envelope : Text) (issued : IssuedArtifacts)
      (channel : SoapChannel) {response : AnsweredArtifact} {key : Text}
      → replied metadata presenter envelope issued channel ≡ ok (response, some key)
      → Answered B read_soap_body response_envelope metadata presenter envelope issued channel
          response key
  unfolding reply_to answered
  reply_sound metadata presenter envelope issued channel {response = response} {key = key} h =
      let (read, e) =
        reply-Read B read_soap_body response_envelope metadata presenter envelope issued channel
          h in
      elim (Bool-cases (text_eq read.request.version (ascii "2.0"))) [
        | inr other ↦ absurd (ground (arith, other, e))
        | inl current ↦
            let (xml, v, written) =
              carry_out_sound B read_soap_body response_envelope read.entity_id read.request.id
                (verdict B read_soap_body response_envelope metadata read.entity_id presenter
                  read.request channel issued)
                {response = response} {key = key} (ground (arith, current, e)) in
            record {
              entity_id = read.entity_id;
              body = read.body;
              element = read.element;
              request = read.request;
              xml = xml;
              issuer_known = read.issuer_known;
              body_read = read.body_read;
              element_read = read.element_read;
              request_read = read.request_read;
              version = (text_eq_iff read.request.version (ascii "2.0")).0 current;
              released =
                  verdict_sound B read_soap_body response_envelope metadata read.entity_id presenter
                    read.request channel issued v;
              written = written;
            }
      ]

  reply_returned :
      (metadata : IdpMetadata) (presenter envelope : Text) (issued : IssuedArtifacts)
      (channel : SoapChannel) {response : AnsweredArtifact} {key : Option Text}
      → replied metadata presenter envelope issued channel ≡ ok (response, key)
      → (response.release ≡ returned) ↔ (key ≢ none)
  unfolding reply_to answered
  reply_returned metadata presenter envelope issued channel {response = response} {key = key} h =
      let (read, e) =
        reply-Read B read_soap_body response_envelope metadata presenter envelope issued channel
          h in
      elim (Bool-cases (text_eq read.request.version (ascii "2.0"))) [
        | inr other ↦ ground (arith, other, e)
        | inl current ↦
            carry_out_returned B read_soap_body response_envelope read.entity_id read.request.id
              (verdict B read_soap_body response_envelope metadata read.entity_id presenter
                read.request channel issued)
              {response = response} {key = key} (ground (arith, current, e))
      ]

  -- The message is released only for a request of version 2.0 that names an outstanding artifact
  -- of this issuer, over a channel that protects it, to the presenter it was issued to; the
  -- response has the stored message, and the artifact is not outstanding any more.
  pub answer_sound :
      (metadata : IdpMetadata) (presenter envelope : Text) (issued : IssuedArtifacts)
      (channel : SoapChannel) {response : AnsweredArtifact}
      → (answer B read_soap_body response_envelope metadata presenter envelope issued channel).0
        ≡ ok response
      → response.release ≡ returned
      → (key : Text) × Answered B read_soap_body response_envelope metadata presenter envelope
          issued channel response key
        × ((answer B read_soap_body response_envelope metadata presenter envelope issued channel).1
            ≡ remove_entry key issued)
  unfolding answer settle
  answer_sound metadata presenter envelope issued channel h release =
      elim (Result-cases (replied metadata presenter envelope issued channel)) [
        | inr (e, failed) ↦ absurd (ground (arith, failed))
        | inl ((r, none), made) ↦ absurd (
            (reply_returned metadata presenter envelope issued channel made).0
              (ground (arith, made)) refl)
        | inl ((r, some key), made) ↦ (
          key,
          reply_sound metadata presenter envelope issued channel (ground (arith, made)),
          ground (arith, made),
        )
      ]

  -- Every answer without the message, errors included, leaves the store as it is.
  pub answer_withheld :
      (metadata : IdpMetadata) (presenter envelope : Text) (issued : IssuedArtifacts)
      (channel : SoapChannel)
      → ((response : AnsweredArtifact)
          → (answer B read_soap_body response_envelope metadata presenter envelope issued channel).0
            ≡ ok response
          → response.release ≢ returned)
      → (answer B read_soap_body response_envelope metadata presenter envelope issued channel).1
        ≡ issued
  unfolding answer settle
  answer_withheld metadata presenter envelope issued channel h =
      elim (Result-cases (replied metadata presenter envelope issued channel)) [
        | inr (e, failed) ↦ ground (arith, failed)
        | inl ((r, none), made) ↦ ground (arith, made)
        | inl ((r, some key), made) ↦ absurd (
            h r (ground (arith, made))
              ((reply_returned metadata presenter envelope issued channel made).1 (λ e. cc)))
      ]
