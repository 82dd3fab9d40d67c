-- ===== src/Artifact/Trace.antt =====
-- src/artifact.rs: the issuer's store through any sequence of operations. How often the message of
-- an artifact is released, against how often the artifact is issued.
use opensaml_rs.Prelude.{
  ℕ, ◌+◌, ◌≤◌, ◌≡◌, ◌≢◌, ◌⊎◌, refl, none, some, List, [], ◌∷◌, Text, text_eq, text_eq_refl,
  text_eq-cases, text_eq_iff, arith, inl, inr, if◌then◌else◌,
}
use opensaml_rs.Error.{Result, ok, err, Result-cases, ◌>>=◌}
use opensaml_rs.Channel.{SoapChannel}
use opensaml_rs.Base64.{Base64Crate}
use opensaml_rs.Artifact.{
  Artifact, IssuedMessage, IssuedEntry, IssuedArtifacts, get_entry, remove_entry, insert_entry,
  IdpMetadata, remove, try_from_encoded,
}
use opensaml_rs.Artifact.Exchange.{
  new_artifact, issue, answer, AnsweredArtifact, ArtifactRelease, returned, withheld,
  version_mismatch, ArtifactResponse, SoapBody,
}
use opensaml_rs.Artifact.Store.{
  get_entry-remove_entry_self, get_entry-remove_entry, get_entry-insert_entry,
}
use opensaml_rs.Artifact.Release.{Answered}
use opensaml_rs.Artifact.Answer.{answer_sound, answer_withheld}
use opensaml_rs.Element.{ResolveRequest, parse_resolve}

-- One operation on the store: `issue`, `answer` or `IssuedArtifacts::remove`.
pub data Operation : Type 0 where
  issuing : IdpMetadata → Text → IssuedMessage → ℕ → Text × Text → Operation
  answering : IdpMetadata → Text → Text → SoapChannel → Operation
  removing : Artifact → Operation

-- One for the artifact of this value, none otherwise.
abbrev pub one_if : Text → Text → ℕ
one_if k j = if text_eq k j then 1 else 0

unfoldable pub outstanding : Text → IssuedArtifacts → ℕ
outstanding k issued = elim (get_entry k issued) [ none ↦ 0 | some _ ↦ 1 ]

outstanding-remove_entry :
    (k j : Text) (issued : IssuedArtifacts)
    → outstanding k (remove_entry j issued) ≤ outstanding k issued
unfolding outstanding
outstanding-remove_entry k j issued = elim (text_eq-cases k j) [
  | inl same ↦ rw (outstanding, same, get_entry-remove_entry_self j issued) (omega arith)
  | inr (_, other) ↦ rw (outstanding, get_entry-remove_entry j k issued other) (omega arith)
]

-- An entry that is removed was there: it pays for one release.
spent :
    (k j : Text) (issued : IssuedArtifacts) (entry : IssuedEntry)
    → get_entry j issued ≡ some entry
    → one_if k j + outstanding k (remove_entry j issued) ≤ outstanding k issued
unfolding outstanding
spent k j issued entry found = elim (text_eq-cases k j) [
  | inl same ↦
      rw (outstanding, same, get_entry-remove_entry_self j issued, found, text_eq_refl j)
        (omega arith)
  | inr (differs, other) ↦
      rw (outstanding, differs, get_entry-remove_entry j k issued other) (omega arith)
]

gained :
    (k j : Text) (entry : IssuedEntry) (issued : IssuedArtifacts)
    → outstanding k (insert_entry j entry issued) ≤ outstanding k issued + one_if k j
unfolding outstanding
gained k j entry issued = elim (text_eq-cases k j) [
  | inl same ↦
      rw (outstanding, same, get_entry-insert_entry j j entry issued, text_eq_refl j) (ground arith)
  | inr (differs, other) ↦
      rw (outstanding, get_entry-insert_entry j k entry issued, differs)
        (ground (arith, text_eq_iff j k, other))
]

returned-cases : (release : ArtifactRelease) → (release ≢ returned) ⊎ (release ≡ returned)
returned-cases returned = inr refl
returned-cases (withheld reason) = inl (λ e. cc e)
returned-cases version_mismatch = inl (λ e. cc e)

-- Whether an answer returned the message.
pub dec_returned :
    (outcome : Result AnsweredArtifact)
    → ((response : AnsweredArtifact) → outcome ≡ ok response → response.release ≢ returned)
      ⊎ ((response : AnsweredArtifact) × (outcome ≡ ok response) × (response.release ≡ returned))
dec_returned (err e) = inl (λ response bad. absurd (cc bad))
dec_returned (ok response) = elim (returned-cases response.release) [
  | inl other ↦ inl (λ r made is. other (cc (made, is)))
  | inr is ↦ inr (response, refl, is)
]

module _ (B : Base64Crate) (read_soap_body : Text → Result SoapBody)
    (response_envelope : ArtifactResponse → Result Text) where
  unfoldable pub step : Operation → IssuedArtifacts → IssuedArtifacts
  step (issuing metadata service_provider message index uuids) issued =
      (issue B read_soap_body response_envelope metadata service_provider message index uuids
        issued).1
  step (answering metadata presenter envelope channel) issued =
      (answer B read_soap_body response_envelope metadata presenter envelope issued channel).1
  step (removing artifact) issued = (remove artifact issued).1

  abbrev issued_value : Text → Result Artifact → ℕ
  issued_value k (ok artifact) = one_if k artifact.encoded
  issued_value k (err e) = 0

  -- The request that an envelope is read as, by itself.
  unfoldable pub asked : Text → Result ResolveRequest
  asked envelope = do body ← read_soap_body envelope; element ← body.element; parse_resolve element

  -- The value of the artifact that the request of an envelope names.
  unfoldable pub named : Text → Result Text
  named envelope = do
    request ← asked envelope
    artifact ← try_from_encoded B request.artifact
    ok artifact.encoded

  -- One for a release, unless the request named another artifact.
  abbrev released_as : Text → Result Text → ArtifactRelease → ℕ
  released_as k (err e) returned = 1
  released_as k (ok j) returned = one_if k j
  released_as k request (withheld reason) = 0
  released_as k request version_mismatch = 0

  abbrev released_value : Text → Result Text → Result AnsweredArtifact → ℕ
  released_value k request (err e) = 0
  released_value k request (ok response) = released_as k request response.release

  -- Whether the operation issued the artifact of value `k`, and whether its answer is `returned` for a
  -- request that names it.
  unfoldable pub issues : Text → Operation → IssuedArtifacts → ℕ
  issues k (issuing metadata service_provider message index uuids) issued =
      issued_value k
        (issue B read_soap_body response_envelope metadata service_provider message index uuids
          issued).0
  issues k (answering metadata presenter envelope channel) issued = 0
  issues k (removing artifact) issued = 0

  unfoldable pub releases : Text → Operation → IssuedArtifacts → ℕ
  releases k (issuing metadata service_provider message index uuids) issued = 0
  releases k (answering metadata presenter envelope channel) issued =
      released_value k (named envelope)
        (answer B read_soap_body response_envelope metadata presenter envelope issued channel).0
  releases k (removing artifact) issued = 0

  issuing_balance :
      (k : Text) (metadata : IdpMetadata) (service_provider : Text) (message : IssuedMessage)
      (index : ℕ) (uuids : Text × Text) (issued : IssuedArtifacts)
      → outstanding k (step (issuing metadata service_provider message index uuids) issued)
        ≤ outstanding k issued
          + issues k (issuing metadata service_provider message index uuids) issued
  unfolding step issues issue
  issuing_balance k metadata service_provider message index uuids issued =
      elim (Result-cases
        (new_artifact B read_soap_body response_envelope metadata index uuids issued)) [
          | inr (e, failed) ↦ rw (step, issues, failed) (omega arith)
          | inl (artifact, made) ↦
              let counted : issues k (issuing metadata service_provider message index uuids) issued
                  ≡ one_if k artifact.encoded =
                ground (arith, made) in
              rw (step, made, counted) (gained k artifact.encoded _ issued)
        ]

  -- The request of an answer that is `returned` names the artifact of the key.
  pub named_lem :
      (metadata : IdpMetadata) (presenter envelope : Text) (issued : IssuedArtifacts)
      (channel : SoapChannel) {response : AnsweredArtifact} {key : Text}
      → Answered B read_soap_body response_envelope metadata presenter envelope issued channel
          response key
      → named envelope ≡ ok key
  unfolding named asked
  named_lem metadata presenter envelope issued channel r = ground (
    arith, r.body_read, r.element_read, r.request_read, r.released.artifact_read, r.released.key_is,
  )

  withheld_value :
      (k : Text) (request : Result Text) (outcome : Result AnsweredArtifact)
      → ((response : AnsweredArtifact) → outcome ≡ ok response → response.release ≢ returned)
      → released_value k request outcome ≡ 0
  withheld_value k request (err e) h = refl
  withheld_value k request (ok response) h =
      elim response.release as (λ r. response.release ≡ r → released_as k request r ≡ 0) [
        | returned ↦ λ e. absurd (h response refl e)
        | withheld reason ↦ λ e. refl
        | version_mismatch ↦ λ e. refl
      ]
        refl

  answering_balance :
      (k : Text) (metadata : IdpMetadata) (presenter envelope : Text) (channel : SoapChannel)
      (issued : IssuedArtifacts)
      → releases k (answering metadata presenter envelope channel) issued
          + outstanding k (step (answering metadata presenter envelope channel) issued)
        ≤ outstanding k issued
  unfolding step releases
  answering_balance k metadata presenter envelope channel issued =
      elim (dec_returned
        (answer B read_soap_body response_envelope metadata presenter envelope issued channel).0) [
          | inl other ↦
              rw
                (
                  step,
                  releases,
                  withheld_value k (named envelope)
                      (answer B read_soap_body response_envelope metadata presenter envelope issued
                        channel).0
                      other,
                  answer_withheld B read_soap_body response_envelope metadata presenter envelope
                      issued channel other,
                )
                (omega arith)
          | inr (response, made, release) ↦
              let (key, r, left) =
                answer_sound B read_soap_body response_envelope metadata presenter envelope issued
                  channel made release in
              rw
                (
                  step,
                  releases,
                  made,
                  release,
                  left,
                  named_lem metadata presenter envelope issued channel r,
                )
                (spent k key issued r.released.entry r.released.outstanding)
        ]

  unfoldable pub total_issues : Text → List Operation → IssuedArtifacts → ℕ
  total_issues k [] issued = 0
  total_issues k (o ∷ os) issued = issues k o issued + total_issues k os (step o issued)

  unfoldable pub total_releases : Text → List Operation → IssuedArtifacts → ℕ
  total_releases k [] issued = 0
  total_releases k (o ∷ os) issued = releases k o issued + total_releases k os (step o issued)

  balance :
      (k : Text) (o : Operation) (issued : IssuedArtifacts)
      → releases k o issued + outstanding k (step o issued)
        ≤ outstanding k issued + issues k o issued
  unfolding releases issues step remove
  balance k (issuing metadata service_provider message index uuids) issued =
      omega (arith, issuing_balance k metadata service_provider message index uuids issued)
  balance k (answering metadata presenter envelope channel) issued =
      omega (arith, answering_balance k metadata presenter envelope channel issued)
  balance k (removing artifact) issued =
      omega (arith, outstanding-remove_entry k artifact.encoded issued)

  -- Whatever sequence of operations runs on a store, answers to requests for an artifact are
  -- `returned` at most as often as the artifact was issued on the way, once more if it was
  -- outstanding before.
  pub total_releases_bounded :
      (k : Text) (os : List Operation) (issued : IssuedArtifacts)
      → total_releases k os issued ≤ outstanding k issued + total_issues k os issued
  unfolding total_releases total_issues
  total_releases_bounded k [] issued = omega arith
  total_releases_bounded k (o ∷ os) issued =
      omega (arith, balance k o issued, total_releases_bounded k os (step o issued))
