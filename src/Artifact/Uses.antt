-- ===== src/Artifact/Uses.antt =====
-- src/artifact.rs: `resolve` called one time after the other with the same `ArtifactUses`, the
-- receiver's record of the artifacts it resolved.
use opensaml_rs.Prelude.{
  Distinct, ◌≡◌, ◌≢◌, sym, subst, true, false, List, [], ◌∷◌, Text, text_eq_refl, All, arith,
  Bool-cases, inl, inr, ◌⊎◌,
}
use opensaml_rs.Error.{SamlError, replay_detected, Result, ok, err, Result-cases}
use opensaml_rs.Artifact.{Artifact, ArtifactUses, record_use, contains_use, IdpMetadata}
use opensaml_rs.Artifact.Exchange.{SoapBody}
use opensaml_rs.Artifact.Receiver.{
  ArtifactDereference, ArtifactResolution, ArtifactResolve, prepare, resolve,
}
use opensaml_rs.Element.{SamlElement}

-- The arguments of a call of `resolve` but the uses; the ID is the one that is generated.
pub record Resolving : Type 0 where
  pub requester : Text
  pub idp_entity_id : Text
  pub metadata : IdpMetadata
  pub artifact : Artifact
  pub deref : ArtifactDereference
  pub request_id : Text

-- `ArtifactUses::enforce_single_use`, once these artifacts were seen.
abbrev pub single_use : List Text → ArtifactUses
single_use seen = record { enforce = true; seen = seen }

-- The artifact is noted if its call succeeded.
abbrev note_use : Text → Result ArtifactResolution → List Text → List Text
note_use artifact (ok resolution) later = artifact ∷ later
note_use artifact (err e) later = later

weaken :
    (ks : List Text) (artifact : Text) (seen : List Text)
    → All (λ a. contains_use (artifact ∷ seen) a ≡ false) ks
    → All (λ a. contains_use seen a ≡ false) ks
weaken [] artifact seen h = tt
weaken (k ∷ ks) artifact seen h = (ground (arith, h.0), weaken ks artifact seen h.1)

module _ (write_request : ArtifactResolve → Result Text) (read_soap_body : Text → Result SoapBody)
    (standalone_element : SoapBody → SamlElement → Result Text) where
  abbrev resolving : Resolving → ArtifactUses → Result ArtifactResolution × ArtifactUses
  resolving r uses =
      resolve write_request read_soap_body standalone_element r.requester r.idp_entity_id r.metadata
        r.artifact r.deref r.request_id uses

  -- The artifacts whose calls of `resolve` succeed, of those that are made one after another.
  unfoldable pub resolved : List Resolving → ArtifactUses → List Text
  resolved [] uses = []
  resolved (r ∷ rs) uses =
      note_use r.artifact.encoded (resolving r uses).0 (resolved rs (resolving r uses).1)

  -- A call succeeds for an artifact that was not seen, which then is, or it changes nothing.
  resolving_lem :
      (r : Resolving) (seen : List Text)
      → ((resolution : ArtifactResolution) × (contains_use seen r.artifact.encoded ≡ false)
          × (resolving r (single_use seen)
              ≡ (ok resolution, single_use (r.artifact.encoded ∷ seen))))
        ⊎ ((e : SamlError) × (resolving r (single_use seen) ≡ (err e, single_use seen)))
  unfolding resolve record_use
  resolving_lem r seen =
      elim (Result-cases (
        prepare write_request read_soap_body standalone_element r.requester r.idp_entity_id
          r.metadata r.artifact r.deref r.request_id)) [
            | inr (e, failed) ↦ inr (e, ground (arith, failed))
            | inl (resolution, made) ↦ elim (Bool-cases (contains_use seen r.artifact.encoded)) [
              | inl old ↦ inr (replay_detected r.artifact.encoded, ground (arith, made, old))
              | inr new ↦ inl (resolution, new, ground (arith, made, new))
            ]
          ]

  resolved_unseen :
      (rs : List Resolving) (seen : List Text) (k : Text)
      → contains_use seen k ≡ true
      → All (λ a. a ≢ k) (resolved rs (single_use seen))
  unfolding resolved
  resolved_unseen [] seen k known = tt
  resolved_unseen (r ∷ rs) seen k known = elim (resolving_lem r seen) [
    | inr (e, failed) ↦ rw failed (resolved_unseen rs seen k known)
    | inl (resolution, new, made) ↦ rw made (
      λ same. cc (sym new, subst (λ a. contains_use seen a ≡ true) (sym same) known),
      resolved_unseen rs (r.artifact.encoded ∷ seen) k (ground (arith, known)),
    )
  ]

  -- With single use enforced, `resolve` succeeds at most once for an artifact, and for none that
  -- was seen before, whatever calls are made.
  pub resolved-Distinct :
      (rs : List Resolving) (seen : List Text)
      → Distinct (resolved rs (single_use seen))
        × All (λ a. contains_use seen a ≡ false) (resolved rs (single_use seen))
  unfolding resolved
  resolved-Distinct [] seen = (tt, tt)
  resolved-Distinct (r ∷ rs) seen = elim (resolving_lem r seen) [
    | inr (e, failed) ↦ rw failed (resolved-Distinct rs seen)
    | inl (resolution, new, made) ↦
        let (distinct, unseen) = resolved-Distinct rs (r.artifact.encoded ∷ seen) in
        let k = r.artifact.encoded in
        rw made (
          (resolved_unseen rs (k ∷ seen) k (ground (arith, text_eq_refl k)), distinct),
          (new, weaken (resolved rs (single_use (k ∷ seen))) k seen unseen),
        )
  ]
