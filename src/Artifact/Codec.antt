-- ===== src/Artifact/Codec.antt =====
-- src/artifact.rs: `encode_artifact` and `Artifact::try_from_encoded`; `message_handle`.
use opensaml_rs.Prelude.{
  ℕ, ◌+◌, ◌*◌, ◌/◌, ◌%◌, ◌<◌, ◌≡◌, sym, [], ◌∷◌, ◌++◌, Text, length, take, drop, All, arith,
  length-append, length-take, length-drop, take-append_self,
}
use opensaml_rs.Error.{ok}
use opensaml_rs.Base64.{Base64Crate}
use opensaml_rs.Artifact.{try_from_encoded, encode_artifact, message_handle, byte_at}

-- A handle has twenty bytes, of two UUIDs of sixteen.
pub length-message_handle :
    (first second : Text)
    → length first ≡ 16
    → length second ≡ 16
    → length (message_handle first second) ≡ 20
unfolding message_handle
length-message_handle first second h g = ground (
  arith,
  length-append (take 6 first ++ drop 9 first ++ take 6 second) (byte_at second 9 ∷ []),
  length-append (take 6 first ++ drop 9 first) (take 6 second),
  length-append (take 6 first) (drop 9 first),
  length-take 6 first,
  length-drop 9 first,
  length-take 6 second,
)

All-append :
    (xs ys : Text) → All (λ b. b < 256) xs → All (λ b. b < 256) ys → All (λ b. b < 256) (xs ++ ys)
All-append [] ys h g = g
All-append (x ∷ xs) ys h g = (h.0, All-append xs ys h.1 g)

module _ (B : Base64Crate) where
  open B use {encode, decode, decode-encode, encode_solid}

  -- An artifact that was encoded from an index of sixteen bits, a source ID and a handle of twenty
  -- bytes each is decoded to itself, its index and its source ID.
  pub try_from_encoded-encode_artifact :
      (index : ℕ) (source_id handle : Text)
      → index < 65536
      → length source_id ≡ 20
      → length handle ≡ 20
      → All (λ b. b < 256) source_id
      → All (λ b. b < 256) handle
      → try_from_encoded B (encode_artifact B index source_id handle)
        ≡ ok (record {
          encoded = encode_artifact B index source_id handle;
          endpoint_index = index;
          source_id = source_id;
        })
  unfolding try_from_encoded encode_artifact
  try_from_encoded-encode_artifact index source_id handle small long_source long_handle source_bytes
        handle_bytes =
      let bytes : Text = 0 ∷ 4 ∷ index / 256 ∷ index % 256 ∷ source_id ++ handle in
      let in_range : All (λ b. b < 256) bytes = (
        omega arith,
        (
          omega arith,
          (omega arith, (omega arith, All-append source_id handle source_bytes handle_bytes)),
        ),
      ) in
      let size : length bytes ≡ 44 = ground (arith, length-append source_id handle) in
      let source : take 20 (drop 4 bytes) ≡ source_id =
        rw (sym long_source) (take-append_self source_id handle) in
      let digits : index / 256 * 256 + index % 256 ≡ index = omega arith in
      rw (encode_solid bytes in_range, decode-encode bytes in_range)
        (ground (arith, size, source, digits))
