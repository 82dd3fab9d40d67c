-- ===== src/Discovery/ReadBack.antt =====
-- src/discovery.rs: the entries of a cookie are read back from its value.
use opensaml_rs.Prelude.{
  arith, ℕ, ◌<◌, ◌≤◌, ◌≡◌, ◌≢◌, refl, ap, ◌∙◌, true, some, List, [], ◌∷◌, ◌++◌, All, Text, map,
  length, all, split, Bool-cases, inl, inr,
}
use opensaml_rs.Error.{Result, ok}
use opensaml_rs.Discovery.{
  Codecs, is_base64, join_spaces, entity_id_from_token, entity_ids_from_tokens,
  entity_ids_from_decoded, decode_percent, encode_cookie_value, entity_ids_from_existing, empty_or,
  ids_from,
}
use opensaml_rs.Discovery.Percent.{keep_plus, encode_percent, is_unreserved}
use opensaml_rs.Discovery.Decoded.{decode_bytes-encode_percent}

abbrev IsSolid : Text → Type 0
IsSolid token = all is_base64 token ≡ true

split_solid : (token : Text) → IsSolid token → split b' ' token ≡ token ∷ []
unfolding split
split_solid [] h = refl
split_solid (c ∷ token) h = rw (split_solid token (ground (arith, h))) (ground (arith, h))

split_first :
    (token rest : Text)
    → IsSolid token
    → split b' ' (token ++ b' ' ∷ rest) ≡ token ∷ split b' ' rest
unfolding split
split_first [] rest h = refl
split_first (c ∷ token) rest h = rw (split_first token rest (ground (arith, h))) (ground (arith, h))

split-join_spaces :
    (t : Text) (tokens : List Text)
    → All IsSolid (t ∷ tokens)
    → split b' ' (join_spaces (t ∷ tokens)) ≡ t ∷ tokens
split-join_spaces t [] (solid, h) = split_solid t solid
split-join_spaces t (u ∷ tokens) (solid, h) =
    split_first t (join_spaces (u ∷ tokens)) solid
    ∙ ap (λ ts. t ∷ ts) (split-join_spaces u tokens h)

solid_ascii : (token : Text) → IsSolid token → All (λ b. b < 128) token
solid_ascii [] h = tt
solid_ascii (c ∷ token) h = (ground (arith, h), solid_ascii token (ground (arith, h)))

all_append : (P : ℕ → Type 0) (a b : Text) → All P a → All P b → All P (a ++ b)
all_append P [] b h k = k
all_append P (x ∷ a) b (h, hs) k = (h, all_append P a b hs k)

join_ascii : (tokens : List Text) → All IsSolid tokens → All (λ b. b < 128) (join_spaces tokens)
join_ascii [] h = tt
join_ascii (t ∷ []) (solid, h) = solid_ascii t solid
join_ascii (t ∷ u ∷ tokens) (solid, h) =
    all_append (λ b. b < 128) t (b' ' ∷ join_spaces (u ∷ tokens)) (solid_ascii t solid)
      (omega arith, join_ascii (u ∷ tokens) h)

all_below : (s : Text) → All (λ b. b < 128) s → All (λ b. b < 256) s
all_below [] h = tt
all_below (b ∷ s) (small, h) = (omega (arith, small), all_below s h)

module _ (C : Codecs) where
  open C use {
    encode, decode, from_utf8, decode-encode, encode_alphabet, encode_some, from_utf8_ascii,
  }

  -- An identifier that a cookie can hold: some bytes of UTF-8.
  abbrev pub IsReadable : Text → Type 0
  IsReadable id = (id ≢ []) × All (λ b. b < 256) id × (from_utf8 id ≡ some id)

  encodings-IsSolid : (ids : List Text) → All IsSolid (map encode ids)
  encodings-IsSolid [] = tt
  encodings-IsSolid (id ∷ ids) = (encode_alphabet id, encodings-IsSolid ids)

  token_read : (id : Text) → IsReadable id → entity_id_from_token C (encode id) ≡ ok id
  unfolding entity_id_from_token
  token_read [] (there, bytes, utf8) = absurd (there refl)
  token_read (b ∷ id) (there, bytes, utf8) =
      ground (arith, encode_some b id, decode-encode (b ∷ id) bytes, utf8)

  tokens_read :
      (ids : List Text) → All IsReadable ids → entity_ids_from_tokens C (map encode ids) ≡ ok ids
  unfolding entity_ids_from_tokens
  tokens_read [] h = refl
  tokens_read (id ∷ ids) (readable, h) = rw (token_read id readable, tokens_read ids h) refl

  empty_or_some : (s : Text) (r : Result (List Text)) → s ≢ [] → empty_or s r ≡ r
  empty_or_some [] r h = absurd (h refl)
  empty_or_some (b ∷ s) r h = refl

  append_some : (a b : Text) → a ≢ [] → a ++ b ≢ []
  append_some [] b h e = h refl
  append_some (x ∷ a) b h e = cc e

  joined_some : (id : Text) (ids : List Text) → id ≢ [] → join_spaces (map encode (id ∷ ids)) ≢ []
  joined_some [] ids h e = h refl
  joined_some (b ∷ id) [] h e = encode_some b id e
  joined_some (b ∷ id) (next ∷ ids) h e = append_some (encode (b ∷ id)) _ (encode_some b id) e

  decoded_read :
      (id : Text) (ids : List Text)
      → All IsReadable (id ∷ ids)
      → entity_ids_from_decoded C (join_spaces (map encode (id ∷ ids))) ≡ ok (id ∷ ids)
  unfolding entity_ids_from_decoded
  decoded_read id ids h =
      empty_or_some (join_spaces (map encode (id ∷ ids))) _ (joined_some id ids h.0.0)
      ∙ ap (λ ts. entity_ids_from_tokens C ts)
          (split-join_spaces (encode id) (map encode ids) (encodings-IsSolid (id ∷ ids)))
      ∙ tokens_read (id ∷ ids) h

  decode_percent-encode_percent :
      (raw : Text)
      → All (λ b. b < 128) raw
      → decode_percent C (encode_percent raw) keep_plus ≡ ok raw
  unfolding decode_percent
  decode_percent-encode_percent raw h =
      rw (decode_bytes-encode_percent keep_plus raw (all_below raw h), from_utf8_ascii raw h) refl

  ids_from_some :
      (value raw : Text) (ids : List Text)
      → value ≢ []
      → length value ≤ 8192
      → decode_percent C value keep_plus ≡ ok raw
      → entity_ids_from_decoded C raw ≡ ok ids
      → ids_from C value ≡ ok ids
  ids_from_some [] raw ids there small decoded read = absurd (there refl)
  ids_from_some (b ∷ value) raw ids there small decoded read = ground (arith, small, decoded, read)

  encode_percent_some : (raw : Text) → raw ≢ [] → encode_percent raw ≢ []
  unfolding encode_percent
  encode_percent_some [] h e = h refl
  encode_percent_some (b ∷ raw) h e = elim (Bool-cases (is_unreserved b)) [
    | inl plain ↦ absurd (ground (arith, plain, e))
    | inr escaped ↦ absurd (ground (arith, escaped, e))
  ]

  -- The identifiers in a cookie value are read back in order, where there is one, each is some
  -- UTF-8, and the value is not over the limit for a cookie that is read.
  pub entity_ids_from_existing-encode_cookie_value :
      (id : Text) (ids : List Text)
      → All IsReadable (id ∷ ids)
      → length (encode_cookie_value C (id ∷ ids)) ≤ 8192
      → entity_ids_from_existing C (some (encode_cookie_value C (id ∷ ids))) ≡ ok (id ∷ ids)
  unfolding entity_ids_from_existing encode_cookie_value
  entity_ids_from_existing-encode_cookie_value id ids h small =
      let raw : Text = join_spaces (map encode (id ∷ ids)) in
      ids_from_some (encode_percent raw) raw (id ∷ ids)
        (encode_percent_some raw (joined_some id ids h.0.0)) small
        (decode_percent-encode_percent raw
          (join_ascii (map encode (id ∷ ids)) (encodings-IsSolid (id ∷ ids))))
        (decoded_read id ids h)
