-- ===== src/Discovery/Remembered.antt =====
-- src/discovery.rs: what the remembered cookie holds.
use opensaml_rs.Prelude.{
  arith, ◌+◌, ◌*◌, ◌<◌, ◌≤◌, ◌≡◌, ◌≢◌, ◌⊎◌, refl, sym, ap, ◌∙◌, subst, true, false, ◌&&◌, any,
  Option, none, some, List, [], ◌∷◌, ◌++◌, All, Text, length, all, split, Bool-cases, Option-cases,
  inl, inr, leb, ◌==◌, text_eq-cases, text_eq_refl,
}
use opensaml_rs.Error.{Result, ok, err, Result-cases}
use opensaml_rs.Discovery.{
  Codecs, validate_entity_identifier, is_entity_identifier_uri, retain_other, entity_id_from_token,
  entity_ids_from_tokens, entity_ids_from_decoded, decode_percent, encode_cookie_value, name,
  entity_ids_from_existing, or_form_decoded, fits, drop_oldest,
}
use opensaml_rs.Discovery.Percent.{keep_plus, space, encode_percent, is_unreserved}
use opensaml_rs.Discovery.ReadBack.{IsReadable}

pub retain_other-All :
    (P : Text → Type 0) (entity_id : Text) (ids : List Text)
    → All P ids
    → All (λ id. P id × (id ≢ entity_id)) (retain_other entity_id ids)
unfolding retain_other
retain_other-All P entity_id [] h = tt
retain_other-All P entity_id (id ∷ ids) (p, h) = elim (text_eq-cases id entity_id) [
  | inl same ↦ ground (arith, same, text_eq_refl entity_id, retain_other-All P entity_id ids h)
  | inr (other, differs) ↦
      let kept : id ∷ retain_other entity_id ids ≡ retain_other entity_id (id ∷ ids) =
        ground (arith, other) in
      subst (All (λ x. P x × (x ≢ entity_id))) kept
        ((p, differs), retain_other-All P entity_id ids h)
]

module _ (C : Codecs) where
  open C use {
    encode, decode, from_utf8, decode_some, decode_range, from_utf8_same, from_utf8_ascii,
    encode_short,
  }

  token-IsReadable :
      (token : Text) {id : Text} → entity_id_from_token C token ≡ ok id → IsReadable C id
  unfolding entity_id_from_token
  token-IsReadable [] h = absurd (ground (arith, h))
  token-IsReadable (c ∷ token) {id = id} h = elim (Option-cases (decode (c ∷ token))) [
    | inl bad ↦ absurd (ground (arith, bad))
    | inr (bytes, made) ↦
        let read : from_utf8 bytes ≡ some id = ground (arith, made) in
        let same : id ≡ bytes = from_utf8_same bytes read in
        (
          λ e. decode_some c token (cc (made, e, same)),
          subst (All (λ b. b < 256)) (sym same) (decode_range (c ∷ token) made),
          cc (read, same),
        )
  ]

  tokens-IsReadable :
      (tokens : List Text) {ids : List Text}
      → entity_ids_from_tokens C tokens ≡ ok ids
      → All (IsReadable C) ids
  unfolding entity_ids_from_tokens
  tokens-IsReadable [] {ids = ids} h =
      let none_read : [] ≡ ids = ground (arith, h) in subst (All (IsReadable C)) none_read tt
  tokens-IsReadable (token ∷ tokens) h = elim (Result-cases (entity_id_from_token C token)) [
    | inr (f, bad) ↦ absurd (ground (arith, bad))
    | inl (id, made) ↦ elim (Result-cases (entity_ids_from_tokens C tokens)) [
      | inr (f, bad) ↦ absurd (ground (arith, made, bad))
      | inl (ids, rest) ↦
          let both : All (IsReadable C) (id ∷ ids) =
            (token-IsReadable token made, tokens-IsReadable tokens rest) in
          subst (All (IsReadable C)) {x = id ∷ ids} (ground (arith, made, rest)) both
    ]
  ]

  decoded-IsReadable :
      (decoded : Text) {ids : List Text}
      → entity_ids_from_decoded C decoded ≡ ok ids
      → All (IsReadable C) ids
  unfolding entity_ids_from_decoded
  decoded-IsReadable [] {ids = ids} h =
      let none_read : [] ≡ ids = ground (arith, h) in subst (All (IsReadable C)) none_read tt
  decoded-IsReadable (b ∷ decoded) h = tokens-IsReadable (split b' ' (b ∷ decoded)) h

  form-IsReadable :
      (existing : Text) (r : Result (List Text)) {ids : List Text}
      → ((kept : List Text) → r ≡ ok kept → All (IsReadable C) kept)
      → or_form_decoded C existing r ≡ ok ids
      → All (IsReadable C) ids
  form-IsReadable existing (ok kept) {ids = ids} readable h = readable ids h
  form-IsReadable existing (err e) {ids = ids} readable h =
      elim (Bool-cases (any (λ b. b == b'+') existing)) [
        | inr without ↦ absurd (ground (arith, without, h))
        | inl plus ↦ elim (Result-cases (decode_percent C existing space)) [
          | inr (f, bad) ↦ absurd (ground (arith, plus, bad, h))
          | inl (decoded, made) ↦
              decoded-IsReadable decoded {ids = ids} (ground (arith, plus, made, h))
        ]
      ]

  -- What is read from a cookie can be held by one.
  pub entity_ids_from_existing-IsReadable :
      (cookie : Option Text) {ids : List Text}
      → entity_ids_from_existing C cookie ≡ ok ids
      → All (IsReadable C) ids
  unfolding entity_ids_from_existing
  entity_ids_from_existing-IsReadable none {ids = ids} h =
      let none_read : [] ≡ ids = ground (arith, h) in subst (All (IsReadable C)) none_read tt
  entity_ids_from_existing-IsReadable (some []) {ids = ids} h =
      let none_read : [] ≡ ids = ground (arith, h) in subst (All (IsReadable C)) none_read tt
  entity_ids_from_existing-IsReadable (some (b ∷ existing)) {ids = ids} h =
      elim (Result-cases (decode_percent C (b ∷ existing) keep_plus)) [
        | inr (f, bad) ↦ absurd (ground (arith, bad, h))
        | inl (decoded, made) ↦
            form-IsReadable (b ∷ existing) (entity_ids_from_decoded C decoded) {ids = ids}
              (λ kept e. decoded-IsReadable decoded e) (ground (arith, made, h))
      ]

  keep_fitting :
      (id : Text) (ids : List Text) (entity_id : Text)
      → fits C (id ∷ ids ++ entity_id ∷ []) ≡ true
      → drop_oldest C (id ∷ ids ++ entity_id ∷ []) ≡ id ∷ ids ++ entity_id ∷ []
  unfolding drop_oldest
  keep_fitting id [] entity_id h = ground (arith, h)
  keep_fitting id (next ∷ ids) entity_id h = ground (arith, h)

  drop_first :
      (id : Text) (ids : List Text) (entity_id : Text)
      → fits C (id ∷ ids ++ entity_id ∷ []) ≡ false
      → drop_oldest C (id ∷ ids ++ entity_id ∷ []) ≡ drop_oldest C (ids ++ entity_id ∷ [])
  unfolding drop_oldest
  drop_first id [] entity_id h = ground (arith, h)
  drop_first id (next ∷ ids) entity_id h = ground (arith, h)

  -- With any of the dropped ones and what came after it, the cookie would be too long.
  abbrev pub AllOver : List Text → List Text → Text → Type 0
  AllOver [] kept entity_id = Unit
  AllOver (id ∷ dropped) kept entity_id =
      (4096
        < length name + length (encode_cookie_value C (id ∷ (dropped ++ kept) ++ entity_id ∷ [])))
      × AllOver dropped kept entity_id

  over_lem :
      (id : Text) (ids : List Text) (entity_id : Text)
      → fits C (id ∷ ids ++ entity_id ∷ []) ≡ false
      → 4096 < length name + length (encode_cookie_value C (id ∷ ids ++ entity_id ∷ []))
  over_lem id ids entity_id h = ground (arith, h)

  -- What is left of a list when the oldest entries are dropped: the longest end of it that fits.
  pub drop_oldest_lem :
      (ids : List Text) (entity_id : Text)
      → (dropped kept : List Text) × (ids ≡ dropped ++ kept)
        × (drop_oldest C (ids ++ entity_id ∷ []) ≡ kept ++ entity_id ∷ [])
        × ((fits C (kept ++ entity_id ∷ []) ≡ true) ⊎ (kept ≡ []))
        × AllOver dropped kept entity_id
  unfolding drop_oldest
  drop_oldest_lem [] entity_id = ([], [], refl, refl, inr refl, tt)
  drop_oldest_lem (id ∷ ids) entity_id = elim (Bool-cases (fits C (id ∷ ids ++ entity_id ∷ []))) [
    | inl fitting ↦ ([], id ∷ ids, refl, keep_fitting id ids entity_id fitting, inl fitting, tt)
    | inr over ↦
        let (dropped, kept, split_here, made, small, over_all) = drop_oldest_lem ids entity_id in
        (
          id ∷ dropped,
          kept,
          ap (λ t. id ∷ t) split_here,
          drop_first id ids entity_id over ∙ made,
          small,
          (
            subst
                (λ t.
                  4096 < length name + length (encode_cookie_value C (id ∷ t ++ entity_id ∷ [])))
                split_here (over_lem id ids entity_id over),
            over_all,
          ),
        )
  ]

  graphic_ascii : (s : Text) → all (λ b. leb 33 b && leb b 126) s ≡ true → All (λ b. b < 128) s
  graphic_ascii [] h = tt
  graphic_ascii (b ∷ s) h = (ground (arith, h), graphic_ascii s (ground (arith, h)))

  below : (s : Text) → All (λ b. b < 128) s → All (λ b. b < 256) s
  below [] h = tt
  below (b ∷ s) (small, h) = (omega (arith, small), below s h)

  pub valid-IsReadable :
      (entity_id : Text)
      → validate_entity_identifier entity_id ≡ ok tt
      → IsReadable C entity_id × (length entity_id ≤ 1024)
  unfolding validate_entity_identifier is_entity_identifier_uri
  valid-IsReadable [] h = absurd (ground (arith, h))
  valid-IsReadable (b ∷ entity_id) h =
      let graphic = graphic_ascii (b ∷ entity_id) (ground (arith, h)) in
      (
        (λ e. cc e, below (b ∷ entity_id) graphic, from_utf8_ascii (b ∷ entity_id) graphic),
        ground (arith, h),
      )

  encode_percent_short : (raw : Text) → length (encode_percent raw) ≤ 3 * length raw
  unfolding encode_percent
  encode_percent_short [] = omega arith
  encode_percent_short (b ∷ raw) = elim (Bool-cases (is_unreserved b)) [
    | inl plain ↦ ground (arith, plain, encode_percent_short raw)
    | inr escaped ↦ ground (arith, escaped, encode_percent_short raw)
  ]

  pub value_short :
      (kept : List Text) (entity_id : Text)
      → length entity_id ≤ 1024
      → (fits C (kept ++ entity_id ∷ []) ≡ true) ⊎ (kept ≡ [])
      → length (encode_cookie_value C (kept ++ entity_id ∷ [])) ≤ 8192
  unfolding encode_cookie_value
  value_short kept entity_id short (inl fitting) = ground (arith, fitting)
  value_short kept entity_id short (inr alone) =
      rw alone
        (omega (arith, encode_percent_short (encode entity_id), encode_short entity_id, short))
