-- ===== src/Base64.antt =====
-- The `base64` crate, which is not part of the repository: the engines `STANDARD` and
-- `STANDARD_NO_PAD`, with the documented behaviour that the code relies on. An encoded text is the
-- list of its characters.
use opensaml_rs.Prelude.{
  ◌+◌, ◌-◌, ◌<◌, ◌≡◌, refl, false, Option, none, some, [], ◌∷◌, Text, All, leb, arith, any,
  if◌then◌else◌, all,
}
use opensaml_rs.Element.{is_whitespace}

pub record Base64Crate : Type 0 where
  pub encode : Text → Text
  pub decode : Text → Option Text
  pub decode_no_pad : Text → Option Text
  -- What was encoded is decoded.
  pub decode-encode : (bytes : Text) → All (λ b. b < 256) bytes → decode (encode bytes) ≡ some bytes
  -- The alphabet has no whitespace.
  pub encode_solid :
      (bytes : Text) → All (λ b. b < 256) bytes → any is_whitespace (encode bytes) ≡ false

-- An encoding that meets this: byte `b` as the character `b + 256`.
unfoldable pub shift : Text → Text
shift [] = []
shift (b ∷ bytes) = (b + 256) ∷ shift bytes

unfoldable pub unshift : Text → Text
unshift [] = []
unshift (c ∷ s) = (c - 256) ∷ unshift s

abbrev pub unshift? : Text → Option Text
unshift? s = if all (leb 256) s then some (unshift s) else none

pub unshift-shift : (bytes : Text) → unshift? (shift bytes) ≡ some bytes
unfolding shift unshift
unshift-shift [] = refl
unshift-shift (b ∷ bytes) = ground (arith, unshift-shift bytes)

pub shift_solid :
    (bytes : Text) → All (λ b. b < 256) bytes → any is_whitespace (shift bytes) ≡ false
unfolding shift
shift_solid [] h = refl
shift_solid (b ∷ bytes) h = ground (arith, shift_solid bytes h.1)

abbrev pub shifted : Base64Crate
shifted = record {
  encode = shift;
  decode = unshift?;
  decode_no_pad = unshift?;
  decode-encode = λ bytes h. unshift-shift bytes;
  encode_solid = shift_solid;
}
