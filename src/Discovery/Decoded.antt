-- ===== src/Discovery/Decoded.antt =====
-- src/discovery.rs: what was percent-encoded is decoded.
use opensaml_rs.Prelude.{
  arith, ℕ, ◌+◌, ◌*◌, ◌/◌, ◌%◌, ◌<◌, ◌≡◌, refl, true, [], ◌∷◌, All, Text, Bool-cases, inl, inr,
}
use opensaml_rs.Error.{ok}
use opensaml_rs.Discovery.Percent.{
  PlusSign, is_unreserved, hex_digit, hex_value, encode_percent, decode_bytes,
}

hex_value-hex_digit : (n : ℕ) → n < 16 → hex_value (hex_digit n) ≡ ok n
unfolding hex_value
hex_value-hex_digit n h = ground arith

-- A byte that needs no escape is decoded as it is, before anything.
decode_plain :
    (plus : PlusSign) (b : ℕ) (rest : Text) {decoded : Text}
    → is_unreserved b ≡ true
    → decode_bytes plus rest ≡ ok decoded
    → decode_bytes plus (b ∷ rest) ≡ ok (b ∷ decoded)
unfolding decode_bytes
decode_plain plus b [] plain h = ground (arith, plain, h)
decode_plain plus b (x ∷ []) plain h = ground (arith, plain, h)
decode_plain plus b (x ∷ y ∷ rest) plain h = ground (arith, plain, h)

nibbles : (b : ℕ) → b < 256 → (b / 16 < 16) × (b % 16 < 16) × (b / 16 * 16 + b % 16 ≡ b)
nibbles b h = (omega arith, omega arith, omega arith)

-- Every byte string is decoded from its encoding, whichever way a plus sign is read.
pub decode_bytes-encode_percent :
    (plus : PlusSign) (raw : Text)
    → All (λ b. b < 256) raw
    → decode_bytes plus (encode_percent raw) ≡ ok raw
unfolding encode_percent decode_bytes
decode_bytes-encode_percent plus [] h = refl
decode_bytes-encode_percent plus (b ∷ raw) (small, h) =
    let rest = decode_bytes-encode_percent plus raw h in
    elim (Bool-cases (is_unreserved b)) [
      | inl plain ↦ rw plain (decode_plain plus b (encode_percent raw) plain rest)
      | inr escaped ↦
          let (high, low, whole) = nibbles b small in
          rw
            (
              escaped,
              hex_value-hex_digit (b / 16) high,
              hex_value-hex_digit (b % 16) low,
              rest,
              whole,
            )
            refl
    ]
