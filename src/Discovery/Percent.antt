-- ===== src/Discovery/Percent.antt =====
-- src/discovery.rs: percent encoding and decoding, on bytes.
use opensaml_rs.Prelude.{
  ℕ, ◌+◌, ◌-◌, ◌*◌, ◌/◌, ◌%◌, Bool, true, false, ◌&&◌, ◌||◌, [], ◌∷◌, Text, ascii, ltb, leb, ◌==◌,
  is_ascii_digit,
}
use opensaml_rs.Error.{SamlError, invalid, Result, ok, err, ◌>>=◌}

abbrev pub is_ascii_lowercase : ℕ → Bool
is_ascii_lowercase b = leb b'a' b && leb b b'z'

abbrev pub is_ascii_uppercase : ℕ → Bool
is_ascii_uppercase b = leb b'A' b && leb b b'Z'

abbrev pub is_ascii_alphabetic : ℕ → Bool
is_ascii_alphabetic b = is_ascii_uppercase b || is_ascii_lowercase b

abbrev pub is_ascii_alphanumeric : ℕ → Bool
is_ascii_alphanumeric b = is_ascii_alphabetic b || is_ascii_digit b

abbrev pub is_unreserved : ℕ → Bool
is_unreserved b = is_ascii_alphanumeric b || (b == b'-' || b == b'.' || b == b'_' || b == b'~')

-- The character of a nibble.
abbrev pub hex_digit : ℕ → ℕ
hex_digit n = elim (ltb n 10) [ true ↦ b'0' + n | false ↦ b'A' + (n - 10) ]

abbrev pub encode_byte : Bool → ℕ → Text → Text
encode_byte true b rest = b ∷ rest
encode_byte false b rest = b'%' ∷ hex_digit (b / 16) ∷ hex_digit (b % 16) ∷ rest

unfoldable pub encode_percent : Text → Text
encode_percent [] = []
encode_percent (b ∷ raw) = encode_byte (is_unreserved b) b (encode_percent raw)

pub data PlusSign : Type 0 where
  keep_plus space : PlusSign

unfoldable pub hex_value : ℕ → Result ℕ
hex_value byte = elim (leb b'0' byte && leb byte b'9') [
  | true ↦ ok (byte - b'0')
  | false ↦ elim (leb b'a' byte && leb byte b'f') [
    | true ↦ ok (byte - b'a' + 10)
    | false ↦ elim (leb b'A' byte && leb byte b'F') [
      | true ↦ ok (byte - b'A' + 10)
      | false ↦ err (
          invalid
            (ascii "existing common domain cookie has a percent escape that is not hexadecimal"))
    ]
  ]
]

abbrev pub plus_value : PlusSign → ℕ
plus_value keep_plus = b'+'
plus_value space = b' '

abbrev pub not_url_encoded : SamlError
not_url_encoded = invalid (ascii "existing common domain cookie is not URL-encoded text")

abbrev pub truncated_escape : SamlError
truncated_escape = invalid (ascii "existing common domain cookie has a truncated percent escape")

-- One byte that is no escape, before what is decoded of the rest.
abbrev pub decode_byte : PlusSign → ℕ → Result Text → Result Text
decode_byte plus b decoded = elim (b == b'+') [
  | true ↦ do rest ← decoded; ok (plus_value plus ∷ rest)
  | false ↦ elim (ltb b 128) [
    | true ↦ do rest ← decoded; ok (b ∷ rest)
    | false ↦ err not_url_encoded
  ]
]

abbrev pub decode_escape : ℕ → ℕ → Result Text → Result Text
decode_escape h l decoded = do
  high ← hex_value h
  low ← hex_value l
  rest ← decoded
  ok ((high * 16 + low) ∷ rest)

-- The loop of `decode_percent` over the rest of the bytes: one byte, or an escape of three.
unfoldable pub decode_bytes : PlusSign → Text → Result Text
decode_bytes plus [] = ok []
decode_bytes plus (b ∷ []) = elim (b == b'%') [
  | true ↦ err truncated_escape
  | false ↦ decode_byte plus b (ok [])
]
decode_bytes plus (b ∷ h ∷ []) = elim (b == b'%') [
  | true ↦ err truncated_escape
  | false ↦ decode_byte plus b (decode_bytes plus (h ∷ []))
]
decode_bytes plus (b ∷ h ∷ l ∷ rest) = elim (b == b'%') [
  | true ↦ decode_escape h l (decode_bytes plus rest)
  | false ↦ decode_byte plus b (decode_bytes plus (h ∷ l ∷ rest))
]
