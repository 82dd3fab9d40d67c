-- ===== src/Relay.antt =====
-- src/model/relay.rs: the presence of a RelayState and its byte limit. A text is the list of its
-- characters here, and `len` the length of its UTF-8 encoding.
pub mod Presence
mod Tests
use opensaml_rs.Prelude.{
  ℕ, ◌+◌, ◌≡◌, Bool, true, false, not, Option, none, some, [], ◌∷◌, Text, ascii, ltb, leb,
  if◌then◌else◌,
}
use opensaml_rs.Error.{
  SamlError, invalid, RelayStateParam, absent, present_empty, present_value, Result, ok, err, ◌>>=◌,
  ◌>>◌, ensure,
}

-- `char::len_utf8`
abbrev pub len_utf8 : ℕ → ℕ
len_utf8 c = if ltb c 128 then 1 else if ltb c 2048 then 2 else if ltb c 65536 then 3 else 4

-- `str::len`
unfoldable pub len : Text → ℕ
len [] = 0
len (c ∷ s) = len_utf8 c + len s

abbrev pub max_relay_state_bytes : ℕ
max_relay_state_bytes = 80

unfoldable pub validate_relay_state_bytes : Text → Result (Unit {0})
validate_relay_state_bytes value =
    ensure (not (ltb max_relay_state_bytes (len value)))
      (invalid (ascii "RelayState exceeds SAML Bindings 80-byte limit"))

-- `RelayState::try_new`
unfoldable pub try_new : Text → Result Text
try_new value = do validate_relay_state_bytes value; ok value

unfoldable pub try_from_option : Option Text → Result RelayStateParam
try_from_option none = ok absent
try_from_option (some []) = ok present_empty
try_from_option (some (c ∷ s)) = do value ← try_new (c ∷ s); ok (present_value value)

unfoldable pub as_deref : RelayStateParam → Option Text
as_deref absent = none
as_deref present_empty = some []
as_deref (present_value value) = some value

unfoldable pub validate : RelayStateParam → Result (Unit {0})
validate absent = ok tt
validate present_empty = validate_relay_state_bytes []
validate (present_value []) = err (invalid (ascii "RelayState PresentValue must not be empty"))
validate (present_value (c ∷ s)) = validate_relay_state_bytes (c ∷ s)
