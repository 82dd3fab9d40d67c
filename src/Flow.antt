-- ===== src/Flow.antt =====
-- src/flow.rs: the options and the request inputs of an inbound flow.
use opensaml_rs.Prelude.{
  ℕ, Bool, true, false, Option, none, some, List, [], ◌∷◌, Text, ascii, text_eq,
}
use opensaml_rs.Prelude.Int.{ℤ, pos}
use opensaml_rs.Error.{Binding, invalid, Result, ok, err}
use opensaml_rs.Time.{TimeCrate}
use opensaml_rs.Validation.{offset_datetime_from_system_time}
use opensaml_rs.Validator.{ParserType}
use opensaml_rs.Xml.Dom.{XmlLimits, default_limits}

pub record HttpRequest : Type 0 where
  pub query : List (Text × Text)
  pub body : List (Text × Text)
  pub octet_string : Option Text

-- `params.iter().filter(|(candidate, _)| candidate == key)`, the values
abbrev pub values_for : List (Text × Text) → Text → List Text
values_for [] key = []
values_for ((candidate, value) ∷ params) key = elim (text_eq candidate key) [
  | true ↦ value ∷ values_for params key
  | false ↦ values_for params key
]

abbrev pub at_most_one : List Text → Result (Option Text)
at_most_one [] = ok none
at_most_one (first ∷ []) = ok (some first)
at_most_one (first ∷ second ∷ rest) = err (invalid (ascii "ERR_AMBIGUOUS_FLOW_INPUT"))

unfoldable pub single_param : List (Text × Text) → Text → Result (Option Text)
single_param params key = at_most_one (values_for params key)

-- src/binding/deflate.rs: `MAX_DEFLATE_RAW_DECODE_BYTES`.
abbrev pub max_deflate_raw_decode_bytes : ℕ
max_deflate_raw_decode_bytes = 1048576

pub record FlowOptions : Type 0 where
  pub binding : Option Binding
  pub parser_type : Option ParserType
  pub redirect_inflate_max_bytes : ℕ
  pub xml_limits : XmlLimits
  pub check_signature : Bool
  pub verify_signature_if_present : Bool
  pub require_audience_restriction : Bool
  pub strict_xml_signature_profile : Bool
  pub from_issuer : Option Text
  pub signing_certs : List Text
  pub decrypt_key : Option Text
  pub decrypt_key_pass : Option Text
  pub allow_insecure_software_rsa_key_transport_decryption : Bool
  pub clock_drifts : ℤ × ℤ
  pub now : Option ℤ
  pub expected_audience : Option Text
  pub expected_in_response_to : Option Text

abbrev pub default_options : FlowOptions
default_options = record {
  binding = none;
  parser_type = none;
  redirect_inflate_max_bytes = max_deflate_raw_decode_bytes;
  xml_limits = default_limits;
  check_signature = false;
  verify_signature_if_present = false;
  require_audience_restriction = true;
  strict_xml_signature_profile = false;
  from_issuer = none;
  signing_certs = [];
  decrypt_key = none;
  decrypt_key_pass = none;
  allow_insecure_software_rsa_key_transport_decryption = false;
  clock_drifts = (pos 0, pos 0);
  now = none;
  expected_audience = none;
  expected_in_response_to = none;
}

-- `utc_now` is what the process clock shows during the validation.
unfoldable pub validation_now : TimeCrate → ℤ → Option ℤ → Result ℤ
validation_now T utc_now none = ok utc_now
validation_now T utc_now (some instant) = offset_datetime_from_system_time T instant
