-- ===== src/Redirect/Parts.antt =====
-- src/binding/redirect.rs: the parameters that a query string is split into.
use opensaml_rs.Prelude.{Bool, Option, none, some, List, [], ◌∷◌, ◌++◌, Text, ascii, any, ◌==◌}
use opensaml_rs.Redirect.Query.{Encoders}

abbrev has_ampersand : Text → Bool
has_ampersand s = any (λ b. b == b'&') s

module _ (E : Encoders) where
  open E use {url_encode, deflate_raw_encode, base64_encode, url_encode_solid}

  -- One parameter: a name, the equals sign and the encoded value.
  abbrev pub parameter : Text → Text → Text
  parameter name value = name ++ (ascii "=" ++ url_encode value)

  abbrev pub relay_parameters : Option Text → List Text
  relay_parameters none = []
  relay_parameters (some state) = parameter (ascii "RelayState") state ∷ []
