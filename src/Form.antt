-- ===== src/Form.antt =====
-- src/binding/escape.rs: XML and HTML escaping; src/binding/post_form.rs: the fields of the form of the
-- HTTP-POST and SimpleSign bindings, and the form.
pub mod Escaped
mod Tests
use opensaml_rs.Prelude.{
  ℕ, Bool, true, false, Option, none, some, List, [], ◌∷◌, ◌++◌, Text, ascii, ◌==◌,
}
use opensaml_rs.Error.{invalid, Result, ok, err}

-- `str::replace` of one character
unfoldable pub replace : ℕ → Text → Text → Text
replace c by [] = []
replace c by (b ∷ s) = elim (b == c) [ true ↦ by ++ replace c by s | false ↦ b ∷ replace c by s ]

unfoldable pub xml_escape : Text → Text
xml_escape input = replace 62 (ascii "&gt;") (
    replace 60 (ascii "&lt;") (
      replace 39 (ascii "&apos;") (replace 34 (ascii "&quot;") (replace 38 (ascii "&amp;") input))))

unfoldable pub html_escape : Text → Text
html_escape input = replace 39 (ascii "&#39;") (
    replace 34 (ascii "&quot;")
      (replace 62 (ascii "&gt;") (replace 60 (ascii "&lt;") (replace 38 (ascii "&amp;") input))))

pub record HiddenField : Type 0 where
  pub name : Text
  pub value : Text

unfoldable pub render_fields : List HiddenField → Text
render_fields [] = []
render_fields (field ∷ fields) =
    ascii "<input type=\"hidden\" name=\""
    ++ (html_escape field.name
        ++ (ascii "\" value=\""
            ++ (html_escape field.value ++ (ascii "\"/>" ++ render_fields fields))))

unfoldable pub render_post_form : Text → List HiddenField → Text
render_post_form action fields =
    ascii
      "<!DOCTYPE html><html><body onload=\"document.forms[0].submit()\"><form method=\"post\" action=\""
    ++ (html_escape action
        ++ (ascii "\">"
            ++ (render_fields fields
                ++ ascii
                    "<noscript><input type=\"submit\" value=\"Continue\"/></noscript></form></body></html>")))

abbrev pub relay_field : Option Text → List HiddenField → List HiddenField
relay_field none fields = fields
relay_field (some state) fields = record { name = ascii "RelayState"; value = state } ∷ fields

abbrev pub signature_fields : Option Text → Option Text → List HiddenField
signature_fields (some sig_alg) (some signature) =
    record { name = ascii "SigAlg"; value = sig_alg }
    ∷ record { name = ascii "Signature"; value = signature }
    ∷ []
signature_fields _ _ = []

unfoldable pub binding_fields :
    Text → Text → Option Text → Option Text → Option Text → List HiddenField
binding_fields param_name b64_value relay_state sig_alg signature =
    record { name = param_name; value = b64_value }
    ∷ relay_field relay_state (signature_fields sig_alg signature)

unfoldable pub validate_signature_fields : Option Text → Option Text → Result (Unit {0})
validate_signature_fields (some sig_alg) (some signature) = ok tt
validate_signature_fields none none = ok tt
validate_signature_fields _ _ = err (invalid (ascii "ERR_PARTIAL_POST_BINDING_SIGNATURE"))

abbrev pub relay_octet : Option Text → Text
relay_octet none = []
relay_octet (some relay_state) = ascii "&RelayState=" ++ relay_state

unfoldable pub build_simplesign_octet : Text → Text → Option Text → Text → Text
build_simplesign_octet param_name xml relay_state sig_alg =
    param_name ++ (ascii "=" ++ (xml ++ (relay_octet relay_state ++ (ascii "&SigAlg=" ++ sig_alg))))

unfoldable pub saml_post_binding_form : Text → Text → Text → Option Text → Text
saml_post_binding_form action param_name b64_value relay_state =
    render_post_form action (binding_fields param_name b64_value relay_state none none)
