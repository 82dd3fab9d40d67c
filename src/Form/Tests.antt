-- ===== src/Form/Tests.antt =====
-- Tests of src/binding/escape.rs and src/binding/post_form.rs.
use opensaml_rs.Prelude.{◌≡◌, refl, false, none, some, ascii, any}
use opensaml_rs.Error.{ok}
use opensaml_rs.Form.{
  replace, html_escape, xml_escape, render_fields, binding_fields, build_simplesign_octet,
  validate_signature_fields,
}
use opensaml_rs.Form.Escaped.{html_entities, is_markup, html_escape-html_entities}

runs :
    (html_escape (ascii "a<b>&amp;\"'") ≡ ascii "a&lt;b&gt;&amp;amp;&quot;&#39;")
    × (xml_escape (ascii "'<&>") ≡ ascii "&apos;&lt;&amp;&gt;")
    × (build_simplesign_octet (ascii "p") (ascii "x") (some (ascii "r")) (ascii "a")
        ≡ ascii "p=x&RelayState=r&SigAlg=a")
    × (render_fields (binding_fields (ascii "p") (ascii "v") none (some (ascii "a")) none)
        ≡ ascii "<input type=\"hidden\" name=\"p\" value=\"v\"/>")
    × (validate_signature_fields none none ≡ ok tt)
unfolding replace html_escape xml_escape build_simplesign_octet render_fields binding_fields
    validate_signature_fields ascii
runs = (refl, refl, refl, refl, refl)

html_escape-html_entities_example :
    (html_escape (ascii "a&\"<") ≡ html_entities (ascii "a&\"<"))
    × (any is_markup (html_escape (ascii "a&\"<")) ≡ false)
html_escape-html_entities_example = html_escape-html_entities (ascii "a&\"<")
