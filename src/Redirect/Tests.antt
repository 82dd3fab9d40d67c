-- ===== src/Redirect/Tests.antt =====
-- Tests of src/binding/redirect.rs: a message with a protocol signature and one without.
use opensaml_rs.Prelude.{
  arith, ℕ, ◌≡◌, refl, true, false, none, some, List, [], ◌∷◌, Text, ascii, text_eq, any, map, ◌==◌,
  if◌then◌else◌,
}
use opensaml_rs.Error.{ok}
use opensaml_rs.Run.{done}
use opensaml_rs.Validator.{saml_request}
use opensaml_rs.Xml.Dom.{check_input_bytes}
use opensaml_rs.Xml.Extract.{slice}
use opensaml_rs.Redirect.{
  RedirectEvent, start_element, empty_element, end_element, dsig, is_protocol_signature, from_event,
  count_element, checked_depth, last_lt, element_start, scan_tag, scan, remove_from, remove_spans,
  has_query, query_param,
}
use opensaml_rs.Redirect.Query.{
  Encoders, protocol_signature_spans, redirect_message_xml, redirect_binding_query,
  append_signature, build_redirect_url, build_redirect_octet,
}
use opensaml_rs.Redirect.Spans.{direct_signatures, protocol_signature_spans-direct_signatures}

-- An encoding that has no ampersand.
abbrev plus_for : ℕ → ℕ
plus_for b = elim (b == b'&') [ true ↦ b'+' | false ↦ b ]

plus_for_solid : (s : Text) → any (λ b. b == b'&') (map plus_for s) ≡ false
plus_for_solid [] = refl
plus_for_solid (b ∷ s) = ground (arith, plus_for_solid s)

abbrev plain_encoders : Encoders
plain_encoders = record {
  url_encode = λ s. map plus_for s;
  deflate_raw_encode = λ s. ok s;
  base64_encode = λ s. s;
  url_encode_solid = λ s. plus_for_solid s;
}

abbrev signed_text : Text
signed_text = ascii "<R><S/></R>"

abbrev unsigned_text : Text
unsigned_text = ascii "<R></R>"

abbrev redirect_reader : ℕ → Text → List (RedirectEvent × ℕ)
redirect_reader bindings source =
    if text_eq source signed_text
    then (start_element none (ascii "R"), 3)
      ∷ (empty_element (some dsig) (ascii "Signature"), 7)
      ∷ (end_element, 11)
      ∷ []
    else (start_element none (ascii "R"), 3) ∷ (end_element, 7) ∷ []

runs :
    (protocol_signature_spans redirect_reader signed_text ≡ done ((3, 7) ∷ []))
    × (redirect_message_xml redirect_reader signed_text true ≡ done unsigned_text)
    × (redirect_message_xml redirect_reader unsigned_text false ≡ done unsigned_text)
    × (build_redirect_octet plain_encoders redirect_reader saml_request signed_text
          (some (ascii "s"))
          (ascii "alg")
        ≡ done (ascii "SAMLRequest=<R></R>&RelayState=s&SigAlg=alg"))
    × (build_redirect_url plain_encoders redirect_reader
          (ascii "u?a=b")
          saml_request
          unsigned_text
          none
        ≡ done (ascii "u?a=b&SAMLRequest=<R></R>"))
    × (append_signature plain_encoders (ascii "u") (ascii "o") (ascii "g")
        ≡ ascii "u?o&Signature=g")
unfolding protocol_signature_spans redirect_message_xml redirect_binding_query append_signature
    build_redirect_url build_redirect_octet is_protocol_signature from_event count_element
    checked_depth last_lt element_start scan_tag scan remove_from remove_spans has_query query_param
    slice check_input_bytes ascii text_eq
runs = (refl, refl, refl, refl, refl, refl)

protocol_signature_spans-direct_signatures_example :
    1 ≡ direct_signatures 0 (redirect_reader 64 signed_text)
protocol_signature_spans-direct_signatures_example =
    protocol_signature_spans-direct_signatures redirect_reader signed_text {spans = (3, 7) ∷ []}
      runs.0
