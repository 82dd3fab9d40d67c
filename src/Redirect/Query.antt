-- ===== src/Redirect/Query.antt =====
-- src/binding/redirect.rs: the messages and the query strings.
use opensaml_rs.Prelude.{
  ℕ, ◌&&◌, Bool, true, false, Option, none, some, List, [], ◌∷◌, ◌++◌, Text, ascii, length, any,
  ◌≡◌, ◌==◌,
}
use opensaml_rs.Error.{xml, Result}
use opensaml_rs.Run.{Run, done, ◌>>=◌, ◌>>◌, lift, require}
use opensaml_rs.Validator.{ParserType}
use opensaml_rs.Xml.Dom.{default_limits, check_input_bytes}
use opensaml_rs.Redirect.{
  RedirectEvent, initial_scan, scan, is_none, detach, separator, query_param,
}

module _ (read_ns_events : ℕ → Text → List (RedirectEvent × ℕ)) where
  unfoldable pub protocol_signature_spans : Text → Run (List (ℕ × ℕ))
  protocol_signature_spans source = do
    lift (check_input_bytes default_limits (length source))
    final ←
        scan source (read_ns_events default_limits.max_attributes_per_element source) initial_scan
    require (is_none final.open_signature && final.depth == 0)
        (xml (ascii "HTTP-Redirect XML ended before its elements closed"))
    done final.spans

  unfoldable pub redirect_message_xml : Text → Bool → Run Text
  redirect_message_xml source detach_signature = do
    spans ← protocol_signature_spans source
    detach source detach_signature spans

-- The form encoding, raw DEFLATE and base64, of crates that are no part of the repository. An encoded
-- text has no ampersand.
pub record Encoders : Type 0 where
  pub url_encode : Text → Text
  pub deflate_raw_encode : Text → Result Text
  pub base64_encode : Text → Text
  pub url_encode_solid : (s : Text) → any (λ b. b == b'&') (url_encode s) ≡ false

module _ (E : Encoders) where
  open E use {url_encode, deflate_raw_encode, base64_encode}

  abbrev pub relay_part : Option Text → Text
  relay_part none = []
  relay_part (some state) = ascii "&RelayState=" ++ url_encode state

  unfoldable pub redirect_binding_query : Text → Text → Option Text → Text
  redirect_binding_query saml_param b64_value relay_state =
      (saml_param ++ (ascii "=" ++ url_encode b64_value)) ++ relay_part relay_state

  unfoldable pub append_signature : Text → Text → Text → Text
  append_signature base_url octet signature_b64 =
      base_url ++ separator base_url ∷ (octet ++ (ascii "&Signature=" ++ url_encode signature_b64))

  module _ (read_ns_events : ℕ → Text → List (RedirectEvent × ℕ)) where
    unfoldable pub build_redirect_url : Text → ParserType → Text → Option Text → Run Text
    build_redirect_url base_url parser_type source relay_state = do
      message ← redirect_message_xml read_ns_events source false
      deflated ← lift (deflate_raw_encode message)
      done (
          base_url
          ++ separator base_url
            ∷ redirect_binding_query (query_param parser_type) (base64_encode deflated) relay_state)

    unfoldable pub build_redirect_octet : ParserType → Text → Option Text → Text → Run Text
    build_redirect_octet parser_type source relay_state sig_alg = do
      message ← redirect_message_xml read_ns_events source true
      deflated ← lift (deflate_raw_encode message)
      done (
          (query_param parser_type ++ (ascii "=" ++ url_encode (base64_encode deflated)))
          ++ (relay_part relay_state ++ (ascii "&SigAlg=" ++ url_encode sig_alg)))
