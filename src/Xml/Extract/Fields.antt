-- ===== src/Xml/Extract/Fields.antt =====
-- src/xml/fields.rs: the field sets of the messages.
use opensaml_rs.Prelude.{true, false, none, some, List, [], ◌∷◌, Text, ascii}
use opensaml_rs.Xml.Extract.{ExtractorField, single, multi}

-- `ExtractorField::new` and its modifiers
abbrev pub field : Text → List Text → ExtractorField
field key path = record {
  key = key;
  local_path = single path;
  attributes = [];
  index = none;
  attribute_path = none;
  context = false;
  shortcut = none;
}

abbrev pub field_multi : Text → List (List Text) → ExtractorField
field_multi key paths = record (field key []) { local_path = multi paths }

abbrev pub with_attrs : ExtractorField → List Text → ExtractorField
with_attrs f attributes = record f { attributes = attributes }

abbrev pub with_context : ExtractorField → ExtractorField
with_context f = record f { context = true }

abbrev pub with_aggregate : ExtractorField → List Text → List Text → ExtractorField
with_aggregate f index attribute_path = record f {
  index = some index;
  attribute_path = some attribute_path;
}

abbrev pub with_shortcut : Text → ExtractorField → ExtractorField
with_shortcut xml f = record f { shortcut = some xml }

unfoldable pub login_request_fields : List ExtractorField
login_request_fields =
    with_attrs (field (ascii "request") (ascii "AuthnRequest" ∷ [])) (
      ascii "ID"
      ∷ ascii "IssueInstant"
      ∷ ascii "Destination"
      ∷ ascii "AssertionConsumerServiceURL"
      ∷ ascii "ProtocolBinding"
      ∷ ascii "AssertionConsumerServiceIndex"
      ∷ ascii "ForceAuthn"
      ∷ ascii "IsPassive"
      ∷ [])
    ∷ field (ascii "issuer") (ascii "AuthnRequest" ∷ ascii "Issuer" ∷ [])
    ∷ with_attrs (field (ascii "nameIDPolicy") (ascii "AuthnRequest" ∷ ascii "NameIDPolicy" ∷ []))
        (ascii "Format" ∷ ascii "AllowCreate" ∷ [])
    ∷ with_context (field (ascii "requestedSubject") (ascii "AuthnRequest" ∷ ascii "Subject" ∷ []))
    ∷ field (ascii "requestedNameId") (ascii "AuthnRequest" ∷ ascii "Subject" ∷ ascii "NameID" ∷ [])
    ∷ with_attrs
        (field (ascii "requestedNameIdFormat")
          (ascii "AuthnRequest" ∷ ascii "Subject" ∷ ascii "NameID" ∷ []))
        (ascii "Format" ∷ [])
    ∷ with_attrs
        (field (ascii "requestedNameQualifier")
          (ascii "AuthnRequest" ∷ ascii "Subject" ∷ ascii "NameID" ∷ []))
        (ascii "NameQualifier" ∷ [])
    ∷ with_attrs
        (field (ascii "requestedSpNameQualifier")
          (ascii "AuthnRequest" ∷ ascii "Subject" ∷ ascii "NameID" ∷ []))
        (ascii "SPNameQualifier" ∷ [])
    ∷ with_attrs
        (field (ascii "requestedSpProvidedId")
          (ascii "AuthnRequest" ∷ ascii "Subject" ∷ ascii "NameID" ∷ []))
        (ascii "SPProvidedID" ∷ [])
    ∷ with_context (
        field (ascii "requestedBaseId")
          (ascii "AuthnRequest" ∷ ascii "Subject" ∷ ascii "BaseID" ∷ []))
    ∷ with_context (
        field (ascii "requestedEncryptedId")
          (ascii "AuthnRequest" ∷ ascii "Subject" ∷ ascii "EncryptedID" ∷ []))
    ∷ with_context (
        field (ascii "requestedSubjectConfirmation")
          (ascii "AuthnRequest" ∷ ascii "Subject" ∷ ascii "SubjectConfirmation" ∷ []))
    ∷ field (ascii "authnContextClassRef")
        (ascii "AuthnRequest" ∷ ascii "AuthnContextClassRef" ∷ [])
    ∷ with_context (field (ascii "signature") (ascii "AuthnRequest" ∷ ascii "Signature" ∷ []))
    ∷ []

unfoldable pub login_response_status_fields : List ExtractorField
login_response_status_fields =
    with_attrs (field (ascii "top") (ascii "Response" ∷ ascii "Status" ∷ ascii "StatusCode" ∷ []))
      (ascii "Value" ∷ [])
    ∷ with_attrs
        (field (ascii "second")
          (ascii "Response" ∷ ascii "Status" ∷ ascii "StatusCode" ∷ ascii "StatusCode" ∷ []))
        (ascii "Value" ∷ [])
    ∷ []

unfoldable pub logout_response_status_fields : List ExtractorField
logout_response_status_fields =
    with_attrs
      (field (ascii "top") (ascii "LogoutResponse" ∷ ascii "Status" ∷ ascii "StatusCode" ∷ []))
      (ascii "Value" ∷ [])
    ∷ with_attrs
        (field (ascii "second")
          (ascii "LogoutResponse" ∷ ascii "Status" ∷ ascii "StatusCode" ∷ ascii "StatusCode" ∷ []))
        (ascii "Value" ∷ [])
    ∷ []

unfoldable pub login_response_fields : Text → List ExtractorField
login_response_fields assertion =
    with_shortcut assertion (
      with_attrs (field (ascii "assertion") (ascii "Assertion" ∷ []))
        (ascii "ID" ∷ ascii "IssueInstant" ∷ []))
    ∷ with_shortcut assertion (
        with_attrs (field (ascii "conditions") (ascii "Assertion" ∷ ascii "Conditions" ∷ []))
          (ascii "NotBefore" ∷ ascii "NotOnOrAfter" ∷ []))
    ∷ with_attrs (field (ascii "response") (ascii "Response" ∷ []))
        (ascii "ID" ∷ ascii "IssueInstant" ∷ ascii "Destination" ∷ ascii "InResponseTo" ∷ [])
    ∷ with_shortcut assertion (
        field (ascii "audience") (
          ascii "Assertion"
          ∷ ascii "Conditions"
          ∷ ascii "AudienceRestriction"
          ∷ ascii "Audience"
          ∷ []))
    ∷ with_shortcut assertion (field (ascii "issuer") (ascii "Assertion" ∷ ascii "Issuer" ∷ []))
    ∷ with_shortcut assertion
        (field (ascii "nameID") (ascii "Assertion" ∷ ascii "Subject" ∷ ascii "NameID" ∷ []))
    ∷ with_shortcut assertion (
        with_attrs
          (field (ascii "nameIDFormat") (ascii "Assertion" ∷ ascii "Subject" ∷ ascii "NameID" ∷ []))
          (ascii "Format" ∷ []))
    ∷ with_shortcut assertion (
        with_context (
          field (ascii "subjectConfirmation")
            (ascii "Assertion" ∷ ascii "Subject" ∷ ascii "SubjectConfirmation" ∷ [])))
    ∷ with_shortcut assertion (
        with_attrs (field (ascii "sessionIndex") (ascii "Assertion" ∷ ascii "AuthnStatement" ∷ []))
          (ascii "AuthnInstant" ∷ ascii "SessionNotOnOrAfter" ∷ ascii "SessionIndex" ∷ []))
    ∷ with_shortcut assertion (
        with_aggregate
          (field (ascii "attributes")
            (ascii "Assertion" ∷ ascii "AttributeStatement" ∷ ascii "Attribute" ∷ []))
          (ascii "Name" ∷ []) (ascii "AttributeValue" ∷ []))
    ∷ []

unfoldable pub logout_request_fields : List ExtractorField
logout_request_fields =
    with_attrs (field (ascii "request") (ascii "LogoutRequest" ∷ []))
      (ascii "ID" ∷ ascii "IssueInstant" ∷ ascii "Destination" ∷ ascii "NotOnOrAfter" ∷ [])
    ∷ field (ascii "issuer") (ascii "LogoutRequest" ∷ ascii "Issuer" ∷ [])
    ∷ field (ascii "nameID") (ascii "LogoutRequest" ∷ ascii "NameID" ∷ [])
    ∷ field (ascii "sessionIndex") (ascii "LogoutRequest" ∷ ascii "SessionIndex" ∷ [])
    ∷ with_context (field (ascii "signature") (ascii "LogoutRequest" ∷ ascii "Signature" ∷ []))
    ∷ []

unfoldable pub logout_response_fields : List ExtractorField
logout_response_fields =
    with_attrs (field (ascii "response") (ascii "LogoutResponse" ∷ []))
      (ascii "ID" ∷ ascii "IssueInstant" ∷ ascii "Destination" ∷ ascii "InResponseTo" ∷ [])
    ∷ field (ascii "issuer") (ascii "LogoutResponse" ∷ ascii "Issuer" ∷ [])
    ∷ with_context (field (ascii "signature") (ascii "LogoutResponse" ∷ ascii "Signature" ∷ []))
    ∷ []
