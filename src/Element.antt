-- ===== src/Element.antt =====
-- src/artifact.rs: protocol elements with their namespaces, as `parse_saml` returns them, and what
-- the artifact exchange reads from them. Texts are the lists of their characters here.
use opensaml_rs.Prelude.{
  ℕ, Bool, true, false, ◌&&◌, ◌||◌, not, Option, none, some, List, [], ◌∷◌, ◌++◌, Text, ascii,
  text_eq, leb, ◌==◌, trim_matches, if◌then◌else◌,
}
use opensaml_rs.Error.{
  protocol_profile, undefined_status, Result, ok, err, ◌>>=◌, ◌>>◌, ensure, ok_or,
}
use opensaml_rs.DateTime.{parse_saml_utc_date_time}

mutual
  -- Local name, namespace, attributes, text, children, and the span in the parsed document.
  pub data SamlElement : Type 0 where
    element : Text → Text → List (Text × Text) → Text → Elements → ℕ × ℕ → SamlElement

  pub data Elements : Type 0 where
    no_elements : Elements
    elements : SamlElement → Elements → Elements

abbrev pub local_name : SamlElement → Text
local_name (element name uri attributes characters inner span) = name

abbrev pub namespace : SamlElement → Text
namespace (element name uri attributes characters inner span) = uri

abbrev pub text : SamlElement → Text
text (element name uri attributes characters inner span) = characters

abbrev pub children : SamlElement → Elements
children (element name uri attributes characters inner span) = inner

unfoldable pub find_attribute : List (Text × Text) → Text → Option Text
find_attribute [] name = none
find_attribute ((key, value) ∷ attributes) name =
    if text_eq key name then some value else find_attribute attributes name

unfoldable pub attr : SamlElement → Text → Option Text
attr (element _ _ attributes _ _ _) name = find_attribute attributes name

-- src/constants.rs: `namespace::PROTOCOL`, `namespace::ASSERTION` and `name_id_format::ENTITY`.
abbrev pub protocol : Text
protocol = ascii "urn:oasis:names:tc:SAML:2.0:protocol"

abbrev pub assertion : Text
assertion = ascii "urn:oasis:names:tc:SAML:2.0:assertion"

abbrev pub entity_format : Text
entity_format = ascii "urn:oasis:names:tc:SAML:2.0:nameid-format:entity"

-- `char::is_whitespace`: the characters with the Unicode property White_Space.
abbrev pub is_whitespace : ℕ → Bool
is_whitespace c =
    (leb 9 c && leb c 13)
    || c == 32
    || c == 133
    || c == 160
    || c == 5760
    || (leb 8192 c && leb c 8202)
    || c == 8232
    || c == 8233
    || c == 8239
    || c == 8287
    || c == 12288

abbrev pub non_empty : Option Text → Option Text
non_empty none = none
non_empty (some []) = none
non_empty (some (c ∷ s)) = some (c ∷ s)

-- A child of this local name and namespace.
abbrev pub named : Text → Text → SamlElement → Bool
named name uri child = text_eq (local_name child) name && text_eq (namespace child) uri

abbrev pub find_child : (SamlElement → Bool) → Elements → Option SamlElement
find_child p no_elements = none
find_child p (elements e es) = if p e then some e else find_child p es

abbrev pub filter_children : (SamlElement → Bool) → Elements → List SamlElement
filter_children p no_elements = []
filter_children p (elements e es) =
    let rest = filter_children p es in if p e then e ∷ rest else rest

unfoldable pub required_attr : SamlElement → Text → Result Text
required_attr e name =
    ok_or (non_empty (attr e name))
      (protocol_profile (local_name e ++ (ascii " is missing required attribute " ++ name)))

pub record PartyName : Type 0 where
  pub value : Text
  pub format : Option Text

abbrev pub party_name : SamlElement → Text → Option PartyName
party_name child [] = none
party_name child (c ∷ s) = some (record { value = c ∷ s; format = attr child (ascii "Format") })

unfoldable pub issuer : SamlElement → Option PartyName
issuer e = elim (find_child (named (ascii "Issuer") assertion) (children e)) [
  | none ↦ none
  | some child ↦ party_name child (trim_matches is_whitespace (text child))
]

unfoldable pub issuer_format_is_entity : Option Text → Bool
issuer_format_is_entity none = true
issuer_format_is_entity (some format) = text_eq format entity_format

pub record ResolveRequest : Type 0 where
  pub id : Text
  pub version : Text
  pub destination : Option Text
  pub issuer : Option PartyName
  pub artifact : Text

abbrev pub has_one : List SamlElement → Bool
has_one (e ∷ []) = true
has_one _ = false

abbrev pub has_at_most_one : List SamlElement → Bool
has_at_most_one [] = true
has_at_most_one es = has_one es

-- `.find(…).map(|child| child.text.trim().to_string()).filter(|value| !value.is_empty())`
unfoldable pub artifact_value : SamlElement → Option Text
artifact_value e = elim (find_child (named (ascii "Artifact") protocol) (children e)) [
  | none ↦ none
  | some child ↦ non_empty (some (trim_matches is_whitespace (text child)))
]

abbrev pub is_date_time : Text → Bool
is_date_time value = elim (parse_saml_utc_date_time value) [ none ↦ false | some _ ↦ true ]

-- `parse_resolve`, from the parsed element on.
unfoldable pub parse_resolve : SamlElement → Result ResolveRequest
parse_resolve e = do
  ensure (named (ascii "ArtifactResolve") protocol e)
      (protocol_profile (ascii "SOAP body must be an ArtifactResolve"))
  id ← required_attr e (ascii "ID")
  version ← required_attr e (ascii "Version")
  issue_instant ← required_attr e (ascii "IssueInstant")
  ensure (is_date_time issue_instant)
      (protocol_profile (ascii "ArtifactResolve IssueInstant must be a UTC xs:dateTime"))
  artifact ←
      ok_or (artifact_value e)
        (protocol_profile (ascii "ArtifactResolve requires one Artifact value"))
  ensure
      (has_one
        (filter_children (λ child. text_eq (local_name child) (ascii "Artifact")) (children e)))
      (protocol_profile (ascii "ArtifactResolve requires one Artifact value"))
  ensure (has_at_most_one (filter_children (named (ascii "Issuer") assertion) (children e)))
      (protocol_profile (ascii "ArtifactResolve requires at most one Issuer"))
  ok (record {
    id = id;
    version = version;
    destination = attr e (ascii "Destination");
    issuer = issuer e;
    artifact = artifact;
  })

abbrev pub attr_value : Option SamlElement → Option Text
attr_value none = none
attr_value (some child) = attr child (ascii "Value")

abbrev pub code_values : SamlElement → Result (Text × Option Text)
code_values status = do
  code ← ok_or (find_child (named (ascii "StatusCode") protocol) (children status)) undefined_status
  top ← ok_or (non_empty (attr code (ascii "Value"))) undefined_status
  ok (top, attr_value (find_child (named (ascii "StatusCode") protocol) (children code)))

unfoldable pub status_codes : SamlElement → Result (Text × Option Text)
status_codes response =
    elim (filter_children (named (ascii "Status") protocol) (children response)) [
      | [] ↦ err undefined_status
      | status ∷ [] ↦ code_values status
      | status ∷ other ∷ more ↦
          err (protocol_profile (ascii "ArtifactResponse requires one Status"))
    ]

-- The children of a response that are no payload.
abbrev pub is_envelope_part : SamlElement → Bool
is_envelope_part child =
    named (ascii "Issuer") assertion child
    || named (ascii "Status") protocol child
    || named (ascii "Extensions") protocol child
    || named (ascii "Signature") (ascii "http://www.w3.org/2000/09/xmldsig#") child

unfoldable pub protocol_payload : SamlElement → Result (Option SamlElement)
protocol_payload response =
    elim (filter_children (λ child. not (is_envelope_part child)) (children response)) [
      | [] ↦ ok none
      | payload ∷ [] ↦ ok (some payload)
      | payload ∷ other ∷ more ↦
          err
            (protocol_profile (ascii "ArtifactResponse must contain at most one protocol message"))
    ]
