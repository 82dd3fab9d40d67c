-- ===== src/Acceptance.antt =====
-- src/assertion_acceptance.rs: what a service provider checks of every assertion of a login response.
-- src/model/extract.rs and src/model/session.rs: the session bounds of the authentication statements.
pub mod Checks
pub mod Conditions
pub mod Accept
pub mod Confirmed
pub mod Accepted
pub mod Shared
pub mod Met
pub mod InTime
pub mod Replays
mod Example
mod Tests
use opensaml_rs.Prelude.{
  ℕ, Bool, true, false, ◌&&◌, not, Option, none, some, List, [], ◌∷◌, Text, ascii, text_eq,
  is_empty, leb, any,
}
use opensaml_rs.Prelude.Int.{ℤ, ltb_ℤ}
use opensaml_rs.Error
use opensaml_rs.Error.{
  SamlError, xml, invalid, issuer_mismatch, in_response_to_mismatch, audience_mismatch,
  unrecognized_condition, principal_mismatch, time_window_invalid, session_not_on_or_after,
  conditions, subject_confirmation_invalid, Result, ok, err, ok_or, SubjectConfirmationReason,
  invalid_method, missing_not_on_or_after, recipient_mismatch, missing_bearer_confirmation,
}
use opensaml_rs.Run.{Run, done, fail, panic, ◌>>=◌, ◌>>◌, lift, unwrap, require}
use opensaml_rs.Time.{TimeCrate, milliseconds}
use opensaml_rs.Value.{Value, null, str, array, object, Values, nil, cons, get, get_str, as_str}
use opensaml_rs.Validator.{verify_time_at, conditions_time_bounds}
use opensaml_rs.Flow.{FlowOptions, validation_now}
use opensaml_rs.Xml.Dom.{
  Node, Nodes, no_nodes, nodes, local_name, children, text, attr, start, finish, PlacedEvent,
  parse_with_limits,
}
use opensaml_rs.Xml.Extract.{ExtractorField, slice, extract_with_limits}
use opensaml_rs.Xml.Extract.Fields.{field, with_attrs, with_context, login_response_fields}

abbrev pub bearer_subject_confirmation_method : Text
bearer_subject_confirmation_method = ascii "urn:oasis:names:tc:SAML:2.0:cm:bearer"

abbrev pub unspecified : Text
unspecified = ascii "urn:oasis:names:tc:SAML:1.1:nameid-format:unspecified"

-- `==` on `Option<&str>`
unfoldable pub same_text : Option Text → Option Text → Bool
same_text none none = true
same_text none (some b) = false
same_text (some a) none = false
same_text (some a) (some b) = text_eq a b

-- `children.iter().filter(|child| child.local_name == name)`
abbrev pub children_named : Text → Nodes → List Node
children_named name no_nodes = []
children_named name (nodes n ns) = elim (text_eq (local_name n) name) [
  | true ↦ n ∷ children_named name ns
  | false ↦ children_named name ns
]

abbrev pub first_of : List Node → Option Node
first_of [] = none
first_of (n ∷ ns) = some n

unfoldable pub direct_assertions : Node → List Node
direct_assertions root = children_named (ascii "Assertion") (children root)

abbrev pub text_of : Option Node → Option Text
text_of none = none
text_of (some n) = some (text n)

unfoldable pub issuer_text : Node → Option Text
issuer_text assertion = text_of (first_of (children_named (ascii "Issuer") (children assertion)))

pub record Principal : Type 0 where
  pub name_id : Text
  pub format : Text
  pub name_qualifier : Option Text
  pub sp_name_qualifier : Option Text

abbrev pub or_unspecified : Option Text → Text
or_unspecified none = unspecified
or_unspecified (some f) = f

abbrev pub principal_from : List Node → Result Principal
principal_from [] = err principal_mismatch
principal_from (n ∷ []) = ok (record {
  name_id = text n;
  format = or_unspecified (attr n (ascii "Format"));
  name_qualifier = attr n (ascii "NameQualifier");
  sp_name_qualifier = attr n (ascii "SPNameQualifier");
})
principal_from (n ∷ m ∷ ns) = err principal_mismatch

abbrev pub principal_in : Option Node → Result Principal
principal_in none = err principal_mismatch
principal_in (some subject) = principal_from (children_named (ascii "NameID") (children subject))

unfoldable pub principal_of : Node → Result Principal
principal_of assertion =
    principal_in (first_of (children_named (ascii "Subject") (children assertion)))

-- `==` on `Principal`
unfoldable pub same_principal : Principal → Principal → Bool
same_principal p q =
    text_eq p.name_id q.name_id
    && text_eq p.format q.format
    && same_text p.name_qualifier q.name_qualifier
    && same_text p.sp_name_qualifier q.sp_name_qualifier

abbrev pub text_or_empty : Option Text → Text
text_or_empty none = []
text_or_empty (some s) = s

abbrev pub expect_issuer : Option Text → Option Text → Run (Unit {0})
expect_issuer none actual = done tt
expect_issuer (some expected) actual =
    require (same_text actual (some expected)) (issuer_mismatch expected actual)

-- The state that the code keeps behind `&mut Option<Option<String>>`.
unfoldable pub remember_same_issuer :
    Option Text → Node → Option (Option Text) → Run (Option (Option Text))
remember_same_issuer expected assertion none = do
  expect_issuer expected (issuer_text assertion)
  done (some (issuer_text assertion))
remember_same_issuer expected assertion (some previous) = do
  expect_issuer expected (issuer_text assertion)
  require (same_text previous (issuer_text assertion))
      (issuer_mismatch (text_or_empty previous) (issuer_text assertion))
  done (some previous)

unfoldable pub remember_same_principal : Node → Option Principal → Run (Option Principal)
remember_same_principal assertion none = do
  principal ← lift (principal_of assertion)
  done (some principal)
remember_same_principal assertion (some previous) = do
  principal ← lift (principal_of assertion)
  require (same_principal previous principal) principal_mismatch
  done (some previous)

-- `values.iter().filter_map(Value::as_str)`
abbrev pub strings : Values → List Text
strings nil = []
strings (cons (str s) vs) = s ∷ strings vs
strings (cons v vs) = strings vs

abbrev pub confirmations_in : Option Value → List Text
confirmations_in (some (str s)) = s ∷ []
confirmations_in (some (array items)) = strings items
confirmations_in _ = []

unfoldable pub subject_confirmation_xmls : Value → List Text
subject_confirmation_xmls extracted = confirmations_in (get extracted (ascii "subjectConfirmation"))
