-- ===== src/BrowserBinding.antt =====
-- src/constants.rs: the names of the bindings. src/browser/bindings.rs: the bindings that each
-- browser flow may use.
pub mod Names
mod Tests
use opensaml_rs.Prelude.{
  ◌≡◌, Bool, true, false, Option, none, some, List, [], ◌∷◌, Text, ascii, text_eq, if◌then◌else◌,
}
use opensaml_rs.Error.{
  SamlError, undefined_binding, Binding, redirect, post, simple_sign, artifact, Result, ok, err,
}

unfoldable pub urn : Binding → Text
urn redirect = ascii "urn:oasis:names:tc:SAML:2.0:bindings:HTTP-Redirect"
urn post = ascii "urn:oasis:names:tc:SAML:2.0:bindings:HTTP-POST"
urn simple_sign = ascii "urn:oasis:names:tc:SAML:2.0:bindings:HTTP-POST-SimpleSign"
urn artifact = ascii "urn:oasis:names:tc:SAML:2.0:bindings:HTTP-Artifact"

unfoldable pub short_name : Binding → Text
short_name redirect = ascii "redirect"
short_name post = ascii "post"
short_name simple_sign = ascii "simpleSign"
short_name artifact = ascii "artifact"

unfoldable pub from_short_name : Text → Option Binding
from_short_name name =
    if text_eq name (ascii "redirect")
    then some redirect
    else if text_eq name (ascii "post")
    then some post
    else if text_eq name (ascii "simpleSign")
    then some simple_sign
    else if text_eq name (ascii "artifact")
    then some artifact
    else none

abbrev pub find_urn : List Binding → Text → Option Binding
find_urn [] name = none
find_urn (b ∷ bs) name = if text_eq (urn b) name then some b else find_urn bs name

unfoldable pub from_urn : Text → Option Binding
from_urn name = find_urn (redirect ∷ post ∷ simple_sign ∷ artifact ∷ []) name

pub data SsoRequestBinding : Type 0 where
  request_redirect request_post request_simple_sign : SsoRequestBinding

pub data SsoResponseBinding : Type 0 where
  response_post response_simple_sign : SsoResponseBinding

pub data LogoutBinding : Type 0 where
  logout_redirect logout_post logout_simple_sign : LogoutBinding

-- `as_binding` of the three types.
abbrev pub request_as_binding : SsoRequestBinding → Binding
request_as_binding request_redirect = redirect
request_as_binding request_post = post
request_as_binding request_simple_sign = simple_sign

abbrev pub response_as_binding : SsoResponseBinding → Binding
response_as_binding response_post = post
response_as_binding response_simple_sign = simple_sign

abbrev pub logout_as_binding : LogoutBinding → Binding
logout_as_binding logout_redirect = redirect
logout_as_binding logout_post = post
logout_as_binding logout_simple_sign = simple_sign

-- `try_from` of the three types.
abbrev pub request_try_from : Binding → Result SsoRequestBinding
request_try_from redirect = ok request_redirect
request_try_from post = ok request_post
request_try_from simple_sign = ok request_simple_sign
request_try_from artifact = err undefined_binding

abbrev pub response_try_from : Binding → Result SsoResponseBinding
response_try_from post = ok response_post
response_try_from simple_sign = ok response_simple_sign
response_try_from redirect = err undefined_binding
response_try_from artifact = err undefined_binding

abbrev pub logout_try_from : Binding → Result LogoutBinding
logout_try_from redirect = ok logout_redirect
logout_try_from post = ok logout_post
logout_try_from simple_sign = ok logout_simple_sign
logout_try_from artifact = err undefined_binding
