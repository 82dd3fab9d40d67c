-- ===== src/Acceptance/Example.antt =====
-- A response with two assertions of one issuer about one principal, the first of them with a bearer
-- confirmation, and the reader's events of it and of its parts.
use opensaml_rs.Prelude.{ℕ, none, some, List, [], ◌∷◌, ◌++◌, Text, ascii, text_eq, if◌then◌else◌}
use opensaml_rs.Prelude.Int.{pos}
use opensaml_rs.Time.{TimeCrate, unlimited}
use opensaml_rs.Flow.{FlowOptions, default_options}
use opensaml_rs.Xml.Dom.{PlacedEvent, Event, attribute, start_tag, empty_tag, end_tag, characters}
use opensaml_rs.Acceptance.Conditions.{NsEvent, start_element, empty_element, end_element, ignored}

abbrev pub placed : Event → ℕ → ℕ → PlacedEvent
placed event before after = record { event = event; before = before; after = after }

abbrev protocol_ns : Text
protocol_ns = ascii "urn:oasis:names:tc:SAML:2.0:protocol"

abbrev assertion_ns : Text
assertion_ns = ascii "urn:oasis:names:tc:SAML:2.0:assertion"

abbrev pub confirmation_text : Text
confirmation_text =
    ascii
      "<SubjectConfirmation Method=\"urn:oasis:names:tc:SAML:2.0:cm:bearer\"><SubjectConfirmationData NotOnOrAfter=\"2030\" Recipient=\"acs\"/></SubjectConfirmation>"

abbrev pub restriction_text : Text
restriction_text = ascii "<AudienceRestriction><Audience>sp</Audience></AudienceRestriction>"

abbrev pub first_text : Text
first_text =
    ascii "<Assertion ID=\"a\"><Issuer>idp</Issuer><Subject><NameID>ann</NameID>"
    ++ (confirmation_text
        ++ (ascii "</Subject><Conditions NotBefore=\"2029\">"
            ++ (restriction_text
                ++ ascii
                    "</Conditions><AuthnStatement SessionNotOnOrAfter=\"2030\" SessionIndex=\"s\"/></Assertion>")))

abbrev pub second_text : Text
second_text =
    ascii
      "<Assertion ID=\"b\"><Issuer>idp</Issuer><Subject><NameID>ann</NameID></Subject></Assertion>"

abbrev pub response_text : Text
response_text = ascii "<Response>" ++ (first_text ++ (second_text ++ ascii "</Response>"))

abbrev response_events : List PlacedEvent
response_events =
    placed (start_tag (ascii "Response") ([])) 0 10
    ∷ placed (start_tag (ascii "Assertion") (attribute (ascii "ID") (ascii "a") ∷ [])) 10 28
    ∷ placed (start_tag (ascii "Issuer") ([])) 28 36
    ∷ placed (characters (ascii "idp")) 36 39
    ∷ placed (end_tag) 39 48
    ∷ placed (start_tag (ascii "Subject") ([])) 48 57
    ∷ placed (start_tag (ascii "NameID") ([])) 57 65
    ∷ placed (characters (ascii "ann")) 65 68
    ∷ placed (end_tag) 68 77
    ∷ placed
        (start_tag (ascii "SubjectConfirmation")
          (attribute (ascii "Method") (ascii "urn:oasis:names:tc:SAML:2.0:cm:bearer") ∷ []))
        77 145
    ∷ placed
        (empty_tag (ascii "SubjectConfirmationData") (
          attribute (ascii "NotOnOrAfter") (ascii "2030")
          ∷ attribute (ascii "Recipient") (ascii "acs")
          ∷ []))
        145 207
    ∷ placed (end_tag) 207 229
    ∷ placed (end_tag) 229 239
    ∷ placed (start_tag (ascii "Conditions") (attribute (ascii "NotBefore") (ascii "2029") ∷ []))
        239 268
    ∷ placed (start_tag (ascii "AudienceRestriction") ([])) 268 289
    ∷ placed (start_tag (ascii "Audience") ([])) 289 299
    ∷ placed (characters (ascii "sp")) 299 301
    ∷ placed (end_tag) 301 312
    ∷ placed (end_tag) 312 334
    ∷ placed (end_tag) 334 347
    ∷ placed
        (empty_tag (ascii "AuthnStatement") (
          attribute (ascii "SessionNotOnOrAfter") (ascii "2030")
          ∷ attribute (ascii "SessionIndex") (ascii "s")
          ∷ []))
        347 408
    ∷ placed (end_tag) 408 420
    ∷ placed (start_tag (ascii "Assertion") (attribute (ascii "ID") (ascii "b") ∷ [])) 420 438
    ∷ placed (start_tag (ascii "Issuer") ([])) 438 446
    ∷ placed (characters (ascii "idp")) 446 449
    ∷ placed (end_tag) 449 458
    ∷ placed (start_tag (ascii "Subject") ([])) 458 467
    ∷ placed (start_tag (ascii "NameID") ([])) 467 475
    ∷ placed (characters (ascii "ann")) 475 478
    ∷ placed (end_tag) 478 487
    ∷ placed (end_tag) 487 497
    ∷ placed (end_tag) 497 509
    ∷ placed (end_tag) 509 520
    ∷ []

abbrev first_events : List PlacedEvent
first_events =
    placed (start_tag (ascii "Assertion") (attribute (ascii "ID") (ascii "a") ∷ [])) 0 18
    ∷ placed (start_tag (ascii "Issuer") ([])) 18 26
    ∷ placed (characters (ascii "idp")) 26 29
    ∷ placed (end_tag) 29 38
    ∷ placed (start_tag (ascii "Subject") ([])) 38 47
    ∷ placed (start_tag (ascii "NameID") ([])) 47 55
    ∷ placed (characters (ascii "ann")) 55 58
    ∷ placed (end_tag) 58 67
    ∷ placed
        (start_tag (ascii "SubjectConfirmation")
          (attribute (ascii "Method") (ascii "urn:oasis:names:tc:SAML:2.0:cm:bearer") ∷ []))
        67 135
    ∷ placed
        (empty_tag (ascii "SubjectConfirmationData") (
          attribute (ascii "NotOnOrAfter") (ascii "2030")
          ∷ attribute (ascii "Recipient") (ascii "acs")
          ∷ []))
        135 197
    ∷ placed (end_tag) 197 219
    ∷ placed (end_tag) 219 229
    ∷ placed (start_tag (ascii "Conditions") (attribute (ascii "NotBefore") (ascii "2029") ∷ []))
        229 258
    ∷ placed (start_tag (ascii "AudienceRestriction") ([])) 258 279
    ∷ placed (start_tag (ascii "Audience") ([])) 279 289
    ∷ placed (characters (ascii "sp")) 289 291
    ∷ placed (end_tag) 291 302
    ∷ placed (end_tag) 302 324
    ∷ placed (end_tag) 324 337
    ∷ placed
        (empty_tag (ascii "AuthnStatement") (
          attribute (ascii "SessionNotOnOrAfter") (ascii "2030")
          ∷ attribute (ascii "SessionIndex") (ascii "s")
          ∷ []))
        337 398
    ∷ placed (end_tag) 398 410
    ∷ []

abbrev second_events : List PlacedEvent
second_events =
    placed (start_tag (ascii "Assertion") (attribute (ascii "ID") (ascii "b") ∷ [])) 0 18
    ∷ placed (start_tag (ascii "Issuer") ([])) 18 26
    ∷ placed (characters (ascii "idp")) 26 29
    ∷ placed (end_tag) 29 38
    ∷ placed (start_tag (ascii "Subject") ([])) 38 47
    ∷ placed (start_tag (ascii "NameID") ([])) 47 55
    ∷ placed (characters (ascii "ann")) 55 58
    ∷ placed (end_tag) 58 67
    ∷ placed (end_tag) 67 77
    ∷ placed (end_tag) 77 89
    ∷ []

abbrev confirmation_events : List PlacedEvent
confirmation_events =
    placed
      (start_tag (ascii "SubjectConfirmation")
        (attribute (ascii "Method") (ascii "urn:oasis:names:tc:SAML:2.0:cm:bearer") ∷ []))
      0 68
    ∷ placed
        (empty_tag (ascii "SubjectConfirmationData") (
          attribute (ascii "NotOnOrAfter") (ascii "2030")
          ∷ attribute (ascii "Recipient") (ascii "acs")
          ∷ []))
        68 130
    ∷ placed (end_tag) 130 152
    ∷ []

abbrev restriction_events : List PlacedEvent
restriction_events =
    placed (start_tag (ascii "AudienceRestriction") ([])) 0 21
    ∷ placed (start_tag (ascii "Audience") ([])) 21 31
    ∷ placed (characters (ascii "sp")) 31 33
    ∷ placed (end_tag) 33 44
    ∷ placed (end_tag) 44 66
    ∷ []

abbrev pub example_reader : Text → List PlacedEvent
example_reader source =
    if text_eq source response_text
    then response_events
    else if text_eq source first_text
    then first_events
    else if text_eq source second_text
    then second_events
    else if text_eq source confirmation_text
    then confirmation_events
    else if text_eq source restriction_text
    then restriction_events
    else []

abbrev pub response_ns_events : List NsEvent
response_ns_events =
    start_element (some protocol_ns) (ascii "Response")
    ∷ start_element (some assertion_ns) (ascii "Assertion")
    ∷ start_element (some assertion_ns) (ascii "Issuer")
    ∷ ignored
    ∷ end_element
    ∷ start_element (some assertion_ns) (ascii "Subject")
    ∷ start_element (some assertion_ns) (ascii "NameID")
    ∷ ignored
    ∷ end_element
    ∷ start_element (some assertion_ns) (ascii "SubjectConfirmation")
    ∷ empty_element (some assertion_ns) (ascii "SubjectConfirmationData")
    ∷ end_element
    ∷ end_element
    ∷ start_element (some assertion_ns) (ascii "Conditions")
    ∷ start_element (some assertion_ns) (ascii "AudienceRestriction")
    ∷ start_element (some assertion_ns) (ascii "Audience")
    ∷ ignored
    ∷ end_element
    ∷ end_element
    ∷ end_element
    ∷ empty_element (some assertion_ns) (ascii "AuthnStatement")
    ∷ end_element
    ∷ start_element (some assertion_ns) (ascii "Assertion")
    ∷ start_element (some assertion_ns) (ascii "Issuer")
    ∷ ignored
    ∷ end_element
    ∷ start_element (some assertion_ns) (ascii "Subject")
    ∷ start_element (some assertion_ns) (ascii "NameID")
    ∷ ignored
    ∷ end_element
    ∷ end_element
    ∷ end_element
    ∷ end_element
    ∷ []

abbrev pub example_ns_reader : ℕ → Text → List NsEvent
example_ns_reader bindings source = if text_eq source response_text then response_ns_events else []

-- A clock that reads "2029" and "2030" as the instants 100 and 200.
abbrev pub example_clock : TimeCrate
example_clock = unlimited (λ s.
    if text_eq s (ascii "2029")
    then some (pos 100)
    else if text_eq s (ascii "2030")
    then some (pos 200)
    else none)

abbrev pub example_options : FlowOptions
example_options = record default_options {
  from_issuer = some (ascii "idp");
  expected_audience = some (ascii "sp");
}
