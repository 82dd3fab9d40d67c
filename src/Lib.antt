-- ===== src/Lib.antt =====
-- opensaml_rs: a verification library for the crate `saml-rs` (src/), a SAML 2.0 service and
-- identity provider.
--
-- The crate reads a message from a browser binding or a SOAP envelope, parses and verifies its
-- XML, extracts the fields of interest into a tree of values, and validates them: status codes,
-- time windows, deadlines, identity and replay. The caller supplies the clock, the tolerated skew
-- and the replay cache in a validation context.
--
-- Which file models which part:
--   Prelude: the shared tests, lists, texts (a text is its list of bytes) and integers.
--   Error: `SamlError` of src/error.rs, and `Result` with the `?` operator as a monad.
--   Time: the `time` crate and the platform clock, which are no part of the repository. Instants
--     are nanoseconds since the Unix epoch; parsing and range-checked arithmetic are fields of the
--     record `TimeCrate`, whose laws say that an arithmetic result, where there is one, is exact.
--     `unlimited` meets them.
--   DateTime: src/xml/date_time.rs, every function under its own name. DateTime/Grammar states the
--     lexical form independently, as the rendering of a moment of the calendar of DateTime/Calendar.
--   Validation: src/model/validation.rs. The replay cache of the caller is a state with one
--     operation, an argument of the checks; what the documentation asks of it is the record
--     `IsReplayCache`, which the documented in-memory cache meets (Validation/Minimal). A
--     cache is called at instants of its own clock, taken to be the clock of the context.
--   Value: src/util.rs, the tree of extracted values and its helpers. Keys and paths are texts.
--   Validator: src/validator.rs. `verify_time_at` adds with an operator that panics out of range:
--     the model returns `none` there. The extraction of the status fields from a document is an
--     argument of the status check.
--   Channel, Element: the channel protection of src/soap.rs, and the protocol elements of
--     src/artifact.rs with what is read from them. Texts of these parts are lists of characters; an
--     entity ID is hashed by its UTF-8 bytes (`as_bytes` of Artifact.antt).
--   Base64: the engines of the `base64` crate, which is no part of the repository: decoding undoes
--     encoding, and the alphabet has no whitespace.
--   Sha1: the routine `sha1` of src/artifact.rs on words of 32 bits.
--   Artifact: src/artifact.rs. Artifact.antt has the values and the store, Artifact/Exchange `issue`
--     and `answer`, Artifact/Receiver `resolve` and `finish`. Reading and writing SOAP envelopes are
--     arguments. `answer` is split at its last lines: `reply` decides and writes, `settle` changes
--     the store. Artifact/Refinement has the store as an abstract map.
--   Relay: src/model/relay.rs. A text is the list of its characters, measured in UTF-8 bytes.
--   BrowserBinding: the bindings of src/constants.rs and src/browser/bindings.rs.
--   Run: the three ends of a call of Rust, a value, an error or a panic, for the components that slice
--     texts or add to an `OffsetDateTime`.
--   Xml: src/xml. Xml/Dom has the tree builder of dom.rs, Xml/Extract the path selection and field
--     extraction of extract.rs, Xml/Extract/Fields the field sets of fields.rs. The reader of the
--     `quick-xml` crate is no part of the repository: the events that it reports for a text, with
--     their positions, are an argument. A position out of a text makes the extraction panic; the
--     panic at a position that is no character boundary is left out.
--   Flow: the options of src/flow.rs and the reading of a request parameter.
--   Acceptance: src/assertion_acceptance.rs. Acceptance.antt has issuer and principal, Checks the
--     checks of one assertion with the session bounds of src/model, Conditions the conditions that
--     are not understood, Accept the loop over the assertions, Replays the replay identities.
--     Where no instant is given the process clock is read: it is an argument, the same for all reads
--     of one acceptance.
--   Discovery: src/discovery.rs. base64, `String::from_utf8` and the parser of IPv4 addresses are
--     the fields of the record `Codecs`; Discovery/Percent has the percent encoding.
--   OutstandingLogout: src/model/outstanding_logout.rs, with the name identifier.
--   Redirect: src/binding/redirect.rs. Redirect.antt has the scan for protocol signatures,
--     Redirect/Query the message and the query strings; Redirect/Cut, Ends and Removed say which
--     pieces of the message are cut out. The namespace-aware reader, raw DEFLATE, base64
--     and the form encoding are arguments.
--   Form: src/binding/escape.rs, and the fields and the form of src/binding/post_form.rs.
--   Pending: src/browser/pending.rs, `from_snapshot` and `snapshot` for both kinds of message; the
--     `url` crate is an argument, and a checked identifier is its text.
--
-- Bounds: numbers of the date-time parser are digits, pairs of digits and remainders, which fit
-- their `u8` and `u16`; `parse_two_ascii_digits` of the source multiplies before it knows that both
-- bytes are digits, which the model leaves out. An addition of two `std::time::Duration`s keeps its
-- overflow test. The loop of `sha1` over its chunks runs on fuel, the length of the padded message,
-- which is always enough.
--
-- Not modelled: the reader of XML events, writing XML, canonicalisation, signatures and encryption,
-- deflate, metadata documents, the facades of src/api, templates, and the flows that call the parts
-- above.
pub mod Prelude
pub mod Error
pub mod Time
pub mod Validation
pub mod Value
pub mod Validator
pub mod DateTime
pub mod Channel
pub mod Element
pub mod Base64
pub mod Sha1
pub mod Artifact
pub mod Relay
pub mod Run
pub mod BrowserBinding
pub mod Pending
pub mod Xml
pub mod Flow
pub mod Acceptance
pub mod Discovery
pub mod OutstandingLogout
pub mod Redirect
pub mod Form
