-- ===== src/Channel.antt =====
-- src/soap.rs: the protection that the deployment attests for one SOAP exchange.
use opensaml_rs.Prelude.{Bool, true, false, ◌&&◌}

pub data PartyAuthentication : Type 0 where
  mutual_authentication no_authentication : PartyAuthentication

pub data MessageIntegrity : Type 0 where
  integrity_protected no_integrity : MessageIntegrity

pub data MessageConfidentiality : Type 0 where
  confidentiality_protected no_confidentiality : MessageConfidentiality

pub record SoapChannel : Type 0 where
  pub authentication : PartyAuthentication
  pub integrity : MessageIntegrity
  pub confidentiality : MessageConfidentiality

abbrev pub is_mutual : PartyAuthentication → Bool
is_mutual mutual_authentication = true
is_mutual no_authentication = false

abbrev pub is_integrity_protected : MessageIntegrity → Bool
is_integrity_protected integrity_protected = true
is_integrity_protected no_integrity = false

abbrev pub is_confidential : MessageConfidentiality → Bool
is_confidential confidentiality_protected = true
is_confidential no_confidentiality = false

-- src/artifact.rs: `channel_allows`.
abbrev pub channel_allows : SoapChannel → Bool → Bool
channel_allows channel true =
    (is_mutual channel.authentication && is_integrity_protected channel.integrity)
    && is_confidential channel.confidentiality
channel_allows channel false =
    is_mutual channel.authentication && is_integrity_protected channel.integrity
