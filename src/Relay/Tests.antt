-- ===== src/Relay/Tests.antt =====
-- Inputs at which the theorems on src/model/relay.rs apply.
use opensaml_rs.Prelude.{[], ◌∷◌, Text}

abbrev token : Text
token = b't' ∷ []
