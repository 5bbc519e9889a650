-- ===== src/Config/Secrets.antt =====
-- What the log shows of inline credentials (redacted, conjurapi/config.go).
use Prim.Native.String.{String}
use conjur_api_go.Common.{◌==◌, ◌≡◌, arith, eq_iff}
use conjur_api_go.Config.{Config, redacted}

-- The configuration with other inline credentials.
abbrev pub with_secrets : Config → String → String → String → Config
with_secrets c cert key jwt = record c {
  client_cert = cert;
  client_cert_key = key;
  jwt_content = jwt;
}

-- The redacted configuration, which is all that the printing methods read, does not depend on the
-- inline client certificate, its key and the inline JWT beyond whether each of them is empty.
pub redacted_hides :
    (c : Config) (cert key jwt : String)
    → (cert == "") ≡ (c.client_cert == "")
    → (key == "") ≡ (c.client_cert_key == "")
    → (jwt == "") ≡ (c.jwt_content == "")
    → redacted (with_secrets c cert key jwt) ≡ redacted c
unfolding redacted
redacted_hides c cert key jwt h k j = ground (
  arith,
  eq_iff cert "",
  eq_iff key "",
  eq_iff jwt "",
  eq_iff c.client_cert "",
  eq_iff c.client_cert_key "",
  eq_iff c.jwt_content "",
)
