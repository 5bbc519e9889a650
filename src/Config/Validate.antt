-- ===== src/Config/Validate.antt =====
-- Validation of a configuration (Validate and applyDefaults, conjurapi/config.go).
mod Examples
pub mod Usable
pub mod Settled
use Prim.Native.String.{String}
use conjur_api_go.Common.{
  Bool, true, false, Option, none, some, List, [], ◌∷◌, ◌++◌, map, ◌==◌, ◌&&◌, ◌||◌, not,
  is_negative, exceeds, if◌then◌else◌,
}
use conjur_api_go.Common.Text.{to_lower, has_prefix, join}
use conjur_api_go.Config.{
  Config, base_url, redacted, http_timeout_max_value, environment_saas, environment_sh,
  environment_oss,
}
use conjur_api_go.Credentials.{CallerDefault, resolve_credential_storage_mode}
use conjur_api_go.Environment.{environment_is_supported, resolve_default_environment, Answers}
use conjur_api_go.Storage.{resolve_keychain_namespace, validate_keychain_namespace}
use conjur_api_go.Url.Router.{ParsedUrl, is_conjur_cloud_url}

-- What os.Stat tells of a path.
pub data Stat : Type 0 where
  present absent denied : Stat
  unknown : String → Stat

-- What validation asks of the world: the environment's variables, url.Parse, the answers of the
-- server that a configuration names, os.Stat, tls.X509KeyPair (an error), the package's default
-- for the storage mode, whether the log is at the debug level, and how a configuration is shown.
pub record World : Type 0 where
  pub lookup_env : String → Option String
  pub parse_url : String → Option ParsedUrl
  pub answers : Config → Answers
  pub stat : String → Stat
  pub key_pair : String → String → Option String
  pub caller : CallerDefault
  pub debug : Bool
  pub shown : Config → String

abbrev pub is_member : List String → String → Bool
is_member [] s = false
is_member (t ∷ ts) s = t == s || is_member ts s

-- supportedAuthnTypes
abbrev pub supported_authn_types : List String
supported_authn_types =
    "authn" ∷ "ldap" ∷ "oidc" ∷ "jwt" ∷ "iam" ∷ "azure" ∷ "gcp" ∷ "cloud" ∷ "cert" ∷ []

-- One test of Validate with its message.
abbrev pub fails : Bool → String → List String
fails true message = message ∷ []
fails false message = []

-- The message of an error, if there is one.
abbrev pub reported : Option String → List String
reported none = []
reported (some e) = e ∷ []

abbrev pub prefixed : String → Option String → Option String
prefixed text none = none
prefixed text (some e) = some (join (text ∷ e ∷ []) "")

-- validateClientCertFilePath: the error, if there is one
unfoldable pub validate_client_cert_file_path : String → String → Stat → Option String
validate_client_cert_file_path label path present = none
validate_client_cert_file_path label path absent =
    some (join (label ∷ " not found: " ∷ path ∷ []) "")
validate_client_cert_file_path label path denied =
    some (join (label ∷ " is not readable: " ∷ path ∷ " (permission denied)" ∷ []) "")
validate_client_cert_file_path label path (unknown e) =
    some (join ("failed to access " ∷ label ∷ ": " ∷ e ∷ []) "")

-- The messages of several tests, in their order.
abbrev pub all_messages : List (List String) → List String
all_messages [] = []
all_messages (m ∷ []) = m
all_messages (m ∷ (n ∷ more)) = m ++ all_messages (n ∷ more)

-- The messages for a file that is looked at.
file_errors : Bool → String → String → Stat → List String
unfolding validate_client_cert_file_path
file_errors looked label path stat =
    if looked then reported (validate_client_cert_file_path label path stat) else []

-- The block of Validate for authn-cert
unfoldable pub cert_errors : World → Config → List String
unfolding file_errors
cert_errors world c = all_messages (
    fails (not (has_prefix (to_lower (base_url c)) "https://"))
      "Certificate authentication requires an HTTPS connection"
    ∷ fails (is_conjur_cloud_url world.parse_url c.appliance_url)
        "Certificate authentication is not supported in Idira Secrets Manager, SaaS"
    ∷ fails (c.client_cert == "" && c.client_cert_file == "")
        "Must specify a client certificate (ClientCert or ClientCertFile) when using cert authentication"
    ∷ fails (c.client_cert_key == "" && c.client_cert_key_file == "")
        "Must specify a client certificate key (ClientCertKey or ClientCertKeyFile) when using cert authentication"
    ∷ fails (not (c.client_cert == "") && not (c.client_cert_file == ""))
        "Must not specify both ClientCert and ClientCertFile when using cert authentication"
    ∷ fails (not (c.client_cert_key == "") && not (c.client_cert_key_file == ""))
        "Must not specify both ClientCertKey and ClientCertKeyFile when using cert authentication"
    ∷ (if not (c.client_cert == "") && not (c.client_cert_key == "")
        then reported (
            prefixed "invalid client certificate or key: "
              (world.key_pair c.client_cert c.client_cert_key))
        else [])
    ∷ file_errors (c.client_cert == "" && not (c.client_cert_file == "")) "client certificate file"
        c.client_cert_file (world.stat c.client_cert_file)
    ∷ file_errors (c.client_cert_key == "" && not (c.client_cert_key_file == ""))
        "client certificate key file" c.client_cert_key_file (world.stat c.client_cert_key_file)
    ∷ [])

-- The authenticators that need a service ID
abbrev pub service_types : List String
service_types = "ldap" ∷ "oidc" ∷ "jwt" ∷ "iam" ∷ "azure" ∷ "cert" ∷ []

-- The messages that Validate collects, in its order.
unfoldable pub validate_errors : World → Config → List String
unfolding cert_errors
validate_errors world c = all_messages (
    reported (validate_keychain_namespace world.lookup_env c.keychain_namespace)
    ∷ fails (c.appliance_url == "") "Must specify an ApplianceURL"
    ∷ fails (c.account == "") "Must specify an Account"
    ∷ fails (c.environment == "") "Must specify an Environment"
    ∷ fails (not (c.authn_type == "") && not (is_member supported_authn_types c.authn_type))
        "AuthnType must be one of [authn ldap oidc jwt iam azure gcp cloud cert]"
    ∷ fails (is_member service_types c.authn_type && c.service_id == "")
        (join ("Must specify a ServiceID when using " ∷ c.authn_type ∷ []) "")
    ∷ fails (c.authn_type == "jwt" && (c.jwt_content == "" && c.jwt_file_path == ""))
        "Must specify a JWT token when using jwt authentication"
    ∷ fails ((c.authn_type == "iam" || c.authn_type == "azure") && c.jwt_host_id == "")
        (join ("Must specify a HostID when using " ∷ c.authn_type ∷ " authentication" ∷ []) "")
    ∷ (if c.authn_type == "cert" then cert_errors world c else [])
    ∷ fails (is_negative c.http_timeout || exceeds c.http_timeout http_timeout_max_value)
        "HTTPTimeout must be between 1 and 600 seconds"
    ∷ fails (not (c.environment == "") && not (environment_is_supported c.environment)) (
        join
          ("Environment must be one of [saas self-hosted oss], got '"
            ∷ to_lower c.environment
            ∷ "'"
            ∷ [])
          "")
    ∷ [])

-- applyDefaults: the configuration, and the lines that AddToConjurRc appends
unfoldable pub apply_defaults : World → Bool → Config → Config × List (String × String)
apply_defaults world persist c =
    let needs_account = is_conjur_cloud_url world.parse_url c.appliance_url && c.account == "" in
    let c1 = if needs_account then record c { account = "conjur" } else c in
    let (environment, persistable) =
      resolve_default_environment world.parse_url c1.appliance_url (world.answers c1) in
    let needs_environment = c1.environment == "" && not (c1.appliance_url == "") in
    (
      if needs_environment then record c1 { environment = environment } else c1,
      (if persist && needs_account then ("account", "conjur") ∷ [] else [])
          ++ (if persist && persistable && needs_environment
              then ("environment", environment) ∷ []
              else []),
    )

-- The assignments that Validate makes before its tests
unfoldable pub settle_config : World → Config → Config
unfolding apply_defaults
settle_config world c =
    let c1 = (apply_defaults world false c).0 in
    let c2 =
      if c1.keychain_namespace_resolved
      then c1
      else resolve_keychain_namespace world.lookup_env true c1 in
    record c2 {
      credential_storage_mode =
          resolve_credential_storage_mode world.lookup_env world.caller c2.credential_storage_mode;
    }

failure : World → Config → List String → Option String
failure world c [] = none
failure world c (e ∷ es) = some (
    join
      ((e ∷ es)
        ++ (if world.debug then join ("config: " ∷ world.shown (redacted c) ∷ []) "" ∷ [] else []))
      " -- ")

-- Validate: the configuration as it leaves it, and the error, if there is one
unfoldable pub validate : World → Config → Config × Option String
unfolding settle_config failure validate_errors
validate world c =
    let settled = settle_config world c in
    (settled, failure world settled (validate_errors world settled))
