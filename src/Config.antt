-- ===== src/Config.antt =====
-- The configuration and its pure operations (conjurapi/config.go).
mod Examples
pub mod Load
pub mod Merge
pub mod Secrets
pub mod Telemetry
pub mod Timeouts
pub mod Validate
use Prim.Native.String.{String, ◌++◌}
use conjur_api_go.Common.{
  ℕ, ℤ, pos, negsuc, is_negative, is_zero, exceeds, Bool, true, false, ◌==◌, ◌||◌, not,
  if◌then◌else◌,
}
use conjur_api_go.Common.Text.{has_prefix}
use conjur_api_go.Credentials.{merge_credential_storage_mode}

abbrev pub http_timeout_default_value : ℕ
http_timeout_default_value = 60

abbrev pub http_timeout_max_value : ℕ
http_timeout_max_value = 600

pub record Config : Type 0 where
  pub account : String
  pub appliance_url : String
  pub net_rc_path : String
  pub ssl_cert : String
  pub ssl_cert_path : String
  pub authn_type : String
  pub service_id : String
  pub credential_storage : String
  pub credential_storage_mode : String
  pub keychain_namespace : String
  pub jwt_host_id : String
  pub jwt_content : String
  pub jwt_file_path : String
  pub http_timeout : ℤ
  pub disable_keep_alives : Bool
  pub integration_name : String
  pub integration_type : String
  pub integration_version : String
  pub vendor_version : String
  pub vendor_name : String
  pub final_telemetry_header : String
  pub environment : String
  pub proxy : String
  pub conjur_cloud_timeout : ℤ
  pub azure_client_id : String
  pub client_cert_file : String
  pub client_cert_key_file : String
  pub client_cert : String
  pub client_cert_key : String
  pub cert_host_id : String
  pub keychain_namespace_resolved : Bool

-- Config{}
abbrev pub empty_config : Config
empty_config = record {
  account = "";
  appliance_url = "";
  net_rc_path = "";
  ssl_cert = "";
  ssl_cert_path = "";
  authn_type = "";
  service_id = "";
  credential_storage = "";
  credential_storage_mode = "";
  keychain_namespace = "";
  jwt_host_id = "";
  jwt_content = "";
  jwt_file_path = "";
  http_timeout = pos 0;
  disable_keep_alives = false;
  integration_name = "";
  integration_type = "";
  integration_version = "";
  vendor_version = "";
  vendor_name = "";
  final_telemetry_header = "";
  environment = "";
  proxy = "";
  conjur_cloud_timeout = pos 0;
  azure_client_id = "";
  client_cert_file = "";
  client_cert_key_file = "";
  client_cert = "";
  client_cert_key = "";
  cert_host_id = "";
  keychain_namespace_resolved = false;
}

-- IsHttps
unfoldable pub is_https : Config → Bool
is_https c = not (c.ssl_cert_path == "") || not (c.ssl_cert == "")

-- BaseURL
unfoldable pub base_url : Config → String
unfolding is_https
base_url c =
    let prefix =
      if not (has_prefix c.appliance_url "http")
      then (if is_https c then "https://" else "http://")
      else "" in
    prefix ++ c.appliance_url

-- GetHttpTimeout
unfoldable pub get_http_timeout : Config → ℤ
get_http_timeout c =
    if is_negative c.http_timeout || is_zero c.http_timeout
    then pos http_timeout_default_value
    else if exceeds c.http_timeout http_timeout_max_value
    then pos http_timeout_default_value
    else c.http_timeout

-- mergeValue, at the three types at which it is called
unfoldable pub merge_text : String → String → String
merge_text a b = if not (b == "") then b else a

unfoldable pub merge_int : ℤ → ℤ → ℤ
merge_int a b = if not (is_zero b) then b else a

unfoldable pub merge_bool : Bool → Bool → Bool
merge_bool a b = if b then b else a

-- merge: `o` into `c`
unfoldable pub merge : Config → Config → Config
unfolding merge_text merge_int merge_bool
merge c o = record c {
  appliance_url = merge_text c.appliance_url o.appliance_url;
  account = merge_text c.account o.account;
  ssl_cert = merge_text c.ssl_cert o.ssl_cert;
  ssl_cert_path = merge_text c.ssl_cert_path o.ssl_cert_path;
  net_rc_path = merge_text c.net_rc_path o.net_rc_path;
  credential_storage = merge_text c.credential_storage o.credential_storage;
  credential_storage_mode =
      merge_credential_storage_mode c.credential_storage_mode o.credential_storage_mode;
  keychain_namespace = merge_text c.keychain_namespace o.keychain_namespace;
  authn_type = merge_text c.authn_type o.authn_type;
  service_id = merge_text c.service_id o.service_id;
  jwt_host_id = merge_text c.jwt_host_id o.jwt_host_id;
  jwt_content = merge_text c.jwt_content o.jwt_content;
  jwt_file_path = merge_text c.jwt_file_path o.jwt_file_path;
  http_timeout = merge_int c.http_timeout o.http_timeout;
  disable_keep_alives = merge_bool c.disable_keep_alives o.disable_keep_alives;
  environment = merge_text c.environment o.environment;
  proxy = merge_text c.proxy o.proxy;
  azure_client_id = merge_text c.azure_client_id o.azure_client_id;
  client_cert_file = merge_text c.client_cert_file o.client_cert_file;
  client_cert_key_file = merge_text c.client_cert_key_file o.client_cert_key_file;
  client_cert = merge_text c.client_cert o.client_cert;
  client_cert_key = merge_text c.client_cert_key o.client_cert_key;
  cert_host_id = merge_text c.cert_host_id o.cert_host_id;
}

abbrev redacted_text : String → String
redacted_text s = if not (s == "") then "[REDACTED]" else s

-- redacted
unfoldable pub redacted : Config → Config
redacted c = record c {
  client_cert = redacted_text c.client_cert;
  client_cert_key = redacted_text c.client_cert_key;
  jwt_content = redacted_text c.jwt_content;
}

abbrev pub environment_saas : String
environment_saas = "saas"

abbrev pub environment_sh : String
environment_sh = "self-hosted"

abbrev pub environment_oss : String
environment_oss = "oss"

unfoldable pub is_saas : Config → Bool
is_saas c = c.environment == environment_saas

unfoldable pub is_self_hosted : Config → Bool
is_self_hosted c = c.environment == environment_sh

unfoldable pub is_conjur_oss : Config → Bool
is_conjur_oss c = c.environment == environment_oss
