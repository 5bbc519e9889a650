-- ===== src/Config/Load/Examples.antt =====
-- A run of LoadConfig (conjurapi/config.go), and the theorem about it there.
use conjur_api_go.Url.Router.{is_conjur_cloud_url}
use Prim.Native.String.{String}
use conjur_api_go.Common.{
  pos, negsuc, true, false, Option, none, some, [], ◌∷◌, ◌==◌, ◌≡◌, refl, if◌then◌else◌,
}
use conjur_api_go.Common.Text.{has_prefix, join}
use conjur_api_go.Config.{empty_config, merge}
use conjur_api_go.Config.Merge.{TextField, last_set}
use conjur_api_go.Config.Load.{
  missing, decoded, Sources, load_config, finish, merge_env, env_config, merge_yaml, atoi,
  parse_bool, http_timeout_from_env,
}
use conjur_api_go.Config.Load.Layers.{load_config-layers}
use conjur_api_go.Config.Validate.{absent, apply_defaults}
use conjur_api_go.Storage.{resolve_keychain_namespace, validate_keychain_namespace}
use conjur_api_go.Url.Path.{path_join}

abbrev small_env : String → Option String
small_env name =
    if name == "CONJUR_AUTHN_JWT_SERVICE_ID"
    then some "jwt1"
    else if name == "CONJUR_HTTP_TIMEOUT"
    then some "20"
    else none

abbrev small_sources : Sources
small_sources = record {
  home = "/home/u";
  system_path = "/etc";
  file = λ path.
      if path == "/etc/conjur.conf"
      then decoded
          (record empty_config { ssl_cert_path = "a"; service_id = "s"; environment = "oss" })
          "https://conjur" "dev"
      else if path == "/home/u/.conjurrc"
      then decoded (record empty_config { ssl_cert_path = "b" }) "" ""
      else missing;
  world = record {
    lookup_env = small_env;
    parse_url = λ url. none;
    answers = λ c. none;
    stat = λ path. absent;
    key_pair = λ cert key. none;
    caller = none;
    debug = false;
    shown = λ c. "";
  };
}

load_tests :
    (((load_config small_sources).0.appliance_url ≡ "https://conjur")
      × ((load_config small_sources).0.ssl_cert_path ≡ "b")
      × ((load_config small_sources).0.authn_type ≡ "jwt")
      × ((load_config small_sources).0.http_timeout ≡ pos 20)
      × ((load_config small_sources).0.net_rc_path ≡ "/home/u/.netrc"))
    × (atoi "-12" ≡ some (negsuc 11))
    × (atoi "1x" ≡ none)
    × (parse_bool "True" ≡ some true)
unfolding load_config finish merge_env env_config merge_yaml merge atoi parse_bool apply_defaults
    resolve_keychain_namespace validate_keychain_namespace path_join has_prefix join
    http_timeout_from_env is_conjur_cloud_url
load_tests = ((refl, refl, refl, refl, refl), refl, refl, refl)

load_config-layers_example :
    (load_config small_sources).0.service_id
    ≡ last_set "" ("s" ∷ "" ∷ (env_config small_env).service_id ∷ [])
unfolding load_config finish merge_yaml merge_env path_join has_prefix join
    resolve_keychain_namespace validate_keychain_namespace merge env_config
load_config-layers_example = load_config-layers small_sources TextField.service_id refl refl
