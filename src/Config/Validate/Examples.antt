-- ===== src/Config/Validate/Examples.antt =====
-- Runs of Validate (conjurapi/config.go) and of the environment's guess (conjurapi/environment.go),
-- and the theorems about them there.
use conjur_api_go.Common.Text.{trim_suffix, has_suffix, join, to_lower}
use conjur_api_go.Storage.{resolve_keychain_namespace, validate_keychain_namespace}
use Prim.Native.String.{String}
use conjur_api_go.Common.{
  pos, true, false, Option, none, some, ◌≡◌, ◌↔◌, ◌⊎◌, refl, [], ◌∷◌, String,
}
use conjur_api_go.Config.{Config, empty_config, environment_saas, environment_sh, is_saas}
use conjur_api_go.Config.Validate.{World, absent, validate, apply_defaults}
use conjur_api_go.Config.Validate.Settled.{validate_idem}
use conjur_api_go.Config.Validate.Usable.{IsUsable, validate-IsUsable}
use conjur_api_go.Environment.{
  environment_is_supported, unreached, answered, resolve_default_environment, has_api_base_path,
}
use conjur_api_go.Environment.Guess.{Known, resolve_default_environment-Known}
use conjur_api_go.Url.Router.{ParsedUrl, is_conjur_cloud_url}

abbrev no_url : String → Option ParsedUrl
no_url s = none

abbrev small_world : World
small_world = record {
  lookup_env = λ name. none;
  parse_url = no_url;
  answers = λ c. some (unreached, answered 200 true true);
  stat = λ path. absent;
  key_pair = λ cert key. none;
  caller = none;
  debug = false;
  shown = λ c. "";
}

abbrev small_config : Config
small_config = record empty_config {
  appliance_url = "conjur/api";
  account = "dev";
  environment = "OSS";
}

validate-IsUsable_example :
    ((validate small_world small_config).1 ≡ none)
    ↔ IsUsable small_world (validate small_world small_config).0
validate-IsUsable_example = validate-IsUsable small_world small_config

validate_idem_example :
    validate small_world (validate small_world small_config).0 ≡ validate small_world small_config
validate_idem_example = validate_idem small_world small_config tt

resolve_default_environment-Known_example :
    ((is_conjur_cloud_url no_url "https://edge/api" ≡ true)
      × (resolve_default_environment no_url "https://edge/api"
            (some (unreached, answered 404 true false))
          ≡ (environment_saas, true)))
    ⊎ ((is_conjur_cloud_url no_url "https://edge/api" ≡ false)
        × (has_api_base_path "https://edge/api" ≡ false)
        × (resolve_default_environment no_url "https://edge/api"
              (some (unreached, answered 404 true false))
            ≡ (environment_sh, true)))
    ⊎ ((is_conjur_cloud_url no_url "https://edge/api" ≡ false)
        × (has_api_base_path "https://edge/api" ≡ true)
        × Known
            (some (unreached, answered 404 true false))
            (resolve_default_environment no_url "https://edge/api"
              (some (unreached, answered 404 true false))).0
            (resolve_default_environment no_url "https://edge/api"
              (some (unreached, answered 404 true false))).1)
resolve_default_environment-Known_example =
    resolve_default_environment-Known no_url "https://edge/api"
      (some (unreached, answered 404 true false))

-- An environment in capitals is accepted, and then none of the tests for one holds.
validate_tests :
    ((validate small_world small_config).1 ≡ none)
    × (is_saas (record small_config { environment = "SAAS" }) ≡ false)
    × ((validate small_world (record small_config { environment = "x"; http_timeout = pos 900 })).1
        ≡ some
            "HTTPTimeout must be between 1 and 600 seconds -- Environment must be one of [saas self-hosted oss], got 'x'")
    × ((apply_defaults small_world true (record small_config { environment = "" })).1
        ≡ ("environment", "self-hosted") ∷ [])
unfolding validate is_saas validate_keychain_namespace is_conjur_cloud_url
    resolve_keychain_namespace environment_is_supported to_lower join resolve_default_environment
    has_api_base_path has_suffix trim_suffix
validate_tests = (refl, refl, refl, refl)
