-- ===== src/Construct/Examples.antt =====
-- Runs of NewClientFromEnvironment (conjurapi/client.go), and the theorem about it there.
use Prim.Native.String.{String}
use conjur_api_go.Common.{false, Option, none, some, ◌==◌, ◌≡◌, refl, ok, err, if◌then◌else◌}
use conjur_api_go.Config.{Config, empty_config}
use conjur_api_go.Config.Validate.{World, absent, validate}
use conjur_api_go.Construct.{
  token, key, oidc, Stored, new_client_from_stored_credentials, choose_authenticator,
  new_client_from_environment,
}
use conjur_api_go.Construct.Chosen.{IsChosen, new_client_from_environment-IsChosen}

abbrev token_env : String → Option String
token_env name = if name == "CONJUR_AUTHN_TOKEN" then some "t" else none

abbrev world_with : (String → Option String) → World
world_with lookup_env = record {
  lookup_env = lookup_env;
  parse_url = λ url. none;
  answers = λ c. none;
  stat = λ path. absent;
  key_pair = λ cert key. none;
  caller = none;
  debug = false;
  shown = λ c. "";
}

abbrev no_env : String → Option String
no_env name = none

abbrev cloud_config : Config
cloud_config = record empty_config {
  appliance_url = "https://conjur";
  account = "dev";
  environment = "saas";
  authn_type = "cloud";
}

abbrev stored_login : String → Config → Stored
stored_login login c = ok (some (ok (login, "pw")))

construct_tests :
    (choose_authenticator token_env (stored_login "host/x" cloud_config) cloud_config
      ≡ ok (token "t"))
    × (choose_authenticator no_env (stored_login "host/x" cloud_config) cloud_config
        ≡ ok (key "authn" "host/x" "pw"))
    × (choose_authenticator no_env (stored_login "[oidc]" cloud_config) cloud_config ≡ ok oidc)
    × (new_client_from_stored_credentials "jwt" (ok none)
        ≡ err "auth type \"jwt\" does not use stored credentials")
unfolding choose_authenticator new_client_from_stored_credentials
construct_tests = (refl, refl, refl, refl)

new_client_from_environment-IsChosen_example :
    IsChosen
      (world_with no_env)
      (stored_login "host/x")
      (validate (world_with no_env) cloud_config).0
      (new_client_from_environment (world_with no_env) (stored_login "host/x") cloud_config)
new_client_from_environment-IsChosen_example =
    new_client_from_environment-IsChosen (world_with no_env) (stored_login "host/x") cloud_config
