-- ===== src/Session/Kept/Examples.antt =====
-- A login over a keyring in memory (conjurapi/authn.go with
-- conjurapi/storage/keyring_storage_provider.go).
use conjur_api_go.Common.{[], false, none, some, ◌≡◌, refl, ok}
use conjur_api_go.Config.{empty_config}
use conjur_api_go.Credentials.{should_store_credentials}
use conjur_api_go.Requests.{new_basic_request}
use conjur_api_go.Requests.Authn.{login_request}
use conjur_api_go.Response.{data_response}
use conjur_api_go.Session.{Client, Server, login}
use conjur_api_go.Session.Kept.{keyring_store, login-Kept}
use conjur_api_go.Storage.Keyring as Keyring
use conjur_api_go.Storage.Keyring.Examples.{
  Memory, memory_backend, memory_laws, empty_memory, example_machine,
}
use conjur_api_go.Url.Router.{is_conjur_cloud_url}

abbrev login_server : Server Memory
login_server = record {
  codec = record {
    string_fields = λ s. none;
    token_fields = λ s. none;
    decode_base64 = λ s. none;
    payload_fields = λ s. none;
  };
  now = λ w. 0;
  base64 = λ s. s;
  send = λ request w.
      (ok (record { status_code = 200; status = "200 OK"; headers = []; body = some "key" }), w);
  context = λ c. record {
    config = c;
    telemetry_header = "h";
    parse_url = λ url. none;
    url_error = λ url. none;
  };
  unmarshal = λ body. record { code = none; message = none; details = none; complete = false };
}

abbrev login_client : Client Memory
login_client = record {
  config = record empty_config { appliance_url = "https://conjur"; account = "dev" };
  auth_token = none;
  authenticator = none;
  storage = some (keyring_store memory_backend example_machine);
  conjur_version = "";
  prefer_cached_token = false;
}

login-Kept_example :
    Keyring.read_credentials memory_backend example_machine
      (login login_server login_client "alice" "secret" empty_memory).1
    ≡ ok ("alice", "key")
unfolding login login_request new_basic_request data_response is_conjur_cloud_url
    should_store_credentials Keyring.store_credentials
login-Kept_example =
    login-Kept login_server memory_backend example_machine memory_laws login_client "alice" "secret"
      "key" empty_memory refl refl refl
