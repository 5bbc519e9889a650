-- ===== src/Session/Examples.antt =====
-- Runs of a session (conjurapi/authn.go) whose world is the token that its storage holds, and the
-- theorems about it there.
use Prim.Native.String.{String}
use conjur_api_go.Url.Router.{is_conjur_cloud_url}
use conjur_api_go.Common.{true, false, some, none, [], ◌∷◌, ◌≡◌, refl, err}
use conjur_api_go.AuthToken.{
  done, failed, new_token, from_json, has_field, should_refresh, refresh_after,
}
use conjur_api_go.Credentials.{should_store_credentials}
use conjur_api_go.Requests.{Request, new_basic_request}
use conjur_api_go.Requests.Authn.{login_request}
use conjur_api_go.Response.{got, data_response}
use conjur_api_go.Session.{
  Client, refresh_token, refreshed_client, force_refresh_token, read_cached_access_token,
  adopt_cached_token, needs_token_refresh, internal_authenticate, login, cloud_host_login,
  authenticate_with_token_storage,
}
use conjur_api_go.Session.Small.{small_server, small_client, holding}
use conjur_api_go.Session.Submit.{submit_request}
use conjur_api_go.Session.Submit.Authorized.{Submitted, submit_request-Submitted}
use conjur_api_go.Session.ReadOnly.{
  without_storage, IsStored, read_only-without_storage, internal_authenticate-IsStored,
}

abbrev secret_request : Request
secret_request = record {
  method = "GET";
  url = "https://conjur/secrets";
  body = none;
  headers = ("authorization", "mine") ∷ [];
  basic = none;
}

session_tests :
    (refresh_token small_server (small_client true "") "held"
      ≡ (done (holding (small_client true "") "held"), "held"))
    × (refresh_token small_server (small_client false "") "held"
        ≡ (done (holding (small_client false "") "fetched"), "held"))
    × (internal_authenticate small_server (small_client false "") "held" ≡ (done "held", "held"))
    × (login small_server (small_client false "readwrite") "alice" "pw" "held" ≡ (got "new", "new"))
    × (login small_server (small_client false "readonly") "alice" "pw" "held" ≡ (got "new", "held"))
unfolding refresh_token adopt_cached_token read_cached_access_token needs_token_refresh
    force_refresh_token internal_authenticate login new_token from_json has_field should_refresh
    refresh_after should_store_credentials data_response is_conjur_cloud_url login_request
    new_basic_request
session_tests = (refl, refl, refl, refl, refl)

-- The token of the storage is taken over, and is what the client holds when the refresh then fails.
abbrev failing_client : Client String
failing_client = record (small_client true "") {
  authenticator =
      some (record { refresh_token = λ w. (err "no network", w); needs_token_refresh = λ w. true });
}

refreshed_client_tests :
    ((refresh_token small_server failing_client "held").0 ≡ failed "no network")
    × (refreshed_client small_server failing_client "held" ≡ holding failing_client "held")
unfolding refreshed_client refresh_token adopt_cached_token read_cached_access_token
    needs_token_refresh force_refresh_token new_token from_json has_field should_refresh
    refresh_after
refreshed_client_tests = (refl, refl)

submit_request-Submitted_example :
    Submitted small_server
      (small_client true "")
      secret_request
      "held"
      (submit_request small_server (small_client true "") secret_request "held")
submit_request-Submitted_example =
    submit_request-Submitted small_server (small_client true "") secret_request "held"

read_only-without_storage_example :
    (login small_server (small_client false "readonly") "alice" "pw" "held"
      ≡ login small_server
          (without_storage small_server (small_client false "readonly"))
          "alice"
          "pw"
          "held")
    × (cloud_host_login small_server (small_client false "readonly") "alice" "pw" "held"
        ≡ cloud_host_login small_server
            (without_storage small_server (small_client false "readonly"))
            "alice"
            "pw"
            "held")
    × (authenticate_with_token_storage small_server (small_client false "readonly") (err "e") "held"
        ≡ authenticate_with_token_storage small_server
            (without_storage small_server (small_client false "readonly"))
            (err "e")
            "held")
read_only-without_storage_example =
    read_only-without_storage small_server (small_client false "readonly") "alice" "pw" (err "e")
      "held" refl

internal_authenticate-IsStored_example :
    ((internal_authenticate small_server (small_client false "") "held").1 ≡ "held")
    × IsStored small_server
        (small_client false "")
        "held"
        (internal_authenticate small_server (small_client false "") "held").0
internal_authenticate-IsStored_example =
    internal_authenticate-IsStored small_server (small_client false "") "held" refl
