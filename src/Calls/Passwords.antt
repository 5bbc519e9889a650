-- ===== src/Calls/Passwords.antt =====
-- Passwords, API keys and public keys, and the calls that authenticate (conjurapi/authn.go).
use Prim.Native.String.{String, ◌++◌}
use conjur_api_go.Common.{
  pos, Bool, Option, none, some, [], ◌&&◌, ◌||◌, not, eqb, if◌then◌else◌, Result, ok, err, ◌>>=◌,
}
use conjur_api_go.Common.Text.{has_prefix, contains}
use conjur_api_go.AuthToken.{Outcome, done, failed, panics}
use conjur_api_go.Ids.{IdParts, parse_id_and_enforce_kind}
use conjur_api_go.Requests.{Context, full, itoa}
use conjur_api_go.Requests.Authn.{
  who_am_i_request, change_user_password_request, rotate_api_key_request,
  rotate_current_role_api_key_request, public_keys_request, list_oidc_providers_request,
  oidc_authenticate_request, oidc_token_authenticate_request, azure_authenticate_request,
  gcp_authenticate_request, jwt_authenticate_request, iam_authenticate_request,
  cert_authenticate_request,
}
use conjur_api_go.Response.{Response, plain, Reply, got, failure, data_response, json_response}
use conjur_api_go.Session.{Store, Client, Server, authenticate_with_token_storage}
use conjur_api_go.Session.Submit.{Ending, data_call, call, plain_call}
use conjur_api_go.Url.Router.{is_conjur_cloud_url}
use conjur_api_go.Version.{failure_text}

abbrev pub not_in_saas : String → String
not_in_saas what = what ++ " is not supported in Idira Secrets Manager, SaaS"

module _ {W : Type 0} (server : Server W) where
  abbrev pub in_saas : Client W → Bool
  in_saas c = is_conjur_cloud_url (server.context c.config).parse_url c.config.appliance_url

  abbrev context_of : Client W → Context
  context_of c = server.context c.config

  unfoldable pub who_am_i : Client W → W → Ending W String
  who_am_i c w = data_call server c (who_am_i_request (context_of c)) w

  unfoldable pub change_user_password : String → String → String → Client W → W → Reply String × W
  change_user_password username password new_password c w =
      if in_saas c
      then (failure (plain (not_in_saas "Change User Password")), w)
      else plain_call server (data_response server.unmarshal)
          (change_user_password_request (context_of c) username password new_password) w

  -- c.storage.ReadCredentials(), which panics without a storage
  read_storage : Option (Store W) → W → Outcome (String × String)
  read_storage none w = panics
  read_storage (some store) w = elim (store.read_credentials w) [
    | ok pair ↦ done pair
    | err e ↦ failed e
  ]

  with_credentials :
      Outcome (String × String)
      → W
      → (String → String → Reply String × W)
      → Outcome (Reply String) × W
  with_credentials (done (login, password)) w next =
      let (reply, w') = next login password in (done reply, w')
  with_credentials (failed e) w next = (failed e, w)
  with_credentials panics w next = (panics, w)

  unfoldable pub change_current_user_password : String → Client W → W → Outcome (Reply String) × W
  unfolding read_storage with_credentials
  change_current_user_password new_password c w =
      with_credentials (read_storage c.storage w) w
        (λ username password. change_user_password username password new_password c w)

  -- RotateAPIKey; RotateAPIKeyReader hands on the same body unread
  unfoldable pub rotate_api_key : String → Client W → W → Ending W String
  rotate_api_key role_id c w = data_call server c (rotate_api_key_request (context_of c) role_id) w

  rotate_role : Client W → W → String → String → Reply String × W
  rotate_role c w role_id password =
      if in_saas c && not (has_prefix role_id "host/")
      then (failure (plain (not_in_saas "Rotate API Key for users")), w)
      else plain_call server (data_response server.unmarshal)
          (rotate_current_role_api_key_request (context_of c) role_id password) w

  -- RotateCurrentRoleAPIKey and RotateCurrentUserAPIKey
  unfoldable pub rotate_current_role_api_key : Client W → W → Outcome (Reply String) × W
  unfolding read_storage with_credentials rotate_role
  rotate_current_role_api_key c w = with_credentials (read_storage c.storage w) w (rotate_role c w)

  rotate_parts : Client W → Result IdParts → W → Ending W String
  rotate_parts c (err e) w = (done (c, failure (plain e)), w)
  rotate_parts c (ok parts) w = rotate_api_key (full parts) c w

  -- rotateApiKeyAndEnforceKind
  unfoldable pub rotate_api_key_and_enforce_kind : String → String → Client W → W → Ending W String
  unfolding rotate_parts
  rotate_api_key_and_enforce_kind role_id kind c w =
      rotate_parts c (parse_id_and_enforce_kind c.config.account role_id kind) w

  unfoldable pub rotate_user_api_key : String → Client W → W → Ending W String
  rotate_user_api_key user_id c w =
      if in_saas c
      then (done (c, failure (plain (not_in_saas "Rotate API Key for users"))), w)
      else rotate_api_key_and_enforce_kind user_id "user" c w

  unfoldable pub rotate_host_api_key : String → Client W → W → Ending W String
  rotate_host_api_key host_id c w = rotate_api_key_and_enforce_kind host_id "host" c w

  -- The end of PublicKeys
  keys_reply : Response → Reply String → Reply String
  keys_reply resp (got keys) = got keys
  keys_reply resp (failure f) =
      if eqb resp.status_code 404 || contains (failure_text f) "No route matches"
      then failure (
          plain (
            "public keys endpoint is not available on this server (got "
            ++ itoa (pos resp.status_code)
            ++ "): the server may not support this feature"))
      else failure f

  unfoldable pub public_keys : String → String → Client W → W → Ending W String
  unfolding keys_reply
  public_keys kind identifier c w =
      if in_saas c
      then (done (c, failure (plain (not_in_saas "Public Keys"))), w)
      else call server (λ resp. keys_reply resp (data_response server.unmarshal resp)) c
          (public_keys_request (context_of c) kind identifier) w

  unfoldable pub list_oidc_providers :
      {A : Type 0} → (String → Result A) → Client W → W → Reply A × W
  list_oidc_providers decode c w =
      if in_saas c
      then (failure (plain (not_in_saas "List OIDC Providers")), w)
      else plain_call server (json_response server.unmarshal decode [])
          (list_oidc_providers_request (context_of c)) w

  unfoldable pub cert_authenticate : String → Client W → W → Reply String × W
  cert_authenticate host_id c w =
      if in_saas c
      then (failure (plain (not_in_saas "Certificate authentication")), w)
      else plain_call server (data_response server.unmarshal)
          (cert_authenticate_request (context_of c) host_id) w

  unfoldable pub oidc_authenticate : String → String → String → Client W → W → Reply String × W
  oidc_authenticate code nonce code_verifier c w =
      authenticate_with_token_storage server c
        (oidc_authenticate_request (context_of c) code nonce code_verifier) w

  unfoldable pub oidc_token_authenticate : String → Client W → W → Reply String × W
  oidc_token_authenticate token c w =
      authenticate_with_token_storage server c
        (oidc_token_authenticate_request (context_of c) token) w

  unfoldable pub azure_authenticate : String → Client W → W → Reply String × W
  azure_authenticate azure_token c w =
      authenticate_with_token_storage server c
        (azure_authenticate_request (context_of c) azure_token) w

  unfoldable pub gcp_authenticate : String → Client W → W → Reply String × W
  gcp_authenticate gcp_token c w =
      authenticate_with_token_storage server c (gcp_authenticate_request (context_of c) gcp_token) w

  unfoldable pub jwt_authenticate : String → String → Client W → W → Reply String × W
  jwt_authenticate token host_id c w =
      authenticate_with_token_storage server c
        (jwt_authenticate_request (context_of c) token host_id) w

  -- IAMAuthenticate and IAMAuthenticateWithCredentials, from the headers that are signed with the
  -- given credentials
  unfoldable pub iam_authenticate : Result String → Client W → W → Reply String × W
  iam_authenticate signed c w =
      authenticate_with_token_storage server c
        (signed >>= λ headers. iam_authenticate_request (context_of c) headers) w
