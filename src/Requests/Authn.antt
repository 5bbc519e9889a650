-- ===== src/Requests/Authn.antt =====
-- Requests that authenticate, and those on passwords and API keys (conjurapi/requests.go).
use Prim.Native.String.{String, ◌++◌}
use conjur_api_go.Common.{Bool, none, some, [], ◌∷◌, ◌==◌, not, if◌then◌else◌, Result, ◌>>=◌}
use conjur_api_go.Ids.{parse_id}
use conjur_api_go.Url.Escape.{path_escape, query_escape}
use conjur_api_go.Url.Router.{with_query}
use conjur_api_go.Requests.{
  Context, Request, new_request, new_basic_request, unguarded, telemetry, full, ensure_host_prefix,
  route, route_from, authn_url, oidc_providers_url,
}

-- authn.LoginPair
pub record LoginPair : Type 0 where
  pub login : String
  pub api_key : String

abbrev plain_text : String × String
plain_text = ("Content-Type", "text/plain")

abbrev form : String × String
form = ("Content-Type", "application/x-www-form-urlencoded")

-- The authn URL of the client's own authenticator
abbrev own_url : Context → String
own_url context = authn_url context context.config.authn_type context.config.service_id

unfoldable pub who_am_i_request : Context → Result Request
who_am_i_request context = new_request context "GET" (route context ("whoami" ∷ [])) none []

unfoldable pub login_request : Context → String → String → Result Request
login_request context login password =
    new_basic_request context "GET" (route_from context (own_url context) ("login" ∷ [])) none
      (telemetry context ∷ plain_text ∷ []) (login, password)

unfoldable pub authenticate_request : Context → LoginPair → Result Request
authenticate_request context pair =
    new_request context "POST"
      (route_from context (own_url context) (query_escape pair.login ∷ "authenticate" ∷ []))
      (some pair.api_key) (telemetry context ∷ plain_text ∷ [])

-- createJWTRequestBodyForAuthenticator: the body and its type
unfoldable pub create_jwt_request_body : String → String → String × String
create_jwt_request_body authn_type token =
    if authn_type == "iam"
    then (token, "application/json")
    else ("jwt=" ++ token, "application/x-www-form-urlencoded")

unfoldable pub jwt_authenticate_request : Context → String → String → Result Request
unfolding create_jwt_request_body
jwt_authenticate_request context token host_id =
    let (body, content_type) = create_jwt_request_body context.config.authn_type token in
    new_request context "POST"
      (route_from context (own_url context) (
        if not (host_id == "")
        then path_escape host_id ∷ "authenticate" ∷ []
        else "authenticate" ∷ []))
      (some body) (("Content-Type", content_type) ∷ telemetry context ∷ [])

unfoldable pub list_oidc_providers_request : Context → Result Request
list_oidc_providers_request context = new_request context "GET" (oidc_providers_url context) none []

unfoldable pub server_info_request : Context → Result Request
server_info_request context = new_request context "GET" (route context ("info" ∷ [])) none []

unfoldable pub root_request : Context → Result Request
root_request context =
    new_request context "GET" (route context []) none
      (telemetry context ∷ ("Accept", "application/json, text/html") ∷ [])

unfoldable pub oidc_authenticate_request : Context → String → String → String → Result Request
oidc_authenticate_request context code nonce code_verifier = unguarded (
    new_request context "GET"
      (with_query (route_from context (own_url context) ("authenticate" ∷ []))
        ("code=" ++ code ++ "&nonce=" ++ nonce ++ "&code_verifier=" ++ code_verifier))
      none (telemetry context ∷ []))

unfoldable pub oidc_token_authenticate_request : Context → String → Result Request
oidc_token_authenticate_request context token =
    new_request context "POST" (route_from context (own_url context) ("authenticate" ∷ []))
      (some ("id_token=" ++ token)) (form ∷ telemetry context ∷ [])

unfoldable pub iam_authenticate_request : Context → String → Result Request
unfolding create_jwt_request_body
iam_authenticate_request context signed_headers =
    let (body, content_type) = create_jwt_request_body context.config.authn_type signed_headers in
    new_request context "POST"
      (route_from context (authn_url context "iam" context.config.service_id)
        (query_escape (ensure_host_prefix context.config.jwt_host_id) ∷ "authenticate" ∷ []))
      (some body) (("Content-Type", content_type) ∷ telemetry context ∷ [])

unfoldable pub azure_authenticate_request : Context → String → Result Request
azure_authenticate_request context azure_token =
    jwt_authenticate_request context azure_token (ensure_host_prefix context.config.jwt_host_id)

unfoldable pub gcp_authenticate_request : Context → String → Result Request
gcp_authenticate_request context gcp_token = jwt_authenticate_request context gcp_token ""

unfoldable pub cert_authenticate_request : Context → String → Result Request
cert_authenticate_request context host_id =
    new_request context "POST"
      (route_from context (own_url context) (
        if not (host_id == "")
        then path_escape (ensure_host_prefix host_id) ∷ "authenticate" ∷ []
        else "authenticate" ∷ []))
      none (telemetry context ∷ [])

unfoldable pub rotate_api_key_request : Context → String → Result Request
rotate_api_key_request context role_id = do
  parts ← parse_id context.config.account role_id
  new_request context "PUT"
      (with_query (route_from context (authn_url context "authn" "") ("api_key" ∷ []))
        ("role=" ++ full parts))
      none []

unfoldable pub rotate_current_role_api_key_request : Context → String → String → Result Request
rotate_current_role_api_key_request context login password =
    new_basic_request context "PUT"
      (route_from context (authn_url context "authn" "") ("api_key" ∷ [])) none
      (telemetry context ∷ []) (login, password)

unfoldable pub change_user_password_request : Context → String → String → String → Result Request
change_user_password_request context username password new_password = unguarded (
    new_basic_request context "PUT"
      (route context ("authn" ∷ context.config.account ∷ "password" ∷ [])) (some new_password)
      (telemetry context ∷ []) (username, password))

unfoldable pub public_keys_request : Context → String → String → Result Request
public_keys_request context kind identifier =
    new_request context "GET"
      (route context ("public_keys" ∷ context.config.account ∷ kind ∷ identifier ∷ [])) none []

unfoldable pub enable_authenticator_request : Context → String → String → Bool → Result Request
enable_authenticator_request context authenticator_type service_id enabled =
    new_request context "PATCH" (authn_url context authenticator_type service_id)
      (some ("enabled=" ++ (if enabled then "true" else "false"))) (form ∷ [])

unfoldable pub authenticator_status_request : Context → String → String → Result Request
authenticator_status_request context authenticator_type service_id =
    new_request context "GET"
      (route_from context (authn_url context authenticator_type service_id) ("status" ∷ [])) none []
