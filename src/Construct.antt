-- ===== src/Construct.antt =====
-- Which authenticator a client is made with (NewClientFromEnvironment and
-- newClientFromStoredCredentials, conjurapi/client.go).
mod Examples
pub mod Chosen
use Prim.Native.String.{String, ◌++◌}
use conjur_api_go.Common.{
  Bool, true, false, Option, none, some, List, [], ◌∷◌, ◌==◌, ◌&&◌, ◌||◌, not, if◌then◌else◌,
  Result, ok, err,
}
use conjur_api_go.Config.{Config}
use conjur_api_go.Config.Load.{getenv}
use conjur_api_go.Config.Validate.{World, validate}

-- The constructor that is called: NewClientFromTokenFile, NewClientFromToken,
-- newClientFromCertConfig, NewClientFromJwt, NewClientFromKey (with the authenticator of its
-- configuration) and newClientFromStored…
pub data Choice : Type 0 where
  token_file token : String → Choice
  certificate jwt oidc iam azure gcp : Choice
  key : String → String → String → Choice

abbrev pub oidc_storage_marker : String
oidc_storage_marker = "[oidc]"

-- What createStorageProvider gives, and what ReadCredentials gives where there is a provider.
abbrev pub Stored : Type 0
Stored = Result (Option (Result (String × String)))

-- NewClientFromKey uses the standard endpoint in place of that for cloud users.
abbrev pub key_choice : String → String × String → Choice
key_choice authn_type (login, password) =
    key (if authn_type == "cloud" then "authn" else authn_type) login password

cloud_choice : Stored → Result Choice
cloud_choice (err e) = err e
cloud_choice (ok none) = ok oidc
cloud_choice (ok (some (err e))) = ok oidc
cloud_choice (ok (some (ok (login, password)))) =
    if not (login == "") && not (password == "") && not (login == oidc_storage_marker)
    then ok (key_choice "authn" (login, password))
    else ok oidc

abbrev pub no_credentials : String
no_credentials = "No valid credentials found. Please login again."

generic_choice : String → Stored → Result Choice
generic_choice authn_type (err e) = err e
generic_choice authn_type (ok none) = err no_credentials
generic_choice authn_type (ok (some (err e))) = err e
generic_choice authn_type (ok (some (ok (login, password)))) =
    if not (login == "") && not (password == "")
    then ok (key_choice authn_type (login, password))
    else err no_credentials

-- newClientFromStoredCredentials
unfoldable pub new_client_from_stored_credentials : String → Stored → Result Choice
unfolding cloud_choice generic_choice
new_client_from_stored_credentials authn_type stored =
    if authn_type == "oidc"
    then ok oidc
    else if authn_type == "cloud"
    then cloud_choice stored
    else if authn_type == "iam"
    then ok iam
    else if authn_type == "azure"
    then ok azure
    else if authn_type == "gcp"
    then ok gcp
    else if authn_type == "" || authn_type == "ldap" || authn_type == "authn"
    then generic_choice authn_type stored
    else err ("auth type \"" ++ authn_type ++ "\" does not use stored credentials")

-- NewClientFromEnvironment on a configuration that Validate has settled
unfoldable pub choose_authenticator : (String → Option String) → Stored → Config → Result Choice
choose_authenticator lookup_env stored config =
    let authn_token_file = getenv lookup_env "CONJUR_AUTHN_TOKEN_FILE" in
    let authn_token = getenv lookup_env "CONJUR_AUTHN_TOKEN" in
    let login = getenv lookup_env "CONJUR_AUTHN_LOGIN" in
    let api_key = getenv lookup_env "CONJUR_AUTHN_API_KEY" in
    if not (authn_token_file == "")
    then ok (token_file authn_token_file)
    else if not (authn_token == "")
    then ok (token authn_token)
    else if config.authn_type == "cert"
    then ok certificate
    else if not (config.jwt_file_path == "")
        || not (getenv lookup_env "CONJUR_AUTHN_JWT_SERVICE_ID" == "")
    then ok jwt
    else if not (login == "") && not (api_key == "")
    then ok (key_choice config.authn_type (login, api_key))
    else new_client_from_stored_credentials config.authn_type stored

unless_invalid : Option String → Result Choice → Result Choice
unless_invalid none choice = choice
unless_invalid (some e) choice = err e

-- NewClientFromEnvironment, up to the constructor that it calls
unfoldable pub new_client_from_environment : World → (Config → Stored) → Config → Result Choice
unfolding unless_invalid
new_client_from_environment world stored config =
    let (settled, failed) = validate world config in
    unless_invalid failed (choose_authenticator world.lookup_env (stored settled) settled)
