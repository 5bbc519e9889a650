-- ===== src/Requests/Secrets.antt =====
-- Requests on secrets (conjurapi/requests.go).
pub mod Addressed
use Prim.Native.String.{String, ◌++◌}
use conjur_api_go.Common.{
  ℤ, Bool, true, false, Option, none, some, List, [], ◌∷◌, map, if◌then◌else◌, Result, ok, err,
  ◌>>=◌,
}
use conjur_api_go.Common.Text.{join}
use conjur_api_go.Ids.{IdParts, parse_id, make_full_id}
use conjur_api_go.Url.Escape.{path_escape, query_escape}
use conjur_api_go.Url.Router.{with_query}
use conjur_api_go.Requests.{
  Context, Request, new_request, telemetry, route_from, itoa, secrets_url, global_secrets_url,
}

abbrev pub secret_url : Context → IdParts → String
secret_url context (account, kind, id) =
    route_from context (secrets_url context account) (kind ∷ path_escape id ∷ [])

-- variableURL
unfoldable pub variable_url : Context → String → Result String
variable_url context variable_id = do
  parts ← parse_id context.config.account variable_id
  ok (secret_url context parts)

-- variableWithVersionURL
unfoldable pub variable_with_version_url : Context → String → ℤ → Result String
variable_with_version_url context variable_id version = do
  parts ← parse_id context.config.account variable_id
  ok (with_query (secret_url context parts) ("version=" ++ itoa version))

-- batchVariableURL
unfoldable pub batch_variable_url : Context → List String → String
batch_variable_url context variable_ids =
    with_query (route_from context (global_secrets_url context) [])
      ("variable_ids=" ++ query_escape (join variable_ids ","))

abbrev pub full_variable_id : Context → String → String
full_variable_id context variable_id = make_full_id context.config.account "variable" variable_id

unfoldable pub retrieve_batch_secrets_request : Context → List String → Bool → Result Request
unfolding batch_variable_url
retrieve_batch_secrets_request context variable_ids base64_flag =
    new_request context "GET"
      (batch_variable_url context (map (full_variable_id context) variable_ids)) none
      (if base64_flag then ("Accept-Encoding", "base64") ∷ [] else [])

unfoldable pub retrieve_secret_request : Context → String → Result Request
unfolding variable_url
retrieve_secret_request context variable_id = do
  url ← variable_url context (full_variable_id context variable_id)
  new_request context "GET" url none []

unfoldable pub retrieve_secret_with_version_request : Context → String → ℤ → Result Request
unfolding variable_with_version_url
retrieve_secret_with_version_request context variable_id version = do
  url ← variable_with_version_url context (full_variable_id context variable_id) version
  new_request context "GET" url none []

unfoldable pub add_secret_request : Context → String → String → Result Request
unfolding variable_url
add_secret_request context variable_id secret_value = do
  url ← variable_url context (full_variable_id context variable_id)
  new_request context "POST" url (some secret_value)
      (("Content-Type", "application/x-www-form-urlencoded") ∷ telemetry context ∷ [])
