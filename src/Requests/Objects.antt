-- ===== src/Requests/Objects.antt =====
-- Requests on resources, roles, policies and host factories (conjurapi/requests.go).
use Prim.Native.String.{String, ◌++◌}
use conjur_api_go.Common.{
  ℕ, ℤ, pos, is_zero, Bool, Option, none, some, List, [], ◌∷◌, ◌==◌, not, if◌then◌else◌, Result, ok,
  err, ◌>>=◌,
}
use conjur_api_go.Common.Text.{join}
use conjur_api_go.Ids.{IdParts, parse_id, make_full_id}
use conjur_api_go.Url.Escape.{query_escape}
use conjur_api_go.Url.Router.{with_query}
use conjur_api_go.Requests.{
  Context, Request, new_request, telemetry, full, route_from, itoa, resources_url, roles_url,
  policies_url, create_token_url, create_host_url,
}

-- ResourceFilter (conjurapi/resource.go)
pub record ResourceFilter : Type 0 where
  pub kind : String
  pub search : String
  pub limit : ℤ
  pub offset : ℤ
  pub role : String

-- The URL of one resource or role
abbrev pub object_url : Context → String → IdParts → String
object_url context base (account, kind, id) = route_from context base (kind ∷ query_escape id ∷ [])

abbrev resource_url : Context → IdParts → String
resource_url context parts = object_url context (resources_url context parts.0) parts

abbrev role_url : Context → IdParts → String
role_url context parts = object_url context (roles_url context parts.0) parts

abbrev policy_url : Context → IdParts → String
policy_url context parts = object_url context (policies_url context parts.0) parts

abbrev get : Context → String → Result Request
get context url = new_request context "GET" url none []

unfoldable pub check_permission_request : Context → String → String → Result Request
check_permission_request context resource_id privilege = do
  parts ← parse_id context.config.account resource_id
  get context
      (with_query (resource_url context parts) ("check=true&privilege=" ++ query_escape privilege))

unfoldable pub check_permission_for_role_request :
    Context → String → String → String → Result Request
check_permission_for_role_request context resource_id role_id privilege = do
  parts ← parse_id context.config.account resource_id
  role ← parse_id context.config.account role_id
  get context (
      with_query (resource_url context parts)
        ("check=true&privilege=" ++ query_escape privilege ++ "&role=" ++ query_escape (full role)))

unfoldable pub resource_request : Context → String → Result Request
resource_request context resource_id = do
  parts ← parse_id context.config.account resource_id
  get context (resource_url context parts)

-- query.Add under a condition, before the later pairs
abbrev pair_if : Bool → String → String → List String → List String
pair_if added key value later = if added then (key ++ "=" ++ query_escape value) ∷ later else later

-- url.Values.Encode, which sorts by key
abbrev filter_query : Option ResourceFilter → Bool → String
filter_query none count = join (pair_if count "count" "true" []) "&"
filter_query (some f) count =
    let search = pair_if (not (f.search == "")) "search" f.search [] in
    let offset = pair_if (not (is_zero f.offset)) "offset" (itoa f.offset) search in
    let limit = pair_if (not (is_zero f.limit)) "limit" (itoa f.limit) offset in
    let kind = pair_if (not (f.kind == "")) "kind" f.kind limit in
    let counted = pair_if count "count" "true" kind in
    join (pair_if (not (f.role == "")) "acting_as" f.role counted) "&"

-- resourcesRequest
unfoldable pub resources_request : Context → Option ResourceFilter → Bool → Result Request
resources_request context filter count = get context (
    with_query (route_from context (resources_url context context.config.account) [])
      (filter_query filter count))

unfoldable pub permitted_roles_request : Context → String → String → Result Request
permitted_roles_request context resource_id privilege = do
  parts ← parse_id context.config.account resource_id
  get context (
      with_query (resource_url context parts)
        ("permitted_roles=true&privilege=" ++ query_escape privilege))

unfoldable pub role_request : Context → String → Result Request
role_request context role_id = do
  parts ← parse_id context.config.account role_id
  get context (role_url context parts)

unfoldable pub role_members_request : Context → String → Result Request
role_members_request context role_id = do
  parts ← parse_id context.config.account role_id
  get context (with_query (role_url context parts) "members")

unfoldable pub role_memberships_request : Context → String → Bool → Result Request
role_memberships_request context role_id include_all = do
  parts ← parse_id context.config.account role_id
  get context (with_query (role_url context parts) (if include_all then "all" else "memberships"))

-- PolicyMode (conjurapi/policy.go)
pub data PolicyMode : Type 0 where
  policy_mode_post policy_mode_put policy_mode_patch : PolicyMode
  policy_mode_other : ℕ → PolicyMode

abbrev policy_method : PolicyMode → Result String
policy_method policy_mode_post = ok "POST"
policy_method policy_mode_patch = ok "PATCH"
policy_method policy_mode_put = ok "PUT"
policy_method (policy_mode_other n) = err ("Invalid PolicyMode: " ++ itoa (pos n))

unfoldable pub load_policy_request : Context → PolicyMode → String → String → Bool → Result Request
load_policy_request context mode policy_id policy validate = do
  parts ← parse_id context.config.account (make_full_id context.config.account "policy" policy_id)
  method ← policy_method mode
  new_request context method
      (if validate
        then with_query (policy_url context parts) "dryRun=true"
        else policy_url context parts)
      (some policy) []

-- fetchPolicyRequest
unfoldable pub fetch_policy_request : Context → String → Bool → ℕ → ℕ → Result Request
fetch_policy_request context policy_id return_json depth limit = do
  parts ← parse_id context.config.account (make_full_id context.config.account "policy" policy_id)
  new_request context "GET"
      (with_query (policy_url context parts) (
        "depth="
        ++ query_escape (itoa (pos depth))
        ++ "&limit="
        ++ query_escape (itoa (pos limit))))
      none
      (("Content-Type", if return_json then "application/json" else "application/x-yaml")
        ∷ telemetry context
        ∷ [])

abbrev form : String × String
form = ("Content-Type", "application/x-www-form-urlencoded")

unfoldable pub create_token_request : Context → String → Result Request
create_token_request context body =
    new_request context "POST" (create_token_url context) (some body)
      (form ∷ telemetry context ∷ [])

unfoldable pub delete_token_request : Context → String → Result Request
delete_token_request context token =
    new_request context "DELETE" (create_token_url context ++ "/" ++ token) none
      (form ∷ telemetry context ∷ [])

unfoldable pub create_host_request : Context → String → String → Result Request
create_host_request context body token =
    new_request context "POST" (create_host_url context) (some body)
      (form ∷ ("Authorization", "Token token=\"" ++ token ++ "\"") ∷ telemetry context ∷ [])
