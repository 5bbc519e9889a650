-- ===== src/V2/Branches.antt =====
-- Branches (conjurapi/branch_v2.go).
pub mod Addressed
use Prim.Native.String.{String, ◌++◌}
use conjur_api_go.Common.{
  ℤ, pos, negsuc, zero, suc, Bool, true, false, Option, none, some, List, [], ◌∷◌, ◌==◌,
  if◌then◌else◌, Result, err,
}
use conjur_api_go.Common.Text.{join}
use conjur_api_go.Requests.{Context, Request, itoa, route}
use conjur_api_go.Requests.Json.{
  Json, text, object, Fields, end, field, unless_empty, text_fields, is_empty,
}
use conjur_api_go.Session.{Client, Server}
use conjur_api_go.Session.Submit.{Ending, data_call, json_call}
use conjur_api_go.Url.Escape.{query_escape}
use conjur_api_go.Url.Router.{with_query}
use conjur_api_go.V2.{
  new_v2_request, new_v2_json_request, v2_api_header_beta, account_of, joined, error_if, missing,
  unless_failed, min_version, not_supported_in_old_versions, require_version,
}
use conjur_api_go.V2.Workloads.{Owner, owner_field}
use conjur_api_go.Version.{Semver, Decoding}

pub record Branch : Type 0 where
  pub name : String
  pub owner : Option Owner
  pub branch : String
  pub annotations : List (String × String)

pub record BranchFilter : Type 0 where
  pub limit : ℤ
  pub offset : ℤ

abbrev annotations_field : List (String × String) → Fields → Fields
annotations_field annotations more =
    unless_empty (is_empty annotations) "annotations" (object (text_fields annotations)) more

unfoldable pub branch_json : Branch → Json
branch_json b = object (
    field "name" (text b.name)
      (owner_field b.owner (field "branch" (text b.branch) (annotations_field b.annotations end))))

-- Branch.Validate
unfoldable pub validate_branch : Branch → Option String
validate_branch b = joined (
    error_if (missing (b.branch == "") "Missing required Branch attribute Branch")
      (error_if (missing (b.name == "") "Missing required Branch attribute Name") []))

-- branchURL: the identifier stands in the path as it is
unfoldable pub branch_url : Context → String → String
branch_url context identifier =
    if identifier == ""
    then route context ("branches" ∷ account_of context ∷ [])
    else route context ("branches" ∷ account_of context ∷ identifier ∷ [])

-- branchesURL
unfoldable pub branches_url : Context → String
branches_url context = route context ("branches" ∷ account_of context ∷ [])

unfoldable pub create_branch_request : Context → Branch → Result Request
unfolding branch_json
create_branch_request context branch = unless_failed (validate_branch branch) (
    new_v2_json_request context "POST" (branches_url context) (branch_json branch)
      v2_api_header_beta)

unfoldable pub read_branch_request : Context → String → Result Request
read_branch_request context identifier =
    if identifier == ""
    then err "Must specify an identifier"
    else new_v2_request context "GET" (branch_url context identifier) v2_api_header_beta

abbrev is_positive : ℤ → Bool
is_positive (pos zero) = false
is_positive (pos (suc n)) = true
is_positive (negsuc n) = false

abbrev pair_if : Bool → String → String → List String → List String
pair_if test key value more = if test then (key ++ "=" ++ query_escape value) ∷ more else more

abbrev page_query : Option BranchFilter → String
page_query none = ""
page_query (some f) =
    join
      (pair_if (is_positive f.limit) "limit" (itoa f.limit)
        (pair_if (is_positive f.offset) "offset" (itoa f.offset) []))
      "&"

unfoldable pub read_branches_request : Context → Option BranchFilter → Result Request
read_branches_request context filter =
    let base = branches_url context in
    let encoded = page_query filter in
    new_v2_request context "GET" (if encoded == "" then base else with_query base encoded)
      v2_api_header_beta

unfoldable pub update_branch_request :
    Context → String → Option Owner → List (String × String) → Result Request
update_branch_request context branch_name owner annotations =
    new_v2_json_request context "PATCH" (branch_url context branch_name)
      (object (owner_field owner (annotations_field annotations end))) v2_api_header_beta

unfoldable pub delete_branch_request : Context → String → Result Request
delete_branch_request context identifier =
    if identifier == ""
    then err "Must specify an Identifier"
    else new_v2_request context "DELETE" (branch_url context identifier) v2_api_header_beta

module _ {W V : Type 0} (server : Server W) (decoding : Decoding) (semver : Semver V) where
  -- The test at the beginning of every call on branches
  unfoldable pub require_branches :
      {A : Type 0} → Client W → W → (Client W → W → Ending W A) → Ending W A
  require_branches c w next =
      require_version server decoding semver min_version
        (not_supported_in_old_versions "Branch API" min_version) c w next

  unfoldable pub create_branch :
      {A : Type 0} → (String → Result A) → Branch → Client W → W → Ending W A
  unfolding require_branches
  create_branch decode branch c w =
      require_branches c w (λ d v.
        json_call server decode d (create_branch_request (server.context d.config) branch) v)

  unfoldable pub read_branch :
      {A : Type 0} → (String → Result A) → String → Client W → W → Ending W A
  unfolding require_branches
  read_branch decode identifier c w = require_branches c w (λ d v.
      json_call server decode d (read_branch_request (server.context d.config) identifier) v)

  unfoldable pub read_branches :
      {A : Type 0} → (String → Result A) → Option BranchFilter → Client W → W → Ending W A
  unfolding require_branches
  read_branches decode filter c w =
      require_branches c w (λ d v.
        json_call server decode d (read_branches_request (server.context d.config) filter) v)

  unfoldable pub update_branch : Branch → Client W → W → Ending W String
  unfolding require_branches
  update_branch branch c w = require_branches c w (λ d v.
      data_call server d
        (update_branch_request (server.context d.config) branch.name branch.owner
          branch.annotations)
        v)

  unfoldable pub delete_branch : String → Client W → W → Ending W String
  unfolding require_branches
  delete_branch identifier c w =
      require_branches c w
        (λ d v. data_call server d (delete_branch_request (server.context d.config) identifier) v)
