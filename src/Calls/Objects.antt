-- ===== src/Calls/Objects.antt =====
-- Resources and roles (conjurapi/resource.go, conjurapi/role.go). `decode` is json.Unmarshal into the
-- type of the result.
use Prim.Native.String.{String}
use conjur_api_go.Common.{Bool, true, false, Option, Result, ok, err}
use conjur_api_go.Requests.{Context}
use conjur_api_go.Requests.Objects.{
  ResourceFilter, check_permission_request, check_permission_for_role_request, resource_request,
  resources_request, permitted_roles_request, role_request, role_members_request,
  role_memberships_request,
}
use conjur_api_go.Response.{
  plain, Reply, got, failure, data_response, process_permission_check, exists_check,
}
use conjur_api_go.Session.{Client, Server}
use conjur_api_go.Session.Submit.{Ending, call, json_call}

abbrev pub reply_of : {A : Type 0} → Result A → Reply A
reply_of (ok a) = got a
reply_of (err e) = failure (plain e)

-- What json.Unmarshal leaves, where its error is dropped
abbrev filled : {A : Type 0} → (String → A) → Reply String → Reply A
filled fill (got body) = got (fill body)
filled fill (failure f) = failure f

module _ {W : Type 0} (server : Server W) where
  abbrev pub context_of : Client W → Context
  context_of c = server.context c.config

  unfoldable pub check_permission : String → String → Client W → W → Ending W Bool
  check_permission resource_id privilege c w =
      call server (λ resp. reply_of (process_permission_check resp.status_code)) c
        (check_permission_request (context_of c) resource_id privilege) w

  unfoldable pub check_permission_for_role : String → String → String → Client W → W → Ending W Bool
  check_permission_for_role resource_id role_id privilege c w =
      call server (λ resp. reply_of (process_permission_check resp.status_code)) c
        (check_permission_for_role_request (context_of c) resource_id role_id privilege) w

  unfoldable pub resource_exists : String → Client W → W → Ending W Bool
  resource_exists resource_id c w =
      call server (λ resp. reply_of (exists_check "Resource" resp.status_code)) c
        (resource_request (context_of c) resource_id) w

  unfoldable pub role_exists : String → Client W → W → Ending W Bool
  role_exists role_id c w =
      call server (λ resp. reply_of (exists_check "Role" resp.status_code)) c
        (role_request (context_of c) role_id) w

  module _ {A : Type 0} (decode : String → Result A) where
    -- Resource
    unfoldable pub read_resource : String → Client W → W → Ending W A
    read_resource resource_id c w =
        json_call server decode c (resource_request (context_of c) resource_id) w

    -- Resources
    unfoldable pub read_resources : Option ResourceFilter → Client W → W → Ending W A
    read_resources filter c w =
        json_call server decode c (resources_request (context_of c) filter false) w

    -- Role
    unfoldable pub read_role : String → Client W → W → Ending W A
    read_role role_id c w = json_call server decode c (role_request (context_of c) role_id) w

    unfoldable pub role_members : String → Client W → W → Ending W A
    role_members role_id c w =
        json_call server decode c (role_members_request (context_of c) role_id) w

    -- RoleMemberships, and with `true` RoleMembershipsAll
    unfoldable pub role_memberships : String → Bool → Client W → W → Ending W A
    role_memberships role_id include_all c w =
        json_call server decode c (role_memberships_request (context_of c) role_id include_all) w

  module _ {A : Type 0} (fill : String → A) where
    unfoldable pub resources_count : Option ResourceFilter → Client W → W → Ending W A
    resources_count filter c w =
        call server (λ resp. filled fill (data_response server.unmarshal resp)) c
          (resources_request (context_of c) filter true) w

    unfoldable pub permitted_roles : String → String → Client W → W → Ending W A
    permitted_roles resource_id privilege c w =
        call server (λ resp. filled fill (data_response server.unmarshal resp)) c
          (permitted_roles_request (context_of c) resource_id privilege) w
