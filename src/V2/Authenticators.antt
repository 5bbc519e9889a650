-- ===== src/V2/Authenticators.antt =====
-- Authenticators (conjurapi/requests_v2.go, conjurapi/authenticators.go).
use Prim.Native.String.{String, ◌++◌}
use conjur_api_go.Common.{
  Bool, Option, none, some, List, [], ◌∷◌, ◌==◌, ◌&&◌, not, if◌then◌else◌, Result,
}
use conjur_api_go.Requests.{Context, Request, route}
use conjur_api_go.Requests.Json.{
  Json, null, bool, text, object, Fields, end, field, unless_empty, text_fields, is_empty,
}
use conjur_api_go.Session.{Client, Server}
use conjur_api_go.Session.Submit.{Ending, json_call, empty_call}
use conjur_api_go.V2.{
  new_v2_request, new_v2_json_request, v2_api_header_beta, account_of, explained, require_version,
}
use conjur_api_go.V2.Workloads.{has_no_fields}
use conjur_api_go.Version.{Semver, Decoding}

pub record AuthOwner : Type 0 where
  pub id : String
  pub kind : String

pub record AuthenticatorBase : Type 0 where
  pub type_name : String
  pub subtype : Option String
  pub name : String
  pub enabled : Option Bool
  pub owner : Option AuthOwner
  pub fields : Fields
  pub annotations : List (String × String)

abbrev if_some {ℓ} : {A : Type ℓ} → String → (A → Json) → Option A → Fields → Fields
if_some key json none more = more
if_some key json (some a) more = field key (json a) more

abbrev auth_owner_json : AuthOwner → Json
auth_owner_json o = object (field "id" (text o.id) (field "kind" (text o.kind) end))

abbrev base_json : AuthenticatorBase → Json
base_json a =
    let behind = unless_empty (has_no_fields a.fields) "data" (object a.fields) (
      unless_empty (is_empty a.annotations) "annotations" (object (text_fields a.annotations))
        end) in
    object (
      field "type" (text a.type_name) (
        if_some "subtype" text a.subtype (
          field "name" (text a.name)
            (if_some "enabled" bool a.enabled (if_some "owner" auth_owner_json a.owner behind)))))

-- A pointer, which may be nil
unfoldable pub authenticator_json : Option AuthenticatorBase → Json
authenticator_json none = null
authenticator_json (some a) = base_json a

-- authenticatorsURL
unfoldable pub authenticators_url : Context → String → String → String
authenticators_url context authenticator_type service_id =
    let account = account_of context in
    if authenticator_type == "gcp"
    then route context ("authenticators" ∷ account ∷ authenticator_type ∷ [])
    else if not (authenticator_type == "") && not (authenticator_type == "authn")
    then route context ("authenticators" ∷ account ∷ authenticator_type ∷ service_id ∷ [])
    else route context ("authenticators" ∷ account ∷ [])

unfoldable pub create_authenticator_request : Context → Option AuthenticatorBase → Result Request
unfolding authenticator_json
create_authenticator_request context authenticator =
    explained "failed to marshal authenticator request" (
      new_v2_json_request context "POST" (authenticators_url context "" "")
        (authenticator_json authenticator) v2_api_header_beta)

unfoldable pub get_authenticator_request : Context → String → String → Result Request
get_authenticator_request context authenticator_type service_id =
    new_v2_request context "GET" (authenticators_url context authenticator_type service_id)
      v2_api_header_beta

unfoldable pub update_authenticator_request : Context → String → String → Bool → Result Request
update_authenticator_request context authenticator_type service_id enabled =
    explained "failed to marshal authenticator update request" (
      new_v2_json_request context "PATCH" (authenticators_url context authenticator_type service_id)
        (object (field "enabled" (bool enabled) end)) v2_api_header_beta)

unfoldable pub delete_authenticator_request : Context → String → String → Result Request
delete_authenticator_request context authenticator_type service_id =
    new_v2_request context "DELETE" (authenticators_url context authenticator_type service_id)
      v2_api_header_beta

unfoldable pub list_authenticators_request : Context → Result Request
list_authenticators_request context =
    new_v2_request context "GET" (authenticators_url context "" "") v2_api_header_beta

abbrev pub authenticators_min_version : String
authenticators_min_version = "1.23.0"

abbrev pub authenticators_too_old : String
authenticators_too_old =
    "authenticators API is not supported in Conjur versions older than "
    ++ authenticators_min_version

module _ {W V : Type 0} (server : Server W) (decoding : Decoding) (semver : Semver V) where
  -- The test at the beginning of every call on authenticators
  unfoldable pub require_authenticators :
      {A : Type 0} → Client W → W → (Client W → W → Ending W A) → Ending W A
  require_authenticators c w next =
      require_version server decoding semver authenticators_min_version authenticators_too_old c w
        next

  unfoldable pub create_authenticator :
      {A : Type 0} → (String → Result A) → Option AuthenticatorBase → Client W → W → Ending W A
  unfolding require_authenticators
  create_authenticator decode authenticator c w = require_authenticators c w (λ d v.
      json_call server decode d
        (create_authenticator_request (server.context d.config) authenticator) v)

  unfoldable pub get_authenticator :
      {A : Type 0} → (String → Result A) → String → String → Client W → W → Ending W A
  unfolding require_authenticators
  get_authenticator decode authenticator_type name c w = require_authenticators c w (λ d v.
      json_call server decode d
        (get_authenticator_request (server.context d.config) authenticator_type name) v)

  unfoldable pub update_authenticator :
      {A : Type 0} → (String → Result A) → String → String → Bool → Client W → W → Ending W A
  unfolding require_authenticators
  update_authenticator decode authenticator_type name enabled c w =
      require_authenticators c w (λ d v.
        json_call server decode d
          (update_authenticator_request (server.context d.config) authenticator_type name enabled)
          v)

  unfoldable pub delete_authenticator : String → String → Client W → W → Ending W (Unit {0})
  unfolding require_authenticators
  delete_authenticator authenticator_type name c w = require_authenticators c w (λ d v.
      empty_call server d
        (delete_authenticator_request (server.context d.config) authenticator_type name) v)

  unfoldable pub list_authenticators :
      {A : Type 0} → (String → Result A) → Client W → W → Ending W A
  unfolding require_authenticators
  list_authenticators decode c w =
      require_authenticators c w
        (λ d v. json_call server decode d (list_authenticators_request (server.context d.config)) v)
