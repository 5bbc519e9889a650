-- ===== src/Calls/Ldap.antt =====
-- Mappings of LDAP groups and users (conjurapi/ldap_mappings.go).
pub mod Addressed
use Prim.Native.String.{String}
use conjur_api_go.Common.{Option, none, some, List, [], ◌∷◌, if◌then◌else◌, Result}
use conjur_api_go.AuthToken.{done}
use conjur_api_go.Requests.{Context, Request, new_request, route}
use conjur_api_go.Requests.Json.{array, object, end, field, texts, print}
use conjur_api_go.Response.{plain, failure}
use conjur_api_go.Session.{Client, Server}
use conjur_api_go.Session.Submit.{Ending, json_call, empty_call}
use conjur_api_go.Url.Escape.{path_escape}
use conjur_api_go.Url.Router.{is_conjur_cloud_url}
use conjur_api_go.V2.{not_supported_in_old_versions}
use conjur_api_go.Version.{Semver, Decoding, verify_min_server_version}

unfoldable pub ldap_group_mapping_url : Context → String → String → String
ldap_group_mapping_url context service_id group_name = route context (
    "authn-ldap"
    ∷ path_escape service_id
    ∷ context.config.account
    ∷ "groups"
    ∷ path_escape group_name
    ∷ [])

unfoldable pub ldap_group_mappings_url : Context → String → String
ldap_group_mappings_url context service_id =
    route context ("authn-ldap" ∷ path_escape service_id ∷ context.config.account ∷ "groups" ∷ [])

unfoldable pub ldap_user_mapping_url : Context → String → String → String
ldap_user_mapping_url context service_id username = route context (
    "authn-ldap"
    ∷ path_escape service_id
    ∷ context.config.account
    ∷ "users"
    ∷ path_escape username
    ∷ [])

unfoldable pub ldap_user_mappings_url : Context → String → String
ldap_user_mappings_url context service_id =
    route context ("authn-ldap" ∷ path_escape service_id ∷ context.config.account ∷ "users" ∷ [])

-- ldapMappingBody; the list of roles is not nil
unfoldable pub ldap_mapping_body : List String → String
ldap_mapping_body roles = print (object (field "roles" (array (texts roles)) end))

abbrev json_type : List (String × String)
json_type = ("Content-Type", "application/json") ∷ []

unfoldable pub ldap_create_group_mapping_request :
    Context → String → String → List String → Result Request
ldap_create_group_mapping_request context service_id group_name roles =
    new_request context "POST" (ldap_group_mapping_url context service_id group_name)
      (some (ldap_mapping_body roles)) json_type

unfoldable pub ldap_show_group_mapping_request : Context → String → String → Result Request
ldap_show_group_mapping_request context service_id group_name =
    new_request context "GET" (ldap_group_mapping_url context service_id group_name) none []

unfoldable pub ldap_list_group_mappings_request : Context → String → Result Request
ldap_list_group_mappings_request context service_id =
    new_request context "GET" (ldap_group_mappings_url context service_id) none []

unfoldable pub ldap_delete_group_mapping_request : Context → String → String → Result Request
ldap_delete_group_mapping_request context service_id group_name =
    new_request context "DELETE" (ldap_group_mapping_url context service_id group_name) none []

unfoldable pub ldap_create_user_mapping_request :
    Context → String → String → List String → Result Request
ldap_create_user_mapping_request context service_id username roles =
    new_request context "POST" (ldap_user_mapping_url context service_id username)
      (some (ldap_mapping_body roles)) json_type

unfoldable pub ldap_show_user_mapping_request : Context → String → String → Result Request
ldap_show_user_mapping_request context service_id username =
    new_request context "GET" (ldap_user_mapping_url context service_id username) none []

unfoldable pub ldap_list_user_mappings_request : Context → String → Result Request
ldap_list_user_mappings_request context service_id =
    new_request context "GET" (ldap_user_mappings_url context service_id) none []

unfoldable pub ldap_delete_user_mapping_request : Context → String → String → Result Request
ldap_delete_user_mapping_request context service_id username =
    new_request context "DELETE" (ldap_user_mapping_url context service_id username) none []

abbrev pub ldap_mappings_min_version : String
ldap_mappings_min_version = "1.28.0"

abbrev ldap_too_old : String
ldap_too_old = not_supported_in_old_versions "LDAP JIT mappings" ldap_mappings_min_version

module _ {W V : Type 0} (server : Server W) (decoding : Decoding) (semver : Semver V) where
  if_new_enough :
      {A : Type 0} → (Client W × Option String) × W → (Client W → W → Ending W A) → Ending W A
  if_new_enough ((c, none), w) next = next c w
  if_new_enough ((c, some e), w) next = (done (c, failure (plain ldap_too_old)), w)

  -- The test at the beginning of every call on mappings, by the address and not by the environment
  unfoldable pub require_mappings :
      {A : Type 0} → Client W → W → (Client W → W → Ending W A) → Ending W A
  unfolding if_new_enough
  require_mappings c w next =
      if is_conjur_cloud_url (server.context c.config).parse_url c.config.appliance_url
      then next c w
      else if_new_enough
          (verify_min_server_version server decoding semver c ldap_mappings_min_version w) next

  module _ {A : Type 0} (decode : String → Result A) where
    unfoldable pub ldap_create_group_mapping :
        String → String → List String → Client W → W → Ending W A
    unfolding require_mappings
    ldap_create_group_mapping service_id group_name roles c w = require_mappings c w (λ d v.
        json_call server decode d
          (ldap_create_group_mapping_request (server.context d.config) service_id group_name roles)
          v)

    unfoldable pub ldap_show_group_mapping : String → String → Client W → W → Ending W A
    unfolding require_mappings
    ldap_show_group_mapping service_id group_name c w = require_mappings c w (λ d v.
        json_call server decode d
          (ldap_show_group_mapping_request (server.context d.config) service_id group_name) v)

    unfoldable pub ldap_list_group_mappings : String → Client W → W → Ending W A
    unfolding require_mappings
    ldap_list_group_mappings service_id c w = require_mappings c w (λ d v.
        json_call server decode d
          (ldap_list_group_mappings_request (server.context d.config) service_id) v)

    unfoldable pub ldap_create_user_mapping :
        String → String → List String → Client W → W → Ending W A
    unfolding require_mappings
    ldap_create_user_mapping service_id username roles c w = require_mappings c w (λ d v.
        json_call server decode d
          (ldap_create_user_mapping_request (server.context d.config) service_id username roles) v)

    unfoldable pub ldap_show_user_mapping : String → String → Client W → W → Ending W A
    unfolding require_mappings
    ldap_show_user_mapping service_id username c w = require_mappings c w (λ d v.
        json_call server decode d
          (ldap_show_user_mapping_request (server.context d.config) service_id username) v)

    unfoldable pub ldap_list_user_mappings : String → Client W → W → Ending W A
    unfolding require_mappings
    ldap_list_user_mappings service_id c w = require_mappings c w (λ d v.
        json_call server decode d
          (ldap_list_user_mappings_request (server.context d.config) service_id) v)

  unfoldable pub ldap_delete_group_mapping : String → String → Client W → W → Ending W (Unit {0})
  unfolding require_mappings
  ldap_delete_group_mapping service_id group_name c w = require_mappings c w (λ d v.
      empty_call server d
        (ldap_delete_group_mapping_request (server.context d.config) service_id group_name) v)

  unfoldable pub ldap_delete_user_mapping : String → String → Client W → W → Ending W (Unit {0})
  unfolding require_mappings
  ldap_delete_user_mapping service_id username c w = require_mappings c w (λ d v.
      empty_call server d
        (ldap_delete_user_mapping_request (server.context d.config) service_id username) v)
