-- ===== src/Calls/Issuers.antt =====
-- Issuers, and authenticators of the first version of the API (conjurapi/issuer.go,
-- conjurapi/authenticators.go). json.Unmarshal behind DataResponse is JSONResponse.
use Prim.Native.String.{String}
use conjur_api_go.Common.{◌>>=◌, ℤ, Bool, Option, none, some, [], ◌∷◌, if◌then◌else◌, Result}
use conjur_api_go.Requests.{Context, Request, new_request, telemetry, route, route_from}
use conjur_api_go.Requests.Authn.{enable_authenticator_request, authenticator_status_request}
use conjur_api_go.Requests.Json.{
  Json, null, number, text, object, Fields, end, field, unless_empty, text_unless_empty, marshal,
}
use conjur_api_go.Session.{Client, Server}
use conjur_api_go.Session.Submit.{Ending, json_call, empty_call}
use conjur_api_go.Url.Escape.{query_escape}
use conjur_api_go.Url.Router.{with_query}
use conjur_api_go.V2.Workloads.{has_no_fields}

-- A nil map is null.
pub record Issuer : Type 0 where
  pub id : String
  pub type_name : String
  pub max_ttl : ℤ
  pub fields : Option Fields
  pub created_at : String
  pub modified_at : String

pub record IssuerUpdate : Type 0 where
  pub max_ttl : Option ℤ
  pub fields : Fields

abbrev map_json : Option Fields → Json
map_json none = null
map_json (some fields) = object fields

unfoldable pub issuer_json : Issuer → Json
issuer_json i = object (
    field "id" (text i.id) (
      field "type" (text i.type_name) (
        field "max_ttl" (number i.max_ttl) (
          field "data" (map_json i.fields) (
            text_unless_empty "created_at" i.created_at
              (text_unless_empty "modified_at" i.modified_at end))))))

abbrev ttl_field : Option ℤ → Fields → Fields
ttl_field none more = more
ttl_field (some n) more = field "max_ttl" (number n) more

unfoldable pub issuer_update_json : IssuerUpdate → Json
issuer_update_json u =
    object
      (ttl_field u.max_ttl (unless_empty (has_no_fields u.fields) "data" (object u.fields) end))

-- issuersURL
unfoldable pub issuers_url : Context → String → String
issuers_url context account = route context ("issuers" ∷ account ∷ [])

abbrev all_issuers : Context → String
all_issuers context = route_from context (issuers_url context context.config.account) []

abbrev one_issuer : Context → String → String
one_issuer context issuer_id =
    route_from context (issuers_url context context.config.account) (query_escape issuer_id ∷ [])

abbrev json_type : String × String
json_type = ("Content-Type", "application/json")

unfoldable pub create_issuer_request : Context → Issuer → Result Request
unfolding issuer_json
create_issuer_request context issuer = do
  body ← marshal (issuer_json issuer)
  new_request context "POST" (all_issuers context) (some body) (telemetry context ∷ json_type ∷ [])

unfoldable pub delete_issuer_request : Context → String → Bool → Result Request
delete_issuer_request context issuer_id keep_secrets =
    new_request context "DELETE"
      (with_query (one_issuer context issuer_id)
        (if keep_secrets then "keep_secrets=true" else "keep_secrets=false"))
      none (telemetry context ∷ [])

unfoldable pub issuer_request : Context → String → Result Request
issuer_request context issuer_id =
    new_request context "GET" (one_issuer context issuer_id) none (telemetry context ∷ [])

unfoldable pub issuers_request : Context → Result Request
issuers_request context =
    new_request context "GET" (all_issuers context) none (telemetry context ∷ [])

unfoldable pub update_issuer_request : Context → String → IssuerUpdate → Result Request
unfolding issuer_update_json
update_issuer_request context issuer_id update = do
  body ← marshal (issuer_update_json update)
  new_request context "PATCH" (one_issuer context issuer_id) (some body)
      (telemetry context ∷ json_type ∷ [])

module _ {W A : Type 0} (server : Server W) (decode : String → Result A) where
  unfoldable pub create_issuer : Issuer → Client W → W → Ending W A
  create_issuer issuer c w =
      json_call server decode c (create_issuer_request (server.context c.config) issuer) w

  -- Issuer
  unfoldable pub read_issuer : String → Client W → W → Ending W A
  read_issuer issuer_id c w =
      json_call server decode c (issuer_request (server.context c.config) issuer_id) w

  -- Issuers; `decode` takes the list out of its envelope.
  unfoldable pub read_issuers : Client W → W → Ending W A
  read_issuers c w = json_call server decode c (issuers_request (server.context c.config)) w

  unfoldable pub update_issuer : String → IssuerUpdate → Client W → W → Ending W A
  update_issuer issuer_id update c w =
      json_call server decode c (update_issuer_request (server.context c.config) issuer_id update) w

  unfoldable pub authenticator_status : String → String → Client W → W → Ending W A
  authenticator_status authenticator_type service_id c w =
      json_call server decode c
        (authenticator_status_request (server.context c.config) authenticator_type service_id) w

module _ {W : Type 0} (server : Server W) where
  unfoldable pub delete_issuer : String → Bool → Client W → W → Ending W (Unit {0})
  delete_issuer issuer_id keep_secrets c w =
      empty_call server c (delete_issuer_request (server.context c.config) issuer_id keep_secrets) w

  unfoldable pub enable_authenticator : String → String → Bool → Client W → W → Ending W (Unit {0})
  enable_authenticator authenticator_type service_id enabled c w =
      empty_call server c
        (enable_authenticator_request (server.context c.config) authenticator_type service_id
          enabled)
        w
