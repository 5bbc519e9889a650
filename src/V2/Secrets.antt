-- ===== src/V2/Secrets.antt =====
-- Static secrets and batches of secrets (conjurapi/secret_static_v2.go,
-- conjurapi/secrets_batch_v2.go).
pub mod Batch
use Prim.Native.String.{String, ◌++◌}
use conjur_api_go.Common.{
  ltb, length, Option, none, some, List, [], ◌∷◌, ◌==◌, if◌then◌else◌, Result, ok, err, ◌>>=◌,
}
use conjur_api_go.Requests.{Context, Request, route}
use conjur_api_go.Requests.Json.{
  Json, text, array, object, Items, nil, item, end, field, unless_empty, text_unless_empty, texts,
  text_fields, is_empty,
}
use conjur_api_go.Session.{Client, Server}
use conjur_api_go.Session.Submit.{Ending, json_call}
use conjur_api_go.V2.{
  new_v2_request, new_v2_json_request, v2_api_header, v2_api_header_beta, account_of, joined,
  error_if, missing, unless_failed, explained, require_saas,
}

pub record Subject : Type 0 where
  pub id : String
  pub kind : String

pub record Permission : Type 0 where
  pub subject : Subject
  pub privileges : List String
  pub href : String

pub record StaticSecret : Type 0 where
  pub branch : String
  pub name : String
  pub mime_type : String
  pub value : String
  pub annotations : List (String × String)
  pub permissions : List Permission

-- The option omitempty of the subject has no effect, since it is a struct.
unfoldable pub permission_json : Permission → Json
permission_json p = object (
    field "subject"
      (object (field "id" (text p.subject.id) (field "kind" (text p.subject.kind) end)))
      (unless_empty (is_empty p.privileges) "privileges" (array (texts p.privileges))
        (text_unless_empty "href" p.href end)))

abbrev permissions_json : List Permission → Items
permissions_json [] = nil
permissions_json (p ∷ ps) = item (permission_json p) (permissions_json ps)

unfoldable pub secret_json : StaticSecret → Json
unfolding permission_json
secret_json s = object (
    field "branch" (text s.branch) (
      field "name" (text s.name) (
        text_unless_empty "mime_type" s.mime_type (
          text_unless_empty "value" s.value (
            unless_empty (is_empty s.annotations) "annotations" (object (text_fields s.annotations))
              (unless_empty (is_empty s.permissions) "permissions"
                (array (permissions_json s.permissions)) end))))))

-- StaticSecret.Validate
unfoldable pub validate_secret : StaticSecret → Option String
validate_secret s = joined (
    error_if (missing (s.branch == "") "Missing required StaticSecret attribute Branch")
      (error_if (missing (s.name == "") "Missing required StaticSecret attribute Name") []))

unfoldable pub create_static_secret_request : Context → StaticSecret → Result Request
unfolding secret_json
create_static_secret_request context secret = unless_failed (validate_secret secret) (
    new_v2_json_request context "POST" (route context ("secrets/static" ∷ [])) (secret_json secret)
      v2_api_header)

unfoldable pub get_static_secret_details_request : Context → String → Result Request
get_static_secret_details_request context identifier =
    if identifier == ""
    then err "Must specify an Identifier"
    else new_v2_request context "GET" (route context (("secrets/static/" ++ identifier) ∷ []))
        v2_api_header

unfoldable pub get_static_secret_permissions_request : Context → String → Result Request
get_static_secret_permissions_request context identifier =
    if identifier == ""
    then err "Must specify an Identifier"
    else new_v2_request context "GET"
        (route context (("secrets/static/" ++ identifier ++ "/permissions") ∷ [])) v2_api_header

-- The loop of ValidateSecretIdentifiers
unfoldable pub without_empty : List String → List String
without_empty [] = []
without_empty (id ∷ ids) = let rest = without_empty ids in if id == "" then rest else id ∷ rest

-- ValidateSecretIdentifiers
unfoldable pub validate_secret_identifiers : List String → Result (List String)
unfolding without_empty
validate_secret_identifiers identifiers =
    let valid_ids = without_empty identifiers in
    if is_empty valid_ids
    then err "Must specify at least one secret identifier"
    else if ltb 250 (length valid_ids)
    then err "Cannot request more than 250 secrets at once"
    else ok valid_ids

-- batchSecretsURL
unfoldable pub batch_secrets_url : Context → String
batch_secrets_url context = route context ("secrets" ∷ account_of context ∷ "values" ∷ [])

unfoldable pub batch_retrieve_secrets_request : Context → List String → Result Request
batch_retrieve_secrets_request context identifiers = do
  valid_ids ← validate_secret_identifiers identifiers
  explained "Failed to create batch retrieve secrets request" (
      new_v2_json_request context "POST" (batch_secrets_url context)
        (object (field "ids" (array (texts valid_ids)) end)) v2_api_header_beta)

abbrev pub static_secret_api_name : String
static_secret_api_name = "StaticSecret API"

abbrev pub batch_retrieve_secrets_api_name : String
batch_retrieve_secrets_api_name = "V2 Batch Retrieve Secrets API"

module _ {W A : Type 0} (server : Server W) (decode : String → Result A) where
  unfoldable pub create_static_secret : StaticSecret → Client W → W → Ending W A
  create_static_secret secret c w =
      require_saas static_secret_api_name c w (
        json_call server decode c (create_static_secret_request (server.context c.config) secret) w)

  unfoldable pub get_static_secret_details : String → Client W → W → Ending W A
  get_static_secret_details identifier c w = require_saas static_secret_api_name c w (
      json_call server decode c
        (get_static_secret_details_request (server.context c.config) identifier) w)

  unfoldable pub get_static_secret_permissions : String → Client W → W → Ending W A
  get_static_secret_permissions identifier c w = require_saas static_secret_api_name c w (
      json_call server decode c
        (get_static_secret_permissions_request (server.context c.config) identifier) w)

  unfoldable pub batch_retrieve_secrets : List String → Client W → W → Ending W A
  batch_retrieve_secrets identifiers c w = require_saas batch_retrieve_secrets_api_name c w (
      json_call server decode c
        (batch_retrieve_secrets_request (server.context c.config) identifiers) w)
