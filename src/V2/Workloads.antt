-- ===== src/V2/Workloads.antt =====
-- Workloads (conjurapi/workload_v2.go). Data that varies by type is JSON; maps are lists of their
-- entries in the order of the keys.
pub mod Valid
use Prim.Native.String.{String, ◌++◌}
use conjur_api_go.Common.{
  ℕ, suc, pos, Bool, true, false, Option, none, some, List, [], ◌∷◌, ◌==◌, if◌then◌else◌, Result,
  ok, err, ◌>>=◌,
}
use conjur_api_go.Requests.{Context, Request, itoa, route}
use conjur_api_go.Requests.Json.{
  Json, text, array, object, Items, nil, item, Fields, end, field, unless_empty, text_unless_empty,
  texts, text_fields, is_empty,
}
use conjur_api_go.Session.{Client, Server}
use conjur_api_go.Session.Submit.{Ending, data_call, json_call}
use conjur_api_go.Url.Router.{workload_url}
use conjur_api_go.V2.{
  new_v2_request, new_v2_json_request, v2_api_header, joined, error_if, missing, unless_failed,
  require_saas,
}

pub record AuthnDescriptor : Type 0 where
  pub type_name : String
  pub service_id : String
  pub fields : Fields

-- Owner (conjurapi/branch_v2.go)
pub record Owner : Type 0 where
  pub kind : String
  pub id : String

pub record Workload : Type 0 where
  pub name : String
  pub branch : String
  pub type_name : String
  pub owner : Option Owner
  pub annotations : List (String × String)
  pub authn_descriptors : List AuthnDescriptor
  pub restricted_to : List String
  pub authentication_source : String
  pub identity_source : String
  pub created_at : String

pub record WorkloadFields : Type 0 where
  pub annotations : List (String × String)
  pub authn_descriptors : List AuthnDescriptor
  pub restricted_to : Option (List String)
  pub authentication_source : String

abbrev pub has_no_fields : Fields → Bool
has_no_fields end = true
has_no_fields (field k x more) = false

unfoldable pub descriptor_json : AuthnDescriptor → Json
descriptor_json d = object (
    field "type" (text d.type_name) (
      text_unless_empty "service_id" d.service_id
        (unless_empty (has_no_fields d.fields) "data" (object d.fields) end)))

abbrev descriptors_json : List AuthnDescriptor → Items
descriptors_json [] = nil
descriptors_json (d ∷ ds) = item (descriptor_json d) (descriptors_json ds)

abbrev pub owner_field : Option Owner → Fields → Fields
owner_field none more = more
owner_field (some o) more =
    field "owner" (object (text_unless_empty "kind" o.kind (text_unless_empty "id" o.id end))) more

unfoldable pub workload_json : Workload → Json
unfolding descriptor_json
workload_json w =
    let filled = text_unless_empty "authentication_source" w.authentication_source (
      text_unless_empty "identity_source" w.identity_source
        (text_unless_empty "created_at" w.created_at end)) in
    let restricted = field "authn_descriptors" (array (descriptors_json w.authn_descriptors)) (
      unless_empty (is_empty w.restricted_to) "restricted_to" (array (texts w.restricted_to))
        filled) in
    object (
      field "name" (text w.name) (
        field "branch" (text w.branch) (
          text_unless_empty "type" w.type_name (
            owner_field w.owner (
              unless_empty (is_empty w.annotations) "annotations"
                (object (text_fields w.annotations)) restricted)))))

abbrev restricted_field : Option (List String) → Fields → Fields
restricted_field none more = more
restricted_field (some entries) more = field "restricted_to" (array (texts entries)) more

unfoldable pub fields_json : WorkloadFields → Json
unfolding descriptor_json
fields_json u = object (
    unless_empty (is_empty u.annotations) "annotations" (object (text_fields u.annotations)) (
      unless_empty (is_empty u.authn_descriptors) "authn_descriptors"
        (array (descriptors_json u.authn_descriptors))
        (restricted_field u.restricted_to
          (text_unless_empty "authentication_source" u.authentication_source end))))

-- Workload.Validate
unfoldable pub validate_workload : Workload → Option String
validate_workload w = joined (
    error_if (missing (w.branch == "") "Missing required attribute Workload Branch")
      (error_if (missing (w.name == "") "Missing required attribute Workload Name") []))

untyped : ℕ → List AuthnDescriptor → List String
untyped i [] = []
untyped i (d ∷ ds) =
    error_if
      (missing (d.type_name == "") ("authn_descriptors[" ++ itoa (pos i) ++ "] missing type"))
      (untyped (suc i) ds)

-- validateAuthnDescriptors
unfoldable pub validate_authn_descriptors : List AuthnDescriptor → Option String
unfolding untyped
validate_authn_descriptors ds = joined (untyped 0 ds)

-- validateAsUpdateTarget
unfoldable pub validate_as_update_target : AuthnDescriptor → Option String
validate_as_update_target d = joined (
    error_if (missing (d.type_name == "") "Must specify an authn descriptor type") (
      error_if (missing (d.service_id == "") "Must specify an authn descriptor service ID")
        (error_if (missing (has_no_fields d.fields) "Must specify authn descriptor data") [])))

-- workloadsURL
abbrev pub workloads_url : Context → String
workloads_url context = route context ("workloads" ∷ [])

abbrev url_of : Context → String → List String → Result String
url_of context identifier extra =
    workload_url context.parse_url context.config.appliance_url identifier extra

abbrev pub with_default_type : Workload → Workload
with_default_type w = if w.type_name == "" then record w { type_name = "other" } else w

unfoldable pub create_workload_request : Context → Workload → Result Request
unfolding workload_json
create_workload_request context workload = unless_failed (validate_workload workload) (
    if is_empty workload.authn_descriptors
    then err "Must specify at least one authenticator in authn_descriptors"
    else unless_failed (validate_authn_descriptors workload.authn_descriptors) (
        new_v2_json_request context "POST" (workloads_url context)
          (workload_json (with_default_type workload)) v2_api_header))

unfoldable pub delete_workload_request : Context → String → Result Request
delete_workload_request context identifier = do
  url ← url_of context identifier []
  new_v2_request context "DELETE" url v2_api_header

unfoldable pub get_workload_request : Context → String → Result Request
get_workload_request context identifier = do
  url ← url_of context identifier []
  new_v2_request context "GET" url v2_api_header

unfoldable pub update_workload_request : Context → String → WorkloadFields → Result Request
unfolding fields_json
update_workload_request context identifier update =
    unless_failed (validate_authn_descriptors update.authn_descriptors) (do
      url ← url_of context identifier []
      new_v2_json_request context "PATCH" url (fields_json update) v2_api_header)

unfoldable pub update_authn_descriptor_request : Context → String → AuthnDescriptor → Result Request
update_authn_descriptor_request context identifier d =
    unless_failed (validate_as_update_target d) (do
      url ← url_of context identifier ("authn_descriptors" ∷ d.type_name ∷ d.service_id ∷ [])
      new_v2_json_request context "PATCH" url (object d.fields) v2_api_header)

abbrev pub workload_api_name : String
workload_api_name = "Workload API"

module _ {W : Type 0} (server : Server W) where
  unfoldable pub create_workload : Workload → Client W → W → Ending W String
  create_workload workload c w =
      require_saas workload_api_name c w
        (data_call server c (create_workload_request (server.context c.config) workload) w)

  unfoldable pub delete_workload : String → Client W → W → Ending W String
  delete_workload identifier c w =
      require_saas workload_api_name c w
        (data_call server c (delete_workload_request (server.context c.config) identifier) w)

  unfoldable pub get_workload :
      {A : Type 0} → (String → Result A) → String → Client W → W → Ending W A
  get_workload decode identifier c w =
      require_saas workload_api_name c w
        (json_call server decode c (get_workload_request (server.context c.config) identifier) w)

  unfoldable pub update_workload :
      {A : Type 0} → (String → Result A) → String → WorkloadFields → Client W → W → Ending W A
  update_workload decode identifier update c w = require_saas workload_api_name c w (
      json_call server decode c
        (update_workload_request (server.context c.config) identifier update) w)

  -- The descriptor of the envelope is what `decode` gives.
  unfoldable pub update_authn_descriptor :
      {A : Type 0} → (String → Result A) → String → AuthnDescriptor → Client W → W → Ending W A
  update_authn_descriptor decode identifier d c w = require_saas workload_api_name c w (
      json_call server decode c
        (update_authn_descriptor_request (server.context c.config) identifier d) w)
