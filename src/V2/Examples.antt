-- ===== src/V2/Examples.antt =====
-- The second version of the API at concrete inputs (conjurapi/branch_v2.go,
-- conjurapi/secrets_batch_v2.go, conjurapi/workload_v2.go and the tests in front of the calls).
use Prim.Native.String.{String}
use conjur_api_go.Common.{
  false, none, some, List, [], ◌∷◌, Result, ok, ◌≡◌, ◌≢◌, ◌↔◌, refl, distinct, All,
}
use conjur_api_go.Common.Text.{
  has_char, has_prefix, has_suffix, contains, split_n, cut, join, trim_prefix, trim_suffix,
}
use conjur_api_go.AuthToken.{done}
use conjur_api_go.Config.{is_saas}
use conjur_api_go.Config.Load.{atoi}
use conjur_api_go.Requests.{Context, Request, itoa, new_request}
use conjur_api_go.Requests.Json.{end, marshal}
use conjur_api_go.Response.{plain, failure}
use conjur_api_go.Session.{Client}
use conjur_api_go.Session.Small.{small_server, small_client}
use conjur_api_go.V2.{not_supported_in_conjur_enterprise, new_v2_json_request, v2_api_header}
use conjur_api_go.V2.Branches.{branch_url}
use conjur_api_go.V2.Branches.Addressed.{IsLiteral, Leads, place, branch_url-Leads}
use conjur_api_go.V2.Gates.{delete_workload_call, SaasOnly-refused, get_authenticator_call}
use conjur_api_go.V2.Authenticators.{get_authenticator, authenticators_too_old}
use conjur_api_go.V2.Gates.Guarded.{Guarded, Versioned-Guarded}
use conjur_api_go.V2.Secrets.{validate_secret_identifiers}
use conjur_api_go.V2.Secrets.Batch.{Kept, Validated, validate_secret_identifiers-Validated}
use conjur_api_go.V2.Workloads.{
  Workload, create_workload_request, delete_workload, workload_api_name, workloads_url,
  workload_json, with_default_type, validate_workload, validate_authn_descriptors,
}
use conjur_api_go.V2.Workloads.Valid.{IsTyped, create_workload_request_iff}
use conjur_api_go.Url.Path.{path_join}
use conjur_api_go.Url.Router.{make_router_url, normalize_base_url, is_conjur_cloud_url}
use conjur_api_go.Version.{verify_min_server_version, validate_min_version}
use conjur_api_go.Version.Small.{small_semver, small_decoding, small_laws, IsPlain-minimum}

abbrev client : Client String
client = small_client false ""

abbrev as_text : String → Result String
as_text s = ok s

abbrev small_context : Context
small_context = small_server.context client.config

SaasOnly-refused_example : delete_workload small_server "data/app" client "held" ≡ (
  done (client, failure (plain (not_supported_in_conjur_enterprise workload_api_name))),
  "held",
)
unfolding is_saas
SaasOnly-refused_example =
    SaasOnly-refused small_server client "held" (delete_workload_call "data/app") refl

-- The server has the version 1.20.0 here.
abbrev old_client : Client String
old_client = record client { conjur_version = "1.20.0" }

old_server_test :
    verify_min_server_version small_server small_decoding small_semver old_client "1.23.0" "held"
    ≡ (
      (old_client, some "Conjur version 1.20.0 is less than the minimum required version 1.23.0"),
      "held",
    )
unfolding verify_min_server_version validate_min_version split_n cut atoi itoa
old_server_test = refl

Versioned-Guarded_example :
    Guarded small_server small_decoding small_semver small_laws old_client "held" "1.23.0"
      authenticators_too_old
      (get_authenticator small_server small_decoding small_semver as_text "authn-jwt" "prod"
        old_client "held")
      (verify_min_server_version small_server small_decoding small_semver old_client "1.23.0"
        "held")
unfolding is_saas
Versioned-Guarded_example =
    Versioned-Guarded small_server small_decoding small_semver small_laws old_client "held"
      (get_authenticator_call as_text "authn-jwt" "prod") refl IsPlain-minimum

data-IsLiteral : IsLiteral "data"
unfolding has_char
data-IsLiteral = (
  (distinct "data" "" refl, distinct "data" "." refl, distinct "data" ".." refl, refl),
  refl,
  refl,
  refl,
)

dev-IsLiteral : IsLiteral "dev"
unfolding has_char
dev-IsLiteral = (
  (distinct "dev" "" refl, distinct "dev" "." refl, distinct "dev" ".." refl, refl),
  refl,
  refl,
  refl,
)

branch_url-Leads_example :
    Leads small_context.parse_url small_context.config.appliance_url
      (place small_context ("data" ∷ "dev" ∷ []))
      (branch_url small_context "data/dev")
unfolding join
branch_url-Leads_example =
    branch_url-Leads small_context "data" ("dev" ∷ []) dev-IsLiteral
      (data-IsLiteral, (dev-IsLiteral, tt))

validate_secret_identifiers-Validated_example :
    (kept : List String) × Kept ("a" ∷ "" ∷ "b" ∷ []) kept
    × Validated kept (validate_secret_identifiers ("a" ∷ "" ∷ "b" ∷ []))
validate_secret_identifiers-Validated_example =
    validate_secret_identifiers-Validated ("a" ∷ "" ∷ "b" ∷ [])

abbrev small_workload : Workload
small_workload = record {
  name = "app";
  branch = "data";
  type_name = "";
  owner = none;
  annotations = [];
  authn_descriptors = (record { type_name = "api_key"; service_id = ""; fields = end }) ∷ [];
  restricted_to = [];
  authentication_source = "";
  identity_source = "";
  created_at = "";
}

abbrev small_request : Request
small_request = record {
  method = "POST";
  url = "https://conjur/workloads";
  body =
      some
        "{\"name\":\"app\",\"branch\":\"data\",\"type\":\"other\",\"authn_descriptors\":[{\"type\":\"api_key\"}]}";
  headers = ("Content-Type", "application/json") ∷ ("Accept", v2_api_header) ∷ [];
  basic = none;
}

create_workload_request_iff_example :
    (create_workload_request small_context small_workload ≡ ok small_request) ↔ (
      (small_workload.branch ≢ "")
      × (small_workload.name ≢ "")
      × (small_workload.authn_descriptors ≢ [])
      × All IsTyped small_workload.authn_descriptors
      × ((body : String) × (marshal (workload_json (with_default_type small_workload)) ≡ ok body)
          × (new_request small_context "POST"
                (workloads_url small_context)
                (some body)
                (("Content-Type", "application/json") ∷ ("Accept", v2_api_header) ∷ [])
              ≡ ok small_request)))
create_workload_request_iff_example =
    create_workload_request_iff small_context small_workload small_request

create_workload_request_test :
    create_workload_request small_context small_workload ≡ ok small_request
unfolding create_workload_request validate_workload validate_authn_descriptors new_v2_json_request
    new_request workload_json make_router_url normalize_base_url path_join marshal join trim_prefix
    trim_suffix is_conjur_cloud_url has_prefix has_suffix contains
create_workload_request_test = refl
