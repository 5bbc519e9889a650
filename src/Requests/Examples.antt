-- ===== src/Requests/Examples.antt =====
-- Runs of conjurapi/requests.go, and the theorem about its requests on secrets there.
use Prim.Native.String.{String}
use conjur_api_go.Common.{
  pos, true, Option, none, some, List, [], ◌∷◌, ◌≡◌, ◌≢◌, refl, Result, ok, arith, eq_iff,
}
use conjur_api_go.Common.Text.{
  has_char, has_prefix, has_suffix, contains, join, split_n, trim_prefix, trim_suffix,
}
use conjur_api_go.Config.{empty_config}
use conjur_api_go.Ids.{make_full_id, parse_id}
use conjur_api_go.Ids.Full.{Denotes, Denotes-of_clean}
use conjur_api_go.Requests.{
  secrets_url, resources_url, Context, Request, new_request, authn_url, itoa,
}
use conjur_api_go.Requests.Authn.{authenticate_request}
use conjur_api_go.Requests.Objects.{resources_request}
use conjur_api_go.Requests.Secrets.{retrieve_secret_request, add_secret_request}
use conjur_api_go.Requests.Secrets.Addressed.{IsNamed, LeadsTo, secret_requests-LeadsTo}
use conjur_api_go.Url.Escape.{path_escape, query_escape}
use conjur_api_go.Url.Path.{path_join}
use conjur_api_go.Url.Router.{
  ParsedUrl, make_router_url, normalize_base_url, is_conjur_cloud_url, with_query,
}

abbrev no_url : String → Option ParsedUrl
no_url s = none

abbrev small_context : Context
small_context = record {
  config = record empty_config { account = "dev"; appliance_url = "https://conjur" };
  telemetry_header = "h";
  parse_url = no_url;
  url_error = λ url. none;
}

abbrev request : String → String → Option String → List (String × String) → Result Request
request method url body headers =
    ok (record { method = method; url = url; body = body; headers = headers; basic = none })

request_tests :
    (retrieve_secret_request small_context "a/b"
      ≡ request "GET" "https://conjur/secrets/dev/variable/a%2Fb" none [])
    × (authenticate_request small_context (record { login = "host/x"; api_key = "k" })
        ≡ request "POST" "https://conjur/authn/dev/host%2Fx/authenticate"
            (some "k")
            (("x-cybr-telemetry", "h") ∷ ("Content-Type", "text/plain") ∷ []))
    × (resources_request small_context
          (some
            (record { kind = "host"; search = "a b"; limit = pos 10; offset = pos 0; role = "" }))
          true
        ≡ request "GET" "https://conjur/resources/dev/?count=true&kind=host&limit=10&search=a+b"
            none [])
    × (retrieve_secret_request small_context ".."
        ≡ request "GET" "https://conjur/secrets/dev/." none [])
unfolding retrieve_secret_request authenticate_request resources_request new_request authn_url
    secrets_url resources_url itoa path_escape query_escape make_full_id parse_id make_router_url
    normalize_base_url is_conjur_cloud_url path_join with_query has_prefix has_suffix contains join
    split_n trim_prefix trim_suffix
request_tests = (refl, refl, refl, refl)

dev_named : ◌≢◌ {A = String} "dev" ""
dev_named e = absurd (ground (arith, eq_iff "dev" "", e))

denoted : (i : String) → Denotes "dev" "variable" "a/b" i → IsNamed i
unfolding has_char
denoted i d =
    let same = Denotes-of_clean "dev" "variable" "a/b" i refl d in
    (
      ground (arith, same, eq_iff "a/b" ""),
      ground (arith, same, eq_iff "a/b" "."),
      ground (arith, same, eq_iff "a/b" ".."),
    )

secret_requests-LeadsTo_example :
    (i : String) × Denotes "dev" "variable" "a/b" i
    × LeadsTo small_context i "https://conjur/secrets/dev/variable/a%2Fb"
    × LeadsTo small_context i "https://conjur/secrets/dev/variable/a%2Fb"
    × (◌≡◌ {A = String} "GET" "GET")
    × (◌≡◌ {A = String} "POST" "POST")
    × (◌≡◌ {A = Option String} (some "v") (some "v"))
unfolding retrieve_secret_request add_secret_request new_request path_escape make_full_id parse_id
    make_router_url normalize_base_url is_conjur_cloud_url path_join has_prefix has_suffix contains
    join split_n trim_prefix trim_suffix has_char secrets_url
secret_requests-LeadsTo_example =
    secret_requests-LeadsTo small_context dev_named refl "a/b" denoted "v" refl refl
