-- ===== src/Url/Router.antt =====
-- conjurapi/router_url.go: router URLs, and the test for the addresses of Secrets Manager SaaS.
-- `parse_url` is url.Parse: the scheme and the host name, or nothing for an error.
pub mod Segments
use Prim.Native.String.{String, ◌++◌}
use conjur_api_go.Common.{
  Bool, true, false, Option, none, some, List, [], ◌∷◌, ◌==◌, ◌&&◌, ◌||◌, not, if◌then◌else◌,
  Result, ok, err, ◌>>=◌,
}
use conjur_api_go.Common.Text.{has_suffix, trim_suffix, trim_prefix, contains, to_lower}
use conjur_api_go.Url.Path.{path_join}
use conjur_api_go.Url.Escape.{path_escape}

pub record ParsedUrl : Type 0 where
  pub scheme : String
  pub hostname : String

abbrev pub conjur_cloud_suffixes : List String
conjur_cloud_suffixes =
    ".cyberark.cloud" ∷ ".integration-cyberark.cloud" ∷ ".test-cyberark.cloud"
    ∷ ".dev-cyberark.cloud" ∷ ".cyberark-everest-integdev.cloud"
    ∷ ".cyberark-everest-pre-prod.cloud" ∷ ".sandbox-cyberark.cloud" ∷ ".pt-cyberark.cloud" ∷ []

-- (\.secretsmgr|-secretsmanager)(suffix|...)$, which is anchored at the end only
unfoldable pub matches_cloud : List String → String → Bool
matches_cloud [] host = false
matches_cloud (suffix ∷ more) host =
    has_suffix host (".secretsmgr" ++ suffix)
    || has_suffix host ("-secretsmanager" ++ suffix)
    || matches_cloud more host

cloud_url : Option ParsedUrl → Bool
unfolding matches_cloud
cloud_url none = false
cloud_url (some url) =
    if url.scheme == "https"
    then matches_cloud conjur_cloud_suffixes (to_lower url.hostname)
    else false

unfoldable pub is_conjur_cloud_url : (String → Option ParsedUrl) → String → Bool
unfolding cloud_url
is_conjur_cloud_url parse_url base_url = cloud_url (parse_url base_url)

unfoldable pub normalize_base_url : (String → Option ParsedUrl) → String → String
normalize_base_url parse_url base_url =
    let url = trim_suffix base_url "/" in
    if is_conjur_cloud_url parse_url url && not (contains url "/api") then url ++ "/api" else url

unfoldable pub make_router_url : (String → Option ParsedUrl) → String → List String → String
make_router_url parse_url base components =
    normalize_base_url parse_url base ++ "/" ++ trim_prefix (path_join components) "/"

-- withQuery and withFormattedQuery: the formatted text is `query`.
unfoldable pub with_query : String → String → String
with_query url query = url ++ "?" ++ query

abbrev bad_components : String → String
bad_components what = what ++ " components must not be empty, \".\", or \"..\""

unfoldable pub escape_path_segments : String → List String → Result (List String)
escape_path_segments what [] = ok []
escape_path_segments what (s ∷ segments) =
    let rest = escape_path_segments what segments in
    if s == "" || s == "." || s == ".."
    then err (bad_components what)
    else (do more ← rest; ok (path_escape s ∷ more))

-- The path that a request reaches, behind the base URL: workloadURL (conjurapi/workload_v2.go).
unfoldable pub workload_url :
    (String → Option ParsedUrl) → String → String → List String → Result String
workload_url parse_url appliance_url identifier extra =
    if identifier == "" then err "Must specify a Workload ID" else (do
      segments ← escape_path_segments "Workload URL" (identifier ∷ extra)
      ok (make_router_url parse_url appliance_url ("workloads" ∷ segments)))
