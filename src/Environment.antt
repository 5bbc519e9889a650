-- ===== src/Environment.antt =====
-- The kind of server a configuration is for (conjurapi/environment.go), with the probes of
-- conjurapi/info.go that guess it. `parse_url` is url.Parse.
pub mod Guess
use Prim.Native.String.{String, ◌++◌}
use conjur_api_go.Common.{
  ℕ, Bool, true, false, Option, none, some, ◌==◌, ◌&&◌, ◌||◌, not, leb, eqb, if◌then◌else◌, Result,
  ok, err,
}
use conjur_api_go.Common.Text.{to_lower, trim_suffix, has_suffix}
use conjur_api_go.Config.{environment_saas, environment_sh, environment_oss}
use conjur_api_go.Url.Router.{ParsedUrl, is_conjur_cloud_url}

-- FullName
unfoldable pub full_name : String → String
full_name e =
    if e == environment_saas
    then "Idira Secrets Manager, SaaS"
    else if e == environment_sh
    then "Idira Secrets Manager, Self-Hosted"
    else if e == environment_oss
    then "Conjur Open Source"
    else "Unknown Environment"

-- EnvironmentType.Set: the new value.
unfoldable pub set_environment : String → Result String
set_environment value =
    if value == environment_sh || value == "CE" || value == "enterprise"
    then ok environment_sh
    else if value == environment_oss || value == "OSS" || value == "open-source"
    then ok environment_oss
    else if value == environment_saas || value == "cloud" || value == "CC"
    then ok environment_saas
    else err ("invalid value environment: " ++ value ++ ", allowed values [saas self-hosted oss]")

-- environmentIsSupported
unfoldable pub environment_is_supported : String → Bool
environment_is_supported environment =
    let lowered = to_lower environment in
    lowered == environment_saas || lowered == environment_sh || lowered == environment_oss

-- hasAPIBasePath
unfoldable pub has_api_base_path : String → Bool
has_api_base_path base_url = has_suffix (trim_suffix base_url "/") "/api"

-- What a probe of an endpoint meets: no answer (or no request), or an answer with its status,
-- whether its body can be read, and whether the body has the form expected.
pub data Answer : Type 0 where
  unreached : Answer
  answered : ℕ → Bool → Bool → Answer

-- probeEnterpriseInfoEndpoint: reachable, success
unfoldable pub probe_enterprise_info_endpoint : Answer → Bool × Bool
probe_enterprise_info_endpoint unreached = (false, false)
probe_enterprise_info_endpoint (answered status readable parsed) =
    if eqb status 404 || eqb status 401
    then (true, false)
    else if leb 300 status
    then (true, false)
    else if not readable
    then (true, false)
    else if not parsed
    then (true, false)
    else (true, true)

-- probeRootVersionEndpoint: reachable, success
unfoldable pub probe_root_version_endpoint : Answer → Bool × Bool
probe_root_version_endpoint unreached = (false, false)
probe_root_version_endpoint (answered status readable parsed) =
    if leb 300 status
    then (true, false)
    else if not readable
    then (true, false)
    else if not parsed
    then (true, false)
    else (true, true)

-- classifySelfHostedSurface, from the answers of /info and of the root: hasSurface, confident
unfoldable pub classify_self_hosted_surface :
    (String → Option ParsedUrl) → String → Answer → Answer → Bool × Bool
unfolding probe_enterprise_info_endpoint probe_root_version_endpoint
classify_self_hosted_surface parse_url appliance_url info root =
    if is_conjur_cloud_url parse_url appliance_url
    then (false, true)
    else (let (info_reachable, info_success) = probe_enterprise_info_endpoint info in
        let (root_reachable, root_success) = probe_root_version_endpoint root in
        if info_success
        then (true, true)
        else if root_success
        then (true, true)
        else (false, info_reachable || root_reachable))

-- The answers of /info and of the root, or `none` if no HTTP client can be made.
abbrev pub Answers : Type 0
Answers = Option (Answer × Answer)

guess_from : Bool × Bool → String × Bool
guess_from (has_surface, confident) =
    if not confident
    then (environment_saas, false)
    else if has_surface
    then (environment_sh, true)
    else (environment_saas, true)

-- probeEnvironmentFromAppliance: environment, persistable
unfoldable pub probe_environment_from_appliance :
    (String → Option ParsedUrl) → String → Answers → String × Bool
unfolding guess_from classify_self_hosted_surface
probe_environment_from_appliance parse_url appliance_url none = (environment_saas, false)
probe_environment_from_appliance parse_url appliance_url (some (info, root)) =
    guess_from (classify_self_hosted_surface parse_url appliance_url info root)

-- resolveDefaultEnvironment
unfoldable pub resolve_default_environment :
    (String → Option ParsedUrl) → String → Answers → String × Bool
unfolding probe_environment_from_appliance
resolve_default_environment parse_url url answers =
    let probed = probe_environment_from_appliance parse_url url answers in
    if is_conjur_cloud_url parse_url url
    then (environment_saas, true)
    else if has_api_base_path url
    then probed
    else (environment_sh, true)
