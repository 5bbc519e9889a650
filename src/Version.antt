-- ===== src/Version.antt =====
-- The version of the server (conjurapi/version.go, conjurapi/info.go): where it comes from, and the
-- test that it is at least a wanted one. github.com/Masterminds/semver is a parameter, and so is
-- what json.Unmarshal finds in an answer.
mod Examples
pub mod Page
pub mod Small
pub mod Verified
use Prim.Native.String.{String, ◌++◌}
use conjur_api_go.Common.{
  Bool, true, false, Option, none, some, List, [], ◌∷◌, ◌==◌, ◌||◌, eqb, if◌then◌else◌, Result, ok,
  err, ◌>>=◌,
}
use conjur_api_go.Common.Text.{contains}
use conjur_api_go.AuthToken.{lookup}
use conjur_api_go.Requests.{Request}
use conjur_api_go.Requests.Authn.{server_info_request, root_request}
use conjur_api_go.Response.{
  Response, Failure, plain, conjur, wrapped, Reply, got, failure, error_text, data_response,
  json_response,
}
use conjur_api_go.Session.{Client, Server}
use conjur_api_go.Session.Submit.{header, plain_call}
use conjur_api_go.Url.Router.{is_conjur_cloud_url}
use conjur_api_go.Version.Page.{parse_version_from_html}

-- semver.NewVersion, Version.SetPrerelease, Version.LessThan and Version.String
pub record Semver (V : Type 0) : Type 0 where
  pub new_version : String → Result V
  pub set_prerelease : String → V → V
  pub less_than : V → V → Bool
  pub string : V → String

-- What json.Unmarshal finds in the answer of /info, the versions of the services by their names, and
-- in that of the root, the field "version" if it is a text.
pub record Decoding : Type 0 where
  pub services : String → Result (List (String × String))
  pub version_field : String → Result (Option String)

-- err.Error()
unfoldable pub failure_text : Failure → String
failure_text (plain e) = e
failure_text (conjur e) = error_text e
failure_text (wrapped before f) = before ++ ": " ++ failure_text f

abbrev version_or_error : Option String → Result String
version_or_error (some v) = ok v
version_or_error none = err "version field not found"

-- parseVersionFromJSON
unfoldable pub parse_version_from_json : Decoding → String → Result String
parse_version_from_json decoding body = elim (decoding.version_field body) [
  | err e ↦ err ("failed to parse JSON: " ++ e)
  | ok found ↦ version_or_error found
]

-- parseVersionFromRoot
unfoldable pub parse_version_from_root : Decoding → Response → String → Result String
unfolding parse_version_from_json
parse_version_from_root decoding resp body =
    if contains (header "content-type" resp.headers) "application/json"
    then parse_version_from_json decoding body
    else version_or_error (parse_version_from_html body)

abbrev pub no_info_in_saas : String
no_info_in_saas = "Unable to retrieve server info: not supported in Idira Secrets Manager, SaaS"

abbrev pub no_version_in_saas : String
no_version_in_saas =
    "Unable to retrieve server version: not supported in Idira Secrets Manager, SaaS"

module _ {V : Type 0} (semver : Semver V) where
  too_old : V → V → Option String
  too_old actual wanted =
      if semver.less_than (semver.set_prerelease "" actual) wanted
      then some (
          "Conjur version "
          ++ semver.string actual
          ++ " is less than the minimum required version "
          ++ semver.string wanted)
      else none

  wanted_parsed : V → Result V → Option String
  unfolding too_old
  wanted_parsed actual (err e) = some ("failed to parse minimum version: " ++ e)
  wanted_parsed actual (ok wanted) = too_old actual wanted

  actual_parsed : Result V → Result V → Option String
  unfolding wanted_parsed
  actual_parsed (err e) wanted = some ("failed to parse server version: " ++ e)
  actual_parsed (ok actual) wanted = wanted_parsed actual wanted

  -- validateMinVersion: its error, if there is one
  unfoldable pub validate_min_version : String → String → Option String
  unfolding actual_parsed
  validate_min_version actual min =
      actual_parsed (semver.new_version actual) (semver.new_version min)

module _ {W : Type 0} (server : Server W) (decoding : Decoding) where
  abbrev in_saas : Client W → Bool
  in_saas c = is_conjur_cloud_url (server.context c.config).parse_url c.config.appliance_url

  info_reply : Result Response → Reply (List (String × String))
  info_reply (err e) = failure (plain ("failed to retrieve server info: " ++ e))
  info_reply (ok resp) =
      if eqb resp.status_code 404 || eqb resp.status_code 401
      then failure (plain "404 Not Found: Are you using Idira Secrets Manager, Self-Hosted")
      else json_response server.unmarshal decoding.services [] resp

  info_sent : Result Request → W → Reply (List (String × String)) × W
  unfolding info_reply
  info_sent (err e) w = (failure (plain e), w)
  info_sent (ok request) w = let (resp, w') = server.send request w in (info_reply resp, w')

  -- EnterpriseServerInfo, as far as its result is read: the versions of the services
  unfoldable pub enterprise_server_info : Client W → W → Reply (List (String × String)) × W
  unfolding info_sent
  enterprise_server_info c w =
      if in_saas c
      then (failure (plain no_info_in_saas), w)
      else info_sent (server_info_request (server.context c.config)) w

  root_version : Response → Reply String → Reply String
  root_version resp (failure f) = failure f
  root_version resp (got body) = elim (parse_version_from_root decoding resp body) [
    | ok v ↦ got v
    | err e ↦ failure (plain e)
  ]

  -- ServerVersionFromRoot
  unfoldable pub server_version_from_root : Client W → W → Reply String × W
  unfolding root_version
  server_version_from_root c w =
      if in_saas c
      then (failure (plain no_version_in_saas), w)
      else plain_call server (λ resp. root_version resp (data_response server.unmarshal resp))
          (root_request (server.context c.config)) w

  -- The version of the service "possum"; a missing entry of the map has the empty text.
  possum : Option String → String
  possum none = ""
  possum (some v) = v

  from_root : Reply String × W → Result String × W
  from_root (got v, w) = (ok v, w)
  from_root (failure f, w) = (err ("failed to retrieve server version: " ++ failure_text f), w)

  info_or_root : Client W → Reply (List (String × String)) × W → Result String × W
  unfolding possum from_root
  info_or_root c (got services, w) = (ok (possum (lookup services "possum")), w)
  info_or_root c (failure f, w) = from_root (server_version_from_root c w)

  -- ServerVersion
  unfoldable pub server_version : Client W → W → Result String × W
  unfolding info_or_root
  server_version c w =
      if in_saas c then (err no_version_in_saas, w) else info_or_root c (enterprise_server_info c w)

  module _ {V : Type 0} (semver : Semver V) where
    remembered : Client W → String → Result String × W → (Client W × Option String) × W
    remembered c min (err e, w) = ((c, some e), w)
    remembered c min (ok v, w) =
        ((record c { conjur_version = v }, validate_min_version semver v min), w)

    -- VerifyMinServerVersion: the client, which remembers the version, and the error
    unfoldable pub verify_min_server_version :
        Client W → String → W → (Client W × Option String) × W
    unfolding remembered
    verify_min_server_version c min w =
        if c.conjur_version == ""
        then remembered c min (server_version c w)
        else ((c, validate_min_version semver c.conjur_version min), w)
