-- ===== src/V2.antt =====
-- The second version of the API (conjurapi/client_v2.go, conjurapi/requests_v2.go): the requests and
-- the gates that its calls share. The calls themselves are in the modules below.
pub mod Authenticators
pub mod Branches
mod Examples
pub mod Gates
pub mod Groups
pub mod Issuers
pub mod Secrets
pub mod Workloads
use Prim.Native.String.{String, ◌++◌}
use conjur_api_go.Common.{
  Bool, true, false, Option, none, some, List, [], ◌∷◌, if◌then◌else◌, Result, ok, err, ◌>>=◌,
}
use conjur_api_go.Common.Text.{join}
use conjur_api_go.AuthToken.{done}
use conjur_api_go.Config.{is_saas}
use conjur_api_go.Requests.{Context, Request, new_request}
use conjur_api_go.Requests.Json.{Json, marshal}
use conjur_api_go.Response.{plain, failure}
use conjur_api_go.Session.{Client, Server}
use conjur_api_go.Session.Submit.{Ending}
use conjur_api_go.Version.{Semver, Decoding, verify_min_server_version}

abbrev pub v2_api_header_beta : String
v2_api_header_beta = "application/x.secretsmgr.v2beta+json"

abbrev pub v2_api_header : String
v2_api_header = "application/x.secretsmgr.v2+json"

-- newV2Request
unfoldable pub new_v2_request : Context → String → String → String → Result Request
new_v2_request context method request_url accept_header =
    new_request context method request_url none (("Accept", accept_header) ∷ [])

-- newV2JSONRequest
unfoldable pub new_v2_json_request : Context → String → String → Json → String → Result Request
new_v2_json_request context method request_url payload accept_header = do
  body ← marshal payload
  new_request context method request_url (some body)
      (("Content-Type", "application/json") ∷ ("Accept", accept_header) ∷ [])

-- The account in a URL: there is none for Secrets Manager SaaS.
abbrev pub account_of : Context → String
account_of context = if is_saas context.config then "" else context.config.account

-- errors.Join
abbrev pub joined : List String → Option String
joined [] = none
joined (e ∷ errs) = some (join (e ∷ errs) "\n")

abbrev pub error_if : Option String → List String → List String
error_if none errs = errs
error_if (some e) errs = e ∷ errs

abbrev pub missing : Bool → String → Option String
missing test message = if test then some message else none

-- if err != nil { return nil, err }
abbrev pub unless_failed {ℓ} : {A : Type ℓ} → Option String → Result A → Result A
unless_failed none next = next
unless_failed (some e) next = err e

-- fmt.Errorf with a text before the error
abbrev pub explained : String → Result Request → Result Request
explained before (ok request) = ok request
explained before (err e) = err (before ++ ": " ++ e)

abbrev pub min_version : String
min_version = "1.23.0"

abbrev pub not_supported_in_conjur_enterprise : String → String
not_supported_in_conjur_enterprise name =
    name ++ " is not supported in Idira Secrets Manager/Conjur OSS"

abbrev pub not_supported_in_old_versions : String → String → String
not_supported_in_old_versions name version =
    name ++ " is not supported in Idira Secrets Manager versions older than " ++ version

-- requireSaaS in front of a call
unfoldable pub require_saas : {W A : Type 0} → String → Client W → W → Ending W A → Ending W A
require_saas name c w next =
    if is_saas c.config
    then next
    else (done (c, failure (plain (not_supported_in_conjur_enterprise name))), w)

module _ {W V : Type 0} (server : Server W) (decoding : Decoding) (semver : Semver V) where
  if_new_enough :
      {A : Type 0}
      → String
      → (Client W × Option String) × W
      → (Client W → W → Ending W A)
      → Ending W A
  if_new_enough message ((c, none), w) next = next c w
  if_new_enough message ((c, some e), w) next = (done (c, failure (plain message)), w)

  -- The test in front of the calls that a self-hosted server has from some version on: its error
  -- has the given message.
  unfoldable pub require_version :
      {A : Type 0} → String → String → Client W → W → (Client W → W → Ending W A) → Ending W A
  unfolding if_new_enough
  require_version min message c w next =
      if is_saas c.config
      then next c w
      else if_new_enough message (verify_min_server_version server decoding semver c min w) next
