-- ===== src/Calls/Policies.antt =====
-- Policies and host factories (conjurapi/policy.go, conjurapi/host_factory.go). `decode` is
-- json.Unmarshal into the type of the result.
use Prim.Native.String.{String, ◌++◌}
use conjur_api_go.Common.{
  ℕ, ℤ, Bool, true, false, Option, none, some, List, [], ◌∷◌, if◌then◌else◌, Result, ok, err, ◌>>=◌,
}
use conjur_api_go.Common.Text.{join}
use conjur_api_go.AuthToken.{done}
use conjur_api_go.Ids.{parse_id_and_enforce_kind}
use conjur_api_go.Requests.{itoa, full}
use conjur_api_go.Requests.Objects.{
  PolicyMode, load_policy_request, fetch_policy_request, create_token_request, delete_token_request,
  create_host_request,
}
use conjur_api_go.Response.{plain, Reply, failure, json_response, dry_run_policy_json_response}
use conjur_api_go.Session.{Client, Server}
use conjur_api_go.Session.Submit.{Ending, call, data_call, json_call, empty_call, plain_call}
use conjur_api_go.Url.Escape.{query_escape}
use conjur_api_go.Url.Router.{is_conjur_cloud_url}
use conjur_api_go.Version.{Semver, Decoding, verify_min_server_version}
use conjur_api_go.Calls.Objects.{context_of}

abbrev parts_full : Result (String × String × String) → Result String
parts_full (ok parts) = ok (full parts)
parts_full (err e) = err e

abbrev cidr_pairs : List String → List String → List String
cidr_pairs [] more = more
cidr_pairs (c ∷ cs) more = ("cidr%5B%5D=" ++ query_escape c) ∷ cidr_pairs cs more

-- url.Values.Encode of the data of CreateToken: the keys in their order
abbrev token_data : String → String → ℤ → List String → String
token_data host_factory expiration count cidrs =
    join
      (cidr_pairs cidrs (
        ("count=" ++ query_escape (itoa count))
        ∷ ("expiration=" ++ query_escape expiration)
        ∷ ("host_factory=" ++ query_escape host_factory)
        ∷ []))
      "&"

module _ {W : Type 0} (server : Server W) where
  unfoldable pub delete_token : String → Client W → W → Ending W (Unit {0})
  delete_token token c w = empty_call server c (delete_token_request (context_of server c) token) w

  module _ {A : Type 0} (decode : String → Result A) where
    unfoldable pub load_policy : PolicyMode → String → String → Client W → W → Ending W A
    load_policy mode policy_id policy c w =
        json_call server decode c
          (load_policy_request (context_of server c) mode policy_id policy false) w

    -- createHost, from the encoded data: it is sent with the token that is given, not the client's
    unfoldable pub create_host : String → String → Client W → W → Reply A × W
    create_host encoded_data token c w =
        plain_call server (json_response server.unmarshal decode [])
          (create_host_request (context_of server c) encoded_data token) w

    -- CreateToken, from the time that time.ParseDuration and the clock give, formatted
    unfoldable pub create_token :
        Result String → String → List String → ℤ → Client W → W → Ending W A
    create_token expiration host_factory cidrs count c w =
        json_call server decode c
          (do
            expires ← expiration
            id ← parts_full (parse_id_and_enforce_kind c.config.account host_factory "host_factory")
            create_token_request (context_of server c) (token_data id expires count cidrs))
          w

  module _ {V : Type 0} (decoding : Decoding) (semver : Semver V) where
    if_new_enough :
        {A : Type 0}
        → String
        → (Client W × Option String) × W
        → (Client W → W → Ending W A)
        → Ending W A
    if_new_enough what ((c, none), w) next = next c w
    if_new_enough what ((c, some e), w) next = (
      done (
        c,
        failure (
            plain
              (what ++ " is not supported in Idira Secrets Manager versions older than 1.21.1")),
      ),
      w,
    )

    -- The tests at the beginning of DryRunPolicy and FetchPolicy
    unfoldable pub require_policies :
        {A : Type 0} → String → Client W → W → (Client W → W → Ending W A) → Ending W A
    unfolding if_new_enough
    require_policies what c w next =
        if is_conjur_cloud_url (server.context c.config).parse_url c.config.appliance_url
        then (
          done (c, failure (plain (what ++ " is not supported in Idira Secrets Manager, SaaS"))),
          w,
        )
        else if_new_enough what (verify_min_server_version server decoding semver c "1.21.1" w) next

    unfoldable pub dry_run_policy :
        {A : Type 0}
        → (String → Result A)
        → PolicyMode
        → String
        → String
        → Client W
        → W
        → Ending W A
    unfolding require_policies
    dry_run_policy decode mode policy_id policy c w = require_policies "Policy Dry Run" c w (λ d v.
        call server (dry_run_policy_json_response server.unmarshal decode) d
          (load_policy_request (context_of server d) mode policy_id policy true) v)

    unfoldable pub fetch_policy : String → Bool → ℕ → ℕ → Client W → W → Ending W String
    unfolding require_policies
    fetch_policy policy_id return_json depth limit c w = require_policies "Policy Fetch" c w (λ d v.
        data_call server d
          (fetch_policy_request (context_of server d) policy_id return_json depth limit) v)
