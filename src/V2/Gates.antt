-- ===== src/V2/Gates.antt =====
-- Which calls of the second version of the API reach the server (conjurapi/client_v2.go and the files
-- of its calls).
pub mod Guarded
use Prim.Native.String.{String}
use conjur_api_go.Common.{Bool, false, Option, some, List, Result, ◌≡◌, refl, ap}
use conjur_api_go.AuthToken.{done}
use conjur_api_go.Config.{is_saas}
use conjur_api_go.Response.{plain, failure}
use conjur_api_go.Session.{Client, Server}
use conjur_api_go.Session.Submit.{Ending}
use conjur_api_go.V2.{
  require_saas, require_version, if_new_enough, not_supported_in_conjur_enterprise,
  not_supported_in_old_versions, min_version,
}
use conjur_api_go.V2.Authenticators.{
  AuthenticatorBase, authenticators_too_old, authenticators_min_version, create_authenticator,
  get_authenticator, update_authenticator, delete_authenticator, list_authenticators,
}
use conjur_api_go.V2.Branches.{
  Branch, BranchFilter, create_branch, read_branch, read_branches, update_branch, delete_branch,
}
use conjur_api_go.V2.Groups.{GroupMember, group_api_too_old, add_group_member, remove_group_member}
use conjur_api_go.V2.Issuers.{Issue, Sign, issue_api_name, certificate_issue, certificate_sign}
use conjur_api_go.V2.Secrets.{
  StaticSecret, static_secret_api_name, batch_retrieve_secrets_api_name, create_static_secret,
  get_static_secret_details, get_static_secret_permissions, batch_retrieve_secrets,
}
use conjur_api_go.V2.Workloads.{
  AuthnDescriptor, Workload, WorkloadFields, workload_api_name, create_workload, delete_workload,
  get_workload, update_workload, update_authn_descriptor,
}
use conjur_api_go.Version.{Semver, Decoding, verify_min_server_version}

module _ {W : Type 0} (server : Server W) (c : Client W) (w : W) where
  -- A call that only Secrets Manager SaaS has, with the name of its API
  pub data SaasOnly : (A : Type 0) → String → Ending W A → Type 1 where
    create_workload_call :
        (workload : Workload)
        → SaasOnly String workload_api_name (create_workload server workload c w)
    delete_workload_call :
        (id : String) → SaasOnly String workload_api_name (delete_workload server id c w)
    get_workload_call :
        {A : Type 0} (decode : String → Result A) (id : String)
        → SaasOnly A workload_api_name (get_workload server decode id c w)
    update_workload_call :
        {A : Type 0} (decode : String → Result A) (id : String) (update : WorkloadFields)
        → SaasOnly A workload_api_name (update_workload server decode id update c w)
    update_authn_descriptor_call :
        {A : Type 0} (decode : String → Result A) (id : String) (d : AuthnDescriptor)
        → SaasOnly A workload_api_name (update_authn_descriptor server decode id d c w)
    certificate_issue_call :
        {A : Type 0} (decode : String → Result A) (issuer : String) (issue : Issue)
        → SaasOnly A issue_api_name (certificate_issue server decode issuer issue c w)
    certificate_sign_call :
        {A : Type 0} (decode : String → Result A) (issuer : String) (sign : Sign)
        → SaasOnly A issue_api_name (certificate_sign server decode issuer sign c w)
    create_static_secret_call :
        {A : Type 0} (decode : String → Result A) (secret : StaticSecret)
        → SaasOnly A static_secret_api_name (create_static_secret server decode secret c w)
    get_static_secret_details_call :
        {A : Type 0} (decode : String → Result A) (id : String)
        → SaasOnly A static_secret_api_name (get_static_secret_details server decode id c w)
    get_static_secret_permissions_call :
        {A : Type 0} (decode : String → Result A) (id : String)
        → SaasOnly A static_secret_api_name (get_static_secret_permissions server decode id c w)
    batch_retrieve_secrets_call :
        {A : Type 0} (decode : String → Result A) (ids : List String)
        → SaasOnly A batch_retrieve_secrets_api_name (batch_retrieve_secrets server decode ids c w)

  refused :
      {A : Type 0} (name : String) (next : Ending W A)
      → is_saas c.config ≡ false
      → require_saas name c w next
        ≡ (done (c, failure (plain (not_supported_in_conjur_enterprise name))), w)
  unfolding require_saas
  refused name next other = rw other refl

  -- On a client that is not configured for Secrets Manager SaaS, each of the calls on workloads, on
  -- static secrets, on batches of secrets and on certificates comes to the error that names its API,
  -- and leaves the client and the world as they are: nothing is sent, and no token is fetched.
  pub SaasOnly-refused :
      {A : Type 0} {name : String} {ending : Ending W A}
      → SaasOnly A name ending
      → is_saas c.config ≡ false
      → ending ≡ (done (c, failure (plain (not_supported_in_conjur_enterprise name))), w)
  unfolding create_workload delete_workload get_workload update_workload update_authn_descriptor
      certificate_issue certificate_sign create_static_secret get_static_secret_details
      get_static_secret_permissions batch_retrieve_secrets
  SaasOnly-refused (create_workload_call workload) other = refused workload_api_name _ other
  SaasOnly-refused (delete_workload_call id) other = refused workload_api_name _ other
  SaasOnly-refused (get_workload_call decode id) other = refused workload_api_name _ other
  SaasOnly-refused (update_workload_call decode id update) other = refused workload_api_name _ other
  SaasOnly-refused (update_authn_descriptor_call decode id d) other =
      refused workload_api_name _ other
  SaasOnly-refused (certificate_issue_call decode issuer issue) other =
      refused issue_api_name _ other
  SaasOnly-refused (certificate_sign_call decode issuer sign) other = refused issue_api_name _ other
  SaasOnly-refused (create_static_secret_call decode secret) other =
      refused static_secret_api_name _ other
  SaasOnly-refused (get_static_secret_details_call decode id) other =
      refused static_secret_api_name _ other
  SaasOnly-refused (get_static_secret_permissions_call decode id) other =
      refused static_secret_api_name _ other
  SaasOnly-refused (batch_retrieve_secrets_call decode ids) other =
      refused batch_retrieve_secrets_api_name _ other

module _ {W V : Type 0} (server : Server W) (decoding : Decoding) (semver : Semver V) (c : Client W)
    (w : W) where
  -- A call that a self-hosted server has from some version on, with the version and the error
  pub data Versioned : (A : Type 0) → String → String → Ending W A → Type 1 where
    create_branch_call :
        {A : Type 0} (decode : String → Result A) (branch : Branch)
        → Versioned A min_version
            (not_supported_in_old_versions "Branch API" min_version)
            (create_branch server decoding semver decode branch c w)
    read_branch_call :
        {A : Type 0} (decode : String → Result A) (id : String)
        → Versioned A min_version
            (not_supported_in_old_versions "Branch API" min_version)
            (read_branch server decoding semver decode id c w)
    read_branches_call :
        {A : Type 0} (decode : String → Result A) (filter : Option BranchFilter)
        → Versioned A min_version
            (not_supported_in_old_versions "Branch API" min_version)
            (read_branches server decoding semver decode filter c w)
    update_branch_call :
        (branch : Branch)
        → Versioned String min_version
            (not_supported_in_old_versions "Branch API" min_version)
            (update_branch server decoding semver branch c w)
    delete_branch_call :
        (id : String)
        → Versioned String min_version
            (not_supported_in_old_versions "Branch API" min_version)
            (delete_branch server decoding semver id c w)
    add_group_member_call :
        {A : Type 0} (decode : String → Result A) (group : String) (member : GroupMember)
        → Versioned A min_version group_api_too_old
            (add_group_member server decoding semver decode group member c w)
    remove_group_member_call :
        (group : String) (member : GroupMember)
        → Versioned String min_version group_api_too_old
            (remove_group_member server decoding semver group member c w)
    create_authenticator_call :
        {A : Type 0} (decode : String → Result A) (base : Option AuthenticatorBase)
        → Versioned A authenticators_min_version authenticators_too_old
            (create_authenticator server decoding semver decode base c w)
    get_authenticator_call :
        {A : Type 0} (decode : String → Result A) (kind name : String)
        → Versioned A authenticators_min_version authenticators_too_old
            (get_authenticator server decoding semver decode kind name c w)
    update_authenticator_call :
        {A : Type 0} (decode : String → Result A) (kind name : String) (enabled : Bool)
        → Versioned A authenticators_min_version authenticators_too_old
            (update_authenticator server decoding semver decode kind name enabled c w)
    delete_authenticator_call :
        (kind name : String)
        → Versioned
            (Unit {0})
            authenticators_min_version
            authenticators_too_old
            (delete_authenticator server decoding semver kind name c w)
    list_authenticators_call :
        {A : Type 0} (decode : String → Result A)
        → Versioned A authenticators_min_version authenticators_too_old
            (list_authenticators server decoding semver decode c w)

  refused_when_old :
      {A : Type 0} (min message : String) (next : Client W → W → Ending W A) {c' : Client W}
      {e : String} {w' : W}
      → is_saas c.config ≡ false
      → verify_min_server_version server decoding semver c min w ≡ ((c', some e), w')
      → require_version server decoding semver min message c w next
        ≡ (done (c', failure (plain message)), w')
  unfolding require_version if_new_enough
  refused_when_old min message next other old =
      rw other (ap (λ v. if_new_enough server decoding semver message v next) old)

  -- On a client that is not configured for Secrets Manager SaaS, each of the calls on branches, on
  -- memberships in groups and on authenticators comes to the error that names the version, when
  -- VerifyMinServerVersion fails for this version; the world is then the one that the verification
  -- leaves, so that nothing is sent but the questions for the server's version.
  pub Versioned-refused :
      {A : Type 0} {min message : String} {ending : Ending W A} {c' : Client W} {e : String}
      {w' : W}
      → Versioned A min message ending
      → is_saas c.config ≡ false
      → verify_min_server_version server decoding semver c min w ≡ ((c', some e), w')
      → ending ≡ (done (c', failure (plain message)), w')
  unfolding create_branch read_branch read_branches update_branch delete_branch add_group_member
      remove_group_member create_authenticator get_authenticator update_authenticator
      delete_authenticator list_authenticators
  Versioned-refused (create_branch_call decode branch) other old =
      refused_when_old min_version _ _ other old
  Versioned-refused (read_branch_call decode id) other old =
      refused_when_old min_version _ _ other old
  Versioned-refused (read_branches_call decode filter) other old =
      refused_when_old min_version _ _ other old
  Versioned-refused (update_branch_call branch) other old =
      refused_when_old min_version _ _ other old
  Versioned-refused (delete_branch_call id) other old = refused_when_old min_version _ _ other old
  Versioned-refused (add_group_member_call decode group member) other old =
      refused_when_old min_version _ _ other old
  Versioned-refused (remove_group_member_call group member) other old =
      refused_when_old min_version _ _ other old
  Versioned-refused (create_authenticator_call decode base) other old =
      refused_when_old authenticators_min_version _ _ other old
  Versioned-refused (get_authenticator_call decode kind name) other old =
      refused_when_old authenticators_min_version _ _ other old
  Versioned-refused (update_authenticator_call decode kind name enabled) other old =
      refused_when_old authenticators_min_version _ _ other old
  Versioned-refused (delete_authenticator_call kind name) other old =
      refused_when_old authenticators_min_version _ _ other old
  Versioned-refused (list_authenticators_call decode) other old =
      refused_when_old authenticators_min_version _ _ other old
