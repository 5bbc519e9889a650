-- ===== src/Construct/Chosen.antt =====
-- When a client is made with a login and an API key (conjurapi/client.go).
use Prim.Native.String.{String}
use conjur_api_go.Common.{
  Bool, true, false, Option, none, some, ◌==◌, ◌&&◌, ◌||◌, not, if◌then◌else◌, Result, ok, err, ◌≡◌,
  ◌≢◌, ◌⊎◌, inl, inr, refl, arith, eq_iff, Bool-cases,
}
use conjur_api_go.Config.{Config}
use conjur_api_go.Config.Load.{getenv}
use conjur_api_go.Config.Validate.{World, validate}
use conjur_api_go.Config.Validate.Usable.{IsUsable, validate-IsUsable}
use conjur_api_go.Construct.{
  Choice, token_file, token, certificate, jwt, oidc, iam, azure, gcp, key, oidc_storage_marker,
  Stored, cloud_choice, generic_choice, new_client_from_stored_credentials, choose_authenticator,
  unless_invalid, new_client_from_environment,
}

-- Where a login and an API key may come from: the environment, or the storage. A stored one is not
-- the marker of a stored OIDC token where that may stand.
abbrev pub FromEnvironment : (String → Option String) → Config → String → String → Type 0
FromEnvironment lookup_env config login api_key =
    (login ≡ getenv lookup_env "CONJUR_AUTHN_LOGIN")
    × (api_key ≡ getenv lookup_env "CONJUR_AUTHN_API_KEY")

abbrev pub FromStorage : Stored → Config → String → String → Type 0
FromStorage stored config login api_key =
    (stored ≡ ok (some (ok (login, api_key))))
    × ((config.authn_type ≢ "cloud") ⊎ (login ≢ oidc_storage_marker))

-- No other source of a token goes before the API key.
abbrev pub NothingBefore : (String → Option String) → Config → Type 0
NothingBefore lookup_env config =
    (getenv lookup_env "CONJUR_AUTHN_TOKEN_FILE" ≡ "")
    × (getenv lookup_env "CONJUR_AUTHN_TOKEN" ≡ "")
    × (config.authn_type ≢ "cert")
    × (config.jwt_file_path ≡ "")
    × (getenv lookup_env "CONJUR_AUTHN_JWT_SERVICE_ID" ≡ "")

-- The outcome of a choice: with a key, its conditions.
abbrev pub Keyed : (String → Option String) → Stored → Config → Result Choice → Type 0
Keyed lookup_env stored config (ok (key authn_type login api_key)) =
    (authn_type ≢ "cloud")
    × (login ≢ "")
    × (api_key ≢ "")
    × NothingBefore lookup_env config
    × (FromEnvironment lookup_env config login api_key ⊎ FromStorage stored config login api_key)
Keyed lookup_env stored config _ = Unit {0}

abbrev StoredKey : Stored → Config → Result Choice → Type 0
StoredKey stored config (ok (key authn_type login api_key)) =
    (authn_type ≢ "cloud") × (login ≢ "") × (api_key ≢ "") × FromStorage stored config login api_key
StoredKey stored config _ = Unit {0}

standard : ◌≢◌ {A = String} "authn" "cloud"
standard e = absurd (ground (arith, eq_iff "authn" "cloud", e))

normalized : (t : String) → (if t == "cloud" then "authn" else t) ≢ "cloud"
normalized t = ground (arith, eq_iff t "cloud", eq_iff "authn" "cloud")

cloud-StoredKey :
    (stored : Stored) (config : Config) → StoredKey stored config (cloud_choice stored)
unfolding cloud_choice
cloud-StoredKey (err e) config = tt
cloud-StoredKey (ok none) config = tt
cloud-StoredKey (ok (some (err e))) config = tt
cloud-StoredKey (ok (some (ok (login, password)))) config =
    elim (Bool-cases
      (not (login == "") && not (password == "") && not (login == oidc_storage_marker))) [
        | inr other ↦ rw other tt
        | inl host ↦
            let first : login ≢ "" = ground (arith, eq_iff login "") in
            let second : password ≢ "" = ground (arith, eq_iff password "") in
            let third : login ≢ oidc_storage_marker =
              ground (arith, eq_iff login oidc_storage_marker) in
            rw host (standard, first, second, (refl, inr third))
      ]

generic-StoredKey :
    (stored : Stored) (config : Config)
    → config.authn_type ≢ "cloud"
    → StoredKey stored config (generic_choice config.authn_type stored)
unfolding generic_choice
generic-StoredKey (err e) config h = tt
generic-StoredKey (ok none) config h = tt
generic-StoredKey (ok (some (err e))) config h = tt
generic-StoredKey (ok (some (ok (login, password)))) config h =
    elim (Bool-cases (not (login == "") && not (password == ""))) [
      | inr other ↦ rw other tt
      | inl found ↦
          let first : login ≢ "" = ground (arith, eq_iff login "") in
          let second : password ≢ "" = ground (arith, eq_iff password "") in
          rw found (normalized config.authn_type, first, second, (refl, inl h))
    ]

-- The tests on the type of authenticator, one after the other.
StoredKey-by :
    (stored : Stored) (config : Config) (is_oidc is_cloud is_iam is_azure is_gcp is_generic : Bool)
    (message : String)
    → (is_cloud ≡ true) ⊎ (config.authn_type ≢ "cloud")
    → StoredKey stored config (
        if is_oidc
        then ok oidc
        else if is_cloud
        then cloud_choice stored
        else if is_iam
        then ok iam
        else if is_azure
        then ok azure
        else if is_gcp
        then ok gcp
        else if is_generic
        then generic_choice config.authn_type stored
        else err message)
StoredKey-by stored config true cl i a g n m h = tt
StoredKey-by stored config false true i a g n m h = cloud-StoredKey stored config
StoredKey-by stored config false false true a g n m h = tt
StoredKey-by stored config false false false true g n m h = tt
StoredKey-by stored config false false false false true n m h = tt
StoredKey-by stored config false false false false false true m (inl e) = absurd (ground (arith, e))
StoredKey-by stored config false false false false false true m (inr h) =
    generic-StoredKey stored config h
StoredKey-by stored config false false false false false false m h = tt

stored-StoredKey :
    (stored : Stored) (config : Config)
    → StoredKey stored config (new_client_from_stored_credentials config.authn_type stored)
unfolding new_client_from_stored_credentials
stored-StoredKey stored config =
    StoredKey-by stored config _ _ _ _ _ _ _ (ground (arith, eq_iff config.authn_type "cloud"))

Keyed-StoredKey :
    (lookup_env : String → Option String) (stored : Stored) (config : Config) (r : Result Choice)
    → NothingBefore lookup_env config
    → StoredKey stored config r
    → Keyed lookup_env stored config r
Keyed-StoredKey lookup_env stored config (ok (key authn_type login api_key)) n (a, b, c, d) =
    (a, b, c, n, inr d)
Keyed-StoredKey lookup_env stored config (ok (token_file s)) n h = tt
Keyed-StoredKey lookup_env stored config (ok (token s)) n h = tt
Keyed-StoredKey lookup_env stored config (ok certificate) n h = tt
Keyed-StoredKey lookup_env stored config (ok jwt) n h = tt
Keyed-StoredKey lookup_env stored config (ok oidc) n h = tt
Keyed-StoredKey lookup_env stored config (ok iam) n h = tt
Keyed-StoredKey lookup_env stored config (ok azure) n h = tt
Keyed-StoredKey lookup_env stored config (ok gcp) n h = tt
Keyed-StoredKey lookup_env stored config (err e) n h = tt

choose-Keyed :
    (lookup_env : String → Option String) (stored : Stored) (config : Config)
    → Keyed lookup_env stored config (choose_authenticator lookup_env stored config)
unfolding choose_authenticator
choose-Keyed lookup_env stored config =
    let file : String = getenv lookup_env "CONJUR_AUTHN_TOKEN_FILE" in
    let given : String = getenv lookup_env "CONJUR_AUTHN_TOKEN" in
    let service : String = getenv lookup_env "CONJUR_AUTHN_JWT_SERVICE_ID" in
    let login : String = getenv lookup_env "CONJUR_AUTHN_LOGIN" in
    let api_key : String = getenv lookup_env "CONJUR_AUTHN_API_KEY" in
    elim (Bool-cases (not (file == ""))) [
      | inl e ↦ rw e tt
      | inr no_file ↦ rw no_file (elim (Bool-cases (not (given == ""))) [
        | inl e ↦ rw e tt
        | inr no_token ↦ rw no_token (elim (Bool-cases (config.authn_type == "cert")) [
          | inl e ↦ rw e tt
          | inr no_cert ↦
              rw no_cert
                (elim (Bool-cases (not (config.jwt_file_path == "") || not (service == ""))) [
                  | inl e ↦ rw e tt
                  | inr no_jwt ↦
                      let before : NothingBefore lookup_env config = (
                        ground (arith, eq_iff file ""),
                        ground (arith, eq_iff given ""),
                        ground (arith, eq_iff config.authn_type "cert"),
                        ground (arith, eq_iff config.jwt_file_path "", eq_iff service ""),
                        ground (arith, eq_iff config.jwt_file_path "", eq_iff service ""),
                      ) in
                      rw no_jwt (elim (Bool-cases (not (login == "") && not (api_key == ""))) [
                        | inl found ↦
                            let first : login ≢ "" = ground (arith, eq_iff login "") in
                            let second : api_key ≢ "" = ground (arith, eq_iff api_key "") in
                            rw found (
                              normalized config.authn_type,
                              first,
                              second,
                              before,
                              inl (refl, refl),
                            )
                        | inr unset ↦ rw unset (
                            Keyed-StoredKey lookup_env stored config _ before
                              (stored-StoredKey stored config))
                      ])
                ])
        ])
      ])
    ]

-- The outcome of NewClientFromEnvironment: an error, or a choice for a usable configuration.
abbrev pub IsChosen : World → (Config → Stored) → Config → Result Choice → Type 0
IsChosen world stored settled (ok choice) =
    IsUsable world settled × Keyed world.lookup_env (stored settled) settled (ok choice)
IsChosen world stored settled (err e) = Unit {0}

IsChosen-by :
    (world : World) (stored : Config → Stored) (config settled : Config) (failed : Option String)
    (r : Result Choice)
    → (failed ≡ none → IsUsable world settled)
    → Keyed world.lookup_env (stored settled) settled r
    → IsChosen world stored settled (unless_invalid failed r)
unfolding unless_invalid
IsChosen-by world stored config settled (some e) r u k = tt
IsChosen-by world stored config settled none (err e) u k = tt
IsChosen-by world stored config settled none (ok choice) u k = (u refl, k)

-- When NewClientFromEnvironment goes on to make a client, the configuration is usable. If it makes
-- one with a login and an API key, both are not empty, the authenticator is not the one for cloud
-- users, there is no token file, no token, no certificate authentication and no JWT that would go
-- before them, and they are either those of the environment or those of the storage; in the storage
-- for cloud users they are not the marker of an OIDC token.
pub new_client_from_environment-IsChosen :
    (world : World) (stored : Config → Stored) (config : Config)
    → IsChosen world stored
        (validate world config).0
        (new_client_from_environment world stored config)
unfolding new_client_from_environment
new_client_from_environment-IsChosen world stored config =
    let settled : Config = (validate world config).0 in
    IsChosen-by world stored config settled (validate world config).1
      (choose_authenticator world.lookup_env (stored settled) settled)
      (validate-IsUsable world config).0 (choose-Keyed world.lookup_env (stored settled) settled)
