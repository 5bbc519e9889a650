-- ===== src/Config/Validate/Settled.antt =====
-- What Validate fills in stays as it is (Validate, applyDefaults, conjurapi/config.go).
use Prim.Native.String.{String}
use conjur_api_go.Common.{
  Bool, true, false, Option, ◌==◌, ◌&&◌, not, get_or, if◌then◌else◌, ◌≡◌, inl, inr, refl, sym, ap,
  ◌∙◌, arith, Bool-cases, Option-cases,
}
use conjur_api_go.Config.{Config}
use conjur_api_go.Credentials.{resolve_credential_storage_mode}
use conjur_api_go.Credentials.Modes.{IsCallerDefault, resolve-IsMode}
use conjur_api_go.Environment.{resolve_default_environment, Answers}
use conjur_api_go.Environment.Guess.{
  Known, no_client, silent, self_hosted, edge, resolve_default_environment-Known,
}
use conjur_api_go.Storage.{resolve_keychain_namespace, keychain_namespace_env_var}
use conjur_api_go.Url.Router.{ParsedUrl, is_conjur_cloud_url}
use conjur_api_go.Config.Validate.{
  World, apply_defaults, settle_config, validate, failure, validate_errors,
}

Known-environment :
    {answers : Answers} {e : String} {p : Bool} → Known answers e p → (e == "") ≡ false
Known-environment no_client = refl
Known-environment (silent h k) = refl
Known-environment (self_hosted h) = refl
Known-environment (edge h k l) = refl

default_named :
    (parse_url : String → Option ParsedUrl) (url : String) (answers : Answers)
    → ((resolve_default_environment parse_url url answers).0 == "") ≡ false
default_named parse_url url answers =
    elim (resolve_default_environment-Known parse_url url answers) [
      | inl (_, e) ↦ rw e refl
      | inr (inl (_, _, e)) ↦ rw e refl
      | inr (inr (_, _, k)) ↦ Known-environment k
    ]

module _ (world : World) where
  abbrev account_for : Config → String
  account_for c =
      if is_conjur_cloud_url world.parse_url c.appliance_url && c.account == ""
      then "conjur"
      else c.account

  abbrev environment_for : Config → String
  environment_for c =
      if c.environment == "" && not (c.appliance_url == "")
      then (resolve_default_environment world.parse_url c.appliance_url
          (world.answers (record c { account = account_for c }))).0
      else c.environment

  abbrev namespace_for : Bool → String → String
  namespace_for resolved namespace =
      if resolved
      then namespace
      else if not (namespace == "")
      then namespace
      else get_or (world.lookup_env keychain_namespace_env_var) namespace

  abbrev mode_for : String → String
  mode_for mode = resolve_credential_storage_mode world.lookup_env world.caller mode

  abbrev with_account : Config → Config
  with_account c = record c { account = account_for c }

  pub apply_fields :
      (c : Config)
      → (apply_defaults world false c).0
        ≡ record c { account = account_for c; environment = environment_for c }
  unfolding apply_defaults
  apply_fields c =
      elim (Bool-cases (is_conjur_cloud_url world.parse_url c.appliance_url && c.account == "")) [
        | inl needed ↦ elim (Bool-cases (c.environment == "" && not (c.appliance_url == ""))) [
          | inl guessed ↦ rw (needed, guessed) refl
          | inr named ↦ rw (needed, named) refl
        ]
        | inr given ↦ elim (Bool-cases (c.environment == "" && not (c.appliance_url == ""))) [
          | inl guessed ↦ rw (given, guessed) refl
          | inr named ↦ rw (given, named) refl
        ]
      ]

  namespace_fields :
      (c : Config)
      → (if c.keychain_namespace_resolved
          then c
          else resolve_keychain_namespace world.lookup_env true c)
        ≡ record c {
          keychain_namespace = namespace_for c.keychain_namespace_resolved c.keychain_namespace;
        }
  unfolding resolve_keychain_namespace
  namespace_fields c = elim (Bool-cases c.keychain_namespace_resolved) [
    | inl done ↦ rw done refl
    | inr unsettled ↦ elim (Bool-cases (not (c.keychain_namespace == ""))) [
      | inl set ↦ rw (unsettled, set) refl
      | inr unset ↦ rw (unsettled, unset) refl
    ]
  ]

  abbrev filled : Config → Config
  filled c = record c {
    account = account_for c;
    environment = environment_for c;
    keychain_namespace = namespace_for c.keychain_namespace_resolved c.keychain_namespace;
    credential_storage_mode = mode_for c.credential_storage_mode;
  }

  -- The four fields that are filled in.
  settle_fields : (c : Config) → settle_config world c ≡ filled c
  unfolding settle_config
  settle_fields c =
      ap
        (λ (d : Config).
          let e : Config =
            if d.keychain_namespace_resolved
            then d
            else resolve_keychain_namespace world.lookup_env true d in
          record e { credential_storage_mode = mode_for e.credential_storage_mode })
        (apply_fields c)
      ∙ ap
          (λ (d : Config). record d {
            credential_storage_mode = mode_for d.credential_storage_mode;
          })
          (namespace_fields (record c { account = account_for c; environment = environment_for c }))

  account_again : (c : Config) → account_for (filled c) ≡ account_for c
  account_again c = ground arith

  environment_again : (c : Config) → environment_for (filled c) ≡ environment_for c
  environment_again c = elim (Bool-cases (c.environment == "" && not (c.appliance_url == ""))) [
    | inl guessed ↦
        rw guessed
          (rw (default_named world.parse_url c.appliance_url (world.answers (with_account c))) refl)
    | inr kept ↦ rw kept (rw kept refl)
  ]

  namespace_again :
      (resolved : Bool) (n : String)
      → namespace_for resolved (namespace_for resolved n) ≡ namespace_for resolved n
  namespace_again true n = refl
  namespace_again false n = elim (Bool-cases (n == "")) [
    | inr set ↦ rw set (rw set refl)
    | inl unset ↦ elim (Option-cases (world.lookup_env keychain_namespace_env_var)) [
      | inl absent ↦ rw (unset, absent) (rw unset refl)
      | inr (value, present) ↦ rw (unset, present) (ground arith)
    ]
  ]

  filled_again : (c : Config) → IsCallerDefault world.caller → filled (filled c) ≡ filled c
  filled_again c h = λ i. record c {
    account = account_again c i;
    environment = environment_again c i;
    keychain_namespace = namespace_again c.keychain_namespace_resolved c.keychain_namespace i;
    credential_storage_mode =
        (resolve-IsMode world.lookup_env world.lookup_env world.caller world.caller
            c.credential_storage_mode h).1
          i;
  }

  settle_again :
      (c : Config)
      → IsCallerDefault world.caller
      → settle_config world (settle_config world c) ≡ settle_config world c
  settle_again c h =
      ap (settle_config world) (settle_fields c)
      ∙ settle_fields (filled c)
      ∙ filled_again c h
      ∙ sym (settle_fields c)

  -- If the calling program's default for the storage mode is a mode, then validating a
  -- configuration again, as NewClientFromEnvironment and NewClient do one after the other, leaves
  -- it as the first validation left it, with the same outcome.
  pub validate_idem :
      (c : Config)
      → IsCallerDefault world.caller
      → validate world (validate world c).0 ≡ validate world c
  unfolding validate
  validate_idem c h = ap (λ s. (s, failure world s (validate_errors world s))) (settle_again c h)
