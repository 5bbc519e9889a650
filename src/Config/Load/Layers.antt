-- ===== src/Config/Load/Layers.antt =====
-- Which layer a loaded configuration takes a field from (LoadConfig, conjurapi/config.go).
use conjur_api_go.Credentials.{resolve_credential_storage_mode}
use Prim.Native.String.{String}
use conjur_api_go.Common.{
  Bool, true, false, Option, none, some, List, [], ◌∷◌, ◌++◌, map, ◌==◌, if◌then◌else◌, ◌≡◌, refl,
  ap, ◌∙◌, arith,
}
use conjur_api_go.Config.{Config, merge}
use conjur_api_go.Config.Merge.{TextField, text_of, last_set, text_of-merge, merge_text_lem}
use conjur_api_go.Config.Validate.{apply_defaults}
use conjur_api_go.Config.Validate.Settled.{apply_fields}
use conjur_api_go.Storage.{resolve_keychain_namespace}
use conjur_api_go.Config.Load.{
  YamlFile, missing, refused, decoded, Sources, home_config, env_config, merge_env, merge_yaml,
  checked, finish, with_user_file, with_system_file, user_file, system_file, load_config,
}

-- The fields that loading takes from the layers alone: the address and the account may come from
-- the Python CLI's keys, and they, the environment and the namespace have defaults of their own.
abbrev pub is_plain : TextField → Bool
is_plain TextField.account = false
is_plain TextField.appliance_url = false
is_plain TextField.environment = false
is_plain TextField.keychain_namespace = false
is_plain _ = true

-- The layers of a file.
abbrev pub layers_of : YamlFile → List Config
layers_of missing = []
layers_of (refused e) = []
layers_of (decoded file conjur_url conjur_account) = file ∷ []

abbrev set_after : String → String → String
set_after found s = if s == "" then found else s

text_of-yaml :
    (f : TextField) (file : Config) (url account : String) (c : Config)
    → is_plain f ≡ true
    → text_of f (merge_yaml file url account c) ≡ set_after (text_of f c) (text_of f file)
unfolding merge_yaml
text_of-yaml f file url account c h =
    plainly f h ∙ text_of-merge f c file ∙ merge_text_lem (text_of f c) (text_of f file)
  where
    plainly :
        (g : TextField)
        → is_plain g ≡ true
        → text_of g (merge_yaml file url account c) ≡ text_of g (merge c file)
    plainly TextField.account k = absurd (ground (arith, k))
    plainly TextField.appliance_url k = absurd (ground (arith, k))
    plainly _ k = refl

other_fields :
    (f : TextField) (c : Config) (account environment namespace : String) (resolved : Bool)
    → is_plain f ≡ true
    → text_of f (record c {
      account = account;
      environment = environment;
      keychain_namespace = namespace;
      keychain_namespace_resolved = resolved;
    })
      ≡ text_of f c
other_fields TextField.account c a e n r k = absurd (ground (arith, k))
other_fields TextField.environment c a e n r k = absurd (ground (arith, k))
other_fields TextField.keychain_namespace c a e n r k = absurd (ground (arith, k))
other_fields _ c a e n r k = refl

any_mode :
    (f : TextField) (c : Config) (mode : String)
    → text_of f (record c { credential_storage_mode = mode }) ≡ text_of f c
any_mode TextField.account c mode = refl
any_mode _ c mode = refl

module _ (sources : Sources) (f : TextField) (h : is_plain f ≡ true) where
  abbrev env_value : String
  env_value = text_of f (env_config sources.world.lookup_env)

  checked-plain :
      (exists : Bool) (c : Config) (o : Option String)
      → text_of f (checked sources exists c o).0 ≡ text_of f c
  unfolding checked apply_defaults resolve_credential_storage_mode
  checked-plain exists c (some e) = refl
  checked-plain exists c none =
      any_mode f (apply_defaults sources.world false c).0 _
      ∙ ap (text_of f) (apply_fields sources.world c)
      ∙ other_fields f c _ _ c.keychain_namespace c.keychain_namespace_resolved h

  finish-plain :
      (exists : Bool) (c : Config)
      → text_of f (finish sources exists c).0 ≡ set_after (text_of f c) env_value
  unfolding finish merge_env resolve_keychain_namespace
  finish-plain exists c =
      let merged : Config = merge c (env_config sources.world.lookup_env) in
      checked-plain exists _ _
      ∙ other_fields f merged merged.account merged.environment _ true h
      ∙ text_of-merge f c (env_config sources.world.lookup_env)
      ∙ merge_text_lem (text_of f c) env_value

  user-plain :
      (c : Config) (file : YamlFile)
      → (with_user_file sources c file).2 ≡ none
      → text_of f (with_user_file sources c file).0
        ≡ last_set
            (text_of f c)
            (map (text_of f) (layers_of file ++ env_config sources.world.lookup_env ∷ []))
  unfolding with_user_file
  user-plain c missing e = finish-plain false c
  user-plain c (refused x) e = cc
  user-plain c (decoded file url account) e =
      finish-plain true (merge_yaml file url account c)
      ∙ ap (λ s. set_after s env_value) (text_of-yaml f file url account c h)

  system-plain :
      (c : Config) (file : YamlFile)
      → (with_system_file sources c file).2 ≡ none
      → text_of f (with_system_file sources c file).0
        ≡ last_set (text_of f c) (
            map (text_of f) (
              layers_of file
              ++ layers_of (user_file sources)
              ++ env_config sources.world.lookup_env ∷ []))
  unfolding with_system_file
  system-plain c missing e = user-plain c (user_file sources) e
  system-plain c (refused x) e = cc
  system-plain c (decoded file url account) e =
      user-plain (merge_yaml file url account c) (user_file sources) e
      ∙ ap
          (λ s. last_set s (
            map (text_of f)
              (layers_of (user_file sources) ++ env_config sources.world.lookup_env ∷ [])))
          (text_of-yaml f file url account c h)

  -- When LoadConfig succeeds, each of these text fields of the configuration is the last value that
  -- is set among the default, the system's file, the file of the user and the environment's
  -- variables, in this order, where a file that does not exist is no layer: the path of the netrc
  -- file, the certificate and its path, the type and the service of the authenticator, the
  -- credential storage, the host, the content and the file of the JWT, the proxy, the client of
  -- Azure, the client certificate, its key and the files of both, and the host of the certificate.
  -- Nothing is said of the other fields, the credential storage mode and the telemetry among them.
  pub load_config-layers :
      (load_config sources).2 ≡ none
      → text_of f (load_config sources).0
        ≡ last_set (text_of f (home_config sources.home)) (
            map (text_of f) (
              layers_of (system_file sources)
              ++ layers_of (user_file sources)
              ++ env_config sources.world.lookup_env ∷ []))
  unfolding load_config
  load_config-layers e = system-plain (home_config sources.home) (system_file sources) e
