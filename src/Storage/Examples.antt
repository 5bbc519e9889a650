-- ===== src/Storage/Examples.antt =====
-- Runs of conjurapi/storage.go, and the theorem on names in the keyring there.
use Prim.Native.String.{String}
use conjur_api_go.Common.{
  true, false, Option, none, some, ◌≡◌, refl, Result, ok, err, eq_iff, arith,
}
use conjur_api_go.Common.Text.{has_prefix, join}
use conjur_api_go.Config.{Config, empty_config}
use conjur_api_go.Storage.{
  validate_keychain_namespace, get_machine_name, keyring_service_name, create_storage_provider,
  keyring, netrc, NetrcSystem,
}
use conjur_api_go.Url.Path.{path_join}
use conjur_api_go.Storage.Names.{keyring_service_name_injective}

abbrev named_config : String → Config
named_config namespace = record empty_config {
  appliance_url = "https://conjur";
  authn_type = "ldap";
  service_id = "main";
  keychain_namespace = namespace;
}

no_env : String → Option String
no_env name = none

abbrev system : Result String → NetrcSystem
system home = record { user_home_dir = home; ensure_exists = λ path. none }

storage_tests :
    (keyring_service_name (named_config "team") ≡ "https://conjur/authn-ldap/main:team")
    × (create_storage_provider true (system (err "no home")) (named_config "")
        ≡ ok (keyring "https://conjur/authn-ldap/main"))
    × (create_storage_provider false (system (ok "/home/alice")) (named_config "team")
        ≡ ok (netrc "/home/alice/.netrc" "https://conjur/authn-ldap/main"))
    × (create_storage_provider false (system (err "no home")) (named_config "team")
        ≡ err "Failed to get user home directory: no home")
    × (validate_keychain_namespace no_env "a:b"
        ≡ some "keychain namespace contains invalid character")
unfolding path_join has_prefix join keyring_service_name get_machine_name create_storage_provider
    validate_keychain_namespace no_env
storage_tests = (refl, refl, refl, refl, refl)

keyring_service_name_injective_example :
    (get_machine_name (named_config "team") ≡ get_machine_name (named_config "team"))
    × (◌≡◌ {A = String} "team" "team")
keyring_service_name_injective_example =
    keyring_service_name_injective no_env (named_config "team") (named_config "team")
      (λ e. absurd (ground (arith, eq_iff "team" "", e)))
      (λ e. absurd (ground (arith, eq_iff "team" "", e)))
      (unfold validate_keychain_namespace in refl) (unfold validate_keychain_namespace in refl) refl
