-- ===== src/Storage.antt =====
-- Credential storage: which provider a configuration asks for, and under which name it stores
-- (conjurapi/storage.go; the namespace: conjurapi/keychain_namespace.go and
-- validateKeychainNamespace of conjurapi/config.go).
mod Examples
pub mod Keyring
pub mod Names
pub mod Netrc
use Prim.Native.Char.{code}
use Prim.Native.String.{String, [], ◌∷◌, ◌++◌}
use conjur_api_go.Common.{
  Bool, true, false, Option, none, some, ◌==◌, ◌&&◌, ◌||◌, not, eqb, get_or, is_some, if◌then◌else◌,
  Result, ok, err, ◌>>=◌, List, [], ◌∷◌,
}
use conjur_api_go.Config.{Config}
use conjur_api_go.Url.Path.{path_join}

abbrev pub keychain_namespace_env_var : String
keychain_namespace_env_var = "CONJUR_KEYCHAIN_NAMESPACE"

-- resolveKeychainNamespace
unfoldable pub resolve_keychain_namespace : (String → Option String) → Bool → Config → Config
resolve_keychain_namespace lookup_env from_caller_config c =
    if from_caller_config && not (c.keychain_namespace == "") then c else record c {
      keychain_namespace = get_or (lookup_env keychain_namespace_env_var) c.keychain_namespace;
    }

-- Is there one of / \ : and the character 0?
unfoldable pub has_invalid_char : String → Bool
has_invalid_char [] = false
has_invalid_char (c ∷ s) =
    eqb (code c) b'/'
    || eqb (code c) 92
    || eqb (code c) b':'
    || eqb (code c) 0
    || has_invalid_char s

-- validateKeychainNamespace: the error, if there is one. The character is not shown in it.
unfoldable pub validate_keychain_namespace : (String → Option String) → String → Option String
unfolding has_invalid_char
validate_keychain_namespace lookup_env namespace =
    if namespace == ""
    then (if is_some (lookup_env keychain_namespace_env_var)
          && get_or (lookup_env keychain_namespace_env_var) "unset" == ""
        then some "CONJUR_KEYCHAIN_NAMESPACE must not be empty"
        else none)
    else if has_invalid_char namespace
    then some "keychain namespace contains invalid character"
    else none

-- getMachineName
unfoldable pub get_machine_name : Config → String
get_machine_name config =
    if not (config.authn_type == "") && not (config.authn_type == "authn")
    then config.appliance_url ++ "/" ++ ("authn-" ++ config.authn_type) ++ "/" ++ config.service_id
    else config.appliance_url ++ "/authn"

-- keyringServiceName
unfoldable pub keyring_service_name : Config → String
keyring_service_name config =
    let machine_name = get_machine_name config in
    if config.keychain_namespace == ""
    then machine_name
    else machine_name ++ ":" ++ config.keychain_namespace

-- What createStorageProvider returns: the kind of provider and its name for the machine.
pub data Provider : Type 0 where
  netrc : String → String → Provider
  keyring : String → Provider
  no_storage : Provider

-- What creating a netrc provider asks of the system: os.UserHomeDir, and ensureNetrcFileExists for a
-- path, its error, if there is one.
pub record NetrcSystem : Type 0 where
  pub user_home_dir : Result String
  pub ensure_exists : String → Option String

-- The path that is given, or .netrc in the home directory
path_or_home : Result String → String → Result String
path_or_home home path =
    if path == ""
    then (elim home [
      | err e ↦ err ("Failed to get user home directory: " ++ e)
      | ok dir ↦ ok (path_join (dir ∷ ".netrc" ∷ []))
    ])
    else ok path

existing : Option String → Provider → Result Provider
existing none provider = ok provider
existing (some e) provider = err ("failed to ensure .netrc file exists: " ++ e)

-- NewNetrcStorageProvider
unfoldable pub new_netrc_storage_provider : NetrcSystem → String → String → Result Provider
unfolding path_or_home existing
new_netrc_storage_provider system net_rc_path machine_name = do
  path ← path_or_home system.user_home_dir net_rc_path
  existing (system.ensure_exists path) (netrc path machine_name)

-- getDefaultCredentialStorage
unfoldable pub get_default_credential_storage : Bool → String
get_default_credential_storage keyring_available = if keyring_available then "keyring" else "file"

unfoldable pub create_storage_provider : Bool → NetrcSystem → Config → Result Provider
unfolding new_netrc_storage_provider get_default_credential_storage
create_storage_provider keyring_available system config =
    let storage =
      if config.credential_storage == ""
      then get_default_credential_storage keyring_available
      else config.credential_storage in
    if storage == "file"
    then new_netrc_storage_provider system config.net_rc_path (get_machine_name config)
    else if storage == "keyring"
    then (if not keyring_available
        then err "Keyring is not available"
        else ok (keyring (keyring_service_name config)))
    else if storage == "none"
    then ok no_storage
    else err "Unknown credential storage type"
