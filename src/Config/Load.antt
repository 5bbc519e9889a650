-- ===== src/Config/Load.antt =====
-- Loading a configuration from files and the environment (mergeYAML, mergeEnv and LoadConfig,
-- conjurapi/config.go). What a file holds is a parameter, decoded by gopkg.in/yaml.v3 and checked by
-- rejectEmptyYAMLKeychainNamespace.
mod Examples
pub mod Layers
use Prim.Native.Char.{code}
use Prim.Native.String.{String, [], ◌∷◌}
use conjur_api_go.Common.{
  ℕ, zero, suc, ◌+◌, ◌-◌, ◌*◌, ℤ, pos, negsuc, Bool, true, false, Option, none, some, List, [], ◌∷◌,
  ◌==◌, ◌&&◌, not, leb, eqb, get_or, if◌then◌else◌,
}
use conjur_api_go.Config.{Config, empty_config, merge, merge_text, http_timeout_default_value}
use conjur_api_go.Config.Validate.{World, is_member, apply_defaults}
use conjur_api_go.Credentials.{resolve_credential_storage_mode}
use conjur_api_go.Storage.{resolve_keychain_namespace, validate_keychain_namespace}
use conjur_api_go.Url.Path.{path_join}

digits_value : String → ℕ → Option ℕ
digits_value [] n = some n
digits_value (c ∷ s) n =
    let rest = digits_value s (n * 10 + (code c - b'0')) in
    if leb b'0' (code c) && leb (code c) b'9' then rest else none

abbrev unsigned : String → Option ℕ
unsigned s = if s == "" then none else digits_value s 0

abbrev positive : Option ℕ → Option ℤ
positive none = none
positive (some n) = if leb n 9223372036854775807 then some (pos n) else none

abbrev negative : Option ℕ → Option ℤ
negative none = none
negative (some zero) = some (pos 0)
negative (some (suc n)) = if leb (suc n) 9223372036854775808 then some (negsuc n) else none

-- strconv.Atoi
unfoldable pub atoi : String → Option ℤ
unfolding digits_value
atoi [] = none
atoi (c ∷ s) =
    if eqb (code c) b'-'
    then negative (unsigned s)
    else if eqb (code c) b'+'
    then positive (unsigned s)
    else positive (unsigned (c ∷ s))

-- strconv.ParseBool
unfoldable pub parse_bool : String → Option Bool
parse_bool s =
    if is_member ("1" ∷ "t" ∷ "T" ∷ "TRUE" ∷ "true" ∷ "True" ∷ []) s
    then some true
    else if is_member ("0" ∷ "f" ∷ "F" ∷ "FALSE" ∷ "false" ∷ "False" ∷ []) s
    then some false
    else none

-- os.Getenv
abbrev pub getenv : (String → Option String) → String → String
getenv lookup_env name = get_or (lookup_env name) ""

-- httpTimoutFromEnv
unfoldable pub http_timeout_from_env : (String → Option String) → ℤ
http_timeout_from_env lookup_env =
    let text = getenv lookup_env "CONJUR_HTTP_TIMEOUT" in
    if text == "" then pos 0 else get_or (atoi text) (pos http_timeout_default_value)

-- disableKeepAlivesFromEnv, whose default is false
unfoldable pub disable_keep_alives_from_env : (String → Option String) → Bool
disable_keep_alives_from_env lookup_env =
    let text = getenv lookup_env "CONJUR_DISABLE_KEEP_ALIVES" in
    if text == "" then false else get_or (parse_bool text) false

-- An authenticator that is named by its own variable for the service ID.
abbrev implied : String → String → Config → Config
implied authn_type service_id env =
    if not (service_id == "")
    then record env { authn_type = authn_type; service_id = merge_text env.service_id service_id }
    else env

-- The configuration that mergeEnv merges
unfoldable pub env_config : (String → Option String) → Config
unfolding http_timeout_from_env disable_keep_alives_from_env
env_config lookup_env =
    let value : String → String = getenv lookup_env in
    let env : Config = record empty_config {
      appliance_url = value "CONJUR_APPLIANCE_URL";
      ssl_cert = value "CONJUR_SSL_CERTIFICATE";
      ssl_cert_path = value "CONJUR_CERT_FILE";
      account = value "CONJUR_ACCOUNT";
      net_rc_path = value "CONJUR_NETRC_PATH";
      credential_storage = value "CONJUR_CREDENTIAL_STORAGE";
      credential_storage_mode = value "CONJUR_CREDENTIAL_STORAGE_MODE";
      authn_type = value "CONJUR_AUTHN_TYPE";
      service_id = value "CONJUR_SERVICE_ID";
      jwt_content = value "CONJUR_AUTHN_JWT_TOKEN";
      jwt_file_path = value "JWT_TOKEN_PATH";
      jwt_host_id = value "CONJUR_AUTHN_JWT_HOST_ID";
      http_timeout = http_timeout_from_env lookup_env;
      disable_keep_alives = disable_keep_alives_from_env lookup_env;
      environment = value "CONJUR_ENVIRONMENT";
      azure_client_id = value "CONJUR_AUTHN_AZURE_CLIENT_ID";
      client_cert_file = value "CONJUR_AUTHN_CERT_FILE";
      client_cert_key_file = value "CONJUR_AUTHN_CERT_KEY_FILE";
      cert_host_id = value "CONJUR_AUTHN_CERT_HOST_ID";
    } in
    implied "cert" (value "CONJUR_AUTHN_CERT_SERVICE_ID")
      (implied "jwt" (value "CONJUR_AUTHN_JWT_SERVICE_ID") env)

-- mergeEnv
unfoldable pub merge_env : (String → Option String) → Config → Config
merge_env lookup_env c = merge c (env_config lookup_env)

-- What a file holds: it does not exist, it cannot be read or is refused, or it is decoded; the two
-- texts are its keys conjur_url and conjur_account.
pub data YamlFile : Type 0 where
  missing : YamlFile
  refused : String → YamlFile
  decoded : Config → String → String → YamlFile

abbrev or_else : String → String → String
or_else found other = if found == "" && not (other == "") then other else found

-- The end of mergeYAML, with the keys of the Python CLI
unfoldable pub merge_yaml : Config → String → String → Config → Config
merge_yaml file conjur_url conjur_account c =
    let merged = merge c file in
    record merged {
      appliance_url = or_else merged.appliance_url conjur_url;
      account = or_else merged.account conjur_account;
    }

-- What LoadConfig is given: the home directory (empty if there is none), the system's directory,
-- the files, and the world that the defaults look at.
pub record Sources : Type 0 where
  pub home : String
  pub system_path : String
  pub file : String → YamlFile
  pub world : World

-- The lines are what is appended to the file of the user.
abbrev pub Loaded : Type 0
Loaded = Config × List (String × String) × Option String

-- Config{} or the default path of .netrc
abbrev pub home_config : String → Config
home_config home =
    if not (home == "")
    then record empty_config { net_rc_path = path_join (home ∷ ".netrc" ∷ []) }
    else empty_config

checked : Sources → Bool → Config → Option String → Loaded
checked sources exists c (some e) = (c, [], some e)
checked sources exists c none =
    let (c1, lines) = apply_defaults sources.world exists c in
    (
      record c1 {
        credential_storage_mode =
            resolve_credential_storage_mode sources.world.lookup_env sources.world.caller
              c1.credential_storage_mode;
      },
      lines,
      none,
    )

-- LoadConfig after the files
unfoldable pub finish : Sources → Bool → Config → Loaded
unfolding checked
finish sources exists c =
    let lookup_env = sources.world.lookup_env in
    let c1 : Config =
      record (resolve_keychain_namespace lookup_env false (merge_env lookup_env c)) {
        keychain_namespace_resolved = true;
      } in
    checked sources exists c1 (validate_keychain_namespace lookup_env c1.keychain_namespace)

with_user_file : Sources → Config → YamlFile → Loaded
unfolding finish
with_user_file sources c missing = finish sources false c
with_user_file sources c (refused e) = (c, [], some e)
with_user_file sources c (decoded file conjur_url conjur_account) =
    finish sources true (merge_yaml file conjur_url conjur_account c)

-- The file of the user: $CONJURRC, or .conjurrc in the home directory, if there is either
abbrev pub user_file : Sources → YamlFile
user_file sources =
    let named = getenv sources.world.lookup_env "CONJURRC" in
    let path =
      if named == "" && not (sources.home == "")
      then path_join (sources.home ∷ ".conjurrc" ∷ [])
      else named in
    if path == "" then missing else sources.file path

abbrev pub system_file : Sources → YamlFile
system_file sources = sources.file (path_join (sources.system_path ∷ "conjur.conf" ∷ []))

with_system_file : Sources → Config → YamlFile → Loaded
unfolding with_user_file
with_system_file sources c missing = with_user_file sources c (user_file sources)
with_system_file sources c (refused e) = (c, [], some e)
with_system_file sources c (decoded file conjur_url conjur_account) =
    with_user_file sources (merge_yaml file conjur_url conjur_account c) (user_file sources)

-- LoadConfig
unfoldable pub load_config : Sources → Loaded
unfolding with_system_file
load_config sources = with_system_file sources (home_config sources.home) (system_file sources)
