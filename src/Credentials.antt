-- ===== src/Credentials.antt =====
-- Whether credential storage accepts writes (conjurapi/credential_storage_mode.go).
-- A lookup in the process environment is a function; `none` is an unset variable.
mod Examples
pub mod Modes
use Prim.Native.String.{String}
use conjur_api_go.Common.{Bool, true, false, Option, none, some, ◌==◌, get_or, if◌then◌else◌}
use conjur_api_go.Common.Text.{to_lower, trim_space}

abbrev pub mode_read_write : String
mode_read_write = "readwrite"

abbrev pub mode_read_only : String
mode_read_only = "readonly"

abbrev pub mode_env_var : String
mode_env_var = "CONJUR_CREDENTIAL_STORAGE_MODE"

known_mode : String → Option String
known_mode s =
    if s == mode_read_write
    then some mode_read_write
    else if s == mode_read_only
    then some mode_read_only
    else none

-- The mode, or `none` where the second result is false.
unfoldable pub parse_credential_storage_mode : String → Option String
unfolding known_mode
parse_credential_storage_mode raw = known_mode (to_lower (trim_space raw))

-- The package's variables callerDefaultCredentialStorageMode and …ModeSet.
abbrev pub CallerDefault : Type 0
CallerDefault = Option String

-- The new value of an option, if there is one.
abbrev pub replace : Option String → CallerDefault → CallerDefault
replace none caller = caller
replace (some mode) caller = some mode

-- WithDefaultCredentialStorageMode: the new value of the package's variables.
unfoldable pub with_default_credential_storage_mode : String → CallerDefault → CallerDefault
with_default_credential_storage_mode mode caller =
    replace (parse_credential_storage_mode mode) caller

unfoldable pub effective_default_credential_storage_mode : CallerDefault → String
effective_default_credential_storage_mode caller = get_or caller mode_read_write

unfoldable pub merge_credential_storage_mode : String → String → String
merge_credential_storage_mode existing incoming =
    get_or (parse_credential_storage_mode existing)
      (get_or (parse_credential_storage_mode incoming) "")

-- What resolveCredentialStorageMode takes from the environment: an unset or empty variable and an
-- invalid value leave the default.
unfoldable pub mode_from_env : (String → Option String) → CallerDefault → String
unfolding effective_default_credential_storage_mode
mode_from_env lookup_env caller =
    let raw = get_or (lookup_env mode_env_var) "" in
    let fallback = effective_default_credential_storage_mode caller in
    if raw == "" then fallback else get_or (parse_credential_storage_mode raw) fallback

-- resolveCredentialStorageMode, on the field of the configuration that it reads and writes.
unfoldable pub resolve_credential_storage_mode :
    (String → Option String) → CallerDefault → String → String
unfolding mode_from_env
resolve_credential_storage_mode lookup_env caller configured =
    get_or (parse_credential_storage_mode configured) (mode_from_env lookup_env caller)

-- shouldStoreCredentials (conjurapi/authn.go), on the mode of the configuration.
unfoldable pub should_store_credentials : String → Bool
should_store_credentials mode =
    let effective = if mode == "" then mode_read_write else mode in
    if effective == mode_read_only then false else true
