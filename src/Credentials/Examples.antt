-- ===== src/Credentials/Examples.antt =====
-- Runs of the storage-mode functions of conjurapi/credential_storage_mode.go, and the theorems there.
use Prim.Native.String.{String}
use conjur_api_go.Common.{Option, none, some, ◌==◌, ◌≡◌, refl, inr, [], ◌∷◌, if◌then◌else◌}
use conjur_api_go.Common.Text.{to_lower, trim_space}
use conjur_api_go.Credentials.{
  parse_credential_storage_mode, mode_read_only, CallerDefault,
  with_default_credential_storage_mode, merge_credential_storage_mode,
  resolve_credential_storage_mode,
}
use conjur_api_go.Credentials.Modes.{
  IsCallerDefault, first_mode, resolve-first_mode, with_default-IsCallerDefault,
}

abbrev env_read_only : String → Option String
env_read_only name = if name == "CONJUR_CREDENTIAL_STORAGE_MODE" then some " ReadOnly" else none

abbrev caller : CallerDefault
caller = some "readwrite"

caller-IsCallerDefault : IsCallerDefault (some mode_read_only)
caller-IsCallerDefault = inr refl

resolve_tests :
    (resolve_credential_storage_mode env_read_only caller "" ≡ "readonly")
    × (resolve_credential_storage_mode env_read_only caller "READWRITE" ≡ "readwrite")
    × (resolve_credential_storage_mode (λ name. none) caller "neither" ≡ "readwrite")
    × (merge_credential_storage_mode "x" "readonly" ≡ "readonly")
unfolding resolve_credential_storage_mode merge_credential_storage_mode to_lower trim_space
    parse_credential_storage_mode
resolve_tests = (refl, refl, refl, refl)

resolve-first_mode_example :
    resolve_credential_storage_mode env_read_only (some mode_read_only) "bad"
    ≡ first_mode ("bad" ∷ " ReadOnly" ∷ "readonly" ∷ [])
resolve-first_mode_example =
    resolve-first_mode env_read_only (some mode_read_only) "bad" caller-IsCallerDefault

with_default-IsCallerDefault_example :
    IsCallerDefault (with_default_credential_storage_mode "bad" (some mode_read_only))
with_default-IsCallerDefault_example =
    with_default-IsCallerDefault "bad" (some mode_read_only) caller-IsCallerDefault
