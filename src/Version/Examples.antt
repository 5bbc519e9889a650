-- ===== src/Version/Examples.antt =====
-- Versions of three numbers, such as "1.23.0" and "1.24.1-7", as an instance of what
-- conjurapi/version.go takes from semver, and the theorems about it there.
use conjur_api_go.Common.{false, none, ◌≡◌, ◌↔◌}
use conjur_api_go.Session.Small.{small_server, small_client}
use conjur_api_go.Version.{validate_min_version, verify_min_server_version}
use conjur_api_go.Version.Small.{small_semver, small_decoding, small_laws, IsPlain-minimum}
use conjur_api_go.Version.Verified.{
  AtLeast, Verified, validate_min_version_iff, verify_min_server_version-Verified,
}

validate_min_version_iff_example :
    (validate_min_version small_semver "1.24.1-7" "1.23.0" ≡ none)
    ↔ AtLeast small_semver small_laws "1.23.0" "1.24.1-7"
validate_min_version_iff_example =
    validate_min_version_iff small_semver small_laws "1.24.1-7" "1.23.0" IsPlain-minimum

verify_min_server_version-Verified_example :
    Verified small_semver small_laws small_server small_decoding (small_client false "") "1.23.0" (
      verify_min_server_version small_server small_decoding small_semver
        (small_client false "")
        "1.23.0"
        "held")
verify_min_server_version-Verified_example =
    verify_min_server_version-Verified small_semver small_laws small_server small_decoding
      (small_client false "") "1.23.0" "held" IsPlain-minimum
