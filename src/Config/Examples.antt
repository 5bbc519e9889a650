-- ===== src/Config/Examples.antt =====
-- Runs of the pure operations of conjurapi/config.go, and the theorems about them there.
use conjur_api_go.Common.Text.{has_prefix}
use Prim.Native.String.{String}
use conjur_api_go.Common.{pos, String, ◌≡◌, refl, inl, [], ◌∷◌, err}
use conjur_api_go.Config.{Config, empty_config, base_url, get_http_timeout, merge, redacted}
use conjur_api_go.Config.Secrets.{with_secrets, redacted_hides}
use conjur_api_go.Config.Telemetry.{set_final_telemetry_header, Telemetry}
use conjur_api_go.Config.Telemetry.Cache.{
  current_header, perform_all, header, name, telemetry_header-fresh,
}

abbrev file_layer : Config
file_layer = record empty_config {
  account = "dev";
  appliance_url = "conjur";
  http_timeout = pos 900;
}

abbrev env_layer : Config
env_layer = record empty_config { account = "prod"; client_cert_key = "key" }

config_tests :
    ((merge file_layer env_layer).account ≡ "prod")
    × ((merge file_layer env_layer).appliance_url ≡ "conjur")
    × (get_http_timeout file_layer ≡ pos 60)
    × (base_url file_layer ≡ "http://conjur")
    × ((redacted env_layer).client_cert_key ≡ "[REDACTED]")
unfolding merge get_http_timeout base_url redacted has_prefix
config_tests = (refl, refl, refl, refl, refl)

redacted_hides_example : redacted (with_secrets env_layer "" "other" "") ≡ redacted env_layer
redacted_hides_example = redacted_hides env_layer "" "other" "" refl refl refl

abbrev plain_encode : String → String
plain_encode s = s

telemetry_header-fresh_example :
    (set_final_telemetry_header plain_encode
      (err "no file")
      (perform_all plain_encode (err "no file") (header ∷ name "x" ∷ []) empty_config)).1
    ≡ current_header plain_encode
        (err "no file")
        (perform_all plain_encode (err "no file") (header ∷ name "x" ∷ []) empty_config)
telemetry_header-fresh_example =
    telemetry_header-fresh plain_encode (err "no file") (header ∷ name "x" ∷ []) empty_config
      (inl refl)

abbrev telemetry : Telemetry
telemetry = record {
  integration_name = "app";
  integration_type = "";
  integration_version = "1";
  vendor_name = "v";
  vendor_version = "";
}

abbrev cached_config : Config
cached_config = record empty_config { final_telemetry_header = "cached" }
