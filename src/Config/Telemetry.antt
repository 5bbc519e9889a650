-- ===== src/Config/Telemetry.antt =====
-- The telemetry header and its cache (conjurapi/config.go; the override in NewClient of
-- conjurapi/client.go). `encode` is the URL-safe base64 encoding and `version_file` what reading
-- the file ../VERSION gives.
pub mod Cache
use Prim.Native.String.{String, ◌++◌}
use conjur_api_go.Common.{Bool, ◌==◌, not, if◌then◌else◌, Result, ok, err}
use conjur_api_go.Config.{Config}

abbrev pub default_integration_name : String
default_integration_name = "SecretsManagerGo SDK"

abbrev pub default_integration_type : String
default_integration_type = "cybr-secretsmanager"

abbrev pub default_integration_version : String
default_integration_version = "0.0.0"

abbrev pub default_vendor_name : String
default_vendor_name = "CyberArk"

unfoldable pub set_integration_name : String → Config → Config
set_integration_name inname c = record c { integration_name = inname; final_telemetry_header = "" }

unfoldable pub set_integration_type : String → Config → Config
set_integration_type intype c = record c { integration_type = intype; final_telemetry_header = "" }

-- GetReleaseVersion, the version that it returns beside an error included
unfoldable pub get_release_version : Result String → String
get_release_version (ok text) = text
get_release_version (err e) = default_integration_version

unfoldable pub set_integration_version : Result String → String → Config → Config
unfolding get_release_version
set_integration_version version_file inversion c = record c {
  integration_version =
      if inversion == default_integration_version
      then get_release_version version_file
      else inversion;
  final_telemetry_header = "";
}

unfoldable pub set_vendor_name : String → Config → Config
set_vendor_name vname c = record c { vendor_name = vname; final_telemetry_header = "" }

unfoldable pub set_vendor_version : String → Config → Config
set_vendor_version vversion c = record c { vendor_version = vversion; final_telemetry_header = "" }

unfoldable pub set_default_integration_metadata : Result String → Config → Config
unfolding set_integration_name set_integration_type set_integration_version set_vendor_name
set_default_integration_metadata version_file c =
    let c1 =
      if c.integration_name == "" then set_integration_name default_integration_name c else c in
    let c2 =
      if c1.integration_type == "" then set_integration_type default_integration_type c1 else c1 in
    let c3 =
      if c2.integration_version == ""
      then set_integration_version version_file default_integration_version c2
      else c2 in
    if c3.vendor_name == "" then set_vendor_name default_vendor_name c3 else c3

abbrev labelled : String → String → String
labelled label value = if not (value == "") then label ++ value else ""

-- The text that SetFinalTelemetryHeader builds, from the five fields.
unfoldable pub header_of : String → String → String → String → String → String
header_of name kind version vendor release =
    let integration =
      if not (name == "")
      then ("in=" ++ name) ++ labelled "&iv=" version ++ labelled "&it=" kind
      else "" in
    let vending =
      if not (vendor == "") then ("&vn=" ++ vendor) ++ labelled "&vv=" release else "" in
    integration ++ vending

abbrev pub header_text : Config → String
header_text c =
    header_of c.integration_name c.integration_type c.integration_version c.vendor_name
      c.vendor_version

-- SetFinalTelemetryHeader: the changed configuration and the header.
unfoldable pub set_final_telemetry_header :
    (String → String) → Result String → Config → Config × String
set_final_telemetry_header encode version_file c =
    let c1 = set_default_integration_metadata version_file c in
    let encoded = encode (header_text c1) in
    if not (c.final_telemetry_header == "")
    then (c, c.final_telemetry_header)
    else (record c1 { final_telemetry_header = encoded }, encoded)

pub record Telemetry : Type 0 where
  pub integration_name : String
  pub integration_type : String
  pub integration_version : String
  pub vendor_name : String
  pub vendor_version : String

-- The assignments of NewClient: the fields are set, the cached header is left as it is.
unfoldable pub override_telemetry : Telemetry → Config → Config
override_telemetry t c = record c {
  integration_name = t.integration_name;
  integration_type = t.integration_type;
  integration_version = t.integration_version;
  vendor_name = t.vendor_name;
  vendor_version = t.vendor_version;
}
