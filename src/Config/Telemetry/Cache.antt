-- ===== src/Config/Telemetry/Cache.antt =====
-- The cached telemetry header (conjurapi/config.go).
use Prim.Native.String.{String}
use conjur_api_go.Common.{
  List, [], ◌∷◌, ◌==◌, ◌≡◌, ◌⊎◌, inl, inr, refl, sym, ap, if◌then◌else◌, Result, arith, eq_iff,
  Bool-cases,
}
use conjur_api_go.Config.{Config}
use conjur_api_go.Config.Telemetry.{
  header_of, default_integration_name, default_integration_type, default_vendor_name,
  get_release_version, header_text, set_integration_name, set_integration_type,
  set_integration_version, set_vendor_name, set_vendor_version, set_default_integration_metadata,
  set_final_telemetry_header,
}

twice_filled :
    (x d : String) {y z : String}
    → z ≡ (if y == "" then d else y)
    → y ≡ (if x == "" then d else x)
    → z ≡ y
twice_filled x d {y} {z} e f = ground (arith, eq_iff x "", eq_iff y "", eq_iff d "")

module _ (encode : String → String) (version_file : Result String) where
  -- The header for the fields as they stand, the defaults filled in.
  abbrev pub current_header : Config → String
  current_header c = encode (header_text (set_default_integration_metadata version_file c))

  -- The cache is empty, or it is the header for the fields as they stand.
  abbrev pub IsFresh : Config → Type 0
  IsFresh c = (c.final_telemetry_header ≡ "") ⊎ (c.final_telemetry_header ≡ current_header c)

  abbrev filled : Config → Config
  filled c = set_default_integration_metadata version_file c

  filled_name :
      (c : Config)
      → (filled c).integration_name
        ≡ (if c.integration_name == "" then default_integration_name else c.integration_name)
  unfolding set_default_integration_metadata
  filled_name c = ground arith

  filled_type :
      (c : Config)
      → (filled c).integration_type
        ≡ (if c.integration_type == "" then default_integration_type else c.integration_type)
  unfolding set_default_integration_metadata
  filled_type c = ground arith

  filled_version :
      (c : Config)
      → (filled c).integration_version ≡ (
          if c.integration_version == ""
          then get_release_version version_file
          else c.integration_version)
  unfolding set_default_integration_metadata
  filled_version c = ground arith

  filled_vendor :
      (c : Config)
      → (filled c).vendor_name
        ≡ (if c.vendor_name == "" then default_vendor_name else c.vendor_name)
  unfolding set_default_integration_metadata
  filled_vendor c = ground arith

  filled_release : (c : Config) → (filled c).vendor_version ≡ c.vendor_version
  unfolding set_default_integration_metadata
  filled_release c = ground arith

  -- Filling in defaults once more does not change the text of the header.
  header_text-filled :
      (c : Config) (cached : String)
      → header_text (filled (record (filled c) { final_telemetry_header = cached }))
        ≡ header_text (filled c)
  header_text-filled c cached =
      let d = record (filled c) { final_telemetry_header = cached } in
      let same_name =
        twice_filled c.integration_name default_integration_name (filled_name d) (filled_name c) in
      let same_type =
        twice_filled c.integration_type default_integration_type (filled_type d) (filled_type c) in
      let same_version =
        twice_filled c.integration_version (get_release_version version_file) (filled_version d)
          (filled_version c) in
      let same_vendor =
        twice_filled c.vendor_name default_vendor_name (filled_vendor d) (filled_vendor c) in
      λ i.
        header_of (same_name i) (same_type i) (same_version i) (same_vendor i) (filled_release d i)

  -- The operations on the telemetry of a configuration.
  pub data Operation : Type 0 where
    name kind version vendor vendor_release : String → Operation
    header : Operation

  unfoldable pub perform : Operation → Config → Config
  perform (name s) c = set_integration_name s c
  perform (kind s) c = set_integration_type s c
  perform (version s) c = set_integration_version version_file s c
  perform (vendor s) c = set_vendor_name s c
  perform (vendor_release s) c = set_vendor_version s c
  perform header c = (set_final_telemetry_header encode version_file c).0

  unfoldable pub perform_all : List Operation → Config → Config
  perform_all [] c = c
  perform_all (o ∷ os) c = perform_all os (perform o c)

  header-IsFresh :
      (c : Config) → IsFresh c → IsFresh (set_final_telemetry_header encode version_file c).0
  unfolding set_final_telemetry_header
  header-IsFresh c h = elim (Bool-cases (c.final_telemetry_header == "")) [
    | inl unset ↦ rw unset (inr (ap encode (sym (header_text-filled c (current_header c)))))
    | inr cached ↦ rw cached h
  ]

  perform-IsFresh : (o : Operation) (c : Config) → IsFresh c → IsFresh (perform o c)
  unfolding perform set_integration_name set_integration_type set_integration_version
      set_vendor_name set_vendor_version
  perform-IsFresh (name s) c h = inl refl
  perform-IsFresh (kind s) c h = inl refl
  perform-IsFresh (version s) c h = inl refl
  perform-IsFresh (vendor s) c h = inl refl
  perform-IsFresh (vendor_release s) c h = inl refl
  perform-IsFresh header c h = header-IsFresh c h

  perform_all-IsFresh : (os : List Operation) (c : Config) → IsFresh c → IsFresh (perform_all os c)
  unfolding perform_all
  perform_all-IsFresh [] c h = h
  perform_all-IsFresh (o ∷ os) c h = perform_all-IsFresh os (perform o c) (perform-IsFresh o c h)

  returned_header :
      (c : Config)
      → IsFresh c
      → (set_final_telemetry_header encode version_file c).1 ≡ current_header c
  unfolding set_final_telemetry_header
  returned_header c (inl unset) = ground (arith, eq_iff c.final_telemetry_header "")
  returned_header c (inr cached) = elim (Bool-cases (c.final_telemetry_header == "")) [
    | inl e ↦ rw e refl
    | inr e ↦ rw e cached
  ]

  -- From a configuration whose cache is empty or up to date, after any sequence of setters and of
  -- calls of SetFinalTelemetryHeader, with the same ../VERSION file throughout, the header that
  -- SetFinalTelemetryHeader returns is the encoding of the fields as they then stand, defaults
  -- filled in: the cache is never stale.
  pub telemetry_header-fresh :
      (os : List Operation) (c : Config)
      → IsFresh c
      → (set_final_telemetry_header encode version_file (perform_all os c)).1
        ≡ current_header (perform_all os c)
  telemetry_header-fresh os c h = returned_header (perform_all os c) (perform_all-IsFresh os c h)
