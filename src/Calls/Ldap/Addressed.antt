-- ===== src/Calls/Ldap/Addressed.antt =====
-- Where the URLs of LDAP mappings lead (conjurapi/ldap_mappings.go).
use Prim.Native.String.{String}
use conjur_api_go.Common.{some, [], ◌∷◌, ◌≡◌}
use conjur_api_go.Requests.{Context}
use conjur_api_go.Url.Escape.{unescape, utf8}
use conjur_api_go.Url.Router.Segments.{Addresses}

-- One segment that decodes to this name
abbrev pub Encodes : String → String → Type 0
Encodes part name = unescape part ≡ some (utf8 name)

-- The URL leads to the mappings of this kind of a service.
abbrev pub LeadsToAll : Context → String → String → String → Type 0
LeadsToAll context service_id kind url =
    (service : String) × Encodes service service_id
    × Addresses context.parse_url context.config.appliance_url
        ("authn-ldap" ∷ service ∷ context.config.account ∷ kind ∷ []) url

-- The URL leads to the mapping with this name.
abbrev pub LeadsToOne : Context → String → String → String → String → Type 0
LeadsToOne context service_id kind name url =
    (service : String) × (mapping : String) × Encodes service service_id
    × Encodes mapping name
    × Addresses context.parse_url context.config.appliance_url
        ("authn-ldap" ∷ service ∷ context.config.account ∷ kind ∷ mapping ∷ []) url
