-- ===== src/Requests.antt =====
-- Building requests (conjurapi/requests.go): the client's own URLs, and the shape of a request.
pub mod Authn
mod Examples
pub mod Json
pub mod Objects
pub mod Secrets
use Prim.Native.Char.{Char}
use Prim.Native.String.{String, [], ◌∷◌, ◌++◌}
use conjur_api_go.Common.{
  ℕ, zero, suc, ◌/◌, ◌%◌, ℤ, pos, negsuc, Bool, true, false, Option, none, some, List, [], ◌∷◌,
  ◌==◌, ◌&&◌, not, eqb, if◌then◌else◌, Result, ok, err, ◌≡◌, refl,
}
use conjur_api_go.Common.Text.{has_prefix, nth_char, join}
use conjur_api_go.Config.{Config}
use conjur_api_go.Ids.{IdParts}
use conjur_api_go.Url.Escape.{path_escape, query_escape}
use conjur_api_go.Url.Router.{ParsedUrl, make_router_url, with_query}

abbrev zero_digit : Char
zero_digit = "0"

-- What a client builds requests from: its configuration, its telemetry header, url.Parse, and the
-- error of http.NewRequest for a URL, if there is one.
pub record Context : Type 0 where
  pub config : Config
  pub telemetry_header : String
  pub parse_url : String → Option ParsedUrl
  pub url_error : String → Option String

-- The headers in the order in which they are added; the basic authentication is the login and the
-- password of SetBasicAuth.
pub record Request : Type 0 where
  pub method : String
  pub url : String
  pub body : Option String
  pub headers : List (String × String)
  pub basic : Option (String × String)

abbrev pub conjur_source_header : String
conjur_source_header = "x-cybr-telemetry"

abbrev pub built : Option String → Request → Result Request
built none request = ok request
built (some e) request = err e

-- http.NewRequest, and the headers that are set on what it returns
unfoldable pub new_request :
    Context → String → String → Option String → List (String × String) → Result Request
new_request context method url body headers =
    built (context.url_error url)
      (record { method = method; url = url; body = body; headers = headers; basic = none })

-- A request whose headers are set before the error of http.NewRequest is looked at: with an error
-- there is no request to set them on, and the program panics.
abbrev pub unguarded : Result Request → Result Request
unguarded (ok request) = ok request
unguarded (err e) = err "panic: invalid memory address or nil pointer dereference"

unfoldable pub new_basic_request :
    Context
    → String
    → String
    → Option String
    → List (String × String)
    → String × String
    → Result Request
new_basic_request context method url body headers login =
    built (context.url_error url)
      (record { method = method; url = url; body = body; headers = headers; basic = some login })

abbrev pub telemetry : Context → String × String
telemetry context = (conjur_source_header, context.telemetry_header)

-- The decimal digits of a number before a text; twenty are enough for 64 bits.
show_digits : ℕ → ℕ → String → String
show_digits zero n behind = behind
show_digits (suc fuel) n behind =
    let shown : String = nth_char "0123456789" (n % 10) zero_digit ∷ behind in
    let rest = show_digits fuel (n / 10) shown in if eqb (n / 10) 0 then shown else rest

-- strconv.Itoa
unfoldable pub itoa : ℤ → String
unfolding show_digits
itoa (pos n) = show_digits 20 n ""
itoa (negsuc n) = "-" ++ show_digits 20 (suc n) ""

-- fmt.Sprintf("%s:%s:%s", account, kind, identifier)
abbrev pub full : IdParts → String
full (account, kind, identifier) = account ++ ":" ++ kind ++ ":" ++ identifier

-- ensureHostPrefix
unfoldable pub ensure_host_prefix : String → String
ensure_host_prefix host_id = if has_prefix host_id "host/" then host_id else "host/" ++ host_id

-- makeRouterURL on the client's appliance
abbrev pub route : Context → List String → String
route context components = make_router_url context.parse_url context.config.appliance_url components

abbrev pub route_from : Context → String → List String → String
route_from context base components = make_router_url context.parse_url base components

-- authnURL
unfoldable pub authn_url : Context → String → String → String
authn_url context authenticator_type service_id =
    let account = context.config.account in
    let authn_type = "authn-" ++ authenticator_type in
    if authenticator_type == "gcp"
    then route context (authn_type ∷ account ∷ [])
    else if authenticator_type == "cloud"
    then route context ("authn-oidc" ∷ service_id ∷ account ∷ [])
    else if not (authenticator_type == "") && not (authenticator_type == "authn")
    then route context (authn_type ∷ service_id ∷ account ∷ [])
    else route context ("authn" ∷ account ∷ [])

unfoldable pub oidc_providers_url : Context → String
oidc_providers_url context =
    route context ("authn-oidc" ∷ context.config.account ∷ "providers" ∷ [])

unfoldable pub resources_url : Context → String → String
resources_url context account = route context ("resources" ∷ account ∷ [])

unfoldable pub roles_url : Context → String → String
roles_url context account = route context ("roles" ∷ account ∷ [])

unfoldable pub secrets_url : Context → String → String
secrets_url context account = route context ("secrets" ∷ account ∷ [])

unfoldable pub global_secrets_url : Context → String
global_secrets_url context = route context ("secrets" ∷ [])

unfoldable pub policies_url : Context → String → String
policies_url context account = route context ("policies" ∷ account ∷ [])

unfoldable pub create_token_url : Context → String
create_token_url context = route context ("host_factory_tokens" ∷ [])

unfoldable pub create_host_url : Context → String
create_host_url context = route context ("host_factories/hosts" ∷ [])

requests_tests :
    (itoa (pos 1203) ≡ "1203") × (itoa (negsuc 0) ≡ "-1") × (ensure_host_prefix "a" ≡ "host/a")
unfolding itoa ensure_host_prefix has_prefix
requests_tests = (refl, refl, refl)
