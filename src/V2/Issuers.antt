-- ===== src/V2/Issuers.antt =====
-- Certificates from issuers (conjurapi/issuer_v2.go).
use Prim.Native.String.{String, ◌++◌}
use conjur_api_go.Common.{Bool, true, Option, List, [], ◌∷◌, ◌==◌, not, Result}
use conjur_api_go.Requests.{Context, Request, route}
use conjur_api_go.Requests.Json.{
  Json, bool, text, array, object, Fields, end, field, unless_empty, text_unless_empty, texts,
  is_empty,
}
use conjur_api_go.Session.{Client, Server}
use conjur_api_go.Session.Submit.{Ending, json_call}
use conjur_api_go.V2.{
  new_v2_json_request, v2_api_header_beta, joined, error_if, missing, unless_failed, require_saas,
}

pub record IssuerSubject : Type 0 where
  pub common_name : String
  pub organization : String
  pub org_units : List String
  pub locality : String
  pub state : String
  pub country : String

pub record AltNames : Type 0 where
  pub dns_names : List String
  pub ip_addresses : List String
  pub email_addresses : List String
  pub uris : List String

pub record Issue : Type 0 where
  pub subject : IssuerSubject
  pub key_type : String
  pub alt_names : AltNames
  pub ttl : String
  pub zone : String
  pub ignore_storage : Bool

pub record Sign : Type 0 where
  pub csr : String
  pub zone : String
  pub ttl : String

abbrev texts_unless_empty : String → List String → Fields → Fields
texts_unless_empty key ss more = unless_empty (is_empty ss) key (array (texts ss)) more

abbrev subject_json : IssuerSubject → Json
subject_json s = object (
    field "common_name" (text s.common_name) (
      text_unless_empty "organization" s.organization (
        texts_unless_empty "org_units" s.org_units (
          text_unless_empty "locality" s.locality
            (text_unless_empty "state" s.state (text_unless_empty "country" s.country end))))))

abbrev alt_names_json : AltNames → Json
alt_names_json n = object (
    texts_unless_empty "dns_names" n.dns_names (
      texts_unless_empty "ip_addresses" n.ip_addresses (
        texts_unless_empty "email_addresses" n.email_addresses
          (texts_unless_empty "uris" n.uris end))))

-- The option omitempty of the alternative names has no effect, since they are a struct.
unfoldable pub issue_json : Issue → Json
issue_json i = object (
    field "subject" (subject_json i.subject) (
      text_unless_empty "key_type" i.key_type (
        field "alt_names" (alt_names_json i.alt_names) (
          text_unless_empty "ttl" i.ttl (
            text_unless_empty "zone" i.zone
              (unless_empty (not i.ignore_storage) "ignore_storage" (bool true) end))))))

unfoldable pub sign_json : Sign → Json
sign_json s =
    object (
      field "csr" (text s.csr)
        (text_unless_empty "zone" s.zone (text_unless_empty "ttl" s.ttl end)))

-- IssuerSubject.Validate, which Issue.Validate calls
unfoldable pub validate_subject : IssuerSubject → Option String
validate_subject s =
    joined
      (error_if (missing (s.common_name == "") "Missing required Subject attribute CommonName") [])

-- Sign.Validate
unfoldable pub validate_sign : Sign → Option String
validate_sign s = joined (error_if (missing (s.csr == "") "Missing required Sign attribute csr") [])

unfoldable pub certificate_issue_request : Context → String → Issue → Result Request
unfolding issue_json
certificate_issue_request context issuer_name issue =
    unless_failed (validate_subject issue.subject) (
      unless_failed (validate_subject issue.subject) (
        new_v2_json_request context "POST"
          (route context (("issuers/" ++ issuer_name ++ "/issue") ∷ [])) (issue_json issue)
          v2_api_header_beta))

unfoldable pub certificate_sign_request : Context → String → Sign → Result Request
unfolding sign_json
certificate_sign_request context issuer_name sign = unless_failed (validate_sign sign) (
    new_v2_json_request context "POST" (route context (("issuers/" ++ issuer_name ++ "/sign") ∷ []))
      (sign_json sign) v2_api_header_beta)

abbrev pub issue_api_name : String
issue_api_name = "Issue API"

module _ {W A : Type 0} (server : Server W) (decode : String → Result A) where
  unfoldable pub certificate_issue : String → Issue → Client W → W → Ending W A
  certificate_issue issuer_name issue c w = require_saas issue_api_name c w (
      json_call server decode c
        (certificate_issue_request (server.context c.config) issuer_name issue) w)

  unfoldable pub certificate_sign : String → Sign → Client W → W → Ending W A
  certificate_sign issuer_name sign c w = require_saas issue_api_name c w (
      json_call server decode c
        (certificate_sign_request (server.context c.config) issuer_name sign) w)
