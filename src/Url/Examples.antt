-- ===== src/Url/Examples.antt =====
-- Runs of conjurapi/router_url.go and of the escapes, and the theorems about them there.
use Prim.Native.String.{String}
use conjur_api_go.Common.{
  Option, none, some, ◌==◌, ◌≡◌, refl, List, [], ◌∷◌, map, All, err, eq_iff, arith, if◌then◌else◌,
}
use conjur_api_go.Common.Text.{
  join, has_prefix, has_char, to_lower, trim_suffix, trim_prefix, has_suffix, contains,
}
use conjur_api_go.Url.Path.{path_join}
use conjur_api_go.Url.Path.Joined.{IsSegment}
use conjur_api_go.Url.Escape.{path_escape, query_escape, unescape, utf8}
use conjur_api_go.Url.Escape.RoundTrip.{unescape-path_escape}
use conjur_api_go.Url.Router.{
  ParsedUrl, normalize_base_url, make_router_url, escape_path_segments, workload_url,
  is_conjur_cloud_url,
}
use conjur_api_go.Url.Router.Segments.{
  Escaped, Addresses, escape_path_segments-Escaped, make_router_url-Addresses,
  workload_url-Addresses,
}

-- url.Parse at the two addresses of the tests.
abbrev parse_example : String → Option ParsedUrl
parse_example s =
    if s == "https://org.secretsmgr.cyberark.cloud"
    then some (record { scheme = "https"; hostname = "Org.secretsmgr.cyberark.cloud" })
    else none

path_tests :
    (path_join ("a" ∷ "b/../c" ∷ "" ∷ "./d" ∷ []) ≡ "a/c/d")
    × (path_escape "a/b c?é" ≡ "a%2Fb%20c%3F%C3%A9")
    × (query_escape "a b+c" ≡ "a+b%2Bc")
    × (unescape "%zz" ≡ none)
unfolding path_join path_escape query_escape unescape has_prefix join
path_tests = (refl, refl, refl, refl)

router_tests :
    (normalize_base_url parse_example "https://org.secretsmgr.cyberark.cloud/"
      ≡ "https://org.secretsmgr.cyberark.cloud/api")
    × (make_router_url parse_example "https://conjur/" ("secrets" ∷ "x" ∷ [])
        ≡ "https://conjur/secrets/x")
    × (escape_path_segments "X" ("a" ∷ ".." ∷ [])
        ≡ err "X components must not be empty, \".\", or \"..\"")
unfolding normalize_base_url make_router_url escape_path_segments is_conjur_cloud_url to_lower
    trim_suffix trim_prefix has_suffix contains path_join join
router_tests = (refl, refl, refl)

unescape-path_escape_example : unescape (path_escape "a/b") ≡ some (utf8 "a/b")
unescape-path_escape_example = unescape-path_escape "a/b"

escape_path_segments-Escaped_example :
    Escaped "X" ("a/b" ∷ ".." ∷ []) (escape_path_segments "X" ("a/b" ∷ ".." ∷ []))
escape_path_segments-Escaped_example = escape_path_segments-Escaped "X" ("a/b" ∷ ".." ∷ [])

segments-IsSegment : All IsSegment ("secrets" ∷ "x" ∷ [])
unfolding has_char
segments-IsSegment = (
  (
    ground (arith, eq_iff "secrets" ""),
    ground (arith, eq_iff "secrets" "."),
    ground (arith, eq_iff "secrets" ".."),
    refl,
  ),
  (
    (
      ground (arith, eq_iff "x" ""),
      ground (arith, eq_iff "x" "."),
      ground (arith, eq_iff "x" ".."),
      refl,
    ),
    tt,
  ),
)

make_router_url-Addresses_example :
    Addresses parse_example "https://conjur"
      ("secrets" ∷ "x" ∷ [])
      (make_router_url parse_example "https://conjur" ("secrets" ∷ "x" ∷ []))
make_router_url-Addresses_example =
    make_router_url-Addresses parse_example "https://conjur" "secrets" ("x" ∷ []) segments-IsSegment

workload_url-Addresses_example :
    (escaped : List String) × Addresses parse_example "https://conjur"
      ("workloads" ∷ escaped)
      "https://conjur/workloads/a%2Fb/authn"
    × (map unescape escaped ≡ map (λ s. some (utf8 s)) ("a/b" ∷ "authn" ∷ []))
unfolding workload_url escape_path_segments path_escape make_router_url normalize_base_url
    is_conjur_cloud_url trim_suffix trim_prefix path_join has_prefix join
workload_url-Addresses_example =
    workload_url-Addresses parse_example "https://conjur" "a/b" ("authn" ∷ []) refl
