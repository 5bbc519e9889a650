-- ===== src/Url/Router/Segments.antt =====
-- Where the URLs of conjurapi/router_url.go lead: each caller's value is one segment of the path.
use Prim.Native.String.{String, ◌++◌}
use conjur_api_go.Common.{
  Option, some, List, [], ◌∷◌, ◌==◌, ◌||◌, ◌≡◌, ◌⊎◌, refl, ap₂, subst, arith, eq_iff, inl, inr,
  Bool-cases, All, Result, ok, err, ◌>>=◌, map,
}
use conjur_api_go.Common.Text.{has_char, trim_prefix, join}
use conjur_api_go.Url.Path.{split_all}
use conjur_api_go.Url.Path.Joined.{
  IsSegment, path_join-segments, cut_prefix-join, split_all-join, slash_free,
}
use conjur_api_go.Url.Escape.{path_escape, unescape, utf8}
use conjur_api_go.Url.Escape.Safe.{path_escape-IsSegment}
use conjur_api_go.Url.Escape.RoundTrip.{unescape-path_escape}
use conjur_api_go.Url.Router.{
  ParsedUrl, normalize_base_url, make_router_url, escape_path_segments, bad_components,
  workload_url,
}

-- A value that would be dropped or resolved by path.Join.
abbrev pub IsSpecial : String → Type 0
IsSpecial s = (s ≡ "") ⊎ (s ≡ ".") ⊎ (s ≡ "..")

pub data AnySpecial : List String → Type 0 where
  here : {s : String} {ss : List String} → IsSpecial s → AnySpecial (s ∷ ss)
  there : {s : String} {ss : List String} → AnySpecial ss → AnySpecial (s ∷ ss)

-- The outcome of escapePathSegments.
abbrev pub Escaped : String → List String → Result (List String) → Type 0
Escaped what segments (ok escaped) =
    All IsSegment escaped × (map unescape escaped ≡ map (λ s. some (utf8 s)) segments)
Escaped what segments (err e) = AnySpecial segments × (e ≡ bad_components what)

Escaped-behind :
    (what s : String) (segments : List String)
    → IsSegment (path_escape s)
    → (rest : Result (List String)) → Escaped what segments rest
    → Escaped what (s ∷ segments) (do more ← rest; ok (path_escape s ∷ more))
Escaped-behind what s segments plain (ok more) (h, e) =
    ((plain, h), ap₂ (λ x y. x ∷ y) (unescape-path_escape s) e)
Escaped-behind what s segments plain (err e) (h, k) = (there h, k)

-- escapePathSegments returns one proper path segment for each value (not empty, not "." or "..",
-- without a slash), and percent-decoding gives the bytes of the values back; or it returns its
-- error, and then one of the values is "", "." or "..".
pub escape_path_segments-Escaped :
    (what : String) (segments : List String)
    → Escaped what segments (escape_path_segments what segments)
unfolding escape_path_segments
escape_path_segments-Escaped what [] = (tt, refl)
escape_path_segments-Escaped what (s ∷ segments) =
    elim (Bool-cases (s == "" || s == "." || s == "..")) [
      | inl special ↦
          let which : IsSpecial s = ground (arith, eq_iff s "", eq_iff s ".", eq_iff s "..") in
          rw special (here which, refl)
      | inr proper ↦
          let ih = escape_path_segments-Escaped what segments in
          let plain : IsSegment (path_escape s) =
            path_escape-IsSegment s (ground (arith, eq_iff s "")) (ground (arith, eq_iff s "."))
              (ground (arith, eq_iff s "..")) in
          rw proper (Escaped-behind what s segments plain (escape_path_segments what segments) ih)
    ]

-- The path behind the base URL splits at its slashes into the given segments.
abbrev pub Addresses : (String → Option ParsedUrl) → String → List String → String → Type 0
Addresses parse_url base segments url =
    (path : String) × (url ≡ normalize_base_url parse_url base ++ "/" ++ path)
    × (split_all b'/' path ≡ segments)

-- For proper segments, makeRouterURL returns the normalised base URL, a slash and a path that
-- splits at its slashes into exactly these segments: path.Join drops, resolves and merges none.
pub make_router_url-Addresses :
    (parse_url : String → Option ParsedUrl) (base segment : String) (segments : List String)
    → All IsSegment (segment ∷ segments)
    → Addresses parse_url base
        (segment ∷ segments)
        (make_router_url parse_url base (segment ∷ segments))
unfolding make_router_url trim_prefix
make_router_url-Addresses parse_url base segment segments h = (
  join (segment ∷ segments) "/",
  rw (path_join-segments segment segments h)
      (rw (cut_prefix-join segment segments h.0, trim_prefix) refl),
  split_all-join segment segments (slash_free (segment ∷ segments) h),
)

workloads-IsSegment : IsSegment "workloads"
unfolding has_char
workloads-IsSegment = (
  ground (arith, eq_iff "workloads" ""),
  ground (arith, eq_iff "workloads" "."),
  ground (arith, eq_iff "workloads" ".."),
  refl,
)

workload_result :
    (parse_url : String → Option ParsedUrl) (appliance_url : String) (segments : List String)
    (r : Result (List String))
    → Escaped "Workload URL" segments r
    → {url : String}
    → (do found ← r; ok (make_router_url parse_url appliance_url ("workloads" ∷ found))) ≡ ok url
    → (escaped : List String) × Addresses parse_url appliance_url ("workloads" ∷ escaped) url
      × (map unescape escaped ≡ map (λ s. some (utf8 s)) segments)
workload_result parse_url appliance_url segments (ok escaped) (h, e) {url} f =
    let reached =
      make_router_url-Addresses parse_url appliance_url "workloads" escaped
        (workloads-IsSegment, h) in
    (
      escaped,
      subst (Addresses parse_url appliance_url ("workloads" ∷ escaped)) (ground arith) reached,
      e,
    )
workload_result parse_url appliance_url segments (err _) h f = cc

-- Whatever the identifier and the further components are, a URL that workloadURL returns leads to
-- /workloads with one segment for each of them behind it, and percent-decoding these segments
-- gives the bytes of the identifier and of the components.
pub workload_url-Addresses :
    (parse_url : String → Option ParsedUrl) (appliance_url identifier : String)
    (extra : List String) {url : String}
    → workload_url parse_url appliance_url identifier extra ≡ ok url
    → (escaped : List String) × Addresses parse_url appliance_url ("workloads" ∷ escaped) url
      × (map unescape escaped ≡ map (λ s. some (utf8 s)) (identifier ∷ extra))
unfolding workload_url
workload_url-Addresses parse_url appliance_url identifier extra e =
    elim (Bool-cases (identifier == "")) [
      | inl empty ↦ cc (rw empty at e)
      | inr named ↦
          workload_result parse_url appliance_url (identifier ∷ extra)
            (escape_path_segments "Workload URL" (identifier ∷ extra))
            (escape_path_segments-Escaped "Workload URL" (identifier ∷ extra)) (rw named at e)
    ]
