-- ===== src/Requests/Secrets/Addressed.antt =====
-- Requests on secrets reach the secret that is named (conjurapi/requests.go).
use Prim.Native.String.{String}
use conjur_api_go.Common.{
  Option, none, some, [], ◌∷◌, ◌≡◌, ◌≢◌, refl, sym, ap, subst, arith, distinct, ok,
}
use conjur_api_go.Common.Text.{has_char}
use conjur_api_go.Ids.Full.{Denotes, parse_id-make_full_id}
use conjur_api_go.Ids.Parse.{IsClean}
use conjur_api_go.Url.Escape.{path_escape, unescape, utf8}
use conjur_api_go.Url.Escape.RoundTrip.{unescape-path_escape}
use conjur_api_go.Url.Escape.Safe.{path_escape-IsSegment}
use conjur_api_go.Url.Path.Joined.{IsSegment}
use conjur_api_go.Url.Router.Segments.{Addresses, make_router_url-Addresses}
use conjur_api_go.Requests.{Context, Request, new_request, built, secrets_url}
use conjur_api_go.Requests.Secrets.{
  secret_url, variable_url, full_variable_id, retrieve_secret_request, add_secret_request,
}

-- Not a name that a path drops or resolves.
abbrev pub IsNamed : String → Type 0
IsNamed i = (i ≢ "") × (i ≢ ".") × (i ≢ "..")

-- A URL that leads to the secret with this identifier.
abbrev pub LeadsTo : Context → String → String → Type 0
LeadsTo context i url =
    Addresses context.parse_url (secrets_url context context.config.account)
      ("variable" ∷ path_escape i ∷ []) url
    × (unescape (path_escape i) ≡ some (utf8 i))

built-ok :
    (o : Option String) (request : Request) {r : Request} → built o request ≡ ok r → request ≡ r
built-ok none request e = ground (arith, e)
built-ok (some x) request e = cc

variable-IsSegment : IsSegment "variable"
unfolding has_char
variable-IsSegment =
    (distinct "variable" "" refl, distinct "variable" "." refl, distinct "variable" ".." refl, refl)

secret_url-LeadsTo :
    (context : Context) (i : String)
    → IsNamed i
    → LeadsTo context i (secret_url context (context.config.account, "variable", i))
secret_url-LeadsTo context i (h0, h1, h2) = (
  make_router_url-Addresses context.parse_url (secrets_url context context.config.account)
      "variable" (path_escape i ∷ []) (variable-IsSegment, (path_escape-IsSegment i h0 h1 h2, tt)),
  unescape-path_escape i,
)

module _ (context : Context) (named : context.config.account ≢ "")
    (clean : IsClean context.config.account) (variable_id : String)
    (plain : (i : String)
      → Denotes context.config.account "variable" variable_id i
      → IsNamed i) where
  found :
      (i : String) × Denotes context.config.account "variable" variable_id i
      × (variable_url context (full_variable_id context variable_id)
          ≡ ok (secret_url context (context.config.account, "variable", i)))
  unfolding variable_url
  found =
      let (i, d, e) =
        parse_id-make_full_id context.config.account "variable" named (distinct "variable" "" refl)
          clean (unfold has_char in refl) context.config.account variable_id
          (λ i d. (plain i d).0) in
      (i, d, rw e refl)

  -- For a configured account that is not empty and holds no colon, a request of RetrieveSecretRequest
  -- or AddSecretRequest leads, behind the URL of the account's secrets, to two segments: "variable"
  -- and one that percent-decodes to the identifier that the given ID stands for, if that is not empty,
  -- "." or "..".
  pub secret_requests-LeadsTo :
      (value : String) {get add : Request}
      → retrieve_secret_request context variable_id ≡ ok get
      → add_secret_request context variable_id value ≡ ok add
      → (i : String) × Denotes context.config.account "variable" variable_id i
        × LeadsTo context i get.url
        × LeadsTo context i add.url
        × (get.method ≡ "GET")
        × (add.method ≡ "POST")
        × (add.body ≡ some value)
  unfolding retrieve_secret_request add_secret_request new_request
  secret_requests-LeadsTo value {get = get} {add = add} e f =
      let (i, d, found_url) = found in
      let url : String = secret_url context (context.config.account, "variable", i) in
      let leads : LeadsTo context i url = secret_url-LeadsTo context i (plain i d) in
      let g = built-ok (context.url_error url) _ (rw found_url at e) in
      let h = built-ok (context.url_error url) _ (rw found_url at f) in
      (
        i,
        d,
        subst (λ (r : Request). LeadsTo context i r.url) g leads,
        subst (λ (r : Request). LeadsTo context i r.url) h leads,
        sym (ap (λ (r : Request). r.method) g),
        sym (ap (λ (r : Request). r.method) h),
        sym (ap (λ (r : Request). r.body) h),
      )
