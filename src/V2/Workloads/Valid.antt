-- ===== src/V2/Workloads/Valid.antt =====
-- Which workloads are sent (conjurapi/workload_v2.go).
use Prim.Native.String.{String}
use conjur_api_go.Common.{
  ℕ, suc, Option, none, some, List, [], ◌∷◌, ◌==◌, if◌then◌else◌, Result, ok, err, ◌>>=◌, sym, ap,
  subst, ◌≡◌, ◌≢◌, ◌↔◌, refl, arith, eq_iff, All, Bool-cases, inl, inr,
}
use conjur_api_go.Requests.{Context, Request, new_request}
use conjur_api_go.Requests.Json.{is_empty, marshal}
use conjur_api_go.V2.{new_v2_json_request, v2_api_header, unless_failed, joined}
use conjur_api_go.V2.Workloads.{
  AuthnDescriptor, Workload, workload_json, with_default_type, workloads_url, validate_workload,
  untyped, validate_authn_descriptors, create_workload_request,
}

abbrev pub IsTyped : AuthnDescriptor → Type 0
IsTyped d = d.type_name ≢ ""

validate_workload_iff :
    (w : Workload) → (validate_workload w ≡ none) ↔ ((w.branch ≢ "") × (w.name ≢ ""))
unfolding validate_workload
validate_workload_iff w = (
  ground (arith, eq_iff w.branch "", eq_iff w.name ""),
  ground (arith, eq_iff w.branch "", eq_iff w.name ""),
)

untyped_iff : (i : ℕ) (ds : List AuthnDescriptor) → (joined (untyped i ds) ≡ none) ↔ All IsTyped ds
unfolding untyped
untyped_iff i [] = ((λ e. tt), λ t. refl)
untyped_iff i (d ∷ ds) = elim (Bool-cases (d.type_name == "")) [
  | inl empty ↦ rw empty ((λ e. cc), λ (typed, _). absurd (typed ((eq_iff d.type_name "").0 empty)))
  | inr set ↦
      let ih = untyped_iff (suc i) ds in
      rw set ((λ e. (ground (arith, eq_iff d.type_name "", set), ih.0 e)), λ (_, all). ih.1 all)
]

checked_iff :
    {A : Type 0} (failed : Option String) (next : Result A) (a : A)
    → (unless_failed failed next ≡ ok a) ↔ ((failed ≡ none) × (next ≡ ok a))
checked_iff none next a = ((λ e. (refl, e)), λ (_, e). e)
checked_iff (some x) next a = ((λ e. cc), λ (e, _). cc)

abbrev no_authenticator : String
no_authenticator = "Must specify at least one authenticator in authn_descriptors"

nonempty : {A : Type 0} (x : A) (xs : List A) → (x ∷ xs) ≢ []
nonempty x xs e = cc

described_iff :
    {A : Type 0} (ds : List AuthnDescriptor) (next : Result A) (a : A)
    → ((if is_empty ds then err no_authenticator else unless_failed (joined (untyped 0 ds)) next)
        ≡ ok a)
      ↔ ((ds ≢ []) × All IsTyped ds × (next ≡ ok a))
described_iff [] next a = ((λ e. cc), λ (some_there, _, _). absurd (some_there refl))
described_iff (d ∷ ds) next a =
    let typed = untyped_iff 0 (d ∷ ds) in
    let checked = checked_iff (joined (untyped 0 (d ∷ ds))) next a in
    (
      (λ e. (nonempty d ds, typed.0 (checked.0 e).0, (checked.0 e).1)),
      λ (_, all, e). checked.1 (typed.1 all, e),
    )

ok-injective : {A : Type 0} {a b : A} → ◌≡◌ {A = Result A} (ok a) (ok b) → a ≡ b
ok-injective {A} {a} e = ap (λ (r : Result A). elim r [ ok v ↦ v | err _ ↦ a ]) e

sent_iff :
    {A B : Type 0} (r : Result A) (next : A → Result B) (b : B)
    → ((r >>= next) ≡ ok b) ↔ ((a : A) × (r ≡ ok a) × (next a ≡ ok b))
sent_iff (ok a) next b =
    ((λ e. (a, refl, e)), λ (c, e, f). subst (λ x. next x ≡ ok b) (sym (ok-injective e)) f)
sent_iff (err x) next b = ((λ e. cc), λ (a, e, _). cc)

-- CreateWorkloadRequest builds a request exactly when the workload has a branch, a name and at least
-- one descriptor, all its descriptors have a type, json.Marshal refuses nothing in it, with the type
-- "other" if it has none, and http.NewRequest accepts the URL; and then the request is a POST of
-- this JSON to /workloads, with the two headers for it.
pub create_workload_request_iff :
    (context : Context) (w : Workload) (request : Request)
    → (create_workload_request context w ≡ ok request) ↔ (
        (w.branch ≢ "")
        × (w.name ≢ "")
        × (w.authn_descriptors ≢ [])
        × All IsTyped w.authn_descriptors
        × ((body : String) × (marshal (workload_json (with_default_type w)) ≡ ok body)
            × (new_request context "POST"
                  (workloads_url context)
                  (some body)
                  (("Content-Type", "application/json") ∷ ("Accept", v2_api_header) ∷ [])
                ≡ ok request)))
unfolding create_workload_request validate_authn_descriptors new_v2_json_request
create_workload_request_iff context w request =
    let json = workload_json (with_default_type w) in
    let next = new_v2_json_request context "POST" (workloads_url context) json v2_api_header in
    let named = validate_workload_iff w in
    let described = described_iff w.authn_descriptors next request in
    let checked =
      checked_iff (validate_workload w)
        (if is_empty w.authn_descriptors
          then err no_authenticator
          else unless_failed (validate_authn_descriptors w.authn_descriptors) next)
        request in
    let built =
      sent_iff (marshal json)
        (λ body.
          new_request context "POST" (workloads_url context) (some body)
            (("Content-Type", "application/json") ∷ ("Accept", v2_api_header) ∷ []))
        request in
    (
      (λ e.
          let (valid, inner) = checked.0 e in
          let (there, typed, sent) = described.0 inner in
          ((named.0 valid).0, (named.0 valid).1, there, typed, built.0 sent)),
      λ (branch, name, there, typed, sent).
          checked.1 (named.1 (branch, name), described.1 (there, typed, built.1 sent)),
    )
