-- ===== src/Session/Submit/Headers.antt =====
-- Header.Set and Header.Add of net/http, as SubmitRequest uses them (conjurapi/requests.go).
use Prim.Native.String.{String}
use conjur_api_go.Common.{
  false, List, [], ◌∷◌, ◌++◌, ◌==◌, ◌≡◌, refl, ap, ◌∙◌, Bool-cases, eq_refl, inl, inr,
}
use conjur_api_go.Common.Text.{to_lower}
use conjur_api_go.Session.Submit.{values, without, set_header, add_header}

values-without :
    (name : String) (headers : List (String × String)) → values name (without name headers) ≡ []
values-without name [] = refl
values-without name ((k, v) ∷ more) = elim (Bool-cases (to_lower k == to_lower name)) [
  | inl same ↦ rw same (values-without name more)
  | inr other ↦ rw (other, other) (values-without name more)
]

values-append :
    (name : String) (xs ys : List (String × String))
    → values name (xs ++ ys) ≡ values name xs ++ values name ys
values-append name [] ys = refl
values-append name ((k, v) ∷ xs) ys = elim (Bool-cases (to_lower k == to_lower name)) [
  | inl same ↦ rw same (ap (λ l. v ∷ l) (values-append name xs ys))
  | inr other ↦ rw other (values-append name xs ys)
]

-- Setting a header leaves one value of it, and adding another header keeps that.
pub values-set_header :
    (name value other added : String) (headers : List (String × String))
    → (to_lower other == to_lower name) ≡ false
    → values name (add_header other added (set_header name value headers)) ≡ value ∷ []
values-set_header name value other added headers h =
    values-append name (set_header name value headers) ((other, added) ∷ [])
    ∙ rw (eq_refl (to_lower name), values-without name headers, h) refl
