-- ===== src/V2/Secrets/Batch.antt =====
-- Which batches of secrets are asked for (conjurapi/secrets_batch_v2.go).
use Prim.Native.String.{String}
use conjur_api_go.Common.{
  ◌≤◌, ◌<◌, List, [], ◌∷◌, ◌==◌, ltb, length, if◌then◌else◌, Result, ok, err, ◌≡◌, ◌≢◌, ◌⊎◌, inl,
  inr, refl, sym, subst, arith, eq_iff, distinct, Bool-cases,
}
use conjur_api_go.Requests.Json.{is_empty}
use conjur_api_go.V2.Secrets.{without_empty, validate_secret_identifiers}

-- The identifiers that are not empty, in their order: `Kept given kept`.
pub data Kept : List String → List String → Type 0 where
  done : Kept [] []
  skip : {given kept : List String} → Kept given kept → Kept ("" ∷ given) kept
  keep :
      {s : String} {given kept : List String}
      → s ≢ ""
      → Kept given kept
      → Kept (s ∷ given) (s ∷ kept)

without_empty-Kept : (ids : List String) → Kept ids (without_empty ids)
unfolding without_empty
without_empty-Kept [] = done
without_empty-Kept (id ∷ ids) = elim (Bool-cases (id == "")) [
  | inl empty ↦ rw empty (
      subst (λ s. Kept (s ∷ ids) (without_empty ids)) (sym ((eq_iff id "").0 empty))
        (skip (without_empty-Kept ids)))
  | inr named ↦ rw named (keep (distinct id "" named) (without_empty-Kept ids))
]

-- What ValidateSecretIdentifiers comes to, for the identifiers that are kept.
abbrev pub Validated : List String → Result (List String) → Type 0
Validated kept (ok ids) = (ids ≡ kept) × (0 < length kept) × (length kept ≤ 250)
Validated kept (err e) =
    ((kept ≡ []) × (e ≡ "Must specify at least one secret identifier"))
    ⊎ ((250 < length kept) × (e ≡ "Cannot request more than 250 secrets at once"))

by_count :
    (kept : List String)
    → Validated kept (
        if is_empty kept
        then err "Must specify at least one secret identifier"
        else if ltb 250 (length kept)
        then err "Cannot request more than 250 secrets at once"
        else ok kept)
by_count [] = inl (refl, refl)
by_count (id ∷ ids) = elim (Bool-cases (ltb 250 (length (id ∷ ids)))) [
  | inl many ↦ rw many (inr (ground (arith, many), refl))
  | inr few ↦ rw few (refl, omega arith, ground (arith, few))
]

-- ValidateSecretIdentifiers returns the identifiers that are not empty, in their order, if there
-- are between 1 and 250 of them; if there is none, and if there are more, it returns the error that
-- says so.
pub validate_secret_identifiers-Validated :
    (identifiers : List String)
    → (kept : List String) × Kept identifiers kept
      × Validated kept (validate_secret_identifiers identifiers)
unfolding validate_secret_identifiers
validate_secret_identifiers-Validated identifiers = (
  without_empty identifiers,
  without_empty-Kept identifiers,
  by_count (without_empty identifiers),
)
