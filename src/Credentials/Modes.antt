-- ===== src/Credentials/Modes.antt =====
-- Which mode is in force (conjurapi/credential_storage_mode.go).
use Prim.Native.String.{String}
use conjur_api_go.Common.{
  Option, none, some, List, [], ◌∷◌, ◌==◌, ◌≡◌, ◌⊎◌, inl, inr, refl, sym, ap, ◌∙◌, subst, arith,
  eq_iff, get_or, if◌then◌else◌, Option-cases, Bool-cases,
}
use conjur_api_go.Common.Text.{to_lower, trim_space}
use conjur_api_go.Credentials.{
  mode_read_write, mode_read_only, mode_env_var, known_mode, replace, parse_credential_storage_mode,
  CallerDefault, with_default_credential_storage_mode, effective_default_credential_storage_mode,
  merge_credential_storage_mode, mode_from_env, resolve_credential_storage_mode,
}

-- One of the two modes.
abbrev pub IsMode : String → Type 0
IsMode mode = (mode ≡ mode_read_write) ⊎ (mode ≡ mode_read_only)

-- The default that a caller has set is a mode.
abbrev pub IsCallerDefault : CallerDefault → Type 0
IsCallerDefault none = Unit {0}
IsCallerDefault (some mode) = IsMode mode

known_mode-IsMode : (s : String) {mode : String} → known_mode s ≡ some mode → IsMode mode
unfolding known_mode
known_mode-IsMode s e = ground (arith, eq_iff s mode_read_write, eq_iff s mode_read_only)

pub parse-IsMode :
    (raw : String) {mode : String} → parse_credential_storage_mode raw ≡ some mode → IsMode mode
unfolding parse_credential_storage_mode
parse-IsMode raw e = known_mode-IsMode (to_lower (trim_space raw)) e

-- A mode is read as itself.
pub parse_of_mode : (mode : String) → IsMode mode → parse_credential_storage_mode mode ≡ some mode
unfolding parse_credential_storage_mode to_lower trim_space
parse_of_mode mode (inl e) = rw e
parse_of_mode mode (inr e) = rw e

-- The first text of a list that names a mode; `readwrite` if none does.
abbrev pub first_mode : List String → String
first_mode [] = mode_read_write
first_mode (raw ∷ more) = get_or (parse_credential_storage_mode raw) (first_mode more)

parse_empty : parse_credential_storage_mode "" ≡ none
unfolding parse_credential_storage_mode to_lower trim_space
parse_empty = refl

first_mode-IsMode : (raws : List String) → IsMode (first_mode raws)
first_mode-IsMode [] = inl refl
first_mode-IsMode (raw ∷ more) = elim (Option-cases (parse_credential_storage_mode raw)) [
  | inl none_here ↦ rw none_here (first_mode-IsMode more)
  | inr (mode, found) ↦ rw found (parse-IsMode raw found)
]

effective_default-first :
    (caller : CallerDefault)
    → IsCallerDefault caller
    → effective_default_credential_storage_mode caller ≡ first_mode (get_or caller "" ∷ [])
unfolding effective_default_credential_storage_mode
effective_default-first none h = rw parse_empty
effective_default-first (some mode) h = rw (parse_of_mode mode h)

mode_from_env-first :
    (lookup_env : String → Option String) (caller : CallerDefault)
    → IsCallerDefault caller
    → mode_from_env lookup_env caller
      ≡ first_mode (get_or (lookup_env mode_env_var) "" ∷ get_or caller "" ∷ [])
unfolding mode_from_env
mode_from_env-first lookup_env caller h = unset_or_not (get_or (lookup_env mode_env_var) "")
  where
    unset_or_not :
        (raw : String)
        → (if raw == ""
            then effective_default_credential_storage_mode caller
            else get_or
                (parse_credential_storage_mode raw)
                (effective_default_credential_storage_mode caller))
          ≡ first_mode (raw ∷ get_or caller "" ∷ [])
    unset_or_not raw = elim (Bool-cases (raw == "")) [
      | inl e ↦
          let empty : raw ≡ "" = (eq_iff raw "").0 e in
          rw (empty, parse_empty) (effective_default-first caller h)
      | inr e ↦ rw (e, effective_default-first caller h)
    ]

-- If the default that the calling program has set is a mode, the mode in force is the first text
-- that names a mode (after trimming and lowering) among the configured value, the environment
-- variable and the calling program's default, and `readwrite` if none of them does.
pub resolve-first_mode :
    (lookup_env : String → Option String) (caller : CallerDefault) (configured : String)
    → IsCallerDefault caller
    → resolve_credential_storage_mode lookup_env caller configured
      ≡ first_mode (configured ∷ get_or (lookup_env mode_env_var) "" ∷ get_or caller "" ∷ [])
unfolding resolve_credential_storage_mode
resolve-first_mode lookup_env caller configured h =
    ap (get_or (parse_credential_storage_mode configured)) (mode_from_env-first lookup_env caller h)

-- If the default that the calling program has set is a mode, the mode in force is `readwrite` or
-- `readonly`, and resolving it once more, in any environment, changes nothing.
pub resolve-IsMode :
    (lookup_env later_env : String → Option String) (caller later_caller : CallerDefault)
    (configured : String)
    → IsCallerDefault caller
    → IsMode (resolve_credential_storage_mode lookup_env caller configured)
      × (resolve_credential_storage_mode later_env later_caller
            (resolve_credential_storage_mode lookup_env caller configured)
          ≡ resolve_credential_storage_mode lookup_env caller configured)
unfolding resolve_credential_storage_mode
resolve-IsMode lookup_env later_env caller later_caller configured h =
    let mode = resolve_credential_storage_mode lookup_env caller configured in
    let is_mode : IsMode mode =
      subst IsMode (sym (resolve-first_mode lookup_env caller configured h)) (
        first_mode-IsMode
          (configured ∷ get_or (lookup_env mode_env_var) "" ∷ get_or caller "" ∷ [])) in
    (is_mode, resolve_of_mode later_env later_caller mode is_mode)
  where
    resolve_of_mode :
        (env : String → Option String) (c : CallerDefault) (mode : String)
        → IsMode mode
        → resolve_credential_storage_mode env c mode ≡ mode
    resolve_of_mode env c mode m = rw (parse_of_mode mode m)

-- WithDefaultCredentialStorageMode keeps the default a mode, whatever text it is given.
pub with_default-IsCallerDefault :
    (mode : String) (caller : CallerDefault)
    → IsCallerDefault caller
    → IsCallerDefault (with_default_credential_storage_mode mode caller)
unfolding with_default_credential_storage_mode
with_default-IsCallerDefault mode caller h =
    elim (Option-cases (parse_credential_storage_mode mode)) [
      | inl unknown ↦ rw unknown h
      | inr (m, known) ↦ rw known (parse-IsMode mode known)
    ]

-- Merging configurations keeps the first text that names a mode: a later resolution looks at the
-- existing value, the incoming one, the environment and the default in this order, if the default
-- is a mode.
pub resolve-merge :
    (lookup_env : String → Option String) (caller : CallerDefault) (existing incoming : String)
    → IsCallerDefault caller
    → resolve_credential_storage_mode lookup_env caller
        (merge_credential_storage_mode existing incoming)
      ≡ first_mode
          (existing ∷ incoming ∷ get_or (lookup_env mode_env_var) "" ∷ get_or caller "" ∷ [])
unfolding merge_credential_storage_mode
resolve-merge lookup_env caller existing incoming h =
    resolve-first_mode lookup_env caller (merge_credential_storage_mode existing incoming) h
    ∙ (elim (Option-cases (parse_credential_storage_mode existing)) [
      | inr (mode, known) ↦ rw known (rw (parse_of_mode mode (parse-IsMode existing known)))
      | inl unknown ↦ rw unknown (elim (Option-cases (parse_credential_storage_mode incoming)) [
        | inr (mode, known) ↦ rw known (rw (parse_of_mode mode (parse-IsMode incoming known)))
        | inl unset ↦ rw unset (rw parse_empty)
      ])
    ])

parse_merged :
    (a b : String)
    → parse_credential_storage_mode (merge_credential_storage_mode a b)
      ≡ replace (parse_credential_storage_mode a) (parse_credential_storage_mode b)
unfolding merge_credential_storage_mode
parse_merged a b = elim (Option-cases (parse_credential_storage_mode a)) [
  | inr (m, known) ↦ rw known (parse_of_mode m (parse-IsMode a known))
  | inl unknown ↦ rw unknown (elim (Option-cases (parse_credential_storage_mode b)) [
    | inr (m, known) ↦ rw known (parse_of_mode m (parse-IsMode b known))
    | inl unset ↦ rw unset parse_empty
  ])
]

get_or-replace :
    (x y z : Option String)
    → get_or (replace x y) (get_or z "") ≡ get_or x (get_or (replace y z) "")
get_or-replace none none z = refl
get_or-replace none (some y) z = refl
get_or-replace (some x) y z = refl

pub merge_mode_assoc :
    (a b c : String)
    → merge_credential_storage_mode (merge_credential_storage_mode a b) c
      ≡ merge_credential_storage_mode a (merge_credential_storage_mode b c)
unfolding merge_credential_storage_mode
merge_mode_assoc a b c =
    ap (λ o. get_or o (get_or (parse_credential_storage_mode c) "")) (parse_merged a b)
    ∙ get_or-replace (parse_credential_storage_mode a) (parse_credential_storage_mode b)
        (parse_credential_storage_mode c)
    ∙ ap (λ o. get_or (parse_credential_storage_mode a) (get_or o "")) (sym (parse_merged b c))
