-- ===== src/Ids/Parse.antt =====
-- parseID, parseIDandEnforceKind and unopinionatedParseID (conjurapi/requests.go).
use Prim.Native.Char.{Char}
use Prim.Native.String.{String, ◌∷◌, ◌++◌}
use conjur_api_go.Common.{
  false, some, ◌==◌, ◌≡◌, ◌≢◌, ◌↔◌, ◌⊎◌, inl, inr, sym, ap, ◌∙◌, subst, subst₂, arith, eq_iff,
  Option-cases, if◌then◌else◌, ok,
}
use conjur_api_go.Common.Text.{has_char, cut, split_n}
use conjur_api_go.Common.Text.Lemmas.{IsCut, cut-IsCut, cut-of_clean, cut-append}
use conjur_api_go.Ids.{
  IdParts, unopinionated_parse_id, parse_parts, parse_id, enforce_parts, parse_id_and_enforce_kind,
}

abbrev pub colon : Char
colon = ":"

-- No colon occurs.
abbrev pub IsClean : String → Type 0
IsClean s = has_char b':' s ≡ false

-- The three forms of an identifier, and the parts of each: the text up to the first colon and the
-- text up to the second are colon-free; what is left may hold colons.
pub data Splits (id : String) (parts : IdParts) : Type 0 where
  bare : IsClean id → parts ≡ ("", "", id) → Splits id parts
  with_kind :
      (kind identifier : String)
      → id ≡ kind ++ (colon ∷ identifier)
      → IsClean kind
      → IsClean identifier
      → parts ≡ ("", kind, identifier)
      → Splits id parts
  with_account :
      (account kind identifier : String)
      → id ≡ account ++ (colon ∷ (kind ++ (colon ∷ identifier)))
      → IsClean account
      → IsClean kind
      → parts ≡ (account, kind, identifier)
      → Splits id parts

Splits-behind :
    (id account rest : String)
    → id ≡ account ++ (colon ∷ rest)
    → IsClean account
    → cut b':' id ≡ some (account, rest)
    → Splits id (unopinionated_parse_id id)
unfolding unopinionated_parse_id split_n
Splits-behind id account rest e clean found = elim (Option-cases (cut b':' rest)) [
  | inl last ↦
      let h : IsClean rest = subst (IsCut colon rest) last (cut-IsCut colon rest) in
      with_kind account rest e clean h (rw (found, split_n, last))
  | inr ((kind, identifier), more) ↦
      let h : IsCut colon rest (some (kind, identifier)) =
        subst (IsCut colon rest) more (cut-IsCut colon rest) in
      with_account account kind identifier (e ∙ ap (λ t. account ++ (colon ∷ t)) h.0) clean h.1
        (rw (found, split_n, more))
]

pub unopinionated_parse_id_sound : (id : String) → Splits id (unopinionated_parse_id id)
unfolding unopinionated_parse_id split_n
unopinionated_parse_id_sound id = elim (Option-cases (cut b':' id)) [
  | inl whole ↦
      let h : IsClean id = subst (IsCut colon id) whole (cut-IsCut colon id) in
      bare h (rw (whole, split_n))
  | inr ((account, rest), found) ↦
      let h : IsCut colon id (some (account, rest)) =
        subst (IsCut colon id) found (cut-IsCut colon id) in
      Splits-behind id account rest h.0 h.1 found
]

unopinionated_parse_id_complete :
    (id : String) (parts : IdParts) → Splits id parts → unopinionated_parse_id id ≡ parts
unfolding unopinionated_parse_id split_n
unopinionated_parse_id_complete id parts (bare clean e) =
    rw (cut-of_clean b':' id clean, split_n) (sym e)
unopinionated_parse_id_complete id parts (with_kind kind identifier shape clean rest e) =
    rw (shape, cut-append colon kind identifier clean, split_n, cut-of_clean b':' identifier rest)
      (sym e)
unopinionated_parse_id_complete id parts (with_account account kind identifier shape ca ck e) =
    rw
      (
        shape,
        cut-append colon account (kind ++ (colon ∷ identifier)) ca,
        split_n,
        cut-append colon kind identifier ck,
      )
      (sym e)

-- unopinionatedParseID returns an account, a kind and an identifier exactly when the text is the
-- identifier alone, the kind and the identifier, or all three, joined by colons, where the kind and
-- the account hold no colon, the parts that are missing are empty, and an identifier without an
-- account before it holds no colon.
pub unopinionated_parse_id_iff :
    (id : String) (parts : IdParts) → (unopinionated_parse_id id ≡ parts) ↔ Splits id parts
unopinionated_parse_id_iff id parts = (
  λ e. subst (Splits id) e (unopinionated_parse_id_sound id),
  unopinionated_parse_id_complete id parts,
)

-- The account of the identifier, or the configured one where it names none.
abbrev pub account_or : String → String → String
account_or config_account account = if account == "" then config_account else account

-- When parseID accepts: the kind and the identifier are there.
abbrev pub Accepted : String → String → IdParts → Type 0
Accepted config_account id (account, kind, identifier) =
    (named : String) × Splits id (named, kind, identifier)
    × (kind ≢ "")
    × (identifier ≢ "")
    × (account ≡ account_or config_account named)

parse_parts-ok :
    (config_account id named kind identifier a k i : String)
    → parse_parts config_account id (named, kind, identifier) ≡ ok (a, k, i)
    → (kind ≢ "")
      × (identifier ≢ "")
      × (account_or config_account named ≡ a)
      × (kind ≡ k)
      × (identifier ≡ i)
unfolding parse_parts
parse_parts-ok config_account id named kind identifier a k i e =
    ground (arith, eq_iff identifier "", eq_iff kind "", eq_iff named "")

parse_parts_of_named :
    (config_account id named kind identifier : String)
    → kind ≢ ""
    → identifier ≢ ""
    → parse_parts config_account id (named, kind, identifier)
      ≡ ok (account_or config_account named, kind, identifier)
unfolding parse_parts
parse_parts_of_named config_account id named kind identifier hk hi =
    ground (arith, eq_iff identifier "", eq_iff kind "", eq_iff named "")

parse_id_sound :
    (config_account id : String) (result : IdParts)
    → parse_id config_account id ≡ ok result
    → Accepted config_account id result
unfolding parse_id
parse_id_sound config_account id (a, k, i) e =
    let (named, kind, identifier) = unopinionated_parse_id id in
    let h = parse_parts-ok config_account id named kind identifier a k i e in
    (
      named,
      subst₂ (λ x y. Splits id (named, x, y)) h.3 h.4 (unopinionated_parse_id_sound id),
      subst (λ x. x ≢ "") h.3 h.0,
      subst (λ x. x ≢ "") h.4 h.1,
      sym h.2,
    )

parse_id_complete :
    (config_account id : String) (result : IdParts)
    → Accepted config_account id result
    → parse_id config_account id ≡ ok result
unfolding parse_id
parse_id_complete config_account id (a, k, i) (named, split, hk, hi, e) =
    ap (parse_parts config_account id) (unopinionated_parse_id_complete id (named, k, i) split)
    ∙ rw e (parse_parts_of_named config_account id named k i hk hi)

-- parseID returns an account, a kind and an identifier exactly when these are the parts of the
-- given text, the kind and the identifier are not empty, and the account is the one that the text
-- names, or the configured account if it names none.
pub parse_id_iff :
    (config_account id : String) (result : IdParts)
    → (parse_id config_account id ≡ ok result) ↔ Accepted config_account id result
parse_id_iff config_account id result =
    (parse_id_sound config_account id result, parse_id_complete config_account id result)

-- When parseIDandEnforceKind accepts: the kind is the wanted one, or left out.
abbrev pub AcceptedAs : String → String → String → IdParts → Type 0
AcceptedAs config_account id enforced (account, kind, identifier) =
    (named_account : String) × (named_kind : String) × Splits id
      (named_account, named_kind, identifier)
    × ((named_kind ≡ "") ⊎ (named_kind ≡ enforced))
    × (identifier ≢ "")
    × (account ≡ account_or config_account named_account)
    × (kind ≡ enforced)

enforce_parts-ok :
    (config_account id enforced named kind identifier a k i : String)
    → enforce_parts config_account id enforced (named, kind, identifier) ≡ ok (a, k, i)
    → ((kind ≡ "") ⊎ (kind ≡ enforced))
      × (identifier ≢ "")
      × (a ≡ account_or config_account named)
      × (k ≡ enforced)
      × (identifier ≡ i)
unfolding enforce_parts
enforce_parts-ok config_account id enforced named kind identifier a k i e =
    ground (arith, eq_iff identifier "", eq_iff kind "", eq_iff kind enforced, eq_iff named "")

enforce_parts_of_named :
    (config_account id enforced named kind identifier : String)
    → (kind ≡ "") ⊎ (kind ≡ enforced)
    → identifier ≢ ""
    → enforce_parts config_account id enforced (named, kind, identifier)
      ≡ ok (account_or config_account named, enforced, identifier)
unfolding enforce_parts
enforce_parts_of_named config_account id enforced named kind identifier hk hi =
    ground (arith, eq_iff identifier "", eq_iff kind "", eq_iff kind enforced, eq_iff named "")

enforce_sound :
    (config_account id enforced : String) (result : IdParts)
    → parse_id_and_enforce_kind config_account id enforced ≡ ok result
    → AcceptedAs config_account id enforced result
unfolding parse_id_and_enforce_kind
enforce_sound config_account id enforced (a, k, i) e =
    let (named, kind, identifier) = unopinionated_parse_id id in
    let h = enforce_parts-ok config_account id enforced named kind identifier a k i e in
    (
      named,
      kind,
      subst (λ x. Splits id (named, kind, x)) h.4 (unopinionated_parse_id_sound id),
      h.0,
      subst (λ x. x ≢ "") h.4 h.1,
      h.2,
      h.3,
    )

enforce_complete :
    (config_account id enforced : String) (result : IdParts)
    → AcceptedAs config_account id enforced result
    → parse_id_and_enforce_kind config_account id enforced ≡ ok result
unfolding parse_id_and_enforce_kind
enforce_complete config_account id enforced (a, k, i) (named, kind, split, hk, hi, ea, ek) =
    ap (enforce_parts config_account id enforced)
      (unopinionated_parse_id_complete id (named, kind, i) split)
    ∙ rw (ea, ek) (enforce_parts_of_named config_account id enforced named kind i hk hi)

-- parseIDandEnforceKind returns an account, a kind and an identifier exactly when the text splits
-- into an optional account, an optional kind and this identifier, which is not empty; the kind, if
-- named, is the wanted one; the kind returned is the wanted one, and the account is the named one
-- or else the configured one.
pub parse_id_and_enforce_kind_iff :
    (config_account id enforced : String) (result : IdParts)
    → (parse_id_and_enforce_kind config_account id enforced ≡ ok result)
      ↔ AcceptedAs config_account id enforced result
parse_id_and_enforce_kind_iff config_account id enforced result = (
  enforce_sound config_account id enforced result,
  enforce_complete config_account id enforced result,
)
