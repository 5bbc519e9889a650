-- ===== src/Ids/Full.antt =====
-- makeFullID (conjurapi/requests.go): the full identifier, and what the parser reads from it.
use Prim.Native.String.{String, [], ◌∷◌, ◌++◌}
use text.Mathlib.TextLemmas.{nil-append, cons-append}
use conjur_api_go.Common.{
  [], ◌∷◌, ◌&&◌, ◌==◌, ◌≡◌, ◌≢◌, inl, inr, refl, sym, ap, ◌∙◌, subst, arith, eq_iff, eq_refl,
  Bool-cases, if◌then◌else◌, ok,
}
use conjur_api_go.Common.Text.{has_char, split_n, join}
use conjur_api_go.Common.Text.Lemmas.{cut-of_clean, cut-append, cut_unique, has_char-middle}
use conjur_api_go.Ids.{IdParts, qualify, settle, make_full_id, parse_id}
use conjur_api_go.Ids.Parse.{colon, IsClean, Splits, unopinionated_parse_id_sound, parse_id_iff}

abbrev pub full_id : String → String → String → String
full_id account kind identifier = account ++ (colon ∷ (kind ++ (colon ∷ identifier)))

abbrev pub kind_id : String → String → String
kind_id kind identifier = kind ++ (colon ∷ identifier)

-- Which identifier of the kind and the account a text stands for: it may name both, or the kind
-- alone in front of a colon-free text; any other text is the identifier itself.
pub data Denotes (account kind id identifier : String) : Type 0 where
  in_full : id ≡ full_id account kind identifier → Denotes account kind id identifier
  with_kind : id ≡ kind_id kind identifier → IsClean identifier → Denotes account kind id identifier
  bare :
      ((x : String) → id ≢ full_id account kind x)
      → ((x : String) → IsClean x → id ≢ kind_id kind x)
      → id ≡ identifier
      → Denotes account kind id identifier

not_clean : (id a b : String) → IsClean id → id ≢ kind_id a b
not_clean id a b clean e = cc (sym clean ∙ ap (has_char b':') e, has_char-middle colon a b)

-- A colon-free text denotes itself.
pub Denotes-of_clean :
    (account kind id identifier : String)
    → IsClean id
    → Denotes account kind id identifier
    → id ≡ identifier
Denotes-of_clean account kind id i clean (in_full e) =
    absurd (not_clean id account (kind_id kind i) clean e)
Denotes-of_clean account kind id i clean (with_kind e _) = absurd (not_clean id kind i clean e)
Denotes-of_clean account kind id i clean (bare _ _ e) = e

colon-append : (t : String) → ":" ++ t ≡ colon ∷ t
colon-append t = rw (cons-append, nil-append)

-- Three tokens are returned if they begin with the account and the kind.
settle_lem :
    (account kind id a k t : String)
    → account ≢ ""
    → kind ≢ ""
    → settle account kind id (a ∷ k ∷ t ∷ [])
      ≡ (if account == a && kind == k then full_id account kind t else full_id account kind id)
unfolding settle join
settle_lem account kind id a k t ha hk = ground (
  arith,
  eq_iff account "",
  eq_iff kind "",
  eq_iff account a,
  eq_iff kind k,
  colon-append t,
  colon-append id,
  colon-append (kind ++ (colon ∷ t)),
  colon-append (kind ++ (colon ∷ id)),
)

split_bare : (id : String) → IsClean id → split_n id b':' 3 ≡ id ∷ []
unfolding split_n
split_bare id clean = rw (cut-of_clean b':' id clean, split_n)

split_two : (a b : String) → IsClean a → IsClean b → split_n (kind_id a b) b':' 3 ≡ a ∷ b ∷ []
unfolding split_n
split_two a b ha hb = rw (cut-append colon a b ha, split_n, cut-of_clean b':' b hb)

split_three :
    (a k t : String) → IsClean a → IsClean k → split_n (full_id a k t) b':' 3 ≡ a ∷ k ∷ t ∷ []
unfolding split_n
split_three a k t ha hk = rw (cut-append colon a (kind_id k t) ha, split_n, cut-append colon k t hk)

module _ (account kind : String) (named_account : account ≢ "") (named_kind : kind ≢ "")
    (clean_account : IsClean account) (clean_kind : IsClean kind) where
  -- What makeFullID promises.
  abbrev Made : String → String → Type 0
  Made id result =
      (identifier : String) × Denotes account kind id identifier
      × (result ≡ full_id account kind identifier)

  not_in_full :
      (id a rest : String)
      → id ≡ kind_id a rest
      → IsClean a
      → (account ≡ a → (x : String) → rest ≢ kind_id kind x)
      → (x : String) → id ≢ full_id account kind x
  not_in_full id a rest shape clean other x e =
      let (p, q) =
        cut_unique colon a account rest (kind_id kind x) clean clean_account (sym shape ∙ e) in
      other (sym p) x q

  not_with_kind :
      (id a rest : String)
      → id ≡ kind_id a rest
      → IsClean a
      → (kind ≡ a → ¬ IsClean rest)
      → (x : String) → IsClean x
      → id ≢ kind_id kind x
  not_with_kind id a rest shape clean other x hx e =
      let (p, q) = cut_unique colon a kind rest x clean clean_kind (sym shape ∙ e) in
      other (sym p) (subst IsClean (sym q) hx)

  settled :
      (id a k t : String)
      → qualify account kind (split_n id b':' 3) ≡ a ∷ k ∷ t ∷ []
      → make_full_id account kind id
        ≡ (if account == a && kind == k then full_id account kind t else full_id account kind id)
  unfolding make_full_id
  settled id a k t e =
      ap (settle account kind id) e ∙ settle_lem account kind id a k t named_account named_kind

  Made-bare : (id : String) → IsClean id → Made id (make_full_id account kind id)
  unfolding qualify
  Made-bare id clean = (
    id,
    bare (λ x e. not_clean id account (kind_id kind x) clean e)
        (λ x _ e. not_clean id kind x clean e) refl,
    settled id account kind id (ap (qualify account kind) (split_bare id clean))
        ∙ rw (eq_refl account, eq_refl kind),
  )

  Made-two :
      (id a b : String)
      → id ≡ kind_id a b
      → IsClean a
      → IsClean b
      → Made id (make_full_id account kind id)
  unfolding qualify
  Made-two id a b shape ha hb = elim (Bool-cases (kind == a)) [
    | inl same ↦
        let e : kind ≡ a = (eq_iff kind a).0 same in
        (b, with_kind (rw e shape) hb, whole ∙ rw (eq_refl account, same))
    | inr other ↦ (
      id,
      bare (not_in_full id a b shape ha (λ _ x f. not_clean b kind x hb f))
          (not_with_kind id a b shape ha (λ p. absurd (ground (arith, eq_iff kind a)))) refl,
      whole ∙ rw (eq_refl account, other),
    )
  ]
    where
      whole : make_full_id account kind id ≡ (
          if account == account && kind == a
          then full_id account kind b
          else full_id account kind id)
      whole =
          settled id account a b
            (ap (qualify account kind) (ap (λ x. split_n x b':' 3) shape ∙ split_two a b ha hb))

  Made-three :
      (id a k t : String)
      → id ≡ full_id a k t
      → IsClean a
      → IsClean k
      → Made id (make_full_id account kind id)
  unfolding qualify
  Made-three id a k t shape ha hk = elim (Bool-cases (account == a && kind == k)) [
    | inl same ↦
        let e : (account ≡ a) × (kind ≡ k) = ground (arith, eq_iff account a, eq_iff kind k) in
        (t, in_full (rw (e.0, e.1) shape), whole ∙ rw same)
    | inr other ↦ (
      id,
      bare
          (not_in_full id a (kind_id k t) shape ha (λ p x f.
            let (q, _) = cut_unique colon k kind t x hk clean_kind f in
            absurd (ground (arith, eq_iff account a, eq_iff kind k))))
          (not_with_kind id a (kind_id k t) shape ha (λ _ h. cc (sym h, has_char-middle colon k t)))
          refl,
      whole ∙ rw other,
    )
  ]
    where
      whole :
          make_full_id account kind id
          ≡ (if account == a && kind == k then full_id account kind t else full_id account kind id)
      whole =
          settled id a k t
            (ap (qualify account kind) (ap (λ x. split_n x b':' 3) shape ∙ split_three a k t ha hk))

  Made-of_split :
      (id : String) {parts : IdParts} → Splits id parts → Made id (make_full_id account kind id)
  Made-of_split id (Splits.bare clean _) = Made-bare id clean
  Made-of_split id (Splits.with_kind a b shape ha hb _) = Made-two id a b shape ha hb
  Made-of_split id (Splits.with_account a k t shape ha hk _) = Made-three id a k t shape ha hk

  -- For an account and a kind that are not empty and hold no colon, makeFullID returns
  -- <account>:<kind>:<identifier> for the identifier that the text denotes: what follows the same
  -- account and kind if it begins with both, else the colon-free text that follows the same kind
  -- alone, else the whole text.
  pub make_full_id-Made : (id : String) → Made id (make_full_id account kind id)
  make_full_id-Made id = Made-of_split id (unopinionated_parse_id_sound id)

  -- For an account and a kind that are not empty and hold no colon, makeFullID leaves its own
  -- results as they are.
  pub make_full_id_idem :
      (id : String)
      → make_full_id account kind (make_full_id account kind id) ≡ make_full_id account kind id
  unfolding qualify
  make_full_id_idem id =
      let (i, _, e) = make_full_id-Made id in
      rw e (
        settled (full_id account kind i) account kind i
          (ap (qualify account kind) (split_three account kind i clean_account clean_kind))
        ∙ rw (eq_refl account, eq_refl kind))

  -- For an account and a kind that are not empty and hold no colon, parseID reads from the full
  -- identifier this account, this kind and the identifier that the text denotes, provided that
  -- the identifier is not empty.
  pub parse_id-make_full_id :
      (config_account id : String)
      → ((i : String) → Denotes account kind id i → i ≢ "")
      → (identifier : String) × Denotes account kind id identifier
        × (parse_id config_account (make_full_id account kind id) ≡ ok (account, kind, identifier))
  parse_id-make_full_id config_account id full =
      let (i, d, e) = make_full_id-Made id in
      (
        i,
        d,
        (parse_id_iff config_account (make_full_id account kind id) (account, kind, i)).1 (
          account,
          Splits.with_account account kind i e clean_account clean_kind refl,
          named_kind,
          full i d,
          ground (arith, eq_iff account ""),
        ),
      )
