-- ===== src/Storage/Keyring/Kept.antt =====
-- What the keyring provider keeps (conjurapi/storage/keyring_storage_provider.go), over a keyring
-- that behaves as documented.
use Prim.Native.String.{String}
use conjur_api_go.Common.{
  Bool, true, false, ◌==◌, distinct, ◌>>=◌, ◌≡◌, ◌≢◌, refl, ap, ◌∙◌, List, [], ◌∷◌, Result, ok, err,
  All, ◌⊎◌, inl, inr, if◌then◌else◌, arith, Bool-cases,
}
use conjur_api_go.Storage.Keyring.{
  Entry, found, not_found, Backend, BackendLaws, read_entry, store_credentials, read_credentials,
  read_authn_token, store_authn_token, delete_all, purge_credentials, err_writing_credentials,
}

module _ {W : Type 0} (b : Backend W) (laws : BackendLaws b) where
  -- The two entries that ReadCredentials reads decide its result.
  read_credentials_of :
      (machine : String) (login password : Entry) (w : W)
      → b.get machine "login" w ≡ login
      → b.get machine "password" w ≡ password
      → read_credentials b machine w
        ≡ (read_entry login >>= λ l. read_entry password >>= λ p. ok (l, p))
  unfolding read_credentials
  read_credentials_of machine login password w e f = rw (e, f) refl

  same_credentials :
      (machine : String) (w w' : W)
      → b.get machine "login" w ≡ b.get machine "login" w'
      → b.get machine "password" w ≡ b.get machine "password" w'
      → read_credentials b machine w ≡ read_credentials b machine w'
  unfolding read_credentials
  same_credentials machine w w' e f = rw (e, f) refl

  store_succeeds :
      (first second : Bool) (w1 w2 : W)
      → (outcome : Result (Unit {0}) × W)
      → outcome ≡ (
          if first
          then (if second then ok tt else err err_writing_credentials, w2)
          else (err err_writing_credentials, w1))
      → outcome.0 ≡ ok tt
      → (first ≡ true) × (second ≡ true)
  store_succeeds true true w1 w2 outcome o e = (refl, refl)
  store_succeeds true false w1 w2 outcome o e = ground (arith, ap (λ r. r.0) o)
  store_succeeds false second w1 w2 outcome o e = ground (arith, ap (λ r. r.0) o)

  -- When StoreCredentials succeeds, ReadCredentials then returns that login and that password.
  pub read-store_credentials :
      (machine login password : String) (w : W)
      → (store_credentials b machine login password w).0 ≡ ok tt
      → read_credentials b machine (store_credentials b machine login password w).1
        ≡ ok (login, password)
  unfolding store_credentials read_entry
  read-store_credentials machine login password w done =
      let w1 : W = (b.set machine "login" login w).1 in
      let w2 : W = (b.set machine "password" password w1).1 in
      let (e, f) =
        store_succeeds (b.set machine "login" login w).0 (b.set machine "password" password w1).0 w1
          w2 (store_credentials b machine login password w) refl done in
      rw e (
        read_credentials_of machine (found login) (found password) w2
          (laws.get-set_other machine "password" password machine "login" w1
              (inr (distinct "password" "login" refl))
            ∙ laws.get-set machine "login" login w e)
          (laws.get-set machine "password" password w1 f))

  -- An entry under another key than "login" and "password", or of another machine, is the same
  -- after StoreCredentials, whatever its outcome.
  get-store_credentials :
      (machine login password other key : String) (w : W)
      → (machine ≢ other) ⊎ (("login" == key) ≡ false) × (("password" == key) ≡ false)
      → b.get other key (store_credentials b machine login password w).1 ≡ b.get other key w
  unfolding store_credentials
  get-store_credentials machine login password other key w h =
      let w1 : W = (b.set machine "login" login w).1 in
      let kept : b.get other key w1 ≡ b.get other key w =
        laws.get-set_other machine "login" login other key w
          (elim h [ inl m ↦ inl m | inr k ↦ inr (distinct "login" key k.0) ]) in
      let kept2 : b.get other key (b.set machine "password" password w1).1 ≡ b.get other key w1 =
        laws.get-set_other machine "password" password other key w1
          (elim h [ inl m ↦ inl m | inr k ↦ inr (distinct "password" key k.1) ]) in
      elim (Bool-cases (b.set machine "login" login w).0) [
        | inl e ↦ rw e (kept2 ∙ kept)
        | inr e ↦ rw e kept
      ]

  -- When StoreAuthnToken succeeds, ReadAuthnToken then returns that token; whatever its outcome,
  -- ReadCredentials returns what it returned before. StoreCredentials in turn never changes what
  -- ReadAuthnToken returns.
  pub read-store_authn_token :
      (machine token login password : String) (w : W)
      → (store_authn_token b machine token w).0 ≡ ok tt
      → (read_authn_token b machine (store_authn_token b machine token w).1 ≡ ok token)
        × (read_credentials b machine (store_authn_token b machine token w).1
            ≡ read_credentials b machine w)
        × (read_authn_token b machine (store_credentials b machine login password w).1
            ≡ read_authn_token b machine w)
  unfolding store_authn_token read_authn_token read_entry
  read-store_authn_token machine token login password w done =
      let w' : W = (b.set machine "authn_token" token w).1 in
      let stored = laws.get-set machine "authn_token" token w (ground (arith, done)) in
      let other : (key : String)
          → ("authn_token" == key) ≡ false
          → b.get machine key w' ≡ b.get machine key w =
        λ key different.
          laws.get-set_other machine "authn_token" token machine key w
            (inr (distinct "authn_token" key different)) in
      (
        rw stored refl,
        same_credentials machine w' w (other "login" refl) (other "password" refl),
        ap read_entry (
            get-store_credentials machine login password machine "authn_token" w
              (inr (refl, refl))),
      )

  -- When a deletion fails only for an entry that is not there, PurgeCredentials succeeds, after it
  -- ReadCredentials returns an empty login and an empty password, and ReadAuthnToken an empty token.
  pub read-purge_credentials :
      (machine : String) (w : W)
      → ((key : String) (v : W)
          → (b.delete machine key v).0 ≡ false
          → b.get machine key v ≡ not_found)
      → ((purge_credentials b machine w).0 ≡ ok tt)
        × (read_credentials b machine (purge_credentials b machine w).1 ≡ ok ("", ""))
        × (read_authn_token b machine (purge_credentials b machine w).1 ≡ ok "")
  unfolding purge_credentials delete_all read_authn_token read_entry
  read-purge_credentials machine w only_missing =
      let gone : (key : String) (v : W) → b.get machine key (b.delete machine key v).1 ≡ not_found =
        λ key v. elim (Bool-cases (b.delete machine key v).0) [
          | inl done ↦ laws.get-delete machine key v done
          | inr missing ↦ laws.get-delete_failed machine key v missing ∙ only_missing key v missing
        ] in
      let keeps : (key other : String) (v : W)
          → (key == other) ≡ false
          → b.get machine other (b.delete machine key v).1 ≡ b.get machine other v =
        λ key other v different.
          laws.get-delete_other machine key machine other v (inr (distinct key other different)) in
      let w1 : W = (b.delete machine "login" w).1 in
      let w2 : W = (b.delete machine "password" w1).1 in
      let w3 : W = (b.delete machine "authn_token" w2).1 in
      let login =
        keeps "authn_token" "login" w2 refl ∙ keeps "password" "login" w1 refl ∙ gone "login" w in
      let password = keeps "authn_token" "password" w2 refl ∙ gone "password" w1 in
      (
        refl,
        read_credentials_of machine not_found not_found w3 login password,
        ap read_entry (gone "authn_token" w2),
      )

  same_entry_elsewhere :
      (machine other key : String) (keys : List String) (w : W)
      → machine ≢ other
      → b.get other key (delete_all b machine keys w) ≡ b.get other key w
  unfolding delete_all
  same_entry_elsewhere machine other key [] w h = refl
  same_entry_elsewhere machine other key (k ∷ keys) w h =
      same_entry_elsewhere machine other key keys (b.delete machine k w).1 h
      ∙ laws.get-delete_other machine k other key w (inl h)

  -- Storing credentials or a token for one machine, or purging them, whatever the outcome, leaves
  -- what ReadCredentials and ReadAuthnToken return for any other machine as it is.
  pub other_machine-kept :
      (machine other login password token : String) (w : W)
      → machine ≢ other
      → let after : List W =
          (store_credentials b machine login password w).1
          ∷ (store_authn_token b machine token w).1
          ∷ (purge_credentials b machine w).1
          ∷ [] in
        All
          (λ v.
            (read_credentials b other v ≡ read_credentials b other w)
            × (read_authn_token b other v ≡ read_authn_token b other w))
          after
  unfolding store_authn_token purge_credentials read_authn_token
  other_machine-kept machine other login password token w h =
      let same : (v : W)
          → ((key : String) → b.get other key v ≡ b.get other key w)
          → (read_credentials b other v ≡ read_credentials b other w)
            × (read_authn_token b other v ≡ read_authn_token b other w) =
        λ v e. (
          same_credentials other v w (e "login") (e "password"),
          ap read_entry (e "authn_token"),
        ) in
      (
        same (store_credentials b machine login password w).1
            (λ key. get-store_credentials machine login password other key w (inl h)),
        (
          same (store_authn_token b machine token w).1
              (λ key. laws.get-set_other machine "authn_token" token other key w (inl h)),
          (
            same (purge_credentials b machine w).1 (λ key.
                same_entry_elsewhere machine other key ("login" ∷ "password" ∷ "authn_token" ∷ []) w
                  h),
            tt,
          ),
        ),
      )
