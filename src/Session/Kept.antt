-- ===== src/Session/Kept.antt =====
-- A session over the keyring provider (conjurapi/authn.go with
-- conjurapi/storage/keyring_storage_provider.go): what Login stores is read back.
mod Examples
use Prim.Native.String.{String}
use conjur_api_go.Common.{
  Bool, true, false, Option, some, ◌&&◌, not, if◌then◌else◌, Result, ok, err, ◌≡◌, refl, sym, ap,
  subst, ◌∙◌, arith,
}
use conjur_api_go.Common.Text.{has_prefix}
use conjur_api_go.Credentials.{should_store_credentials}
use conjur_api_go.Requests.Authn.{login_request}
use conjur_api_go.Response.{plain, Reply, got, failure}
use conjur_api_go.Session.{Store, Client, Server, login, store_key, stored_login, sent}
use conjur_api_go.Storage.Keyring as Keyring
use conjur_api_go.Storage.Keyring.{Backend, BackendLaws}
use conjur_api_go.Storage.Keyring.Kept.{read-store_credentials}
use conjur_api_go.Url.Router.{is_conjur_cloud_url}

-- KeyringStorageProvider as a CredentialStorageProvider
abbrev pub keyring_store : {W : Type 0} → Backend W → String → Store W
keyring_store b machine = record {
  store_credentials = λ user password w. Keyring.store_credentials b machine user password w;
  read_credentials = λ w. Keyring.read_credentials b machine w;
  read_authn_token = λ w. Keyring.read_authn_token b machine w;
  store_authn_token = λ token w. Keyring.store_authn_token b machine token w;
  purge_credentials = λ w. Keyring.purge_credentials b machine w;
}

module _ {W : Type 0} (server : Server W) (b : Backend W) (machine : String) where
  -- A result that is a key is stored for the user.
  abbrev KeptFor : String → Reply String × W → Type 0
  KeptFor user r =
      (key : String) → r.0 ≡ got key → Keyring.read_credentials b machine r.1 ≡ ok (user, key)

  got-injective : {k l : String} → ◌≡◌ {A = Reply String} (got k) (got l) → k ≡ l
  got-injective {k = k} e = ap (λ (r : Reply String). elim r [ got x ↦ x | failure f ↦ k ]) e

  module _ (laws : BackendLaws b) where
    store_key-KeptFor :
        (user key : String) (w : W)
        → KeptFor user (store_key server (some (keyring_store b machine)) true user key w)
    unfolding store_key
    store_key-KeptFor user key w =
        by_outcome (Keyring.store_credentials b machine user key w).0 refl
      where
        by_outcome :
            (stored : Result (Unit {0}))
            → (Keyring.store_credentials b machine user key w).0 ≡ stored
            → KeptFor user (
              elim stored [ ok u ↦ got key | err e ↦ failure (plain e) ],
              (Keyring.store_credentials b machine user key w).1,
            )
        by_outcome (ok u) e k f =
            read-store_credentials b laws machine user key w e
            ∙ ap (λ (x : String). ok (user, x)) (got-injective f)
        by_outcome (err x) e k f = absurd (ground (arith, f))

    stored_login-KeptFor :
        (c : Client W) (user : String) (r : Reply String × W)
        → c.storage ≡ some (keyring_store b machine)
        → should_store_credentials c.config.credential_storage_mode ≡ true
        → KeptFor user (stored_login server c user r)
    unfolding stored_login
    stored_login-KeptFor c user (failure f, w) held allows = λ key e. absurd (ground (arith, e))
    stored_login-KeptFor c user (got new, w) held allows =
        subst (KeptFor user)
          (ap (λ a. store_key server (some (keyring_store b machine)) a user new w) (sym allows)
            ∙ ap
                (λ s.
                  store_key server s (should_store_credentials c.config.credential_storage_mode)
                    user new w)
                (sym held))
          (store_key-KeptFor user new w)

    -- The client's storage is the keyring provider of a keyring that behaves as documented, and the
    -- storage mode is one in which credentials are stored. Then, when Login returns a key,
    -- ReadCredentials returns that user's name and that key afterwards, whatever the keyring held.
    pub login-Kept :
        (c : Client W) (user password key : String) (w : W)
        → c.storage ≡ some (keyring_store b machine)
        → should_store_credentials c.config.credential_storage_mode ≡ true
        → (login server c user password w).0 ≡ got key
        → Keyring.read_credentials b machine (login server c user password w).1 ≡ ok (user, key)
    unfolding login
    login-Kept c user password key w held allows =
        by_test
          (is_conjur_cloud_url (server.context c.config).parse_url c.config.appliance_url
            && not (has_prefix user "host/"))
          key
      where
        by_test :
            (refuses : Bool)
            → KeptFor user (
                if refuses
                then (
                  failure (plain "Login for users is not supported in Idira Secrets Manager, SaaS"),
                  w,
                )
                else stored_login server c user
                    (sent server (login_request (server.context c.config) user password) w))
        by_test true = λ k e. absurd (ground (arith, e))
        by_test false =
            stored_login-KeptFor c user
              (sent server (login_request (server.context c.config) user password) w) held allows
