-- ===== src/Session/ReadOnly.antt =====
-- When a session writes to the credential storage (conjurapi/authn.go).
use Prim.Native.String.{String}
use conjur_api_go.Common.{
  true, false, Option, none, some, ◌==◌, ◌&&◌, not, if◌then◌else◌, Result, ok, ◌≡◌, inl, inr, refl,
  sym, ap, subst, ◌∙◌, Bool-cases, eq_iff,
}
use conjur_api_go.AuthToken.{Token, Outcome, done, failed, panics, should_refresh}
use conjur_api_go.Credentials.{should_store_credentials, mode_read_only}
use conjur_api_go.Requests.{Request}
use conjur_api_go.Requests.Authn.{login_request}
use conjur_api_go.Url.Router.{is_conjur_cloud_url}
use conjur_api_go.Common.Text.{has_prefix}
use conjur_api_go.Response.{plain, Reply, got, failure}
use conjur_api_go.Session.{
  Store, Authenticator, Client, Server, login, cloud_host_login, authenticate,
  authenticate_with_token_storage, store_credentials_if_available, stored_login, stored_token, kept,
  sent, internal_authenticate, internal_by, store_key, store_token, store_available, returned_token,
  read_cached_access_token,
}

read_only-stores : (mode : String) → mode ≡ mode_read_only → should_store_credentials mode ≡ false
unfolding should_store_credentials
read_only-stores mode e = subst (λ m. should_store_credentials m ≡ false) (sym e) refl

module _ {W : Type 0} (server : Server W) where
  -- The client without its credential storage.
  abbrev pub without_storage : Client W → Client W
  without_storage c = record c { storage = none }

  store_key-off :
      (storage : Option (Store W)) (user key : String) (w : W)
      → store_key server storage false user key w ≡ (got key, w)
  unfolding store_key
  store_key-off none user key w = refl
  store_key-off (some store) user key w = refl

  store_token-off :
      (storage : Option (Store W)) (token : String) (w : W)
      → store_token server storage false token w ≡ w
  unfolding store_token
  store_token-off none token w = refl
  store_token-off (some store) token w = refl

  store_available-off :
      (storage : Option (Store W)) (user key : String) (w : W)
      → store_available server storage false user key w ≡ (ok tt, w)
  unfolding store_available
  store_available-off none user key w = refl
  store_available-off (some store) user key w = refl

  module _ (c : Client W)
      (off : should_store_credentials c.config.credential_storage_mode ≡ false) where
    stored_login-off :
        (user : String) (r : Reply String × W)
        → stored_login server c user r ≡ stored_login server (without_storage c) user r
    unfolding stored_login store_key
    stored_login-off user (failure f, w) = refl
    stored_login-off user (got key, w) = rw off (store_key-off c.storage user key w)

    kept-off :
        (user password : String) (r : Reply String × W)
        → kept server c user password r ≡ kept server (without_storage c) user password r
    unfolding kept store_credentials_if_available store_available
    kept-off user password (failure f, w) = refl
    kept-off user password (got token, w) =
        let nothing : store_available server c.storage
              (should_store_credentials c.config.credential_storage_mode) user password w
            ≡ (ok tt, w) =
          ap (λ b. store_available server c.storage b user password w) off
          ∙ store_available-off c.storage user password w in
        rw nothing refl

    stored_token-off :
        (r : Reply String × W) → stored_token server c r ≡ stored_token server (without_storage c) r
    unfolding stored_token store_token
    stored_token-off (failure f, w) = refl
    stored_token-off (got token, w) =
        rw off (ap (λ v. (got token, v)) (store_token-off c.storage token w))

  -- In the mode `readonly`, Login, CloudHostLogin and the authentications that cache their token do
  -- what they do for a client without credential storage: they have the same result and leave the
  -- world the same, so the storage is not written to.
  pub read_only-without_storage :
      (c : Client W) (user password : String) (request : Result Request) (w : W)
      → c.config.credential_storage_mode ≡ mode_read_only
      → (login server c user password w ≡ login server (without_storage c) user password w)
        × (cloud_host_login server c user password w
            ≡ cloud_host_login server (without_storage c) user password w)
        × (authenticate_with_token_storage server c request w
            ≡ authenticate_with_token_storage server (without_storage c) request w)
  unfolding login cloud_host_login authenticate_with_token_storage authenticate
  read_only-without_storage c user password request w e =
      let off = read_only-stores c.config.credential_storage_mode e in
      (
        ap
            (λ r.
              if is_conjur_cloud_url (server.context c.config).parse_url c.config.appliance_url
                && not (has_prefix user "host/")
              then (
                failure (plain "Login for users is not supported in Idira Secrets Manager, SaaS"),
                w,
              )
              else r)
            (stored_login-off c off user
              (sent server (login_request (server.context c.config) user password) w)),
        kept-off c off user password
            (authenticate server c (record { login = user; api_key = password }) w),
        stored_token-off c off (sent server request w),
      )

  -- What InternalAuthenticate may return for the authenticator `oidc`.
  abbrev pub IsStored : Client W → W → Outcome String → Type 0
  IsStored c w (done bytes) =
      (t : Token) × (read_cached_access_token server c.storage w ≡ done (some t))
      × (should_refresh (server.now w) t ≡ false)
      × (bytes ≡ t.raw)
  IsStored c w (failed e) = Unit {0}
  IsStored c w panics = read_cached_access_token server c.storage w ≡ panics

  IsStored-only :
      (c : Client W) (w : W) (o : Outcome (Option Token))
      → read_cached_access_token server c.storage w ≡ o
      → IsStored c w (returned_token server o w)
  unfolding returned_token
  IsStored-only c w (done none) e = tt
  IsStored-only c w (failed x) e = tt
  IsStored-only c w panics e = e
  IsStored-only c w (done (some t)) e = elim (Bool-cases (should_refresh (server.now w) t)) [
    | inl stale ↦ rw stale tt
    | inr fresh ↦ rw fresh (t, e, fresh, refl)
  ]

  -- For the authenticator `oidc`, InternalAuthenticate never calls the authenticator: it leaves the
  -- world as it is, and the token that it returns is the stored one, which ShouldRefresh does not
  -- want refreshed.
  pub internal_authenticate-IsStored :
      (c : Client W) (w : W)
      → c.config.authn_type ≡ "oidc"
      → ((internal_authenticate server c w).1 ≡ w)
        × IsStored c w (internal_authenticate server c w).0
  unfolding internal_authenticate
  internal_authenticate-IsStored c w e = by_authenticator c.authenticator
    where
      is_oidc : (c.config.authn_type == "oidc") ≡ true
      is_oidc = (eq_iff c.config.authn_type "oidc").1 e

      by_authenticator :
          (a : Option (Authenticator W))
          → ((internal_by server c a w).1 ≡ w) × IsStored c w (internal_by server c a w).0
      by_authenticator none = (refl, tt)
      by_authenticator (some a) =
          rw is_oidc (refl, IsStored-only c w (read_cached_access_token server c.storage w) refl)
