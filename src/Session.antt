-- ===== src/Session.antt =====
-- The client's session (conjurapi/authn.go): the access token it holds, its authenticator and its
-- credential storage. `W` is the state of the world outside: the storage, the server and the clock.
pub mod Fresh
pub mod Kept
pub mod ReadOnly
pub mod Small
pub mod Submit
mod Examples
use Prim.Native.String.{String, ◌++◌}
use conjur_api_go.Common.{
  ℕ, Bool, true, false, Option, none, some, List, [], ◌∷◌, ◌==◌, ◌&&◌, ◌||◌, not, if◌then◌else◌,
  Result, ok, err,
}
use conjur_api_go.Common.Text.{has_prefix}
use conjur_api_go.AuthToken.{Token, Outcome, done, failed, panics, Codec, new_token, should_refresh}
use conjur_api_go.Config.{Config}
use conjur_api_go.Config.Validate.{is_member}
use conjur_api_go.Credentials.{should_store_credentials}
use conjur_api_go.Requests.{Context, Request}
use conjur_api_go.Requests.Authn.{LoginPair, login_request, authenticate_request}
use conjur_api_go.Response.{
  Response, Decoded, Failure, plain, conjur, wrapped, Reply, got, failure, data_response,
}
use conjur_api_go.Url.Router.{is_conjur_cloud_url}

-- CredentialStorageProvider (conjurapi/client.go)
pub record Store (W : Type 0) : Type 0 where
  pub store_credentials : String → String → W → Result (Unit {0}) × W
  pub read_credentials : W → Result (String × String)
  pub read_authn_token : W → Result String
  pub store_authn_token : String → W → Result (Unit {0}) × W
  pub purge_credentials : W → Result (Unit {0}) × W

-- Authenticator (conjurapi/client.go)
pub record Authenticator (W : Type 0) : Type 0 where
  pub refresh_token : W → Result String × W
  pub needs_token_refresh : W → Bool

-- Client (conjurapi/client.go), as far as a session needs it
pub record Client (W : Type 0) : Type 0 where
  pub config : Config
  pub auth_token : Option Token
  pub authenticator : Option (Authenticator W)
  pub storage : Option (Store W)
  pub conjur_version : String
  pub prefer_cached_token : Bool

-- What a client runs against: decoding, the clock, base64, the HTTP client (its error is a text),
-- how requests are built, and how the body of an error is decoded.
pub record Server (W : Type 0) : Type 0 where
  pub codec : Codec
  pub now : W → ℕ
  pub base64 : String → String
  pub send : Request → W → Result Response × W
  pub context : Config → Context
  pub unmarshal : String → Decoded

module _ {W : Type 0} (server : Server W) where
  token_or_none : Outcome Token → Outcome (Option Token)
  token_or_none (done t) = done (some t)
  token_or_none (failed e) = done none
  token_or_none panics = panics

  cached : Result String → Outcome (Option Token)
  unfolding token_or_none
  cached (err e) = done none
  cached (ok bytes) = token_or_none (new_token server.codec bytes)

  -- readCachedAccessToken. The FromJSON that follows NewToken there reads the same data again.
  unfoldable pub read_cached_access_token : Option (Store W) → W → Outcome (Option Token)
  unfolding cached
  read_cached_access_token none w = done none
  read_cached_access_token (some store) w = cached (store.read_authn_token w)

  with_token : Client W → Outcome Token → Outcome (Client W)
  with_token c (done t) = done (record c { auth_token = some t })
  with_token c (failed e) = failed e
  with_token c panics = panics

  parsed : Client W → Result String → Outcome (Client W)
  unfolding with_token
  parsed c (err e) = failed e
  parsed c (ok bytes) = with_token c (new_token server.codec bytes)

  forced : Client W → Option (Authenticator W) → W → Outcome (Client W) × W
  unfolding parsed
  forced c none w =
      (failed "authenticator not initialized - check netrc file or credential configuration", w)
  forced c (some a) w = let (bytes, w') = a.refresh_token w in (parsed c bytes, w')

  -- refreshToken, which is ForceRefreshToken too
  unfoldable pub force_refresh_token : Client W → W → Outcome (Client W) × W
  unfolding forced
  force_refresh_token c w = forced c c.authenticator w

  asked : Option (Authenticator W) → W → Outcome Bool
  asked none w = panics
  asked (some a) w = done (a.needs_token_refresh w)

  needs_by : Option Token → Option (Authenticator W) → W → Outcome Bool
  unfolding asked
  needs_by none a w = done true
  needs_by (some t) a w = if should_refresh (server.now w) t then done true else asked a w

  -- NeedsTokenRefresh; without an authenticator its last test panics
  unfoldable pub needs_token_refresh : Client W → W → Outcome Bool
  unfolding needs_by
  needs_token_refresh c w = needs_by c.auth_token c.authenticator w

  abbrev pub cached_types : List String
  cached_types = "oidc" ∷ "iam" ∷ "azure" ∷ "gcp" ∷ "cloud" ∷ []

  -- The token of the client after a look into the storage
  adopted : Client W → Outcome (Option Token) → Outcome (Client W)
  adopted c (done none) = done c
  adopted c (done (some t)) = done (record c { auth_token = some t })
  adopted c (failed e) = done c
  adopted c panics = panics

  -- The first part of RefreshToken
  unfoldable pub adopt_cached_token : Client W → W → Outcome (Client W)
  unfolding adopted
  adopt_cached_token c w =
      if c.prefer_cached_token && is_member cached_types c.config.authn_type
      then adopted c (read_cached_access_token c.storage w)
      else done c

  refreshed_if : Client W → Outcome Bool → W → Outcome (Client W) × W
  refreshed_if c (done true) w = force_refresh_token c w
  refreshed_if c (done false) w = (done c, w)
  refreshed_if c (failed e) w = (failed e, w)
  refreshed_if c panics w = (panics, w)

  refresh_from : Outcome (Client W) → W → Outcome (Client W) × W
  unfolding refreshed_if
  refresh_from (done c) w = refreshed_if c (needs_token_refresh c w) w
  refresh_from (failed e) w = (failed e, w)
  refresh_from panics w = (panics, w)

  -- RefreshToken, whose failure has no client: see `refreshed_client`
  unfoldable pub refresh_token : Client W → W → Outcome (Client W) × W
  unfolding refresh_from
  refresh_token c w = refresh_from (adopt_cached_token c w) w

  left_by : Client W → Outcome (Client W) → Client W
  left_by before (done after) = after
  left_by before (failed e) = before
  left_by before panics = before

  -- The client that RefreshToken leaves, whatever its outcome: when the refresh fails, it is the one
  -- that has taken over the token of the storage.
  unfoldable pub refreshed_client : Client W → W → Client W
  unfolding left_by
  refreshed_client c w = left_by (left_by c (adopt_cached_token c w)) (refresh_token c w).0

  header_from : Client W → Option Token → Outcome (Client W × String)
  header_from c none = panics
  header_from c (some t) = done (c, "Token token=\"" ++ server.base64 t.raw ++ "\"")

  authorized : Outcome (Client W) → Outcome (Client W × String)
  unfolding header_from
  authorized (done c) = header_from c c.auth_token
  authorized (failed e) = failed e
  authorized panics = panics

  -- createAuthRequest: the value of the Authorization header
  unfoldable pub create_auth_request : Client W → W → Outcome (Client W × String) × W
  unfolding authorized
  create_auth_request c w = let (c', w') = refresh_token c w in (authorized c', w')

  abbrev pub no_valid_token : String
  no_valid_token =
      "No valid OIDC token found. Please login again. If this error recurs shortly after logging in, verify your system clock is synchronized."

  returned_token : Outcome (Option Token) → W → Outcome String
  returned_token (done none) w = failed no_valid_token
  returned_token (done (some t)) w =
      if not (should_refresh (server.now w) t) then done t.raw else failed no_valid_token
  returned_token (failed e) w = failed no_valid_token
  returned_token panics w = panics

  abbrev outcome_of : Result String → Outcome String
  outcome_of (ok bytes) = done bytes
  outcome_of (err e) = failed e

  internal_by : Client W → Option (Authenticator W) → W → Outcome String × W
  unfolding returned_token
  internal_by c none w = (failed "unable to authenticate using client without authenticator", w)
  internal_by c (some a) w =
      if c.config.authn_type == "oidc"
      then (returned_token (read_cached_access_token c.storage w) w, w)
      else (outcome_of (a.refresh_token w).0, (a.refresh_token w).1)

  -- InternalAuthenticate
  unfoldable pub internal_authenticate : Client W → W → Outcome String × W
  unfolding internal_by
  internal_authenticate c w = internal_by c c.authenticator w

  -- What an answer of the HTTP client comes to
  abbrev answer_of : Result Response → Reply String
  answer_of (err e) = failure (plain e)
  answer_of (ok resp) = data_response server.unmarshal resp

  sent : Result Request → W → Reply String × W
  sent (err e) w = (failure (plain e), w)
  sent (ok request) w = let (resp, w') = server.send request w in (answer_of resp, w')

  -- Keeping what a call has obtained: the provider is there and the mode allows it.
  abbrev allowed : Client W → Bool
  allowed c = should_store_credentials c.config.credential_storage_mode

  store_key : Option (Store W) → Bool → String → String → W → Reply String × W
  store_key none _ user key w = (got key, w)
  store_key (some store) false user key w = (got key, w)
  store_key (some store) true user key w =
      let (stored, w') = store.store_credentials user key w in
      (elim stored [ ok u ↦ got key | err e ↦ failure (plain e) ], w')

  stored_login : Client W → String → Reply String × W → Reply String × W
  unfolding store_key
  stored_login c user (failure f, w) = (failure f, w)
  stored_login c user (got key, w) = store_key c.storage (allowed c) user key w

  -- Login
  unfoldable pub login : Client W → String → String → W → Reply String × W
  unfolding sent stored_login
  login c user password w =
      if is_conjur_cloud_url (server.context c.config).parse_url c.config.appliance_url
        && not (has_prefix user "host/")
      then (failure (plain "Login for users is not supported in Idira Secrets Manager, SaaS"), w)
      else stored_login c user (sent (login_request (server.context c.config) user password) w)

  -- Authenticate
  unfoldable pub authenticate : Client W → LoginPair → W → Reply String × W
  unfolding sent
  authenticate c pair w = sent (authenticate_request (server.context c.config) pair) w

  store_available : Option (Store W) → Bool → String → String → W → Result (Unit {0}) × W
  store_available none _ user credential w = (ok tt, w)
  store_available (some store) false user credential w = (ok tt, w)
  store_available (some store) true user credential w =
      let (stored, w') = store.store_credentials user credential w in
      (elim stored [ ok u ↦ ok tt | err e ↦ err ("failed to store credentials: " ++ e) ], w')

  -- storeCredentialsIfAvailable
  unfoldable pub store_credentials_if_available :
      Client W → String → String → W → Result (Unit {0}) × W
  unfolding store_available
  store_credentials_if_available c user credential w =
      store_available c.storage (allowed c) user credential w

  kept : Client W → String → String → Reply String × W → Reply String × W
  unfolding store_credentials_if_available
  kept c user password (failure f, w) =
      (failure (wrapped "unable to authenticate with Idira Secrets Manager" f), w)
  kept c user password (got token, w) =
      let (stored, w') = store_credentials_if_available c user password w in
      (elim stored [ ok u ↦ got password | err e ↦ failure (plain e) ], w')

  -- CloudHostLogin
  unfoldable pub cloud_host_login : Client W → String → String → W → Reply String × W
  unfolding authenticate kept
  cloud_host_login c user password w =
      kept c user password (authenticate c (record { login = user; api_key = password }) w)

  store_token : Option (Store W) → Bool → String → W → W
  store_token none _ token w = w
  store_token (some store) false token w = w
  store_token (some store) true token w = (store.store_authn_token token w).1

  stored_token : Client W → Reply String × W → Reply String × W
  unfolding store_token
  stored_token c (failure f, w) = (failure f, w)
  stored_token c (got token, w) = (got token, store_token c.storage (allowed c) token w)

  -- authenticateWithTokenStorage: an error of the storage is logged only
  unfoldable pub authenticate_with_token_storage : Client W → Result Request → W → Reply String × W
  unfolding sent stored_token
  authenticate_with_token_storage c request w = stored_token c (sent request w)

  -- PurgeCredentials
  unfoldable pub purge_credentials : Client W → W → Result (Unit {0}) × W
  purge_credentials c w = elim c.storage [
    | none ↦ (ok tt, w)
    | some store ↦ store.purge_credentials w
  ]
