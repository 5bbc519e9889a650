-- ===== src/Session/Fresh.antt =====
-- Which access token a request carries (conjurapi/authn.go).
use Prim.Native.String.{String, ◌++◌}
use conjur_api_go.Common.{
  Bool, true, false, Option, none, some, ◌&&◌, if◌then◌else◌, Result, ok, err, ◌≡◌, ◌⊎◌, inl, inr,
  refl, get_or, ap, subst, ◌∙◌, arith, Bool-cases,
}
use conjur_api_go.AuthToken.{Token, Outcome, done, failed, panics, new_token, should_refresh}
use conjur_api_go.AuthToken.Issued.{WhenDone, returned, refused, panicked, WhenDone-done}
use conjur_api_go.Config.Validate.{is_member}
use conjur_api_go.Session.{
  cached_types, Authenticator, Client, Server, with_token, parsed, forced, force_refresh_token,
  needs_by, needs_token_refresh, adopted, adopt_cached_token, refreshed_if, refresh_from,
  refresh_token, header_from, authorized, create_auth_request, read_cached_access_token,
}

module _ {W : Type 0} (server : Server W) where
  -- The authenticator has just returned this token.
  abbrev pub Obtained : Option (Authenticator W) → W → Token → Type 0
  Obtained authenticator w t =
      (a : Authenticator W) × (bytes : String) × (authenticator ≡ some a)
      × ((a.refresh_token w).0 ≡ ok bytes)
      × (new_token server.codec bytes ≡ done t)

  -- A token that may be sent.
  abbrev pub IsCurrent : Option (Authenticator W) → W → Option Token → Type 0
  IsCurrent authenticator w token =
      (t : Token) × (token ≡ some t)
      × (Obtained authenticator w t ⊎ (should_refresh (server.now w) t ≡ false))

  abbrev Good : Option (Authenticator W) → W → Client W → Type 0
  Good authenticator w c = IsCurrent authenticator w c.auth_token

  parsed-WhenDone :
      (c : Client W) (a : Authenticator W) (w : W) (r : Result String)
      → (a.refresh_token w).0 ≡ r
      → WhenDone (Good (some a) w) (parsed server c r)
  unfolding parsed with_token
  parsed-WhenDone c a w (err x) e = refused
  parsed-WhenDone c a w (ok bytes) e = by_token (new_token server.codec bytes) refl
    where
      by_token :
          (o : Outcome Token)
          → new_token server.codec bytes ≡ o
          → WhenDone (Good (some a) w) (with_token server c o)
      by_token (done t) f = returned (t, refl, inl (a, bytes, refl, e, f))
      by_token (failed x) f = refused
      by_token panics f = panicked

  forced-WhenDone :
      (c : Client W) (a : Option (Authenticator W)) (w : W)
      → WhenDone (Good a w) (forced server c a w).0
  unfolding forced
  forced-WhenDone c none w = refused
  forced-WhenDone c (some a) w = parsed-WhenDone c a w (a.refresh_token w).0 refl

  needs-done : {b : Bool} {x : Bool} → ◌≡◌ {A = Outcome Bool} (done b) (done x) → b ≡ x
  needs-done {b = b} e =
      ap (λ (o : Outcome Bool). elim o [ done y ↦ y | failed x ↦ b | panics ↦ b ]) e

  still_fresh :
      (token : Option Token) (a : Option (Authenticator W)) (w : W)
      → needs_by server token a w ≡ done false
      → IsCurrent a w token
  unfolding needs_by
  still_fresh none a w f = absurd (ground (arith, needs-done f))
  still_fresh (some t) a w f = elim (Bool-cases (should_refresh (server.now w) t)) [
    | inl stale ↦ absurd (ground (arith, needs-done (rw stale at f)))
    | inr fresh ↦ (t, refl, inr fresh)
  ]

  refreshed-WhenDone :
      (c : Client W) (w : W) (o : Outcome Bool)
      → needs_token_refresh server c w ≡ o
      → WhenDone (Good c.authenticator w) (refreshed_if server c o w).0
  unfolding refreshed_if force_refresh_token needs_token_refresh
  refreshed-WhenDone c w (done true) e = forced-WhenDone c c.authenticator w
  refreshed-WhenDone c w (failed x) e = refused
  refreshed-WhenDone c w panics e = panicked
  refreshed-WhenDone c w (done false) e = returned (still_fresh c.auth_token c.authenticator w e)

  refresh_from-WhenDone :
      (a : Option (Authenticator W)) (w : W) (o : Outcome (Client W))
      → WhenDone (λ c. c.authenticator ≡ a) o
      → WhenDone (Good a w) (refresh_from server o w).0
  unfolding refresh_from
  refresh_from-WhenDone a w (done c) (returned e) =
      subst (λ b. WhenDone (Good b w) (refreshed_if server c (needs_token_refresh server c w) w).0)
        e (refreshed-WhenDone c w (needs_token_refresh server c w) refl)
  refresh_from-WhenDone a w (failed x) h = refused
  refresh_from-WhenDone a w panics h = panicked

  adopted-WhenDone :
      (c : Client W) (o : Outcome (Option Token))
      → WhenDone (λ d. d.authenticator ≡ c.authenticator) (adopted server c o)
  unfolding adopted
  adopted-WhenDone c (done none) = returned refl
  adopted-WhenDone c (done (some t)) = returned refl
  adopted-WhenDone c (failed e) = returned refl
  adopted-WhenDone c panics = panicked

  adopt-WhenDone :
      (c : Client W) (w : W)
      → WhenDone (λ d. d.authenticator ≡ c.authenticator) (adopt_cached_token server c w)
  unfolding adopt_cached_token
  adopt-WhenDone c w =
      by_test (c.prefer_cached_token && is_member (cached_types server) c.config.authn_type)
    where
      by_test :
          (test : Bool)
          → WhenDone
              (λ (d : Client W). d.authenticator ≡ c.authenticator)
              (if test
                then adopted server c (read_cached_access_token server c.storage w)
                else done c)
      by_test true = adopted-WhenDone c (read_cached_access_token server c.storage w)
      by_test false = returned refl

  abbrev Carried : Option (Authenticator W) → W → Client W × String → Type 0
  Carried a w result =
      (t : Token) × (result.0.auth_token ≡ some t)
      × (result.1 ≡ "Token token=\"" ++ server.base64 t.raw ++ "\"")
      × (Obtained a w t ⊎ (should_refresh (server.now w) t ≡ false))

  header-WhenDone :
      (a : Option (Authenticator W)) (w : W) (c : Client W) (token : Option Token)
      → c.auth_token ≡ token
      → IsCurrent a w token
      → WhenDone (Carried a w) (header_from server c token)
  unfolding header_from
  header-WhenDone a w c none held h = panicked
  header-WhenDone a w c (some t) held (u, e, current) = returned (
    u,
    held ∙ e,
    ap (λ (o : Option Token). "Token token=\"" ++ server.base64 (get_or o t).raw ++ "\"") e,
    current,
  )

  authorized-WhenDone :
      (a : Option (Authenticator W)) (w : W) (o : Outcome (Client W))
      → WhenDone (Good a w) o
      → WhenDone (Carried a w) (authorized server o)
  unfolding authorized
  authorized-WhenDone a w (failed e) h = refused
  authorized-WhenDone a w panics h = panicked
  authorized-WhenDone a w (done c) (returned h) = header-WhenDone a w c c.auth_token refl h

  -- When createAuthRequest succeeds, the header that it sets is the encoding of the client's token,
  -- and that token is either the one that the client's authenticator has just returned, or one that
  -- ShouldRefresh does not want refreshed yet. No request carries any other token, whatever the
  -- storage held.
  pub create_auth_request-IsCurrent :
      (c : Client W) (w : W) {result : Client W × String}
      → (create_auth_request server c w).0 ≡ done result
      → (t : Token) × (result.0.auth_token ≡ some t)
        × (result.1 ≡ "Token token=\"" ++ server.base64 t.raw ++ "\"")
        × (Obtained c.authenticator w t ⊎ (should_refresh (server.now w) t ≡ false))
  unfolding create_auth_request refresh_token
  create_auth_request-IsCurrent c w e = WhenDone-done (
      subst (WhenDone _) e (
        authorized-WhenDone c.authenticator w (refresh_token server c w).0 (
          refresh_from-WhenDone c.authenticator w (adopt_cached_token server c w)
            (adopt-WhenDone c w))))

  -- A client that is not to prefer a stored session and that holds no token yet gets its token from
  -- its authenticator, as ForceRefreshToken does; the storage has no part in it.
  pub refresh_token-forced :
      (c : Client W) (w : W)
      → c.prefer_cached_token ≡ false
      → c.auth_token ≡ none
      → refresh_token server c w ≡ force_refresh_token server c w
  unfolding refresh_token refresh_from adopt_cached_token refreshed_if needs_token_refresh needs_by
  refresh_token-forced c w prefers holds =
      let untouched : adopt_cached_token server c w ≡ done c = rw prefers refl in
      ap (λ o. refresh_from server o w) untouched
      ∙ ap (λ t. refreshed_if server c (needs_by server t c.authenticator w) w) holds
