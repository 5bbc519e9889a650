-- ===== src/Session/Submit/Authorized.antt =====
-- What SubmitRequest sends (conjurapi/requests.go).
use Prim.Native.String.{String, ◌++◌}
use conjur_api_go.Common.{some, false, [], ◌∷◌, Result, ◌≡◌, ◌⊎◌, refl}
use conjur_api_go.Common.Text.{to_lower}
use conjur_api_go.AuthToken.{Token, Outcome, done, failed, panics, should_refresh}
use conjur_api_go.Requests.{Request, conjur_source_header}
use conjur_api_go.Response.{Response}
use conjur_api_go.Session.{Client, Server, create_auth_request}
use conjur_api_go.Session.Fresh.{Obtained, create_auth_request-IsCurrent}
use conjur_api_go.Session.Submit.Headers.{values-set_header}
use conjur_api_go.Session.Submit.{values, with_authorization, submit_authorized, submit_request}

module _ {W : Type 0} (server : Server W) where
  -- The request was sent with a current token as its only authorization, and this is the answer; or
  -- nothing was sent after the attempt to get a token.
  abbrev pub Submitted : Client W → Request → W → Outcome (Client W × Result Response) × W → Type 0
  Submitted c request w (done (c', resp), w') =
      (t : Token) × (c'.auth_token ≡ some t)
      × (Obtained server c.authenticator w t ⊎ (should_refresh (server.now w) t ≡ false))
      × (let authorization = "Token token=\"" ++ server.base64 t.raw ++ "\"" in
          let sent = with_authorization server c' authorization request in
          (values "Authorization" sent.headers ≡ authorization ∷ [])
          × ((resp, w') ≡ server.send sent (create_auth_request server c w).1))
  Submitted c request w (failed e, w') = w' ≡ (create_auth_request server c w).1
  Submitted c request w (panics, w') = w' ≡ (create_auth_request server c w).1

  -- SubmitRequest sends the request only once createAuthRequest has succeeded: it carries one
  -- Authorization header, whatever headers it had, which is the encoding of the client's token, and
  -- this token is the one that the authenticator has just returned or one that ShouldRefresh does
  -- not want refreshed. Otherwise nothing is sent after the attempt to get a token.
  pub submit_request-Submitted :
      (c : Client W) (request : Request) (w : W)
      → Submitted c request w (submit_request server c request w)
  unfolding submit_request with_authorization
  submit_request-Submitted c request w = by_outcome (create_auth_request server c w).0 refl
    where
      by_outcome :
          (o : Outcome (Client W × String))
          → (create_auth_request server c w).0 ≡ o
          → Submitted c request w
              (submit_authorized server request o (create_auth_request server c w).1)
      by_outcome (failed e) h = refl
      by_outcome panics h = refl
      by_outcome (done (c', authorization)) h =
          let (t, held, encoded, current) = create_auth_request-IsCurrent server c w h in
          (
            t,
            held,
            current,
            (
              values-set_header "Authorization" ("Token token=\"" ++ server.base64 t.raw ++ "\"")
                  conjur_source_header (server.context c'.config).telemetry_header request.headers
                  (unfold to_lower in refl),
              rw (← encoded) refl,
            ),
          )
