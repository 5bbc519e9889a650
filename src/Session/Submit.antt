-- ===== src/Session/Submit.antt =====
-- Sending a request with the client's token (SubmitRequest, conjurapi/requests.go), and the shape
-- that the calls have in common: a request, its answer, and the answer read.
pub mod Authorized
pub mod Headers
use Prim.Native.String.{String}
use conjur_api_go.Common.{
  Option, none, some, List, [], ◌∷◌, ◌==◌, if◌then◌else◌, Result, ok, err, ◌≡◌, ◌⊎◌, refl,
}
use mathlib.Core.List.{◌++◌}
use conjur_api_go.Common.Text.{to_lower}
use conjur_api_go.AuthToken.{Outcome, done, failed, panics}
use conjur_api_go.Requests.{Request, conjur_source_header}
use conjur_api_go.Response.{
  Response, plain, Reply, got, failure, data_response, json_response, empty_response,
}
use conjur_api_go.Session.{Client, Server, create_auth_request}

-- The values of a header; names are compared without case.
abbrev pub values : String → List (String × String) → List String
values name [] = []
values name ((k, v) ∷ more) =
    let rest = values name more in if to_lower k == to_lower name then v ∷ rest else rest

-- Header.Get, the first value, or the empty text
abbrev first : List String → String
first [] = ""
first (v ∷ more) = v

abbrev pub header : String → List (String × String) → String
header name headers = first (values name headers)

-- Header.Del
abbrev pub without : String → List (String × String) → List (String × String)
without name [] = []
without name ((k, v) ∷ more) =
    let rest = without name more in if to_lower k == to_lower name then rest else (k, v) ∷ rest

-- Header.Set
abbrev pub set_header : String → String → List (String × String) → List (String × String)
set_header name value headers = (name, value) ∷ without name headers

-- Header.Add
abbrev pub add_header : String → String → List (String × String) → List (String × String)
add_header name value headers = headers ++ ((name, value) ∷ [])

-- What a call comes to. `failed` and `panics` are those of createAuthRequest, before a request is
-- sent, and the client is then the one of `refreshed_client`; after that there is a client, whose token may be a new one, and a reply.
abbrev pub Ending : Type 0 → Type 0 → Type 0
Ending W A = Outcome (Client W × Reply A) × W

module _ {W : Type 0} (server : Server W) where
  -- The request with the two headers that SubmitRequest sets
  unfoldable pub with_authorization : Client W → String → Request → Request
  with_authorization c authorization request = record request {
    headers =
        add_header conjur_source_header (server.context c.config).telemetry_header
          (set_header "Authorization" authorization request.headers);
  }

  submit_authorized :
      Request → Outcome (Client W × String) → W → Outcome (Client W × Result Response) × W
  unfolding with_authorization
  submit_authorized request (failed e) w = (failed e, w)
  submit_authorized request panics w = (panics, w)
  submit_authorized request (done (c, authorization)) w =
      let (resp, w') = server.send (with_authorization c authorization request) w in
      (done (c, resp), w')

  -- SubmitRequest
  unfoldable pub submit_request : Client W → Request → W → Outcome (Client W × Result Response) × W
  unfolding submit_authorized
  submit_request c request w =
      let (authorized, w') = create_auth_request server c w in
      submit_authorized request authorized w'

  -- The answer, read, if there is one
  abbrev pub reply_to : {A : Type 0} → (Response → Reply A) → Result Response → Reply A
  reply_to read (err e) = failure (plain e)
  reply_to read (ok resp) = read resp

  answered :
      {A : Type 0} → (Response → Reply A) → Outcome (Client W × Result Response) × W → Ending W A
  answered read (done (c, resp), w) = (done (c, reply_to read resp), w)
  answered read (failed e, w) = (failed e, w)
  answered read (panics, w) = (panics, w)

  -- A request, or the error of building it; SubmitRequest; and the answer read
  unfoldable pub call :
      {A : Type 0} → (Response → Reply A) → Client W → Result Request → W → Ending W A
  unfolding answered submit_request
  call read c (err e) w = (done (c, failure (plain e)), w)
  call read c (ok request) w = answered read (submit_request c request w)

  -- response.DataResponse, response.JSONResponse and response.EmptyResponse behind SubmitRequest.
  -- `decode` is json.Unmarshal into the type of the result.
  abbrev pub data_call : Client W → Result Request → W → Ending W String
  data_call c request w = call (data_response server.unmarshal) c request w

  abbrev pub json_call :
      {A : Type 0} → (String → Result A) → Client W → Result Request → W → Ending W A
  json_call decode c request w = call (json_response server.unmarshal decode []) c request w

  abbrev pub empty_call : Client W → Result Request → W → Ending W (Unit {0})
  empty_call c request w = call (empty_response server.unmarshal) c request w

  -- A request that is sent by httpClient.Do, with no token
  unfoldable pub plain_call : {A : Type 0} → (Response → Reply A) → Result Request → W → Reply A × W
  plain_call read (err e) w = (failure (plain e), w)
  plain_call read (ok request) w =
      let (resp, w') = server.send request w in (reply_to read resp, w')
