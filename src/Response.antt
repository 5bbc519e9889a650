-- ===== src/Response.antt =====
-- Responses and their errors (conjurapi/response/response.go, conjurapi/response/error.go), and the
-- checks on statuses of conjurapi/resource.go and conjurapi/role.go.
mod Examples
pub mod Statuses
use Prim.Native.String.{String, ◌++◌}
use conjur_api_go.Common.{
  ℕ, pos, Bool, true, false, Option, none, some, List, [], ◌∷◌, ◌==◌, ◌&&◌, ◌||◌, not, ltb, leb,
  eqb, get_or, if◌then◌else◌, Result, ok, err,
}
use conjur_api_go.Common.Text.{trim_space}
use conjur_api_go.Requests.{itoa}

-- An answer: its body is `none` where reading it fails.
pub record Response : Type 0 where
  pub status_code : ℕ
  pub status : String
  pub headers : List (String × String)
  pub body : Option String

-- ConjurErrorDetails, as far as the texts of errors read it
pub record ConjurErrorDetails : Type 0 where
  pub message : String

pub record ConjurError : Type 0 where
  pub code : ℕ
  pub message : String
  pub details : Option ConjurErrorDetails

-- What json.Unmarshal(body, &cerr) sets, and whether it succeeds. A key "code" of the body sets the
-- code: names of keys are compared without case.
pub record Decoded : Type 0 where
  pub code : Option ℕ
  pub message : Option String
  pub details : Option ConjurErrorDetails
  pub complete : Bool

-- An error of a call: one of the client or of reading, one that the server reports, or another one
-- with a text before it.
pub data Failure : Type 0 where
  plain : String → Failure
  conjur : ConjurError → Failure
  wrapped : String → Failure → Failure

-- A value, or an error. Where the source returns a value beside an error, the error stands alone.
pub data Reply {ℓ} (A : Type ℓ) : Type ℓ where
  got : A → Reply A
  failure : Failure → Reply A

error_of : (String → Decoded) → Response → Option String → Failure
error_of unmarshal resp none = plain "unreadable body"
error_of unmarshal resp (some body) =
    let d = unmarshal body in
    let decoded = get_or d.message "" in
    let message = if d.complete then decoded else trim_space body in
    conjur (record {
      code = get_or d.code resp.status_code;
      message = if message == "" then resp.status else message;
      details = d.details;
    })

-- NewConjurError
unfoldable pub new_conjur_error : (String → Decoded) → Response → Failure
unfolding error_of
new_conjur_error unmarshal resp = error_of unmarshal resp resp.body

abbrev details_message : Option ConjurErrorDetails → String
details_message none = ""
details_message (some d) = d.message

-- ConjurError.Error
unfoldable pub error_text : ConjurError → String
error_text cerr =
    let detail = details_message cerr.details in
    (if not (cerr.message == "")
      then cerr.message ++ (if not (detail == "") then ". " else "")
      else "")
    ++ (if not (detail == "") then detail ++ "." else "")

read_body : Option String → Reply String
read_body none = failure (plain "unreadable body")
read_body (some body) = got body

-- DataResponse; SecretDataResponse hands on the same body unread
unfoldable pub data_response : (String → Decoded) → Response → Reply String
unfolding new_conjur_error read_body
data_response unmarshal resp =
    if ltb resp.status_code 300
    then read_body resp.body
    else failure (new_conjur_error unmarshal resp)

abbrev pub is_allowed : List ℕ → ℕ → Bool
is_allowed [] status = false
is_allowed (s ∷ more) status = eqb s status || is_allowed more status

decoded_body : {A : Type 0} → (String → Result A) → Option String → Reply A
decoded_body decode none = failure (plain "unreadable body")
decoded_body decode (some body) = elim (decode body) [ ok a ↦ got a | err e ↦ failure (plain e) ]

-- JSONResponseWithAllowedStatusCodes; JSONResponse allows none
unfoldable pub json_response :
    {A : Type 0} → (String → Decoded) → (String → Result A) → List ℕ → Response → Reply A
unfolding new_conjur_error decoded_body
json_response unmarshal decode allowed resp =
    if ltb resp.status_code 300 || is_allowed allowed resp.status_code
    then decoded_body decode resp.body
    else failure (new_conjur_error unmarshal resp)

-- DryRunPolicyJSONResponse
unfoldable pub dry_run_policy_json_response :
    {A : Type 0} → (String → Decoded) → (String → Result A) → Response → Reply A
dry_run_policy_json_response unmarshal decode resp = json_response unmarshal decode (422 ∷ []) resp

-- EmptyResponse
unfoldable pub empty_response : (String → Decoded) → Response → Reply (Unit {0})
unfolding new_conjur_error
empty_response unmarshal resp =
    if ltb resp.status_code 300 then got tt else failure (new_conjur_error unmarshal resp)

-- redactHeaders, on the value of the Authorization header
unfoldable pub redact_authorization : String → String
redact_authorization value = if not (value == "") then "[REDACTED]" else value

-- processPermissionCheck, from the status of the answer
unfoldable pub process_permission_check : ℕ → Result Bool
process_permission_check status =
    if leb 200 status && ltb status 300
    then ok true
    else if eqb status 404 || eqb status 403
    then ok false
    else err ("Permission check failed with HTTP status " ++ itoa (pos status))

-- ResourceExists and RoleExists, from the status of the answer
unfoldable pub exists_check : String → ℕ → Result Bool
exists_check what status =
    if (leb 200 status && ltb status 300) || eqb status 403
    then ok true
    else if eqb status 404
    then ok false
    else err (what ++ " exists check failed with HTTP status " ++ itoa (pos status))
