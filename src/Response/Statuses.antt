-- ===== src/Response/Statuses.antt =====
-- What statuses mean (conjurapi/response, conjurapi/resource.go, conjurapi/role.go).
use Prim.Native.String.{String}
use conjur_api_go.Common.{
  ℕ, ◌≤◌, ◌<◌, Bool, true, false, Option, none, some, ◌==◌, ◌&&◌, ltb, leb, eqb, get_or,
  if◌then◌else◌, Result, ok, err, ◌≡◌, ◌≢◌, ◌⊎◌, inl, inr, refl, arith, eq_iff, Bool-cases,
}
use conjur_api_go.Common.Text.{trim_space}
use conjur_api_go.Response.{
  Response, ConjurError, Decoded, plain, conjur, Reply, got, failure, new_conjur_error, error_of,
  read_body, data_response, process_permission_check, exists_check,
}

-- How a call ends whose answer is read only below status 300.
pub data Ends (unmarshal : String → Decoded) (resp : Response) : Reply String → Type 0 where
  with_body :
      {body : String}
      → resp.status_code < 300
      → resp.body ≡ some body
      → Ends unmarshal resp (got body)
  unread : {e : String} → resp.body ≡ none → Ends unmarshal resp (failure (plain e))
  with_error :
      {body : String} {cerr : ConjurError}
      → 300 ≤ resp.status_code
      → resp.body ≡ some body
      → cerr.code ≡ get_or (unmarshal body).code resp.status_code
      → (resp.status ≢ "")
      → cerr.message ≢ ""
      → Ends unmarshal resp (failure (conjur cerr))

shown_message : (m status : String) → status ≢ "" → (if m == "" then status else m) ≢ ""
shown_message m status h = ground (arith, eq_iff m "")

-- With a status text, DataResponse returns the body of an answer below status 300 if it can be read;
-- from status 300 on it returns the server's error, which has the status for its code unless the
-- body sets one, and a message; a body that cannot be read is an error in either case.
pub data_response-Ends :
    (unmarshal : String → Decoded) (resp : Response)
    → resp.status ≢ ""
    → Ends unmarshal resp (data_response unmarshal resp)
unfolding data_response new_conjur_error read_body error_of
data_response-Ends unmarshal resp h = by_body resp.body refl
  where
    by_body :
        (body : Option String)
        → resp.body ≡ body
        → Ends unmarshal resp (
            if ltb resp.status_code 300
            then read_body body
            else failure (error_of unmarshal resp body))
    by_body none e = elim (Bool-cases (ltb resp.status_code 300)) [
      | inl low ↦ rw low (unread e)
      | inr high ↦ rw high (unread e)
    ]
    by_body (some body) e = elim (Bool-cases (ltb resp.status_code 300)) [
      | inl low ↦ rw low (with_body (ground arith) e)
      | inr high ↦ rw high (
          with_error (ground arith) e refl h (
            shown_message
              (if (unmarshal body).complete
                then get_or (unmarshal body).message ""
                else trim_space body)
              resp.status h))
    ]

-- What the checks on a resource conclude from a status.
abbrev pub Concludes : ℕ → Result Bool → Result Bool → Type 0
Concludes status (ok true) exists = (200 ≤ status) × (status < 300) × (exists ≡ ok true)
Concludes status (ok false) exists =
    ((status ≡ 404) × (exists ≡ ok false)) ⊎ ((status ≡ 403) × (exists ≡ ok true))
Concludes status (err e) exists =
    (status ≢ 404)
    × (status ≢ 403)
    × ((status < 200) ⊎ (300 ≤ status))
    × ((f : String) × (exists ≡ err f))

-- For every status, the permission check and the test for existence agree on the same answer: both
-- say yes for 200 to 299 and both say no for 404; 403 is no permission on what exists; and for every
-- other status both fail.
pub process_permission_check-Concludes :
    (what : String) (status : ℕ)
    → Concludes status (process_permission_check status) (exists_check what status)
unfolding process_permission_check exists_check
process_permission_check-Concludes what status =
    elim (Bool-cases (leb 200 status && ltb status 300)) [
      | inl success ↦ rw success (ground arith, ground arith, refl)
      | inr other ↦ elim (Bool-cases (eqb status 404)) [
        | inl missing ↦
            let shown : eqb status 403 ≡ false = ground arith in
            rw (other, missing, shown) (inl (ground arith, refl))
        | inr there ↦ elim (Bool-cases (eqb status 403)) [
          | inl hidden ↦ rw (other, there, hidden) (inr (ground arith, refl))
          | inr failed ↦
              rw (other, there, failed) (ground arith, ground arith, ground arith, (_, refl))
        ]
      ]
    ]
