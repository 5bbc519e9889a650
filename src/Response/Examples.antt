-- ===== src/Response/Examples.antt =====
-- Runs of conjurapi/response, and the theorems about it there.
use Prim.Native.String.{String}
use conjur_api_go.Common.{
  [], ℕ, true, false, Option, none, some, ◌==◌, ◌≡◌, ◌≢◌, refl, ok, arith, eq_iff, if◌then◌else◌,
}
use conjur_api_go.Common.Text.{trim_space}
use conjur_api_go.Response.{
  Response, Decoded, conjur, got, failure, new_conjur_error, error_text, data_response,
  json_response, dry_run_policy_json_response, empty_response, redact_authorization,
  process_permission_check, exists_check,
}
use conjur_api_go.Response.Statuses.{
  Ends, data_response-Ends, Concludes, process_permission_check-Concludes,
}

-- A body that is no JSON, but for one that sets a code.
abbrev small_unmarshal : String → Decoded
small_unmarshal body =
    if body == "{\"code\": 7}"
    then record { code = some 7; message = none; details = none; complete = true }
    else record { code = none; message = none; details = none; complete = false }

abbrev answer : ℕ → Option String → Response
answer status body = record { status_code = status; status = "status"; headers = []; body = body }

status_named : ◌≢◌ {A = String} "status" ""
status_named e = absurd (ground (arith, eq_iff "status" "", e))

response_tests :
    (data_response small_unmarshal (answer 200 (some "x")) ≡ got "x")
    × (data_response small_unmarshal (answer 404 (some " gone "))
        ≡ failure (conjur (record { code = 404; message = "gone"; details = none })))
    × (data_response small_unmarshal (answer 404 (some "{\"code\": 7}"))
        ≡ failure (conjur (record { code = 7; message = "status"; details = none })))
    × (dry_run_policy_json_response small_unmarshal ok (answer 422 (some "x")) ≡ got "x")
    × (empty_response small_unmarshal (answer 204 none) ≡ got tt)
    × (error_text (record { code = 1; message = "a"; details = some (record { message = "b" }) })
        ≡ "a. b.")
    × (redact_authorization "Token" ≡ "[REDACTED]")
unfolding data_response new_conjur_error dry_run_policy_json_response json_response empty_response
    error_text redact_authorization trim_space
response_tests = (refl, refl, refl, refl, refl, refl, refl)

data_response-Ends_example :
    Ends small_unmarshal
      (answer 404 (some "gone"))
      (data_response small_unmarshal (answer 404 (some "gone")))
data_response-Ends_example =
    data_response-Ends small_unmarshal (answer 404 (some "gone")) status_named

process_permission_check-Concludes_example :
    Concludes 403 (process_permission_check 403) (exists_check "Role" 403)
process_permission_check-Concludes_example = process_permission_check-Concludes "Role" 403
