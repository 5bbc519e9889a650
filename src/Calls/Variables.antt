-- ===== src/Calls/Variables.antt =====
-- The values of variables (conjurapi/variable.go).
use Prim.Native.String.{String}
use conjur_api_go.Common.{
  ℤ, Bool, true, false, List, [], ◌∷◌, ◌==◌, ◌&&◌, not, if◌then◌else◌, Result, ok, ◌>>=◌,
}
use conjur_api_go.Requests.Secrets.{
  retrieve_batch_secrets_request, retrieve_secret_request, retrieve_secret_with_version_request,
  add_secret_request,
}
use conjur_api_go.Response.{Response, plain, Reply, got, failure, data_response}
use conjur_api_go.Session.{Client, Server}
use conjur_api_go.Session.Submit.{header, Ending, call, data_call, empty_call}
use conjur_api_go.Calls.Objects.{reply_of, context_of}

-- The value of each entry, decoded, or the first error. A map is the list of its entries in the
-- order in which the loop meets them.
unfoldable pub decode_base64_values :
    (String → Result String) → List (String × String) → Result (List (String × String))
decode_base64_values decode_base64 [] = ok []
decode_base64_values decode_base64 ((id, value) ∷ more) =
    let rest = decode_base64_values decode_base64 more in
    (do decoded ← decode_base64 value; others ← rest; ok ((id, decoded) ∷ others))

abbrev pub not_base64 : String
not_base64 =
    "Conjur response is not Base64-encoded. The Conjur version may not be compatible with this function - try using RetrieveBatchSecrets instead."

abbrev pub Entries : Type 0
Entries = List (String × String)

-- The end of retrieveBatchSecrets
unfoldable pub batch_reply :
    Bool → (String → Result Entries) → Response → Reply String → Reply Entries
batch_reply base64_flag decode resp (failure f) = failure f
batch_reply base64_flag decode resp (got body) =
    if base64_flag && not (header "Content-Encoding" resp.headers == "base64")
    then failure (plain not_base64)
    else reply_of (decode body)

-- The end of RetrieveBatchSecretsSafe
unfoldable pub safe_reply : (String → Result String) → Reply Entries → Reply Entries
unfolding decode_base64_values
safe_reply decode_base64 (failure f) = failure f
safe_reply decode_base64 (got entries) = reply_of (decode_base64_values decode_base64 entries)

module _ {W : Type 0} (server : Server W) where
  -- RetrieveSecret; RetrieveSecretReader hands on the same body unread
  unfoldable pub retrieve_secret : String → Client W → W → Ending W String
  retrieve_secret variable_id c w =
      data_call server c (retrieve_secret_request (context_of server c) variable_id) w

  unfoldable pub retrieve_secret_with_version : String → ℤ → Client W → W → Ending W String
  retrieve_secret_with_version variable_id version c w =
      data_call server c
        (retrieve_secret_with_version_request (context_of server c) variable_id version) w

  unfoldable pub add_secret : String → String → Client W → W → Ending W (Unit {0})
  add_secret variable_id value c w =
      empty_call server c (add_secret_request (context_of server c) variable_id value) w

  -- RetrieveBatchSecrets
  unfoldable pub retrieve_batch_secrets :
      (String → Result Entries) → List String → Client W → W → Ending W Entries
  unfolding batch_reply
  retrieve_batch_secrets decode variable_ids c w =
      call server (λ resp. batch_reply false decode resp (data_response server.unmarshal resp)) c
        (retrieve_batch_secrets_request (context_of server c) variable_ids false) w

  unfoldable pub retrieve_batch_secrets_safe :
      (String → Result String)
      → (String → Result Entries)
      → List String
      → Client W
      → W
      → Ending W Entries
  unfolding batch_reply safe_reply
  retrieve_batch_secrets_safe decode_base64 decode variable_ids c w =
      call server
        (λ resp.
          safe_reply decode_base64
            (batch_reply true decode resp (data_response server.unmarshal resp)))
        c (retrieve_batch_secrets_request (context_of server c) variable_ids true) w
