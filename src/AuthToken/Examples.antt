-- ===== src/AuthToken/Examples.antt =====
-- Runs of conjurapi/authn/auth_token.go, and the theorems about it there.
use Prim.Native.String.{String}
use conjur_api_go.Common.{
  ◌*◌, true, false, none, some, List, [], ◌∷◌, ◌==◌, ◌≡◌, refl, if◌then◌else◌,
}
use conjur_api_go.AuthToken.{
  Token, done, failed, panics, Codec, number, other, second, from_json, new_token, has_field,
  has_token_fields, refresh_after, should_refresh,
}
use conjur_api_go.AuthToken.Issued.{IsIssued, new_token-IsIssued}
use conjur_api_go.AuthToken.Refresh.{IsLate, should_refresh-IsLate}

abbrev three_fields : List (String × String)
three_fields = ("protected", "p") ∷ ("payload", "e") ∷ ("signature", "s") ∷ []

-- The data "good" is a token issued at 100 that expires at 200; in "odd", "iat" is not a number.
abbrev small_codec : Codec
small_codec = record {
  string_fields = λ s.
      if s == "good" then some three_fields else if s == "odd" then some three_fields else none;
  token_fields = λ s. some ("p", s, "s");
  decode_base64 = λ s. some s;
  payload_fields = λ s.
      if s == "good"
      then some (("iat", number 100) ∷ ("exp", number 200) ∷ [])
      else some (("iat", other) ∷ []);
}

abbrev good_token : Token
good_token = record {
  raw = "good";
  protected = "p";
  payload = "good";
  signature = "s";
  iat = 100;
  exp = some 200;
}

token_tests :
    (new_token small_codec "good" ≡ done good_token)
    × (new_token small_codec "odd" ≡ panics)
    × (new_token small_codec "x" ≡ failed "CONJUR_AUTHN_TOKEN is not valid JSON")
    × (refresh_after (100 * second) ≡ 85000003584)
    × (should_refresh (184 * second) good_token ≡ false)
    × (should_refresh (186 * second) good_token ≡ true)
unfolding new_token from_json has_field refresh_after should_refresh
token_tests = (refl, refl, refl, refl, refl, refl)

new_token-IsIssued_example :
    IsIssued small_codec "good" good_token
    × ((fields : List (String × String)) × (small_codec.string_fields "good" ≡ some fields)
        × (has_token_fields fields ≡ true))
unfolding new_token from_json has_field
new_token-IsIssued_example = new_token-IsIssued small_codec "good" refl

should_refresh-IsLate_example : IsLate (186 * second) 100 (some 200)
unfolding should_refresh refresh_after
should_refresh-IsLate_example = should_refresh-IsLate (186 * second) good_token refl
