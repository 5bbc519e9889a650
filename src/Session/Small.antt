-- ===== src/Session/Small.antt =====
-- A small client and its surroundings, for runs of the calls: the world is the token that the
-- storage holds, and the server answers each request with the text "new".
use Prim.Native.String.{String}
use conjur_api_go.Common.{◌*◌, Bool, false, none, some, [], ◌∷◌, ok, ◌==◌, if◌then◌else◌}
use conjur_api_go.AuthToken.{Token, Codec, number, second}
use conjur_api_go.Config.{empty_config}
use conjur_api_go.Session.{Store, Authenticator, Client, Server}

abbrev pub small_codec : Codec
small_codec = record {
  string_fields = λ s.
      if s == ""
      then none
      else some (("protected", "p") ∷ ("payload", "e") ∷ ("signature", "s") ∷ []);
  token_fields = λ s. some ("p", "e", "s");
  decode_base64 = λ s. some s;
  payload_fields = λ s. some (("iat", number 100) ∷ []);
}

abbrev pub small_token : String → Token
small_token bytes = record {
  raw = bytes;
  protected = "p";
  payload = "e";
  signature = "s";
  iat = 100;
  exp = none;
}

abbrev pub small_server : Server String
small_server = record {
  codec = small_codec;
  now = λ w. 200 * second;
  base64 = λ s. s;
  send = λ request w.
      (ok (record { status_code = 200; status = "200 OK"; headers = []; body = some "new" }), w);
  context = λ c. record {
    config = c;
    telemetry_header = "h";
    parse_url = λ url. none;
    url_error = λ url. none;
  };
  unmarshal = λ body. record { code = none; message = none; details = none; complete = false };
}

abbrev pub small_store : Store String
small_store = record {
  store_credentials = λ user key w. (ok tt, key);
  read_credentials = λ w. ok ("user", w);
  read_authn_token = λ w. ok w;
  store_authn_token = λ token w. (ok tt, token);
  purge_credentials = λ w. (ok tt, "");
}

abbrev pub small_authenticator : Authenticator String
small_authenticator = record {
  refresh_token = λ w. (ok "fetched", w);
  needs_token_refresh = λ w. false;
}

abbrev pub small_client : Bool → String → Client String
small_client prefers mode = record {
  config = record empty_config {
    authn_type = "oidc";
    credential_storage_mode = mode;
    appliance_url = "https://conjur";
    account = "dev";
  };
  auth_token = none;
  authenticator = some small_authenticator;
  storage = some small_store;
  conjur_version = "";
  prefer_cached_token = prefers;
}

abbrev pub holding : Client String → String → Client String
holding c bytes = record c { auth_token = some (small_token bytes) }
