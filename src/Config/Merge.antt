-- ===== src/Config/Merge.antt =====
-- Layers of configuration (merge, conjurapi/config.go).
use Prim.Native.String.{String}
use conjur_api_go.Common.{
  List, [], ◌∷◌, map, ap, ◌∙◌, ℤ, Bool, ◌==◌, ◌≡◌, if◌then◌else◌, arith, eq_iff, refl,
}
use conjur_api_go.Config.{Config, merge, merge_text, merge_int, merge_bool}
use conjur_api_go.Credentials.Modes.{merge_mode_assoc}
use mathlib.Core.List.{foldl}

pub merge_text_lem : (a b : String) → merge_text a b ≡ (if b == "" then a else b)
unfolding merge_text
merge_text_lem a b = ground arith

merge_text_assoc : (a b c : String) → merge_text (merge_text a b) c ≡ merge_text a (merge_text b c)
unfolding merge_text
merge_text_assoc a b c = ground (arith, eq_iff c "", eq_iff b "")

merge_int_assoc : (a b c : ℤ) → merge_int (merge_int a b) c ≡ merge_int a (merge_int b c)
unfolding merge_int
merge_int_assoc a b c = ground arith

merge_bool_assoc : (a b c : Bool) → merge_bool (merge_bool a b) c ≡ merge_bool a (merge_bool b c)
unfolding merge_bool
merge_bool_assoc a b c = ground arith

-- Merging a third configuration into two gives the same, whichever pair is merged first: the
-- layers of configuration have one meaning.
pub merge_assoc : (a b c : Config) → merge (merge a b) c ≡ merge a (merge b c)
unfolding merge
merge_assoc a b c = λ i. record a {
  appliance_url = merge_text_assoc a.appliance_url b.appliance_url c.appliance_url i;
  account = merge_text_assoc a.account b.account c.account i;
  ssl_cert = merge_text_assoc a.ssl_cert b.ssl_cert c.ssl_cert i;
  ssl_cert_path = merge_text_assoc a.ssl_cert_path b.ssl_cert_path c.ssl_cert_path i;
  net_rc_path = merge_text_assoc a.net_rc_path b.net_rc_path c.net_rc_path i;
  credential_storage =
      merge_text_assoc a.credential_storage b.credential_storage c.credential_storage i;
  credential_storage_mode =
      merge_mode_assoc a.credential_storage_mode b.credential_storage_mode c.credential_storage_mode
        i;
  keychain_namespace =
      merge_text_assoc a.keychain_namespace b.keychain_namespace c.keychain_namespace i;
  authn_type = merge_text_assoc a.authn_type b.authn_type c.authn_type i;
  service_id = merge_text_assoc a.service_id b.service_id c.service_id i;
  jwt_host_id = merge_text_assoc a.jwt_host_id b.jwt_host_id c.jwt_host_id i;
  jwt_content = merge_text_assoc a.jwt_content b.jwt_content c.jwt_content i;
  jwt_file_path = merge_text_assoc a.jwt_file_path b.jwt_file_path c.jwt_file_path i;
  http_timeout = merge_int_assoc a.http_timeout b.http_timeout c.http_timeout i;
  disable_keep_alives =
      merge_bool_assoc a.disable_keep_alives b.disable_keep_alives c.disable_keep_alives i;
  environment = merge_text_assoc a.environment b.environment c.environment i;
  proxy = merge_text_assoc a.proxy b.proxy c.proxy i;
  azure_client_id = merge_text_assoc a.azure_client_id b.azure_client_id c.azure_client_id i;
  client_cert_file = merge_text_assoc a.client_cert_file b.client_cert_file c.client_cert_file i;
  client_cert_key_file =
      merge_text_assoc a.client_cert_key_file b.client_cert_key_file c.client_cert_key_file i;
  client_cert = merge_text_assoc a.client_cert b.client_cert c.client_cert i;
  client_cert_key = merge_text_assoc a.client_cert_key b.client_cert_key c.client_cert_key i;
  cert_host_id = merge_text_assoc a.cert_host_id b.cert_host_id c.cert_host_id i;
}

-- The text fields that layers may set.
pub data TextField : Type 0 where
  account appliance_url net_rc_path ssl_cert ssl_cert_path authn_type service_id : TextField
  credential_storage keychain_namespace jwt_host_id jwt_content jwt_file_path : TextField
  environment proxy azure_client_id client_cert_file client_cert_key_file : TextField
  client_cert client_cert_key cert_host_id : TextField

abbrev pub text_of : TextField → Config → String
text_of account c = c.account
text_of appliance_url c = c.appliance_url
text_of net_rc_path c = c.net_rc_path
text_of ssl_cert c = c.ssl_cert
text_of ssl_cert_path c = c.ssl_cert_path
text_of authn_type c = c.authn_type
text_of service_id c = c.service_id
text_of credential_storage c = c.credential_storage
text_of keychain_namespace c = c.keychain_namespace
text_of jwt_host_id c = c.jwt_host_id
text_of jwt_content c = c.jwt_content
text_of jwt_file_path c = c.jwt_file_path
text_of environment c = c.environment
text_of proxy c = c.proxy
text_of azure_client_id c = c.azure_client_id
text_of client_cert_file c = c.client_cert_file
text_of client_cert_key_file c = c.client_cert_key_file
text_of client_cert c = c.client_cert
text_of client_cert_key c = c.client_cert_key
text_of cert_host_id c = c.cert_host_id

pub text_of-merge :
    (f : TextField) (c o : Config) → text_of f (merge c o) ≡ merge_text (text_of f c) (text_of f o)
unfolding merge
text_of-merge account c o = refl
text_of-merge _ c o = refl

-- The last text of a list that is not empty, or else the given one.
abbrev pub last_set : String → List String → String
last_set found [] = found
last_set found (s ∷ more) = last_set (if s == "" then found else s) more

-- After merging layers one by one, each text field holds the value of the last layer that sets it,
-- or that of the first configuration if no layer does.
pub text_of-layers :
    (f : TextField) (c : Config) (layers : List Config)
    → text_of f (foldl merge c layers) ≡ last_set (text_of f c) (map (text_of f) layers)
text_of-layers f c [] = refl
text_of-layers f c (o ∷ layers) =
    text_of-layers f (merge c o) layers
    ∙ ap (λ s. last_set s (map (text_of f) layers))
        (text_of-merge f c o ∙ merge_text_lem (text_of f c) (text_of f o))
