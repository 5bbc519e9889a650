-- ===== src/Config/Validate/Usable.antt =====
-- Which configurations Validate accepts (conjurapi/config.go).
use Prim.Native.String.{String}
use conjur_api_go.Common.{
  ◌≤◌, ℤ, pos, negsuc, Bool, true, false, Option, none, some, List, [], ◌∷◌, ◌++◌, ◌==◌, ◌&&◌, ◌||◌,
  not, is_negative, exceeds, if◌then◌else◌, ◌≡◌, ◌≢◌, ◌⊎◌, ◌↔◌, inl, inr, refl, ap₂, arith, eq_iff,
}
use conjur_api_go.Common.Text.{to_lower, has_prefix}
use conjur_api_go.Config.{Config, base_url, http_timeout_max_value}
use conjur_api_go.Environment.{environment_is_supported}
use conjur_api_go.Storage.{validate_keychain_namespace}
use conjur_api_go.Url.Router.{is_conjur_cloud_url}
use conjur_api_go.Config.Validate.{
  World, Stat, present, absent, denied, unknown, is_member, supported_authn_types, service_types,
  fails, reported, prefixed, validate_client_cert_file_path, file_errors, cert_errors,
  validate_errors, failure, validate,
}

-- The inline text or the file is given, not both; the file is there.
abbrev pub OneSource : World → String → String → Type 0
OneSource world inline file =
    ((inline ≢ "") × (file ≡ "")) ⊎ ((inline ≡ "") × (file ≢ "") × (world.stat file ≡ present))

-- What authn-cert needs.
abbrev pub IsCertUsable : World → Config → Type 0
IsCertUsable world c =
    (has_prefix (to_lower (base_url c)) "https://" ≡ true)
    × (is_conjur_cloud_url world.parse_url c.appliance_url ≡ false)
    × OneSource world c.client_cert c.client_cert_file
    × OneSource world c.client_cert_key c.client_cert_key_file
    × ((c.client_cert ≡ "")
        ⊎ (c.client_cert_key ≡ "")
        ⊎ (world.key_pair c.client_cert c.client_cert_key ≡ none))

abbrev pub InBounds : ℤ → Type 0
InBounds (pos n) = n ≤ http_timeout_max_value
InBounds (negsuc n) = ⊥

-- A configuration from which a client can be made.
abbrev pub IsUsable : World → Config → Type 0
IsUsable world c =
    (validate_keychain_namespace world.lookup_env c.keychain_namespace ≡ none)
    × (c.appliance_url ≢ "")
    × (c.account ≢ "")
    × ((c.authn_type ≡ "") ⊎ (is_member supported_authn_types c.authn_type ≡ true))
    × ((is_member service_types c.authn_type ≡ false) ⊎ (c.service_id ≢ ""))
    × ((c.authn_type ≢ "jwt") ⊎ (c.jwt_content ≢ "") ⊎ (c.jwt_file_path ≢ ""))
    × (((c.authn_type ≢ "iam") × (c.authn_type ≢ "azure")) ⊎ (c.jwt_host_id ≢ ""))
    × ((c.authn_type ≢ "cert") ⊎ IsCertUsable world c)
    × InBounds c.http_timeout
    × (c.environment ≢ "")
    × (environment_is_supported c.environment ≡ true)

both_empty : (xs ys : List String) → xs ++ ys ≡ [] → (xs ≡ []) × (ys ≡ [])
both_empty [] ys e = (refl, e)
both_empty (x ∷ xs) ys e = cc

-- A list of messages is empty exactly under a condition.
abbrev Empty : List String → Type 0 → Type 0
Empty xs P = (xs ≡ []) ↔ P

and_then : {xs ys : List String} {P Q : Type 0} → Empty xs P → Empty ys Q → Empty (xs ++ ys) (P × Q)
and_then {xs = xs} {ys = ys} p q = (
  λ e. let (f, g) = both_empty xs ys e in (p.0 f, q.0 g),
  λ (a, b). ap₂ (λ x y. x ++ y) (p.1 a) (q.1 b),
)

failing : (b : Bool) (m : String) → Empty (fails b m) (b ≡ false)
failing true m = (λ e. cc, λ e. cc)
failing false m = (λ e. refl, λ e. refl)

reporting : (o : Option String) → Empty (reported o) (o ≡ none)
reporting none = (λ e. refl, λ e. refl)
reporting (some e) = (λ f. cc, λ f. cc)

weaken : {P Q R : Type 0} → (P ↔ Q) → (Q ↔ R) → P ↔ R
weaken f g = (λ p. g.0 (f.0 p), λ r. f.1 (g.1 r))

given : (s : String) → ((s == "") ≡ false) ↔ (s ≢ "")
given s = ground (arith, eq_iff s "")

unset_or : (s : String) (b : Bool) → ((not (s == "") && not b) ≡ false) ↔ ((s ≡ "") ⊎ (b ≡ true))
unset_or s b = ground (arith, eq_iff s "")

unless : (b : Bool) (s : String) → ((b && s == "") ≡ false) ↔ ((b ≡ false) ⊎ (s ≢ ""))
unless b s = ground (arith, eq_iff s "")

unless_named :
    (s t x y : String)
    → ((s == t && (x == "" && y == "")) ≡ false) ↔ ((s ≢ t) ⊎ (x ≢ "") ⊎ (y ≢ ""))
unless_named s t x y = ground (arith, eq_iff s t, eq_iff x "", eq_iff y "")

unless_either :
    (s t u x : String)
    → (((s == t || s == u) && x == "") ≡ false) ↔ (((s ≢ t) × (s ≢ u)) ⊎ (x ≢ ""))
unless_either s t u x = ground (arith, eq_iff s t, eq_iff s u, eq_iff x "")

bounded : (t : ℤ) → ((is_negative t || exceeds t http_timeout_max_value) ≡ false) ↔ InBounds t
bounded (pos n) = ground arith
bounded (negsuc n) = ground arith

under :
    (b : Bool) (xs : List String) {P : Type 0}
    → Empty xs P
    → Empty (if b then xs else []) ((b ≡ false) ⊎ P)
under true xs p = (λ e. inr (p.0 e), λ h. elim h [ inl f ↦ cc | inr q ↦ p.1 q ])
under false xs p = (λ e. inl refl, λ h. refl)

found_file :
    (label path : String) (stat : Stat)
    → (validate_client_cert_file_path label path stat ≡ none) ↔ (stat ≡ present)
unfolding validate_client_cert_file_path
found_file label path present = (λ e. refl, λ e. refl)
found_file label path absent = (λ e. cc, λ e. cc)
found_file label path denied = (λ e. cc, λ e. cc)
found_file label path (unknown x) = (λ e. cc, λ e. cc)

prefixed_iff : (text : String) (o : Option String) → (prefixed text o ≡ none) ↔ (o ≡ none)
prefixed_iff text none = (λ e. refl, λ e. refl)
prefixed_iff text (some e) = (λ f. cc, λ f. cc)

source :
    (world : World) (inline file : String)
    → (((inline == "" && file == "") ≡ false)
        × ((not (inline == "") && not (file == "")) ≡ false)
        × (((inline == "" && not (file == "")) ≡ false) ⊎ (world.stat file ≡ present)))
      ↔ OneSource world inline file
source world inline file = ground (arith, eq_iff inline "", eq_iff file "")

pairing :
    (world : World) (cert key : String)
    → Empty
        (if not (cert == "") && not (key == "")
          then reported (prefixed "invalid client certificate or key: " (world.key_pair cert key))
          else [])
        ((cert ≡ "") ⊎ (key ≡ "") ⊎ (world.key_pair cert key ≡ none))
pairing world cert key =
    weaken
      (under (not (cert == "") && not (key == "")) _
        (weaken (reporting _) (prefixed_iff _ (world.key_pair cert key))))
      (ground (arith, eq_iff cert "", eq_iff key ""))

looking :
    (b : Bool) (label path : String) (stat : Stat)
    → Empty (file_errors b label path stat) ((b ≡ false) ⊎ (stat ≡ present))
unfolding file_errors
looking b label path stat = under b _ (
    weaken (reporting (validate_client_cert_file_path label path stat))
      (found_file label path stat))

cert_checks : (world : World) (c : Config) → Empty (cert_errors world c) (IsCertUsable world c)
unfolding cert_errors
cert_checks world c =
    weaken
      (and_then (failing (not (has_prefix (to_lower (base_url c)) "https://")) _) (
        and_then (failing (is_conjur_cloud_url world.parse_url c.appliance_url) _) (
          and_then (failing (c.client_cert == "" && c.client_cert_file == "") _) (
            and_then (failing (c.client_cert_key == "" && c.client_cert_key_file == "") _) (
              and_then (failing (not (c.client_cert == "") && not (c.client_cert_file == "")) _) (
                and_then
                  (failing (not (c.client_cert_key == "") && not (c.client_cert_key_file == "")) _)
                  (and_then (pairing world c.client_cert c.client_cert_key) (
                    and_then
                      (looking (c.client_cert == "" && not (c.client_cert_file == ""))
                        "client certificate file" c.client_cert_file
                        (world.stat c.client_cert_file))
                      (looking (c.client_cert_key == "" && not (c.client_cert_key_file == ""))
                        "client certificate key file" c.client_cert_key_file
                        (world.stat c.client_cert_key_file))))))))))
      (
        λ (https, (cloud, (cert, (key, (cert2, (key2, (pair, (cert3, key3)))))))). (
          ground (arith, https),
          cloud,
          (source world c.client_cert c.client_cert_file).0 (cert, cert2, cert3),
          (source world c.client_cert_key c.client_cert_key_file).0 (key, key2, key3),
          pair,
        ),
        λ (https, cloud, cert, key, pair).
            let (cert1, cert2, cert3) = (source world c.client_cert c.client_cert_file).1 cert in
            let (key1, key2, key3) =
              (source world c.client_cert_key c.client_cert_key_file).1 key in
            (
              ground (arith, https),
              (cloud, (cert1, (key1, (cert2, (key2, (pair, (cert3, key3))))))),
            ),
      )

checks : (world : World) (c : Config) → Empty (validate_errors world c) (IsUsable world c)
unfolding validate_errors
checks world c =
    weaken
      (and_then (reporting (validate_keychain_namespace world.lookup_env c.keychain_namespace)) (
        and_then (weaken (failing (c.appliance_url == "") _) (given c.appliance_url)) (
          and_then (weaken (failing (c.account == "") _) (given c.account)) (
            and_then (weaken (failing (c.environment == "") _) (given c.environment)) (
              and_then
                (weaken
                  (failing
                    (not (c.authn_type == "") && not (is_member supported_authn_types c.authn_type))
                    _)
                  (unset_or c.authn_type (is_member supported_authn_types c.authn_type)))
                (and_then
                  (weaken (failing (is_member service_types c.authn_type && c.service_id == "") _)
                    (unless (is_member service_types c.authn_type) c.service_id))
                  (and_then
                    (weaken
                      (failing
                        (c.authn_type == "jwt" && (c.jwt_content == "" && c.jwt_file_path == "")) _)
                      (unless_named c.authn_type "jwt" c.jwt_content c.jwt_file_path))
                    (and_then
                      (weaken
                        (failing
                          ((c.authn_type == "iam" || c.authn_type == "azure")
                            && c.jwt_host_id == "")
                          _)
                        (unless_either c.authn_type "iam" "azure" c.jwt_host_id))
                      (and_then (under (c.authn_type == "cert") _ (cert_checks world c)) (
                        and_then
                          (weaken
                            (failing
                              (is_negative c.http_timeout
                                || exceeds c.http_timeout http_timeout_max_value)
                              _)
                            (bounded c.http_timeout))
                          (weaken
                            (failing
                              (not (c.environment == "")
                                && not (environment_is_supported c.environment))
                              _)
                            (unset_or c.environment
                              (environment_is_supported c.environment)))))))))))))
      (
        λ (
          space,
          (
            url,
            (
              account,
              (environment, (kind, (service, (jwt, (host, (cert, (timeout, supported))))))),
            ),
          ),
        ).
            (
              space,
              url,
              account,
              kind,
              service,
              jwt,
              host,
              elim cert [ inl f ↦ inl (differs f) | inr u ↦ inr u ],
              timeout,
              environment,
              elim supported [ inl e ↦ absurd (environment e) | inr h ↦ h ],
            ),
        λ (space, url, account, kind, service, jwt, host, cert, timeout, environment, supported). (
          space,
          (
            url,
            (
              account,
              (
                environment,
                (
                  kind,
                  (
                    service,
                    (
                      jwt,
                      (
                        host,
                        (
                          elim cert [ inl f ↦ inl (differs_test f) | inr u ↦ inr u ],
                          (timeout, inr supported),
                        ),
                      ),
                    ),
                  ),
                ),
              ),
            ),
          ),
        ),
      )
  where
    differs : (c.authn_type == "cert") ≡ false → c.authn_type ≢ "cert"
    differs f = ground (arith, eq_iff c.authn_type "cert")

    differs_test : c.authn_type ≢ "cert" → (c.authn_type == "cert") ≡ false
    differs_test f = ground (arith, eq_iff c.authn_type "cert")

no_failure :
    (world : World) (c : Config) (es : List String) → (failure world c es ≡ none) ↔ (es ≡ [])
unfolding failure
no_failure world c [] = (λ e. refl, λ e. refl)
no_failure world c (e ∷ es) = (λ f. cc, λ f. cc)

-- Validate returns no error exactly when the configuration that it leaves is usable: the namespace
-- is valid; the address and the account are given; the authenticator is unset or supported and has
-- the service ID, the JWT or the host ID that it needs; for authn-cert the address is HTTPS and not
-- one of Secrets Manager SaaS, the certificate and the key have one source each, whose file is
-- there, and inline ones belong together; the timeout lies between 0 and 600; and the environment
-- is a supported one up to the case of its letters.
pub validate-IsUsable :
    (world : World) (c : Config)
    → ((validate world c).1 ≡ none) ↔ IsUsable world (validate world c).0
unfolding validate
validate-IsUsable world c =
    let settled : Config = (validate world c).0 in
    weaken (no_failure world settled (validate_errors world settled)) (checks world settled)
