-- ===== src/Environment/Guess.antt =====
-- What the guess of the environment rests on (conjurapi/environment.go, conjurapi/info.go).
use Prim.Native.String.{String}
use conjur_api_go.Common.{
  ◌<◌, Bool, true, false, Option, none, some, ◌≡◌, ◌⊎◌, inl, inr, refl, arith, Bool-cases,
}
use conjur_api_go.Config.{environment_saas, environment_sh}
use conjur_api_go.Url.Router.{ParsedUrl, is_conjur_cloud_url}
use conjur_api_go.Environment.{
  has_api_base_path, Answer, unreached, answered, probe_enterprise_info_endpoint,
  probe_root_version_endpoint, classify_self_hosted_surface, Answers, guess_from,
  probe_environment_from_appliance, resolve_default_environment,
}

-- An answer that a self-hosted server gives at one of its endpoints.
abbrev pub IsSurface : Answer → Type 0
IsSurface unreached = ⊥
IsSurface (answered status readable parsed) = (status < 300) × (readable ≡ true) × (parsed ≡ true)

abbrev pub IsUnreached : Answer → Type 0
IsUnreached unreached = Unit {0}
IsUnreached (answered status readable parsed) = ⊥

-- What is known of a server by its answers.
pub data Known : Answers → String → Bool → Type 0 where
  no_client : Known none environment_saas false
  silent :
      {info root : Answer}
      → IsUnreached info
      → IsUnreached root
      → Known (some (info, root)) environment_saas false
  self_hosted :
      {info root : Answer}
      → IsSurface info ⊎ IsSurface root
      → Known (some (info, root)) environment_sh true
  edge :
      {info root : Answer}
      → (¬ IsSurface info)
      → (¬ IsSurface root)
      → (¬ IsUnreached info) ⊎ (¬ IsUnreached root)
      → Known (some (info, root)) environment_saas true

info_probe :
    (a : Answer)
    → ((probe_enterprise_info_endpoint a ≡ (true, true)) × IsSurface a × (¬ IsUnreached a))
      ⊎ ((probe_enterprise_info_endpoint a ≡ (true, false)) × (¬ IsSurface a) × (¬ IsUnreached a))
      ⊎ ((probe_enterprise_info_endpoint a ≡ (false, false)) × (¬ IsSurface a) × IsUnreached a)
unfolding probe_enterprise_info_endpoint
info_probe unreached = inr (inr (refl, λ h. h, tt))
info_probe (answered status readable parsed) = ground arith

root_probe :
    (a : Answer)
    → ((probe_root_version_endpoint a ≡ (true, true)) × IsSurface a × (¬ IsUnreached a))
      ⊎ ((probe_root_version_endpoint a ≡ (true, false)) × (¬ IsSurface a) × (¬ IsUnreached a))
      ⊎ ((probe_root_version_endpoint a ≡ (false, false)) × (¬ IsSurface a) × IsUnreached a)
unfolding probe_root_version_endpoint
root_probe unreached = inr (inr (refl, λ h. h, tt))
root_probe (answered status readable parsed) = ground arith

module _ (parse_url : String → Option ParsedUrl) (url : String)
    (other : is_conjur_cloud_url parse_url url ≡ false) where
  probed :
      (info root : Answer)
      → Known
          (some (info, root))
          (probe_environment_from_appliance parse_url url (some (info, root))).0
          (probe_environment_from_appliance parse_url url (some (info, root))).1
  unfolding probe_environment_from_appliance classify_self_hosted_surface guess_from
  probed info root = elim (info_probe info) [
    | inl (e, surface, _) ↦ rw (other, e) (self_hosted (inl surface))
    | inr (inl (e, not_info, heard)) ↦ elim (root_probe root) [
      | inl (f, surface, _) ↦ rw (other, e, f) (self_hosted (inr surface))
      | inr (inl (f, none_here, _)) ↦ rw (other, e, f) (edge not_info none_here (inl heard))
      | inr (inr (f, none_here, _)) ↦ rw (other, e, f) (edge not_info none_here (inl heard))
    ]
    | inr (inr (e, not_info, gone)) ↦ elim (root_probe root) [
      | inl (f, surface, _) ↦ rw (other, e, f) (self_hosted (inr surface))
      | inr (inl (f, none_here, heard)) ↦ rw (other, e, f) (edge not_info none_here (inr heard))
      | inr (inr (f, none_here, lost)) ↦ rw (other, e, f) (silent gone lost)
    ]
  ]

  probed_by :
      (answers : Answers)
      → Known answers
          (probe_environment_from_appliance parse_url url answers).0
          (probe_environment_from_appliance parse_url url answers).1
  unfolding probe_environment_from_appliance
  probed_by none = no_client
  probed_by (some (info, root)) = probed info root

-- The default environment is `saas`, to be persisted, for an address of Secrets Manager SaaS;
-- `self-hosted`, to be persisted, for one whose path does not end in /api; and otherwise what the
-- probes tell: `self-hosted` if one of /info and the root gives the answer of a self-hosted server,
-- `saas` if the server answers but neither does, and `saas`, not to be persisted, if it is silent.
pub resolve_default_environment-Known :
    (parse_url : String → Option ParsedUrl) (url : String) (answers : Answers)
    → let resolved : String × Bool = resolve_default_environment parse_url url answers in
      ((is_conjur_cloud_url parse_url url ≡ true) × (resolved ≡ (environment_saas, true)))
      ⊎ ((is_conjur_cloud_url parse_url url ≡ false)
          × (has_api_base_path url ≡ false)
          × (resolved ≡ (environment_sh, true)))
      ⊎ ((is_conjur_cloud_url parse_url url ≡ false)
          × (has_api_base_path url ≡ true)
          × Known answers resolved.0 resolved.1)
unfolding resolve_default_environment
resolve_default_environment-Known parse_url url answers =
    elim (Bool-cases (is_conjur_cloud_url parse_url url)) [
      | inl cloud ↦ rw cloud (inl (refl, refl))
      | inr other ↦ elim (Bool-cases (has_api_base_path url)) [
        | inl api ↦
            rw api (inr (inr (other, refl, rw other (probed_by parse_url url other answers))))
        | inr plain ↦ rw (other, plain) (inr (inl (refl, refl, refl)))
      ]
    ]
