-- ===== src/V2/Gates/Guarded.antt =====
-- The calls that a self-hosted server has from some version on (conjurapi/branch_v2.go,
-- conjurapi/group_membership_v2.go, conjurapi/authenticators.go) and the version that the client knows.
use Prim.Native.String.{String}
use conjur_api_go.Common.{false, Option, none, some, ◌≡◌, ◌⊎◌, inl, inr, refl}
use conjur_api_go.AuthToken.{done}
use conjur_api_go.Config.{is_saas}
use conjur_api_go.Response.{plain, failure}
use conjur_api_go.Session.{Client, Server}
use conjur_api_go.Session.Submit.{Ending}
use conjur_api_go.V2.Gates.{Versioned, Versioned-refused}
use conjur_api_go.Version.{Semver, Decoding, verify_min_server_version}
use conjur_api_go.Version.Verified.{
  SemverLaws, AtLeast, IsPlain, Verified, verify_min_server_version-Verified,
}

module _ {W V : Type 0} (server : Server W) (decoding : Decoding) (semver : Semver V)
    (laws : SemverLaws semver) (c : Client W) (w : W) where
  -- After a verification: the client knows a version that is high enough, or the call is refused.
  abbrev pub Guarded :
      {A : Type 0} → String → String → Ending W A → (Client W × Option String) × W → Type 0
  Guarded min message ending v =
      AtLeast semver laws min v.0.0.conjur_version
      ⊎ (ending ≡ (done (v.0.0, failure (plain message)), v.1))

  Guarded-by :
      {A : Type 0} {min message : String} {ending : Ending W A}
      → Versioned server decoding semver c w A min message ending
      → is_saas c.config ≡ false
      → (v : (Client W × Option String) × W)
      → verify_min_server_version server decoding semver c min w ≡ v
      → Verified semver laws server decoding c min v
      → Guarded min message ending v
  Guarded-by call other ((c', none), w') e (high, _, _) = inl high
  Guarded-by call other ((c', some x), w') e verified =
      inr (Versioned-refused server decoding semver c w call other e)

  -- Take one of the calls on branches, on memberships in groups and on authenticators, on a client
  -- that is not configured for Secrets Manager SaaS, and the outcome of VerifyMinServerVersion for
  -- the minimum version of the call, which has no suffix. Then the client that the verification
  -- leaves holds a version whose numbers are not before those of the minimum, or the call comes to
  -- the error that names the version and leaves this client and the world as the verification did:
  -- nothing but the questions for its version is sent to a server that is too old or that does not
  -- tell its version.
  pub Versioned-Guarded :
      {A : Type 0} {min message : String} {ending : Ending W A}
      → Versioned server decoding semver c w A min message ending
      → is_saas c.config ≡ false
      → IsPlain semver laws min
      → Guarded min message ending (verify_min_server_version server decoding semver c min w)
  Versioned-Guarded {min = min} call other plain_min =
      Guarded-by call other (verify_min_server_version server decoding semver c min w) refl
        (verify_min_server_version-Verified semver laws server decoding c min w plain_min)
