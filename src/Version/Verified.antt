-- ===== src/Version/Verified.antt =====
-- What a verified version is (conjurapi/version.go).
use Prim.Native.String.{String}
use conjur_api_go.Common.{
  ℕ, ◌<◌, true, Option, none, some, ◌==◌, Result, ok, err, ◌≡◌, ◌↔◌, ◌⊎◌, inl, inr, refl, sym, ap,
  subst, Bool-cases, eq_iff,
}
use conjur_api_go.Session.{Client, Server}
use conjur_api_go.Version.{
  Semver, Decoding, too_old, wanted_parsed, actual_parsed, validate_min_version, remembered,
  verify_min_server_version, server_version,
}

abbrev pub Numbers : Type 0
Numbers = ℕ × ℕ × ℕ

-- The order of versions without a prerelease: major, minor, patch.
abbrev pub Before : Numbers → Numbers → Type 0
Before (a, b, c) (d, e, f) = (a < d) ⊎ ((a ≡ d) × (b < e)) ⊎ ((a ≡ d) × (b ≡ e) × (c < f))

-- What the package documents: an empty text is no version, and versions without a prerelease are
-- compared by their numbers, which SetPrerelease leaves alone.
pub record SemverLaws {V : Type 0} (semver : Semver V) : Type 0 where
  pub numbers : V → Numbers
  pub prerelease : V → String
  pub not_empty : (v : V) → ¬ (semver.new_version "" ≡ ok v)
  pub prerelease-set : (p : String) (v : V) → prerelease (semver.set_prerelease p v) ≡ p
  pub numbers-set : (p : String) (v : V) → numbers (semver.set_prerelease p v) ≡ numbers v
  pub less_than_iff :
      (v w : V)
      → prerelease v ≡ ""
      → prerelease w ≡ ""
      → (semver.less_than v w ≡ true) ↔ Before (numbers v) (numbers w)

module _ {V : Type 0} (semver : Semver V) (laws : SemverLaws semver) where
  -- The version is one, and no lower than the wanted one, whatever suffix it has.
  abbrev pub AtLeast : String → String → Type 0
  AtLeast min actual =
      (a : V) × (m : V) × (semver.new_version actual ≡ ok a)
      × (semver.new_version min ≡ ok m)
      × ¬ Before (laws.numbers a) (laws.numbers m)

  -- A minimum version as the program writes them: without a suffix.
  abbrev pub IsPlain : String → Type 0
  IsPlain min = (m : V) → semver.new_version min ≡ ok m → laws.prerelease m ≡ ""

  less_than-set :
      (a m : V)
      → laws.prerelease m ≡ ""
      → (semver.less_than (semver.set_prerelease "" a) m ≡ true)
        ↔ Before (laws.numbers a) (laws.numbers m)
  less_than-set a m plain =
      subst
        (λ n. (semver.less_than (semver.set_prerelease "" a) m ≡ true) ↔ Before n (laws.numbers m))
        (laws.numbers-set "" a)
        (laws.less_than_iff (semver.set_prerelease "" a) m (laws.prerelease-set "" a) plain)

  ok-injective : {a b : V} → ◌≡◌ {A = Result V} (ok a) (ok b) → a ≡ b
  ok-injective {a = a} e = ap (λ (r : Result V). elim r [ ok v ↦ v | err _ ↦ a ]) e

  too_old_iff :
      (a m : V)
      → laws.prerelease m ≡ ""
      → (too_old semver a m ≡ none) ↔ (¬ Before (laws.numbers a) (laws.numbers m))
  unfolding too_old
  too_old_iff a m plain =
      let test = semver.less_than (semver.set_prerelease "" a) m in
      let meaning = less_than-set a m plain in
      elim (Bool-cases (semver.less_than (semver.set_prerelease "" a) m)) [
        | inl older ↦ rw older ((λ e. cc), λ newer. absurd (newer (meaning.0 older)))
        | inr not_older ↦ rw not_older ((λ e before. cc (meaning.1 before)), λ newer. refl)
      ]

  wanted_parsed_iff :
      (a : V) (r : Result V)
      → ((m : V) → r ≡ ok m → laws.prerelease m ≡ "")
      → (wanted_parsed semver a r ≡ none)
        ↔ ((m : V) × (r ≡ ok m) × ¬ Before (laws.numbers a) (laws.numbers m))
  unfolding wanted_parsed
  wanted_parsed_iff a (err e) plain = ((λ h. cc), λ (m, h, _). cc)
  wanted_parsed_iff a (ok m) plain =
      let iff = too_old_iff a m (plain m refl) in
      (
        (λ h. (m, refl, iff.0 h)),
        λ (n, e, h).
            iff.1
              (subst (λ v. ¬ Before (laws.numbers a) (laws.numbers v)) (sym (ok-injective e)) h),
      )

  actual_parsed_iff :
      (r s : Result V)
      → ((m : V) → s ≡ ok m → laws.prerelease m ≡ "")
      → (actual_parsed semver r s ≡ none)
        ↔ ((a : V) × (m : V) × (r ≡ ok a) × (s ≡ ok m) × ¬ Before (laws.numbers a) (laws.numbers m))
  unfolding actual_parsed
  actual_parsed_iff (err e) s plain = ((λ h. cc), λ (a, m, h, _, _). cc)
  actual_parsed_iff (ok a) s plain =
      let iff = wanted_parsed_iff a s plain in
      (
        (λ h. let (m, e, k) = iff.0 h in (a, m, refl, e, k)),
        (λ (b, m, e, f, k). iff.1 (
          m,
          f,
          subst (λ v. ¬ Before (laws.numbers v) (laws.numbers m)) (sym (ok-injective e)) k,
        )),
      )

  -- For a minimum version without a suffix, validateMinVersion succeeds exactly when both texts are
  -- versions and the numbers of the actual one are not before those of the minimum: a suffix of the
  -- actual version, which semver takes for a prerelease, makes no difference.
  pub validate_min_version_iff :
      (actual min : String)
      → IsPlain min
      → (validate_min_version semver actual min ≡ none) ↔ AtLeast min actual
  unfolding validate_min_version
  validate_min_version_iff actual min plain =
      actual_parsed_iff (semver.new_version actual) (semver.new_version min) plain

  module _ {W : Type 0} (server : Server W) (decoding : Decoding) where
    -- The client that a verification leaves knows a version that is high enough, differs from the
    -- one before in nothing else, and answers every further verification from what it knows.
    abbrev pub Verified : Client W → String → (Client W × Option String) × W → Type 0
    Verified c min ((c', some e), w') = Unit
    Verified c min ((c', none), w') =
        AtLeast min c'.conjur_version
        × (c' ≡ record c { conjur_version = c'.conjur_version })
        × ((later : String) (v : W)
            → verify_min_server_version server decoding semver c' later v
              ≡ ((c', validate_min_version semver c'.conjur_version later), v))

    known :
        (c : Client W) (min : String)
        → AtLeast min c.conjur_version
        → (later : String) (v : W)
        → verify_min_server_version server decoding semver c later v
          ≡ ((c, validate_min_version semver c.conjur_version later), v)
    unfolding verify_min_server_version
    known c min (a, m, e, _, _) later v = elim (Bool-cases (c.conjur_version == "")) [
      | inl unknown ↦ absurd (
          laws.not_empty a
            (subst (λ t. semver.new_version t ≡ ok a) ((eq_iff c.conjur_version "").0 unknown) e))
      | inr set ↦ rw set refl
    ]

    validated-Verified :
        (c c' : Client W) (min : String) (w' : W) (o : Option String)
        → c' ≡ record c { conjur_version = c'.conjur_version }
        → IsPlain min
        → validate_min_version semver c'.conjur_version min ≡ o
        → Verified c min ((c', o), w')
    validated-Verified c c' min w' (some e) same plain h = tt
    validated-Verified c c' min w' none same plain h =
        let high = (validate_min_version_iff c'.conjur_version min plain).0 h in
        (high, same, known c' min high)

    remembered-Verified :
        (c : Client W) (min : String) (r : Result String × W)
        → IsPlain min
        → Verified c min (remembered server decoding semver c min r)
    unfolding remembered
    remembered-Verified c min (err e, w) plain = tt
    remembered-Verified c min (ok v, w) plain =
        validated-Verified c (record c { conjur_version = v }) min w
          (validate_min_version semver v min) refl plain refl

    -- When VerifyMinServerVersion succeeds for a minimum version without a suffix, the client holds
    -- a version whose numbers are not before those of the minimum, and it is otherwise the client
    -- before; and from then on every verification, of any minimum, is answered from this version,
    -- without a request.
    pub verify_min_server_version-Verified :
        (c : Client W) (min : String) (w : W)
        → IsPlain min
        → Verified c min (verify_min_server_version server decoding semver c min w)
    unfolding verify_min_server_version
    verify_min_server_version-Verified c min w plain = elim (Bool-cases (c.conjur_version == "")) [
      | inl unknown ↦
          rw unknown (remembered-Verified c min (server_version server decoding c w) plain)
      | inr set ↦ rw set (
          validated-Verified c c min w (validate_min_version semver c.conjur_version min) refl plain
            refl)
    ]
