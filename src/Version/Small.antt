-- ===== src/Version/Small.antt =====
-- Versions of three numbers, such as "1.23.0" and "1.24.1-7", as an instance of what
-- conjurapi/version.go takes from semver, and a server whose version is "1.24.1-7".
use Prim.Native.String.{String, ◌++◌}
use conjur_api_go.Common.{
  ap, sym, ℤ, pos, Bool, true, Option, none, some, List, [], ◌∷◌, ltb, eqb, ◌&&◌, ◌||◌, not, ◌==◌,
  if◌then◌else◌, Result, ok, err, ◌≡◌, ◌↔◌, refl, arith, eq_iff,
}
use conjur_api_go.Common.Text.{split_n, cut}
use conjur_api_go.Config.Load.{atoi}
use conjur_api_go.Requests.{itoa}
use conjur_api_go.Version.{Semver, Decoding}
use conjur_api_go.Version.Verified.{Numbers, Before, SemverLaws, IsPlain}

abbrev pub SmallVersion : Type 0
SmallVersion = Numbers × String

abbrev three : Option ℤ → Option ℤ → Option ℤ → String → Result SmallVersion
three (some (pos a)) (some (pos b)) (some (pos c)) suffix = ok ((a, b, c), suffix)
three _ _ _ suffix = err "Invalid Semantic Version"

abbrev numbered : List String → String → Result SmallVersion
numbered (a ∷ b ∷ c ∷ []) suffix = three (atoi a) (atoi b) (atoi c) suffix
numbered _ suffix = err "Invalid Semantic Version"

abbrev suffixed : List String → Result SmallVersion
suffixed (core ∷ []) = numbered (split_n core b'.' 3) ""
suffixed (core ∷ suffix ∷ []) = numbered (split_n core b'.' 3) suffix
suffixed _ = err "Invalid Semantic Version"

abbrev pub numbers_before : Numbers → Numbers → Bool
numbers_before (a, b, c) (d, e, f) = ltb a d || (eqb a d && (ltb b e || (eqb b e && ltb c f)))

abbrev pub same_numbers : Numbers → Numbers → Bool
same_numbers (a, b, c) (d, e, f) = eqb a d && eqb b e && eqb c f

abbrev shown : SmallVersion → String
shown ((a, b, c), suffix) =
    itoa (pos a)
    ++ "."
    ++ itoa (pos b)
    ++ "."
    ++ itoa (pos c)
    ++ (if suffix == "" then "" else "-" ++ suffix)

abbrev pub small_semver : Semver SmallVersion
small_semver = record {
  new_version = λ s. suffixed (split_n s b'-' 2);
  set_prerelease = λ p v. (v.0, p);
  less_than =
      λ v w. numbers_before v.0 w.0 || (same_numbers v.0 w.0 && not (v.1 == "") && w.1 == "");
  string = shown;
}

abbrev pub small_decoding : Decoding
small_decoding = record {
  services = λ body. ok (("possum", "1.24.1-7") ∷ []);
  version_field = λ body. ok none;
}

pub numbers_before_iff : (v w : Numbers) → (numbers_before v w ≡ true) ↔ Before v w
numbers_before_iff (a, b, c) (d, e, f) = ((λ h. ground (arith, h)), λ h. ground (arith, h))

pub no_suffix :
    (before same last : Bool) (suffix : String)
    → suffix ≡ ""
    → (before || (same && not (suffix == "") && last)) ≡ before
no_suffix before same last suffix e = ground (arith, eq_iff suffix "", e)

pub empty-IsNone : (v : SmallVersion) → ¬ (small_semver.new_version "" ≡ ok v)
unfolding split_n cut
empty-IsNone v e = cc

abbrev pub small_laws : SemverLaws small_semver
small_laws = record {
  numbers = λ v. v.0;
  prerelease = λ v. v.1;
  not_empty = empty-IsNone;
  prerelease-set = λ p v. refl;
  numbers-set = λ p v. refl;
  less_than_iff = λ v w plain_v plain_w.
      rw (no_suffix (numbers_before v.0 w.0) (same_numbers v.0 w.0) (w.1 == "") v.1 plain_v)
        (numbers_before_iff v.0 w.0);
}

pub IsPlain-minimum : IsPlain small_semver small_laws "1.23.0"
unfolding split_n cut atoi
IsPlain-minimum m e = ap (λ (r : Result SmallVersion). elim r [ ok v ↦ v.1 | err _ ↦ "" ]) (sym e)
