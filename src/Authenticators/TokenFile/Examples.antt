-- ===== src/Authenticators/TokenFile/Examples.antt =====
-- Waiting for a token file (conjurapi/authn/token_file_authenticator.go), at concrete inputs.
use Prim.Native.String.{String}
use conjur_api_go.Common.{
  ℕ, ◌≤◌, Bool, true, false, none, some, leb, if◌then◌else◌, Result, ◌≡◌, refl, arith,
}
use conjur_api_go.AuthToken.{done, failed}
use conjur_api_go.Authenticators.TokenFile.{
  Look, missing, present, TokenFileAuthenticator, wait_for_text_file, refresh_token,
  needs_token_refresh, timed_out,
}
use conjur_api_go.Authenticators.TokenFile.Waiting.{Decides, IsIdle, wait_for_text_file-Decides}

-- The file appears in the fourth round.
abbrev appearing : ℕ → Look
appearing n = if leb 3 n then present "token" none else missing

abbrev never : ℕ → Bool
never n = false

there_by_five : ¬ IsIdle (never 5) (appearing 5)
there_by_five (late, absent) = ground (arith, absent)

wait_for_text_file-Decides_example :
    (at : ℕ) × (r : Result String) × (wait_for_text_file never appearing 9 0 ≡ some r)
    × Decides never appearing 0 at r
    × (at ≤ 5)
wait_for_text_file-Decides_example =
    wait_for_text_file-Decides never appearing 9 0 5 there_by_five (omega arith) (omega arith)

abbrev example_authenticator : TokenFileAuthenticator
example_authenticator = record { token_file = "token"; m_time = none; max_wait_time = some 2 }

-- The timer fires in the third round, before the file is there; without it the token is read, and
-- it is to be read again once the file has another time of modification.
token_file_tests :
    (refresh_token (λ limit n. leb limit n) appearing 9 (some 7) example_authenticator
      ≡ some (failed timed_out))
    × (refresh_token
          (λ limit n. leb limit n)
          appearing
          9
          (some 7)
          (record example_authenticator { max_wait_time = none })
        ≡ some (
            done (record example_authenticator { m_time = some 7; max_wait_time = none }, "token")))
    × (needs_token_refresh (some 8) (record example_authenticator { m_time = some 7 }) ≡ done true)
unfolding refresh_token needs_token_refresh wait_for_text_file
token_file_tests = (refl, refl, refl)
