-- ===== src/Authenticators/TokenFile.antt =====
-- The authenticator that reads its token from a file (conjurapi/authn/token_file_authenticator.go,
-- conjurapi/authn/wait_for_file.go). The file is looked at in rounds, a tenth of a second apart.
pub mod Waiting
mod Examples
use Prim.Native.String.{String}
use conjur_api_go.Common.{
  ℕ, zero, suc, ◌+◌, Bool, true, false, Option, none, some, not, eqb, if◌then◌else◌, Result, ok,
  err,
}
use conjur_api_go.AuthToken.{Outcome, done, failed, panics}

-- What os.Stat says of the file, and what os.ReadFile gives where it is not missing: the bytes that
-- could be read, and the error, if there is one.
pub data Look : Type 0 where
  missing : Look
  present : String → Option String → Look

abbrev pub timed_out : String
timed_out = "Operation waitForTextFile timed out."

-- The bytes, whatever the error of os.ReadFile: it is assigned to the `err` of the if statement,
-- which hides the one that is returned.
abbrev pub read_bytes : Look → Option (Result String)
read_bytes missing = none
read_bytes (present bytes error) = some (ok bytes)

-- What one round of the loop decides, if anything
unfoldable pub round : Bool → Look → Option (Result String)
round true look = some (err timed_out)
round false look = read_bytes look

or_later : Option (Result String) → Option (Result String) → Option (Result String)
or_later (some r) later = some r
or_later none later = later

-- waitForTextFile from a round on, for a number of rounds: `expired n` says that the timer has fired
-- by round n. Without a result it still waits.
unfoldable pub wait_for_text_file : (ℕ → Bool) → (ℕ → Look) → ℕ → ℕ → Option (Result String)
unfolding round or_later
wait_for_text_file expired look zero n = none
wait_for_text_file expired look (suc rounds) n =
    let later = wait_for_text_file expired look rounds (suc n) in
    or_later (round (expired n) (look n)) later

-- TokenFileAuthenticator, with the time of modification that it has seen; `none` is the zero time.
pub record TokenFileAuthenticator : Type 0 where
  pub token_file : String
  pub m_time : Option ℕ
  pub max_wait_time : Option ℕ

-- A MaxWaitTime of -1, `none` here, is no timeout.
unfoldable pub timer : Option ℕ → (ℕ → ℕ → Bool) → ℕ → Bool
timer none fired n = false
timer (some limit) fired n = fired limit n

-- fi, _ := os.Stat; fi.ModTime() panics where there is no file.
seen : TokenFileAuthenticator → String → Option ℕ → Outcome (TokenFileAuthenticator × String)
seen a bytes none = panics
seen a bytes (some t) = done (record a { m_time = some t }, bytes)

refreshed :
    TokenFileAuthenticator
    → Option (Result String)
    → Option ℕ
    → Option (Outcome (TokenFileAuthenticator × String))
unfolding seen
refreshed a none modified = none
refreshed a (some (err e)) modified = some (failed e)
refreshed a (some (ok bytes)) modified = some (seen a bytes modified)

-- RefreshToken, with the modification time that os.Stat gives after the file was read
unfoldable pub refresh_token :
    (ℕ → ℕ → Bool)
    → (ℕ → Look)
    → ℕ
    → Option ℕ
    → TokenFileAuthenticator
    → Option (Outcome (TokenFileAuthenticator × String))
unfolding refreshed timer
refresh_token fired look rounds modified a =
    refreshed a (wait_for_text_file (timer a.max_wait_time fired) look rounds 0) modified

same_time : Option ℕ → ℕ → Bool
same_time none t = false
same_time (some s) t = eqb s t

-- NeedsTokenRefresh, with the time that os.Stat gives now
unfoldable pub needs_token_refresh : Option ℕ → TokenFileAuthenticator → Outcome Bool
unfolding same_time
needs_token_refresh none a = panics
needs_token_refresh (some t) a = done (not (same_time a.m_time t))
