-- ===== src/Storage/Netrc.antt =====
-- The netrc provider (conjurapi/storage/netrc_storage_provider.go) over github.com/bgentry/go-netrc
-- and a file system. `W` is what the file system keeps, `N` a parsed file.
mod Examples
pub mod Kept
pub mod Laws
use Prim.Native.String.{String, [], ◌∷◌, ◌++◌}
use Prim.Native.Char.{code}
use conjur_api_go.Common.{
  Bool, true, false, Option, none, some, List, ◌==◌, eqb, if◌then◌else◌, Result, ok, err, ◌>>=◌,
  ◌≡◌,
}
use conjur_api_go.Common.Text.{is_space, has_char, has_suffix}
use conjur_api_go.AuthToken.{Outcome, done, failed, panics}

-- os.ReadFile and os.WriteFile of one file, with the mode 0600: the contents, os.ErrNotExist or
-- another error; and the error of writing, if there is one.
pub data Contents : Type 0 where
  contents : String → Contents
  not_exist : Contents
  unreadable : String → Contents

pub record Files (W : Type 0) : Type 0 where
  pub read : String → W → Contents
  pub write : String → String → W → Option String × W

pub record Machine : Type 0 where
  pub login : String
  pub password : String
  pub is_default : Bool

-- netrc.Parse, FindMachine, NewMachine, UpdateLogin followed by UpdatePassword, RemoveMachine and
-- MarshalText. The updates may panic, as they do for an entry without a login.
pub record Netrc (N : Type 0) : Type 0 where
  pub parse : String → Result N
  pub find_machine : String → N → Option Machine
  pub new_machine : String → String → String → N → N
  pub update_machine : String → String → String → N → Outcome N
  pub remove_machine : String → N → N
  pub marshal_text : N → Result String

abbrev pub oidc_storage_marker : String
oidc_storage_marker = "[oidc]"

abbrev pub no_such_file : String
no_such_file = "no such file or directory"

-- ensureEndsWithNewline; the last byte of nothing is out of range
unfoldable pub ensure_ends_with_newline : String → Outcome String
ensure_ends_with_newline [] = panics
ensure_ends_with_newline (c ∷ s) =
    if has_suffix (c ∷ s) "\n" then done (c ∷ s) else done ((c ∷ s) ++ "\n")

module _ {W N : Type 0} (files : Files W) (netrc : Netrc N) where
  parsed_contents : Contents → Result N
  parsed_contents (contents text) = netrc.parse text
  parsed_contents not_exist = err no_such_file
  parsed_contents (unreadable e) = err e

  -- netrc.ParseFile
  unfoldable pub parse_file : String → W → Result N
  unfolding parsed_contents
  parse_file path w = parsed_contents (files.read path w)

  -- The machine is new, or is brought up to date.
  unfoldable pub with_machine : String → String → String → Option Machine → N → Outcome N
  with_machine machine login password none nrc = done (netrc.new_machine machine login password nrc)
  with_machine machine login password (some m) nrc =
      if m.is_default
      then done (netrc.new_machine machine login password nrc)
      else netrc.update_machine machine login password nrc

  written : Option String × W → Outcome (Unit {0}) × W
  written (none, w) = (done tt, w)
  written (some e, w) = (failed e, w)

  write_ended : String → Outcome String → W → Outcome (Unit {0}) × W
  unfolding written
  write_ended path (done text) w = written (files.write path text w)
  write_ended path (failed e) w = (failed e, w)
  write_ended path panics w = (panics, w)

  write_marshalled : String → Result String → W → Outcome (Unit {0}) × W
  unfolding write_ended
  write_marshalled path (err e) w = (failed e, w)
  write_marshalled path (ok text) w = write_ended path (ensure_ends_with_newline text) w

  store_file : String → Outcome N → W → Outcome (Unit {0}) × W
  unfolding write_marshalled
  store_file path (done nrc) w = write_marshalled path (netrc.marshal_text nrc) w
  store_file path (failed e) w = (failed e, w)
  store_file path panics w = (panics, w)

  stored : String → String → String → String → Result N → W → Outcome (Unit {0}) × W
  unfolding store_file
  stored path machine login password (err e) w = (failed e, w)
  stored path machine login password (ok nrc) w =
      store_file path (with_machine machine login password (netrc.find_machine machine nrc) nrc) w

  unfoldable pub store_credentials : String → String → String → String → W → Outcome (Unit {0}) × W
  unfolding stored
  store_credentials path machine login password w =
      stored path machine login password (parse_file path w) w

  found_machine : String → Option Machine → Result (String × String)
  found_machine machine none =
      err (".netrc file was read, but credential for machine " ++ machine ++ " was not found.")
  found_machine machine (some m) = ok (m.login, m.password)

  unfoldable pub read_credentials : String → String → W → Result (String × String)
  unfolding found_machine
  read_credentials path machine w = do
    nrc ← parse_file path w
    found_machine machine (netrc.find_machine machine nrc)

  unfoldable pub read_authn_token : String → String → W → Result String
  read_authn_token path machine w = do (_, token) ← read_credentials path machine w; ok token

  unfoldable pub store_authn_token : String → String → String → W → Outcome (Unit {0}) × W
  store_authn_token path machine token w =
      store_credentials path machine oidc_storage_marker token w

  purged : String → Result String → W → Outcome (Unit {0}) × W
  unfolding written
  purged path (err e) w = (failed e, w)
  purged path (ok text) w = written (files.write path text w)

  purge_parsed : String → String → Result N → W → Outcome (Unit {0}) × W
  unfolding purged
  purge_parsed path machine (err e) w = (failed e, w)
  purge_parsed path machine (ok nrc) w =
      purged path (netrc.marshal_text (netrc.remove_machine machine nrc)) w

  purge_contents : String → String → Contents → W → Outcome (Unit {0}) × W
  unfolding purge_parsed
  purge_contents path machine (contents text) w = purge_parsed path machine (netrc.parse text) w
  purge_contents path machine not_exist w = (done tt, w)
  purge_contents path machine (unreadable e) w = (failed e, w)

  unfoldable pub purge_credentials : String → String → W → Outcome (Unit {0}) × W
  unfolding purge_contents
  purge_credentials path machine w = purge_contents path machine (files.read path w) w

  created : String → Contents → W → Outcome (Unit {0}) × W
  unfolding written
  created path (contents text) w = (done tt, w)
  created path not_exist w = written (files.write path "" w)
  created path (unreadable e) w = (failed e, w)

  -- ensureNetrcFileExists, where the file can be looked at exactly if it can be read
  unfoldable pub ensure_netrc_file_exists : String → W → Outcome (Unit {0}) × W
  unfolding created
  ensure_netrc_file_exists path w = created path (files.read path w) w
