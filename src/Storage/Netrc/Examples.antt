-- ===== src/Storage/Netrc/Examples.antt =====
-- A netrc file in memory with one machine, a line with its login and its password, for the netrc
-- provider (conjurapi/storage/netrc_storage_provider.go), and what the provider does on it.
use Prim.Native.Char.{Char}
use Prim.Native.String.{String, [], ◌∷◌, ◌++◌}
use conjur_api_go.Common.{
  ◌==◌, false, Option, none, some, ◌||◌, if◌then◌else◌, Result, ok, err, ◌≡◌, refl,
}
use conjur_api_go.Common.Text.{has_char, cut}
use conjur_api_go.AuthToken.{Outcome, done, panics}
use conjur_api_go.Storage.Netrc.{
  Contents, contents, not_exist, Files, Machine, Netrc, purge_credentials, ensure_netrc_file_exists,
}

abbrev memory_files : Files Contents
memory_files = record { read = λ path w. w; write = λ path text w. (none, contents text) }

abbrev Line : Type 0
Line = Option (String × String)

abbrev space : Char
space = " "

abbrev newline : Char
newline = "\n"

abbrev line_text : String → String → String
line_text login password = login ++ (space ∷ (password ++ (newline ∷ [])))

abbrev checked : String → Option (String × String) → Result Line
checked login none = err "bad line"
checked login (some (password, rest)) =
    if has_char b' ' login || has_char 10 password
    then err "bad line"
    else ok (some (login, password))

abbrev split_line : Option (String × String) → Result Line
split_line none = err "bad line"
split_line (some (login, rest)) = checked login (cut 10 rest)

parse_line : String → Result Line
parse_line [] = ok none
parse_line (c ∷ s) = split_line (cut b' ' (c ∷ s))

abbrev marshal_line : Line → Result String
marshal_line none = ok ""
marshal_line (some (login, password)) = ok (line_text login password)

abbrev machine_of : Line → Option Machine
machine_of none = none
machine_of (some (login, password)) =
    some (record { login = login; password = password; is_default = false })

-- Without a login in the line, there is no token to update.
abbrev updated : String → String → Line → Outcome Line
updated login password none = panics
updated login password (some (old_login, old_password)) =
    if old_login == "" then panics else done (some (login, password))

abbrev line_netrc : Netrc Line
line_netrc = record {
  parse = λ text. parse_line text;
  find_machine = λ machine line. machine_of line;
  new_machine = λ machine login password line. some (login, password);
  update_machine = λ machine login password line. updated login password line;
  remove_machine = λ machine line. none;
  marshal_text = λ line. marshal_line line;
}

abbrev IsLine : Line → Type 0
IsLine none = Unit
IsLine (some (login, password)) = (has_char b' ' login ≡ false) × (has_char 10 password ≡ false)

abbrev netrc_path : String
netrc_path = "/home/alice/.netrc"

abbrev netrc_machine : String
netrc_machine = "https://conjur/authn"

-- The file already holds the machine, with another login.
abbrev bob_file : Contents
bob_file = contents "bob secret\n"

-- Without a file there is nothing to purge, and with one the machine goes.
purge_tests :
    (purge_credentials memory_files line_netrc netrc_path netrc_machine not_exist
      ≡ (done tt, not_exist))
    × ((purge_credentials memory_files line_netrc netrc_path netrc_machine (contents "a b\n")).1
        ≡ contents "")
    × ((ensure_netrc_file_exists memory_files line_netrc netrc_path not_exist).1 ≡ contents "")
unfolding purge_credentials ensure_netrc_file_exists parse_line cut has_char
purge_tests = (refl, refl, refl)
