-- ===== src/Storage/Netrc/Laws.antt =====
-- What the netrc provider (conjurapi/storage/netrc_storage_provider.go) relies on: the file system and
-- github.com/bgentry/go-netrc, as far as one machine is concerned.
use Prim.Native.String.{String}
use conjur_api_go.Common.{false, none, some, ok, ◌≡◌, ◌≢◌}
use conjur_api_go.Common.Text.{has_char}
use conjur_api_go.AuthToken.{done}
use conjur_api_go.Storage.Netrc.{contents, Files, Machine, Netrc, ensure_ends_with_newline}

-- A text that is one token of a file: it is not empty and holds no blank, line end or "#".
abbrev pub IsToken : String → Type 0
IsToken s =
    (s ≢ "")
    × (has_char b' ' s ≡ false)
    × (has_char 9 s ≡ false)
    × (has_char 10 s ≡ false)
    × (has_char 13 s ≡ false)
    × (has_char b'#' s ≡ false)

-- A file that was written is read back.
pub record FilesLaws {W : Type 0} (files : Files W) : Type 0 where
  pub read-write :
      (path text : String) (w : W)
      → (files.write path text w).0 ≡ none
      → files.read path (files.write path text w).1 ≡ contents text

-- What the package does for one machine: NewMachine, and the updates where they return, leave it
-- with the given login and password; and what is written, with or without a further line end, is
-- read again as it was. Whether the updates return is left open. `Fit` is what the package keeps of
-- a file: whatever it has parsed or set to tokens.
pub record NetrcLaws {N : Type 0} (netrc : Netrc N) (machine : String) : Type 1 where
  pub Fit : N → Type 0
  pub fit-parse : (text : String) (nrc : N) → netrc.parse text ≡ ok nrc → Fit nrc
  pub new-fit :
      (login password : String) (nrc : N)
      → IsToken login
      → IsToken password
      → Fit nrc
      → Fit (netrc.new_machine machine login password nrc)
  pub update-fit :
      (login password : String) (nrc updated : N)
      → IsToken login
      → IsToken password
      → Fit nrc
      → netrc.update_machine machine login password nrc ≡ done updated
      → Fit updated
  pub find-new :
      (login password : String) (nrc : N)
      → netrc.find_machine machine (netrc.new_machine machine login password nrc)
        ≡ some (record { login = login; password = password; is_default = false })
  pub find-update :
      (login password : String) (nrc updated : N) (m : Machine)
      → netrc.find_machine machine nrc ≡ some m
      → m.is_default ≡ false
      → netrc.update_machine machine login password nrc ≡ done updated
      → netrc.find_machine machine updated
        ≡ some (record { login = login; password = password; is_default = false })
  pub parse-marshal :
      (nrc : N) (text ended : String)
      → Fit nrc
      → netrc.marshal_text nrc ≡ ok text
      → ensure_ends_with_newline text ≡ done ended
      → (again : N) × (netrc.parse ended ≡ ok again)
        × (netrc.find_machine machine again ≡ netrc.find_machine machine nrc)
