-- ===== src/Storage/Netrc/Kept.antt =====
-- What the netrc provider keeps (conjurapi/storage/netrc_storage_provider.go), over the laws of
-- Storage/Netrc/Laws.
use Prim.Native.String.{String}
use conjur_api_go.Common.{false, some, ok, ◌≡◌}
use conjur_api_go.AuthToken.{Outcome, done, failed, panics}
use conjur_api_go.Storage.Netrc.{Files, Machine, Netrc, read_credentials}
use conjur_api_go.Storage.Netrc.Laws.{FilesLaws, NetrcLaws}

module _ {W N : Type 0} (files : Files W) (files_laws : FilesLaws files) (netrc : Netrc N)
    (machine : String) (laws : NetrcLaws netrc machine) (path : String) where
  -- What reading gives once the credentials are stored.
  abbrev Holds : String → String → W → Type 0
  Holds login password w = read_credentials files netrc path machine w ≡ ok (login, password)

  abbrev set_to : String → String → Machine
  set_to login password = record { login = login; password = password; is_default = false }

  -- A file that the machine is set in, if it is set at all
  abbrev HoldsFor : String → String → Outcome N → Type 0
  HoldsFor login password (done nrc) =
      laws.Fit nrc × (netrc.find_machine machine nrc ≡ some (set_to login password))
  HoldsFor login password (failed e) = Unit
  HoldsFor login password panics = Unit
