-- ===== src/Storage/Keyring.antt =====
-- The keyring provider (conjurapi/storage/keyring_storage_provider.go) over an operating system's
-- keyring, which github.com/zalando/go-keyring reads and writes. `W` is what the keyring keeps.
pub mod Examples
pub mod Kept
use Prim.Native.String.{String}
use conjur_api_go.Common.{
  Bool, true, false, ◌==◌, ◌≡◌, ◌≢◌, List, [], ◌∷◌, Result, ok, err, ◌⊎◌, if◌then◌else◌, ◌>>=◌,
}

-- The outcome of keyring.Get: the value, ErrNotFound, or another error.
pub data Entry : Type 0 where
  found : String → Entry
  not_found failed : Entry

-- keyring.Get, keyring.Set and keyring.Delete by service and key: the flag is the success.
pub record Backend (W : Type 0) : Type 0 where
  pub get : String → String → W → Entry
  pub set : String → String → String → W → Bool × W
  pub delete : String → String → W → Bool × W

-- What the package documents: a value that was set is got back, one that was deleted is not found,
-- an unsuccessful deletion changes nothing, and other keys and services are left alone.
pub record BackendLaws {W : Type 0} (b : Backend W) : Type 0 where
  pub get-set :
      (service key value : String) (w : W)
      → (b.set service key value w).0 ≡ true
      → b.get service key (b.set service key value w).1 ≡ found value
  pub get-set_other :
      (service key value other_service other : String) (w : W)
      → (service ≢ other_service) ⊎ (key ≢ other)
      → b.get other_service other (b.set service key value w).1 ≡ b.get other_service other w
  pub get-delete :
      (service key : String) (w : W)
      → (b.delete service key w).0 ≡ true
      → b.get service key (b.delete service key w).1 ≡ not_found
  pub get-delete_failed :
      (service key : String) (w : W)
      → (b.delete service key w).0 ≡ false
      → b.get service key (b.delete service key w).1 ≡ b.get service key w
  pub get-delete_other :
      (service key other_service other : String) (w : W)
      → (service ≢ other_service) ⊎ (key ≢ other)
      → b.get other_service other (b.delete service key w).1 ≡ b.get other_service other w

abbrev pub err_writing_credentials : String
err_writing_credentials = "unable to write credentials to keyring"

abbrev pub err_reading_credentials : String
err_reading_credentials = "unable to read credentials from keyring"

-- The value of an entry; a missing one reads as the empty text.
unfoldable pub read_entry : Entry → Result String
read_entry (found value) = ok value
read_entry not_found = ok ""
read_entry failed = err err_reading_credentials

abbrev is_not_found : Entry → Bool
is_not_found not_found = true
is_not_found _ = false

module _ {W : Type 0} (b : Backend W) where
  -- IsKeyringAvailable
  unfoldable pub is_keyring_available : W → Bool
  is_keyring_available w = is_not_found (b.get "test" "test" w)

  unfoldable pub store_credentials : String → String → String → W → Result (Unit {0}) × W
  store_credentials machine login password w =
      let (done, w1) = b.set machine "login" login w in
      let (done2, w2) = b.set machine "password" password w1 in
      if done
      then (if done2 then ok tt else err err_writing_credentials, w2)
      else (err err_writing_credentials, w1)

  unfoldable pub read_credentials : String → W → Result (String × String)
  unfolding read_entry
  read_credentials machine w = do
    login ← read_entry (b.get machine "login" w)
    password ← read_entry (b.get machine "password" w)
    ok (login, password)

  unfoldable pub read_authn_token : String → W → Result String
  unfolding read_entry
  read_authn_token machine w = read_entry (b.get machine "authn_token" w)

  unfoldable pub store_authn_token : String → String → W → Result (Unit {0}) × W
  store_authn_token machine token w =
      let (done, w') = b.set machine "authn_token" token w in
      (if done then ok tt else err err_writing_credentials, w')

  -- The loop of PurgeCredentials: an error is logged, and the next key is deleted.
  unfoldable pub delete_all : String → List String → W → W
  delete_all machine [] w = w
  delete_all machine (key ∷ keys) w = delete_all machine keys (b.delete machine key w).1

  unfoldable pub purge_credentials : String → W → Result (Unit {0}) × W
  unfolding delete_all
  purge_credentials machine w =
      (ok tt, delete_all machine ("login" ∷ "password" ∷ "authn_token" ∷ []) w)
