-- ===== src/Storage/Keyring/Examples.antt =====
-- A keyring in memory for the keyring provider (conjurapi/storage/keyring_storage_provider.go), and
-- what the provider does on it.
use Prim.Native.String.{String}
use conjur_api_go.Common.{
  true, false, ◌==◌, eq_iff, eq_refl, ◌&&◌, ◌≡◌, ◌≢◌, refl, ap, Option, none, some, [], ◌∷◌, All,
  ok, ◌⊎◌, inl, inr, if◌then◌else◌, arith,
}
use conjur_api_go.Storage.Keyring.{
  Entry, found, not_found, Backend, BackendLaws, store_credentials, read_credentials,
  read_authn_token, store_authn_token, purge_credentials, is_keyring_available,
}
use conjur_api_go.Storage.Keyring.Kept.{
  read-store_credentials, read-purge_credentials, other_machine-kept,
}

abbrev pub Memory : Type 0
Memory = String → String → Option String

abbrev entry : Option String → Entry
entry none = not_found
entry (some value) = found value

abbrev put : String → String → Option String → Memory → Memory
put service key value m = λ s k. if s == service && k == key then value else m s k

abbrev pub memory_backend : Backend Memory
memory_backend = record {
  get = λ service key m. entry (m service key);
  set = λ service key value m. (true, put service key (some value) m);
  delete = λ service key m. (true, put service key none m);
}

put_same :
    (service key : String) (value : Option String) (m : Memory)
    → put service key value m service key ≡ value
put_same service key value m = rw (eq_refl service, eq_refl key) refl

put_other :
    (service key other_service other : String) (value : Option String) (m : Memory)
    → (service ≢ other_service) ⊎ (key ≢ other)
    → put service key value m other_service other ≡ m other_service other
put_other service key other_service other value m (inl h) =
    ground (arith, eq_iff other_service service)
put_other service key other_service other value m (inr h) = ground (arith, eq_iff other key)

pub memory_laws : BackendLaws memory_backend
memory_laws = record {
  get-set = λ service key value m done. ap entry (put_same service key (some value) m);
  get-set_other = λ service key value other_service other m h.
      ap entry (put_other service key other_service other (some value) m h);
  get-delete = λ service key m done. ap entry (put_same service key none m);
  get-delete_failed = λ service key m not_done. absurd (ground (arith, not_done));
  get-delete_other = λ service key other_service other m h.
      ap entry (put_other service key other_service other none m h);
}

abbrev pub empty_memory : Memory
empty_memory service key = none

abbrev pub example_machine : String
example_machine = "https://conjur/authn"

read-store_credentials_example :
    read_credentials memory_backend example_machine
      (store_credentials memory_backend example_machine "alice" "secret" empty_memory).1
    ≡ ok ("alice", "secret")
read-store_credentials_example =
    read-store_credentials memory_backend memory_laws example_machine "alice" "secret" empty_memory
      (unfold store_credentials in refl)

never_fails :
    (key : String) (v : Memory)
    → (memory_backend.delete example_machine key v).0 ≡ false
    → memory_backend.get example_machine key v ≡ not_found
never_fails key v not_done = absurd (ground (arith, not_done))

read-purge_credentials_example :
    ((purge_credentials memory_backend example_machine empty_memory).0 ≡ ok tt)
    × (read_credentials memory_backend example_machine
          (purge_credentials memory_backend example_machine empty_memory).1
        ≡ ok ("", ""))
    × (read_authn_token memory_backend example_machine
          (purge_credentials memory_backend example_machine empty_memory).1
        ≡ ok "")
read-purge_credentials_example =
    read-purge_credentials memory_backend memory_laws example_machine empty_memory never_fails

different_machines : ◌≢◌ {A = String} example_machine "https://other/authn"
different_machines e = absurd (ground (arith, eq_iff example_machine "https://other/authn", e))

other_machine-kept_example :
    All
      (λ v.
        (read_credentials memory_backend "https://other/authn" v
          ≡ read_credentials memory_backend "https://other/authn" empty_memory)
        × (read_authn_token memory_backend "https://other/authn" v
            ≡ read_authn_token memory_backend "https://other/authn" empty_memory))
      ((store_credentials memory_backend example_machine "alice" "secret" empty_memory).1
        ∷ (store_authn_token memory_backend example_machine "token" empty_memory).1
        ∷ (purge_credentials memory_backend example_machine empty_memory).1
        ∷ [])
other_machine-kept_example =
    other_machine-kept memory_backend memory_laws example_machine "https://other/authn" "alice"
      "secret" "token" empty_memory different_machines

availability_test : is_keyring_available memory_backend empty_memory ≡ true
unfolding is_keyring_available
availability_test = refl
