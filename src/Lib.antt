-- ===== src/Lib.antt =====
-- The Conjur API client for Go (conjurapi/): it reads a configuration, finds out what kind of server
-- it names, authenticates, keeps an access token and credentials, and builds requests whose answers
-- it reads. A model of its parts over texts, numbers and explicit states.
--
-- Config (conjurapi/config.go): the record Config with the pure operations on it, merging of layers,
-- what the log shows, the timeout. Config/Validate: Validate and applyDefaults; what they ask of the
-- world (environment variables, url.Parse, os.Stat, tls.X509KeyPair, the answers of the server) is
-- the record World. Config/Load: mergeYAML, mergeEnv and LoadConfig over the contents of files. Config/Telemetry: the setters, SetFinalTelemetryHeader and its cache, and the
-- fields that NewClient (conjurapi/client.go) overrides.
-- Credentials (conjurapi/credential_storage_mode.go): the storage mode and where it comes from.
-- Environment (conjurapi/environment.go, conjurapi/info.go): the kinds of server and the guess of one.
-- Storage (conjurapi/storage.go, conjurapi/keychain_namespace.go): which provider stores credentials
-- and under which name. Storage/Keyring (conjurapi/storage/keyring_storage_provider.go): the provider
-- over a keyring, which is an interface of operations (Backend) with laws (BackendLaws) for what
-- github.com/zalando/go-keyring documents; Storage/Keyring/Examples fills it by a map in memory.
-- Ids (conjurapi/requests.go): makeFullID, unopinionatedParseID, parseID and parseIDandEnforceKind.
-- Url (conjurapi/router_url.go, workloadURL of conjurapi/workload_v2.go): router URLs, over path.Join
-- (Url/Path) and the escapes of net/url (Url/Escape), which are written out; url.Parse is a parameter.
-- Requests (conjurapi/requests.go): every builder of a request, which takes the client's
-- configuration, its telemetry header and the check of http.NewRequest from the record Context.
-- Response (conjurapi/response/, and the checks on statuses of conjurapi/resource.go and
-- conjurapi/role.go): how an answer becomes a value or an error. Decoding JSON is a parameter.
-- AuthToken (conjurapi/authn/auth_token.go): access tokens, over a Codec for JSON and base64.
-- Session (conjurapi/authn.go): the token, the authenticator and the storage of a client. Its state is
-- the record Client and the world W, which the storage (Store), the authenticator (Authenticator)
-- and the server (Server) read and change; each operation returns the new world, and `refreshed_client`
-- the client that a failed RefreshToken leaves. Session/Kept has
-- the keyring provider as such a storage.
-- Session/Submit (SubmitRequest of conjurapi/requests.go): the headers that a request is sent with,
-- and the shape of the calls: a request, its answer, and the answer read.
-- Storage/Netrc (conjurapi/storage/netrc_storage_provider.go): the provider over a netrc file, with the
-- file system and github.com/bgentry/go-netrc as parameters (Files, Netrc), whose updates may panic, with
-- the laws of Storage/Netrc/Laws;
-- Storage/Netrc/Examples has a file in memory.
-- Authenticators/TokenFile (conjurapi/authn/token_file_authenticator.go, conjurapi/authn/wait_for_file.go):
-- the authenticator that waits for a file; the file and the timer are sequences of looks and of Booleans.
-- Version (conjurapi/version.go, conjurapi/info.go): the server's version, where it comes from, what the
-- client remembers of it, and the test against a minimum; github.com/Masterminds/semver is a parameter
-- (Semver) with laws (SemverLaws), of which Version/Small is an instance. Version/Page is the regular
-- expression of parseVersionFromHTML, written out.
-- V2 (conjurapi/client_v2.go and requests_v2.go) has the tests in front of the calls of the second
-- version of the API; its modules have the calls: V2/Workloads (conjurapi/workload_v2.go), V2/Branches
-- (branch_v2.go), V2/Groups (group_membership_v2.go), V2/Secrets (secret_static_v2.go and
-- secrets_batch_v2.go), V2/Issuers (issuer_v2.go), V2/Authenticators (authenticators.go). V2/Gates has
-- them as data types of calls with the error that they are refused with, and V2/Gates/Guarded the version
-- that the client knows after the test.
-- Calls: the calls of the first version, Calls/Passwords (conjurapi/authn.go), Calls/Objects (resource.go,
-- role.go), Calls/Variables (variable.go), Calls/Policies (policy.go, host_factory.go), Calls/Issuers (issuer.go, authenticators.go) and
-- Calls/Ldap (ldap_mappings.go). Requests/Json is the JSON that requests are written
-- in, with the values that json.Marshal refuses.
-- Construct (conjurapi/client.go): which constructor NewClientFromEnvironment and
-- newClientFromStoredCredentials call.
-- Common: Go's strings package, results, integers, and the lemmas on texts that the parts share.
--
-- Texts are sequences of characters; Go's are sequences of bytes, which makes no difference to what
-- the program does with valid UTF-8. A pair of a value and an error is a sum, and messages that only
-- the log shows are left out. The lists of a fixed length need three rounds of padding (Ids). The
-- unit of a float32 is found in 64 doublings (AuthToken), enough below 2^88, while a lifespan in
-- nanoseconds is below 2^63 and its product with 0.85 below 2^87; a number of 64 bits has at most
-- twenty decimal digits (Requests). The wait for a
-- token file is modelled for a number of rounds; one that is beyond the first at which the file is there
-- or the timer has fired is enough.
--
-- Not modelled: the other authenticators' own sources of tokens (cloud metadata, files, the AWS signer),
-- the detection of telemetry from the build information, the check of keychain_namespace on YAML nodes,
-- the constructors of the single authenticators, PurgeCredentials of a configuration, writing of .conjurrc,
-- the log, decoding of JSON and YAML, and the HTTP and TLS transports, which are Go's.
pub mod AuthToken
pub mod Authenticators
pub mod Calls
pub mod Common
pub mod Config
pub mod Construct
pub mod Credentials
pub mod Environment
pub mod Ids
pub mod Requests
pub mod Response
pub mod Session
pub mod Storage
pub mod Url
pub mod V2
pub mod Version
