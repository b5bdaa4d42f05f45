-- ===== src/Lib.antt =====
-- CertVault: issues certificates over ACME with DNS challenges, keeps them encrypted in a SQLite
-- database, and hands them out over an HTTP interface to administrators, who log in by OIDC, and to
-- scripts, which carry API keys. This library models parts of the Go backend.
--
-- The parts, and the files they are modelled in:
-- * BundleCache (backend/api/bundle.go): the cache of the bundles that a client downloads. `get` is
--   the source's method, with the result of `build` as an argument; `find` is its search loop,
--   `evict` its eviction loop, `store` what follows a miss.
-- * Config (backend/config/config.go, types.go, key_type.go): the configuration. `validate` is
--   `Validate`, whose loops are `validate_zones`, `validate_certificates` and `validate_hooks`;
--   `find_zone` is the search for a domain's zone, on the map that `zone_map` builds. Config.Texts has
--   what it uses of Go's `strings`, on ASCII texts. What it takes from net/url and net/netip, whether
--   an address is a URL and whether the proxies are prefixes, are arguments.
-- * Network (backend/network/client_ip.go): the address of a client behind trusted proxies. `scan` is
--   the loop over X-Forwarded-For, from its end; addresses and their parsing are parameters.
-- * DnsEnvironment (backend/service/mux_provider.go): the environment variables that are set while a
--   DNS provider is made, and put back afterwards.
-- * Database (backend/database/models.go and the repositories' use of GORM): one record type per
--   model and a table per type. An `Exec` is a piece of repository code on a connection: `query`,
--   `write` and `statement` are one statement each, `transaction` puts back the database that it
--   began with when its body fails. Database.Find has the searches of
--   backend/database/repository/helpers.go, Database.Returns the rules for reasoning about a result.
-- * Jobs (backend/database/repository/job_repository.go): the queue of issuance jobs, with `admit_as`
--   for the private method `admit`, and `start`, `claim`, `recover_interrupted` and `finish`.
-- * Certificates (backend/database/repository/certificate_repository.go): the configured certificates
--   and their issued versions. `reconcile` is `Reconcile`, with the loop `reconcile_definitions`;
--   Certificates.Listing has `List` and `Get` with the statements that read for many certificates.
-- * Artifacts (backend/service/certificate_artifacts.go): the stored files; `parse_within` is the loop
--   over PEM blocks, on as much fuel as there are bytes and one more.
-- * Drift (backend/service/configuration_drift.go): whether an issued certificate is as configured.
-- * Vault (backend/vault/vault.go): the encryption of private keys. AES-GCM, made by `new_gcm`, and
--   the random bytes are parameters.
-- * Files (backend/service/manager.go: `save`, `ReadFile`, `atomicWrite`): the files of a version, on
--   a map from paths to contents. `Disk.faults` are the answers of the next system calls. Temporary
--   files are left out of the map: their names are new, and nothing reads them.
-- * Manager (backend/service/manager.go): the issuances, as functions of a `World`, the database, the
--   disk, the channel that wakes the loop, and what was fired and notified. This file has `enqueue` and
--   `reconcile`; Manager.Issuing has `Issue`, as `issue_now`, and `issue`, whose deferred function is
--   `settle`; Manager.Hooks has the choice of hooks and the delivery of one, Manager.Running the rounds
--   of the loops of `Run`: `recover`, `turn` up to the last select, and `receive`. Their order, and
--   what other goroutines do during a round, are not modelled. Manager.Obtaining has `obtain`,
--   with `client`, `provider` and the providers of backend/service/mux_provider.go, over lego's calls.
-- * Accounts (backend/service/acme_account.go and acme_user.go): the stored ACME accounts, `load_user`,
--   `save_user`, `list_accounts` and `delete_account`, on the disk of Files.
-- * Audits (backend/database/repository/audit_repository.go): the audit log, which the mutations of
--   the other repositories write in their own transactions, and its retention.
-- * ApiKeys (backend/database/repository/api_key_repository.go and models.go): the API keys, from
--   their creation to their deletion, `authenticate`, and `allows`, by which a request is authorized.
-- * OidcStates (backend/api/auth/oidc_state_store.go): the pending logins and their rate limits.
-- Prelude has the tests, list lemmas and association lists that they share. The Examples modules run
-- the code on small inputs.
--
-- How the code is modelled:
-- * A time is a number of nanoseconds, which the operations take as an argument where the source
--   calls `time.Now()`. Random texts are arguments too, and SHA-256 is a parameter.
-- * A connection carries the faults of its next statements, so that every statement of the source
--   can fail, a commit included. The `quiet` connection has no faults. A rollback is exact.
-- * GORM leaves a zero field of a struct condition out; the searches by name and by prefix write
--   that out. Rows are kept in the order of their ids, which is the order SQLite gives.
-- * A mutex makes each method one step; a run is a list of such steps, in any order.
-- * What runs in a goroutine of its own, hooks and notifications, is recorded where it is started.
-- * `Moment` and `Surroundings` are what the clock, the disk and the ACME server give to a call. A
--   cancelled context shows in the faults of the statements and at the end of `issue`.
-- * `filepath.Join` of several parts is that of two, repeated; the difference of `time.Until` is not
--   cut off at 292 years.
-- * The texts in JSON columns are the lists that they encode: a failure to decode is left out.
-- * The floating-point tokens of the rate limiter are whole credits, 60000000000 to a token, so that
--   the rates are whole numbers per nanosecond: the rounding of float64 is left out.
-- * All loops are structural recursion but the one over PEM blocks, which recurs on fuel: each block
--   takes at least one byte, so that one more than the number of bytes is enough.
--
-- Not modelled: the HTTP server and the handlers (net/http), the command line, the web interface,
-- the calls of the ACME library and of DNS providers, which are parameters, the certificates that
-- stand in for them in development, the signing of client updates, the sending of notifications,
-- and the searches of the audit log and of the job history.
pub mod Prelude
pub mod BundleCache
pub mod Config
pub mod Network
pub mod DnsEnvironment
pub mod Database
pub mod Jobs
pub mod Certificates
pub mod Artifacts
pub mod Drift
pub mod Vault
pub mod Files
pub mod Audits
pub mod Manager
pub mod Accounts
pub mod OidcStates
pub mod ApiKeys
