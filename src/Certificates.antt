-- ===== src/Certificates.antt =====
-- backend/database/repository/certificate_repository.go: the certificates of the configuration in
-- the database, and the versions that have been issued. `clock i` is what the i-th `time.Now()` of
-- a call gives. The bulk reads of `List` are in Certificates.Listing.
pub mod Listing
pub mod Reconciled
pub mod Latest
pub mod Bulk
pub mod Reads
pub mod Agreement
mod Examples
use cert_vault.Prelude.{
  ℕ, suc, String, ℤ, is_zero, quotient, Bool, true, false, not, ◌&&◌, ◌||◌, Option, none, some,
  List, [], ◌∷◌, map, any, ltb, eqb, ◌==◌, if◌then◌else◌, contains, length, select,
}
use cert_vault.Prelude.Outcome.{Outcome, ok, err}
use cert_vault.Database.{
  Time, second, Database, CertificateRow, VersionRow, Error, not_found, Connection,
}
use cert_vault.Database.Exec.{Exec, pure, statement, query, write, transaction, ◌>>=◌, ◌>>◌}
use cert_vault.Database.Rows.{update, insert, next_id, on_rows, or_not_found}
use cert_vault.Database.Find.{by_id, find_enabled_certificate, certificate_name}
use cert_vault.Database.Top.{top}
use cert_vault.Config.{Certificate as Definition, or_else, default_key_type, default_renew_before}
use cert_vault.Jobs.{Job, update_where_id}

-- `Version` of backend/database/repository/models.go
pub record Version : Type 0 where
  pub key_type : String
  pub id : ℕ
  pub certificate_name : String
  pub path : String
  pub serial : String
  pub issuer : String
  pub fingerprint_sha256 : String
  pub not_before : Time
  pub not_after : Time
  pub created_at : Time
  pub domains : List String

-- `Certificate` of backend/database/repository/models.go
pub record Certificate : Type 0 where
  pub name : String
  pub domains : List String
  pub key_type : String
  pub status : String
  pub renew_before_seconds : ℤ
  pub current_version : Option Version
  pub last_error : String
  pub latest_job : Option Job

-- the columns that `Reconcile` assigns to a row that is there
unfoldable pub described : Time → Definition → CertificateRow → CertificateRow
described now d row = record row {
  domains = d.domains;
  key_type = if d.key_type == "" then default_key_type else d.key_type;
  renew_before_seconds =
      quotient (if is_zero d.renew_before then default_renew_before else d.renew_before) second;
  enabled = or_else true d.enabled;
  updated_at = now;
}

-- the row of a new certificate; the columns that `values` lacks have their defaults
unfoldable pub new_certificate : ℕ → Time → Definition → CertificateRow
unfolding described
new_certificate id now d = described now d (record {
  id = id;
  name = d.name;
  domains = [];
  key_type = "";
  renew_before_seconds = default_renew_before;
  enabled = true;
  status = "pending";
  last_error = "";
  updated_at = now;
})

unfoldable pub named : String → CertificateRow → Bool
named name row = row.name == name

-- INSERT ... ON CONFLICT (name) DO UPDATE. The id counter goes up on a conflict too.
unfoldable pub upsert : Time → Definition → Database → Database
unfolding named described new_certificate
upsert now d db = record db {
  certificates =
      if any (named d.name) db.certificates.rows
      then record {
        rows = update (named d.name) (described now d) db.certificates.rows;
        seq = next_id db.certificates;
      }
      else insert (new_certificate (next_id db.certificates) now d) db.certificates;
}

-- the loop over the configuration
unfoldable pub reconcile_definitions : (ℕ → Time) → List Definition → Exec (Unit {0})
reconcile_definitions clock [] = pure tt
reconcile_definitions clock (d ∷ definitions) =
    write (upsert (clock 0) d) >> reconcile_definitions (λ i. clock (suc i)) definitions

-- enabled = true AND name NOT IN ?; without names the second condition is not made
unfoldable pub absent : List String → CertificateRow → Bool
absent names row = row.enabled && not (contains names row.name)

unfoldable pub as_disabled : Time → CertificateRow → CertificateRow
as_disabled now row = record row { enabled = false; updated_at = now }

unfoldable pub disable_absent : Time → List String → Database → Database
unfolding absent as_disabled
disable_absent now names db = record db {
  certificates = on_rows (update (absent names) (as_disabled now)) db.certificates;
}

abbrev pub names_of : List Definition → List String
names_of definitions = map (λ (d : Definition). d.name) definitions

unfoldable pub reconcile_body : (ℕ → Time) → List Definition → Exec (Unit {0})
reconcile_body clock definitions =
    reconcile_definitions clock definitions
    >> write (disable_absent (clock (length definitions)) (names_of definitions))

unfoldable pub reconcile : (ℕ → Time) → List Definition → Exec (Unit {0})
reconcile clock definitions = transaction (reconcile_body clock definitions)

unfoldable pub version_from_model : String → VersionRow → Version
version_from_model name row = record {
  key_type = row.key_type;
  id = row.id;
  certificate_name = name;
  path = row.path;
  serial = row.serial;
  issuer = row.issuer;
  fingerprint_sha256 = row.fingerprint_sha256;
  not_before = row.not_before;
  not_after = row.not_after;
  created_at = row.created_at;
  domains = row.domains;
}

-- A struct condition with a zero id holds of every row.
unfoldable pub version_of : ℕ → VersionRow → Bool
version_of certificate row = eqb certificate 0 || eqb row.certificate_id certificate

-- does the second row come first by `created_at DESC, id DESC`?
unfoldable pub later : VersionRow → VersionRow → Bool
later a b = ltb a.created_at b.created_at || (eqb a.created_at b.created_at && ltb a.id b.id)

-- ORDER BY created_at DESC, id DESC LIMIT 1
abbrev pub latest : (VersionRow → Bool) → List VersionRow → Option VersionRow
latest p rows = top later p rows

-- with `Preload("Certificate")`
unfoldable pub preload_version : VersionRow → Exec Version
preload_version row = do
  name ← query (λ db. ok (certificate_name db row.certificate_id))
  pure (version_from_model name row)

-- the private method `currentVersion`
unfoldable pub current_version_of : ℕ → Exec Version
unfolding preload_version
current_version_of certificate = do
  row ← query (λ db. or_not_found (latest (version_of certificate) db.versions.rows))
  preload_version row

-- `CurrentVersion`
unfoldable pub current_version : String → Exec Version
unfolding current_version_of
current_version name = do
  certificate ← find_enabled_certificate name
  current_version_of certificate.id

unfoldable pub insert_by_time : VersionRow → List VersionRow → List VersionRow
insert_by_time a [] = a ∷ []
insert_by_time a (b ∷ rows) =
    let below = insert_by_time a rows in
    if ltb a.created_at b.created_at then b ∷ below else a ∷ b ∷ rows

-- ORDER BY created_at DESC; the index gives rows of one time by ascending id
unfoldable pub by_time : List VersionRow → List VersionRow
unfolding insert_by_time
by_time [] = []
by_time (a ∷ rows) = insert_by_time a (by_time rows)

-- `Preload("Certificate")`: a statement of its own, unless there are no rows
unfoldable pub preload_versions : List VersionRow → Exec (List Version)
preload_versions [] = pure []
preload_versions (row ∷ rows) =
    query (λ db.
      ok (map (λ r. version_from_model (certificate_name db r.certificate_id) r) (row ∷ rows)))

-- `Versions`
unfoldable pub versions : String → Exec (List Version)
unfolding by_time preload_versions
versions name = do
  certificate ← find_enabled_certificate name
  rows ← query (λ db. ok (by_time (select (version_of certificate.id) db.versions.rows)))
  preload_versions rows

unfoldable pub new_version : ℕ → ℕ → Version → VersionRow
new_version id certificate v = record {
  id = id;
  certificate_id = certificate;
  key_type = v.key_type;
  path = v.path;
  domains = v.domains;
  serial = v.serial;
  issuer = v.issuer;
  fingerprint_sha256 = v.fingerprint_sha256;
  not_before = v.not_before;
  not_after = v.not_after;
  created_at = v.created_at;
}

unfoldable pub as_valid : Time → CertificateRow → CertificateRow
as_valid now row = record row { status = "valid"; last_error = ""; updated_at = now }

unfoldable pub create_version : ℕ → Version → Database → Database
unfolding new_version
create_version certificate v db = record db {
  versions = insert (new_version (next_id db.versions) certificate v) db.versions;
}

unfoldable pub mark_valid : ℕ → Time → Database → Database
unfolding as_valid
mark_valid certificate now db = record db {
  certificates = on_rows (update (by_id certificate) (as_valid now)) db.certificates;
}

unfoldable pub add_version_body : Version → Time → Exec (Unit {0})
unfolding create_version mark_valid
add_version_body v now = do
  certificate ← find_enabled_certificate v.certificate_name
  write (create_version certificate.id v)
  update_where_id certificate.id (mark_valid certificate.id now)

-- `AddVersion`
unfoldable pub add_version : Version → Time → Exec (Unit {0})
add_version v now = transaction (add_version_body v now)
