-- ===== src/Database.antt =====
-- backend/database/models.go and the way in which the repositories use it. A table is the list of
-- its rows by ascending id, beside SQLite's AUTOINCREMENT counter. A SQL statement is a function of
-- the tables, which may fail instead: `Connection.faults` says, statement by statement, what the
-- driver answers. Times are numbers of nanoseconds.
pub mod Exec
pub mod Rows
pub mod Returns
pub mod Find
pub mod Keys
pub mod Top
pub mod ReadOnly
use cert_vault.Prelude.{ℤ, ℕ, ◌+◌, String, Bool, true, false, Option, none, some, List, []}

abbrev pub Time : Type 0
Time = ℕ

abbrev pub second : ℕ
second = 1000000000

abbrev pub minute : ℕ
minute = 60000000000

-- `Certificate`; the JSON text of `Domains` is read as the list that it encodes
pub record CertificateRow : Type 0 where
  pub id : ℕ
  pub name : String
  pub domains : List String
  pub key_type : String
  pub renew_before_seconds : ℤ
  pub enabled : Bool
  pub status : String
  pub last_error : String
  pub updated_at : Time

-- `CertificateVersion`
pub record VersionRow : Type 0 where
  pub id : ℕ
  pub certificate_id : ℕ
  pub key_type : String
  pub path : String
  pub domains : List String
  pub serial : String
  pub issuer : String
  pub fingerprint_sha256 : String
  pub not_before : Time
  pub not_after : Time
  pub created_at : Time

-- the four texts that the code writes into `Status`
pub data JobStatus : Type 0 where
  queued running succeeded failed : JobStatus

abbrev pub status_text : JobStatus → String
status_text queued = "queued"
status_text running = "running"
status_text succeeded = "succeeded"
status_text failed = "failed"

-- `Job`
pub record JobRow : Type 0 where
  pub id : ℕ
  pub certificate_id : ℕ
  pub kind : String
  pub status : JobStatus
  pub error : String
  pub started_at : Time
  pub finished_at : Option Time

-- `APIKey`
pub record ApiKeyRow : Type 0 where
  pub id : ℕ
  pub name : String
  pub prefix : String
  pub secret_hash : String
  pub scopes : List String
  pub all_certificates : Bool
  pub created_at : Time
  pub last_used_at : Option Time
  pub last_used_ip : String
  pub expires_at : Option Time
  pub revoked : Bool

-- `APIKeyCertificate`
pub record AccessRow : Type 0 where
  pub api_key_id : ℕ
  pub certificate_id : ℕ

-- `AuditEvent`
pub record AuditRow : Type 0 where
  pub id : ℕ
  pub at : Time
  pub actor : String
  pub action : String
  pub resource : String
  pub detail : String
  pub ip : String

pub record Table (R : Type 0) : Type 0 where
  pub rows : List R
  pub seq : ℕ  -- the highest id given out so far

pub record Database : Type 0 where
  pub certificates : Table CertificateRow
  pub versions : Table VersionRow
  pub jobs : Table JobRow
  pub api_keys : Table ApiKeyRow
  pub access : List AccessRow
  pub audits : Table AuditRow

-- the errors that the repositories return
pub data Error : Type 0 where
  not_found : Error  -- gorm.ErrRecordNotFound
  missing_where_clause : Error  -- gorm.ErrMissingWhereClause
  duplicated_key : Error  -- a unique index refuses the row
  driver : String → Error  -- what the database answered in place of a result
  issuance_queue_full : Error
  issuance_pending : Error
  api_key_not_revoked : Error
  invalid_api_key : Error
  certificate_does_not_exist : String → Error

pub record Connection : Type 0 where
  pub db : Database
  pub faults : List (Option String)

-- no statement fails
abbrev pub quiet : Database → Connection
quiet db = record { db = db; faults = [] }

abbrev pub no_rows : {R : Type 0} → Table R
no_rows = record { rows = []; seq = 0 }

abbrev pub no_database : Database
no_database = record {
  certificates = no_rows;
  versions = no_rows;
  jobs = no_rows;
  api_keys = no_rows;
  access = [];
  audits = no_rows;
}
