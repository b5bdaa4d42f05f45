-- ===== src/Jobs.antt =====
-- backend/database/repository/job_repository.go: the queue of issuance jobs. Every method takes
-- what `time.Now()` gives it as `now`.
pub mod Invariant
pub mod Queue
pub mod Admission
pub mod Draining
mod Examples
use cert_vault.Prelude.{
  ℕ, ◌+◌, ◌-◌, ◌*◌, String, Bool, true, false, ◌&&◌, ◌||◌, Option, none, some, List, [], ◌∷◌, map,
  leb, eqb, ◌==◌, if◌then◌else◌, count_if, select, contains,
}
use cert_vault.Prelude.Outcome.{Outcome, ok, err}
use cert_vault.Database.{
  Time, Database, JobRow, JobStatus, queued, running, succeeded, failed, CertificateRow, Error,
  not_found, missing_where_clause, issuance_queue_full, issuance_pending, Connection,
}
use cert_vault.Database.Exec.{Exec, pure, raise, statement, query, write, transaction, ◌>>=◌, ◌>>◌}
use cert_vault.Database.Rows.{first, update, insert, next_id, on_rows, or_not_found}
use cert_vault.Database.Find.{by_id, find_enabled_certificate, certificate_name}

-- `Job` of backend/database/repository/models.go
pub record Job : Type 0 where
  pub id : ℕ
  pub certificate_name : String
  pub kind : String
  pub status : JobStatus
  pub error : String
  pub started_at : Time
  pub finished_at : Option Time

abbrev pub max_pending_issuance_jobs : ℕ
max_pending_issuance_jobs = 64

abbrev pub interrupted_issuance_error : String
interrupted_issuance_error =
    "issuance interrupted by process restart; external ACME outcome may be unknown"

-- status IN ("queued", "running")
abbrev pub is_pending : JobStatus → Bool
is_pending queued = true
is_pending running = true
is_pending _ = false

abbrev pub is_queued : JobStatus → Bool
is_queued queued = true
is_queued _ = false

abbrev pub is_running : JobStatus → Bool
is_running running = true
is_running _ = false

unfoldable pub pending : JobRow → Bool
pending row = is_pending row.status

-- certificate_id = ? AND status IN ("queued", "running")
unfoldable pub pending_for : ℕ → JobRow → Bool
pending_for certificate row = eqb row.certificate_id certificate && is_pending row.status

unfoldable pub waiting : JobRow → Bool
waiting row = is_queued row.status

unfoldable pub job_by_id : ℕ → JobRow → Bool
job_by_id id row = eqb row.id id

unfoldable pub job_from_model : String → JobRow → Job
job_from_model name row = record {
  id = row.id;
  certificate_name = name;
  kind = row.kind;
  status = row.status;
  error = row.error;
  started_at = row.started_at;
  finished_at = row.finished_at;
}

abbrev pub new_job : ℕ → ℕ → String → JobStatus → Time → JobRow
new_job id certificate kind status now = record {
  id = id;
  certificate_id = certificate;
  kind = kind;
  status = status;
  error = "";
  started_at = now;
  finished_at = none;
}

unfoldable pub create_job :
    ℕ → String → JobStatus → Time → Database → Outcome Error JobRow × Database
create_job certificate kind status now db =
    let row = new_job (next_id db.jobs) certificate kind status now in
    (ok row, record db { jobs = insert row db.jobs })

-- the insertion, once the number of pending jobs is known
pub admit_new : CertificateRow → String → JobStatus → Time → ℕ → Exec (Job × Bool)
admit_new certificate kind status now count =
    if leb max_pending_issuance_jobs count then raise issuance_queue_full else do
      row ← statement (create_job certificate.id kind status now)
      pure (job_from_model certificate.name row, true)

-- what follows the search for a pending job of the certificate
pub admit_found : CertificateRow → String → JobStatus → Time → Option JobRow → Exec (Job × Bool)
admit_found certificate kind status now (some row) =
    pure (job_from_model certificate.name row, false)
admit_found certificate kind status now none = do
  count ← query (λ db. ok (count_if pending db.jobs.rows))
  admit_new certificate kind status now count

unfoldable pub admit_body : String → String → JobStatus → Time → Exec (Job × Bool)
unfolding admit_found admit_new
admit_body name kind status now = do
  certificate ← find_enabled_certificate name
  found ← query (λ db. ok (first (pending_for certificate.id) db.jobs.rows))
  admit_found certificate kind status now found

-- the job and whether it is new
unfoldable pub admit_as : String → String → JobStatus → Time → Exec (Job × Bool)
admit_as name kind status now = transaction (admit_body name kind status now)

unfoldable pub admit : String → String → Time → Exec (Job × Bool)
unfolding admit_as
admit name kind now = admit_as name kind queued now

pub id_if_created : Job × Bool → Exec ℕ
id_if_created (job, true) = pure job.id
id_if_created (job, false) = raise issuance_pending

unfoldable pub start : String → String → Time → Exec ℕ
unfolding id_if_created
start name kind now = do result ← admit_as name kind running now; id_if_created result

-- `Preload("Certificate")` is a statement of its own
unfoldable pub preload : JobRow → Exec Job
preload row = do
  name ← query (λ db. ok (certificate_name db row.certificate_id))
  pure (job_from_model name row)

unfoldable pub get : ℕ → Exec Job
unfolding preload
get id = do row ← query (λ db. or_not_found (first (job_by_id id) db.jobs.rows)); preload row

-- WHERE id = ? AND status = "queued"
unfoldable pub waiting_by_id : ℕ → JobRow → Bool
waiting_by_id id row = eqb row.id id && is_queued row.status

unfoldable pub as_running : Time → JobRow → JobRow
as_running now row = record row { status = running; started_at = now }

unfoldable pub claim_body : Time → Exec Job
unfolding preload
claim_body now = do
  row ← query (λ db. or_not_found (first waiting db.jobs.rows))
  job ← preload row
  write
      (λ db. record db { jobs = on_rows (update (waiting_by_id row.id) (as_running now)) db.jobs })
  pure (record job { status = running; started_at = now })

-- "no record" is no job, and no error
unfoldable pub none_if_not_found :
    Outcome Error Job × Connection → Outcome Error (Option Job) × Connection
none_if_not_found (ok job, c) = (ok (some job), c)
none_if_not_found (err not_found, c) = (ok none, c)
none_if_not_found (err e, c) = (err e, c)

unfoldable pub claim : Time → Exec (Option Job)
unfolding none_if_not_found
claim now c = none_if_not_found (transaction (claim_body now) c)

unfoldable pub executing : JobRow → Bool
executing row = is_running row.status

unfoldable pub as_interrupted : Time → JobRow → JobRow
as_interrupted now row = record row {
  status = failed;
  error = interrupted_issuance_error;
  finished_at = some now;
}

unfoldable pub recover_interrupted : Time → Exec (Unit {0})
recover_interrupted now =
    write (λ db. record db { jobs = on_rows (update executing (as_interrupted now)) db.jobs })

abbrev outcome_status : Option String → JobStatus
outcome_status none = succeeded
outcome_status (some message) = failed

abbrev outcome_message : Option String → String
outcome_message none = ""
outcome_message (some message) = message

unfoldable pub as_finished : Option String → Time → JobRow → JobRow
as_finished result now row = record row {
  status = outcome_status result;
  error = outcome_message result;
  finished_at = some now;
}

unfoldable pub with_error : String → Time → CertificateRow → CertificateRow
with_error message now row = record row { status = "error"; last_error = message; updated_at = now }

-- GORM refuses an update whose struct condition is all zero.
unfoldable pub update_where_id : ℕ → (Database → Database) → Exec (Unit {0})
update_where_id id act = if eqb id 0 then raise missing_where_clause else write act

unfoldable pub mark_certificate : Option String → ℕ → Time → Exec (Unit {0})
unfolding update_where_id preload
mark_certificate none id now = pure tt
mark_certificate (some message) id now = do
  row ← query (λ db. or_not_found (first (job_by_id id) db.jobs.rows))
  job ← preload row
  update_where_id row.certificate_id (λ db. record db {
    certificates =
        on_rows (update (by_id row.certificate_id) (with_error message now)) db.certificates;
  })

unfoldable pub finish_body : ℕ → Option String → Time → Exec (Unit {0})
unfolding mark_certificate
finish_body id result now = do
  update_where_id id
      (λ db. record db { jobs = on_rows (update (job_by_id id) (as_finished result now)) db.jobs })
  mark_certificate result id now

-- `result` is the text of the job's error, if it has one
unfoldable pub finish : ℕ → Option String → Time → Exec (Unit {0})
finish id result now = transaction (finish_body id result now)
