-- ===== src/Jobs/Admission.antt =====
-- Which jobs `Admit` and `Start` let in (backend/database/repository/job_repository.go).
use cert_vault.Prelude.{
  ℕ, ◌<◌, String, ◌≡◌, refl, Bool, true, false, Option, none, some, arith, leb, eqb_refl, count_if,
  Bool-cases, inl, inr,
}
use cert_vault.Prelude.Outcome.{ok, err}
use cert_vault.Database.{
  Time, Database, JobRow, JobStatus, CertificateRow, Connection, Error, quiet,
}
use cert_vault.Database.Exec.{pure, raise, query, transaction, ◌>>=◌}
use cert_vault.Database.Rows.{
  first, insert, next_id, or_not_found, ok_or_not_found, first-append_none,
}
use cert_vault.Database.Find.{enabled_by_name, find_enabled_certificate}
use cert_vault.Database.Returns.{
  at, Returns, Returns-query, Returns-apply, transaction-Returns, transaction_err, Returns-ok,
}
use cert_vault.Jobs.{
  max_pending_issuance_jobs, is_pending, pending, pending_for, new_job, create_job, admit_new,
  admit_found, admit_body, admit_as, Job, job_from_model,
}

-- what an admission that answers has found and done
abbrev pub Admitted :
    String → String → JobStatus → Time → CertificateRow → Database → Job × Bool → Database → Type 0
Admitted name kind status now certificate before (job, false) after =
    (after ≡ before)
    × (first (enabled_by_name name) before.certificates.rows ≡ some certificate)
    × (row : JobRow) × (first (pending_for certificate.id) before.jobs.rows ≡ some row)
    × (job ≡ job_from_model certificate.name row)
Admitted name kind status now certificate before (job, true) after =
    let row = new_job (next_id before.jobs) certificate.id kind status now in
    (after ≡ record before { jobs = insert row before.jobs })
    × (first (enabled_by_name name) before.certificates.rows ≡ some certificate)
    × (first (pending_for certificate.id) before.jobs.rows ≡ none)
    × (count_if pending before.jobs.rows < max_pending_issuance_jobs)
    × (job ≡ job_from_model certificate.name row)

module _ (name kind : String) (status : JobStatus) (now : Time) where
  abbrev pub IsAdmission : Database → Job × Bool → Database → Type 0
  IsAdmission before result after =
      (certificate : CertificateRow) × Admitted name kind status now certificate before result after

  admit_new-Admitted :
      (certificate : CertificateRow) (count : ℕ) (c : Connection)
      → first (enabled_by_name name) c.db.certificates.rows ≡ some certificate
      → first (pending_for certificate.id) c.db.jobs.rows ≡ none
      → count_if pending c.db.jobs.rows ≡ count
      → Returns (IsAdmission c.db) (admit_new certificate kind status now count c)
  unfolding admit_new create_job pure raise
  admit_new-Admitted certificate count c known free counted =
      elim (Bool-cases (leb max_pending_issuance_jobs count)) [
        | inl full ↦ rw full tt
        | inr room ↦ rw room (
            Returns-apply (IsAdmission c.db)
              (λ db. new_job (next_id db.jobs) certificate.id kind status now)
              (λ db. record db {
                jobs = insert (new_job (next_id db.jobs) certificate.id kind status now) db.jobs;
              })
              _ c (λ faults. (certificate, (refl, known, free, ground arith, refl))))
      ]

  admit_found-Admitted :
      (certificate : CertificateRow) (found : Option JobRow) (c : Connection)
      → first (enabled_by_name name) c.db.certificates.rows ≡ some certificate
      → first (pending_for certificate.id) c.db.jobs.rows ≡ found
      → Returns (IsAdmission c.db) (admit_found certificate kind status now found c)
  unfolding admit_found pure
  admit_found-Admitted certificate (some row) c known e = (certificate, (refl, known, row, e, refl))
  admit_found-Admitted certificate none c known e =
      Returns-query (IsAdmission c.db) (λ db. ok (count_if pending db.jobs.rows)) _ c
        (λ count faults counted.
          admit_new-Admitted certificate count (at c.db faults) known e (ground arith))

  -- An admission that answers with a new job has found the enabled certificate without a pending
  -- job, and fewer than `max_pending_issuance_jobs` pending, and has only appended the job under
  -- the next id; one that answers with an old job has found that job pending for the certificate,
  -- and has changed nothing.
  pub admit_as-Admitted :
      (c : Connection) → Returns (IsAdmission c.db) (admit_as name kind status now c)
  unfolding admit_as admit_body find_enabled_certificate
  admit_as-Admitted c =
      transaction-Returns (IsAdmission c.db) (admit_body name kind status now) c (λ f₁.
        Returns-query (IsAdmission c.db) _ _ (at c.db f₁) (λ certificate f₂ found.
          Returns-query (IsAdmission c.db) _ _ (at c.db f₂) (λ row f₃ searched.
            admit_found-Admitted certificate row (at c.db f₃)
              (ok_or_not_found (first (enabled_by_name name) c.db.certificates.rows) found)
              (ground arith))))

  -- An admission that fails, for whatever reason, has changed nothing.
  pub admit_as_err :
      (c : Connection) {e : Error}
      → (admit_as name kind status now c).0 ≡ err e
      → (admit_as name kind status now c).1.db ≡ c.db
  unfolding admit_as
  admit_as_err c h = transaction_err (admit_body name kind status now) c h

-- the answer where a job of the certificate is pending
pub admit_as_duplicate :
    (name kind : String) (status : JobStatus) (now : Time) (db : Database)
    (certificate : CertificateRow) (row : JobRow)
    → first (enabled_by_name name) db.certificates.rows ≡ some certificate
    → first (pending_for certificate.id) db.jobs.rows ≡ some row
    → admit_as name kind status now (quiet db)
      ≡ (ok (job_from_model certificate.name row, false), quiet db)
unfolding admit_as admit_body find_enabled_certificate admit_found transaction query ◌>>=◌
    or_not_found
admit_as_duplicate name kind status now db certificate row known found = rw (known, found) refl

-- the job is pending for the certificate of the name
abbrev pub HasPending : String → Job → Database → Type 0
HasPending name job db =
    (certificate : CertificateRow) × (row : JobRow) × (first (enabled_by_name name)
        db.certificates.rows
      ≡ some certificate)
    × (first (pending_for certificate.id) db.jobs.rows ≡ some row)
    × (job ≡ job_from_model certificate.name row)

Admitted-HasPending :
    (name kind : String) (status : JobStatus) (now : Time) (certificate : CertificateRow)
    (before after : Database) (result : Job × Bool)
    → is_pending status ≡ true
    → Admitted name kind status now certificate before result after
    → HasPending name result.0 after
unfolding pending_for
Admitted-HasPending name kind status now certificate before after (job, false) p h =
    let (same, known, row, found, image) = h in
    (certificate, row, rw same known, rw same found, image)
Admitted-HasPending name kind status now certificate before after (job, true) p h =
    let (inserted, known, free, room, image) = h in
    let row = new_job (next_id before.jobs) certificate.id kind status now in
    (
      certificate,
      row,
      rw inserted known,
      rw inserted (
          ground (
            arith,
            first-append_none (pending_for certificate.id) before.jobs.rows row free,
            eqb_refl certificate.id,
          )),
      image,
    )

-- Admission is idempotent: once a call with a pending status has answered with a job, whatever the
-- statements' faults, a call right after it for the same certificate, of whatever kind and status,
-- in which no statement fails, answers with the same job as an old one and changes nothing.
pub admit_as-admit_as :
    (name kind kind' : String) (status status' : JobStatus) (now now' : Time) (c : Connection)
    (job : Job) (created : Bool)
    → is_pending status ≡ true
    → (admit_as name kind status now c).0 ≡ ok (job, created)
    → let after = (admit_as name kind status now c).1.db in
      admit_as name kind' status' now' (quiet after) ≡ (ok (job, false), quiet after)
admit_as-admit_as name kind kind' status status' now now' c job created p answered =
    let after = (admit_as name kind status now c).1.db in
    let (certificate, admitted) =
      Returns-ok (IsAdmission name kind status now c.db) (admit_as name kind status now c)
        (job, created) (admit_as-Admitted name kind status now c) answered in
    let (certificate', row, known, found, image) =
      Admitted-HasPending name kind status now certificate c.db after (job, created) p admitted in
    rw image (admit_as_duplicate name kind' status' now' after certificate' row known found)
