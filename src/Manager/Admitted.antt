-- ===== src/Manager/Admitted.antt =====
-- What `Admit` leaves in a database where no statement fails, for the manager's reconciliation
-- (backend/database/repository/job_repository.go).
use mathlib.Core.Path.{subst}
use cert_vault.Prelude.{
  ℕ, ◌+◌, ◌≤◌, ◌<◌, String, ◌≡◌, ◌∙◌, refl, sym, ap, Bool, false, none, some, List, [], ◌∷◌, arith,
  leb, eqb_refl, count_if, count_if-concat, Bool-cases, Option-cases, inl, inr, if◌then◌else◌,
}
use cert_vault.Database.{Time, Database, CertificateRow, JobRow, queued, Connection, quiet}
use cert_vault.Database.Exec.{
  transaction, begin, finish, commit, query, statement, attempt, continue, pure, raise, ◌>>=◌,
}
use cert_vault.Database.Rows.{first, insert, next_id, or_not_found}
use cert_vault.Database.Find.{enabled_by_name, find_enabled_certificate}
use cert_vault.Jobs.{
  pending, pending_for, new_job, create_job, admit, admit_as, admit_body, max_pending_issuance_jobs,
}
use cert_vault.Config.{certificate}

-- the jobs that are pending for a certificate
abbrev pub pending_jobs : ℕ → Database → ℕ
pending_jobs certificate db = count_if (pending_for certificate) db.jobs.rows

abbrev pub all_pending : Database → ℕ
all_pending db = count_if pending db.jobs.rows

-- a connection without faults, whose database has got at most `n` jobs more
pub record Grows (n : ℕ) (before : Database) (after : Connection) : Type 0 where
  pub db : Database
  pub image : after ≡ quiet db
  pub same : db.certificates ≡ before.certificates
  pub bounded : all_pending db ≤ all_pending before + n
  pub kept : (certificate : ℕ) → pending_jobs certificate before ≤ pending_jobs certificate db

module _ (name kind : String) (now : Time) (db : Database) where
  admit_unknown :
      first (enabled_by_name name) db.certificates.rows ≡ none
      → (admit name kind now (quiet db)).1 ≡ quiet db
  unfolding admit admit_as admit_body find_enabled_certificate transaction begin finish query
      statement attempt ◌>>=◌ continue or_not_found
  admit_unknown h = rw h refl

  module _ (row : CertificateRow)
      (known : first (enabled_by_name name) db.certificates.rows ≡ some row) where
    admit_pending :
        (job : JobRow)
        → first (pending_for row.id) db.jobs.rows ≡ some job
        → (admit name kind now (quiet db)).1 ≡ quiet db
    unfolding admit admit_as admit_body find_enabled_certificate transaction begin finish commit
        query statement attempt ◌>>=◌ continue or_not_found
    admit_pending job h = rw (known, h) refl

    admit_fresh :
        first (pending_for row.id) db.jobs.rows ≡ none
        → (admit name kind now (quiet db)).1 ≡ (
            if leb max_pending_issuance_jobs (all_pending db)
            then quiet db
            else quiet (record db {
              jobs = insert (new_job (next_id db.jobs) row.id kind queued now) db.jobs;
            }))
    unfolding admit admit_as admit_body find_enabled_certificate transaction begin finish commit
        query statement attempt ◌>>=◌ continue or_not_found create_job pure raise
    admit_fresh h = elim (Bool-cases (leb max_pending_issuance_jobs (all_pending db))) [
      | inl full ↦ rw (known, h, full) refl
      | inr room ↦ rw (known, h, room) refl
    ]

count_if_of_some :
    {R : Type 0} (p : R → Bool) (rows : List R) (r : R)
    → first p rows ≡ some r
    → 1 ≤ count_if p rows
unfolding first count_if
count_if_of_some p [] r h = absurd (cc h)
count_if_of_some p (x ∷ rows) r h = elim (Bool-cases (p x)) [
  | inl fits ↦ rw fits (omega arith)
  | inr other ↦ rw other (let ih = count_if_of_some p rows r (rw other at h) in omega (arith, ih))
]

pub Grows-refl : (n : ℕ) (db : Database) → Grows n db (quiet db)
Grows-refl n db = record {
  db = db;
  image = refl;
  same = refl;
  bounded = omega arith;
  kept = λ certificate. omega arith;
}

-- a new job
new_job-Grows :
    (kind : String) (now : Time) (db : Database) (certificate : ℕ)
    → Grows 1 db (
        quiet (record db {
          jobs = insert (new_job (next_id db.jobs) certificate kind queued now) db.jobs;
        }))
unfolding pending pending_for
new_job-Grows kind now db certificate = record {
  db = record db { jobs = insert (new_job (next_id db.jobs) certificate kind queued now) db.jobs };
  image = refl;
  same = refl;
  bounded = omega (
    arith,
    count_if-concat pending db.jobs.rows (new_job (next_id db.jobs) certificate kind queued now),
  );
  kept = λ id. ground (
    arith,
    count_if-concat (pending_for id) db.jobs.rows
        (new_job (next_id db.jobs) certificate kind queued now),
  );
}

new_job_pends :
    (kind : String) (now : Time) (db : Database) (certificate : ℕ)
    → 1
      ≤ pending_jobs certificate (record db {
        jobs = insert (new_job (next_id db.jobs) certificate kind queued now) db.jobs;
      })
unfolding pending_for
new_job_pends kind now db certificate = ground (
  arith,
  eqb_refl certificate,
  count_if-concat (pending_for certificate) db.jobs.rows
      (new_job (next_id db.jobs) certificate kind queued now),
)

pub admit-Grows :
    (name kind : String) (now : Time) (db : Database)
    → Grows 1 db (admit name kind now (quiet db)).1
admit-Grows name kind now db =
    elim (Option-cases (first (enabled_by_name name) db.certificates.rows)) [
      | inl unknown ↦ rw (admit_unknown name kind now db unknown) (Grows-refl 1 db)
      | inr (row, known) ↦ elim (Option-cases (first (pending_for row.id) db.jobs.rows)) [
        | inl free ↦
            rw (admit_fresh name kind now db row known free)
              (elim (Bool-cases (leb max_pending_issuance_jobs (all_pending db))) [
                | inl full ↦ rw full (Grows-refl 1 db)
                | inr room ↦ rw room (new_job-Grows kind now db row.id)
              ])
        | inr (job, busy) ↦ rw (admit_pending name kind now db row known job busy) (Grows-refl 1 db)
      ]
    ]

-- with room in the queue, the certificate has a pending job afterwards
pub admit_pends :
    (name kind : String) (now : Time) (db after : Database) (row : CertificateRow)
    → first (enabled_by_name name) db.certificates.rows ≡ some row
    → all_pending db < max_pending_issuance_jobs
    → (admit name kind now (quiet db)).1 ≡ quiet after
    → 1 ≤ pending_jobs row.id after
admit_pends name kind now db after row known room h =
    elim (Option-cases (first (pending_for row.id) db.jobs.rows)) [
      | inl free ↦
          let fits : leb max_pending_issuance_jobs (all_pending db) ≡ false = ground arith in
          let made = rw fits at (admit_fresh name kind now db row known free) in
          let same = ap (λ (c : Connection). c.db) (sym made ∙ h) in
          subst (λ d. 1 ≤ pending_jobs row.id d) same (new_job_pends kind now db row.id)
      | inr (job, busy) ↦
          let same =
            ap (λ (c : Connection). c.db)
              (sym (admit_pending name kind now db row known job busy) ∙ h) in
          subst (λ d. 1 ≤ pending_jobs row.id d) same
            (count_if_of_some (pending_for row.id) db.jobs.rows job busy)
    ]
