-- ===== src/Jobs/Queue.antt =====
-- What the job repository's methods answer (backend/database/repository/job_repository.go).
use mathlib.Core.Path.{subst}
use cert_vault.Prelude.{◌≡◌, ◌≢◌, false, Option, none, some, List, ◌∷◌, ◌++◌, All}
use cert_vault.Prelude.Outcome.{Outcome}
use cert_vault.Database.{Time, Database, JobRow, queued, running}
use cert_vault.Database.Returns.{Returns}
use cert_vault.Database.Find.{certificate_name}
use cert_vault.Jobs.{waiting, is_queued, Job}

-- the table with the row changed, and what is known of the row
pub record Takes (now : Time) (row : JobRow) (before after : List JobRow) : Type 0 where
  pub earlier : List JobRow
  pub others : List JobRow
  pub place : before ≡ earlier ++ row ∷ others
  pub image : after ≡ earlier ++ record row { status = running; started_at = now } ∷ others
  pub waits : row.status ≡ queued
  pub oldest : All (λ r. r.status ≢ queued) earlier

pub not_queued_lem : (r : JobRow) → waiting r ≡ false → r.status ≢ queued
unfolding waiting
not_queued_lem r h e =
    let e' : is_queued queued ≡ false = subst (λ s. is_queued s ≡ false) e h in cc e'

-- what a claim that answers has done
abbrev pub Claimed : Time → Database → Option Job → Database → Type 0
Claimed now before none after = after ≡ before
Claimed now before (some job) after =
    (row : JobRow) × (rows : List JobRow) × Takes now row before.jobs.rows rows
    × (after ≡ record before { jobs = record before.jobs { rows = rows } })
    × (job.id ≡ row.id)
    × (job.certificate_name ≡ certificate_name before row.certificate_id)
    × (job.kind ≡ row.kind)
    × (job.status ≡ running)
    × (job.started_at ≡ now)
