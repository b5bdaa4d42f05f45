-- ===== src/Jobs/Draining.antt =====
-- Progress of the queue, and recovery after a restart, where no statement fails
-- (backend/database/repository/job_repository.go).
use mathlib.Core.Path.{subst}
use cert_vault.Prelude.{
  suc, ◌≤◌, ◌<◌, ◌≡◌, refl, none, some, List, [], ◌∷◌, arith, if◌then◌else◌, count_if, length, map,
  All, Option-cases, inl, inr,
}
use cert_vault.Prelude.Outcome.{ok}
use cert_vault.Database.{
  Time, Database, JobRow, JobStatus, queued, running, succeeded, failed, Connection, quiet,
}
use cert_vault.Database.Exec.{query, write, transaction, ◌>>=◌, ◌>>◌}
use cert_vault.Database.Rows.{first, update, on_rows, or_not_found}
use cert_vault.Jobs.{
  waiting, is_running, claim, claim_body, recover_interrupted, waiting_by_id, as_running, executing,
  as_interrupted, none_if_not_found, preload,
}
use cert_vault.Jobs.Invariant.{IsValid, IsAscending, claim-IsValid}

claim_db : Time → JobRow → Database → Database
claim_db now row db = record db {
  jobs = on_rows (update (waiting_by_id row.id) (as_running now)) db.jobs;
}

claim_found :
    (now : Time) (db : Database) (row : JobRow)
    → first waiting db.jobs.rows ≡ some row
    → (claim now (quiet db)).1 ≡ quiet (claim_db now row db)
unfolding claim claim_body claim_db none_if_not_found preload transaction query write ◌>>◌
    or_not_found
claim_found now db row found = rw found refl

-- past the claimed job no row has its id
unclaimed :
    (row : JobRow) (now : Time) (rows : List JobRow)
    → All (λ s. row.id < s.id) rows
    → count_if waiting (update (waiting_by_id row.id) (as_running now) rows) ≡ count_if waiting rows
unfolding update count_if waiting waiting_by_id as_running
unclaimed row now [] h = refl
unclaimed row now (r ∷ rows) h = ground (arith, unclaimed row now rows h.1)

claimed_count :
    (row : JobRow) (now : Time) (rows : List JobRow)
    → IsAscending rows
    → first waiting rows ≡ some row
    → suc (count_if waiting (update (waiting_by_id row.id) (as_running now) rows))
      ≡ count_if waiting rows
unfolding update count_if first waiting waiting_by_id as_running
claimed_count row now [] a h = absurd (cc)
claimed_count row now (r ∷ rows) a h =
    ground (arith, claimed_count row now rows a.1, unclaimed row now rows)

-- The calls of the worker's loop, one at each time.
unfoldable pub claims : List Time → Connection → Connection
claims [] c = c
claims (now ∷ times) c = claims times (claim now c).1

-- a claim with nothing queued answers with no job, and changes nothing
pub claim_idle :
    (now : Time) (db : Database)
    → first waiting db.jobs.rows ≡ none
    → claim now (quiet db) ≡ (ok none, quiet db)
unfolding claim claim_body none_if_not_found transaction query ◌>>=◌ or_not_found
claim_idle now db idle = rw idle refl

claims_idle :
    (times : List Time) (db : Database)
    → first waiting db.jobs.rows ≡ none
    → claims times (quiet db) ≡ quiet db
unfolding claims
claims_idle [] db idle = refl
claims_idle (now ∷ times) db idle = rw (claim_idle now db idle) (claims_idle times db idle)

first_of_count_if : (rows : List JobRow) → count_if waiting rows ≡ 0 → first waiting rows ≡ none
unfolding count_if first
first_of_count_if [] h = refl
first_of_count_if (r ∷ rows) h = ground (arith, first_of_count_if rows)

claims_step :
    (now : Time) (times : List Time) (c : Connection)
    → claims (now ∷ times) c ≡ claims times (claim now c).1
unfolding claims
claims_step now times c = refl

-- From valid jobs, and where no statement fails, as many claims as there are queued jobs leave no
-- job queued, in a valid table: every queued job is claimed.
pub claims_drain :
    (times : List Time) (db : Database)
    → IsValid db
    → count_if waiting db.jobs.rows ≤ length times
    → (first waiting (claims times (quiet db)).db.jobs.rows ≡ none)
      × IsValid (claims times (quiet db)).db
unfolding claim_db
claims_drain [] db v few = unfold claims in (first_of_count_if db.jobs.rows (omega arith), v)
claims_drain (now ∷ times) db v few = elim (Option-cases (first waiting db.jobs.rows)) [
  | inl idle ↦ rw (claims_idle (now ∷ times) db idle) (idle, v)
  | inr (row, found) ↦
      let step = claim_found now db row found in
      let kept : IsValid (claim_db now row db) =
        subst (λ (c : Connection). IsValid c.db) step (claim-IsValid now (quiet db) v) in
      rw (claims_step now times (quiet db), step)
        (claims_drain times (claim_db now row db) kept
          (omega (arith, claimed_count row now db.jobs.rows v.ordered found, few)))
]

-- a row after the recovery
abbrev pub interrupted : Time → JobRow → JobRow
interrupted now row = elim row.status [
  | running ↦ record row {
    status = failed;
    error = "issuance interrupted by process restart; external ACME outcome may be unknown";
    finished_at = some now;
  }
  | _ ↦ row
]

interrupted_lem :
    (now : Time) (r : JobRow)
    → (if executing r then as_interrupted now r else r) ≡ interrupted now r
unfolding executing as_interrupted
interrupted_lem now r = by_status r.status
  where
    by_status :
        (s : JobStatus)
        → (if is_running s then as_interrupted now r else r) ≡ (elim s [
          | running ↦ record r {
            status = failed;
            error = "issuance interrupted by process restart; external ACME outcome may be unknown";
            finished_at = some now;
          }
          | _ ↦ r
        ])
    by_status queued = refl
    by_status running = refl
    by_status succeeded = refl
    by_status failed = refl

update-map :
    (now : Time) (rows : List JobRow)
    → update executing (as_interrupted now) rows ≡ map (interrupted now) rows
unfolding update
update-map now [] = refl
update-map now (r ∷ rows) = rw (update-map now rows, interrupted_lem now r) refl

executing_none :
    (now : Time) (rows : List JobRow)
    → count_if executing (update executing (as_interrupted now) rows) ≡ 0
unfolding update count_if executing as_interrupted
executing_none now [] = refl
executing_none now (r ∷ rows) = ground (arith, executing_none now rows)

waiting_kept :
    (now : Time) (rows : List JobRow)
    → count_if waiting (update executing (as_interrupted now) rows) ≡ count_if waiting rows
unfolding update count_if waiting executing as_interrupted
waiting_kept now [] = refl
waiting_kept now (r ∷ rows) = ground (arith, waiting_kept now rows)

-- If no statement fails, a recovery sets the status of each running job to failed, its error to the
-- interruption's text and its end to the present time, and leaves all other jobs and columns as
-- they were: none runs afterwards, and as many are queued as before.
pub recover_interrupted_rows :
    (now : Time) (db : Database)
    → let after = (recover_interrupted now (quiet db)).1.db.jobs.rows in
      (after ≡ map (interrupted now) db.jobs.rows)
      × (count_if executing after ≡ 0)
      × (count_if waiting after ≡ count_if waiting db.jobs.rows)
unfolding recover_interrupted write
recover_interrupted_rows now db =
    (update-map now db.jobs.rows, executing_none now db.jobs.rows, waiting_kept now db.jobs.rows)
