-- ===== src/Certificates/Listing.antt =====
-- backend/database/repository/certificate_repository.go, `List` and `Get`. A `map[int64]V` is the
-- function that reads it.
use Prim.Native.Nat.{Ordering}
use Prim.Native.String.{compare}
use cert_vault.Prelude.{
  ℕ, String, Bool, true, false, Option, none, some, List, [], ◌∷◌, map, any, ltb, eqb,
  if◌then◌else◌, select,
}
use cert_vault.Prelude.Outcome.{Outcome, ok, err}
use cert_vault.Database.{CertificateRow, VersionRow, JobRow, Error, not_found, Connection}
use cert_vault.Database.Exec.{Exec, pure, query, ◌>>=◌}
use cert_vault.Database.Top.{top}
use cert_vault.Database.Find.{find_enabled_certificate}
use cert_vault.Jobs.{Job, job_from_model}
use cert_vault.Certificates.{Certificate, Version, latest, version_from_model, current_version_of}

-- `certificateFromModel`
unfoldable pub certificate_from_model : CertificateRow → Certificate
certificate_from_model row = record {
  name = row.name;
  domains = row.domains;
  key_type = row.key_type;
  status = row.status;
  renew_before_seconds = row.renew_before_seconds;
  current_version = none;
  last_error = row.last_error;
  latest_job = none;
}

module _ {R V : Type 0} where
  -- m[k] = v, in a loop
  unfoldable pub index : (R → ℕ) → (R → V) → List R → (ℕ → Option V) → ℕ → Option V
  index key value [] m = m
  index key value (r ∷ rows) m =
      index key value rows (λ k. if eqb k (key r) then some (value r) else m k)

abbrev pub no_entry : {V : Type 0} → ℕ → Option V
no_entry k = none

module _ {R : Type 0} where
  unfoldable pub id_and : (R → ℕ) → Option R → List ℕ → List ℕ
  id_and id none ids = ids
  id_and id (some r) ids = id r ∷ ids

  -- SELECT of one id for each certificate that has one
  unfoldable pub best_ids : (R → ℕ) → (ℕ → Option R) → List CertificateRow → List ℕ
  unfolding id_and
  best_ids id best [] = []
  best_ids id best (c ∷ certificates) = id_and id (best c.id) (best_ids id best certificates)

  -- WHERE id IN (SELECT ...)
  unfoldable pub select_best : (R → ℕ) → (ℕ → Option R) → List CertificateRow → List R → List R
  unfolding best_ids
  select_best id best certificates rows =
      select (λ r. any (eqb (id r)) (best_ids id best certificates)) rows

abbrev pub or_empty : Option String → String
or_empty none = ""
or_empty (some name) = name

-- `names[id].Name`
unfoldable pub name_in : List CertificateRow → ℕ → String
unfolding index
name_in certificates id =
    or_empty (
      index (λ (c : CertificateRow). c.id) (λ (c : CertificateRow). c.name) certificates no_entry
        id)

unfoldable pub job_of : ℕ → JobRow → Bool
job_of certificate row = eqb row.certificate_id certificate

unfoldable pub higher : JobRow → JobRow → Bool
higher a b = ltb a.id b.id

-- MAX(id) of a certificate
abbrev pub newest : (JobRow → Bool) → List JobRow → Option JobRow
newest p rows = top higher p rows

unfoldable pub read_latest_jobs : List CertificateRow → List JobRow → ℕ → Option Job
unfolding index select_best
read_latest_jobs certificates rows =
    index (λ (r : JobRow). r.certificate_id)
      (λ (r : JobRow). job_from_model (name_in certificates r.certificate_id) r)
      (select_best (λ (r : JobRow). r.id) (λ c. newest (job_of c) rows) certificates rows) no_entry

-- `latestJobs`
unfoldable pub latest_jobs : List CertificateRow → Exec (ℕ → Option Job)
latest_jobs [] = pure no_entry
latest_jobs (c ∷ certificates) = query (λ db. ok (read_latest_jobs (c ∷ certificates) db.jobs.rows))

-- the subquery's condition, on a column, holds of no other row where the id is zero
unfoldable pub issued_for : ℕ → VersionRow → Bool
issued_for certificate row = eqb row.certificate_id certificate

unfoldable pub read_current_versions : List CertificateRow → List VersionRow → ℕ → Option Version
unfolding index select_best
read_current_versions certificates rows =
    index (λ (r : VersionRow). r.certificate_id)
      (λ (r : VersionRow). version_from_model (name_in certificates r.certificate_id) r)
      (select_best (λ (r : VersionRow). r.id) (λ c. latest (issued_for c) rows) certificates rows)
      no_entry

-- `currentVersions`
unfoldable pub current_versions : List CertificateRow → Exec (ℕ → Option Version)
current_versions [] = pure no_entry
current_versions (c ∷ certificates) =
    query (λ db. ok (read_current_versions (c ∷ certificates) db.versions.rows))

abbrev pub name_le : CertificateRow → CertificateRow → Bool
name_le a b = elim (compare a.name b.name) [ Ordering.gt ↦ false | _ ↦ true ]

unfoldable pub insert_by_name : CertificateRow → List CertificateRow → List CertificateRow
insert_by_name a [] = a ∷ []
insert_by_name a (b ∷ rows) =
    let below = insert_by_name a rows in if name_le a b then a ∷ b ∷ rows else b ∷ below

-- ORDER BY name
unfoldable pub sort_by_name : List CertificateRow → List CertificateRow
unfolding insert_by_name
sort_by_name [] = []
sort_by_name (a ∷ rows) = insert_by_name a (sort_by_name rows)

unfoldable pub completed : (ℕ → Option Job) → (ℕ → Option Version) → CertificateRow → Certificate
completed jobs versions row = record (certificate_from_model row) {
  current_version = versions row.id;
  latest_job = jobs row.id;
}

-- `List`
unfoldable pub list : Exec (List Certificate)
unfolding sort_by_name completed latest_jobs current_versions
list = do
  models ←
      query
        (λ db. ok (sort_by_name (select (λ (r : CertificateRow). r.enabled) db.certificates.rows)))
  jobs ← latest_jobs models
  versions ← current_versions models
  pure (map (completed jobs versions) models)

-- "no record" is no version, and no error
unfoldable pub none_if_absent :
    Outcome Error Version × Connection → Outcome Error (Option Version) × Connection
none_if_absent (ok version, c) = (ok (some version), c)
none_if_absent (err not_found, c) = (ok none, c)
none_if_absent (err e, c) = (err e, c)

-- `Get`
unfoldable pub get : String → Exec Certificate
unfolding none_if_absent latest_jobs
get name = do
  model ← find_enabled_certificate name
  version ← (λ c. none_if_absent (current_version_of model.id c))
  jobs ← latest_jobs (model ∷ [])
  pure (record (certificate_from_model model) {
    current_version = version;
    latest_job = jobs model.id;
  })
