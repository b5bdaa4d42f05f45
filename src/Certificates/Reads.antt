-- ===== src/Certificates/Reads.antt =====
-- What `List` and `Get` read for one certificate
-- (backend/database/repository/certificate_repository.go).
use mathlib.Core.Option
use cert_vault.Prelude.{
  ◌<◌, ◌≡◌, ◌≢◌, ◌∙◌, refl, ap, true, false, Option, none, some, List, [], ◌∷◌, arith, eqb_iff,
  eq_iff, text_ne, All, IsIn, Option-cases, inl, inr,
}
use cert_vault.Prelude.Outcome.{ok}
use cert_vault.Database.{Database, CertificateRow, VersionRow, JobRow, quiet}
use cert_vault.Database.Exec.{pure, query, statement, attempt, continue, ◌>>=◌}
use cert_vault.Database.Rows.{first, or_not_found}
use cert_vault.Database.Keys.{AreUnique, AreUnique-same, All-IsIn}
use cert_vault.Database.Top.{top_member, top_total, top_same}
use cert_vault.Database.Find.{by_name, enabled_by_name, find_enabled_certificate, certificate_name}
use cert_vault.Jobs.{Job, job_from_model}
use cert_vault.Certificates.{
  Certificate, Version, later, latest, version_of, version_from_model, current_version_of,
}
use cert_vault.Certificates.Listing.{
  certificate_from_model, no_entry, name_in, job_of, higher, newest, read_latest_jobs, latest_jobs,
  issued_for, read_current_versions, completed, none_if_absent, get,
}
use cert_vault.Certificates.Bulk.{IsBest, index_best, index-some}
use cert_vault.Certificates.Latest.{current_version_of_lem, certificate_name_lem}

latest-IsBest :
    (rows : List VersionRow)
    → IsBest (λ (r : VersionRow). r.certificate_id) (λ c. latest (issued_for c) rows) rows
latest-IsBest rows = record {
  member = λ c r h.
      let (i, fits) = top_member later (issued_for c) rows r h in
      (i, (eqb_iff r.certificate_id c).0 (unfold issued_for in fits));
  total = λ r i.
      top_total later (issued_for r.certificate_id) rows r i
        (unfold issued_for in (eqb_iff r.certificate_id r.certificate_id).1 refl);
}

newest-IsBest :
    (rows : List JobRow)
    → IsBest (λ (r : JobRow). r.certificate_id) (λ c. newest (job_of c) rows) rows
newest-IsBest rows = record {
  member = λ c r h.
      let (i, fits) = top_member higher (job_of c) rows r h in
      (i, (eqb_iff r.certificate_id c).0 (unfold job_of in fits));
  total = λ r i.
      top_total higher (job_of r.certificate_id) rows r i
        (unfold job_of in (eqb_iff r.certificate_id r.certificate_id).1 refl);
}

abbrev pub AreNamed : List CertificateRow → Type 0
AreNamed [] = Unit
AreNamed (r ∷ rows) = (r.name ≢ "") × All (λ s. s.name ≢ r.name) rows × AreNamed rows

All-named :
    (rows : List CertificateRow) (row : CertificateRow)
    → AreNamed rows
    → IsIn row rows
    → row.name ≢ ""
All-named [] row n i = absurd i
All-named (r ∷ rows) row n (inl here) = rw (← here) n.0
All-named (r ∷ rows) row n (inr below) = All-named rows row n.2 below

-- What the tables hold: unique ids, which begin at 1, and names that are unique and not empty.
pub record IsSound (db : Database) : Type 0 where
  pub certificates : AreUnique (λ (r : CertificateRow). r.id) db.certificates.rows
  pub versions : AreUnique (λ (r : VersionRow). r.id) db.versions.rows
  pub jobs : AreUnique (λ (r : JobRow). r.id) db.jobs.rows
  pub positive : All (λ r. 0 < r.id) db.certificates.rows
  pub names : AreNamed db.certificates.rows

name_in_lem :
    (models : List CertificateRow) (row : CertificateRow)
    → ((r : CertificateRow) → IsIn r models → r.id ≡ row.id → r ≡ row)
    → IsIn row models
    → name_in models row.id ≡ row.name
unfolding name_in
name_in_lem models row only i =
    rw
      (index-some (λ (c : CertificateRow). c.id) (λ (c : CertificateRow). c.name) models no_entry
        row.id row.name (λ r j e. ap (λ (k : CertificateRow). k.name) (only r j e))
        (inl (row, i, refl)))
      refl

map_same :
    {R V : Type 0} (f g : R → V) (o : Option R)
    → ((r : R) → o ≡ some r → f r ≡ g r)
    → Option.map f o ≡ Option.map g o
map_same f g none h = refl
map_same f g (some r) h = ap some (h r refl)

-- what both read for a certificate
abbrev pub version_for : Database → CertificateRow → Option Version
version_for db row =
    Option.map (version_from_model row.name) (latest (issued_for row.id) db.versions.rows)

abbrev pub job_for : Database → CertificateRow → Option Job
job_for db row = Option.map (job_from_model row.name) (newest (job_of row.id) db.jobs.rows)

abbrev pub read_certificate : Database → CertificateRow → Certificate
read_certificate db row = record (certificate_from_model row) {
  current_version = version_for db row;
  latest_job = job_for db row;
}

-- the bulk reads, for one of the certificates
module _ (models : List CertificateRow) (row : CertificateRow) (db : Database) (sound : IsSound db)
    (among : (r : CertificateRow) → IsIn r models → IsIn r db.certificates.rows)
    (i : IsIn row models) where
  named_in : name_in models row.id ≡ row.name
  named_in =
      name_in_lem models row
        (λ r j e.
          AreUnique-same (λ (c : CertificateRow). c.id) db.certificates.rows r row
            sound.certificates (among r j) (among row i) e)
        i

  bulk_version : read_current_versions models db.versions.rows row.id ≡ version_for db row
  unfolding read_current_versions
  bulk_version =
      index_best (λ (r : VersionRow). r.id) (λ (r : VersionRow). r.certificate_id) _ _
        db.versions.rows models row sound.versions (latest-IsBest db.versions.rows) i
      ∙ map_same _ _ (latest (issued_for row.id) db.versions.rows) (λ r h.
        ap (λ name. version_from_model name r)
          (ap (name_in models) ((latest-IsBest db.versions.rows).member row.id r h).1 ∙ named_in))

  bulk_job : read_latest_jobs models db.jobs.rows row.id ≡ job_for db row
  unfolding read_latest_jobs
  bulk_job =
      index_best (λ (r : JobRow). r.id) (λ (r : JobRow). r.certificate_id) _ _ db.jobs.rows models
        row sound.jobs (newest-IsBest db.jobs.rows) i
      ∙ map_same _ _ (newest (job_of row.id) db.jobs.rows) (λ r h.
        ap (λ name. job_from_model name r)
          (ap (name_in models) ((newest-IsBest db.jobs.rows).member row.id r h).1 ∙ named_in))

  pub completed_lem :
      completed
        (read_latest_jobs models db.jobs.rows)
        (read_current_versions models db.versions.rows)
        row
      ≡ read_certificate db row
  unfolding completed
  completed_lem = rw (bulk_version, bulk_job) refl

found_named :
    (rows : List CertificateRow) (row : CertificateRow)
    → AreNamed rows
    → IsIn row rows
    → row.enabled ≡ true
    → first (enabled_by_name row.name) rows ≡ some row
unfolding first
found_named [] row n i h = absurd i
found_named (r ∷ rows) row n (inl here) h =
    let e : enabled_by_name row.name r ≡ true =
      unfold enabled_by_name by_name in
      ground (
        arith,
        eq_iff r.name row.name,
        ap (λ (k : CertificateRow). k.name) here,
        ap (λ (k : CertificateRow). k.enabled) here,
        h,
      ) in
    rw e (ap some here)
found_named (r ∷ rows) row n (inr below) h =
    let named = All-named rows row n.2 below in
    let e : enabled_by_name row.name r ≡ false =
      unfold enabled_by_name by_name in
      ground (
        arith,
        eq_iff r.name row.name,
        All-IsIn (λ s. s.name ≢ r.name) rows row n.1 below,
        text_ne row.name "" named,
      ) in
    rw e (found_named rows row n.2 below h)

current_or_none :
    (db : Database) (row : CertificateRow)
    → IsSound db
    → IsIn row db.certificates.rows
    → none_if_absent (current_version_of row.id (quiet db)) ≡ (ok (version_for db row), quiet db)
current_or_none db row sound i =
    let positive = All-IsIn (λ r. 0 < r.id) db.certificates.rows row sound.positive i in
    let same : latest (version_of row.id) db.versions.rows
        ≡ latest (issued_for row.id) db.versions.rows =
      top_same later (version_of row.id) (issued_for row.id) db.versions.rows
        (λ r. unfold version_of issued_for in ground arith) in
    elim (Option-cases (latest (issued_for row.id) db.versions.rows)) [
      | inl nothing ↦ rw nothing (
          unfold current_version_of query statement attempt ◌>>=◌ continue or_not_found
            none_if_absent in
          rw (same ∙ nothing) refl)
      | inr (version, something) ↦
          let owned = ((latest-IsBest db.versions.rows).member row.id version something).1 in
          let name : certificate_name db version.certificate_id ≡ row.name =
            ap (certificate_name db) owned ∙ certificate_name_lem db row sound.certificates i in
          rw something (
            ap none_if_absent (
              current_version_of_lem row.id db version (same ∙ something)
              ∙ ap (λ n. (ok (version_from_model n version), quiet db)) name)
            ∙ unfold none_if_absent in refl)
    ]

pub get_lem :
    (db : Database) (row : CertificateRow)
    → IsSound db
    → IsIn row db.certificates.rows
    → row.enabled ≡ true
    → (get row.name (quiet db)).0 ≡ ok (read_certificate db row)
unfolding get find_enabled_certificate query statement attempt ◌>>=◌ continue or_not_found pure
    latest_jobs
get_lem db row sound i on = rw (found_named db.certificates.rows row sound.names i on) (
    rw (current_or_none db row sound i) (
      ap
        (λ job. ok (record (certificate_from_model row) {
          current_version = version_for db row;
          latest_job = job;
        }))
        (bulk_job (row ∷ []) row db sound (λ r j. alone r j) (inl refl))))
  where
    alone : (r : CertificateRow) → IsIn r (row ∷ []) → IsIn r db.certificates.rows
    alone r (inl e) = rw (← e) i
    alone r (inr none_left) = absurd none_left
