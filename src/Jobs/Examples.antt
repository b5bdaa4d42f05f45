-- ===== src/Jobs/Examples.antt =====
-- The job repository on a small database.
use mathlib.Core.Path.{subst}
use cert_vault.Prelude.{
  pos, ◌≡◌, refl, true, false, none, some, List, [], ◌∷◌, arith, count_if, ap, map,
}
use cert_vault.Prelude.Outcome.{ok, err}
use cert_vault.Database.{
  Time, Database, queued, running, CertificateRow, quiet, no_database, not_found, driver,
}
use cert_vault.Database.Exec.{transaction, query, ◌>>=◌}
use cert_vault.Database.Rows.{first, or_not_found}
use cert_vault.Database.Find.{find_enabled_certificate, enabled_by_name}
use cert_vault.Database.Returns.{at, Returns}
use cert_vault.Jobs.{
  waiting, executing, new_job, admit_as, admit_body, recover_interrupted, job_from_model,
  create_job,
}
use cert_vault.Jobs.Invariant.{
  IsValid, Call, admitted, claimed, recovered, finished, perform_all, perform_all-IsValid,
  admit_as-IsValid,
}
use cert_vault.Jobs.Admission.{admit_as-Admitted, admit_as-admit_as, IsAdmission}
use cert_vault.Jobs.Draining.{claims, claims_drain, interrupted, recover_interrupted_rows}

abbrev site : CertificateRow
site = record {
  id = 1;
  name = "site";
  domains = "example.com" ∷ [];
  key_type = "ec256";
  renew_before_seconds = pos 2592000;
  enabled = true;
  status = "pending";
  last_error = "";
  updated_at = 0;
}

abbrev one_site : Database
one_site = record no_database { certificates = record { rows = site ∷ []; seq = 1 } }

no_jobs-IsValid : IsValid one_site
unfolding count_if
no_jobs-IsValid = record {
  ordered = tt;
  numbered = tt;
  distinct = λ id. omega arith;
  single = λ certificate. omega arith;
  bounded = omega arith;
}

abbrev after_one : Database
after_one = record one_site { jobs = record { rows = new_job 1 1 "manual" queued 5 ∷ []; seq = 1 } }

admit_once :
    admit_as "site" "manual" queued 5 (quiet one_site)
    ≡ (ok (job_from_model "site" (new_job 1 1 "manual" queued 5), true), quiet after_one)
unfolding admit_as admit_body find_enabled_certificate enabled_by_name or_not_found query
    transaction ◌>>=◌ first count_if create_job
admit_once = refl

admit_unknown : (admit_as "other" "manual" queued 5 (quiet one_site)).0 ≡ err not_found
unfolding admit_as admit_body find_enabled_certificate enabled_by_name or_not_found query
    transaction ◌>>=◌ first count_if create_job
admit_unknown = refl

-- the third statement fails
admit_fails :
    (admit_as "site" "manual" queued 5 (at one_site (none ∷ none ∷ some "locked" ∷ []))).0
    ≡ err (driver "locked")
unfolding admit_as admit_body find_enabled_certificate enabled_by_name or_not_found query
    transaction ◌>>=◌ first count_if create_job
admit_fails = refl

admit_as-Admitted_example :
    Returns
      (IsAdmission "site" "manual" queued 5 one_site)
      (admit_as "site" "manual" queued 5 (quiet one_site))
admit_as-Admitted_example = admit_as-Admitted "site" "manual" queued 5 (quiet one_site)

admit_as-admit_as_example :
    let after = (admit_as "site" "manual" queued 5 (quiet one_site)).1.db in
    admit_as "site" "scheduled" running 9 (quiet after)
    ≡ (ok (job_from_model "site" (new_job 1 1 "manual" queued 5), false), quiet after)
admit_as-admit_as_example =
    admit_as-admit_as "site" "manual" "scheduled" queued running 5 9 (quiet one_site)
      (job_from_model "site" (new_job 1 1 "manual" queued 5)) true refl (ap (λ r. r.0) admit_once)

calls : List (Time × Call)
calls =
    (5, admitted "site" "manual")
    ∷ (6, claimed)
    ∷ (7, recovered)
    ∷ (8, finished 1 (some "late"))
    ∷ []

perform_all-IsValid_example : IsValid (perform_all calls (at one_site (none ∷ some "busy" ∷ []))).db
perform_all-IsValid_example =
    perform_all-IsValid calls (at one_site (none ∷ some "busy" ∷ [])) no_jobs-IsValid

after_one-IsValid : IsValid after_one
after_one-IsValid =
    subst (λ r. IsValid r.1.db) admit_once
      (admit_as-IsValid "site" "manual" queued 5 (quiet one_site) no_jobs-IsValid)

claims_drain_example :
    (first waiting (claims (9 ∷ []) (quiet after_one)).db.jobs.rows ≡ none)
    × IsValid (claims (9 ∷ []) (quiet after_one)).db
claims_drain_example =
    claims_drain (9 ∷ []) after_one after_one-IsValid (unfold count_if waiting in omega arith)

recover_interrupted_rows_example :
    let after = (recover_interrupted 9 (quiet after_one)).1.db.jobs.rows in
    (after ≡ map (interrupted 9) after_one.jobs.rows)
    × (count_if executing after ≡ 0)
    × (count_if waiting after ≡ count_if waiting after_one.jobs.rows)
recover_interrupted_rows_example = recover_interrupted_rows 9 after_one
