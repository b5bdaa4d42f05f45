-- ===== src/Manager/Examples.antt =====
-- A manager of one certificate, whose issuance is broken off.
use cert_vault.Prelude.{
  ◌≡◌, refl, pos, true, false, none, some, [], ◌∷◌, ◌≤◌, arith, count_if, select,
}
use cert_vault.Prelude.Outcome.{ok, err}
use cert_vault.Database.{Database, CertificateRow, queued, running, quiet, no_database}
use cert_vault.Database.Exec.{transaction, query, statement, write, ◌>>=◌}
use cert_vault.Database.Rows.{first, update, or_not_found}
use cert_vault.Database.Find.{enabled_by_name, by_name, find_enabled_certificate}
use cert_vault.Config.{Certificate as Definition, Hook}
use cert_vault.Jobs.{
  claim, claim_body, none_if_not_found, job_by_id, as_finished, new_job, finish_body,
  update_where_id,
}
use cert_vault.Certificates.{Certificate}
use cert_vault.Certificates.Listing.{
  list, get, certificate_from_model, read_current_versions, read_latest_jobs,
}
use cert_vault.Files.{sound}
use cert_vault.Files.Examples.{library, storage}
use cert_vault.Manager.{
  on_connection, Manager, World, Moment, reconcile, automatic, was_interrupted, wanted, IssueError,
  failed, interrupted,
}
use cert_vault.Manager.Issuing.{Surroundings, issue, lift, call, on_disk, ◌>>◌}
use cert_vault.Database.Top.{top}
use cert_vault.Certificates.{current_version_of}
use cert_vault.Manager.Admitted.{pending_jobs}
use cert_vault.Manager.Running.{waiting as idle, at_tick, turn}
use cert_vault.Manager.Waking.{IsAwake, enqueue_each, turn-IsAwake}
use cert_vault.Manager.Scheduling.{reconcile_pends}

abbrev site : Definition
site = record {
  name = "site";
  domains = "a.example.com" ∷ [];
  key_type = "";
  renew_before = pos 0;
  credential = "";
  enabled = none;
  automatic_issuance = none;
}

abbrev announcing : Hook
announcing = record {
  name = "announce";
  kind = "exec";
  events = "certificate.issued" ∷ "certificate.renewed" ∷ [];
  certificates = [];
  url = "";
  secret_file = "";
  command = "/bin/announce";
  args = [];
  timeout = pos 0;
}

abbrev manager : Manager
manager = record {
  config = record {
    public_url = "";
    ui_enabled = none;
    trusted_proxies = [];
    acme = record {
      email = "a@example.com";
      directory_url = "https://acme.example/directory";
      accept_terms = true;
      automatic_issuance = true;
    };
    session_duration = pos 0;
    oidc = none;
    audit_retention = pos 0;
    dns_credentials = [];
    zones = [];
    certificates = site ∷ [];
    hooks = announcing ∷ [];
  };
  storage = storage;
  lib = library;
  notifies = true;
  repository_text = λ e. "database";
  quote = λ s. s;
}

abbrev site_row : CertificateRow
site_row = record {
  id = 1;
  name = "site";
  domains = "a.example.com" ∷ [];
  key_type = "ec256";
  renew_before_seconds = pos 10;
  enabled = true;
  status = "pending";
  last_error = "";
  updated_at = 0;
}

abbrev one_site : Database
one_site = record no_database { certificates = record { rows = site_row ∷ []; seq = 1 } }

abbrev world_of : Database → World
world_of db = record {
  connection = quiet db;
  disk = sound [];
  woken = false;
  fired = [];
  notices = [];
}

abbrev moment : Moment
moment = record { inspected_at = 5; admitted_at = 6; disk = sound [] }

abbrev listed : Certificate
listed = record {
  name = "site";
  domains = "a.example.com" ∷ [];
  key_type = "ec256";
  status = "pending";
  renew_before_seconds = pos 10;
  current_version = none;
  last_error = "";
  latest_job = none;
}

list_one : list (quiet one_site) ≡ (ok (listed ∷ []), quiet one_site)
unfolding list query statement ◌>>=◌ select certificate_from_model read_current_versions
    read_latest_jobs
list_one = refl

reconcile_pends_example :
    (after : Database) × ((reconcile manager (λ i. moment) (world_of one_site)).connection
      ≡ quiet after)
    × (1 ≤ pending_jobs 1 after)
unfolding enabled_by_name by_name first automatic was_interrupted wanted count_if
reconcile_pends_example =
    reconcile_pends manager (λ i. moment) [] listed [] (world_of one_site) one_site site_row refl
      list_one (refl, refl, refl) refl (omega arith)

abbrev running_job : Database
running_job = record one_site {
  jobs = record { rows = new_job 1 1 "manual" running 5 ∷ []; seq = 1 };
}

abbrev surroundings : Surroundings
surroundings = record {
  saved_at = 10;
  added_at = 11;
  recorded_at = 12;
  finished_at = 13;
  obtained = λ d disk. (err "acme", disk);
  cancelled = true;
}

issue_broken_off :
    (issue manager surroundings "site" "manual" 1 (world_of running_job)).0
    ≡ some (interrupted (failed "acme"))
unfolding issue lift call get ◌>>=◌ cert_vault.Manager.Issuing.◌>>=◌ ◌>>◌ find_enabled_certificate
    query statement or_not_found first enabled_by_name by_name current_version_of top transaction
    finish_body update_where_id cert_vault.Database.Exec.◌>>◌ write update job_by_id as_finished
    on_disk
issue_broken_off = refl

nothing_claimed : (on_connection (claim 7) (at_tick manager none (world_of one_site))).0 ≡ ok none
unfolding on_connection at_tick claim claim_body none_if_not_found transaction query ◌>>=◌ first
    or_not_found
nothing_claimed = refl

turn-IsAwake_example :
    ((turn manager none 7 surroundings (world_of one_site)).phase ≡ idle)
    × IsAwake (
        enqueue_each manager
          (("site", "manual", 8) ∷ ("other", "manual", 9) ∷ [])
          (turn manager none 7 surroundings (world_of one_site)).world)
turn-IsAwake_example =
    turn-IsAwake manager none 7 surroundings (world_of one_site)
      (("site", "manual", 8) ∷ ("other", "manual", 9) ∷ []) nothing_claimed
