-- ===== src/Certificates/Examples.antt =====
-- Two certificates, of which one is issued twice.
use cert_vault.Prelude.{
  ℕ, String, ◌≡◌, refl, pos, true, none, some, List, [], ◌∷◌, arith, All, length, count_if, eq_iff,
}
use cert_vault.Prelude.Outcome.{ok}
use cert_vault.Database.{Time, Database, CertificateRow, VersionRow, quiet, no_database}
use cert_vault.Database.Exec.{transaction, query, write, statement, ◌>>=◌, ◌>>◌}
use cert_vault.Database.Rows.{first, or_not_found}
use cert_vault.Database.Find.{by_name, enabled_by_name, find_enabled_certificate}
use cert_vault.Database.Returns.{at, Returns}
use cert_vault.Config.{Certificate as Definition}
use cert_vault.Jobs.{update_where_id}
use cert_vault.Certificates.{
  Version, Certificate, reconcile, add_version, add_version_body, current_version,
}
use cert_vault.Certificates.Listing.{list, get}
use cert_vault.Certificates.Reconciled.{IsReconciled, reconcile-IsReconciled}
use cert_vault.Certificates.Latest.{current_version-add_version}
use cert_vault.Certificates.Reads.{IsSound}
use cert_vault.Certificates.Agreement.{list-get}

abbrev row_of : ℕ → String → CertificateRow
row_of id name = record {
  id = id;
  name = name;
  domains = "example.com" ∷ [];
  key_type = "ec256";
  renew_before_seconds = pos 2592000;
  enabled = true;
  status = "valid";
  last_error = "";
  updated_at = 0;
}

abbrev version_row : ℕ → ℕ → Time → VersionRow
version_row id certificate created = record {
  id = id;
  certificate_id = certificate;
  key_type = "ec256";
  path = "p";
  domains = "example.com" ∷ [];
  serial = "1";
  issuer = "ca";
  fingerprint_sha256 = "f";
  not_before = 0;
  not_after = 100;
  created_at = created;
}

abbrev two_certificates : Database
two_certificates = record no_database {
  certificates = record { rows = row_of 1 "site" ∷ row_of 2 "mail" ∷ []; seq = 2 };
  versions = record { rows = version_row 1 1 5 ∷ version_row 2 2 6 ∷ []; seq = 2 };
}

abbrev mail : Definition
mail = record {
  name = "mail";
  domains = "mail.example.com" ∷ [];
  key_type = "";
  renew_before = pos 0;
  credential = "";
  enabled = none;
  automatic_issuance = none;
}

reconcile-IsReconciled_example :
    Returns
      (λ _ db. IsReconciled (mail ∷ []) db.certificates.rows)
      (reconcile (λ i. i) (mail ∷ []) (at two_certificates (none ∷ none ∷ some "locked" ∷ [])))
reconcile-IsReconciled_example =
    reconcile-IsReconciled (λ i. i) (mail ∷ [])
      (at two_certificates (none ∷ none ∷ some "locked" ∷ [])) ((λ i. i), tt)

abbrev renewed : Version
renewed = record {
  key_type = "ec256";
  id = 0;
  certificate_name = "site";
  path = "q";
  serial = "2";
  issuer = "ca";
  fingerprint_sha256 = "g";
  not_before = 7;
  not_after = 200;
  created_at = 8;
  domains = "example.com" ∷ [];
}

add_renewed : (add_version renewed 9 (quiet two_certificates)).0 ≡ ok tt
unfolding add_version add_version_body find_enabled_certificate query write statement transaction
    ◌>>=◌ ◌>>◌ first enabled_by_name by_name or_not_found update_where_id
add_renewed = refl

current_version-add_version_example :
    (current_version "site" (quiet (add_version renewed 9 (quiet two_certificates)).1.db)).0
    ≡ ok (record renewed { id = 3 })
current_version-add_version_example =
    current_version-add_version renewed 9 (quiet two_certificates) (λ e. cc e)
      (((λ e. omega arith), tt), (tt, tt)) (omega arith) add_renewed

sound : IsSound two_certificates
sound = record {
  certificates = (((λ e. omega arith), tt), (tt, tt));
  versions = (((λ e. omega arith), tt), (tt, tt));
  jobs = tt;
  positive = omega arith;
  names = ((λ e. cc e), ((λ e. cc ((eq_iff "mail" "site").1 e)), tt), ((λ e. cc e), tt, tt));
}

list-get_example :
    (certificates : List Certificate) × ((list (quiet two_certificates)).0 ≡ ok certificates)
    × (length certificates ≡ count_if (λ r. r.enabled) two_certificates.certificates.rows)
    × All (λ c. (get c.name (quiet two_certificates)).0 ≡ ok c) certificates
list-get_example = list-get two_certificates sound
