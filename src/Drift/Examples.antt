-- ===== src/Drift/Examples.antt =====
-- A certificate whose version was issued for the same names in another order.
use cert_vault.Prelude.{
  String, ◌≡◌, ◌≢◌, ◌↔◌, refl, ℕ, pos, false, Option, none, some, [], ◌∷◌, contains,
}
use cert_vault.Prelude.Outcome.{Outcome, ok}
use cert_vault.Config.Texts.{to_lower}
use cert_vault.Certificates.{Certificate, Version}
use cert_vault.Artifacts.{Bytes, Block}
use cert_vault.Drift.{PublicKey, ecdsa, configuration_drift, key_type_of, same_domains}
use cert_vault.Drift.Domains.{AreSame}
use cert_vault.Drift.InSync.{configuration_drift_iff}

abbrev issued : Version
issued = record {
  key_type = "";
  id = 1;
  certificate_name = "site";
  path = "p";
  serial = "1";
  issuer = "ca";
  fingerprint_sha256 = "f";
  not_before = 0;
  not_after = 100;
  created_at = 0;
  domains = "B.example.com" ∷ "a.example.com" ∷ [];
}

abbrev site : Certificate
site = record {
  name = "site";
  domains = "a.example.com" ∷ "b.example.com" ∷ "A.example.com" ∷ [];
  key_type = "ec256";
  status = "valid";
  renew_before_seconds = pos 10;
  current_version = some issued;
  last_error = "";
  latest_job = none;
}

abbrev read_file : Version → String → Outcome String Bytes
read_file v name = ok (1 ∷ [])

abbrev decode : Bytes → Option (Block × Bytes)
decode bytes = some (record { kind = "CERTIFICATE"; headers = 0; bytes = bytes }, [])

abbrev parse_key : Bytes → Outcome String PublicKey
parse_key bytes = ok (ecdsa 256)

abbrev no_decimal : ℕ → String
no_decimal n = ""

site_in_sync : configuration_drift read_file decode parse_key no_decimal site ≡ ok false
unfolding configuration_drift same_domains to_lower contains
site_in_sync = refl

configuration_drift_iff_example :
    (configuration_drift read_file decode parse_key no_decimal site ≡ ok false) ↔ (
      AreSame site.domains issued.domains
      × (key_type_of read_file decode parse_key no_decimal issued ≡ ok "ec256")
      × (◌≢◌ {A = String} "ec256" ""))
configuration_drift_iff_example =
    configuration_drift_iff read_file decode parse_key no_decimal site issued refl
