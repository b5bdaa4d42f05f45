-- ===== src/Audits/Examples.antt =====
-- The retention on a small audit log.
use cert_vault.Prelude.{ℕ, ◌+◌, ◌≡◌, [], ◌∷◌, arith, length, leb, select}
use cert_vault.Prelude.Outcome.{ok}
use cert_vault.Database.{Database, quiet, no_database}
use cert_vault.Audits.{new_audit, delete_before}
use cert_vault.Audits.Retention.{delete_before_lem}

abbrev three_events : Database
three_events = record no_database {
  audits = record {
    rows =
        new_audit 1 10 "cli" "api_key.create" "a" "" "local"
        ∷ new_audit 2 20 "web" "login" "b" "" "10.0.0.1"
        ∷ new_audit 3 30 "web" "login" "c" "" "10.0.0.2"
        ∷ [];
    seq = 3;
  };
}

delete_before_lem_example :
    let after = (delete_before 15 (quiet three_events)).1.db in
    (after.audits.rows ≡ select (λ r. leb 15 r.at) three_events.audits.rows)
    × ((n : ℕ) × ((delete_before 15 (quiet three_events)).0 ≡ ok n)
        × (length after.audits.rows + n ≡ length three_events.audits.rows))
    × ((delete_before 25 (quiet after)).1.db ≡ (delete_before 25 (quiet three_events)).1.db)
delete_before_lem_example = delete_before_lem 15 25 three_events (omega arith)
