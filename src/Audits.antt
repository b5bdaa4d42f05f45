-- ===== src/Audits.antt =====
-- backend/database/repository/audit_repository.go: the audit log. The source's text search by LIKE
-- is SQLite's own and is left out.
pub mod Retention
pub mod Mutation
mod Examples
use cert_vault.Prelude.{
  ℕ, String, Bool, true, ◌&&◌, ◌||◌, Option, none, some, List, [], ◌∷◌, ltb, count_if,
}
use cert_vault.Prelude.Outcome.{Outcome, ok, err}
use cert_vault.Database.{Time, Database, AuditRow}
use cert_vault.Database.Exec.{Exec, pure, statement, write}
use cert_vault.Database.Rows.{insert, next_id, delete, on_rows}

abbrev pub new_audit : ℕ → Time → String → String → String → String → String → AuditRow
new_audit id now actor action resource detail ip = record {
  id = id;
  at = now;
  actor = actor;
  action = action;
  resource = resource;
  detail = detail;
  ip = ip;
}

-- `recordAudit`, which `Record` calls outside a transaction
unfoldable pub record_audit : Time → String → String → String → String → String → Exec (Unit {0})
record_audit now actor action resource detail ip = write (λ db. record db {
  audits = insert (new_audit (next_id db.audits) now actor action resource detail ip) db.audits;
})

pub record AuditMetadata : Type 0 where
  pub actor : String
  pub ip : String

-- `metadata` is variadic in the source, and only its first element is read.
unfoldable pub record_mutation_audit : Time → List AuditMetadata → String → String → Exec (Unit {0})
unfolding pure
record_mutation_audit now [] action resource = pure tt
record_mutation_audit now (m ∷ more) action resource =
    record_audit now m.actor action resource "" m.ip

unfoldable pub older : Time → AuditRow → Bool
older cutoff row = ltb row.at cutoff

-- the number of rows that are gone
unfoldable pub delete_before : Time → Exec ℕ
delete_before cutoff = statement (λ db. (
  ok (count_if (older cutoff) db.audits.rows),
  record db { audits = on_rows (delete (older cutoff)) db.audits },
))
