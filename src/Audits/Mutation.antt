-- ===== src/Audits/Mutation.antt =====
-- An audit entry within a mutation touches the audit log alone
-- (backend/database/repository/audit_repository.go).
use cert_vault.Prelude.{String, ◌≡◌, refl, List, [], ◌∷◌}
use cert_vault.Database.{Time, Database, Connection}
use cert_vault.Database.Returns.{Returns, write-Returns}
use cert_vault.Audits.{AuditMetadata, record_audit, record_mutation_audit}

-- all tables but the audit log are equal
pub record SameTables (a b : Database) : Type 0 where
  pub certificates : a.certificates ≡ b.certificates
  pub versions : a.versions ≡ b.versions
  pub jobs : a.jobs ≡ b.jobs
  pub api_keys : a.api_keys ≡ b.api_keys
  pub access : a.access ≡ b.access

pub record_mutation_audit-SameTables :
    (now : Time) (metadata : List AuditMetadata) (action resource : String) (c : Connection)
    → Returns (λ _ db. SameTables db c.db) (record_mutation_audit now metadata action resource c)
unfolding record_mutation_audit record_audit
record_mutation_audit-SameTables now [] action resource c = record {
  certificates = refl;
  versions = refl;
  jobs = refl;
  api_keys = refl;
  access = refl;
}
record_mutation_audit-SameTables now (m ∷ more) action resource c =
    write-Returns (λ _ db. SameTables db c.db) _ c
      (record { certificates = refl; versions = refl; jobs = refl; api_keys = refl; access = refl })
