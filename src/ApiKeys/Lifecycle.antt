-- ===== src/ApiKeys/Lifecycle.antt =====
-- Revocation and deletion of API keys (backend/database/repository/api_key_repository.go).
use cert_vault.Prelude.{
  ℕ, String, ◌≡◌, ◌≢◌, refl, true, Option, some, List, [], ◌∷◌, arith, eqb, eqb_iff, All,
  Bool-cases, inl, inr,
}
use cert_vault.Prelude.Outcome.{ok}
use cert_vault.Database.{Time, Database, ApiKeyRow, AccessRow, Connection}
use cert_vault.Database.Exec.{pure, raise, ◌>>◌}
use cert_vault.Database.Rows.{
  first, update, delete, or_not_found, ok_or_not_found, first-fits, on_rows,
}
use cert_vault.Database.Returns.{
  at, Returns, Returns-query, Returns-bind, Returns-write, Returns-map, transaction-Returns,
  Returns-ok,
}
use cert_vault.Audits.{AuditMetadata, record_mutation_audit}
use cert_vault.Audits.Mutation.{SameTables, record_mutation_audit-SameTables}
use cert_vault.ApiKeys.{
  key_by_id, authenticate, revoke, revoke_body, as_revoked, delete_key, delete_body,
}
use cert_vault.ApiKeys.Authentication.{AreRevoked, authenticate-ne_revoked}

updated-AreRevoked :
    (id k : ℕ) (rows : List ApiKeyRow)
    → k ≡ id
    → All (λ r. r.id ≡ id → r.revoked ≡ true) (update (key_by_id k) as_revoked rows)
unfolding update key_by_id as_revoked
updated-AreRevoked id k [] e = tt
updated-AreRevoked id k (r ∷ rows) e = elim (Bool-cases (eqb r.id k)) [
  | inl same ↦ rw same ((λ _. refl), updated-AreRevoked id k rows e)
  | inr other ↦ rw other ((λ e'. absurd (ground arith)), updated-AreRevoked id k rows e)
]

found_id :
    (id : ℕ) (rows : List ApiKeyRow) (row : ApiKeyRow)
    → or_not_found (first (key_by_id id) rows) ≡ ok row
    → row.id ≡ id
found_id id rows row h =
    let fits = first-fits (key_by_id id) rows (ok_or_not_found (first (key_by_id id) rows) h) in
    (eqb_iff row.id id).0 (unfold key_by_id in fits)

abbrev revoked_db : ApiKeyRow → Database → Database
revoked_db row db = record db {
  api_keys = on_rows (update (key_by_id row.id) as_revoked) db.api_keys;
}

abbrev deleted_db : ApiKeyRow → Database → Database
deleted_db row db = record db {
  access = delete (λ a. eqb a.api_key_id row.id) db.access;
  api_keys = on_rows (delete (key_by_id row.id)) db.api_keys;
}

-- what an audit entry and the answer after it keep
audited-Returns :
    (P : Database → Type 0) (now : Time) (metadata : List AuditMetadata) (action name : String)
    (c : Connection)
    → ((db : Database) → SameTables db c.db → P db)
    → Returns (λ _. P) ((record_mutation_audit now metadata action name >> pure name) c)
unfolding ◌>>◌ pure
audited-Returns P now metadata action name c h =
    Returns-bind (λ _. P) (record_mutation_audit now metadata action name) _ c
      (Returns-map _ _ (record_mutation_audit now metadata action name c)
        (λ _ db same f₁. h db same) (record_mutation_audit-SameTables now metadata action name c))

module _ (sha256_hex : String → String) where
  revoke-AreRevoked :
      (id : ℕ) (now : Time) (metadata : List AuditMetadata) (c : Connection)
      → Returns (λ _. AreRevoked sha256_hex id) (revoke id now metadata c)
  unfolding revoke revoke_body
  revoke-AreRevoked id now metadata c =
      transaction-Returns (λ _. AreRevoked sha256_hex id) (revoke_body id now metadata) c
        (λ f₁.
          Returns-query (λ _. AreRevoked sha256_hex id) _ _ (at c.db f₁)
            (λ row f₂ found.
              Returns-write (λ _. AreRevoked sha256_hex id) _ _ (at c.db f₂)
                (λ f₃.
                  audited-Returns (AreRevoked sha256_hex id) now metadata "api_key.revoke" row.name
                    (at (revoked_db row c.db) f₃)
                    (λ db same. rw same.api_keys (
                      updated-AreRevoked id row.id c.db.api_keys.rows
                        (found_id id c.db.api_keys.rows row found))))))

  -- Revocation is immediate and lasts: once `Revoke` has succeeded for an id, no token, from
  -- whatever address and at whatever time, authenticates as the key of that id.
  pub authenticate-revoke :
      (id : ℕ) (before now : Time) (metadata : List AuditMetadata) (c : Connection) (name : String)
      (token ip : String) (faults : List (Option String))
      → (revoke id before metadata c).0 ≡ ok name
      → Returns
          (λ p _. p.key_id ≢ id)
          (authenticate sha256_hex token ip now (at (revoke id before metadata c).1.db faults))
  authenticate-revoke id before now metadata c name token ip faults done =
      let revoked =
        Returns-ok (λ _. AreRevoked sha256_hex id) (revoke id before metadata c) name
          (revoke-AreRevoked id before metadata c) done in
      authenticate-ne_revoked sha256_hex token ip now (at (revoke id before metadata c).1.db faults)
        id revoked

deleted_keys :
    (id k : ℕ) (rows : List ApiKeyRow) → k ≡ id → All (λ r. r.id ≢ id) (delete (key_by_id k) rows)
unfolding delete key_by_id
deleted_keys id k [] e = tt
deleted_keys id k (r ∷ rows) e = elim (Bool-cases (eqb r.id k)) [
  | inl same ↦ rw same (deleted_keys id k rows e)
  | inr other ↦ rw other ((λ e'. ground arith), deleted_keys id k rows e)
]

deleted_access :
    (id k : ℕ) (rows : List AccessRow)
    → k ≡ id
    → All (λ a. a.api_key_id ≢ id) (delete (λ a. eqb a.api_key_id k) rows)
unfolding delete
deleted_access id k [] e = tt
deleted_access id k (r ∷ rows) e = elim (Bool-cases (eqb r.api_key_id k)) [
  | inl same ↦ rw same (deleted_access id k rows e)
  | inr other ↦ rw other ((λ e'. ground arith), deleted_access id k rows e)
]

-- what a deletion that answers has found and done
abbrev pub IsDeletion : ℕ → Database → Database → Type 0
IsDeletion id before after =
    (row : ApiKeyRow) × (first (key_by_id id) before.api_keys.rows ≡ some row)
    × (row.revoked ≡ true)
    × All (λ r. r.id ≢ id) after.api_keys.rows
    × All (λ a. a.api_key_id ≢ id) after.access

-- A deletion that answers has found the key revoked, and leaves neither the key nor a row of its
-- certificate access.
pub delete_key-IsDeletion :
    (id : ℕ) (now : Time) (metadata : List AuditMetadata) (c : Connection)
    → Returns (λ _. IsDeletion id c.db) (delete_key id now metadata c)
unfolding delete_key delete_body raise
delete_key-IsDeletion id now metadata c =
    transaction-Returns (λ _. IsDeletion id c.db) (delete_body id now metadata) c
      (λ f₁.
        Returns-query (λ _. IsDeletion id c.db) _ _ (at c.db f₁)
          (λ row f₂ found. elim (Bool-cases row.revoked) [
            | inl revoked ↦ rw revoked (
                Returns-write (λ _. IsDeletion id c.db) _ _ (at c.db f₂)
                  (λ f₃.
                    Returns-write (λ _. IsDeletion id c.db) _ _ (at _ f₃)
                      (λ f₄.
                        audited-Returns (IsDeletion id c.db) now metadata "api_key.delete" row.name
                          (at (deleted_db row c.db) f₄)
                          (λ db same.
                            let e = found_id id c.db.api_keys.rows row found in
                            (
                              row,
                              ok_or_not_found (first (key_by_id id) c.db.api_keys.rows) found,
                              revoked,
                              rw same.api_keys (deleted_keys id row.id c.db.api_keys.rows e),
                              rw same.access (deleted_access id row.id c.db.access e),
                            )))))
            | inr active ↦ rw active tt
          ]))
