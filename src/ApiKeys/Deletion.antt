-- ===== src/ApiKeys/Deletion.antt =====
-- Every answer of a deletion of an API key, where no statement fails
-- (backend/database/repository/api_key_repository.go).
use mathlib.Core.Path.{subst}
use cert_vault.Prelude.{
  ℕ, ◌≡◌, ◌≢◌, ◌⊎◌, ◌↔◌, refl, Bool, true, false, Option, none, some, List, [], ◌∷◌, arith, eqb,
  eqb_iff, All, Bool-cases, inl, inr, sym, IsIn,
}
use cert_vault.Prelude.Outcome.{ok, err}
use cert_vault.Database.{
  Time, Database, ApiKeyRow, AccessRow, quiet, not_found, api_key_not_revoked,
}
use cert_vault.Database.Exec.{pure, raise, query, write, statement, transaction, ◌>>=◌, ◌>>◌}
use cert_vault.Database.Rows.{first, delete, or_not_found, first-fits}
use cert_vault.Audits.{AuditMetadata, record_audit, record_mutation_audit}
use cert_vault.ApiKeys.{key_by_id, delete_key, delete_body, delete_revoked}
use cert_vault.ApiKeys.Holder.{first-IsIn}

IsIn-delete :
    {R : Type 0} (p : R → Bool) (r : R) (rows : List R)
    → IsIn r (delete p rows) ↔ (IsIn r rows × (p r ≡ false))
unfolding delete
IsIn-delete p r [] = ((λ h. absurd h), (λ h. absurd h.0))
IsIn-delete p r (x ∷ rows) =
    let ih = IsIn-delete p r rows in
    elim (Bool-cases (p x)) [
      | inl gone ↦ rw gone (
        (λ h. let (member, e) = ih.0 h in (inr member, e)),
        (λ h. elim h.0 [
          | inl e ↦
              let same : p r ≡ true = subst (λ k. p k ≡ true) e gone in absurd (cc (same, h.1))
          | inr later ↦ ih.1 (later, h.1)
        ]),
      )
      | inr kept ↦ rw kept (
        (λ h. elim h [
          | inl e ↦ (inl e, subst (λ k. p k ≡ false) e kept)
          | inr later ↦ let (member, e) = ih.0 later in (inr member, e)
        ]),
        (λ h. elim h.0 [ inl e ↦ inl e | inr later ↦ inr (ih.1 (later, h.1)) ]),
      )
    ]

eqb_ne : (a b : ℕ) → (eqb a b ≡ false) ↔ (a ≢ b)
eqb_ne a b = (
  (λ h e. ground arith),
  (λ h. elim (Bool-cases (eqb a b)) [
    | inl same ↦ absurd (h ((eqb_iff a b).0 same))
    | inr other ↦ other
  ]),
)

other_keys :
    (id k : ℕ) (rows : List ApiKeyRow)
    → k ≡ id
    → (r : ApiKeyRow) → IsIn r (delete (key_by_id k) rows) ↔ (IsIn r rows × (r.id ≢ id))
unfolding key_by_id
other_keys id k rows e r =
    let member = IsIn-delete (key_by_id k) r rows in
    let other = eqb_ne r.id k in
    (
      (λ h. let (stored, test) = member.0 h in (stored, subst (λ n. r.id ≢ n) e (other.0 test))),
      (λ h. member.1 (h.0, other.1 (subst (λ n. r.id ≢ n) (sym e) h.1))),
    )

other_access :
    (id k : ℕ) (rows : List AccessRow)
    → k ≡ id
    → (a : AccessRow)
    → IsIn a (delete (λ a. eqb a.api_key_id k) rows) ↔ (IsIn a rows × (a.api_key_id ≢ id))
other_access id k rows e a =
    let member = IsIn-delete (λ (a : AccessRow). eqb a.api_key_id k) a rows in
    let other = eqb_ne a.api_key_id k in
    (
      (λ h.
          let (stored, test) = member.0 h in
          (stored, subst (λ n. a.api_key_id ≢ n) e (other.0 test))),
      (λ h. member.1 (h.0, other.1 (subst (λ n. a.api_key_id ≢ n) (sym e) h.1))),
    )

missing :
    (id : ℕ) (rows : List ApiKeyRow) → first (key_by_id id) rows ≡ none → All (λ r. r.id ≢ id) rows
unfolding first key_by_id
missing id [] h = tt
missing id (r ∷ rows) h = elim (Bool-cases (eqb r.id id)) [
  | inl fits ↦ absurd (let e = (rw fits at h) in cc)
  | inr other ↦ ((eqb_ne r.id id).0 other, missing id rows (rw other at h))
]

module _ (id : ℕ) (now : Time) (metadata : List AuditMetadata) (db : Database) where
  delete_key_missing :
      first (key_by_id id) db.api_keys.rows ≡ none
      → delete_key id now metadata (quiet db) ≡ (err not_found, quiet db)
  unfolding delete_key delete_body transaction query write statement or_not_found ◌>>=◌ ◌>>◌ pure
      raise
  delete_key_missing h = rw h refl

  module _ (row : ApiKeyRow) (found : first (key_by_id id) db.api_keys.rows ≡ some row) where
    delete_key_active :
        row.revoked ≡ false
        → delete_key id now metadata (quiet db) ≡ (err api_key_not_revoked, quiet db)
    unfolding delete_key delete_body delete_revoked transaction query write statement or_not_found
        ◌>>=◌ ◌>>◌ pure raise
    delete_key_active active = rw (found, active) refl

delete_key_revoked :
    (id : ℕ) (now : Time) (metadata : List AuditMetadata) (db : Database) (row : ApiKeyRow)
    → first (key_by_id id) db.api_keys.rows ≡ some row
    → row.revoked ≡ true
    → ((delete_key id now metadata (quiet db)).0 ≡ ok row.name)
      × ((delete_key id now metadata (quiet db)).1.db.api_keys.rows
          ≡ delete (key_by_id row.id) db.api_keys.rows)
      × ((delete_key id now metadata (quiet db)).1.db.access
          ≡ delete (λ a. eqb a.api_key_id row.id) db.access)
unfolding delete_key delete_body delete_revoked transaction query write statement or_not_found ◌>>=◌
    ◌>>◌ pure raise record_mutation_audit record_audit
delete_key_revoked id now [] db row found revoked = rw (found, revoked) (refl, refl, refl)
delete_key_revoked id now (m ∷ more) db row found revoked = rw (found, revoked) (refl, refl, refl)

-- of the keys and their certificate access, exactly those of the id are gone
abbrev pub IsWithout : ℕ → Database → Database → Type 0
IsWithout id before after =
    ((r : ApiKeyRow) → IsIn r after.api_keys.rows ↔ (IsIn r before.api_keys.rows × (r.id ≢ id)))
    × ((a : AccessRow) → IsIn a after.access ↔ (IsIn a before.access × (a.api_key_id ≢ id)))

-- the answer to an id that no key has, to that of an active key and to that of a revoked one
abbrev pub Answers : ℕ → Time → List AuditMetadata → Database → Type 0
Answers id now metadata db =
    (All (λ r. r.id ≢ id) db.api_keys.rows
      × (delete_key id now metadata (quiet db) ≡ (err not_found, quiet db)))
    ⊎ ((row : ApiKeyRow) × IsIn row db.api_keys.rows
        × (row.id ≡ id)
        × (((row.revoked ≡ false)
              × (delete_key id now metadata (quiet db) ≡ (err api_key_not_revoked, quiet db)))
            ⊎ ((row.revoked ≡ true)
                × ((delete_key id now metadata (quiet db)).0 ≡ ok row.name)
                × IsWithout id db (delete_key id now metadata (quiet db)).1.db)))

same_id :
    (id : ℕ) (rows : List ApiKeyRow) (row : ApiKeyRow)
    → first (key_by_id id) rows ≡ some row
    → row.id ≡ id
unfolding key_by_id
same_id id rows row found = (eqb_iff row.id id).0 (first-fits (key_by_id id) rows found)

found-Answers :
    (id : ℕ) (now : Time) (metadata : List AuditMetadata) (db : Database) (row : ApiKeyRow)
    → first (key_by_id id) db.api_keys.rows ≡ some row
    → Answers id now metadata db
found-Answers id now metadata db row e =
    let own = same_id id db.api_keys.rows row e in
    inr (
      row,
      first-IsIn (key_by_id id) db.api_keys.rows row e,
      own,
      elim (Bool-cases row.revoked) [
        | inl revoked ↦
            let (answer, keys, access) = delete_key_revoked id now metadata db row e revoked in
            inr (
              revoked,
              answer,
              (
                rw keys (other_keys id row.id db.api_keys.rows own),
                rw access (other_access id row.id db.access own),
              ),
            )
        | inr active ↦ inl (active, delete_key_active id now metadata db row e active)
      ],
    )

key-Answers :
    (id : ℕ) (now : Time) (metadata : List AuditMetadata) (db : Database) (o : Option ApiKeyRow)
    → first (key_by_id id) db.api_keys.rows ≡ o
    → Answers id now metadata db
key-Answers id now metadata db none e =
    inl (missing id db.api_keys.rows e, delete_key_missing id now metadata db e)
key-Answers id now metadata db (some row) e = found-Answers id now metadata db row e

-- Where no statement fails, a deletion has one of three answers: for an id that no key has, that
-- there is no record, and nothing has changed; for a key that is active, that it is not revoked,
-- and nothing has changed; for a revoked key its name, and of the keys and the rows of their
-- certificate access exactly those of the id are gone.
pub delete_key-Answers :
    (id : ℕ) (now : Time) (metadata : List AuditMetadata) (db : Database)
    → Answers id now metadata db
delete_key-Answers id now metadata db =
    key-Answers id now metadata db (first (key_by_id id) db.api_keys.rows) refl
