-- ===== src/ApiKeys/Authentication.antt =====
-- Which tokens authenticate (backend/database/repository/api_key_repository.go).
use cert_vault.Prelude.{
  ℕ, String, ◌≡◌, ◌≢◌, ◌≤◌, ◌⊎◌, ◌↔◌, ◌∙◌, refl, true, false, Option, none, some, List, [], ◌∷◌,
  arith, eqb, eq_iff, All, Bool-cases, inl, inr, sym, IsIn, select,
}
use cert_vault.Prelude.Outcome.{Outcome, ok, err}
use cert_vault.Database.{Time, Database, ApiKeyRow, AccessRow, Connection, Error, quiet}
use cert_vault.Database.Exec.{raise, query, pure, statement, attempt, continue, write, ◌>>=◌, ◌>>◌}
use cert_vault.Database.Rows.{first, or_not_found, ok_or_not_found, first-All, first-fits}
use cert_vault.Database.Returns.{
  at, Returns, Returns-query, Returns-bind, Returns-then_pure, query-Returns, Returns-map,
}
use cert_vault.ApiKeys.{
  Principal, key_by_prefix, refused, expired, update_usage, principal_of, certificate_names,
  sort_strings, preload_certificates, preload_access, first_key, check_key, find_key,
  authenticate_parts, authenticate, invalid_if_err, stale, ignore_error,
}
use cert_vault.ApiKeys.Holder.{IsPrincipalOf, AreNamesOf, principal_of-IsPrincipalOf, first-IsIn}
use cert_vault.ApiKeys.Split.{split_dots}

module _ (sha256_hex : String → String) where
  -- the key that a token stands for, at a time
  pub record IsKeyOf (token : String) (now : Time) (db : Database) (row : ApiKeyRow) : Type 0 where
    pub prefix : String
    pub secret : String
    pub parts : split_dots token ≡ prefix ∷ secret ∷ []
    pub stored : first (key_by_prefix prefix) db.api_keys.rows ≡ some row
    pub hashed : row.secret_hash ≡ sha256_hex token
    pub active : row.revoked ≡ false
    pub current : (t : Time) → row.expires_at ≡ some t → now ≤ t

  abbrev pub IsAuthentic : String → Time → Database → Principal → Type 0
  IsAuthentic token now db p =
      (row : ApiKeyRow) × (key : IsKeyOf token now db row) × IsIn row db.api_keys.rows
      × ((key.prefix ≡ "") ⊎ (row.prefix ≡ key.prefix))
      × IsPrincipalOf db row p

  abbrev IsFound : Database → String → ApiKeyRow × List String → Type 0
  IsFound db prefix found =
      (first (key_by_prefix prefix) db.api_keys.rows ≡ some found.0)
      × AreNamesOf sha256_hex db found.0 found.1

  invalid_if_err-Returns :
      {A : Type 0} (Q : A → Database → Type 0) (r : Outcome Error A × Connection)
      → Returns Q r
      → Returns Q (invalid_if_err sha256_hex r)
  invalid_if_err-Returns Q (ok a, c) h = h
  invalid_if_err-Returns Q (err e, c) h = tt

  preload_certificates-Returns :
      (rows : List AccessRow) (c : Connection)
      → Returns
          (λ names _. names ≡ certificate_names sha256_hex rows c.db)
          (preload_certificates sha256_hex rows c)
  unfolding preload_certificates pure certificate_names sort_strings
  preload_certificates-Returns [] c = refl
  preload_certificates-Returns (a ∷ rows) c = query-Returns _ _ c (λ names e. cc)

  first_key-Returns :
      (prefix : String) (c : Connection)
      → Returns (λ found _. IsFound c.db prefix found) (first_key sha256_hex prefix c)
  unfolding first_key preload_access pure
  first_key-Returns prefix c =
      Returns-query (λ found _. IsFound c.db prefix found) _ _ c
        (λ row f₁ found.
          Returns-query (λ found _. IsFound c.db prefix found) _ _ (at c.db f₁)
            (λ rows f₂ own.
              Returns-bind (λ found _. IsFound c.db prefix found)
                (preload_certificates sha256_hex rows) _ (at c.db f₂)
                (Returns-map _ _ (preload_certificates sha256_hex rows (at c.db f₂))
                  (λ names db image f₃.
                    (ok_or_not_found (first (key_by_prefix prefix) c.db.api_keys.rows) found, cc))
                  (preload_certificates-Returns rows (at c.db f₂)))))

  not_expired :
      (o : Option Time) (now : Time)
      → (expired sha256_hex o now ≡ false) ↔ ((t : Time) → o ≡ some t → now ≤ t)
  not_expired none now = ((λ h t e. absurd (cc)), (λ h. refl))
  not_expired (some u) now =
      ((λ h t e. let same : u ≡ t = cc in ground arith), (λ h. let fits = h u refl in ground arith))

  passed_key :
      (prefix secret token : String) (now : Time) (db : Database) (row : ApiKeyRow)
      → split_dots token ≡ prefix ∷ secret ∷ []
      → first (key_by_prefix prefix) db.api_keys.rows ≡ some row
      → refused sha256_hex row token now ≡ false
      → IsKeyOf token now db row
  unfolding refused
  passed_key prefix secret token now db row split found passed = record {
    prefix = prefix;
    secret = secret;
    parts = split;
    stored = found;
    hashed = ground (arith, eq_iff row.secret_hash (sha256_hex token));
    active = ground arith;
    current = (not_expired row.expires_at now).0 (ground arith);
  }

  fits_prefix :
      (prefix : String) (row : ApiKeyRow)
      → key_by_prefix prefix row ≡ true
      → (prefix ≡ "") ⊎ (row.prefix ≡ prefix)
  unfolding key_by_prefix
  fits_prefix prefix row h = ground (arith, eq_iff prefix "", eq_iff row.prefix prefix)

  check_key-Returns :
      (prefix secret token ip : String) (now : Time) (row : ApiKeyRow) (names : List String)
      (db : Database) (c : Connection)
      → split_dots token ≡ prefix ∷ secret ∷ []
      → IsFound db prefix (row, names)
      → Returns
          (λ p _. IsAuthentic token now db p)
          (check_key sha256_hex token ip now (row, names) c)
  unfolding check_key raise
  check_key-Returns prefix secret token ip now row names db c split (found, image) =
      elim (Bool-cases (refused sha256_hex row token now)) [
        | inl denied ↦ rw denied tt
        | inr passed ↦
            let key = passed_key prefix secret token now db row split found passed in
            rw passed (
              Returns-then_pure (IsAuthentic token now db) (update_usage sha256_hex row now ip)
                (principal_of sha256_hex row names) c
                (
                  row,
                  key,
                  first-IsIn (key_by_prefix prefix) db.api_keys.rows row found,
                  fits_prefix key.prefix row
                      (first-fits (key_by_prefix key.prefix) db.api_keys.rows key.stored),
                  principal_of-IsPrincipalOf sha256_hex db row names image,
                ))
      ]

  parts-Returns :
      (parts : List String) (token ip : String) (now : Time) (c : Connection)
      → split_dots token ≡ parts
      → Returns
          (λ p _. IsAuthentic token now c.db p)
          (authenticate_parts sha256_hex parts token ip now c)
  unfolding authenticate_parts raise find_key
  parts-Returns (prefix ∷ secret ∷ []) token ip now c split =
      Returns-bind (λ p _. IsAuthentic token now c.db p) (find_key sha256_hex prefix) _ c
        (invalid_if_err-Returns _ (first_key sha256_hex prefix c) (
          Returns-map _ _ (first_key sha256_hex prefix c)
            (λ found db known faults.
              check_key-Returns prefix secret token ip now found.0 found.1 c.db (at db faults) split
                known)
            (first_key-Returns prefix c)))
  parts-Returns [] token ip now c split = tt
  parts-Returns (a ∷ []) token ip now c split = tt
  parts-Returns (a ∷ b ∷ d ∷ more) token ip now c split = tt

  -- Whatever statements fail, a token authenticates only as a stored key that its hash fits, whose
  -- prefix is the token's first part (an empty first part fits the first key), while that key is
  -- neither revoked nor expired; and then with the id, the name, the scopes and the flag of that
  -- key, and the names of exactly the certificates that the key has been given access to.
  pub authenticate-IsAuthentic :
      (token ip : String) (now : Time) (c : Connection)
      → Returns (λ p _. IsAuthentic token now c.db p) (authenticate sha256_hex token ip now c)
  unfolding authenticate
  authenticate-IsAuthentic token ip now c = parts-Returns (split_dots token) token ip now c refl

  -- every key with the id is revoked
  abbrev pub AreRevoked : ℕ → Database → Type 0
  AreRevoked id db = All (λ r. r.id ≡ id → r.revoked ≡ true) db.api_keys.rows

  -- No token authenticates as a key whose id is revoked.
  pub authenticate-ne_revoked :
      (token ip : String) (now : Time) (c : Connection) (id : ℕ)
      → AreRevoked id c.db
      → Returns (λ p _. p.key_id ≢ id) (authenticate sha256_hex token ip now c)
  authenticate-ne_revoked token ip now c id h =
      Returns-map (λ p _. IsAuthentic token now c.db p) (λ p _. p.key_id ≢ id)
        (authenticate sha256_hex token ip now c)
        (λ p db authentic same.
          let (row, key, member, fits, image) = authentic in
          let revoked =
            first-All (λ r. r.id ≡ id → r.revoked ≡ true) (key_by_prefix key.prefix)
              c.db.api_keys.rows row h key.stored in
          let e : row.id ≡ id = sym image.key_id ∙ same in cc (revoked e, key.active))
        (authenticate-IsAuthentic token ip now c)

  accepted :
      (token : String) (now : Time) (db : Database) (row : ApiKeyRow)
      → IsKeyOf token now db row
      → refused sha256_hex row token now ≡ false
  unfolding refused
  accepted token now db row key =
      let current = (not_expired row.expires_at now).1 key.current in
      ground (arith, key.hashed, key.active, current, eq_iff row.secret_hash (sha256_hex token))

  preload_certificates-quiet :
      (rows : List AccessRow) (db : Database)
      → preload_certificates sha256_hex rows (quiet db)
        ≡ (ok (certificate_names sha256_hex rows db), quiet db)
  unfolding preload_certificates query statement attempt pure certificate_names sort_strings
  preload_certificates-quiet [] db = refl
  preload_certificates-quiet (a ∷ rows) db = refl

  authenticate-quiet :
      (token ip : String) (now : Time) (db : Database) (row : ApiKeyRow)
      → IsKeyOf token now db row
      → (authenticate sha256_hex token ip now (quiet db)).0
        ≡ ok (
            principal_of sha256_hex row
              (certificate_names sha256_hex (select (λ a. eqb a.api_key_id row.id) db.access) db))
  unfolding authenticate authenticate_parts find_key first_key preload_access check_key query
      or_not_found update_usage ignore_error write statement attempt continue ◌>>=◌ ◌>>◌ pure
  authenticate-quiet token ip now db row key = rw key.parts (
      rw key.stored (
        rw (preload_certificates-quiet (select (λ a. eqb a.api_key_id row.id) db.access) db) (
          rw (accepted token now db row key)
            (elim (Bool-cases (stale sha256_hex row.last_used_at now)) [
              | inl old ↦ rw old refl
              | inr recent ↦ rw recent refl
            ]))))

  -- Where no statement fails, the token of a key that is neither revoked nor expired, and the first
  -- that fits the token's first part, authenticates: with the id, the name, the scopes and the flag
  -- of that key, and the names of exactly the certificates that the key has been given access to.
  pub authenticate-IsKeyOf :
      (token ip : String) (now : Time) (db : Database) (row : ApiKeyRow)
      → IsKeyOf token now db row
      → (p : Principal) × ((authenticate sha256_hex token ip now (quiet db)).0 ≡ ok p)
        × IsPrincipalOf db row p
  authenticate-IsKeyOf token ip now db row key =
      let names =
        certificate_names sha256_hex (select (λ a. eqb a.api_key_id row.id) db.access) db in
      (
        principal_of sha256_hex row names,
        authenticate-quiet token ip now db row key,
        principal_of-IsPrincipalOf sha256_hex db row names refl,
      )
