-- ===== src/ApiKeys.antt =====
-- backend/database/repository/api_key_repository.go and `Principal` of models.go. What the source
-- takes from crypto/rand (`prefix`, `secret`) and from crypto/sha256 (`sha256_hex`) are arguments.
pub mod Split
pub mod Access
pub mod Holder
pub mod Authentication
pub mod Lifecycle
pub mod Deletion
mod Examples
use mathlib.Core.Option
use Prim.Native.Nat.{Ordering}
use Prim.Native.String.{compare}
use cert_vault.Prelude.{
  ℕ, ◌+◌, String, Bool, true, false, not, ◌&&◌, ◌||◌, Option, none, some, List, [], ◌∷◌, map, ltb,
  eqb, ◌==◌, if◌then◌else◌, contains, select, any,
}
use cert_vault.Prelude.Outcome.{Outcome, ok, err}
use cert_vault.Database.{
  Time, minute, Database, ApiKeyRow, AccessRow, CertificateRow, Error, duplicated_key, not_found,
  invalid_api_key, api_key_not_revoked, certificate_does_not_exist, Connection,
}
use cert_vault.Database.Exec.{Exec, pure, raise, statement, query, write, transaction, ◌>>=◌, ◌>>◌}
use cert_vault.Database.Rows.{first, update, delete, insert, next_id, on_rows, or_not_found}
use cert_vault.Database.Find.{find_certificate, certificate_name}
use cert_vault.Audits.{AuditMetadata, record_mutation_audit}
use Split.{split_dots}

pub record Principal : Type 0 where
  pub key_id : ℕ
  pub name : String
  pub scopes : List String
  pub certificates : List String
  pub all_certificates : Bool

-- `Principal.Allows`
unfoldable pub allows : Principal → String → String → Bool
allows p scope certificate =
    if not (contains p.scopes scope) && not (contains p.scopes "*")
    then false
    else certificate == "" || p.all_certificates || contains p.certificates certificate

abbrev text_le : String → String → Bool
text_le a b = elim (compare a b) [ Ordering.gt ↦ false | _ ↦ true ]

pub insert_sorted : String → List String → List String
insert_sorted a [] = a ∷ []
insert_sorted a (b ∷ rest) =
    let later = insert_sorted a rest in if text_le a b then a ∷ b ∷ rest else b ∷ later

-- `sort.Strings`
unfoldable pub sort_strings : List String → List String
unfolding insert_sorted
sort_strings [] = []
sort_strings (a ∷ rest) = insert_sorted a (sort_strings rest)

-- The loop of `normalizeCertificateAccess`; `none` where it meets "*".
unfoldable pub unique_names : List String → List String → Option (List String)
unique_names seen [] = some seen
unique_names seen (certificate ∷ certificates) =
    let rest =
      unique_names (if contains seen certificate then seen else certificate ∷ seen) certificates in
    if certificate == "*" then none else rest

abbrev access_of : Option (List String) → Bool × List String
access_of none = (true, [])
access_of (some names) = (false, sort_strings names)

unfoldable pub normalize_certificate_access : List String → Bool × List String
unfolding unique_names sort_strings
normalize_certificate_access certificates = access_of (unique_names [] certificates)

unfoldable pub key_by_prefix : String → ApiKeyRow → Bool
key_by_prefix prefix row = prefix == "" || row.prefix == prefix

unfoldable pub key_by_id : ℕ → ApiKeyRow → Bool
key_by_id id row = eqb row.id id

-- `prefix` has a unique index.
unfoldable pub create_key : ApiKeyRow → Database → Outcome Error ApiKeyRow × Database
create_key row db =
    if any (λ r. r.prefix == row.prefix) db.api_keys.rows
    then (err duplicated_key, db)
    else (ok row, record db { api_keys = insert row db.api_keys })

-- The two columns are the primary key.
unfoldable pub create_access : AccessRow → Database → Outcome Error Unit × Database
create_access row db =
    if any (λ r. eqb r.api_key_id row.api_key_id && eqb r.certificate_id row.certificate_id)
      db.access
    then (err duplicated_key, db)
    else (ok tt, record db { access = row ∷ db.access })

-- one round of the loop over the names
pub name_not_found :
    String → Outcome Error CertificateRow × Connection → Outcome Error CertificateRow × Connection
name_not_found name (err not_found, c) = (err (certificate_does_not_exist name), c)
name_not_found name (r, c) = (r, c)

pub find_for_access : String → Exec CertificateRow
unfolding name_not_found
find_for_access name c = name_not_found name (find_certificate name c)

unfoldable pub grant : ℕ → List String → Exec (Unit {0})
unfolding find_for_access
grant key [] = pure tt
grant key (name ∷ names) = do
  certificate ← find_for_access name
  statement (create_access (record { api_key_id = key; certificate_id = certificate.id }))
  grant key names

-- `APIKey` of models.go
pub record ApiKey : Type 0 where
  pub id : ℕ
  pub name : String
  pub prefix : String
  pub scopes : List String
  pub certificates : List String
  pub created_at : Time
  pub last_used_at : Option Time
  pub last_used_ip : String
  pub expires_at : Option Time
  pub revoked : Bool

abbrev dot : String → String → String
dot a b = Prim.Native.String.◌++◌ a (Prim.Native.String.◌++◌ "." b)

module _ (sha256_hex : String → String) where
  -- the row before it has an id
  abbrev pub new_key :
      ℕ → String → String → String → List String → Bool → Time → Option Time → ApiKeyRow
  new_key id name prefix token scopes all now expires = record {
    id = id;
    name = name;
    prefix = prefix;
    secret_hash = sha256_hex token;
    scopes = scopes;
    all_certificates = all;
    created_at = now;
    last_used_at = none;
    last_used_ip = "";
    expires_at = expires;
    revoked = false;
  }

  unfoldable pub create_body :
      String
      → String
      → String
      → List String
      → Bool × List String
      → Time
      → Option Time
      → List AuditMetadata
      → Exec ApiKeyRow
  create_body name prefix token scopes (all, names) now expires metadata = do
    model ← statement (λ db.
        create_key (new_key (next_id db.api_keys) name prefix token scopes all now expires) db)
    grant model.id names
    record_mutation_audit now metadata "api_key.create" model.name
    pure model

  abbrev visible : Bool × List String → List String
  visible (true, names) = "*" ∷ []
  visible (false, names) = names

  -- `prefix_hex` is the hexadecimal text of five random bytes, `secret` the base64 text of 32.
  unfoldable pub create :
      String
      → String
      → String
      → List String
      → List String
      → Time
      → Option Time
      → List AuditMetadata
      → Exec (ApiKey × String)
  create prefix_hex secret name scopes certificates now expires metadata =
      let prefix = Prim.Native.String.◌++◌ "cv_live_" prefix_hex in
      let token = dot prefix secret in
      let access = normalize_certificate_access certificates in
      do
        model ← transaction (create_body name prefix token scopes access now expires metadata)
        pure (
          record {
            id = model.id;
            name = name;
            prefix = prefix;
            scopes = scopes;
            certificates = visible access;
            created_at = now;
            last_used_at = none;
            last_used_ip = "";
            expires_at = expires;
            revoked = false;
          },
          token,
        )

  -- `ExpiresAt.Before(now)`
  abbrev pub expired : Option Time → Time → Bool
  expired none now = false
  expired (some t) now = ltb t now

  -- the refusal after the key has been found
  unfoldable pub refused : ApiKeyRow → String → Time → Bool
  refused row token now =
      not (row.secret_hash == sha256_hex token) || row.revoked || expired row.expires_at now

  -- not used within the last minute: `LastUsedAt == nil || !LastUsedAt.After(now - 1m)`
  abbrev pub stale : Option Time → Time → Bool
  stale none now = true
  stale (some t) now = not (ltb now (t + minute))

  unfoldable pub sample_usage : ℕ → Time → String → Database → Database
  sample_usage id now ip db = record db {
    api_keys =
        on_rows
          (update (λ r. eqb r.id id && stale r.last_used_at now)
            (λ r. record r { last_used_at = some now; last_used_ip = ip }))
          db.api_keys;
  }

  -- a failure to write the usage is only logged
  pub ignore_error : Outcome Error (Unit {0}) × Connection → Outcome Error (Unit {0}) × Connection
  ignore_error (r, c) = (ok tt, c)

  pub update_usage : ApiKeyRow → Time → String → Exec (Unit {0})
  unfolding ignore_error
  update_usage row now ip =
      if stale row.last_used_at now
      then (λ c. ignore_error (write (sample_usage row.id now ip) c))
      else pure tt

  pub principal_of : ApiKeyRow → List String → Principal
  principal_of row certificates = record {
    key_id = row.id;
    name = row.name;
    scopes = row.scopes;
    certificates = certificates;
    all_certificates = row.all_certificates;
  }

  abbrev pub invalid_if_err :
      {A : Type 0} → Outcome Error A × Connection → Outcome Error A × Connection
  invalid_if_err (ok a, c) = (ok a, c)
  invalid_if_err (err e, c) = (err invalid_api_key, c)

  -- `certificateNames`, on the rows that `Preload("CertificateAccess.Certificate")` brings in
  unfoldable pub certificate_names : List AccessRow → Database → List String
  certificate_names rows db = sort_strings (map (λ a. certificate_name db a.certificate_id) rows)

  -- the second statement of the preload, which an empty list does not need
  pub preload_certificates : List AccessRow → Exec (List String)
  preload_certificates [] = pure []
  preload_certificates (a ∷ rows) = query (λ db. ok (certificate_names (a ∷ rows) db))

  pub preload_access : ApiKeyRow → Exec (ApiKeyRow × List String)
  unfolding preload_certificates
  preload_access row = do
    rows ← query (λ db. ok (select (λ a. eqb a.api_key_id row.id) db.access))
    names ← preload_certificates rows
    pure (row, names)

  pub first_key : String → Exec (ApiKeyRow × List String)
  unfolding preload_access
  first_key prefix = do
    row ← query (λ db. or_not_found (first (key_by_prefix prefix) db.api_keys.rows))
    preload_access row

  pub find_key : String → Exec (ApiKeyRow × List String)
  unfolding first_key
  find_key prefix c = invalid_if_err (first_key prefix c)

  pub check_key : String → String → Time → ApiKeyRow × List String → Exec Principal
  unfolding update_usage principal_of
  check_key token ip now (row, certificates) =
      if refused row token now
      then raise invalid_api_key
      else (do update_usage row now ip; pure (principal_of row certificates))

  pub authenticate_parts : List String → String → String → Time → Exec Principal
  unfolding find_key check_key
  authenticate_parts (prefix ∷ secret ∷ []) token ip now = do
    found ← find_key prefix
    check_key token ip now found
  authenticate_parts parts token ip now = raise invalid_api_key

  unfoldable pub authenticate : String → String → Time → Exec Principal
  unfolding authenticate_parts
  authenticate token ip now = authenticate_parts (split_dots token) token ip now

pub as_revoked : ApiKeyRow → ApiKeyRow
as_revoked row = record row { revoked = true }

unfoldable pub revoke_body : ℕ → Time → List AuditMetadata → Exec String
unfolding as_revoked
revoke_body id now metadata = do
  row ← query (λ db. or_not_found (first (key_by_id id) db.api_keys.rows))
  write (λ db. record db { api_keys = on_rows (update (key_by_id row.id) as_revoked) db.api_keys })
  record_mutation_audit now metadata "api_key.revoke" row.name
  pure row.name

unfoldable pub revoke : ℕ → Time → List AuditMetadata → Exec String
revoke id now metadata = transaction (revoke_body id now metadata)

pub delete_revoked : ApiKeyRow → Time → List AuditMetadata → Exec String
delete_revoked row now metadata =
    if row.revoked
    then (do
      write (λ db. record db { access = delete (λ a. eqb a.api_key_id row.id) db.access })
      write (λ db. record db { api_keys = on_rows (delete (key_by_id row.id)) db.api_keys })
      record_mutation_audit now metadata "api_key.delete" row.name
      pure row.name)
    else raise api_key_not_revoked

unfoldable pub delete_body : ℕ → Time → List AuditMetadata → Exec String
unfolding delete_revoked
delete_body id now metadata = do
  row ← query (λ db. or_not_found (first (key_by_id id) db.api_keys.rows))
  delete_revoked row now metadata

-- `Delete`
unfoldable pub delete_key : ℕ → Time → List AuditMetadata → Exec String
delete_key id now metadata = transaction (delete_body id now metadata)
