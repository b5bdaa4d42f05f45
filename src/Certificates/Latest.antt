-- ===== src/Certificates/Latest.antt =====
-- The version that has just been added is the current one
-- (backend/database/repository/certificate_repository.go).
use cert_vault.Prelude.{
  ℕ, ◌≤◌, ◌<◌, String, ◌≡◌, ◌≢◌, ◌∙◌, refl, sym, ap, Bool, true, Option, some, List, [], ◌∷◌, ◌++◌,
  arith, eqb, eq_iff, text_ne, if◌then◌else◌, All, IsIn, Bool-cases, inl, inr,
}
use cert_vault.Prelude.Outcome.{ok}
use cert_vault.Database.{Time, Database, CertificateRow, VersionRow, Connection, quiet}
use cert_vault.Database.Exec.{statement, attempt, continue, pure, raise, query, ◌>>=◌}
use cert_vault.Database.Rows.{first, update, next_id, or_not_found, ok_or_not_found, first-fits}
use cert_vault.Database.Keys.{AreUnique, AreUnique-update, first-IsIn, first-AreUnique}
use cert_vault.Database.Top.{top, prefer}
use cert_vault.Database.Find.{
  by_id, by_name, enabled_by_name, find_enabled_certificate, certificate_name,
}
use cert_vault.Database.Returns.{
  at, Returns, Returns-query, Returns-write, write-Returns, transaction-Returns, Returns-ok,
}
use cert_vault.Jobs.{update_where_id}
use cert_vault.Certificates.{
  Version, version_of, later, latest, version_from_model, preload_version, current_version_of,
  current_version, new_version, as_valid, create_version, mark_valid, add_version_body, add_version,
}

-- the versions have got their ids from the counter, and none is newer than a time
abbrev pub AreOlder : ℕ → Time → List VersionRow → Type 0
AreOlder seq t rows = All (λ r. (r.id ≤ seq) × (r.created_at ≤ t)) rows

latest-append :
    (p : VersionRow → Bool) (seq : ℕ) (row : VersionRow) (rows : List VersionRow)
    → p row ≡ true
    → seq < row.id
    → AreOlder seq row.created_at rows
    → latest p (rows ++ row ∷ []) ≡ some row
unfolding top prefer
latest-append p seq row [] fits above older = rw fits refl
latest-append p seq row (r ∷ rows) fits above older =
    let ih = latest-append p seq row rows fits above older.1 in
    let ((numbered, before), rest) = older in
    elim (Bool-cases (p r)) [
      | inl same ↦
          let first_one : later r row ≡ true = unfold later in ground arith in
          rw (same, ih, first_one) refl
      | inr other ↦ rw (other, ih) refl
    ]

abbrev marked : ℕ → Time → CertificateRow → CertificateRow
marked id now r = if by_id id r then as_valid now r else r

marked_same :
    (name : String) (id : ℕ) (now : Time) (r : CertificateRow)
    → (enabled_by_name name (marked id now r) ≡ enabled_by_name name r)
      × ((marked id now r).id ≡ r.id)
      × ((marked id now r).name ≡ r.name)
unfolding enabled_by_name by_name as_valid
marked_same name id now r = elim (Bool-cases (by_id id r)) [
  | inl here ↦ rw here (refl, refl, refl)
  | inr other ↦ rw other (refl, refl, refl)
]

found_valid :
    (name : String) (id : ℕ) (now : Time) (rows : List CertificateRow) (row : CertificateRow)
    → first (enabled_by_name name) rows ≡ some row
    → first (enabled_by_name name) (update (by_id id) (as_valid now) rows)
      ≡ some (marked id now row)
unfolding first update
found_valid name id now [] row h = absurd (cc h)
found_valid name id now (r ∷ rows) row h =
    let e = (marked_same name id now r).0 in
    elim (Bool-cases (enabled_by_name name r)) [
      | inl fits ↦
          let same : r ≡ row = ground (arith, fits, h) in
          rw (e, fits) (ap (λ k. some (marked id now k)) same)
      | inr other ↦ rw (e, other) (found_valid name id now rows row (rw other at h))
    ]

enabled_name :
    (name : String) (row : CertificateRow)
    → enabled_by_name name row ≡ true
    → name ≢ ""
    → row.name ≡ name
unfolding enabled_by_name by_name
enabled_name name row h given = ground (arith, eq_iff row.name name, text_ne name "" given)

-- what an `AddVersion` that succeeds has done
record IsAdded (v : Version) (now : Time) (before after : Database) : Type 0 where
  certificate : CertificateRow
  found : first (enabled_by_name v.certificate_name) before.certificates.rows ≡ some certificate
  image : after ≡ mark_valid certificate.id now (create_version certificate.id v before)

marks-IsAdded :
    (v : Version) (now : Time) (before : Database) (row : CertificateRow)
    (faults : List (Option String))
    → first (enabled_by_name v.certificate_name) before.certificates.rows ≡ some row
    → Returns
        (λ _ db. IsAdded v now before db)
        (update_where_id row.id
          (mark_valid row.id now)
          (at (create_version row.id v before) faults))
unfolding update_where_id raise
marks-IsAdded v now before row faults found = elim (Bool-cases (eqb row.id 0)) [
  | inl zeroed ↦ rw zeroed tt
  | inr positive ↦ rw positive (
      write-Returns (λ _ db. IsAdded v now before db) (mark_valid row.id now)
        (at (create_version row.id v before) faults)
        (record { certificate = row; found = found; image = refl }))
]

add_version-IsAdded :
    (v : Version) (now : Time) (c : Connection)
    → Returns (λ _ db. IsAdded v now c.db db) (add_version v now c)
unfolding add_version add_version_body find_enabled_certificate
add_version-IsAdded v now c =
    transaction-Returns (λ _ db. IsAdded v now c.db db) (add_version_body v now) c
      (λ f₁.
        Returns-query (λ _ db. IsAdded v now c.db db) _ _ (at c.db f₁)
          (λ row f₂ found.
            Returns-write (λ _ db. IsAdded v now c.db db) (create_version row.id v) _ (at c.db f₂)
              (λ f₃. marks-IsAdded v now c.db row f₃ (
                ok_or_not_found (first (enabled_by_name v.certificate_name) c.db.certificates.rows)
                  found))))

-- the answer where no statement fails
pub current_version_of_lem :
    (certificate : ℕ) (db : Database) (row : VersionRow)
    → latest (version_of certificate) db.versions.rows ≡ some row
    → current_version_of certificate (quiet db)
      ≡ (ok (version_from_model (certificate_name db row.certificate_id) row), quiet db)
unfolding current_version_of preload_version query statement attempt ◌>>=◌ continue pure
    or_not_found
current_version_of_lem certificate db row h = rw h refl

current_version_lem :
    (name : String) (db : Database) (certificate : CertificateRow) (row : VersionRow)
    → first (enabled_by_name name) db.certificates.rows ≡ some certificate
    → latest (version_of certificate.id) db.versions.rows ≡ some row
    → (current_version name (quiet db)).0
      ≡ ok (version_from_model (certificate_name db row.certificate_id) row)
unfolding current_version find_enabled_certificate query statement attempt ◌>>=◌ continue
    or_not_found
current_version_lem name db certificate row h k =
    rw h (rw (current_version_of_lem certificate.id db row k) refl)

-- the name of a row that is there
pub certificate_name_lem :
    (db : Database) (row : CertificateRow)
    → AreUnique (λ (r : CertificateRow). r.id) db.certificates.rows
    → IsIn row db.certificates.rows
    → certificate_name db row.id ≡ row.name
unfolding certificate_name by_id
certificate_name_lem db row u i =
    rw (first-AreUnique (λ (r : CertificateRow). r.id) db.certificates.rows row u i) refl

version_fits :
    (id certificate : ℕ) (v : Version) (k : ℕ)
    → k ≡ certificate
    → version_of k (new_version id certificate v) ≡ true
unfolding version_of new_version
version_fits id certificate v k e = ground arith

added_current :
    (v : Version) (now : Time) (db : Database) (certificate : CertificateRow)
    → v.certificate_name ≢ ""
    → AreUnique (λ (r : CertificateRow). r.id) db.certificates.rows
    → AreOlder db.versions.seq v.created_at db.versions.rows
    → first (enabled_by_name v.certificate_name) db.certificates.rows ≡ some certificate
    → (current_version v.certificate_name
        (quiet (mark_valid certificate.id now (create_version certificate.id v db)))).0
      ≡ ok (record v { id = next_id db.versions })
unfolding mark_valid create_version
added_current v now db certificate given unique older found =
    let after = mark_valid certificate.id now (create_version certificate.id v db) in
    let row = new_version (next_id db.versions) certificate.id v in
    let (_, same_id, same_name) = marked_same v.certificate_name certificate.id now certificate in
    let found_after =
      found_valid v.certificate_name certificate.id now db.certificates.rows certificate found in
    let fits : version_of (marked certificate.id now certificate).id row ≡ true =
      version_fits (next_id db.versions) certificate.id v _ same_id in
    let named : certificate_name after certificate.id ≡ v.certificate_name =
      ap (certificate_name after) (sym same_id)
      ∙ certificate_name_lem after (marked certificate.id now certificate)
          (AreUnique-update (λ (r : CertificateRow). r.id) (by_id certificate.id) (as_valid now)
            db.certificates.rows (λ r. unfold as_valid in refl) unique)
          (first-IsIn (enabled_by_name v.certificate_name) _ _ found_after)
      ∙ same_name
      ∙ enabled_name v.certificate_name certificate
          (first-fits (enabled_by_name v.certificate_name) db.certificates.rows found) given in
    current_version_lem v.certificate_name after (marked certificate.id now certificate) row
      found_after (latest-append _ db.versions.seq row db.versions.rows fits (omega arith) older)
    ∙ (unfold version_from_model new_version in
        ap (λ name. ok (record v { id = next_id db.versions; certificate_name = name })) named)

-- Where no statement fails after an `AddVersion` that has succeeded, `CurrentVersion` of the
-- certificate answers the added version under the next id, if no older version has a later time.
-- The certificates have unique ids, and their counter has numbered the versions.
pub current_version-add_version :
    (v : Version) (now : Time) (c : Connection)
    → v.certificate_name ≢ ""
    → AreUnique (λ (r : CertificateRow). r.id) c.db.certificates.rows
    → AreOlder c.db.versions.seq v.created_at c.db.versions.rows
    → (add_version v now c).0 ≡ ok tt
    → (current_version v.certificate_name (quiet (add_version v now c).1.db)).0
      ≡ ok (record v { id = next_id c.db.versions })
current_version-add_version v now c given unique older done =
    let added =
      Returns-ok (λ _ db. IsAdded v now c.db db) (add_version v now c) tt
        (add_version-IsAdded v now c) done in
    rw added.image (added_current v now c.db added.certificate given unique older added.found)
