-- ===== src/Certificates/Agreement.antt =====
-- `List` answers for each certificate what `Get` answers for it
-- (backend/database/repository/certificate_repository.go).
use mathlib.Core.Path.{subst}
use cert_vault.Prelude.{
  ◌≡◌, ◌⊎◌, ◌∙◌, refl, sym, ap, Bool, true, List, [], ◌∷◌, map, arith, suc, length, length-select,
  count_if, select, All, IsIn, Bool-cases, inl, inr,
}
use cert_vault.Prelude.Outcome.{ok}
use cert_vault.Database.{Database, CertificateRow, quiet}
use cert_vault.Database.Exec.{pure, query, statement, attempt, continue, ◌>>=◌}
use cert_vault.Certificates.{Certificate}
use cert_vault.Certificates.Listing.{
  certificate_from_model, read_latest_jobs, latest_jobs, read_current_versions, current_versions,
  insert_by_name, sort_by_name, name_le, completed, list, get,
}
use cert_vault.Certificates.Bulk.{select-IsIn}
use cert_vault.Certificates.Reads.{IsSound, completed_lem, get_lem}

insert_by_name-IsIn :
    (a : CertificateRow) (rows : List CertificateRow) (r : CertificateRow)
    → IsIn r (insert_by_name a rows)
    → (a ≡ r) ⊎ IsIn r rows
unfolding insert_by_name
insert_by_name-IsIn a [] r i = i
insert_by_name-IsIn a (b ∷ rows) r i = elim (Bool-cases (name_le a b)) [
  | inl front ↦ let j : (a ≡ r) ⊎ IsIn r (b ∷ rows) = rw front at i in j
  | inr behind ↦ elim (let j : IsIn r (b ∷ insert_by_name a rows) = rw behind at i in j) [
    | inl here ↦ inr (inl here)
    | inr below ↦ elim (insert_by_name-IsIn a rows r below) [ inl e ↦ inl e | inr k ↦ inr (inr k) ]
  ]
]

sort_by_name-IsIn :
    (rows : List CertificateRow) (r : CertificateRow) → IsIn r (sort_by_name rows) → IsIn r rows
unfolding sort_by_name
sort_by_name-IsIn [] r i = i
sort_by_name-IsIn (a ∷ rows) r i = elim (insert_by_name-IsIn a (sort_by_name rows) r i) [
  | inl e ↦ inl e
  | inr j ↦ inr (sort_by_name-IsIn rows r j)
]

length-insert_by_name :
    (a : CertificateRow) (rows : List CertificateRow)
    → length (insert_by_name a rows) ≡ suc (length rows)
unfolding insert_by_name
length-insert_by_name a [] = refl
length-insert_by_name a (b ∷ rows) = ground (arith, length-insert_by_name a rows)

length-sort_by_name : (rows : List CertificateRow) → length (sort_by_name rows) ≡ length rows
unfolding sort_by_name
length-sort_by_name [] = refl
length-sort_by_name (a ∷ rows) =
    length-insert_by_name a (sort_by_name rows) ∙ ap (λ n. suc n) (length-sort_by_name rows)

abbrev is_enabled : CertificateRow → Bool
is_enabled row = row.enabled

abbrev listed : Database → List CertificateRow
listed db = sort_by_name (select is_enabled db.certificates.rows)

listed-IsIn :
    (db : Database) (r : CertificateRow)
    → IsIn r (listed db)
    → IsIn r db.certificates.rows × (r.enabled ≡ true)
listed-IsIn db r i =
    select-IsIn is_enabled db.certificates.rows r
      (sort_by_name-IsIn (select is_enabled db.certificates.rows) r i)

-- the rest of `List`, once the rows are read
bulk_run :
    (models : List CertificateRow) (db : Database)
    → (do
      jobs ← latest_jobs models
      versions ← current_versions models
      pure (map (completed jobs versions) models))
        (quiet db)
      ≡ (
        ok (
            map
              (completed
                (read_latest_jobs models db.jobs.rows)
                (read_current_versions models db.versions.rows))
              models),
        quiet db,
      )
unfolding latest_jobs current_versions query statement attempt ◌>>=◌ continue pure
bulk_run [] db = refl
bulk_run (c ∷ models) db = refl

list_lem :
    (db : Database)
    → (list (quiet db)).0
      ≡ ok (
          map
            (completed
              (read_latest_jobs (listed db) db.jobs.rows)
              (read_current_versions (listed db) db.versions.rows))
            (listed db))
unfolding list query statement attempt ◌>>=◌ continue
list_lem db = ap (λ r. r.0) (bulk_run (listed db) db)

All-map :
    {A B : Type 0} (P : B → Type 0) (f : A → B) (xs : List A)
    → ((a : A) → IsIn a xs → P (f a))
    → All P (map f xs)
All-map P f [] h = tt
All-map P f (x ∷ xs) h = (h x (inl refl), All-map P f xs (λ a i. h a (inr i)))

length-map : {A B : Type 0} (f : A → B) (xs : List A) → length (map f xs) ≡ length xs
length-map f [] = refl
length-map f (x ∷ xs) = ap (λ n. suc n) (length-map f xs)

-- Where no statement fails: `List` answers as many certificates as are enabled, each of which is
-- what `Get` answers for its name, with the same current version and latest job.
pub list-get :
    (db : Database)
    → IsSound db
    → (certificates : List Certificate) × ((list (quiet db)).0 ≡ ok certificates)
      × (length certificates ≡ count_if (λ r. r.enabled) db.certificates.rows)
      × All (λ c. (get c.name (quiet db)).0 ≡ ok c) certificates
list-get db sound = (
  _,
  list_lem db,
  length-map _ (listed db)
      ∙ length-sort_by_name (select is_enabled db.certificates.rows)
      ∙ length-select is_enabled db.certificates.rows,
  All-map (λ c. (get c.name (quiet db)).0 ≡ ok c) _ (listed db)
      (λ row i.
        let (present, on) = listed-IsIn db row i in
        let image = completed_lem (listed db) row db sound (λ r j. (listed-IsIn db r j).0) i in
        subst (λ k. (get k.name (quiet db)).0 ≡ ok k) (sym image)
          (unfold certificate_from_model in get_lem db row sound present on)),
)
