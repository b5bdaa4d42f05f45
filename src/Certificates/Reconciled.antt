-- ===== src/Certificates/Reconciled.antt =====
-- `Reconcile` makes the enabled certificates those of the configuration
-- (backend/database/repository/certificate_repository.go).
use cert_vault.Prelude.{
  ℕ, suc, String, ◌≡◌, ◌≢◌, ◌∙◌, refl, sym, is_zero, quotient, Bool, true, false, some, List, [],
  ◌∷◌, ◌++◌, arith, any, ◌==◌, eq_iff, text_eq_refl, text_ne, if◌then◌else◌, contains_iff, In, All,
  Bool-cases, inl, inr, length,
}
use cert_vault.Database.{Time, second, Database, CertificateRow, Connection}
use cert_vault.Database.Exec.{pure, ◌>>◌}
use cert_vault.Database.Rows.{first, update, next_id}
use cert_vault.Database.Returns.{
  at, Returns, Returns-write, Returns-bind, Returns-map, write-Returns, transaction-Returns,
}
use cert_vault.Config.{Certificate as Definition, or_else, default_key_type, default_renew_before}
use cert_vault.Certificates.{
  described, new_certificate, named, upsert, reconcile_definitions, absent, as_disabled,
  disable_absent, names_of, reconcile_body, reconcile,
}

-- the columns that the configuration decides
pub record HasColumns (d : Definition) (row : CertificateRow) : Type 0 where
  pub domains : row.domains ≡ d.domains
  pub key_type : row.key_type ≡ (if d.key_type == "" then default_key_type else d.key_type)
  pub renewal :
      row.renew_before_seconds
      ≡ quotient (if is_zero d.renew_before then default_renew_before else d.renew_before) second
  pub enabled : row.enabled ≡ or_else true d.enabled

-- the row of a certificate's name is as the configuration says
abbrev pub IsPresent : List CertificateRow → Definition → Type 0
IsPresent rows d =
    (row : CertificateRow) × (first (named d.name) rows ≡ some row) × HasColumns d row

-- no name stands twice
abbrev pub AreDistinct : List Definition → Type 0
AreDistinct [] = Unit
AreDistinct (d ∷ ds) = (In d.name (names_of ds) → ⊥) × AreDistinct ds

pub record IsReconciled (definitions : List Definition) (rows : List CertificateRow) : Type 0 where
  pub present : All (IsPresent rows) definitions
  pub only : All (λ r. r.enabled ≡ true → In r.name (names_of definitions)) rows

described-HasColumns :
    (now : Time) (d : Definition) (row : CertificateRow) → HasColumns d (described now d row)
unfolding described
described-HasColumns now d row = record {
  domains = refl;
  key_type = refl;
  renewal = refl;
  enabled = refl;
}

updated-IsPresent :
    (now : Time) (d : Definition) (rows : List CertificateRow)
    → any (named d.name) rows ≡ true
    → IsPresent (update (named d.name) (described now d) rows) d
unfolding first update
updated-IsPresent now d [] h = absurd (cc h)
updated-IsPresent now d (r ∷ rows) h = elim (Bool-cases (named d.name r)) [
  | inl here ↦
      let still : named d.name (described now d r) ≡ true = unfold named described in here in
      rw here (rw still (described now d r, refl, described-HasColumns now d r))
  | inr other ↦ rw other (rw other (updated-IsPresent now d rows (rw other at h)))
]

updated_other :
    (now : Time) (d : Definition) (name : String) (rows : List CertificateRow)
    → name ≢ d.name
    → first (named name) (update (named d.name) (described now d) rows) ≡ first (named name) rows
unfolding first update
updated_other now d name [] h = refl
updated_other now d name (r ∷ rows) h = elim (Bool-cases (named d.name r)) [
  | inl here ↦
      let e : named name (described now d r) ≡ false =
        unfold named described in
        ground (
          arith,
          eq_iff r.name d.name,
          eq_iff r.name name,
          text_ne name d.name h,
          here,
          eq_iff name d.name,
        ) in
      let e' : named name r ≡ false =
        unfold named in
        ground (
          arith,
          eq_iff r.name d.name,
          eq_iff r.name name,
          text_ne name d.name h,
          here,
          eq_iff name d.name,
        ) in
      rw here (rw (e, e') (updated_other now d name rows h))
  | inr other ↦ rw other (rw (updated_other now d name rows h) refl)
]

appended :
    (p : CertificateRow → Bool) (rows : List CertificateRow) (row : CertificateRow)
    → p row ≡ false
    → first p (rows ++ row ∷ []) ≡ first p rows
unfolding first
appended p [] row h = rw h refl
appended p (r ∷ rows) row h = ground (arith, appended p rows row h)

appended_new :
    (p : CertificateRow → Bool) (rows : List CertificateRow) (row : CertificateRow)
    → any p rows ≡ false
    → p row ≡ true
    → first p (rows ++ row ∷ []) ≡ some row
unfolding first
appended_new p [] row h k = rw k refl
appended_new p (r ∷ rows) row h k = ground (arith, appended_new p rows row)

new_certificate-HasColumns :
    (id : ℕ) (now : Time) (d : Definition) → HasColumns d (new_certificate id now d)
unfolding new_certificate described
new_certificate-HasColumns id now d = record {
  domains = refl;
  key_type = refl;
  renewal = refl;
  enabled = refl;
}

upsert-IsPresent :
    (now : Time) (d : Definition) (db : Database) → IsPresent (upsert now d db).certificates.rows d
unfolding upsert
upsert-IsPresent now d db = elim (Bool-cases (any (named d.name) db.certificates.rows)) [
  | inl there ↦ rw there (updated-IsPresent now d db.certificates.rows there)
  | inr new ↦
      let row = new_certificate (next_id db.certificates) now d in
      let fits : named d.name row ≡ true =
        unfold named new_certificate described in text_eq_refl d.name in
      rw new (
        row,
        appended_new (named d.name) db.certificates.rows row new fits,
        new_certificate-HasColumns (next_id db.certificates) now d,
      )
]

upsert_other :
    (now : Time) (d : Definition) (name : String) (db : Database)
    → name ≢ d.name
    → first (named name) (upsert now d db).certificates.rows
      ≡ first (named name) db.certificates.rows
unfolding upsert
upsert_other now d name db h = elim (Bool-cases (any (named d.name) db.certificates.rows)) [
  | inl there ↦ rw there (updated_other now d name db.certificates.rows h)
  | inr new ↦
      let row = new_certificate (next_id db.certificates) now d in
      rw new (
        appended (named name) db.certificates.rows row
          (unfold named new_certificate described in text_ne d.name name (λ e. h (sym e))))
]

-- what the loop has done
record IsUpserted (definitions : List Definition) (before after : List CertificateRow)
    : Type 0 where
  present : All (IsPresent after) definitions
  others :
      (name : String)
      → (In name (names_of definitions) → ⊥)
      → first (named name) after ≡ first (named name) before

begins-IsUpserted :
    (d : Definition) (definitions : List Definition) (now : Time) (db : Database)
    (after : List CertificateRow)
    → (In d.name (names_of definitions) → ⊥)
    → IsUpserted definitions (upsert now d db).certificates.rows after
    → IsUpserted (d ∷ definitions) db.certificates.rows after
begins-IsUpserted d definitions now db after fresh u =
    let (row, found, columns) = upsert-IsPresent now d db in
    record {
      present = ((row, u.others d.name fresh ∙ found, columns), u.present);
      others = λ name unnamed.
          u.others name (λ i. unnamed (inr i))
          ∙ upsert_other now d name db (λ e. unnamed (inl (sym e)));
    }

abbrev rows_of : Database → List CertificateRow
rows_of db = db.certificates.rows

definitions-IsUpserted :
    (clock : ℕ → Time) (definitions : List Definition) (c : Connection)
    → AreDistinct definitions
    → Returns
        (λ _ db. IsUpserted definitions (rows_of c.db) (rows_of db))
        (reconcile_definitions clock definitions c)
unfolding reconcile_definitions
definitions-IsUpserted clock [] c distinct =
    unfold pure in record { present = tt; others = λ name unnamed. refl }
definitions-IsUpserted clock (d ∷ definitions) c (fresh, distinct) =
    Returns-write _ (upsert (clock 0) d) (reconcile_definitions (λ i. clock (suc i)) definitions) c
      (λ faults.
        Returns-map _ _
          (reconcile_definitions (λ i. clock (suc i)) definitions
            (at (upsert (clock 0) d c.db) faults))
          (λ _ db u. begins-IsUpserted d definitions (clock 0) c.db (rows_of db) fresh u)
          (definitions-IsUpserted (λ i. clock (suc i)) definitions
            (at (upsert (clock 0) d c.db) faults) distinct))

-- a name of the configuration is left alone by the last statement
kept :
    (now : Time) (names : List String) (name : String) (rows : List CertificateRow)
    → In name names
    → first (named name) (update (absent names) (as_disabled now) rows) ≡ first (named name) rows
unfolding first update
kept now names name [] i = refl
kept now names name (r ∷ rows) i = elim (Bool-cases (named name r)) [
  | inl here ↦
      let stays : absent names r ≡ false =
        unfold absent named in
        ground (arith, eq_iff r.name name, (contains_iff names name).1 i, here) in
      rw stays (rw here refl)
  | inr other ↦
      let e : named name (if absent names r then as_disabled now r else r) ≡ false =
        unfold named as_disabled in ground (arith, other) in
      rw (e, other) (kept now names name rows i)
]

disabled_only :
    (now : Time) (names : List String) (rows : List CertificateRow)
    → All (λ r. r.enabled ≡ true → In r.name names) (update (absent names) (as_disabled now) rows)
unfolding update
disabled_only now names [] = tt
disabled_only now names (r ∷ rows) = elim (Bool-cases (absent names r)) [
  | inl gone ↦ rw gone ((λ h. absurd (unfold as_disabled in cc h)), disabled_only now names rows)
  | inr stays ↦ rw stays (
    (λ h. (contains_iff names r.name).0 (unfold absent in ground (arith, stays, h))),
    disabled_only now names rows,
  )
]

kept-All :
    (now : Time) (names : List String) (rows : List CertificateRow) (definitions : List Definition)
    → All (λ d. In d.name names) definitions
    → All (IsPresent rows) definitions
    → All (IsPresent (update (absent names) (as_disabled now) rows)) definitions
kept-All now names rows [] i p = tt
kept-All now names rows (d ∷ definitions) i (here, p) =
    let (row, found, columns) = here in
    (
      (row, kept now names d.name rows i.0 ∙ found, columns),
      kept-All now names rows definitions i.1 p,
    )

weaken :
    (name : String) (names : List String) (definitions : List Definition)
    → All (λ d. In d.name names) definitions
    → All (λ d. In d.name (name ∷ names)) definitions
weaken name names [] i = tt
weaken name names (d ∷ definitions) i = (inr i.0, weaken name names definitions i.1)

every_name :
    (definitions : List Definition) → All (λ d. In d.name (names_of definitions)) definitions
every_name [] = tt
every_name (d ∷ definitions) =
    (inl refl, weaken d.name (names_of definitions) definitions (every_name definitions))

-- A reconciliation that succeeds, whatever the certificates of before, leaves a row for every
-- certificate of the configuration with the columns that the configuration gives, and none enabled
-- that the configuration does not name, if no name stands twice in the configuration.
pub reconcile-IsReconciled :
    (clock : ℕ → Time) (definitions : List Definition) (c : Connection)
    → AreDistinct definitions
    → Returns
        (λ _ db. IsReconciled definitions db.certificates.rows)
        (reconcile clock definitions c)
unfolding reconcile reconcile_body ◌>>◌ disable_absent
reconcile-IsReconciled clock definitions c distinct =
    transaction-Returns _ (reconcile_body clock definitions) c (λ faults.
      Returns-bind _ (reconcile_definitions clock definitions) _ (at c.db faults) (
        Returns-map _ _ (reconcile_definitions clock definitions (at c.db faults))
          (λ _ db u f₂.
            write-Returns _ (disable_absent (clock (length definitions)) (names_of definitions))
              (at db f₂)
              (record {
                present =
                    kept-All (clock (length definitions)) (names_of definitions) (rows_of db)
                      definitions (every_name definitions) u.present;
                only =
                    disabled_only (clock (length definitions)) (names_of definitions) (rows_of db);
              }))
          (definitions-IsUpserted clock definitions (at c.db faults) distinct)))
