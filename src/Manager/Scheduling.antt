-- ===== src/Manager/Scheduling.antt =====
-- What `reconcile` does for a certificate that is due (backend/service/manager.go).
use mathlib.Core.Path.{subst}
use cert_vault.Prelude.{
  ℕ, suc, ◌+◌, ◌≤◌, ◌<◌, String, ◌≡◌, ◌⊎◌, ◌∙◌, refl, sym, ap, Bool, true, false, some, List, [],
  ◌∷◌, ◌++◌, arith, Bool-cases, Option-cases, inl, inr, contains, length,
}
use cert_vault.Prelude.Outcome.{Outcome, ok, err}
use cert_vault.Database.{Time, Table, Database, CertificateRow, Connection, Error, quiet}
use cert_vault.Database.Rows.{first}
use cert_vault.Database.Find.{enabled_by_name}
use cert_vault.Jobs.{Job, admit, max_pending_issuance_jobs}
use cert_vault.Config.{certificate, should_automatically_issue, or_else}
use cert_vault.Certificates.{Certificate}
use cert_vault.Certificates.Listing.{list}
use cert_vault.Manager.{
  Manager, World, Moment, IssueError, scheduled, on_connection, validate_issuance,
  enabled_definition, woken_by, enqueue, enqueue_valid, was_interrupted, automatic, wanted,
  reconcile_certificate, reconcile_certificates, reconcile_listed, reconcile,
}
use cert_vault.Manager.Admitted.{
  pending_jobs, all_pending, Grows, Grows-refl, admit-Grows, admit_pends,
}

woken_connection :
    (r : Outcome Error (Job × Bool) × World) → (woken_by r).1.connection ≡ r.1.connection
unfolding woken_by
woken_connection (ok job, w) = refl
woken_connection (err e, w) = refl

module _ (m : Manager) where
  pub enqueue_valid_connection :
      (v : Outcome IssueError (Unit {0})) (name kind : String) (now : Time) (w : World)
      → ((enqueue_valid v name kind now w).1.connection ≡ w.connection)
        ⊎ ((enqueue_valid v name kind now w).1.connection ≡ (admit name kind now w.connection).1)
  unfolding enqueue_valid on_connection
  enqueue_valid_connection (ok u) name kind now w =
      inr (woken_connection (on_connection (admit name kind now) w))
  enqueue_valid_connection (err e) name kind now w = inl refl

  enqueue_admits :
      (name kind : String) (now : Time) (w : World)
      → validate_issuance m name kind ≡ ok tt
      → (enqueue m name kind now w).1.connection ≡ (admit name kind now w.connection).1
  unfolding enqueue enqueue_valid on_connection
  enqueue_admits name kind now w valid =
      rw valid (woken_connection (on_connection (admit name kind now) w))

  -- an automatic issuance is never refused for its definition
  automatic_valid :
      (c : Certificate) → automatic m c ≡ true → validate_issuance m c.name scheduled ≡ ok tt
  unfolding automatic validate_issuance enabled_definition should_automatically_issue contains
  automatic_valid c h = elim (Option-cases (certificate c.name m.config.certificates)) [
    | inl absent ↦ let bad : false ≡ true = (rw (automatic, absent) at h) in absurd (cc bad)
    | inr (d, found) ↦ elim (Bool-cases (or_else true d.enabled)) [
      | inl on ↦ rw (found, on) refl
      | inr off ↦ let bad : false ≡ true = (rw (automatic, found, off) at h) in absurd (cc bad)
    ]
  ]

  -- one round, on a connection without faults
  reconcile_certificate-Grows :
      (moment : Moment) (c : Certificate) (w : World) (db : Database)
      → w.connection ≡ quiet db
      → Grows 1 db (reconcile_certificate m moment c w).connection
  unfolding reconcile_certificate enqueue
  reconcile_certificate-Grows moment c w db still =
      let idle : Grows 1 db w.connection = subst (Grows 1 db) (sym still) (Grows-refl 1 db) in
      let admitted =
        subst (λ k. Grows 1 db (admit c.name scheduled moment.admitted_at k).1) (sym still)
          (admit-Grows c.name scheduled moment.admitted_at db) in
      elim (Bool-cases (automatic m c)) [
        | inr manual ↦ rw manual idle
        | inl auto ↦ elim (Bool-cases (was_interrupted c)) [
          | inl broken ↦ rw (auto, broken) idle
          | inr whole ↦ elim (Bool-cases (wanted m moment c)) [
            | inr fresh ↦ rw (auto, whole, fresh) idle
            | inl due ↦
                rw (auto, whole, due)
                  (elim (enqueue_valid_connection (validate_issuance m c.name scheduled) c.name
                    scheduled moment.admitted_at w) [
                      | inl e ↦ subst (Grows 1 db) (sym e) idle
                      | inr e ↦ subst (Grows 1 db) (sym e) admitted
                    ])
          ]
        ]
      ]

  reconcile_certificates-Grows :
      (moments : ℕ → Moment) (cs : List Certificate) (w : World) (db : Database)
      → w.connection ≡ quiet db
      → Grows (length cs) db (reconcile_certificates m moments cs w).connection
  unfolding reconcile_certificates
  reconcile_certificates-Grows moments [] w db still =
      subst (Grows 0 db) (sym still) (Grows-refl 0 db)
  reconcile_certificates-Grows moments (c ∷ cs) w db still =
      let first_round = reconcile_certificate-Grows (moments 0) c w db still in
      let others =
        reconcile_certificates-Grows (λ i. moments (suc i)) cs
          (reconcile_certificate m (moments 0) c w) first_round.db first_round.image in
      record {
        db = others.db;
        image = others.image;
        same = others.same ∙ first_round.same;
        bounded = omega (arith, others.bounded, first_round.bounded);
        kept = λ certificate. omega (arith, others.kept certificate, first_round.kept certificate);
      }

  -- what `reconcile` looks for in a certificate
  abbrev pub IsSelected : Moment → Certificate → Type 0
  IsSelected moment c =
      (automatic m c ≡ true) × (was_interrupted c ≡ false) × (wanted m moment c ≡ true)

  reconcile_certificate_pends :
      (moment : Moment) (c : Certificate) (w : World) (db after : Database) (row : CertificateRow)
      → w.connection ≡ quiet db
      → IsSelected moment c
      → first (enabled_by_name c.name) db.certificates.rows ≡ some row
      → all_pending db < max_pending_issuance_jobs
      → (reconcile_certificate m moment c w).connection ≡ quiet after
      → 1 ≤ pending_jobs row.id after
  unfolding reconcile_certificate
  reconcile_certificate_pends moment c w db after row still (auto, whole, due) known room image =
      let round = enqueue_admits c.name scheduled moment.admitted_at w (automatic_valid c auto) in
      let image' : (enqueue m c.name scheduled moment.admitted_at w).1.connection ≡ quiet after =
        (rw (auto, whole, due) at image) in
      admit_pends c.name scheduled moment.admitted_at db after row known room (
        ap (λ k. (admit c.name scheduled moment.admitted_at k).1) (sym still)
        ∙ (sym round ∙ image'))

  loop_pends :
      (moments : ℕ → Moment) (front : List Certificate) (c : Certificate) (back : List Certificate)
      (w : World) (db : Database) (row : CertificateRow)
      → w.connection ≡ quiet db
      → IsSelected (moments (length front)) c
      → first (enabled_by_name c.name) db.certificates.rows ≡ some row
      → all_pending db + length front < max_pending_issuance_jobs
      → (after : Database) × ((reconcile_certificates m moments (front ++ c ∷ back) w).connection
          ≡ quiet after)
        × (1 ≤ pending_jobs row.id after)
  unfolding reconcile_certificates
  loop_pends moments [] c back w db row still selected known room =
      let round = reconcile_certificate-Grows (moments 0) c w db still in
      let others =
        reconcile_certificates-Grows (λ i. moments (suc i)) back
          (reconcile_certificate m (moments 0) c w) round.db round.image in
      let pends =
        reconcile_certificate_pends (moments 0) c w db round.db row still selected known
          (omega arith) round.image in
      (others.db, others.image, omega (arith, others.kept row.id, pends))
  loop_pends moments (x ∷ front) c back w db row still selected known room =
      let round = reconcile_certificate-Grows (moments 0) x w db still in
      loop_pends (λ i. moments (suc i)) front c back (reconcile_certificate m (moments 0) x w)
        round.db row round.image selected
        (ap (λ t. first (enabled_by_name c.name) (Table.rows t)) round.same ∙ known)
        (omega (arith, round.bounded))

  -- If no statement fails, a certificate that `List` gives, that may be issued automatically, whose
  -- latest job was not interrupted, and that is due or has drifted, has a pending job after
  -- `reconcile`, provided that the search by its name finds its enabled row, and that the queue has
  -- room for it and for the certificates listed before it.
  pub reconcile_pends :
      (moments : ℕ → Moment) (front : List Certificate) (c : Certificate) (back : List Certificate)
      (w : World) (db : Database) (row : CertificateRow)
      → w.connection ≡ quiet db
      → list (quiet db) ≡ (ok (front ++ c ∷ back), quiet db)
      → IsSelected (moments (length front)) c
      → first (enabled_by_name c.name) db.certificates.rows ≡ some row
      → all_pending db + length front < max_pending_issuance_jobs
      → (after : Database) × ((reconcile m moments w).connection ≡ quiet after)
        × (1 ≤ pending_jobs row.id after)
  unfolding reconcile reconcile_listed on_connection
  reconcile_pends moments front c back w db row still listed selected known room =
      subst
        (λ (r : Outcome Error (List Certificate) × Connection).
          (after : Database) × ((reconcile_listed m moments
              (r.0, record w { connection = r.1 })).connection
            ≡ quiet after)
          × (1 ≤ pending_jobs row.id after))
        (sym (ap list still ∙ listed))
        (loop_pends moments front c back (record w { connection = quiet db }) db row refl selected
          known room)
