-- ===== src/Manager/Recorded.antt =====
-- What an issuance writes into the table of jobs (backend/service/manager.go, `issue`).
use cert_vault.Prelude.{ℕ, String, ◌≡◌, ◌⊎◌, refl, Option, none, some, inl, inr, Bool-cases, ◌==◌}
use cert_vault.Prelude.Outcome.{Outcome}
use cert_vault.Database.{Time, Table, Database, Error, JobRow, not_found}
use cert_vault.Database.Exec.{Exec, query}
use cert_vault.Database.Rows.{update, on_rows}
use cert_vault.Database.Returns.{Returns}
use cert_vault.Jobs.{job_by_id, as_finished}
use cert_vault.Certificates.{Version}
use cert_vault.Manager.{Manager, World, IssueError, initial}
use cert_vault.Manager.Hooks.{fire_hooks, notify_issuance}
use cert_vault.Manager.Issuing.{Surroundings, text_of, announce, joined}

-- the update that `Finish` makes
abbrev pub as_recorded : ℕ → Option String → Time → Table JobRow → Table JobRow
as_recorded id result now jobs = on_rows (update (job_by_id id) (as_finished result now)) jobs

module _ (m : Manager) (s : Surroundings) (name kind : String) where
  pub announce_connection :
      (version : Option Version) (result : Option IssueError) (w : World)
      → (announce m s name kind version result w).connection ≡ w.connection
  unfolding announce fire_hooks notify_issuance
  announce_connection version none w = elim (Bool-cases m.notifies) [
    | inl e ↦ elim (Bool-cases (kind == initial)) [
      | inl k ↦ rw (e, k) refl
      | inr k ↦ rw (e, k) refl
    ]
    | inr e ↦ elim (Bool-cases (kind == initial)) [
      | inl k ↦ rw (e, k) refl
      | inr k ↦ rw (e, k) refl
    ]
  ]
  announce_connection version (some error) w = elim (Bool-cases m.notifies) [
    | inl e ↦ rw e refl
    | inr e ↦ rw e refl
  ]

  -- either `Finish` has failed, and the error says so, or the job has the result's text
  abbrev pub Records : ℕ → Table JobRow → Option IssueError × World → Type 0
  Records job before r =
      ((first : Option IssueError) × (e : Error) × (r.0 ≡ some (joined first e))
        × (r.1.connection.db.jobs ≡ before))
      ⊎ (r.1.connection.db.jobs ≡ as_recorded job (text_of m s r.0) s.finished_at before)
