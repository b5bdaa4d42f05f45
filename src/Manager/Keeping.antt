-- ===== src/Manager/Keeping.antt =====
-- An issuance leaves the table of jobs alone before its deferred part (backend/service/manager.go,
-- `issue`).
use cert_vault.Prelude.{String, ◌≡◌, ◌∙◌, refl, ap, inl, inr, Bool-cases, eqb}
use cert_vault.Prelude.Outcome.{Outcome, ok, err}
use cert_vault.Database.{Time, Database, Connection, Error, not_found}
use cert_vault.Database.Exec.{Exec, raise}
use cert_vault.Database.Find.{find_enabled_certificate}
use cert_vault.Database.Returns.{
  at, Returns-query, Returns-write, write-Returns, transaction_db, write_db,
}
use cert_vault.Database.ReadOnly.{pure-ReadsOnly, query-ReadsOnly, bind-ReadsOnly}
use cert_vault.Jobs.{update_where_id}
use cert_vault.Certificates.{
  Version, add_version, add_version_body, create_version, mark_valid, current_version_of,
  preload_version,
}
use cert_vault.Certificates.Listing.{get, none_if_absent, latest_jobs}
use cert_vault.Audits.{record_audit}
use cert_vault.Files.{Fs}
use cert_vault.Manager.{Manager, World, IssueError, on_connection}
use cert_vault.Manager.Issuing.{
  Surroundings, Action, continue, ◌>>=◌, ◌>>◌, lift, as_repository, call, on_disk, ignoring,
  issue_body,
}

-- actions of the repositories, and calls of the manager, that leave the table of jobs alone
abbrev ExecKeeps : {A : Type 0} → Exec A → Type 0
ExecKeeps action = (c : Connection) → (action c).1.db.jobs ≡ c.db.jobs

unfoldable pub Keeps : {A : Type 0} → Action A → Type 0
Keeps action = (w : World) → (action w).1.connection.db.jobs ≡ w.connection.db.jobs

module _ {A : Type 0} where
  lift-Keeps : (r : Outcome IssueError A) → Keeps (lift r)
  unfolding Keeps lift
  lift-Keeps r w = refl

  as_repository_db : (r : Outcome Error A × World) → (as_repository r).1 ≡ r.1
  unfolding as_repository
  as_repository_db (ok a, w) = refl
  as_repository_db (err e, w) = refl

  call-Keeps : (action : Exec A) → ExecKeeps action → Keeps (call action)
  unfolding Keeps call on_connection
  call-Keeps action h w =
      ap (λ (x : World). x.connection.db.jobs) (as_repository_db (on_connection action w))
      ∙ h w.connection

  on_disk-Keeps : (action : Fs A) → Keeps (on_disk action)
  unfolding Keeps on_disk
  on_disk-Keeps action w = refl

module _ {A B : Type 0} where
  continue_jobs :
      (r : Outcome IssueError A × World) (f : A → Action B)
      → ((a : A) → Keeps (f a))
      → (continue r f).1.connection.db.jobs ≡ r.1.connection.db.jobs
  unfolding Keeps continue
  continue_jobs (ok a, w) f h = h a w
  continue_jobs (err e, w) f h = refl

  bind-Keeps :
      (m : Action A) (f : A → Action B) → Keeps m → ((a : A) → Keeps (f a)) → Keeps (m >>= f)
  unfolding Keeps ◌>>=◌
  bind-Keeps m f h k w = continue_jobs (m w) f k ∙ h w

then-Keeps :
    {B : Type 0} (m : Action (Unit {0})) (f : Action B) → Keeps m → Keeps f → Keeps (m >> f)
unfolding ◌>>◌
then-Keeps m f h k = bind-Keeps m (λ _. f) h (λ _. k)

ignoring-Keeps : (action : Exec (Unit {0})) → ExecKeeps action → Keeps (ignoring action)
unfolding Keeps ignoring on_connection
ignoring-Keeps action h w = h w.connection

none_if_absent_db : (r : Outcome Error Version × Connection) → (none_if_absent r).1 ≡ r.1
unfolding none_if_absent
none_if_absent_db (ok v, c) = refl
none_if_absent_db (err not_found, c) = refl
none_if_absent_db (err e, c) = refl

get-Keeps : (name : String) → ExecKeeps (get name)
unfolding get latest_jobs find_enabled_certificate current_version_of preload_version
get-Keeps name c =
    ap (λ (db : Database). db.jobs)
      (bind-ReadsOnly _ _ (query-ReadsOnly _)
        (λ model.
          bind-ReadsOnly _ _
            (λ d.
              ap (λ (x : Connection). x.db) (none_if_absent_db (current_version_of model.id d))
              ∙ bind-ReadsOnly _ _ (query-ReadsOnly _)
                  (λ row. bind-ReadsOnly _ _ (query-ReadsOnly _) (λ name. pure-ReadsOnly _)) d)
            (λ version. bind-ReadsOnly _ _ (query-ReadsOnly _) (λ jobs. pure-ReadsOnly _)))
        c)

add_version-Keeps : (v : Version) (now : Time) → ExecKeeps (add_version v now)
unfolding add_version add_version_body find_enabled_certificate create_version mark_valid
    update_where_id
add_version-Keeps v now c =
    transaction_db (λ db. db.jobs ≡ c.db.jobs) (add_version_body v now) c refl
      (λ f₁.
        Returns-query (λ _ db. db.jobs ≡ c.db.jobs) _ _ (at c.db f₁)
          (λ row f₂ found.
            Returns-write (λ _ db. db.jobs ≡ c.db.jobs) (create_version row.id v) _ (at c.db f₂)
              (λ f₃. elim (Bool-cases (eqb row.id 0)) [
                | inl zeroed ↦ rw zeroed (unfold raise in tt)
                | inr positive ↦ rw positive (write-Returns (λ _ db. db.jobs ≡ c.db.jobs) _ _ refl)
              ])))

record_audit-Keeps :
    (now : Time) (actor action resource detail ip : String)
    → ExecKeeps (record_audit now actor action resource detail ip)
unfolding record_audit
record_audit-Keeps now actor action resource detail ip c =
    write_db (λ db. db.jobs ≡ c.db.jobs) _ c refl refl

module _ (m : Manager) (s : Surroundings) (name kind : String) where
  pub issue_body-Keeps : Keeps (issue_body m s name kind)
  unfolding issue_body
  issue_body-Keeps = then-Keeps _ _ (lift-Keeps _) (
      bind-Keeps _ _ (call-Keeps (get name) (get-Keeps name)) (λ found.
        bind-Keeps _ _ (on_disk-Keeps _) (λ resource. bind-Keeps _ _ (on_disk-Keeps _) (λ version.
          then-Keeps _ _ (call-Keeps _ (add_version-Keeps version s.added_at)) (
            then-Keeps _ _ (ignoring-Keeps _ (record_audit-Keeps s.recorded_at _ _ _ _ _))
              (lift-Keeps _))))))
