-- ===== src/Audits/Retention.antt =====
-- What the retention keeps (backend/database/repository/audit_repository.go, and the cleanup of
-- backend/service/audit_retention.go).
use cert_vault.Prelude.{ℕ, ◌+◌, ◌≤◌, ◌≡◌, refl, List, [], ◌∷◌, arith, leb, count_if, length, select}
use cert_vault.Prelude.Outcome.{ok}
use cert_vault.Database.{Time, Database, AuditRow, quiet}
use cert_vault.Database.Exec.{statement}
use cert_vault.Database.Rows.{delete}
use cert_vault.Audits.{older, delete_before}

deleted_select :
    (cutoff : Time) (rows : List AuditRow)
    → delete (older cutoff) rows ≡ select (λ r. leb cutoff r.at) rows
unfolding delete older select
deleted_select cutoff [] = refl
deleted_select cutoff (r ∷ rows) = ground (arith, deleted_select cutoff rows)

deleted_count :
    (cutoff : Time) (rows : List AuditRow)
    → length (delete (older cutoff) rows) + count_if (older cutoff) rows ≡ length rows
unfolding delete count_if
deleted_count cutoff [] = refl
deleted_count cutoff (r ∷ rows) = ground (arith, deleted_count cutoff rows)

recent_kept :
    (cutoff later : Time) (rows : List AuditRow)
    → cutoff ≤ later
    → delete (older later) (delete (older cutoff) rows) ≡ delete (older later) rows
unfolding delete older
recent_kept cutoff later [] h = refl
recent_kept cutoff later (r ∷ rows) h = ground (arith, recent_kept cutoff later rows h)

-- Where the statement does not fail: the events that stay are those at the cutoff or after it, all
-- of them, in their order; the answer is the number of the others; and a cleanup at an earlier time
-- never changes what a later one leaves.
pub delete_before_lem :
    (cutoff later : Time) (db : Database)
    → cutoff ≤ later
    → let after = (delete_before cutoff (quiet db)).1.db in
      (after.audits.rows ≡ select (λ r. leb cutoff r.at) db.audits.rows)
      × ((n : ℕ) × ((delete_before cutoff (quiet db)).0 ≡ ok n)
          × (length after.audits.rows + n ≡ length db.audits.rows))
      × ((delete_before later (quiet after)).1.db ≡ (delete_before later (quiet db)).1.db)
unfolding delete_before statement
delete_before_lem cutoff later db h = (
  deleted_select cutoff db.audits.rows,
  (count_if (older cutoff) db.audits.rows, refl, deleted_count cutoff db.audits.rows),
  rw (recent_kept cutoff later db.audits.rows h) refl,
)
